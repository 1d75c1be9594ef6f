-- ===== src/Lib.antt =====
-- Models of the metadata caches, the change feed, the disk cache's index, the TLS handshake and the
-- HTTP parsing of the BlorgFS driver, a read-only network file system for Windows.
--
-- The path cache (src/PathCache.c) answers opens: for each path it holds that the path exists, with
-- its metadata, or that it does not. The listing cache, in the same file, holds directory listings.
-- Both are hash tables of short lists, each bucket under its own lock. Whatever enters them carries
-- a ticket taken before its request was sent; an invalidation first advances a sequence number and
-- then sweeps, so that an insert with an older ticket is refused. The change feed (src/ChangeFeed.c)
-- turns the server's reports into invalidations and, while it is up, lengthens the time that entries
-- are trusted. The disk cache's index (src/DiskCacheIndex.c) decides which slot of a cache file
-- holds which block of file content. What the caches hold comes over HTTP (src/Client.c), on TLS 1.3
-- connections whose server is known by a pinned key (src/TlsHandshake.c, on the message formats of
-- src/Tls.c).
--
-- Files:
--   Prelude: numbers, Boolean tests, lists, arrays as functions, machine words.
--   PathCache/Kernel: the Windows string routines that the caches call, as parameters with their
--     documented behaviour.
--   PathCache/Types: the records of src/PathCache.c and src/Structs.h, and the smaller functions
--     (age, lifetime, tickets, initialisation).
--   PathCache/Paths: the hash (BlorgHashPath of src/Structs.c), PathCacheParent, PathCacheIsUnder,
--     PathCacheIsBelowChild, PathCacheIsComponent.
--   PathCache/Insert: PathCacheInsert; `insert_locked` is its critical section.
--   PathCache/Lookup: PathCacheFind, BlorgPathCacheLookupListing.
--   PathCache/Invalidate: the invalidations of a path, of a subtree, of everything, and
--     BlorgPathCacheFollowFeed.
--   PathCache/Publish, with Seed and Descendants below it: BlorgPathCachePublishListing,
--     BlorgPathCacheSeedListing, BlorgPathCachePublishDescendants.
--   PathCache/Valid: the representation invariant, and that every critical section keeps it.
--   PathCache/Steps: critical sections as steps of a relation that threads interleave, and what
--     holds of every run.
--   ChangeFeed/State, ChangeFeed/Apply, ChangeFeed/Poll: ChangeFeedApply, BlorgChangeFeedReceive,
--     BlorgChangeFeedPoll, the thread's loop, start and stop.
--   DiskCache/Types and DiskCache/Index: the index's records (src/DiskCache.h) and its operations:
--     chains, the clock, pins, the plan of a read, admission.
--   Prelude/Fallible, Prelude/Contents, Prelude/Bytes: reads of a buffer that can fail, what a buffer
--     holds, and bit operations on bytes.
--   Tls/Wire, Tls/Hello, Tls/Certificate, Tls/Signature: TlsPutUint16 and its kin, the client's and
--     the server's Hello, the Certificate message with its DER and its key, CertificateVerify.
--   Tls/KeySchedule, Tls/Record: BlorgTlsHkdfExpand, BlorgTlsHkdfExpandLabel, TlsBuildNonce,
--     BlorgTlsStripInnerPlaintext, BlorgTlsConstantTimeEqual.
--   Handshake: the context and the interface of the cryptography; Handshake/Keys, Handshake/Flight,
--     Handshake/Record: TlsHandshakeOnReceiveServerHello, TlsHandshakeProcessFlightMessages with
--     BlorgTlsCheckPin, TlsHandshakeOnReceiveRecordPayload; Handshake/Done: runs of them; Handshake/Live and
--     Handshake/Served: a flight that keeps to the protocol.
--   Http/Headers, Http/Version, Http/Url: the small parsers of src/Client.c and its encoding of
--     paths.
--
-- A path is the list of its UTF-16 code units, and the empty list where the code has a NULL string:
-- the guards treat both alike. What the machine decides is an argument: the interrupt time, whether
-- an allocation succeeds, the reply to a poll. Counters wrap at 32 or 64 bits. A listing's pointer
-- is a number, by which its references are counted. An operation on one bucket is one step, since
-- its lock is held throughout; the sequence, the generation and the feed's switch change in steps of
-- their own.
--
-- Loops are structural on lists and counts, but for the walks over a hash chain, bounded by one more
-- than the number of slots, the doubling of the chain heads, bounded by 32 rounds, which pass every
-- slot count that is accepted, the loop of a read's plan, bounded by one more than its blocks, each round
-- giving one of them up where a run is allowed or nothing is to be fetched, the loop over a
-- ServerHello's extensions, bounded by one more than the message's bytes, each round taking four, the
-- loop over a flight's messages, bounded likewise, the loop of the key derivation, bounded by the
-- bytes to derive, each round giving one at least, and the loop over the directives of a header's
-- value, bounded by its bytes.
--
-- In the models of TLS a buffer is the list of its bytes and a pointer into it an index; a read
-- outside it, and a loop that has spent its bound, is `fault` (`broken` in the handshake). A length
-- that a message names has 24 bits at most, so no sum of it with an offset reaches 2 ^ 32 and none is
-- written with a wrap-around, but for those of a name that a caller gives. After an error the
-- handshake frees its context, so the models keep none.
--
-- Not modelled: the memory of the lists and of the strings, the trace and statistics macros but for
-- the counters named in the models, and the rest of the driver: the stages of requests, sockets,
-- the ciphers of TLS and its sends, IRP handlers, the disk cache's file I/O.
pub mod Prelude
pub mod PathCache
pub mod ChangeFeed
pub mod DiskCache
pub mod Tls
pub mod Handshake
pub mod Http
