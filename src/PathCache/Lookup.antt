-- ===== src/PathCache/Lookup.antt =====
-- PathCacheFind of src/PathCache.c and its callers, and BlorgPathCacheLookupListing.
pub mod Laws
pub mod AfterInsert
pub mod AfterInvalidate
pub mod Refresh
use blorg_fs.Prelude.{
  ℕ, ◌+◌, ◌≤◌, Bool, true, false, ◌&&◌, ◌||◌, not, List, [], ◌∷◌, Option, none, some, update,
  is_empty, add64, leb, if◌then◌else◌,
}
use blorg_fs.PathCache.Kernel.{Name, Kernel}
use blorg_fs.PathCache.Paths.{bucket_of}
use blorg_fs.PathCache.Types.{
  Metadata, Ticket, Listing, PathEntry, ListingEntry, Bucket, Cache, Snapshot, LookupResult,
  path_cache_miss, path_cache_exists, path_cache_not_found, age, is_live, is_listing_live, snapshot,
}

-- The first entry of a bucket for a path: what both lookups' loops stop at.
unfoldable pub first_of_path : Kernel → Name → List PathEntry → Option PathEntry
first_of_path k path [] = none
first_of_path k path (e ∷ es) =
    let rest = first_of_path k path es in if k.equal e.path path then some e else rest

-- What PathCacheFind returns and writes through `Meta` (`none`: not written) and `Ticket`.
pub record Found : Type 0 where
  pub result : LookupResult
  pub meta : Option Metadata
  pub ticket : Option Ticket

abbrev pub miss : Option Ticket → Found
miss ticket = record { result = path_cache_miss; meta = none; ticket = ticket }

-- A NULL ticket stays NULL.
abbrev pub dated : Option Ticket → ℕ → ℕ → Option Ticket
dated none sequence issue_time = none
dated (some t) sequence issue_time = some (record { sequence = sequence; issue_time = issue_time })

-- What a live or a dead entry answers.
unfoldable pub answer : Snapshot → Option Ticket → Option PathEntry → Found
unfolding is_live
answer s ticket none = miss ticket
answer s ticket (some e) =
    if is_live e s.now s.generation s.lifetime
    then if e.exists
      then record {
        result = path_cache_exists;
        meta = some e.meta;
        ticket = dated ticket e.sequence e.issue_time;
      }
      else record { result = path_cache_not_found; meta = none; ticket = ticket }
    else miss ticket

-- PathCacheFind, and so BlorgPathCacheLookupDated; BlorgPathCacheLookup and BlorgPathCachePeek
-- pass no ticket.
unfoldable pub find : Kernel → ℕ → Name → Option Ticket → Cache → Found
unfolding first_of_path answer snapshot
find k now path ticket c =
    if not c.ready || is_empty path
    then miss ticket
    else answer (snapshot c now) ticket (first_of_path k path (c.buckets (bucket_of k path)).list)

unfoldable pub lookup : Kernel → ℕ → Name → Cache → Found
unfolding find
lookup k now path c = find k now path none c

-- The counters of BlorgPathCacheCountLookup (src/Statistics.h).
pub record LookupStatistics : Type 0 where
  pub meta_data_reads : ℕ
  pub path_cache_hits : ℕ
  pub path_cache_misses : ℕ

-- BlorgPathCacheCountLookup
unfoldable pub count_lookup : LookupResult → LookupStatistics → LookupStatistics
count_lookup path_cache_miss s = record s {
  meta_data_reads = add64 s.meta_data_reads 1;
  path_cache_misses = add64 s.path_cache_misses 1;
}
count_lookup r s = record s {
  meta_data_reads = add64 s.meta_data_reads 1;
  path_cache_hits = add64 s.path_cache_hits 1;
}

-- What BlorgPathCacheLookupListing returns, writes and leaves in the bucket.
pub record FoundListing : Type 0 where
  pub listing : Option Listing
  pub stale : Bool
  pub refresh_owed : Bool
  pub ticket : Option Ticket
  pub entries : List ListingEntry

-- What the entry of the directory answers, and what becomes of it: the first stale lookup of a
-- snapshot claims its refresh.
unfoldable pub answer_listing :
    Snapshot → Bool → Option Ticket → ListingEntry → List ListingEntry → FoundListing
unfolding is_listing_live age
answer_listing s allow_stale ticket e es =
    let stale = leb s.lifetime (age e.issue_time s.now) in
    if is_listing_live e s.now s.generation s.lifetime && (not stale || allow_stale)
    then record {
      listing = some e.listing;
      stale = stale;
      refresh_owed = stale && not e.refresh_claimed;
      ticket = dated ticket e.sequence e.issue_time;
      entries = record e { refresh_claimed = stale || e.refresh_claimed } ∷ es;
    }
    else record {
      listing = none;
      stale = false;
      refresh_owed = false;
      ticket = ticket;
      entries = e ∷ es;
    }

-- The walk over the bucket to the first entry of the directory.
unfoldable pub walk_listings :
    Kernel → Snapshot → Name → Bool → Option Ticket → List ListingEntry → FoundListing
unfolding answer_listing
walk_listings k s dir allow_stale ticket [] = record {
  listing = none;
  stale = false;
  refresh_owed = false;
  ticket = ticket;
  entries = [];
}
walk_listings k s dir allow_stale ticket (e ∷ es) =
    let rest = walk_listings k s dir allow_stale ticket es in
    if k.equal e.path dir
    then answer_listing s allow_stale ticket e es
    else record rest { entries = e ∷ rest.entries }

-- The reference that a hit takes.
unfoldable pub referenced : Option Listing → (ℕ → ℕ) → ℕ → ℕ
referenced none references = references
referenced (some l) references = update references l.id (references l.id + 1)

-- BlorgPathCacheLookupListing
unfoldable pub lookup_listing :
    Kernel → ℕ → Name → Bool → Option Ticket → Cache → FoundListing × Cache
unfolding walk_listings referenced snapshot
lookup_listing k now dir allow_stale ticket c =
    let b = bucket_of k dir in
    let r = walk_listings k (snapshot c now) dir allow_stale ticket (c.listing_buckets b).list in
    if c.ready && not (is_empty dir)
    then (
      r,
      record c {
        listing_buckets =
            update c.listing_buckets b (record (c.listing_buckets b) { list = r.entries });
        references = referenced r.listing c.references;
      },
    )
    else (
      record { listing = none; stale = false; refresh_owed = false; ticket = ticket; entries = [] },
      c,
    )
