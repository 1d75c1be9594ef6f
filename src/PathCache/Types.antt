-- ===== src/PathCache/Types.antt =====
-- The state of src/PathCache.c, and the records of src/Structs.h that it stores and hands out.
use blorg_fs.Prelude.{
  ℕ, ◌-◌, ◌*◌, Bool, true, false, ◌&&◌, not, List, [], Option, none, some, length, get_elem?,
  update, add64, sub64, sub32, ltb, ◌==◌, if◌then◌else◌,
}
use blorg_fs.PathCache.Kernel.{Name}

-- DIRECTORY_ENTRY_METADATA
pub record Metadata : Type 0 where
  pub size : ℕ
  pub creation_time : ℕ
  pub last_accessed_time : ℕ
  pub last_modified_time : ℕ
  pub is_directory : Bool
  pub no_store : Bool

-- What ExAllocatePoolZero and RtlZeroMemory leave.
abbrev pub zero_metadata : Metadata
zero_metadata = record {
  size = 0;
  creation_time = 0;
  last_accessed_time = 0;
  last_modified_time = 0;
  is_directory = false;
  no_store = false;
}

-- PATH_CACHE_TICKET. A NULL ticket is `none`.
pub record Ticket : Type 0 where
  pub sequence : ℕ
  pub issue_time : ℕ

-- DIRECTORY_FILE_METADATA and DIRECTORY_SUBDIR_METADATA (a subdirectory has size 0).
pub record Child : Type 0 where
  pub name : Name
  pub size : ℕ
  pub creation_time : ℕ
  pub last_accessed_time : ℕ
  pub last_modified_time : ℕ

-- DIRECTORY_INFO. `id` stands for the pointer: reference counts are kept by it.
pub record Listing : Type 0 where
  pub id : ℕ
  pub files : List Child
  pub sub_dirs : List Child
  pub bytes : ℕ
  pub no_store : Bool

-- BlorgGetSubDirEntry; `none` is NULL.
unfoldable pub get_sub_dir_entry : Listing → ℕ → Option Child
get_sub_dir_entry l i = get_elem? l.sub_dirs i

-- DIRECTORY_DESCENDANT
pub record Descendant : Type 0 where
  pub listing : Listing
  pub parent : ℕ
  pub sub_dir : ℕ

-- PATH_CACHE_ENTRY
pub record PathEntry : Type 0 where
  pub path : Name
  pub issue_time : ℕ
  pub sequence : ℕ
  pub meta : Metadata
  pub generation : ℕ
  pub exists : Bool

-- LISTING_CACHE_ENTRY
pub record ListingEntry : Type 0 where
  pub path : Name
  pub listing : Listing
  pub bytes : ℕ
  pub issue_time : ℕ
  pub sequence : ℕ
  pub generation : ℕ
  pub refresh_claimed : Bool

-- PATH_CACHE_BUCKET, without its lock.
pub record Bucket (A : Type 0) : Type 0 where
  pub list : List A
  pub count : ℕ

-- PATH_CACHE_STATE, with the global ChangeFeedLive that it reads, and the reference counts of the
-- listings, which cache and readers share.
pub record Cache : Type 0 where
  pub buckets : ℕ → Bucket PathEntry
  pub listing_buckets : ℕ → Bucket ListingEntry
  pub sequence : ℕ
  pub listing_bytes : ℕ
  pub ready : Bool
  pub generation : ℕ
  pub count : ℕ
  pub feed_live : Bool
  pub references : ℕ → ℕ

-- PATH_CACHE_RESULT
pub data LookupResult : Type 0 where
  path_cache_miss path_cache_exists path_cache_not_found : LookupResult

abbrev pub max_per_bucket : ℕ
max_per_bucket = 16

abbrev pub max_path_bytes : ℕ
max_path_bytes = 4096

abbrev pub ttl : ℕ
ttl = 4 * 10 * 1000 * 1000

abbrev pub feed_ttl : ℕ
feed_ttl = 5 * 60 * 10 * 1000 * 1000

abbrev pub seed_max : ℕ
seed_max = 1024

abbrev pub listing_max_per_bucket : ℕ
listing_max_per_bucket = 8

abbrev pub listing_max_bytes : ℕ
listing_max_bytes = 32 * 1024 * 1024

abbrev pub stale_grace : ℕ
stale_grace = 26 * 10 * 1000 * 1000

-- `Path->Length`
abbrev pub byte_length : Name → ℕ
byte_length path = 2 * length path

-- PathCacheAge
unfoldable pub age : ℕ → ℕ → ℕ
age issue_time now = if ltb issue_time now then now - issue_time else 0

-- PathCacheLifetime
unfoldable pub path_lifetime : Cache → ℕ
path_lifetime c = if c.feed_live then feed_ttl else ttl

-- PathCacheEntryLive
unfoldable pub is_live : PathEntry → ℕ → ℕ → ℕ → Bool
unfolding age
is_live e now generation lifetime =
    ltb (age e.issue_time now) (if e.exists then lifetime else ttl) && (e.generation == generation)

-- ListingCacheEntryLive
unfoldable pub is_listing_live : ListingEntry → ℕ → ℕ → ℕ → Bool
unfolding age
is_listing_live e now generation lifetime =
    (e.generation == generation) && ltb (age e.issue_time now) (add64 lifetime stale_grace)

-- What a caller reads before it takes a bucket lock.
pub record Snapshot : Type 0 where
  pub now : ℕ
  pub generation : ℕ
  pub lifetime : ℕ

unfoldable pub snapshot : Cache → ℕ → Snapshot
unfolding path_lifetime
snapshot c now = record { now = now; generation = c.generation; lifetime = path_lifetime c }

-- PathCacheTicketHonoured
unfoldable pub ticket_honoured : Option Ticket → Cache → Bool
ticket_honoured none c = true
ticket_honoured (some t) c = t.sequence == c.sequence

-- PathCacheAdvanceSequence
unfoldable pub advance_sequence : Cache → Cache
advance_sequence c = record c { sequence = add64 c.sequence 1 }

-- BlorgPathCacheTakeTicket
unfoldable pub take_ticket : Cache → ℕ → Ticket
take_ticket c now = record { sequence = c.sequence; issue_time = now }

-- BlorgPathCacheTicketCurrent
unfoldable pub is_ticket_current : Ticket → Cache → ℕ → Bool
unfolding age path_lifetime
is_ticket_current t c now =
    not (t.issue_time == 0)
    && (t.sequence == c.sequence)
    && ltb (age t.issue_time now) (path_lifetime c)

-- BlorgPathCacheInit
unfoldable pub init : Cache → Cache
init c = record c {
  buckets = λ i. record { list = []; count = 0 };
  listing_buckets = λ i. record { list = []; count = 0 };
  generation = 0;
  count = 0;
  sequence = 0;
  listing_bytes = 0;
  ready = true;
}

-- The counters that PathCacheRemoveEntry updates.
pub record Counts : Type 0 where
  pub bucket : ℕ
  pub all : ℕ

unfoldable pub drop_count : Counts → Counts
drop_count n = record { bucket = sub32 n.bucket 1; all = sub32 n.all 1 }

-- What ListingCacheRemoveEntry updates beside the list: the bucket's count, the bytes charged to
-- the budget, and the snapshot's reference.
pub record Charges : Type 0 where
  pub bucket : ℕ
  pub bytes : ℕ
  pub references : ℕ → ℕ

unfoldable pub uncharge : Charges → ListingEntry → Charges
uncharge n e = record {
  bucket = sub32 n.bucket 1;
  bytes = sub64 n.bytes e.bytes;
  references = update n.references e.listing.id (n.references e.listing.id - 1);
}
