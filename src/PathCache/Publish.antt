-- ===== src/PathCache/Publish.antt =====
-- BlorgPathCachePublishListing of src/PathCache.c.
pub mod Seed
pub mod Descendants
use blorg_fs.Prelude.{
  ℕ, zero, suc, ◌+◌, ◌-◌, Bool, true, false, ◌&&◌, ◌||◌, not, List, [], ◌∷◌, ◌++◌, Option, none,
  some, length, get_elem?, is_empty, update, sum_of, add32, add64, sub64, ltb, leb, if◌then◌else◌,
}
use blorg_fs.PathCache.Kernel.{Name, separator, Kernel}
use blorg_fs.PathCache.Paths.{buckets, bucket_of, is_component, ends_with_separator}
use blorg_fs.PathCache.Types.{
  Metadata, zero_metadata, Ticket, Child, Listing, Descendant, ListingEntry, Cache, Snapshot,
  Charges, max_path_bytes, seed_max, listing_max_per_bucket, listing_max_bytes, byte_length,
  is_listing_live, snapshot, ticket_honoured, uncharge, get_sub_dir_entry,
}
use blorg_fs.PathCache.Insert.{ticket_time, ticket_sequence, insert_exists}
use blorg_fs.PathCache.Invalidate.{
  for_buckets, sweep_listings, sweep_listing_bucket, put_listings, charges_of, invalidate_under,
}

-- ListingCacheReapDead
unfoldable pub reap_dead : Snapshot → Cache → Cache
reap_dead s c =
    for_buckets (sweep_listing_bucket (λ e. not (is_listing_live e s.now s.generation s.lifetime)))
      buckets c

-- `existing`: the last entry of the directory.
unfoldable pub last_of_path : Kernel → Name → List ListingEntry → Option ListingEntry
last_of_path k dir [] = none
last_of_path k dir (e ∷ es) = elim (last_of_path k dir es) [
  | some x ↦ some x
  | none ↦ if k.equal e.path dir then some e else none
]

-- The list without it.
unfoldable pub without_last : Kernel → Name → List ListingEntry → List ListingEntry
unfolding last_of_path
without_last k dir [] = []
without_last k dir (e ∷ es) =
    let rest = e ∷ without_last k dir es in
    elim (last_of_path k dir es) [ some x ↦ rest | none ↦ if k.equal e.path dir then es else rest ]

-- The oldest listing leaves a bucket at its capacity.
unfoldable pub evict_one : List ListingEntry → Charges → List ListingEntry × Charges
unfolding uncharge
evict_one [] n = ([], n)
evict_one (e ∷ es) n =
    if leb listing_max_per_bucket n.bucket then (es, uncharge n e) else (e ∷ es, n)

-- The `while` loop: the oldest listings leave while `bytes` more would exceed the budget.
unfoldable pub evict_bytes : ℕ → List ListingEntry → Charges → List ListingEntry × Charges
unfolding uncharge
evict_bytes bytes [] n = ([], n)
evict_bytes bytes (e ∷ es) n =
    let rest = evict_bytes bytes es (uncharge n e) in
    if ltb listing_max_bytes (add64 n.bytes bytes) then rest else (e ∷ es, n)

-- Room is made only if emptying the bucket would make enough.
unfoldable pub make_room : ℕ → List ListingEntry → Charges → List ListingEntry × Charges
unfolding evict_one evict_bytes
make_room bytes es n =
    let bucket_bytes = sum_of (λ (e : ListingEntry). e.bytes) es in
    let (es', n') = evict_one es n in
    if leb (add64 (sub64 n.bytes bucket_bytes) bytes) listing_max_bytes
    then evict_bytes bytes es' n'
    else (es, n)

-- ListingCacheCharge and what a charged publish does: the reference, and the entry at the tail.
-- A refused charge is added and taken back.
-- The sums of bytes are LONG64 in the source: below 2 ^ 63 they are these.
unfoldable pub keep_listing :
    ListingEntry → List ListingEntry → Charges → List ListingEntry × Charges
keep_listing new es n =
    if leb (add64 n.bytes new.bytes) listing_max_bytes
    then (
      es ++ new ∷ [],
      record {
        bucket = add32 n.bucket 1;
        bytes = add64 n.bytes new.bytes;
        references = update n.references new.listing.id (n.references new.listing.id + 1);
      },
    )
    else (es, n)

unfoldable pub new_listing_entry : Snapshot → Name → Listing → Option Ticket → Cache → ListingEntry
new_listing_entry s dir l ticket c = record {
  path = dir;
  listing = l;
  bytes = l.bytes;
  issue_time = ticket_time ticket s.now;
  sequence = ticket_sequence ticket c;
  generation = s.generation;
  refresh_claimed = false;
}

-- `existing && existing->IssueTime > issueTime`
unfoldable pub is_newer : Option ListingEntry → ℕ → Bool
is_newer none issue_time = false
is_newer (some e) issue_time = ltb issue_time e.issue_time

-- The entry that a newly fetched listing replaces leaves.
unfoldable pub drop_existing :
    Kernel → Name → Option ListingEntry → List ListingEntry → Charges → List ListingEntry × Charges
unfolding without_last uncharge
drop_existing k dir none es n = (es, n)
drop_existing k dir (some x) es n = (without_last k dir es, uncharge n x)

-- `if (current && newEntry)`
unfoldable pub offer :
    Bool → ListingEntry → List ListingEntry → Charges → List ListingEntry × Charges
unfolding make_room keep_listing
offer false new es n = (es, n)
offer true new es n = let (es', n') = make_room new.bytes es n in keep_listing new es' n'

-- The walk of a publish over a bucket: dead entries leave, and what is kept or replaced is decided.
unfoldable pub publish_walk :
    Kernel
    → Snapshot
    → Bool
    → ListingEntry
    → List ListingEntry
    → Charges
    → Bool × List ListingEntry × Charges
unfolding sweep_listings last_of_path is_newer drop_existing offer is_listing_live
publish_walk k s allocated new es n =
    let (live, n₁) =
      sweep_listings (λ e. not (is_listing_live e s.now s.generation s.lifetime)) es n in
    let existing = last_of_path k new.path live in
    let (rest, n₂) = drop_existing k new.path existing live n₁ in
    let (es', n₃) = offer allocated new rest n₂ in
    if is_newer existing new.issue_time then (false, live, n₁) else (true, es', n₃)

-- The critical section of a publish.
unfoldable pub publish_locked :
    Kernel → Snapshot → Bool → Name → Listing → Option Ticket → Cache → Bool × Cache
unfolding new_listing_entry publish_walk put_listings ticket_honoured
publish_locked k s allocated dir l ticket c =
    let b = bucket_of k dir in
    let (current, es, n) =
      publish_walk k s allocated (new_listing_entry s dir l ticket c) (c.listing_buckets b).list
        (charges_of c b) in
    if ticket_honoured ticket c then (current, put_listings c b es n) else (false, c)

unfoldable pub is_publishable : Cache → Name → Listing → Bool
is_publishable c dir l =
    c.ready && not (is_empty dir) && not (ltb max_path_bytes (byte_length dir)) && not l.no_store

-- `newEntry && ListingBytes + bytes > LISTING_CACHE_MAX_BYTES`: dead listings everywhere go first.
unfoldable pub reap_for : Snapshot → Bool → ℕ → Cache → Cache
unfolding reap_dead
reap_for s allocated bytes c =
    if allocated && ltb listing_max_bytes (add64 c.listing_bytes bytes) then reap_dead s c else c

-- BlorgPathCachePublishListing
unfoldable pub publish_listing :
    Kernel → ℕ → Bool → Name → Listing → Option Ticket → Cache → Bool × Cache
unfolding is_publishable snapshot
publish_listing k now allocated dir l ticket c =
    let s = snapshot c now in
    if is_publishable c dir l
    then publish_locked k s allocated dir l ticket (reap_for s allocated l.bytes c)
    else (false, c)

-- What the machine answers at each insert of a longer operation: the interrupt time, and whether
-- the allocations succeed.
pub record Machine : Type 0 where
  pub now : ℕ → ℕ
  pub allocated : ℕ → Bool
