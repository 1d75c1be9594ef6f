-- ===== src/PathCache/Invalidate.antt =====
-- The invalidations of src/PathCache.c: one path, a subtree, everything, and the change feed's
-- switch of the lifetime. Each advances the sequence and then sweeps the buckets, one lock at a
-- time.
use blorg_fs.Prelude.{
  ℕ, zero, suc, Bool, true, false, ◌&&◌, ◌||◌, not, List, [], ◌∷◌, Option, none, some, length,
  update, is_empty, add32, ◌==◌, if◌then◌else◌,
}
use blorg_fs.PathCache.Kernel.{Name, Kernel}
use blorg_fs.PathCache.Paths.{buckets, bucket_of, parent, is_under, is_below_child}
use blorg_fs.PathCache.Types.{
  PathEntry, ListingEntry, Cache, Counts, Charges, advance_sequence, drop_count, uncharge,
}
use blorg_fs.PathCache.Insert.{put_bucket, counts_of}

-- The loop of BlorgPathCacheInvalidate: the first entry for the path is removed.
unfoldable pub drop_path : Kernel → Name → List PathEntry → Counts → List PathEntry × Counts
unfolding drop_count
drop_path k path [] n = ([], n)
drop_path k path (e ∷ es) n =
    let (rest, n') = drop_path k path es n in
    if k.equal e.path path then (es, drop_count n) else (e ∷ rest, n')

-- The critical section of BlorgPathCacheInvalidate.
unfoldable pub invalidate_locked : Kernel → Name → Cache → Cache
unfolding drop_path put_bucket
invalidate_locked k path c =
    let b = bucket_of k path in
    let (es, n) = drop_path k path (c.buckets b).list (counts_of c b) in put_bucket c b es n

-- The sweep of PathCacheInvalidateUnder over one bucket: every entry that passes the test goes.
unfoldable pub sweep : (PathEntry → Bool) → List PathEntry → Counts → List PathEntry × Counts
unfolding drop_count
sweep test [] n = ([], n)
sweep test (e ∷ es) n =
    let (rest, n') = sweep test es (if test e then drop_count n else n) in
    if test e then (rest, n') else (e ∷ rest, n')

-- The test of PathCacheInvalidateUnder.
unfoldable pub is_swept : Kernel → Name → Bool → Bool → PathEntry → Bool
is_swept k dir keep_dir children_only e =
    is_under k dir e.path
    && not (keep_dir && (length e.path == length dir))
    && not (children_only && is_below_child dir e.path)

-- One bucket of PathCacheInvalidateUnder, under its lock.
unfoldable pub sweep_bucket : Kernel → Name → Bool → Bool → ℕ → Cache → Cache
unfolding sweep is_swept put_bucket
sweep_bucket k dir keep_dir children_only b c =
    let (es, n) =
      sweep (is_swept k dir keep_dir children_only) (c.buckets b).list (counts_of c b) in
    put_bucket c b es n

-- `for (i = 0; i < n; i++)` over the buckets; the rounds are those already made when bucket n - 1
-- is taken.
unfoldable pub for_buckets : (ℕ → Cache → Cache) → ℕ → Cache → Cache
for_buckets body zero c = c
for_buckets body (suc n) c = body n (for_buckets body n c)

-- PathCacheInvalidateUnder
unfoldable pub invalidate_under : Kernel → Name → Bool → Bool → Cache → Cache
invalidate_under k dir keep_dir children_only c =
    for_buckets (sweep_bucket k dir keep_dir children_only) buckets c

-- The first listing of exactly a directory is removed.
unfoldable pub drop_listing :
    Kernel → Name → List ListingEntry → Charges → List ListingEntry × Charges
unfolding uncharge
drop_listing k dir [] n = ([], n)
drop_listing k dir (e ∷ es) n =
    let (rest, n') = drop_listing k dir es n in
    if k.equal e.path dir then (es, uncharge n e) else (e ∷ rest, n')

unfoldable pub put_listings : Cache → ℕ → List ListingEntry → Charges → Cache
put_listings c b es n = record c {
  listing_buckets = update c.listing_buckets b (record { list = es; count = n.bucket });
  listing_bytes = n.bytes;
  references = n.references;
}

abbrev pub charges_of : Cache → ℕ → Charges
charges_of c b = record {
  bucket = (c.listing_buckets b).count;
  bytes = c.listing_bytes;
  references = c.references;
}

-- ListingCacheDrop
unfoldable pub listing_drop : Kernel → Name → Cache → Cache
unfolding drop_listing put_listings
listing_drop k dir c =
    let b = bucket_of k dir in
    let (es, n) = drop_listing k dir (c.listing_buckets b).list (charges_of c b) in
    put_listings c b es n

-- ListingCacheDropParent
unfoldable pub listing_drop_parent : Kernel → Name → Cache → Cache
unfolding listing_drop
listing_drop_parent k path c = elim (parent path) [ none ↦ c | some dir ↦ listing_drop k dir c ]

-- BlorgPathCacheInvalidate
unfoldable pub invalidate : Kernel → Name → Cache → Cache
invalidate k path c =
    if not c.ready || is_empty path
    then c
    else listing_drop_parent k path
        (listing_drop k path (invalidate_locked k path (advance_sequence c)))

-- The loops that remove every listing passing a test from a bucket.
unfoldable pub sweep_listings :
    (ListingEntry → Bool) → List ListingEntry → Charges → List ListingEntry × Charges
unfolding uncharge
sweep_listings test [] n = ([], n)
sweep_listings test (e ∷ es) n =
    let (rest, n') = sweep_listings test es (if test e then uncharge n e else n) in
    if test e then (rest, n') else (e ∷ rest, n')

unfoldable pub sweep_listing_bucket : (ListingEntry → Bool) → ℕ → Cache → Cache
unfolding sweep_listings put_listings
sweep_listing_bucket test b c =
    let (es, n) = sweep_listings test (c.listing_buckets b).list (charges_of c b) in
    put_listings c b es n

-- The test of ListingCacheDropUnder: `none` is a NULL directory, and drops everything.
unfoldable pub is_listing_under : Kernel → Option Name → ListingEntry → Bool
is_listing_under k none e = true
is_listing_under k (some dir) e = is_under k dir e.path

-- ListingCacheDropUnder
unfoldable pub listing_drop_under : Kernel → Option Name → Cache → Cache
listing_drop_under k dir c = for_buckets (sweep_listing_bucket (is_listing_under k dir)) buckets c

-- BlorgPathCacheInvalidatePrefix
unfoldable pub invalidate_prefix : Kernel → Name → Cache → Cache
invalidate_prefix k dir c =
    if not c.ready || is_empty dir
    then c
    else listing_drop_parent k dir
        (listing_drop_under k (some dir) (invalidate_under k dir false false (advance_sequence c)))

-- BlorgPathCacheInvalidateAll
unfoldable pub invalidate_all : Kernel → Cache → Cache
unfolding advance_sequence
invalidate_all k c =
    let c' = advance_sequence c in
    let flushed : Cache = record c' { generation = add32 c'.generation 1 } in
    if c.ready then listing_drop_under k none flushed else flushed

-- BlorgPathCacheFollowFeed
unfoldable pub follow_feed : Kernel → Bool → Cache → Cache
unfolding invalidate_all
follow_feed k live c =
    let c' = if live then invalidate_all k c else c in record c' { feed_live = live }

-- BlorgPathCacheCleanup. Entries leave the path buckets with no counter but the bucket's, which is
-- zeroed; listings leave through ListingCacheRemoveEntry.
unfoldable pub cleanup : Kernel → Cache → Cache
cleanup k c =
    let down : Cache = record c { ready = false; buckets = λ i. record { list = []; count = 0 } } in
    let empty = listing_drop_under k none down in if c.ready then record empty { count = 0 } else c
