-- ===== src/PathCache/Valid/Put.antt =====
-- Putting one bucket back keeps the invariant of the whole cache.
use blorg_fs.Prelude.{
  ℕ, ◌+◌, ◌≤◌, ◌<◌, ◌≡◌, Bool, List, arith, length, sum_of, update_all, total-update, le-total,
}
use blorg_fs.PathCache.Kernel.{Name, Kernel}
use blorg_fs.PathCache.Paths.{buckets, bucket_of}
use blorg_fs.PathCache.Types.{
  PathEntry, ListingEntry, Bucket, Cache, Counts, Charges, max_per_bucket, listing_max_per_bucket,
  listing_max_bytes, advance_sequence,
}
use blorg_fs.PathCache.Insert.{put_bucket, counts_of}
use blorg_fs.PathCache.Invalidate.{put_listings, charges_of}
use blorg_fs.PathCache.Valid.{IsHome, IsValid, paths_of, listing_paths_of, holds, held_bytes}
use blorg_fs.PathCache.Valid.PathBuckets.{Refilled}

pub bucket_of-lt : (k : Kernel) (path : Name) → bucket_of k path < buckets
unfolding bucket_of
bucket_of-lt k path = omega arith

module _ (k : Kernel) (c : Cache) (v : IsValid k c) (b : ℕ) (h : b < buckets) where
  -- No bucket holds more entries than the whole cache counts.
  pub bucket-le-count : length (c.buckets b).list ≤ c.count
  bucket-le-count = omega (arith, v.counted, le-total buckets b (λ i. length (c.buckets i).list) h)

  pub put_bucket-IsValid :
      (es : List PathEntry) (n : Counts)
      → Refilled k b (c.buckets b).list (counts_of c b) es n
      → IsValid k (put_bucket c b es n)
  unfolding put_bucket
  put_bucket-IsValid es n r = record {
    path_home =
        update_all (λ i (x : Bucket PathEntry). IsHome k i (paths_of x.list)) c.buckets b _ r.home
          v.path_home;
    path_count =
        update_all (λ i (x : Bucket PathEntry). x.count ≡ length x.list) c.buckets b _ r.count
          v.path_count;
    path_cap =
        update_all (λ i (x : Bucket PathEntry). length x.list ≤ max_per_bucket) c.buckets b _ r.cap
          v.path_cap;
    counted = omega (
      arith,
      v.counted,
      r.all,
      total-update buckets b (λ (x : Bucket PathEntry). length x.list) c.buckets
          (record { list = es; count = n.bucket }) h,
    );
    listing_home = v.listing_home;
    listing_count = v.listing_count;
    listing_cap = v.listing_cap;
    charged = v.charged;
    budget = v.budget;
    referenced = v.referenced;
  }

-- What a listing bucket's list and charges satisfy after an operation.
pub record ListingRefilled (k : Kernel) (b : ℕ) (es : List ListingEntry) (n : Charges)
    (es' : List ListingEntry) (n' : Charges) : Type 0 where
  pub home : IsHome k b (listing_paths_of es')
  pub count : n'.bucket ≡ length es'
  pub cap : length es' ≤ listing_max_per_bucket
  pub bytes : n'.bytes + held_bytes es ≡ n.bytes + held_bytes es'
  pub budget : n'.bytes ≤ listing_max_bytes
  pub references :
      (id : ℕ) → n'.references id + sum_of (holds id) es ≡ n.references id + sum_of (holds id) es'

module _ (k : Kernel) (c : Cache) (v : IsValid k c) (b : ℕ) (h : b < buckets) where
  pub bucket-le-bytes : held_bytes (c.listing_buckets b).list ≤ c.listing_bytes
  bucket-le-bytes =
      omega (arith, v.charged, le-total buckets b (λ i. held_bytes (c.listing_buckets i).list) h)

  pub bucket-le-references :
      (id : ℕ) → sum_of (holds id) (c.listing_buckets b).list ≤ c.references id
  bucket-le-references id = omega (
    arith,
    v.referenced id,
    le-total buckets b (λ i. sum_of (holds id) (c.listing_buckets i).list) h,
  )

  pub put_listings-IsValid :
      (es : List ListingEntry) (n : Charges)
      → ListingRefilled k b (c.listing_buckets b).list (charges_of c b) es n
      → IsValid k (put_listings c b es n)
  unfolding put_listings
  put_listings-IsValid es n r = record {
    path_home = v.path_home;
    path_count = v.path_count;
    path_cap = v.path_cap;
    counted = v.counted;
    listing_home =
        update_all (λ i (x : Bucket ListingEntry). IsHome k i (listing_paths_of x.list))
          c.listing_buckets b _ r.home v.listing_home;
    listing_count =
        update_all (λ i (x : Bucket ListingEntry). x.count ≡ length x.list) c.listing_buckets b _
          r.count v.listing_count;
    listing_cap =
        update_all (λ i (x : Bucket ListingEntry). length x.list ≤ listing_max_per_bucket)
          c.listing_buckets b _ r.cap v.listing_cap;
    charged = omega (
      arith,
      v.charged,
      r.bytes,
      total-update buckets b (λ (x : Bucket ListingEntry). held_bytes x.list) c.listing_buckets
          (record { list = es; count = n.bucket }) h,
    );
    budget = r.budget;
    referenced = λ id. omega (
      arith,
      v.referenced id,
      r.references id,
      total-update buckets b (λ (x : Bucket ListingEntry). sum_of (holds id) x.list)
          c.listing_buckets (record { list = es; count = n.bucket }) h,
    );
  }

-- The invariant says nothing of the sequence, the generation and the feed's flag.
pub same_IsValid :
    {k : Kernel} {c : Cache} {sequence generation : ℕ} {ready live : Bool}
    → IsValid k c
    → IsValid k
        (record c { sequence = sequence; generation = generation; ready = ready; feed_live = live })
same_IsValid v = record {
  path_home = v.path_home;
  path_count = v.path_count;
  path_cap = v.path_cap;
  counted = v.counted;
  listing_home = v.listing_home;
  listing_count = v.listing_count;
  listing_cap = v.listing_cap;
  charged = v.charged;
  budget = v.budget;
  referenced = v.referenced;
}

pub advance_sequence-IsValid :
    {k : Kernel} {c : Cache} → IsValid k c → IsValid k (advance_sequence c)
unfolding advance_sequence
advance_sequence-IsValid v = same_IsValid v
