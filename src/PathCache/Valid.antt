-- ===== src/PathCache/Valid.antt =====
-- The representation invariant of the two caches: every entry in its hash's bucket, at most one
-- for a path, within the caps, and every counter equal to what it counts.
pub mod PathBuckets
pub mod Put
pub mod ListingBuckets
pub mod Replace
pub mod Offer
use blorg_fs.Prelude.{
  ℕ, ◌+◌, ◌≤◌, ◌<◌, ◌≡◌, Bool, true, false, List, [], ◌∷◌, length, All, sum_of, total, ◌==◌,
  if◌then◌else◌,
}
use blorg_fs.PathCache.Kernel.{Name, Kernel}
use blorg_fs.PathCache.Paths.{buckets, bucket_of}
use blorg_fs.PathCache.Types.{
  PathEntry, ListingEntry, Bucket, Cache, max_per_bucket, listing_max_per_bucket, listing_max_bytes,
}

-- No two entries of a list have equal paths.
abbrev pub Distinct : Kernel → List Name → Type 0
Distinct k [] = Unit
Distinct k (p ∷ ps) = All (λ q. k.equal p q ≡ false) ps × Distinct k ps

abbrev pub paths_of : List PathEntry → List Name
paths_of [] = []
paths_of (e ∷ es) = e.path ∷ paths_of es

abbrev pub listing_paths_of : List ListingEntry → List Name
listing_paths_of [] = []
listing_paths_of (e ∷ es) = e.path ∷ listing_paths_of es

-- Every path belongs in bucket `b`, and no two are equal.
pub record IsHome (k : Kernel) (b : ℕ) (ps : List Name) : Type 0 where
  pub home : All (λ p. bucket_of k p ≡ b) ps
  pub distinct : Distinct k ps

-- How many of the entries hold a reference to a listing.
abbrev pub holds : ℕ → ListingEntry → ℕ
holds id e = if e.listing.id == id then 1 else 0

abbrev pub held_bytes : List ListingEntry → ℕ
held_bytes = sum_of (λ e. e.bytes)

pub record IsValid (k : Kernel) (c : Cache) : Type 0 where
  pub path_home : (b : ℕ) → IsHome k b (paths_of (c.buckets b).list)
  pub path_count : (b : ℕ) → (c.buckets b).count ≡ length (c.buckets b).list
  pub path_cap : (b : ℕ) → length (c.buckets b).list ≤ max_per_bucket
  pub counted : c.count ≡ total buckets (λ b. length (c.buckets b).list)
  pub listing_home : (b : ℕ) → IsHome k b (listing_paths_of (c.listing_buckets b).list)
  pub listing_count : (b : ℕ) → (c.listing_buckets b).count ≡ length (c.listing_buckets b).list
  pub listing_cap : (b : ℕ) → length (c.listing_buckets b).list ≤ listing_max_per_bucket
  pub charged : c.listing_bytes ≡ total buckets (λ b. held_bytes (c.listing_buckets b).list)
  pub budget : c.listing_bytes ≤ listing_max_bytes
  pub referenced :
      (id : ℕ) → total buckets (λ b. sum_of (holds id) (c.listing_buckets b).list) ≤ c.references id
