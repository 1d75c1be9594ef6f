-- ===== src/PathCache/Steps/Valid.antt =====
-- Every critical section keeps the invariant of the caches.
use blorg_fs.Prelude.{
  ℕ, suc, ◌+◌, ◌*◌, ◌^◌, ◌≤◌, ◌<◌, ◌≡◌, refl, sym, ap, ◌∙◌, leb, Bool, not, List, [], ◌∷◌, Option,
  none, some, inl, inr, arith, length, sum_of, total-le, total-same, Bool-cases, ◌&&◌, ◌||◌,
  update_all, is_empty,
}
use blorg_fs.PathCache.Kernel.{Name, Kernel, IsDocumented}
use blorg_fs.PathCache.Paths.{buckets, bucket_of}
use blorg_fs.PathCache.Types.{
  Metadata, Ticket, Listing, PathEntry, ListingEntry, Bucket, Cache, Snapshot, advance_sequence,
  age, is_listing_live, ticket_honoured, max_per_bucket, listing_max_per_bucket, snapshot,
}
use blorg_fs.PathCache.Insert.{insert_locked, new_entry, counts_of}
use blorg_fs.PathCache.Lookup.{
  FoundListing, lookup_listing, walk_listings, answer_listing, referenced,
}
use blorg_fs.PathCache.Invalidate.{
  invalidate_locked, sweep_bucket, listing_drop, sweep_listing_bucket, is_swept, charges_of,
}
use blorg_fs.PathCache.Publish.{publish_locked, new_listing_entry}
use blorg_fs.PathCache.Valid.{IsHome, IsValid, listing_paths_of, holds, held_bytes}
use blorg_fs.PathCache.Valid.PathBuckets.{
  Fits, append-Refilled, Refilled-Shrunk, drop_path-Shrunk, drop_path-Sub, sweep-Shrunk, sweep-Sub,
  Sub-paths,
}
use blorg_fs.PathCache.Valid.Put.{
  bucket_of-lt, bucket-le-count, put_bucket-IsValid, bucket-le-bytes, bucket-le-references,
  put_listings-IsValid, same_IsValid,
}
use blorg_fs.PathCache.Valid.ListingBuckets.{Covers, drop_listing-Released, sweep_listings-Released}
use blorg_fs.PathCache.Valid.Offer.{ListingRefilled-Released, publish_walk-Refilled}
use blorg_fs.PathCache.Steps.{
  Step, inserts, publishes, looks_up, drops_path, sweeps, drops_listing, sweeps_listings, flushes,
  switches, Run, here, next, advances,
}

module _ (k : Kernel) (c : Cache) (v : IsValid k c) where
  count_small : c.count ≤ buckets * max_per_bucket
  count_small = omega (
    arith,
    v.counted,
    total-le buckets max_per_bucket (λ b. length (c.buckets b).list) v.path_cap,
  )

  bucket-Fits : (b : ℕ) → b < buckets → Fits (c.buckets b).list (counts_of c b)
  bucket-Fits b h =
      omega (arith, v.path_count b, v.path_cap b, bucket-le-count k c v b h, count_small)

  bucket-Covers : (b : ℕ) → b < buckets → Covers (c.listing_buckets b).list (charges_of c b)
  bucket-Covers b h = record {
    bucket = omega (arith, v.listing_count b);
    bucket_lt = omega (arith, v.listing_count b, v.listing_cap b);
    bytes = bucket-le-bytes k c v b h;
    bytes_lt = omega (arith, v.budget);
    references = bucket-le-references k c v b h;
  }

  insert_locked-IsValid :
      (s : Snapshot) (path : Name) (exists : Bool) (m : Option Metadata) (ticket : Option Ticket)
      → IsValid k (insert_locked k s path exists m ticket c)
  unfolding insert_locked new_entry
  insert_locked-IsValid s path exists m ticket = elim (Bool-cases (ticket_honoured ticket c)) [
    | inl p ↦ rw p (
        put_bucket-IsValid k c v b (bucket_of-lt k path) _ _ (
          append-Refilled k b s (new_entry s path exists m ticket c) m (c.buckets b).list
            (counts_of c b) (v.path_home b) (v.path_count b) (v.path_cap b)
            (bucket-le-count k c v b (bucket_of-lt k path)) (omega (arith, count_small)) refl))
    | inr p ↦ rw p v
  ]
    where
      b : ℕ
      b = bucket_of k path

  invalidate_locked-IsValid : (path : Name) → IsValid k (invalidate_locked k path c)
  unfolding invalidate_locked
  invalidate_locked-IsValid path = put_bucket-IsValid k c v b (bucket_of-lt k path) _ _ (
      Refilled-Shrunk k b (c.buckets b).list (counts_of c b) _ _ (v.path_home b) (v.path_count b)
        (v.path_cap b) (Sub-paths (drop_path-Sub k path (c.buckets b).list (counts_of c b)))
        (drop_path-Shrunk k path (c.buckets b).list (counts_of c b)
          (bucket-Fits b (bucket_of-lt k path))))
    where
      b : ℕ
      b = bucket_of k path

  sweep_bucket-IsValid :
      (dir : Name) (keep_dir children_only : Bool) (b : ℕ)
      → b < buckets
      → IsValid k (sweep_bucket k dir keep_dir children_only b c)
  unfolding sweep_bucket
  sweep_bucket-IsValid dir keep_dir children_only b h = put_bucket-IsValid k c v b h _ _ (
      Refilled-Shrunk k b (c.buckets b).list (counts_of c b) _ _ (v.path_home b) (v.path_count b)
        (v.path_cap b) (Sub-paths (sweep-Sub test (c.buckets b).list (counts_of c b)))
        (sweep-Shrunk test (c.buckets b).list (counts_of c b) (bucket-Fits b h)))
    where
      test : PathEntry → Bool
      test = is_swept k dir keep_dir children_only

  listing_drop-IsValid : (dir : Name) → IsValid k (listing_drop k dir c)
  unfolding listing_drop
  listing_drop-IsValid dir = put_listings-IsValid k c v b (bucket_of-lt k dir) _ _ (
      ListingRefilled-Released k b (v.listing_home b) (v.listing_count b) (v.listing_cap b) v.budget
        (drop_listing-Released k dir (c.listing_buckets b).list (charges_of c b)
          (bucket-Covers b (bucket_of-lt k dir))))
    where
      b : ℕ
      b = bucket_of k dir

  sweep_listing_bucket-IsValid :
      (test : ListingEntry → Bool) (b : ℕ) → b < buckets → IsValid k (sweep_listing_bucket test b c)
  unfolding sweep_listing_bucket
  sweep_listing_bucket-IsValid test b h = put_listings-IsValid k c v b h _ _ (
      ListingRefilled-Released k b (v.listing_home b) (v.listing_count b) (v.listing_cap b) v.budget
        (sweep_listings-Released test (c.listing_buckets b).list (charges_of c b)
          (bucket-Covers b h)))

  publish_locked-IsValid :
      (d : IsDocumented k) (s : Snapshot) (allocated : Bool) (dir : Name) (l : Listing)
      (ticket : Option Ticket)
      → l.bytes < 2 ^ 63
      → IsValid k (publish_locked k s allocated dir l ticket c).1
  unfolding publish_locked new_listing_entry
  publish_locked-IsValid d s allocated dir l ticket h =
      elim (Bool-cases (ticket_honoured ticket c)) [
        | inl p ↦ rw p (
            put_listings-IsValid k c v b (bucket_of-lt k dir) _ _ (
              publish_walk-Refilled k b d s allocated (new_listing_entry s dir l ticket c)
                (c.listing_buckets b).list (charges_of c b) (v.listing_home b) (v.listing_count b)
                (v.listing_cap b) v.budget (bucket-Covers b (bucket_of-lt k dir)) refl h))
        | inr p ↦ rw p v
      ]
    where
      b : ℕ
      b = bucket_of k dir

-- Two lists charge the same: they differ at most in who claimed a refresh.
record SameCharges (es es' : List ListingEntry) : Type 0 where
  paths : listing_paths_of es' ≡ listing_paths_of es
  size : length es' ≡ length es
  bytes : held_bytes es' ≡ held_bytes es
  references : (id : ℕ) → sum_of (holds id) es' ≡ sum_of (holds id) es

SameCharges-cons :
    (e : ListingEntry) {es es' : List ListingEntry}
    → SameCharges es es'
    → SameCharges (e ∷ es) (e ∷ es')
SameCharges-cons e s = record {
  paths = ap (λ (ps : List Name). e.path ∷ ps) s.paths;
  size = ap suc s.size;
  bytes = ap (λ n. e.bytes + n) s.bytes;
  references = λ id. ap (λ n. holds id e + n) (s.references id);
}

answer_listing-same :
    (s : Snapshot) (allow_stale : Bool) (ticket : Option Ticket) (e : ListingEntry)
    (es : List ListingEntry)
    → SameCharges (e ∷ es) (answer_listing s allow_stale ticket e es).entries
unfolding answer_listing
answer_listing-same s allow_stale ticket e es =
    elim (Bool-cases (
      is_listing_live e s.now s.generation s.lifetime
      && (not (leb s.lifetime (age e.issue_time s.now)) || allow_stale))) [
        | inl p ↦ rw p (record { paths = refl; size = refl; bytes = refl; references = λ id. refl })
        | inr p ↦ rw p (record { paths = refl; size = refl; bytes = refl; references = λ id. refl })
      ]

walk_listings-same :
    (k : Kernel) (s : Snapshot) (dir : Name) (allow_stale : Bool) (ticket : Option Ticket)
    (es : List ListingEntry)
    → SameCharges es (walk_listings k s dir allow_stale ticket es).entries
unfolding walk_listings
walk_listings-same k s dir allow_stale ticket [] = record {
  paths = refl;
  size = refl;
  bytes = refl;
  references = λ id. refl;
}
walk_listings-same k s dir allow_stale ticket (e ∷ es) = elim (Bool-cases (k.equal e.path dir)) [
  | inl p ↦ rw p (answer_listing-same s allow_stale ticket e es)
  | inr p ↦ rw p (SameCharges-cons e (walk_listings-same k s dir allow_stale ticket es))
]

le-referenced :
    (l : Option Listing) (references : ℕ → ℕ) (id : ℕ) → references id ≤ referenced l references id
unfolding referenced
le-referenced none references id = omega arith
le-referenced (some l) references id = ground (arith, ap references)

lookup_listing-IsValid :
    (k : Kernel) (c : Cache)
    → IsValid k c
    → (now : ℕ) (dir : Name) (allow_stale : Bool) (ticket : Option Ticket)
    → IsValid k (lookup_listing k now dir allow_stale ticket c).1
unfolding lookup_listing
lookup_listing-IsValid k c v now dir allow_stale ticket =
    elim (Bool-cases (c.ready && not (is_empty dir))) [
      | inl p ↦ rw p (record {
        path_home = v.path_home;
        path_count = v.path_count;
        path_cap = v.path_cap;
        counted = v.counted;
        listing_home =
            update_all (λ i (x : Bucket ListingEntry). IsHome k i (listing_paths_of x.list))
              c.listing_buckets b _ (rw same.paths (v.listing_home b)) v.listing_home;
        listing_count =
            update_all (λ i (x : Bucket ListingEntry). x.count ≡ length x.list) c.listing_buckets b
              _ (rw same.size (v.listing_count b)) v.listing_count;
        listing_cap =
            update_all (λ i (x : Bucket ListingEntry). length x.list ≤ listing_max_per_bucket)
              c.listing_buckets b _ (rw same.size (v.listing_cap b)) v.listing_cap;
        charged =
            v.charged
            ∙ sym (
                total-same buckets b (λ (x : Bucket ListingEntry). held_bytes x.list)
                  c.listing_buckets _ same.bytes);
        budget = v.budget;
        referenced = λ id. omega (
          arith,
          v.referenced id,
          le-referenced found.listing c.references id,
          total-same buckets b (λ (x : Bucket ListingEntry). sum_of (holds id) x.list)
              c.listing_buckets (record (c.listing_buckets b) { list = found.entries })
              (same.references id),
        );
      })
      | inr p ↦ rw p v
    ]
  where
    b : ℕ
    b = bucket_of k dir

    found : FoundListing
    found = walk_listings k (snapshot c now) dir allow_stale ticket (c.listing_buckets b).list

    same : SameCharges (c.listing_buckets b).list found.entries
    same = walk_listings-same k (snapshot c now) dir allow_stale ticket (c.listing_buckets b).list

module _ (k : Kernel) (d : IsDocumented k) where
  -- Every critical section keeps the invariant.
  pub Step-IsValid : {c c' : Cache} → Step k c c' → IsValid k c → IsValid k c'
  Step-IsValid (inserts {c = c} s path exists m ticket) v =
      insert_locked-IsValid k c v s path exists m ticket
  Step-IsValid (publishes {c = c} s allocated dir l ticket h) v =
      publish_locked-IsValid k c v d s allocated dir l ticket h
  Step-IsValid (looks_up {c = c} now dir allow_stale ticket) v =
      lookup_listing-IsValid k c v now dir allow_stale ticket
  Step-IsValid (drops_path {c = c} path) v = invalidate_locked-IsValid k c v path
  Step-IsValid (sweeps {c = c} dir keep_dir children_only b h) v =
      sweep_bucket-IsValid k c v dir keep_dir children_only b h
  Step-IsValid (drops_listing {c = c} dir) v = listing_drop-IsValid k c v dir
  Step-IsValid (sweeps_listings {c = c} test b h) v = sweep_listing_bucket-IsValid k c v test b h
  Step-IsValid flushes v = same_IsValid v
  Step-IsValid (switches live) v = same_IsValid v

  -- So does every interleaving of them.
  pub Run-IsValid : {n : ℕ} {c c' : Cache} → Run k n c c' → IsValid k c → IsValid k c'
  unfolding advance_sequence
  Run-IsValid here v = v
  Run-IsValid (next r s) v = Step-IsValid s (Run-IsValid r v)
  Run-IsValid (advances r) v = same_IsValid (Run-IsValid r v)
