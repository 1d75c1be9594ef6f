-- ===== src/PathCache/Lookup/AfterInvalidate.antt =====
-- What a lookup answers after an invalidation.
use blorg_fs.Prelude.{
  ℕ, zero, suc, ◌<◌, ◌≡◌, refl, sym, ap, ◌∙◌, subst, Bool, true, false, ◌||◌, not, List, Option,
  none, some, inl, inr, arith, is_empty, update, update_self, update_ne, Bool-cases, Option-cases,
  All, All-map, ℕ_discrete,
}
use blorg_fs.PathCache.Kernel.{Name, Kernel, IsDocumented}
use blorg_fs.PathCache.Kernel.Laws.{equal_sym}
use blorg_fs.PathCache.Paths.{buckets, bucket_of, parent, is_under}
use blorg_fs.PathCache.Paths.Under.{is_under-equal}
use blorg_fs.PathCache.Types.{Ticket, PathEntry, Bucket, Cache, advance_sequence}
use blorg_fs.PathCache.Insert.{put_bucket, counts_of}
use blorg_fs.PathCache.Lookup.{find, first_of_path, answer, miss}
use blorg_fs.PathCache.Lookup.Laws.{first_of_path-none}
use blorg_fs.PathCache.Invalidate.{
  invalidate, invalidate_locked, invalidate_prefix, invalidate_under, sweep_bucket, for_buckets,
  listing_drop, listing_drop_parent, listing_drop_under, sweep_listing_bucket, put_listings,
  is_swept, sweep,
}
use blorg_fs.PathCache.Valid.{IsValid}
use blorg_fs.PathCache.Valid.Put.{bucket_of-lt, advance_sequence-IsValid}
use blorg_fs.PathCache.Steps.Race.{drop_path-ne, sweep-ne}

-- With no entry for the path in its bucket a lookup misses, ready or not.
pub find-miss :
    (k : Kernel) (now : ℕ) (path : Name) (asked : Option Ticket) (c : Cache)
    → first_of_path k path (c.buckets (bucket_of k path)).list ≡ none
    → find k now path asked c ≡ miss asked
unfolding find answer
find-miss k now path asked c e = elim (Bool-cases (not c.ready || is_empty path)) [
  | inl p ↦ rw p
  | inr p ↦ rw (p, e)
]

-- Listings leave the path buckets alone.
pub listing_drop_parent-buckets :
    (k : Kernel) (path : Name) (c : Cache) → (listing_drop_parent k path c).buckets ≡ c.buckets
unfolding listing_drop_parent listing_drop put_listings
listing_drop_parent-buckets k path c = elim (Option-cases (parent path)) [
  | inl p ↦ rw (p, listing_drop_parent)
  | inr (dir, p) ↦ rw (p, listing_drop_parent)
]

for_buckets-buckets :
    (body : ℕ → Cache → Cache)
    → ((b : ℕ) (c : Cache) → (body b c).buckets ≡ c.buckets)
    → (n : ℕ) (c : Cache) → (for_buckets body n c).buckets ≡ c.buckets
unfolding for_buckets
for_buckets-buckets body h zero c = refl
for_buckets-buckets body h (suc n) c = h n _ ∙ for_buckets-buckets body h n c

pub listing_drop_under-buckets :
    (k : Kernel) (dir : Option Name) (c : Cache) → (listing_drop_under k dir c).buckets ≡ c.buckets
unfolding listing_drop_under sweep_listing_bucket put_listings
listing_drop_under-buckets k dir c = for_buckets-buckets _ (λ b c. refl) buckets c

-- A cache that is not ready, or a path that is empty, answers a miss.
pub find-off :
    (k : Kernel) (now : ℕ) (path : Name) (asked : Option Ticket) (c : Cache)
    → not c.ready || is_empty path ≡ true
    → find k now path asked c ≡ miss asked
unfolding find
find-off k now path asked c p = rw p

invalidate_locked-first :
    (k : Kernel)
    → IsDocumented k
    → (path : Name) (c : Cache) → IsValid k c
    → first_of_path k path ((invalidate_locked k path c).buckets (bucket_of k path)).list ≡ none
unfolding invalidate_locked put_bucket
invalidate_locked-first k d path c v =
    ap (λ (x : Bucket PathEntry). first_of_path k path x.list)
      (update_self c.buckets (bucket_of k path) _)
    ∙ first_of_path-none k path _ (
        drop_path-ne k d path _ (counts_of c (bucket_of k path))
          (v.path_home (bucket_of k path)).distinct)

pub listing_drop-buckets :
    (k : Kernel) (dir : Name) (c : Cache) → (listing_drop k dir c).buckets ≡ c.buckets
unfolding listing_drop put_listings
listing_drop-buckets k dir c = refl

-- BlorgPathCacheInvalidate leaves no entry for its path.
pub invalidate-first :
    (k : Kernel)
    → IsDocumented k
    → (path : Name) (c : Cache) → IsValid k c
    → not c.ready || is_empty path ≡ false
    → first_of_path k path ((invalidate k path c).buckets (bucket_of k path)).list ≡ none
unfolding invalidate
invalidate-first k d path c v p = rw p (
    ap (λ f. first_of_path k path (f (bucket_of k path)).list)
      (listing_drop_parent-buckets k path (listing_drop k path dropped)
        ∙ listing_drop-buckets k path dropped)
    ∙ invalidate_locked-first k d path advanced (advance_sequence-IsValid v))
  where
    advanced : Cache
    advanced = advance_sequence c

    dropped : Cache
    dropped = invalidate_locked k path advanced

-- BlorgPathCacheInvalidate of a path makes the next lookup of it a miss, whatever was cached, in a
-- cache that satisfies its invariant.
pub find-invalidate :
    (k : Kernel) (now : ℕ) (path : Name) (asked : Option Ticket) (c : Cache)
    → IsDocumented k
    → IsValid k c
    → find k now path asked (invalidate k path c) ≡ miss asked
find-invalidate k now path asked c d v = elim (Bool-cases (not c.ready || is_empty path)) [
  | inl p ↦ unfold invalidate in rw p (find-off k now path asked c p)
  | inr p ↦ find-miss k now path asked _ (invalidate-first k d path c v p)
]

-- The sweep of the first `n` buckets leaves nothing in them that passes the test.
swept-buckets :
    (k : Kernel) (dir : Name) (keep_dir children_only : Bool) (c : Cache) (n b : ℕ)
    → b < n
    → All
        (λ e. is_swept k dir keep_dir children_only e ≡ false)
        ((for_buckets (sweep_bucket k dir keep_dir children_only) n c).buckets b).list
unfolding for_buckets sweep_bucket put_bucket
swept-buckets k dir keep_dir children_only c zero b h = absurd (omega arith)
swept-buckets k dir keep_dir children_only c (suc n) b h = elim (ℕ_discrete n b) [
  | yes e ↦
      subst
        (λ i.
          All Kept
            (update before.buckets n
              (record {
                list = (sweep test (before.buckets n).list (counts_of before n)).0;
                count = (sweep test (before.buckets n).list (counts_of before n)).1.bucket;
              })
              i).list)
        e
        (subst (λ (x : Bucket PathEntry). All Kept x.list) (sym (update_self before.buckets n _))
          (sweep-ne test (before.buckets n).list (counts_of before n)))
  | no ne ↦
      subst (λ (x : Bucket PathEntry). All Kept x.list) (sym (update_ne before.buckets n b _ ne))
        (swept-buckets k dir keep_dir children_only c n b (omega arith))
]
  where
    test : PathEntry → Bool
    test = is_swept k dir keep_dir children_only

    Kept : PathEntry → Type 0
    Kept e = test e ≡ false

    before : Cache
    before = for_buckets (sweep_bucket k dir keep_dir children_only) n c

-- An entry for a path at or beneath the directory does not stay.
first_of_path-under :
    (k : Kernel)
    → IsDocumented k
    → (dir path : Name) (es : List PathEntry) → is_under k dir path ≡ true
    → All (λ e. is_swept k dir false false e ≡ false) es
    → first_of_path k path es ≡ none
unfolding is_swept
first_of_path-under k d dir path es u a = first_of_path-none k path es (
    All-map (λ e. is_swept k dir false false e ≡ false) (λ e. k.equal e.path path ≡ false) es
      (λ e q. other e q) a)
  where
    other : (e : PathEntry) → is_swept k dir false false e ≡ false → k.equal e.path path ≡ false
    other e q = elim (Bool-cases (k.equal e.path path)) [
      | inl p ↦
          let under : is_under k dir e.path ≡ true =
            is_under-equal k d dir path e.path (equal_sym k d e.path path p) u in
          absurd (ground arith)
      | inr p ↦ p
    ]

-- BlorgPathCacheInvalidatePrefix leaves no entry for a path at or beneath its directory.
pub invalidate_prefix-first :
    (k : Kernel)
    → IsDocumented k
    → (dir path : Name) (c : Cache) → is_under k dir path ≡ true
    → not c.ready || is_empty dir ≡ false
    → first_of_path k path ((invalidate_prefix k dir c).buckets (bucket_of k path)).list ≡ none
unfolding invalidate_prefix
invalidate_prefix-first k d dir path c u p = rw p (
    ap (λ f. first_of_path k path (f (bucket_of k path)).list)
      (listing_drop_parent-buckets k dir (listing_drop_under k (some dir) swept)
        ∙ listing_drop_under-buckets k (some dir) swept)
    ∙ unfold invalidate_under in
      first_of_path-under k d dir path _ u (
        swept-buckets k dir false false (advance_sequence c) buckets (bucket_of k path)
          (bucket_of-lt k path)))
  where
    swept : Cache
    swept = invalidate_under k dir false false (advance_sequence c)

-- BlorgPathCacheInvalidatePrefix of a directory, whose path is not empty, makes the next lookup of
-- it, and of every path beneath it, a miss.
pub find-invalidate_prefix :
    (k : Kernel) (now : ℕ) (dir path : Name) (asked : Option Ticket) (c : Cache)
    → IsDocumented k
    → is_empty dir ≡ false
    → is_under k dir path ≡ true
    → find k now path asked (invalidate_prefix k dir c) ≡ miss asked
find-invalidate_prefix k now dir path asked c d ne u =
    elim (Bool-cases (not c.ready || is_empty dir)) [
      | inl p ↦ unfold invalidate_prefix in rw p (find-off k now path asked c (ground arith))
      | inr p ↦ find-miss k now path asked _ (invalidate_prefix-first k d dir path c u p)
    ]
