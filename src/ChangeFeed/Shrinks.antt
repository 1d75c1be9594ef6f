-- ===== src/ChangeFeed/Shrinks.antt =====
-- The invalidations that a batch of src/ChangeFeed.c makes only take entries out.
use blorg_fs.Prelude.{
  ℕ, zero, suc, ◌≡◌, refl, sym, ◌∙◌, subst, false, not, ◌||◌, List, [], ◌∷◌, some, inl, inr,
  Bool-cases, is_empty, Sub, Sub-refl, Sub-trans, update_self, update_ne, update, ℕ_discrete,
}
use blorg_fs.PathCache.Kernel.{Name, Kernel}
use blorg_fs.PathCache.Paths.{buckets, bucket_of}
use blorg_fs.PathCache.Types.{PathEntry, Bucket, Cache, Counts, advance_sequence}
use blorg_fs.PathCache.Insert.{put_bucket, counts_of}
use blorg_fs.PathCache.Lookup.AfterInvalidate.{
  listing_drop_parent-buckets, listing_drop-buckets, listing_drop_under-buckets,
}
use blorg_fs.PathCache.Invalidate.{
  for_buckets, invalidate_locked, sweep_bucket, invalidate_under, listing_drop, listing_drop_under,
  listing_drop_parent, invalidate, invalidate_prefix, drop_path, sweep, is_swept,
}
use blorg_fs.PathCache.Valid.PathBuckets.{drop_path-Sub, sweep-Sub}
use blorg_fs.ChangeFeed.State.{ChangeEntry}
use blorg_fs.ChangeFeed.Apply.{is_modified, invalidate_entry, invalidate_entries}

-- Every bucket of one cache holds some of what another's holds.
abbrev pub Shrinks : Cache → Cache → Type 0
Shrinks c c' = (b : ℕ) → Sub PathEntry (c'.buckets b).list (c.buckets b).list

Shrinks-trans : (c c' c'' : Cache) → Shrinks c c' → Shrinks c' c'' → Shrinks c c''
Shrinks-trans c c' c'' s t b = Sub-trans (s b) (t b)

same-Shrinks : (c c' : Cache) → c'.buckets ≡ c.buckets → Shrinks c c'
same-Shrinks c c' e b =
    subst (λ f. Sub PathEntry (f b).list (c.buckets b).list) (sym e) (Sub-refl (c.buckets b).list)

put_bucket-Shrinks :
    (c : Cache) (b : ℕ) (es : List PathEntry) (n : Counts)
    → Sub PathEntry es (c.buckets b).list
    → Shrinks c (put_bucket c b es n)
unfolding put_bucket
put_bucket-Shrinks c b es n s i = elim (ℕ_discrete b i) [
  | yes e ↦
      subst (λ j. Sub PathEntry (update c.buckets b new j).list (c.buckets j).list) e
        (subst (λ (x : Bucket PathEntry). Sub PathEntry x.list (c.buckets b).list)
          (sym (update_self c.buckets b new)) s)
  | no ne ↦
      subst (λ (x : Bucket PathEntry). Sub PathEntry x.list (c.buckets i).list)
        (sym (update_ne c.buckets b i new ne)) (Sub-refl (c.buckets i).list)
]
  where
    new : Bucket PathEntry
    new = record { list = es; count = n.bucket }

for_buckets-Shrinks :
    (body : ℕ → Cache → Cache)
    → ((b : ℕ) (c : Cache) → Shrinks c (body b c))
    → (n : ℕ) (c : Cache) → Shrinks c (for_buckets body n c)
unfolding for_buckets
for_buckets-Shrinks body h zero c = same-Shrinks c c refl
for_buckets-Shrinks body h (suc n) c =
    Shrinks-trans c (for_buckets body n c) (body n (for_buckets body n c))
      (for_buckets-Shrinks body h n c) (h n _)

advance_sequence-Shrinks : (c : Cache) → Shrinks c (advance_sequence c)
unfolding advance_sequence
advance_sequence-Shrinks c = same-Shrinks c (advance_sequence c) refl

invalidate-Shrinks : (k : Kernel) (path : Name) (c : Cache) → Shrinks c (invalidate k path c)
unfolding invalidate invalidate_locked
invalidate-Shrinks k path c = elim (Bool-cases (not c.ready || is_empty path)) [
  | inl p ↦ rw p (same-Shrinks c c refl)
  | inr p ↦ rw p (
      Shrinks-trans c dropped (listing_drop_parent k path (listing_drop k path dropped))
        (Shrinks-trans c advanced dropped (advance_sequence-Shrinks c) (
          put_bucket-Shrinks advanced (bucket_of k path) _
            (drop_path k path (advanced.buckets (bucket_of k path)).list
              (counts_of advanced (bucket_of k path))).1
            (drop_path-Sub k path _ (counts_of advanced (bucket_of k path)))))
        (same-Shrinks dropped (listing_drop_parent k path (listing_drop k path dropped)) (
          listing_drop_parent-buckets k path (listing_drop k path dropped)
          ∙ listing_drop-buckets k path dropped)))
]
  where
    advanced : Cache
    advanced = advance_sequence c

    dropped : Cache
    dropped = invalidate_locked k path advanced

invalidate_prefix-Shrinks :
    (k : Kernel) (dir : Name) (c : Cache) → Shrinks c (invalidate_prefix k dir c)
unfolding invalidate_prefix invalidate_under sweep_bucket
invalidate_prefix-Shrinks k dir c = elim (Bool-cases (not c.ready || is_empty dir)) [
  | inl p ↦ rw p (same-Shrinks c c refl)
  | inr p ↦ rw p (
      Shrinks-trans c swept (listing_drop_parent k dir (listing_drop_under k (some dir) swept))
        (Shrinks-trans c (advance_sequence c) swept (advance_sequence-Shrinks c) (
          for_buckets-Shrinks (sweep_bucket k dir false false)
            (λ b c'.
              put_bucket-Shrinks c' b _
                (sweep (is_swept k dir false false) (c'.buckets b).list (counts_of c' b)).1
                (sweep-Sub (is_swept k dir false false) _ (counts_of c' b)))
            buckets (advance_sequence c)))
        (same-Shrinks swept (listing_drop_parent k dir (listing_drop_under k (some dir) swept)) (
          listing_drop_parent-buckets k dir (listing_drop_under k (some dir) swept)
          ∙ listing_drop_under-buckets k (some dir) swept)))
]
  where
    swept : Cache
    swept = invalidate_under k dir false false (advance_sequence c)

invalidate_entry-Shrinks :
    (k : Kernel) (e : ChangeEntry) (c : Cache) → Shrinks c (invalidate_entry k e c)
unfolding invalidate_entry
invalidate_entry-Shrinks k e c = elim (Bool-cases (is_modified e.kind)) [
  | inl p ↦ rw p (invalidate-Shrinks k e.path c)
  | inr p ↦ rw p (invalidate_prefix-Shrinks k e.path c)
]

pub invalidate_entries-Shrinks :
    (k : Kernel) (es : List ChangeEntry) (c : Cache) → Shrinks c (invalidate_entries k es c)
unfolding invalidate_entries
invalidate_entries-Shrinks k [] c = same-Shrinks c c refl
invalidate_entries-Shrinks k (e ∷ es) c =
    Shrinks-trans c (invalidate_entry k e c) (invalidate_entries k es (invalidate_entry k e c))
      (invalidate_entry-Shrinks k e c) (invalidate_entries-Shrinks k es (invalidate_entry k e c))
