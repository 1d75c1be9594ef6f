-- ===== src/PathCache/Steps/Kept.antt =====
-- What holds of the entries of a bucket under the critical sections: a section puts nothing into a
-- bucket but an entry of the current sequence.
use blorg_fs.Prelude.{
  ℕ, ◌+◌, ◌%◌, ◌^◌, ◌≤◌, ◌<◌, ◌≡◌, refl, ◌∙◌, Bool, true, not, List, [], ◌∷◌, Option, none, some,
  inl, inr, arith, All, All-append, Sub-All, update_all, Bool-cases, ◌&&◌, is_empty, ==_iff,
}
use blorg_fs.PathCache.Kernel.{Name, Kernel}
use blorg_fs.PathCache.Paths.{bucket_of}
use blorg_fs.PathCache.Types.{
  Metadata, Ticket, PathEntry, Bucket, Cache, Snapshot, Counts, advance_sequence, ticket_honoured,
  is_live, drop_count,
}
use blorg_fs.PathCache.Insert.{
  insert_locked, new_entry, ticket_sequence, put_bucket, counts_of, walk, refresh, append,
}
use blorg_fs.PathCache.Invalidate.{
  invalidate_locked, sweep_bucket, listing_drop, sweep_listing_bucket, is_swept, put_listings,
}
use blorg_fs.PathCache.Lookup.{lookup_listing}
use blorg_fs.PathCache.Publish.{publish_locked}
use blorg_fs.PathCache.Valid.PathBuckets.{drop_path-Sub, sweep-Sub, evict-Sub}
use blorg_fs.PathCache.Steps.{
  Step, inserts, publishes, looks_up, drops_path, sweeps, drops_listing, sweeps_listings, flushes,
  switches, Run, here, next, advances,
}

pub honoured-sequence :
    (ticket : Option Ticket) (c : Cache)
    → ticket_honoured ticket c ≡ true
    → ticket_sequence ticket c ≡ c.sequence
unfolding ticket_honoured
honoured-sequence none c h = refl
honoured-sequence (some t) c h = (==_iff t.sequence c.sequence).0 h

module _ {κ} (P : PathEntry → Type κ) where
  -- What holds of a bucket's entries and of every form the new entry can take holds after a walk.
  walk-All :
      (k : Kernel) (s : Snapshot) (new : PathEntry) (m : Option Metadata)
      → ((e : PathEntry) → P (refresh new m e))
      → (es : List PathEntry) (n : Counts) → All P es
      → All P (walk k s new m es n).kept
  unfolding walk
  walk-All k s new m h [] n a = tt
  walk-All k s new m h (e ∷ es) n a = elim (Bool-cases (k.equal e.path new.path)) [
    | inl p ↦ rw p (h e, a.1)
    | inr p ↦ elim (Bool-cases (is_live e s.now s.generation s.lifetime)) [
      | inl q ↦ rw (p, q) (a.0, walk-All k s new m h es n a.1)
      | inr q ↦ rw (p, q) (walk-All k s new m h es (drop_count n) a.1)
    ]
  ]

  append-All :
      (k : Kernel) (s : Snapshot) (new : PathEntry) (m : Option Metadata) (es : List PathEntry)
      (n : Counts)
      → P new
      → All P (walk k s new m es n).kept
      → All P (append new (walk k s new m es n)).0
  unfolding append
  append-All k s new m es n h a = elim (Bool-cases (walk k s new m es n).found) [
    | inl p ↦ rw p a
    | inr p ↦ rw p (All-append P _ (new ∷ []) (Sub-All P (evict-Sub _ _) a) (h, tt))
  ]

module _ {κ} (P : ℕ → PathEntry → Type κ) where
  -- An insert puts nothing into a bucket but entries of the current sequence.
  insert_locked-All :
      (k : Kernel) (c : Cache) (s : Snapshot) (path : Name) (exists : Bool) (m : Option Metadata)
      (ticket : Option Ticket)
      → ((e : PathEntry) → e.sequence ≡ c.sequence → (b : ℕ) → P b e)
      → ((b : ℕ) → All (P b) (c.buckets b).list)
      → (b : ℕ) → All (P b) ((insert_locked k s path exists m ticket c).buckets b).list
  unfolding insert_locked new_entry append put_bucket refresh
  insert_locked-All k c s path exists m ticket h a = elim (Bool-cases (ticket_honoured ticket c)) [
    | inl p ↦ rw p (
        update_all (λ i (x : Bucket PathEntry). All (P i) x.list) c.buckets (bucket_of k path) _
          (filled p) a)
    | inr p ↦ rw p a
  ]
    where
      new : PathEntry
      new = new_entry s path exists m ticket c

      current : ticket_honoured ticket c ≡ true → ticket_sequence ticket c ≡ c.sequence
      current p = honoured-sequence ticket c p

      filled :
          ticket_honoured ticket c ≡ true
          → All
              (P (bucket_of k path))
              (append new (
                walk k s new m
                  (c.buckets (bucket_of k path)).list
                  (counts_of c (bucket_of k path)))).0
      filled p =
          let walked =
            walk-All (P (bucket_of k path)) k s new m
              (λ e. h (refresh new m e) (current p) (bucket_of k path))
              (c.buckets (bucket_of k path)).list (counts_of c (bucket_of k path))
              (a (bucket_of k path)) in
          append-All (P (bucket_of k path)) k s new m _ _ (h new (current p) (bucket_of k path))
            walked

  -- Removing keeps it.
  invalidate_locked-All :
      (k : Kernel) (c : Cache) (path : Name)
      → ((b : ℕ) → All (P b) (c.buckets b).list)
      → (b : ℕ) → All (P b) ((invalidate_locked k path c).buckets b).list
  unfolding invalidate_locked put_bucket
  invalidate_locked-All k c path a =
      update_all (λ i (x : Bucket PathEntry). All (P i) x.list) c.buckets (bucket_of k path) _
        (Sub-All (P (bucket_of k path)) (drop_path-Sub k path _ _) (a (bucket_of k path))) a

  sweep_bucket-All :
      (k : Kernel) (c : Cache) (dir : Name) (keep_dir children_only : Bool) (b₀ : ℕ)
      → ((b : ℕ) → All (P b) (c.buckets b).list)
      → (b : ℕ) → All (P b) ((sweep_bucket k dir keep_dir children_only b₀ c).buckets b).list
  unfolding sweep_bucket put_bucket
  sweep_bucket-All k c dir keep_dir children_only b₀ a =
      update_all (λ i (x : Bucket PathEntry). All (P i) x.list) c.buckets b₀ _
        (Sub-All (P b₀) (sweep-Sub (is_swept k dir keep_dir children_only) _ _) (a b₀)) a

  Step-All :
      (k : Kernel) {c c' : Cache}
      → Step k c c'
      → ((e : PathEntry) → e.sequence ≡ c.sequence → (b : ℕ) → P b e)
      → ((b : ℕ) → All (P b) (c.buckets b).list)
      → (b : ℕ) → All (P b) (c'.buckets b).list
  unfolding publish_locked lookup_listing listing_drop sweep_listing_bucket put_listings
  Step-All k (inserts {c = c} s path exists m ticket) h a b =
      insert_locked-All k c s path exists m ticket h a b
  Step-All k (publishes {c = c} s allocated dir l ticket _) h a b =
      elim (Bool-cases (ticket_honoured ticket c)) [ inl p ↦ rw p (a b) | inr p ↦ rw p (a b) ]
  Step-All k (looks_up {c = c} now dir allow_stale ticket) h a b =
      elim (Bool-cases (c.ready && not (is_empty dir))) [ inl p ↦ rw p (a b) | inr p ↦ rw p (a b) ]
  Step-All k (drops_path {c = c} path) h a b = invalidate_locked-All k c path a b
  Step-All k (sweeps {c = c} dir keep_dir children_only b₀ _) h a b =
      sweep_bucket-All k c dir keep_dir children_only b₀ a b
  Step-All k (drops_listing dir) h a b = a b
  Step-All k (sweeps_listings test b₀ _) h a b = a b
  Step-All k flushes h a b = a b
  Step-All k (switches live) h a b = a b

-- No section but the advance changes the sequence.
pub Step-sequence : (k : Kernel) {c c' : Cache} → Step k c c' → c'.sequence ≡ c.sequence
unfolding insert_locked invalidate_locked sweep_bucket put_bucket publish_locked lookup_listing
    listing_drop sweep_listing_bucket put_listings
Step-sequence k (inserts {c = c} s path exists m ticket) = ground arith
Step-sequence k (publishes {c = c} s allocated dir l ticket _) = ground arith
Step-sequence k (looks_up {c = c} now dir allow_stale ticket) = ground arith
Step-sequence k (drops_path path) = refl
Step-sequence k (sweeps dir keep_dir children_only b₀ _) = refl
Step-sequence k (drops_listing dir) = refl
Step-sequence k (sweeps_listings test b₀ _) = refl
Step-sequence k flushes = refl
Step-sequence k (switches live) = refl

-- A run of `n` advances moves the sequence on by `n`, round at 2 ^ 64.
pub Run-sequence :
    (k : Kernel) {n : ℕ} {c c' : Cache}
    → Run k n c c'
    → c.sequence < 2 ^ 64
    → c'.sequence ≡ (c.sequence + n) % 2 ^ 64
unfolding advance_sequence
Run-sequence k here h = omega arith
Run-sequence k (next r s) h = Step-sequence k s ∙ Run-sequence k r h
Run-sequence k (advances r) h = omega (arith, Run-sequence k r h)

-- A property of the buckets' entries holds through a run during which the sequence is never one
-- that the property excludes.
pub Run-All {κ} :
    (P : ℕ → PathEntry → Type κ) (k : Kernel) {n : ℕ} {c c' : Cache}
    → Run k n c c'
    → ((m : ℕ) (e : PathEntry) → m ≤ n → e.sequence ≡ (c.sequence + m) % 2 ^ 64 → (b : ℕ) → P b e)
    → c.sequence < 2 ^ 64
    → ((b : ℕ) → All (P b) (c.buckets b).list)
    → (b : ℕ) → All (P b) (c'.buckets b).list
unfolding advance_sequence
Run-All P k here h lt a = a
Run-All P k (next {n = n} r s) h lt a =
    Step-All P k s (λ e q. h n e (omega arith) (q ∙ Run-sequence k r lt)) (Run-All P k r h lt a)
Run-All P k (advances {n = n} r) h lt a = Run-All P k r (λ m e q. h m e (omega arith)) lt a
