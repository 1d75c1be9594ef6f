-- ===== src/PathCache/Valid/PathBuckets.antt =====
-- What the walks over a path bucket do to its entries and counters.
use blorg_fs.Prelude.{
  ℕ, ◌+◌, ◌^◌, ◌≤◌, ◌<◌, ◌≡◌, refl, Bool, false, List, [], ◌∷◌, ◌++◌, Option, inl, inr, arith, ap,
  length, length-append, All, leb, Bool-cases, Sub, done, keep, skip, Sub-refl, Sub-All, All-append,
  suc,
}
use blorg_fs.PathCache.Kernel.{Name, Kernel}
use blorg_fs.PathCache.Paths.{bucket_of}
use blorg_fs.PathCache.Types.{
  Metadata, PathEntry, Snapshot, Counts, max_per_bucket, drop_count, is_live,
}
use blorg_fs.PathCache.Valid.{Distinct, IsHome, paths_of}
use blorg_fs.PathCache.Insert.{Walk, walk, refresh, evict, append}
use blorg_fs.PathCache.Invalidate.{drop_path, sweep}

-- A list became shorter, and both counters fell by as much.
pub record Shrunk (es : List PathEntry) (n : Counts) (es' : List PathEntry) (n' : Counts)
    : Type 0 where
  pub shorter : length es' ≤ length es
  pub bucket : n'.bucket + length es ≡ n.bucket + length es'
  pub all : n'.all + length es ≡ n.all + length es'

-- The counters hold the list, and do not wrap.
pub record Fits (es : List PathEntry) (n : Counts) : Type 0 where
  pub bucket : length es ≤ n.bucket
  pub all : length es ≤ n.all
  pub bucket_lt : n.bucket < 2 ^ 32
  pub all_lt : n.all < 2 ^ 32

pub drop_path-Shrunk :
    (k : Kernel) (path : Name) (es : List PathEntry) (n : Counts)
    → Fits es n
    → let (es', n') = drop_path k path es n in Shrunk es n es' n'
unfolding drop_path drop_count
drop_path-Shrunk k path [] n f = omega arith
drop_path-Shrunk k path (e ∷ es) n f = ground (arith, drop_path-Shrunk k path es n (omega arith))

pub sweep-Shrunk :
    (test : PathEntry → Bool) (es : List PathEntry) (n : Counts)
    → Fits es n
    → let (es', n') = sweep test es n in Shrunk es n es' n'
unfolding sweep drop_count
sweep-Shrunk test [] n f = omega arith
sweep-Shrunk test (e ∷ es) n f = elim (Bool-cases (test e)) [
  | inl p ↦ rw p (ground (arith, sweep-Shrunk test es (drop_count n) (omega arith)))
  | inr p ↦ rw p (ground (arith, sweep-Shrunk test es n (omega arith)))
]

pub walk-Shrunk :
    (k : Kernel) (s : Snapshot) (new : PathEntry) (m : Option Metadata) (es : List PathEntry)
    (n : Counts)
    → Fits es n
    → Shrunk es n (walk k s new m es n).kept (walk k s new m es n).counts
unfolding walk drop_count
walk-Shrunk k s new m [] n f = omega arith
walk-Shrunk k s new m (e ∷ es) n f = elim (Bool-cases (is_live e s.now s.generation s.lifetime)) [
  | inl p ↦ rw p (ground (arith, walk-Shrunk k s new m es n (omega arith)))
  | inr p ↦ rw p (ground (arith, walk-Shrunk k s new m es (drop_count n) (omega arith)))
]

abbrev pub SubPaths : List PathEntry → List PathEntry → Type 0
SubPaths es' es = Sub Name (paths_of es') (paths_of es)

pub Sub-paths : {es' es : List PathEntry} → Sub PathEntry es' es → SubPaths es' es
Sub-paths done = done
Sub-paths (keep s) = keep (Sub-paths s)
Sub-paths (skip s) = skip (Sub-paths s)

pub drop_path-Sub :
    (k : Kernel) (path : Name) (es : List PathEntry) (n : Counts)
    → Sub PathEntry (drop_path k path es n).0 es
unfolding drop_path
drop_path-Sub k path [] n = done
drop_path-Sub k path (e ∷ es) n = elim (Bool-cases (k.equal e.path path)) [
  | inl p ↦ rw p (skip (Sub-refl es))
  | inr p ↦ rw p (keep (drop_path-Sub k path es n))
]

pub sweep-Sub :
    (test : PathEntry → Bool) (es : List PathEntry) (n : Counts)
    → Sub PathEntry (sweep test es n).0 es
unfolding sweep
sweep-Sub test [] n = done
sweep-Sub test (e ∷ es) n = elim (Bool-cases (test e)) [
  | inl p ↦ rw p (skip (sweep-Sub test es (drop_count n)))
  | inr p ↦ rw p (keep (sweep-Sub test es n))
]

pub evict-Sub : (es : List PathEntry) (n : Counts) → Sub PathEntry (evict es n).0 es
unfolding evict
evict-Sub [] n = done
evict-Sub (e ∷ es) n = elim (Bool-cases (leb max_per_bucket n.bucket)) [
  | inl p ↦ rw p (skip (Sub-refl es))
  | inr p ↦ rw p (Sub-refl (e ∷ es))
]

module _ (k : Kernel) (s : Snapshot) (new : PathEntry) (m : Option Metadata) where
  pub walk-SubPaths : (es : List PathEntry) (n : Counts) → SubPaths (walk k s new m es n).kept es
  unfolding walk refresh
  walk-SubPaths [] n = done
  walk-SubPaths (e ∷ es) n = elim (Bool-cases (k.equal e.path new.path)) [
    | inl p ↦ rw p (Sub-refl (e.path ∷ paths_of es))
    | inr p ↦ elim (Bool-cases (is_live e s.now s.generation s.lifetime)) [
      | inl q ↦ rw (p, q) (keep (walk-SubPaths es n))
      | inr q ↦ rw (p, q) (skip (walk-SubPaths es (drop_count n)))
    ]
  ]

  -- A walk that refreshed nothing left no entry for the path.
  pub walk-not_found :
      (es : List PathEntry) (n : Counts)
      → (walk k s new m es n).found ≡ false
      → All (λ p. k.equal p new.path ≡ false) (paths_of (walk k s new m es n).kept)
  unfolding walk
  walk-not_found [] n h = tt
  walk-not_found (e ∷ es) n h = elim (Bool-cases (k.equal e.path new.path)) [
    | inl p ↦ cc
    | inr p ↦ elim (Bool-cases (is_live e s.now s.generation s.lifetime)) [
      | inl q ↦ rw (p, q) (p, walk-not_found es n (rw (p, q) at h))
      | inr q ↦ rw (p, q) (walk-not_found es (drop_count n) (rw (p, q) at h))
    ]
  ]

pub Distinct-Sub : (k : Kernel) {ps qs : List Name} → Sub Name ps qs → Distinct k qs → Distinct k ps
Distinct-Sub k done h = tt
Distinct-Sub k (keep {x = p} s) h = (Sub-All (λ q. k.equal p q ≡ false) s h.0, Distinct-Sub k s h.1)
Distinct-Sub k (skip s) h = Distinct-Sub k s h.1

pub IsHome-Sub :
    (k : Kernel) (b : ℕ) {ps qs : List Name} → Sub Name ps qs → IsHome k b qs → IsHome k b ps
IsHome-Sub k b s h = record {
  home = Sub-All (λ p. bucket_of k p ≡ b) s h.home;
  distinct = Distinct-Sub k s h.distinct;
}

Distinct-append :
    (k : Kernel) (ps : List Name) (q : Name)
    → Distinct k ps
    → All (λ p. k.equal p q ≡ false) ps
    → Distinct k (ps ++ q ∷ [])
Distinct-append k [] q d h = (tt, tt)
Distinct-append k (p ∷ ps) q d h = (
  All-append (λ r. k.equal p r ≡ false) ps (q ∷ []) d.0 (h.0, tt),
  Distinct-append k ps q d.1 h.1,
)

pub IsHome-append :
    (k : Kernel) (b : ℕ) (ps : List Name) (q : Name)
    → IsHome k b ps
    → bucket_of k q ≡ b
    → All (λ p. k.equal p q ≡ false) ps
    → IsHome k b (ps ++ q ∷ [])
IsHome-append k b ps q v e h = record {
  home = All-append (λ p. bucket_of k p ≡ b) ps (q ∷ []) v.home (e, tt);
  distinct = Distinct-append k ps q v.distinct h;
}

pub paths_of-append :
    (es : List PathEntry) (e : PathEntry) → paths_of (es ++ e ∷ []) ≡ paths_of es ++ e.path ∷ []
paths_of-append [] e = refl
paths_of-append (x ∷ es) e = ap (λ (ps : List Name). x.path ∷ ps) (paths_of-append es e)

evict-Shrunk :
    (es : List PathEntry) (n : Counts)
    → Fits es n
    → let (es', n') = evict es n in Shrunk es n es' n'
unfolding evict drop_count
evict-Shrunk [] n f = omega arith
evict-Shrunk (e ∷ es) n f = ground arith

-- Eviction leaves room for one more.
evict_room :
    (es : List PathEntry) (n : Counts)
    → n.bucket ≡ length es
    → length es ≤ max_per_bucket
    → suc (length (evict es n).0) ≤ max_per_bucket
unfolding evict
evict_room [] n e h = omega arith
evict_room (x ∷ es) n e h = ground arith

-- What a bucket's list and counters satisfy after an operation.
pub record Refilled (k : Kernel) (b : ℕ) (es : List PathEntry) (n : Counts) (es' : List PathEntry)
    (n' : Counts) : Type 0 where
  pub home : IsHome k b (paths_of es')
  pub count : n'.bucket ≡ length es'
  pub cap : length es' ≤ max_per_bucket
  pub all : n'.all + length es ≡ n.all + length es'

module _ (k : Kernel) (b : ℕ) where
  -- An operation that only removes.
  pub Refilled-Shrunk :
      (es : List PathEntry) (n : Counts) (es' : List PathEntry) (n' : Counts)
      → IsHome k b (paths_of es)
      → n.bucket ≡ length es
      → length es ≤ max_per_bucket
      → SubPaths es' es
      → Shrunk es n es' n'
      → Refilled k b es n es' n'
  Refilled-Shrunk es n es' n' h e c s r = record {
    home = IsHome-Sub k b s h;
    count = omega (arith, r.bucket, r.shorter);
    cap = omega (arith, r.shorter);
    all = r.all;
  }

  -- The whole of an insert's critical section.
  pub append-Refilled :
      (s : Snapshot) (new : PathEntry) (m : Option Metadata) (es : List PathEntry) (n : Counts)
      → IsHome k b (paths_of es)
      → n.bucket ≡ length es
      → length es ≤ max_per_bucket
      → length es ≤ n.all
      → n.all + 1 < 2 ^ 32
      → bucket_of k new.path ≡ b
      → let (es', n') = append new (walk k s new m es n) in Refilled k b es n es' n'
  unfolding append
  append-Refilled s new m es n h e c a lt home = elim (Bool-cases (walk k s new m es n).found) [
    | inl found ↦
        rw found (Refilled-Shrunk es n w.kept w.counts h e c (walk-SubPaths k s new m es n) shrunk)
    | inr missing ↦ rw missing (record {
      home = rw (paths_of-append kept' new) (
          IsHome-append k b (paths_of kept') new.path
            (IsHome-Sub k b (Sub-paths (evict-Sub w.kept w.counts)) kept_home) home
            (Sub-All (λ p. k.equal p new.path ≡ false) (Sub-paths (evict-Sub w.kept w.counts))
              (walk-not_found k s new m es n missing)));
      count = omega (arith, evicted, shrunk, length-append kept' (new ∷ []), room);
      cap = omega (arith, length-append kept' (new ∷ []), room);
      all = omega (arith, evicted, shrunk, length-append kept' (new ∷ []), room);
    })
  ]
    where
      w : Walk
      w = walk k s new m es n

      kept' : List PathEntry
      kept' = (evict w.kept w.counts).0

      shrunk : Shrunk es n w.kept w.counts
      shrunk = walk-Shrunk k s new m es n (omega arith)

      kept_home : IsHome k b (paths_of w.kept)
      kept_home = IsHome-Sub k b (walk-SubPaths k s new m es n) h

      evicted : Shrunk w.kept w.counts kept' (evict w.kept w.counts).1
      evicted = evict-Shrunk w.kept w.counts (omega (arith, shrunk))

      room : suc (length kept') ≤ max_per_bucket
      room = evict_room w.kept w.counts (omega (arith, shrunk)) (omega (arith, shrunk))
