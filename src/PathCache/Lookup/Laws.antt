-- ===== src/PathCache/Lookup/Laws.antt =====
-- What lookups answer after inserts and invalidations.
use blorg_fs.Prelude.{
  ◌≡◌, refl, ap, true, false, List, [], ◌∷◌, ◌++◌, ◌⊎◌, Sub, Option, none, some, inl, inr, arith,
  All, Bool-cases,
}
use blorg_fs.PathCache.Kernel.{Name, Kernel, IsDocumented}
use blorg_fs.PathCache.Kernel.Laws.{equal_refl}
use blorg_fs.PathCache.Types.{Metadata, PathEntry, Snapshot, Counts, is_live, drop_count}
use blorg_fs.PathCache.Insert.{walk, refresh, append, meta_or}
use blorg_fs.PathCache.Valid.PathBuckets.{evict-Sub}
use blorg_fs.PathCache.Lookup.{first_of_path}

first_of_path-append :
    (k : Kernel) (path : Name) (es : List PathEntry) (e : PathEntry)
    → k.equal e.path path ≡ true
    → first_of_path k path es ≡ none
    → first_of_path k path (es ++ e ∷ []) ≡ some e
unfolding first_of_path
first_of_path-append k path [] e h n = rw h
first_of_path-append k path (x ∷ es) e h n = ground (arith, first_of_path-append k path es e h)

pub first_of_path-none :
    (k : Kernel) (path : Name) (es : List PathEntry)
    → All (λ e. k.equal e.path path ≡ false) es
    → first_of_path k path es ≡ none
unfolding first_of_path
first_of_path-none k path [] a = refl
first_of_path-none k path (e ∷ es) a = rw a.0 (first_of_path-none k path es a.1)

pub first_of_path-Sub :
    (k : Kernel) (path : Name) {es' es : List PathEntry}
    → Sub PathEntry es' es
    → first_of_path k path es ≡ none
    → first_of_path k path es' ≡ none
unfolding first_of_path
first_of_path-Sub k path Sub.done h = h
first_of_path-Sub k path (Sub.keep {x = e} {xs = xs} {ys = ys} s) h =
    ground (arith, first_of_path-Sub k path s)
first_of_path-Sub k path (Sub.skip {x = e} {xs = xs} {ys = ys} s) h =
    ground (arith, first_of_path-Sub k path s)

module _ (k : Kernel) (s : Snapshot) (new : PathEntry) (m : Option Metadata) where
  -- A walk that found the path leaves its entry refreshed; one that did not leaves none.
  walk-first :
      (es : List PathEntry) (n : Counts)
      → let w = walk k s new m es n in
        ((w.found ≡ true)
          × ((e : PathEntry) × (first_of_path k new.path w.kept ≡ some (refresh new m e))))
        ⊎ ((w.found ≡ false) × (first_of_path k new.path w.kept ≡ none))
  unfolding walk first_of_path refresh
  walk-first [] n = inr (refl, refl)
  walk-first (e ∷ es) n = elim (Bool-cases (k.equal e.path new.path)) [
    | inl p ↦ inl (rw p, (e, rw (p, p)))
    | inr p ↦ elim (Bool-cases (is_live e s.now s.generation s.lifetime)) [
      | inl q ↦ elim (walk-first es n) [
        | inl (f, (x, g)) ↦ inl (rw (p, q) f, (x, rw (p, q, p) g))
        | inr (f, g) ↦ inr (rw (p, q) f, rw (p, q, p) g)
      ]
      | inr q ↦ elim (walk-first es (drop_count n)) [
        | inl (f, (x, g)) ↦ inl (rw (p, q) f, (x, rw (p, q) g))
        | inr (f, g) ↦ inr (rw (p, q) f, rw (p, q) g)
      ]
    ]
  ]

-- What an insert leaves as the path's entry.
pub record Stored (new : PathEntry) (m : Option Metadata) (e : PathEntry) : Type 0 where
  pub exists : e.exists ≡ new.exists
  pub generation : e.generation ≡ new.generation
  pub issue_time : e.issue_time ≡ new.issue_time
  pub sequence : e.sequence ≡ new.sequence
  pub meta : (x : Metadata) → m ≡ some x → e.meta ≡ x

refreshed : (new : PathEntry) (m : Option Metadata) (e : PathEntry) → Stored new m (refresh new m e)
unfolding refresh
refreshed new m e = record {
  exists = refl;
  generation = refl;
  issue_time = refl;
  sequence = refl;
  meta = λ x q. ap (λ o. meta_or o e.meta) q;
}

pub append-first :
    (k : Kernel)
    → IsDocumented k
    → (s : Snapshot) (new : PathEntry) (m : Option Metadata) (es : List PathEntry) (n : Counts)
    → ((x : Metadata) → m ≡ some x → new.meta ≡ x)
    → (e : PathEntry) × (first_of_path k new.path (append new (walk k s new m es n)).0 ≡ some e)
      × Stored new m e
unfolding append
append-first k d s new m es n h = elim (walk-first k s new m es n) [
  | inl (f, (e, g)) ↦ (refresh new m e, rw f g, refreshed new m e)
  | inr (f, g) ↦ (
    new,
    rw f (
        first_of_path-append k new.path _ new (equal_refl k d new.path)
          (first_of_path-Sub k new.path (evict-Sub _ _) g)),
    record { exists = refl; generation = refl; issue_time = refl; sequence = refl; meta = h },
  )
]
