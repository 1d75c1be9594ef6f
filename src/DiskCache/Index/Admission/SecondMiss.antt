-- ===== src/DiskCache/Index/Admission/SecondMiss.antt =====
-- When BlorgDiskCacheIndexReserve of src/DiskCacheIndex.c admits a block: at its second miss.
use blorg_fs.Prelude.{
  ℕ, zero, suc, ◌+◌, ◌-◌, ◌≡◌, ◌<◌, ◌≤◌, ◌⊎◌, Option, none, some, refl, ◌∙◌, true, false, inl, inr,
  arith, ◌==◌, ==_iff, ==_refl, if◌then◌else◌, Bool-cases,
}
use blorg_fs.DiskCache.Types.{
  Key, Index, Admit, disk_cache_first_miss, disk_cache_no_victim, disk_cache_reserved, no_slot,
  ghost_ways,
}
use blorg_fs.DiskCache.Index.Chain.{find}
use blorg_fs.DiskCache.Index.Clock.{victim}
use blorg_fs.DiskCache.Index.Admission.{tag_of, ghost_set, ghost_way, push_ghost, reserve}
use blorg_fs.DiskCache.Index.Admission.Reserved.{find-ghosts}

-- The answer and the slot, without the index.
abbrev pub answer_of : Admit × Option ℕ × Index → Admit × Option ℕ
answer_of (admit, slot, x) = (admit, slot)

-- What a miss of a block in the ghost table gives, for the clock's victim.
abbrev pub admission : ℕ → Admit × Option ℕ
admission slot =
    if slot == no_slot then (disk_cache_no_victim, none) else (disk_cache_reserved, some slot)

-- The index after a first miss.
abbrev noted : Index → Key → Index
noted x k = record x { ghosts = push_ghost (ghost_set x k) (tag_of k) x.ghosts }

-- A way that holds the tag ends the walk.
ghost_way-first :
    (x : Index) (set tag left : ℕ)
    → x.ghosts (set + (ghost_ways - suc left)) ≡ tag
    → ghost_way x set tag (suc left) ≡ ghost_ways - suc left
unfolding ghost_way
ghost_way-first x set tag left e = rw e (rw (==_refl tag) refl)

push_ghost-first : (set tag : ℕ) (ghosts : ℕ → ℕ) → push_ghost set tag ghosts (set + 0) ≡ tag
push_ghost-first set tag ghosts = ground arith

ghost_way-noted :
    (x : Index) (k : Key) → ghost_way (noted x k) (ghost_set x k) (tag_of k) ghost_ways ≡ 0
ghost_way-noted x k =
    ghost_way-first (noted x k) (ghost_set x k) (tag_of k) 3
      (push_ghost-first (ghost_set x k) (tag_of k) x.ghosts)

ghost_set-noted : (x : Index) (k : Key) → ghost_set (noted x k) k ≡ ghost_set x k
unfolding ghost_set
ghost_set-noted x k = refl

reserve-first :
    (x : Index) (k : Key)
    → (find x k == no_slot) ≡ true
    → (ghost_way x (ghost_set x k) (tag_of k) ghost_ways == ghost_ways) ≡ true
    → reserve x k ≡ (disk_cache_first_miss, none, noted x k)
unfolding reserve
reserve-first x k p q = rw (p, q) refl

reserve-later :
    (x : Index) (k : Key)
    → (find x k == no_slot) ≡ true
    → (ghost_way x (ghost_set x k) (tag_of k) ghost_ways == ghost_ways) ≡ false
    → answer_of (reserve x k) ≡ admission (victim x).0
unfolding reserve
reserve-later x k p q = elim (Bool-cases ((victim x).0 == no_slot)) [
  | inl r ↦ rw (p, q, r) refl
  | inr r ↦ rw (p, q, r) refl
]

-- A set of the ghost table takes a tag: it is the newest, the others are one older, the oldest is
-- gone, and the other sets are as they were.
pub record IsPushed (set tag : ℕ) (before after : ℕ → ℕ) : Type 0 where
  pub newest : after set ≡ tag
  pub older : (i : ℕ) → i < 3 → after (set + suc i) ≡ before (set + i)
  pub others : (i : ℕ) → (i < set) ⊎ (set + ghost_ways ≤ i) → after i ≡ before i

push_ghost-IsPushed :
    (set tag : ℕ) (ghosts : ℕ → ℕ) → IsPushed set tag ghosts (push_ghost set tag ghosts)
push_ghost-IsPushed set tag ghosts = record {
  newest = ground arith;
  older = λ i h. by_way i h;
  others = λ i h. ground arith;
}
  where
    by_way : (i : ℕ) → i < 3 → push_ghost set tag ghosts (set + suc i) ≡ ghosts (set + i)
    by_way zero h = ground arith
    by_way (suc zero) h = ground arith
    by_way (suc (suc zero)) h = ground arith
    by_way (suc (suc (suc i))) h = absurd (omega arith)

-- A block that is not held and whose tag is not in the ghost table is only noted: no slot is
-- reserved, and of the index only the ghost table changes, whose set takes the tag. Missed again at
-- once, the block is given the clock's victim, unless the clock finds none.
pub reserve-twice :
    (x : Index) (k : Key)
    → find x k ≡ no_slot
    → ghost_way x (ghost_set x k) (tag_of k) ghost_ways ≡ ghost_ways
    → (ghosts : ℕ → ℕ) × (reserve x k ≡ (disk_cache_first_miss, none, record x { ghosts = ghosts }))
      × IsPushed (ghost_set x k) (tag_of k) x.ghosts ghosts
      × (answer_of (reserve (record x { ghosts = ghosts }) k)
          ≡ admission (victim (record x { ghosts = ghosts })).0)
reserve-twice x k absent new = (
  push_ghost (ghost_set x k) (tag_of k) x.ghosts,
  reserve-first x k ((==_iff (find x k) no_slot).1 absent)
      ((==_iff (ghost_way x (ghost_set x k) (tag_of k) ghost_ways) ghost_ways).1 new),
  push_ghost-IsPushed (ghost_set x k) (tag_of k) x.ghosts,
  reserve-later (noted x k) k ((==_iff (find (noted x k) k) no_slot).1 (find-ghosts x _ k ∙ absent))
      way,
)
  where
    way :
        (ghost_way (noted x k) (ghost_set (noted x k) k) (tag_of k) ghost_ways == ghost_ways)
        ≡ false
    way = rw (ghost_set-noted x k) (rw (ghost_way-noted x k) refl)
