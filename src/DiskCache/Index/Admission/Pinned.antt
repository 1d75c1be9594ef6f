-- ===== src/DiskCache/Index/Admission/Pinned.antt =====
-- What BlorgDiskCacheIndexReserve of src/DiskCacheIndex.c leaves alone, and what it sets up.
use blorg_fs.Prelude.{
  ℕ, suc, ◌≡◌, ◌≢◌, refl, sym, ◌∙◌, ap, false, inl, inr, arith, update_all, update_ne, ◌==◌,
  Bool-cases, Option-cases,
}
use blorg_fs.DiskCache.Types.{Key, Slot, is_free, Index, no_slot, ghost_ways}
use blorg_fs.DiskCache.Index.Chain.{
  Link, head_link, next_link, mix, chain_of, find, link_to, unlink, set_next, set_link,
}
use blorg_fs.DiskCache.Index.Clock.{victim}
use blorg_fs.DiskCache.Index.Clock.Rounds.{IsSized, SameButMarks}
use blorg_fs.DiskCache.Index.Clock.Choice.{victim-kept, victim-unpinned}
use blorg_fs.DiskCache.Index.Admission.{tag_of, ghost_set, ghost_way, take_slot, reserve}

-- A field of a slot that no change of a link or of a mark touches.
pub record IsKept {A : Type 0} (g : Slot → A) : Type 0 where
  pub link : (s : Slot) (n : ℕ) → g (record s { next = n }) ≡ g s
  pub marks : (x x' : Index) → SameButMarks x x' → (j : ℕ) → g (x'.slots j) ≡ g (x.slots j)

module _ {A : Type 0} (g : Slot → A) (h : IsKept g) where
  set_next-keeps : (x : Index) (i n j : ℕ) → g ((set_next x i n).slots j) ≡ g (x.slots j)
  set_next-keeps x i n j =
      update_all (λ j s. g s ≡ g (x.slots j)) x.slots i (record (x.slots i) { next = n })
        (h.link (x.slots i) n) (λ j. refl) j

  set_link-keeps : (x : Index) (l : Link) (n j : ℕ) → g ((set_link x l n).slots j) ≡ g (x.slots j)
  set_link-keeps x (head_link i) n j = refl
  set_link-keeps x (next_link i) n j = set_next-keeps x i n j

  unlink-keeps : (x : Index) (slot j : ℕ) → g ((unlink x slot).slots j) ≡ g (x.slots j)
  unfolding unlink
  unlink-keeps x slot j =
      elim (Option-cases
        (link_to x slot (suc x.slot_count) (head_link (chain_of x (mix (x.slots slot).key))))) [
          | inl p ↦ rw (p, unlink) refl
          | inr (l, p) ↦
              rw (p, unlink)
                (set_next-keeps (set_link x l (x.slots slot).next) slot no_slot j
                  ∙ set_link-keeps x l (x.slots slot).next j)
        ]

  take_slot-keeps :
      (x : Index) (k : Key) (slot j : ℕ)
      → slot ≢ j
      → g ((take_slot x k slot).slots j) ≡ g (x.slots j)
  unfolding take_slot
  take_slot-keeps x k slot j ne = elim (Bool-cases (is_free (x.slots slot).state)) [
    | inl p ↦ rw p (ap g (update_ne x.slots slot j _ ne))
    | inr p ↦ rw p (ap g (update_ne (unlink x slot).slots slot j _ ne) ∙ unlink-keeps x slot j)
  ]

  -- A reserved slot is another than a pinned one.
  reserve-keeps :
      (x : Index) (k : Key) (j : ℕ)
      → IsSized x
      → (x.slots j).pins ≢ 0
      → g ((reserve x k).2.slots j) ≡ g (x.slots j)
  unfolding reserve
  reserve-keeps x k j sized pinned = elim (Bool-cases (find x k == no_slot)) [
    | inr p ↦ rw p refl
    | inl p ↦ elim (Bool-cases (ghost_way x (ghost_set x k) (tag_of k) ghost_ways == ghost_ways)) [
      | inl q ↦ rw (p, q) refl
      | inr q ↦ elim (Bool-cases ((victim x).0 == no_slot)) [
        | inl r ↦ rw (p, q, r) (h.marks x (victim x).1 (victim-kept x sized).0 j)
        | inr r ↦
            rw (p, q, r)
              (take_slot-keeps (victim x).1 k (victim x).0 j (other r)
                ∙ h.marks x (victim x).1 (victim-kept x sized).0 j)
      ]
    ]
  ]
    where
      other : ((victim x).0 == no_slot) ≡ false → (victim x).0 ≢ j
      other r e = pinned (
          ap (λ i. (x.slots i).pins) (sym e)
          ∙ (victim-unpinned x sized (λ z. absurd (ground arith))).1)

key-IsKept : IsKept (λ s. s.key)
key-IsKept = record { link = λ s n. refl; marks = λ x x' s. s.key }

state-IsKept : IsKept (λ s. s.state)
state-IsKept = record { link = λ s n. refl; marks = λ x x' s. s.state }

pins-IsKept : IsKept (λ s. s.pins)
pins-IsKept = record { link = λ s n. refl; marks = λ x x' s. s.pins }

-- Whatever BlorgDiskCacheIndexReserve answers, a pinned slot keeps its key, its state and its pins,
-- so that the bytes behind it stay its key's while it is read or written without the lock. The hand is
-- on a slot of the index.
pub reserve-pinned :
    (x : Index) (k : Key) (j : ℕ)
    → IsSized x
    → (x.slots j).pins ≢ 0
    → (((reserve x k).2.slots j).key ≡ (x.slots j).key)
      × (((reserve x k).2.slots j).state ≡ (x.slots j).state)
      × (((reserve x k).2.slots j).pins ≡ (x.slots j).pins)
reserve-pinned x k j sized pinned = (
  reserve-keeps (λ s. s.key) key-IsKept x k j sized pinned,
  reserve-keeps (λ s. s.state) state-IsKept x k j sized pinned,
  reserve-keeps (λ s. s.pins) pins-IsKept x k j sized pinned,
)
