-- ===== src/DiskCache/Index/Clock/Choice.antt =====
-- What DiskCacheIndexVictim of src/DiskCacheIndex.c chooses, and what it leaves alone.
use blorg_fs.Prelude.{
  ℕ, zero, suc, ◌+◌, ◌<◌, ◌≡◌, ◌≢◌, refl, sym, ◌∙◌, Bool, true, false, inl, inr, arith, ltb, ◌==◌,
  if◌then◌else◌, Bool-cases,
}
use blorg_fs.DiskCache.Types.{Index, no_slot, clock_reach}
use blorg_fs.DiskCache.Index.Clock.{sweep, victim}
use blorg_fs.DiskCache.Index.Clock.Rounds.{
  IsSized, SameButMarks, passed, SameButMarks-trans, passed-SameButMarks, passed-IsSized,
  sweep-induction,
}

-- A slot that may be given up.
abbrev IsUnpinned : Index → ℕ → Type 0
IsUnpinned x slot = slot ≢ no_slot → (slot < x.slot_count) × ((x.slots slot).pins ≡ 0)

sweep-kept :
    (left fallback : ℕ) (x : Index)
    → IsSized x
    → SameButMarks x (sweep left fallback x).1 × IsSized (sweep left fallback x).1
sweep-kept =
    sweep-induction (λ left fallback x r. IsSized x → SameButMarks x r.1 × IsSized r.1)
      (λ fallback x h. (passed-same x, h)) (λ left fallback x r p rec h. onward false x r rec h)
      (λ left fallback x r p rec h. onward true x r rec h)
      (λ left fallback x p h. (passed-SameButMarks false x, passed-IsSized false x h))
  where
    passed-same : (x : Index) → SameButMarks x x
    passed-same x = record {
      key = λ j. refl;
      next = λ j. refl;
      pins = λ j. refl;
      state = λ j. refl;
      heads = refl;
      ghosts = refl;
      slot_count = refl;
      hash_mask = refl;
      ghost_mask = refl;
    }

    onward :
        (m : Bool) (x : Index) (r : ℕ × Index)
        → (IsSized (passed m x) → SameButMarks (passed m x) r.1 × IsSized r.1)
        → IsSized x
        → SameButMarks x r.1 × IsSized r.1
    onward m x r rec h =
        let both = rec (passed-IsSized m x h) in
        (SameButMarks-trans x (passed m x) r.1 (passed-SameButMarks m x) both.0, both.1)

sweep-IsUnpinned :
    (left fallback : ℕ) (x : Index)
    → IsSized x
    → IsUnpinned x fallback
    → IsUnpinned x (sweep left fallback x).0
sweep-IsUnpinned =
    sweep-induction (λ left fallback x r. IsSized x → IsUnpinned x fallback → IsUnpinned x r.0)
      (λ fallback x h u. u) (λ left fallback x r p rec h u. rec (passed-IsSized false x h) u)
      (λ left fallback x r p rec h u.
        back x r (rec (passed-IsSized true x h) (taken x fallback p h u)))
      (λ left fallback x p h u ne. (h.hand, ground arith))
  where
    back : (x : Index) (r : ℕ × Index) → IsUnpinned (passed true x) r.0 → IsUnpinned x r.0
    back x r u ne = ((u ne).0, sym ((passed-SameButMarks true x).pins r.0) ∙ (u ne).1)

    taken :
        (x : Index) (fallback : ℕ)
        → ((x.slots x.hand).pins == 0) ≡ true
        → IsSized x
        → IsUnpinned x fallback
        → IsUnpinned (passed true x) (if fallback == no_slot then x.hand else fallback)
    taken x fallback p h u = elim (Bool-cases (fallback == no_slot)) [
      | inl e ↦ rw e (λ ne. (h.hand, (passed-SameButMarks true x).pins x.hand ∙ ground arith))
      | inr e ↦ rw e (λ ne. ((u ne).0, (passed-SameButMarks true x).pins fallback ∙ (u ne).1))
    ]

-- The place of the hand some rounds on.
abbrev pub place : ℕ → ℕ → ℕ → ℕ
place count zero hand = hand
place count (suc n) hand = place count n (if (hand + 1) == count then 0 else hand + 1)

-- Every slot that the hand looks at is pinned.
abbrev AllPinned : ℕ → Index → Type 0
AllPinned left x = (j : ℕ) → j < left → (x.slots (place x.slot_count j x.hand)).pins ≢ 0

sweep-none :
    (left fallback : ℕ) (x : Index)
    → IsSized x
    → (sweep left fallback x).0 ≡ no_slot
    → (fallback ≡ no_slot) × AllPinned left x
sweep-none =
    sweep-induction
      (λ left fallback x r. IsSized x → r.0 ≡ no_slot → (fallback ≡ no_slot) × AllPinned left x)
      (λ fallback x h e. (e, λ j lt. absurd (omega arith)))
      (λ left fallback x r p rec h e.
        let both = rec (passed-IsSized false x h) e in (both.0, past left x p both.1))
      (λ left fallback x r p rec h e.
        absurd (cc (not_taken x fallback h (rec (passed-IsSized true x h) e).0)))
      (λ left fallback x p h e. absurd (omega (arith, h.hand, h.count)))
  where
    past :
        (left : ℕ) (x : Index)
        → ((x.slots x.hand).pins == 0) ≡ false
        → AllPinned left (passed false x)
        → AllPinned (suc left) x
    past left x p all zero lt = ground arith
    past left x p all (suc j) lt = all j (omega arith)

    not_taken :
        (x : Index) (fallback : ℕ)
        → IsSized x
        → (if fallback == no_slot then x.hand else fallback) ≡ no_slot
        → true ≡ false
    not_taken x fallback h e = ground (arith, h.hand, h.count)

-- How many slots the clock looks at.
abbrev pub reach : Index → ℕ
reach x = if ltb x.slot_count clock_reach then x.slot_count else clock_reach

no_slot-IsUnpinned : (x : Index) → IsUnpinned x no_slot
no_slot-IsUnpinned x ne = absurd (ne refl)

pub victim-kept : (x : Index) → IsSized x → SameButMarks x (victim x).1 × IsSized (victim x).1
unfolding victim
victim-kept x h = sweep-kept (reach x) no_slot x h

-- With its hand on a slot, the clock, if it finds a slot, gives up one of the index that nobody has
-- pinned, and changes nothing but marks and its hand.
pub victim-unpinned :
    (x : Index)
    → IsSized x
    → (victim x).0 ≢ no_slot
    → ((victim x).0 < x.slot_count)
      × ((x.slots (victim x).0).pins ≡ 0)
      × SameButMarks x (victim x).1
unfolding victim
victim-unpinned x h ne =
    let u = sweep-IsUnpinned (reach x) no_slot x h (no_slot-IsUnpinned x) ne in
    (u.0, u.1, (sweep-kept (reach x) no_slot x h).0)

-- With its hand on a slot, the clock finds no slot only when every one that it looks at is pinned: those from the hand on, as
-- many as there are and 256 at most.
pub victim-fails :
    (x : Index) (j : ℕ)
    → IsSized x
    → (victim x).0 ≡ no_slot
    → j < reach x
    → (x.slots (place x.slot_count j x.hand)).pins ≢ 0
unfolding victim
victim-fails x j h e lt = (sweep-none (reach x) no_slot x h e).1 j lt
