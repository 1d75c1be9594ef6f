-- ===== src/DiskCache/Index/Plan/Balance.antt =====
-- The pins of a read of src/DiskCacheIndex.c: those that BlorgDiskCacheIndexPinHeld takes,
-- BlorgDiskCacheIndexPlanRead and BlorgDiskCacheIndexUnpin give back.
use blorg_fs.Prelude.{
  ℕ, zero, suc, ◌+◌, ◌-◌, ◌≤◌, ◌≡◌, refl, sym, ◌∙◌, ap, Bool, true, false, inl, inr, arith, List,
  [], ◌∷◌, some, length, leb, add64, ◌<◌, ◌^◌, ◌⊎◌, ◌==◌, if◌then◌else◌, Bool-cases, subst,
}
use blorg_fs.DiskCache.Types.{Key, Index, no_slot}
use blorg_fs.DiskCache.Index.Chain.{find}
use blorg_fs.DiskCache.Index.Pins.{pin_blocks, pin_held, pin, is_held, unpin, unpin_one}
use blorg_fs.DiskCache.Index.Plan.{scan, stretch, forget, Plan, plan_loop, plan_read}
use blorg_fs.DiskCache.Index.Plan.Gaps.{count_held}
use blorg_fs.DiskCache.Index.Plan.Bound.{IsWithin, plan_read-ends}

abbrev pins_of : Index → ℕ → ℕ
pins_of x j = (x.slots j).pins

abbrev here : ℕ → ℕ → ℕ
here slot j = if slot == j then 1 else 0

-- How often a read holds a slot.
abbrev count_of : ℕ → List ℕ → ℕ
count_of j [] = 0
count_of j (s ∷ slots) = (if s == no_slot then 0 else here s j) + count_of j slots

unpin_one-pins :
    (x : Index) (slot : ℕ) (served : Bool) (j : ℕ)
    → pins_of (unpin_one x slot served) j ≡ pins_of x j - here slot j
unpin_one-pins x slot served j = elim (Bool-cases (slot == j)) [
  | inl e ↦ rw e (ground arith)
  | inr e ↦ rw e (ground arith)
]

unpin-pins :
    (slots : List ℕ) (served : Bool) (x : Index) (j : ℕ)
    → pins_of (unpin slots served x) j ≡ pins_of x j - count_of j slots
unfolding unpin
unpin-pins [] served x j = omega arith
unpin-pins (s ∷ slots) served x j = elim (Bool-cases (s == no_slot)) [
  | inl e ↦ rw e (omega (arith, unpin-pins slots served x j))
  | inr e ↦
      rw e (
        omega
          (arith, unpin-pins slots served (unpin_one x s served) j, unpin_one-pins x s served j))
]

pin-pins : (x : Index) (slot j : ℕ) → pins_of (pin x slot) j ≡ pins_of x j + here slot j
pin-pins x slot j = elim (Bool-cases (slot == j)) [
  | inl e ↦ rw e (ground arith)
  | inr e ↦ rw e (ground arith)
]

pin_blocks-pins :
    (k : Key) (n : ℕ) (x : Index) (j : ℕ)
    → pins_of (pin_blocks k n x).2 j ≡ pins_of x j + count_of j (pin_blocks k n x).0
unfolding pin_blocks
pin_blocks-pins k zero x j = omega arith
pin_blocks-pins k (suc n) x j = elim (Bool-cases (is_held x (find x k))) [
  | inl e ↦ rw e (
      omega (
        arith,
        pin_blocks-pins (record k { block = add64 k.block 1 }) n (pin x (find x k)) j,
        pin-pins x (find x k) j,
        held-found e,
      ))
  | inr e ↦ rw e (omega (arith, pin_blocks-pins (record k { block = add64 k.block 1 }) n x j))
]
  where
    held-found :
        is_held x (find x k) ≡ true
        → (if find x k == no_slot then 0 else here (find x k) j) ≡ here (find x k) j
    held-found e = ground arith

pin_blocks-count :
    (k : Key) (n : ℕ) (x : Index) → (pin_blocks k n x).1 ≡ count_held (pin_blocks k n x).0
unfolding pin_blocks
pin_blocks-count k zero x = refl
pin_blocks-count k (suc n) x = elim (Bool-cases (is_held x (find x k))) [
  | inl e ↦
      rw e (
        ground
          (arith, pin_blocks-count (record k { block = add64 k.block 1 }) n (pin x (find x k))))
  | inr e ↦ rw e (omega (arith, pin_blocks-count (record k { block = add64 k.block 1 }) n x))
]

pin_blocks-length : (k : Key) (n : ℕ) (x : Index) → length (pin_blocks k n x).0 ≡ n
unfolding pin_blocks
pin_blocks-length k zero x = refl
pin_blocks-length k (suc n) x =
    ap suc (pin_blocks-length (record k { block = add64 k.block 1 }) n _)

-- What a plan gives up and what it keeps are what it had.
count_of-forget :
    (j : ℕ) (slots : List ℕ) (start count : ℕ)
    → count_of j (stretch start count slots) + count_of j (forget start count slots)
      ≡ count_of j slots
count_of-forget j [] start count = refl
count_of-forget j (s ∷ slots) (suc start) count = omega (arith, count_of-forget j slots start count)
count_of-forget j (s ∷ slots) zero (suc count) = omega (arith, count_of-forget j slots zero count)
count_of-forget j (s ∷ slots) zero zero = omega arith

plan_loop-pins :
    (fuel max_runs : ℕ) (p q : Plan) (j base : ℕ)
    → plan_loop fuel max_runs p ≡ some q
    → pins_of p.index j ≡ base + count_of j p.slots
    → pins_of q.index j ≡ base + count_of j q.slots
unfolding plan_loop
plan_loop-pins zero max_runs p q j base = λ e h. absurd (cc e)
plan_loop-pins (suc fuel) max_runs p q j base =
    elim (Bool-cases (leb (scan p.slots (length p.slots)).runs max_runs)) [
      | inl r ↦ rw r (λ e h.
          subst (λ (y : Plan). pins_of y.index j ≡ base + count_of j y.slots) {x = p} {y = q} (cc e)
            h)
      | inr r ↦ rw r (λ e h. plan_loop-pins fuel max_runs _ q j base e (
          omega (
            arith,
            unpin-pins
                (stretch (scan p.slots (length p.slots)).gap_start
                  (scan p.slots (length p.slots)).gap_length p.slots)
                false p.index j,
            count_of-forget j p.slots (scan p.slots (length p.slots)).gap_start
                (scan p.slots (length p.slots)).gap_length,
          )))
    ]

plan_read-pins :
    (x : Index) (slots : List ℕ) (held max_runs : ℕ) (q : Plan) (j base : ℕ)
    → plan_read x slots held max_runs ≡ some q
    → pins_of x j ≡ base + count_of j slots
    → pins_of q.index j ≡ base + count_of j q.slots
unfolding plan_read
plan_read-pins x slots held max_runs q j base e h =
    plan_loop-pins (suc (length slots)) max_runs (record { slots = slots; held = held; index = x })
      q j base e h

-- A read of fewer than 2 ^ 32 blocks, whose last is not numbered 2 ^ 64 - 1, pins the blocks it holds,
-- plans which of them to serve, with at least one run allowed or all its blocks held, and unpins those
-- when it is done: the plan ends, and afterwards every slot has the pins that it had before the read.
pub read-balance :
    (x : Index) (k : Key) (last_block max_runs : ℕ) (served : Bool) (j : ℕ)
    → last_block < 2 ^ 64 - 1
    → last_block + 1 - k.block ≤ no_slot
    → (1 ≤ max_runs) ⊎ ((pin_held k last_block x).1 ≡ last_block + 1 - k.block)
    → (q : Plan) × (plan_read
          (pin_held k last_block x).2
          (pin_held k last_block x).0
          (pin_held k last_block x).1
          max_runs
        ≡ some q)
      × (((unpin q.slots served q.index).slots j).pins ≡ (x.slots j).pins)
unfolding pin_held
read-balance x k last_block max_runs served j last lt allowed = (plan.0, plan.1, balanced)
  where
    n : ℕ
    n = last_block + 1 - k.block

    whole :
        (1 ≤ max_runs) ⊎ ((pin_blocks k n x).1 ≡ n)
        → (1 ≤ max_runs) ⊎ ((pin_blocks k n x).1 ≡ length (pin_blocks k n x).0)
    whole (inl one) = inl one
    whole (inr e) = inr (e ∙ sym (pin_blocks-length k n x))

    plan :
        (q : Plan) × (plan_read
            (pin_blocks k n x).2
            (pin_blocks k n x).0
            (pin_blocks k n x).1
            max_runs
          ≡ some q)
        × IsWithin max_runs (length (pin_blocks k n x).0) q
    plan =
        plan_read-ends (pin_blocks k n x).2 (pin_blocks k n x).0 (pin_blocks k n x).1 max_runs
          (whole allowed) (omega (arith, pin_blocks-length k n x)) (pin_blocks-count k n x)

    balanced : pins_of (unpin plan.0.slots served plan.0.index) j ≡ pins_of x j
    balanced = omega (
      arith,
      unpin-pins plan.0.slots served plan.0.index j,
      plan_read-pins (pin_blocks k n x).2 (pin_blocks k n x).0 (pin_blocks k n x).1 max_runs plan.0
          j (pins_of x j) plan.1 (pin_blocks-pins k n x j),
    )
