-- ===== src/DiskCache/Index/Plan/Bound.antt =====
-- BlorgDiskCacheIndexPlanRead of src/DiskCacheIndex.c ends, within its number of runs.
use blorg_fs.Prelude.{
  ℕ, zero, suc, ◌+◌, ◌≤◌, ◌<◌, ◌≡◌, refl, sym, ◌∙◌, le→leb, ◌⊎◌, false, inl, inr, arith, List, some,
  length, leb, sub32, Bool-cases, subst, leb→le,
}
use blorg_fs.DiskCache.Types.{Index, no_slot}
use blorg_fs.DiskCache.Index.Pins.{unpin}
use blorg_fs.DiskCache.Index.Plan.{Scan, scan, stretch, forget, Plan, plan_loop, plan_read}
use blorg_fs.DiskCache.Index.Plan.Gaps.{
  count_held, count_held-le, Finding, few, between, scan-Finding, count_held-forget, length-forget,
  held_whole, scan-held_whole,
}

-- A plan of `n` blocks within the number of runs, that counts the blocks it holds.
pub record IsWithin (max_runs n : ℕ) (p : Plan) : Type 0 where
  pub runs : (scan p.slots (length p.slots)).runs ≤ max_runs
  pub blocks : length p.slots ≡ n
  pub held : p.held ≡ count_held p.slots

-- A pass that finds too many runs finds a stretch of held blocks to give up.
fewer-held :
    (slots : List ℕ) (max_runs : ℕ)
    → 1 ≤ max_runs
    → length slots ≤ no_slot
    → max_runs < (scan slots (length slots)).runs
    → (1 ≤ (scan slots (length slots)).gap_length)
      × (count_held (
              forget
                (scan slots (length slots)).gap_start
                (scan slots (length slots)).gap_length
                slots)
            + (scan slots (length slots)).gap_length
          ≡ count_held slots)
fewer-held slots max_runs one lt more = go (scan-Finding slots (length slots) lt)
  where
    s : Scan
    s = scan slots (length slots)

    go :
        Finding slots (length slots) s
        → (1 ≤ s.gap_length)
          × (count_held (forget s.gap_start s.gap_length slots) + s.gap_length ≡ count_held slots)
    go (few le e) = absurd (omega arith)
    go (between one in_reach all) =
        (one, count_held-forget slots s.gap_start s.gap_length in_reach all)

plan_loop-ends :
    (fuel max_runs : ℕ) (p : Plan)
    → 1 ≤ max_runs
    → length p.slots ≤ no_slot
    → p.held ≡ count_held p.slots
    → count_held p.slots < fuel
    → (q : Plan) × (plan_loop fuel max_runs p ≡ some q) × IsWithin max_runs (length p.slots) q
unfolding plan_loop
plan_loop-ends zero max_runs p one lt h f = absurd (omega arith)
plan_loop-ends (suc fuel) max_runs p one lt h f =
    elim (Bool-cases (leb (scan p.slots (length p.slots)).runs max_runs)) [
      | inl e ↦ (p, rw e refl, record { runs = leb→le _ max_runs e; blocks = refl; held = h })
      | inr e ↦
          let less = fewer-held p.slots max_runs one lt (ground arith) in
          let rest =
            plan_loop-ends fuel max_runs (shorter p) one
              (omega (arith, length-forget p.slots (found p).gap_start (found p).gap_length))
              (still_held p (omega (arith, count_held-le p.slots)) h less.1) (omega arith) in
          (
            rest.0,
            rw e (rest.1),
            subst (λ n. IsWithin max_runs n rest.0)
                (length-forget p.slots (found p).gap_start (found p).gap_length) rest.2,
          )
    ]
  where
    found : Plan → Scan
    found p = scan p.slots (length p.slots)

    shorter : Plan → Plan
    shorter p = record {
      slots = forget (found p).gap_start (found p).gap_length p.slots;
      held = sub32 p.held (found p).gap_length;
      index = unpin (stretch (found p).gap_start (found p).gap_length p.slots) false p.index;
    }

    still_held :
        (p : Plan)
        → count_held p.slots ≤ no_slot
        → p.held ≡ count_held p.slots
        → count_held (shorter p).slots + (found p).gap_length ≡ count_held p.slots
        → (shorter p).held ≡ count_held (shorter p).slots
    still_held p lt h e = omega arith

-- With no run allowed, a read that is held whole is served as it is.
plan_loop-whole :
    (fuel max_runs : ℕ) (p : Plan)
    → p.held ≡ count_held p.slots
    → count_held p.slots ≡ length p.slots
    → (q : Plan) × (plan_loop (suc fuel) max_runs p ≡ some q) × IsWithin max_runs (length p.slots) q
unfolding plan_loop
plan_loop-whole fuel max_runs p h whole = (
  p,
  rw (le→leb (scan p.slots (length p.slots)).runs max_runs (omega (arith, no_runs))) refl,
  record { runs = omega (arith, no_runs); blocks = refl; held = h },
)
  where
    no_runs : (scan p.slots (length p.slots)).runs ≡ 0
    no_runs = scan-held_whole p.slots (length p.slots) (held_whole p.slots whole)

-- For a read of fewer than 2 ^ 32 blocks, with the number of those it holds, and with at least one run
-- allowed or all its blocks held, the plan ends: within the number of runs, over the same number of
-- blocks, and with the number of those it still holds.
pub plan_read-ends :
    (x : Index) (slots : List ℕ) (held max_runs : ℕ)
    → (1 ≤ max_runs) ⊎ (held ≡ length slots)
    → length slots ≤ no_slot
    → held ≡ count_held slots
    → (q : Plan) × (plan_read x slots held max_runs ≡ some q) × IsWithin max_runs (length slots) q
unfolding plan_read
plan_read-ends x slots held max_runs (inl one) lt h =
    plan_loop-ends (suc (length slots)) max_runs (record { slots = slots; held = held; index = x })
      one lt h (omega (arith, count_held-le slots))
plan_read-ends x slots held max_runs (inr whole) lt h =
    plan_loop-whole (length slots) max_runs (record { slots = slots; held = held; index = x }) h
      (sym h ∙ whole)
