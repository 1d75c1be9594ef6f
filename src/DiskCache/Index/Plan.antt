-- ===== src/DiskCache/Index/Plan.antt =====
-- BlorgDiskCacheIndexPlanRead of src/DiskCacheIndex.c. A read's slots are a list, with `no_slot` for
-- a block to fetch.
pub mod Gaps
pub mod Bound
pub mod Balance
use blorg_fs.Prelude.{
  ℕ, zero, suc, ◌+◌, ◌-◌, Bool, false, ◌&&◌, not, List, [], ◌∷◌, Option, none, some, length,
  get_elem?, ltb, leb, sub32, ◌==◌, if◌then◌else◌,
}
use blorg_fs.DiskCache.Types.{Index, no_slot}
use blorg_fs.DiskCache.Index.Pins.{unpin}

-- `Slots[i]`
abbrev pub slot_at : List ℕ → ℕ → ℕ
slot_at slots i = elim (get_elem? slots i) [ none ↦ no_slot | some s ↦ s ]

abbrev pub is_gap : List ℕ → ℕ → Bool
is_gap slots i = slot_at slots i == no_slot

-- Whether a run of blocks to fetch starts at an index.
abbrev pub starts_run : List ℕ → ℕ → Bool
starts_run slots zero = is_gap slots zero
starts_run slots (suc i) = is_gap slots (suc i) && not (is_gap slots i)

-- The inner `while` loop: where the held blocks before an index start.
unfoldable pub held_start : List ℕ → ℕ → ℕ
held_start slots zero = 0
held_start slots (suc i) = let rest = held_start slots i in if is_gap slots i then suc i else rest

-- What one pass of the `for` loop finds: how many runs there are, and the shortest stretch of held
-- blocks between two of them.
pub record Scan : Type 0 where
  pub runs : ℕ
  pub gap_start : ℕ
  pub gap_length : ℕ

abbrev pub start_scan : Scan
start_scan = record { runs = 0; gap_start = 0; gap_length = no_slot }

abbrev pub scan_run : List ℕ → ℕ → Scan → Scan
scan_run slots i s =
    let start = held_start slots i in
    let nearer = not (s.runs == 0) && ltb (i - start) s.gap_length in
    record {
      runs = s.runs + 1;
      gap_start = if nearer then start else s.gap_start;
      gap_length = if nearer then i - start else s.gap_length;
    }

-- The pass over the first `n` blocks.
unfoldable pub scan : List ℕ → ℕ → Scan
unfolding held_start
scan slots zero = start_scan
scan slots (suc n) = let s = scan slots n in if starts_run slots n then scan_run slots n s else s

-- `&Slots[start]`, `count` of them.
abbrev pub stretch : ℕ → ℕ → List ℕ → List ℕ
stretch start count [] = []
stretch (suc start) count (s ∷ slots) = stretch start count slots
stretch zero (suc count) (s ∷ slots) = s ∷ stretch zero count slots
stretch zero zero (s ∷ slots) = []

-- The loop that forgets them.
abbrev pub forget : ℕ → ℕ → List ℕ → List ℕ
forget start count [] = []
forget (suc start) count (s ∷ slots) = s ∷ forget start count slots
forget zero (suc count) (s ∷ slots) = no_slot ∷ forget zero count slots
forget zero zero (s ∷ slots) = s ∷ slots

-- What the read is to serve: the slots, how many it holds, and the index with the others unpinned.
pub record Plan : Type 0 where
  pub slots : List ℕ
  pub held : ℕ
  pub index : Index

-- The `for (;;)` loop; `none`: out of fuel.
unfoldable pub plan_loop : ℕ → ℕ → Plan → Option Plan
unfolding scan unpin
plan_loop zero max_runs p = none
plan_loop (suc fuel) max_runs p =
    let s = scan p.slots (length p.slots) in
    let rest = plan_loop fuel max_runs (record {
      slots = forget s.gap_start s.gap_length p.slots;
      held = sub32 p.held s.gap_length;
      index = unpin (stretch s.gap_start s.gap_length p.slots) false p.index;
    }) in
    if leb s.runs max_runs then some p else rest

-- BlorgDiskCacheIndexPlanRead. With a run allowed, or nothing to fetch, each round but the last gives
-- up a block that is held. With no run allowed and a block to fetch there may be no stretch to give
-- up; DiskCache.c does not make that call.
unfoldable pub plan_read : Index → List ℕ → ℕ → ℕ → Option Plan
unfolding plan_loop
plan_read x slots held max_runs =
    plan_loop (suc (length slots)) max_runs (record { slots = slots; held = held; index = x })
