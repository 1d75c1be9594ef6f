-- ===== src/DiskCache/Index/Plan/Gaps.antt =====
-- What a pass of BlorgDiskCacheIndexPlanRead of src/DiskCacheIndex.c finds: a stretch of held blocks
-- between two runs.
use blorg_fs.Prelude.{
  ℕ, zero, suc, ◌+◌, ◌-◌, ◌≤◌, ◌<◌, ◌≡◌, ◌≢◌, refl, sym, ap, true, false, ◌&&◌, not, inl, inr,
  arith, List, [], ◌∷◌, length, ltb, ◌==◌, if◌then◌else◌, Bool-cases, subst, ==_iff,
}
use blorg_fs.DiskCache.Types.{no_slot}
use blorg_fs.DiskCache.Index.Plan.{is_gap, starts_run, held_start, Scan, scan_run, scan, forget}

-- How many blocks a read holds.
abbrev pub count_held : List ℕ → ℕ
count_held [] = 0
count_held (s ∷ slots) = if s == no_slot then count_held slots else suc (count_held slots)

-- A stretch of blocks, all held.
abbrev pub AreHeld : List ℕ → ℕ → ℕ → Type 0
AreHeld slots start end = (j : ℕ) → start ≤ j → j < end → is_gap slots j ≡ false

held_start-le : (slots : List ℕ) (n : ℕ) → held_start slots n ≤ n
unfolding held_start
held_start-le slots zero = omega arith
held_start-le slots (suc n) = ground (arith, held_start-le slots n)

AreHeld-suc :
    (slots : List ℕ) (start n : ℕ)
    → AreHeld slots start n
    → is_gap slots n ≡ false
    → AreHeld slots start (suc n)
AreHeld-suc slots start n all p j a b = elim (Bool-cases (j == n)) [
  | inl e ↦ subst (λ i. is_gap slots i ≡ false) (sym ((==_iff j n).0 e)) p
  | inr e ↦ all j a (ground arith)
]

held_start-AreHeld : (slots : List ℕ) (n : ℕ) → AreHeld slots (held_start slots n) n
unfolding held_start
held_start-AreHeld slots zero = λ j a b. absurd (omega arith)
held_start-AreHeld slots (suc n) = elim (Bool-cases (is_gap slots n)) [
  | inl p ↦ rw p (λ j a b. absurd (omega arith))
  | inr p ↦ rw p (AreHeld-suc slots (held_start slots n) n (held_start-AreHeld slots n) p)
]

-- Held blocks before a run are at least one.
held_start-lt :
    (slots : List ℕ) (n : ℕ) → starts_run slots (suc n) ≡ true → held_start slots (suc n) ≤ n
unfolding held_start
held_start-lt slots n h = elim (Bool-cases (is_gap slots n)) [
  | inl p ↦ absurd (ground arith)
  | inr p ↦ rw p (held_start-le slots n)
]

-- What a pass has found: no two runs yet, or a stretch of held blocks before the last of them.
pub data Finding : List ℕ → ℕ → Scan → Type 0 where
  few :
      {slots : List ℕ} {n : ℕ} {s : Scan} → s.runs ≤ 1 → s.gap_length ≡ no_slot → Finding slots n s
  between :
      {slots : List ℕ} {n : ℕ} {s : Scan}
      → 1 ≤ s.gap_length
      → s.gap_start + s.gap_length ≤ n
      → AreHeld slots s.gap_start (s.gap_start + s.gap_length)
      → Finding slots n s

scan_run-Finding :
    (slots : List ℕ) (n : ℕ) (s : Scan)
    → n < no_slot
    → starts_run slots n ≡ true
    → (n ≡ 0 → s.runs ≡ 0)
    → Finding slots n s
    → Finding slots (suc n) (scan_run slots n s)
scan_run-Finding slots n s lt r first f =
    elim (Bool-cases (not (s.runs == 0) && ltb (n - held_start slots n) s.gap_length)) [
      | inl p ↦ rw p (
          between (long n r first (ground arith)) (omega (arith, held_start-le slots n)) (
            subst (AreHeld slots (held_start slots n)) (omega (arith, held_start-le slots n))
              (held_start-AreHeld slots n)))
      | inr p ↦ rw p (kept f p)
    ]
  where
    long :
        (n : ℕ)
        → starts_run slots n ≡ true
        → (n ≡ 0 → s.runs ≡ 0)
        → s.runs ≢ 0
        → 1 ≤ n - held_start slots n
    long zero r first ne = absurd (ne (first refl))
    long (suc n) r first ne = omega (arith, held_start-lt slots n r)

    few_runs :
        s.runs ≤ 1
        → s.gap_length ≡ no_slot
        → not (s.runs == 0) && ltb (n - held_start slots n) s.gap_length ≡ false
        → s.runs + 1 ≤ 1
    few_runs le e p = ground arith

    kept :
        Finding slots n s
        → not (s.runs == 0) && ltb (n - held_start slots n) s.gap_length ≡ false
        → Finding slots
            (suc n)
            (record { runs = s.runs + 1; gap_start = s.gap_start; gap_length = s.gap_length })
    kept (few le e) p = few (few_runs le e p) e
    kept (between one in_reach all) p = between one (omega arith) all

runs-zero : (slots : List ℕ) (n : ℕ) → n ≡ 0 → (scan slots n).runs ≡ 0
unfolding scan
runs-zero slots zero e = refl
runs-zero slots (suc n) e = absurd (omega arith)

pub scan-Finding : (slots : List ℕ) (n : ℕ) → n ≤ no_slot → Finding slots n (scan slots n)
unfolding scan
scan-Finding slots zero lt = few (omega arith) refl
scan-Finding slots (suc n) lt = elim (Bool-cases (starts_run slots n)) [
  | inl p ↦ rw p (
      scan_run-Finding slots n (scan slots n) (omega arith) p (runs-zero slots n)
        (scan-Finding slots n (omega arith)))
  | inr p ↦ rw p (longer (scan-Finding slots n (omega arith)))
]
  where
    longer : Finding slots n (scan slots n) → Finding slots (suc n) (scan slots n)
    longer (few le e) = few le e
    longer (between one in_reach all) = between one (omega arith) all

pub count_held-forget :
    (slots : List ℕ) (start count : ℕ)
    → start + count ≤ length slots
    → AreHeld slots start (start + count)
    → count_held (forget start count slots) + count ≡ count_held slots
count_held-forget [] start count le all = omega arith
count_held-forget (s ∷ slots) (suc start) count le all = ground (
  arith,
  count_held-forget slots start count (omega arith)
      (λ j a b. all (suc j) (omega arith) (omega arith)),
)
count_held-forget (s ∷ slots) zero zero le all = omega arith
count_held-forget (s ∷ slots) zero (suc count) le all = rw (all 0 (omega arith) (omega arith)) (
    omega (
      arith,
      count_held-forget slots zero count (omega arith)
          (λ j a b. all (suc j) (omega arith) (omega arith)),
    ))

pub length-forget :
    (slots : List ℕ) (start count : ℕ) → length (forget start count slots) ≡ length slots
length-forget [] start count = refl
length-forget (s ∷ slots) (suc start) count = ap suc (length-forget slots start count)
length-forget (s ∷ slots) zero (suc count) = ap suc (length-forget slots zero count)
length-forget (s ∷ slots) zero zero = refl

-- A read that is held whole has nothing to fetch.
pub count_held-le : (slots : List ℕ) → count_held slots ≤ length slots
count_held-le [] = omega arith
count_held-le (s ∷ slots) = ground (arith, count_held-le slots)

pub held_whole : (slots : List ℕ) → count_held slots ≡ length slots → AreHeld slots 0 (length slots)
held_whole [] e = λ j a b. absurd (omega arith)
held_whole (s ∷ slots) e = elim (Bool-cases (s == no_slot)) [
  | inl p ↦ absurd (too_few (rw p refl))
  | inr p ↦ rest p (rw p refl) (held_whole slots)
]
  where
    too_few : count_held (s ∷ slots) ≡ count_held slots → ⊥
    too_few f = omega (arith, count_held-le slots)

    rest :
        (s == no_slot) ≡ false
        → count_held (s ∷ slots) ≡ suc (count_held slots)
        → (count_held slots ≡ length slots → AreHeld slots 0 (length slots))
        → AreHeld (s ∷ slots) 0 (suc (length slots))
    rest p f all zero a b = p
    rest p f all (suc j) a b = all (omega arith) j (omega arith) (omega arith)

pub scan-held_whole : (slots : List ℕ) (n : ℕ) → AreHeld slots 0 n → (scan slots n).runs ≡ 0
unfolding scan
scan-held_whole slots zero all = refl
scan-held_whole slots (suc n) all =
    rw (no_start n (all n (omega arith) (omega arith)))
      (scan-held_whole slots n (λ j a b. all j a (omega arith)))
  where
    no_start : (i : ℕ) → is_gap slots i ≡ false → starts_run slots i ≡ false
    no_start zero p = p
    no_start (suc i) p = rw p refl
