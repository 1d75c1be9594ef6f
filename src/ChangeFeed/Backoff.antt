-- ===== src/ChangeFeed/Backoff.antt =====
-- How long the follower of src/ChangeFeed.c waits between polls.
use blorg_fs.Prelude.{
  ℕ, zero, suc, ◌*◌, ◌^◌, ◌≤◌, ◌≡◌, refl, ◌∙◌, ap, List, [], ◌∷◌, inl, inr, arith, ltb,
  if◌then◌else◌, Bool-cases,
}
use blorg_fs.PathCache.Kernel.{Kernel}
use blorg_fs.ChangeFeed.State.{Feed, backoff_min_ms, backoff_max_ms}
use blorg_fs.ChangeFeed.Apply.{nt_success}
use blorg_fs.ChangeFeed.Poll.{Reply, outcome_status, next_backoff, poll, follow}

abbrev capped : ℕ → ℕ
capped ms = if ltb backoff_max_ms ms then backoff_max_ms else ms

-- The documented wait after some number of failed polls in a row.
abbrev pub backoff_after : ℕ → ℕ
backoff_after zero = 0
backoff_after (suc n) = capped (backoff_min_ms * 2 ^ n)

-- How many polls in a row have failed at the end of a history that starts with `n` of them.
abbrev pub streak : List Reply → ℕ → ℕ
streak [] n = n
streak (r ∷ rs) n = streak rs (if nt_success (outcome_status r) then 0 else suc n)

next_backoff-capped : (ms : ℕ) → 1 ≤ ms → next_backoff (capped ms) ≡ capped (ms * 2)
unfolding next_backoff
next_backoff-capped ms h = ground arith

power_pos : (n : ℕ) → 1 ≤ 2 ^ n
power_pos zero = omega arith
power_pos (suc n) = omega (arith, power_pos n)

next_backoff-after : (n : ℕ) → next_backoff (backoff_after n) ≡ backoff_after (suc n)
unfolding next_backoff
next_backoff-after zero = refl
next_backoff-after (suc n) =
    next_backoff-capped (backoff_min_ms * 2 ^ n) (omega (arith, power_pos n))
    ∙ ap capped {x = backoff_min_ms * 2 ^ n * 2} {y = backoff_min_ms * 2 ^ suc n} (omega arith)

-- After any history of polls, successful and failed, the follower's wait is the documented one:
-- none after a success, and after n failures in a row 1000 ms doubled n - 1 times, up to 30000 ms.
-- The history before these replies ended in n failures in a row.
pub follow-backoff :
    (k : Kernel) (rs : List Reply) (n : ℕ) (f : Feed)
    → f.backoff_ms ≡ backoff_after n
    → (follow k rs f).backoff_ms ≡ backoff_after (streak rs n)
unfolding follow poll
follow-backoff k [] n f h = h
follow-backoff k (r ∷ rs) n f h = elim (Bool-cases (nt_success (outcome_status r))) [
  | inl p ↦ rw p (follow-backoff k rs 0 (poll k r f) (rw p refl))
  | inr p ↦
      rw p
        (follow-backoff k rs (suc n) (poll k r f) (rw p (ap next_backoff h ∙ next_backoff-after n)))
]
