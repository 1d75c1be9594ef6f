-- ===== src/Prelude/Bytes.antt =====
-- `|` and `^` on bytes, each by its table.
use Prim.Native.Nat.{ℕ, zero, suc, ◌<◌, bit_or, bit_xor}
use mathlib.Core.Path.{◌≡◌, refl, sym, ap, ◌∙◌}
use mathlib.Core.Bool.{Bool, true, false, ◌&&◌, not}
use native.Mathlib.Omega.{arith}
use native.Mathlib.Decide.{ℕ_discrete}
use blorg_fs.Prelude.Tests.{◌==◌, ==_iff, ltb, ltb→lt, if◌then◌else◌, &&-both}

-- A test passes on each of the first so many numbers.
passes : (ℕ → Bool) → ℕ → Bool
passes test zero = true
passes test (suc last) = if test last then passes test last else false

passed : (test : ℕ → Bool) (bound b : ℕ) → passes test bound ≡ true → b < bound → test b ≡ true
unfolding passes
passed test zero b all below = absurd (omega arith)
passed test (suc last) b all below = elim (ℕ_discrete b last) [
  | yes same ↦ ap test same ∙ (conditional (test last) (passes test last) all).0
  | no other ↦ passed test last b (conditional (test last) (passes test last) all).1 (omega arith)
]
  where
    conditional : (t k : Bool) → (if t then k else false) ≡ true → (t ≡ true) × (k ≡ true)
    conditional t k h = ground arith

-- A test that passes on every pair of bytes.
abbrev every_pair : (ℕ → ℕ → Bool) → Bool
every_pair p = passes (λ a. passes (λ b. p a b) 256) 256

every_pair_sound :
    (p : ℕ → ℕ → Bool) → every_pair p ≡ true → (a b : ℕ) → a < 256 → b < 256 → p a b ≡ true
every_pair_sound p h a b s t =
    passed (p a) 256 b (passed (λ a. passes (λ b. p a b) 256) 256 a h s) t

bit_xor-bit_xor_table : every_pair (λ a b. bit_xor a (bit_xor a b) == b) ≡ true
unfolding passes
bit_xor-bit_xor_table = refl

pub bit_xor-bit_xor : (a b : ℕ) → a < 256 → b < 256 → bit_xor a (bit_xor a b) ≡ b
bit_xor-bit_xor a b s t =
    (==_iff _ b).0
      (every_pair_sound (λ a b. bit_xor a (bit_xor a b) == b) bit_xor-bit_xor_table a b s t)

bit_xor-zero_table : every_pair (λ a b. if bit_xor a b == 0 then a == b else not (a == b)) ≡ true
unfolding passes
bit_xor-zero_table = refl

bit_or-zero_table :
    every_pair (λ a b. if bit_or a b == 0 then a == 0 && b == 0 else not (a == 0 && b == 0)) ≡ true
unfolding passes
bit_or-zero_table = refl

range_table : every_pair (λ a b. ltb (bit_or a b) 256 && ltb (bit_xor a b) 256) ≡ true
unfolding passes
range_table = refl

same_test : (p q : Bool) → (if p then q else not q) ≡ true → p ≡ q
same_test p q h = ground arith

-- `^` is zero on equal bytes only.
pub bit_xor-zero : (a b : ℕ) → a < 256 → b < 256 → (bit_xor a b == 0) ≡ (a == b)
bit_xor-zero a b s t = same_test (bit_xor a b == 0) (a == b) (
    every_pair_sound (λ a b. if bit_xor a b == 0 then a == b else not (a == b)) bit_xor-zero_table a
      b s t)

pub bit_or-zero : (a b : ℕ) → a < 256 → b < 256 → (bit_or a b == 0) ≡ (a == 0) && (b == 0)
bit_or-zero a b s t = same_test (bit_or a b == 0) (a == 0 && b == 0) (
    every_pair_sound (λ a b. if bit_or a b == 0 then a == 0 && b == 0 else not (a == 0 && b == 0))
      bit_or-zero_table a b s t)

pub byte_range : (a b : ℕ) → a < 256 → b < 256 → (bit_or a b < 256) × (bit_xor a b < 256)
byte_range a b s t =
    let both = &&-both (ltb (bit_or a b) 256) (ltb (bit_xor a b) 256) (
      every_pair_sound (λ a b. ltb (bit_or a b) 256 && ltb (bit_xor a b) 256) range_table a b s
        t) in
    (ltb→lt (bit_or a b) 256 both.0, ltb→lt (bit_xor a b) 256 both.1)

-- A byte that is combined with `^` is told from the result.
pub bit_xor-inj : (a b c : ℕ) → a < 256 → b < 256 → c < 256 → bit_xor a b ≡ bit_xor a c → b ≡ c
bit_xor-inj a b c s t u e =
    sym (bit_xor-bit_xor a b s t) ∙ ap (bit_xor a) e ∙ bit_xor-bit_xor a c s u
