-- ===== src/Http/Version/Laws.antt =====
-- The version that HttpParseFileVersion of src/Client.c reads is exact.
use blorg_fs.Prelude.{
  ℕ, zero, suc, ◌+◌, ◌-◌, ◌*◌, ◌/◌, ◌%◌, ◌^◌, ◌≤◌, ◌<◌, ◌≡◌, refl, ap, ◌∙◌, inl, inr, true, false,
  ◌&&◌, ◌||◌, Option, none, some, List, [], ◌∷◌, length, arith, ltb, leb, ◌==◌, if◌then◌else◌,
  Bool-cases,
}
use blorg_fs.Http.Version.{hex_digit, hex_digits, parse_hex64, text_before, text_behind, unquoted}

-- The number that hexadecimal digits make.
abbrev pub hexadecimal : ℕ → List ℕ → Option ℕ
hexadecimal n [] = some n
hexadecimal n (c ∷ cs) = elim (hex_digit c) [ none ↦ none | some d ↦ hexadecimal (n * 16 + d) cs ]

hex_digit-lt : (c d : ℕ) → hex_digit c ≡ some d → d < 16
hex_digit-lt c d h = ground arith

abbrev pow16 : ℕ → ℕ
pow16 zero = 1
pow16 (suc k) = pow16 k * 16

pow16_mono : (j k n : ℕ) → n ≡ j + k → pow16 k ≤ pow16 n
pow16_mono zero k n e = omega (arith, ap pow16 {x = n} {y = k} (omega arith))
pow16_mono (suc j) k zero e = absurd (omega arith)
pow16_mono (suc j) k (suc n) e = omega (arith, pow16_mono j k n (omega arith))

-- Up to fifteen digits leave room for one more.
pow16-le : (k : ℕ) → k ≤ 15 → pow16 k ≤ 2 ^ 60
pow16-le k h = pow16_mono (15 - k) k 15 (omega arith)

hex_digits-eq :
    (n k : ℕ) (cs : List ℕ) → n < pow16 k → k + length cs ≤ 16 → hex_digits n cs ≡ hexadecimal n cs
unfolding hex_digits
hex_digits-eq n k [] h l = refl
hex_digits-eq n k (c ∷ cs) h l = by_digit (hex_digit c) refl (λ d e.
    let fits = pow16-le k (omega arith) in
    let small = hex_digit-lt c d e in
    ap (λ m. hex_digits m cs) {x = n * 16 % 2 ^ 64 + d} {y = n * 16 + d} (omega arith)
    ∙ hex_digits-eq (n * 16 + d) (suc k) cs (omega arith) (omega arith))
  where
    by_digit :
        (o : Option ℕ)
        → hex_digit c ≡ o
        → ((d : ℕ)
            → hex_digit c ≡ some d
            → hex_digits (n * 16 % 2 ^ 64 + d) cs ≡ hexadecimal (n * 16 + d) cs)
        → (elim o [ none ↦ none | some d ↦ hex_digits (n * 16 % 2 ^ 64 + d) cs ])
          ≡ (elim o [ none ↦ none | some d ↦ hexadecimal (n * 16 + d) cs ])
    by_digit none e k = refl
    by_digit (some d) e k = k d e

-- HttpParseHex64 gives the number of one to sixteen hexadecimal digits of either case, without losing a
-- bit to its shifts, and refuses any other text.
pub parse_hex64-eq :
    (text : List ℕ)
    → parse_hex64 text
      ≡ (if leb 1 (length text) && leb (length text) 16 then hexadecimal 0 text else none)
unfolding parse_hex64
parse_hex64-eq text = elim (Bool-cases (length text == 0 || ltb 16 (length text))) [
  | inl p ↦ rw (p, ap (λ t. if t then hexadecimal 0 text else none) (outside (length text) p))
  | inr p ↦
      rw (p, inside (length text) p) (hex_digits-eq 0 0 text (omega arith) (bound (length text) p))
]
  where
    outside : (n : ℕ) → (n == 0 || ltb 16 n) ≡ true → leb 1 n && leb n 16 ≡ false
    outside n h = ground arith

    inside : (n : ℕ) → (n == 0 || ltb 16 n) ≡ false → leb 1 n && leb n 16 ≡ true
    inside n h = ground arith

    bound : (n : ℕ) → (n == 0 || ltb 16 n) ≡ false → 0 + n ≤ 16
    bound n h = ground arith

-- The time that a version's seconds and nanoseconds make, in 100-ns ticks since 1601.
abbrev pub ticks : ℕ → ℕ → ℕ
ticks seconds nanoseconds = seconds * 10000000 + nanoseconds / 100 + 116444736000000000

-- The text `seconds.nanoseconds-size` in quotes, in hexadecimal, with this size and this time.
pub record Reading (value : List ℕ) (p : ℕ × ℕ) : Type 0 where
  pub text : List ℕ
  pub behind_dot : List ℕ
  pub behind_dash : List ℕ
  pub quoted : unquoted value ≡ some text
  pub dot : text_behind 46 text ≡ some behind_dot
  pub dash : text_behind 45 behind_dot ≡ some behind_dash
  pub seconds : ℕ
  pub nanoseconds : ℕ
  pub seconds_read : parse_hex64 (text_before 46 text) ≡ some seconds
  pub nanoseconds_read : parse_hex64 (text_before 45 behind_dot) ≡ some nanoseconds
  pub size_read : parse_hex64 behind_dash ≡ some p.0
  pub time : p.1 ≡ ticks seconds nanoseconds
  pub in_range : (p.1 < 2 ^ 64) × (nanoseconds < 1000000000)
