-- ===== src/Http/Headers/Numbers.antt =====
-- The numbers that src/Client.c reads from a response are exact or refused.
use blorg_fs.Prelude.{
  ℕ, ◌+◌, ◌-◌, ◌*◌, ◌/◌, ◌%◌, ◌^◌, ◌≤◌, ◌<◌, ◌≡◌, ◌↔◌, refl, sym, ap, ◌∙◌, Bool, true, false, ◌&&◌,
  ◌||◌, Option, none, some, List, [], ◌∷◌, length, arith, ltb, ◌==◌, if◌then◌else◌, All,
}
use blorg_fs.Http.Headers.{
  checked_add, listing_counts_are_credible, size_max, is_digit, digits_to_size, str_to_size,
}

-- The number that decimal digits make.
abbrev pub decimal : ℕ → List ℕ → ℕ
decimal n [] = n
decimal n (c ∷ cs) = decimal (n * 10 + (c - 48)) cs

abbrev pub IsDigit : ℕ → Type 0
IsDigit c = (48 ≤ c) × (c ≤ 57)

abbrev pub IsNonempty : List ℕ → Type 0
IsNonempty cs = 1 ≤ length cs

le-decimal : (n : ℕ) (cs : List ℕ) → n ≤ decimal n cs
le-decimal n [] = omega arith
le-decimal n (c ∷ cs) = omega (arith, le-decimal (n * 10 + (c - 48)) cs)

is_digit_iff : (c : ℕ) → (is_digit c ≡ true) ↔ IsDigit c
is_digit_iff c = ground arith

-- The test for overflow is exact.
overflow_lem :
    (n d : ℕ)
    → d ≤ 9
    → (ltb (size_max / 10) n || (n == size_max / 10 && ltb (size_max % 10) d))
      ≡ ltb size_max (n * 10 + d)
overflow_lem n d h = ground arith

some-inj : (a b : ℕ) → some a ≡ some b → a ≡ b
some-inj a b e = cc e

guarded :
    (digit overflow : Bool) (rest : Option ℕ) (r : ℕ)
    → ((if digit then (if overflow then none else rest) else none) ≡ some r)
      ↔ ((digit ≡ true) × (overflow ≡ false) × (rest ≡ some r))
guarded true false rest r = (λ e. (refl, refl, e), λ h. h.2)
guarded true true rest r = (λ e. cc e, λ h. cc (h.1))
guarded false overflow rest r = (λ e. cc e, λ h. cc (h.0))

not_above : (a b : ℕ) → ltb a b ≡ false → b ≤ a
not_above a b h = ground arith

at_most : (a b : ℕ) → b ≤ a → ltb a b ≡ false
at_most a b h = ground arith

overflows : ℕ → ℕ → Bool
overflows n c = ltb (size_max / 10) n || (n == size_max / 10 && ltb (size_max % 10) (c - 48))

overflows_iff : (n c : ℕ) → IsDigit c → (overflows n c ≡ false) ↔ (n * 10 + (c - 48) < 2 ^ 64)
unfolding overflows
overflows_iff n c h =
    let same = overflow_lem n (c - 48) (omega arith) in
    (
      λ e. omega (arith, not_above size_max (n * 10 + (c - 48)) (sym same ∙ e)),
      λ l. same ∙ at_most size_max (n * 10 + (c - 48)) (omega arith),
    )

digits_to_size_iff :
    (n : ℕ) (cs : List ℕ) (r : ℕ)
    → n < 2 ^ 64
    → (digits_to_size n cs ≡ some r) ↔ (All IsDigit cs × (decimal n cs ≡ r) × (r < 2 ^ 64))
unfolding digits_to_size overflows
digits_to_size_iff n [] r small =
    (λ e. let same = some-inj n r e in (tt, same, omega (arith, same)), λ h. ap some h.1)
digits_to_size_iff n (c ∷ cs) r small =
    let next = n * 10 + (c - 48) in
    let step = guarded (is_digit c) (overflows n c) (digits_to_size next cs) r in
    (
      λ e.
          let (d, o, rest) = step.0 e in
          let digit = (is_digit_iff c).0 d in
          let (all, same, bound) =
            (digits_to_size_iff next cs r ((overflows_iff n c digit).0 o)).0 rest in
          ((digit, all), same, bound),
      λ h.
          let fits : next < 2 ^ 64 = omega (arith, le-decimal next cs, h.1, h.2) in
          step.1 (
            (is_digit_iff c).1 h.0.0,
            (overflows_iff n c h.0.0).1 fits,
            (digits_to_size_iff next cs r fits).1 (h.0.1, h.1, h.2),
          ),
    )

-- HttpStrToSize gives a number for a nonempty text of decimal digits whose value a SIZE_T holds, that
-- value, and for no other text.
pub str_to_size_iff :
    (cs : List ℕ) (r : ℕ)
    → (str_to_size cs ≡ some r)
      ↔ (IsNonempty cs × All IsDigit cs × (decimal 0 cs ≡ r) × (r < 2 ^ 64))
unfolding str_to_size
str_to_size_iff [] r = (λ e. cc e, λ h. absurd (omega (arith, h.0)))
str_to_size_iff (c ∷ cs) r =
    let same = digits_to_size_iff 0 (c ∷ cs) r (omega arith) in
    (
      λ e. let (all, value, bound) = same.0 e in (omega arith, all, value, bound),
      λ h. same.1 (h.1, h.2, h.3),
    )

-- A listing's counts are believed where four bytes of the body stand behind each entry, and the sum is
-- not wrapped.
pub listing_counts_are_credible_iff :
    (subdirs files body_len : ℕ)
    → subdirs < 2 ^ 64
    → files < 2 ^ 64
    → body_len < 2 ^ 64
    → (listing_counts_are_credible subdirs files body_len ≡ true)
      ↔ (4 * (subdirs + files) ≤ body_len)
unfolding listing_counts_are_credible checked_add
listing_counts_are_credible_iff s f b hs hf hb = ground arith
