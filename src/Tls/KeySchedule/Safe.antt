-- ===== src/Tls/KeySchedule/Safe.antt =====
-- The loop of BlorgTlsHkdfExpand of src/Tls.c ends, whatever its key and info.
use blorg_fs.Prelude.{
  ℕ, zero, suc, ◌+◌, ◌-◌, ◌%◌, ◌≤◌, ◌≡◌, ◌≢◌, refl, inl, inr, ◌||◌, Option, none, some, Bool-cases,
  List, [], ◌∷◌, ◌++◌, length, length-append, arith, add32, ltb, ltb→lt, if◌then◌else◌, take,
  length-take, fault, refused, ok, ◌>>=◌,
}
use blorg_fs.Tls.KeySchedule.{expand_rounds, hkdf_expand, hkdf_expand_label, hkdf_label}

-- The bytes that a round takes from its block.
abbrev taken : ℕ → ℕ
taken r = if ltb r 32 then r else 32

taken-le : (r : ℕ) → taken r ≤ 32
taken-le r = ground arith

le-taken : (r : ℕ) → 1 ≤ r → 1 ≤ taken r
le-taken r h = ground arith

grows :
    (r : ℕ) (g t : List ℕ) → 1 ≤ r → length t ≡ 32 → suc (length g) ≤ length (g ++ take (taken r) t)
grows r g t h k =
    let some_ = le-taken r h in
    let most = taken-le r in
    omega (arith, length-append g (take (taken r) t), length-take (taken r) t (omega arith))

module _ (hmac : List ℕ → List ℕ → Option (List ℕ))
    (size : (key message mac : List ℕ) → hmac key message ≡ some mac → length mac ≡ 32) where
  expand_rounds-ne-fault :
      (fuel : ℕ) (prk info : List ℕ) (n : ℕ) (t g : List ℕ) (counter : ℕ)
      → n ≤ fuel + length g
      → expand_rounds hmac fuel prk info n t g counter ≢ fault
  unfolding expand_rounds
  expand_rounds-ne-fault zero prk info n t g counter h = elim (Bool-cases (ltb (length g) n)) [
    | inl p ↦ absurd (omega (arith, ltb→lt (length g) n p))
    | inr p ↦ rw p (λ e. cc e)
  ]
  expand_rounds-ne-fault (suc fuel) prk info n t g counter h =
      elim (Bool-cases (ltb (length g) n)) [
        | inr p ↦ rw p (λ e. cc e)
        | inl p ↦ rw p (
            round (hmac prk (t ++ (info ++ (counter ∷ [])))) refl (λ t' et.
              expand_rounds-ne-fault fuel prk info n t' (g ++ take (taken (n - length g)) t')
                ((counter + 1) % 256)
                (omega (
                  arith,
                  ltb→lt (length g) n p,
                  grows (n - length g) g t' (omega (arith, ltb→lt (length g) n p))
                      (size prk _ t' et),
                ))))
      ]
    where
      round :
          (o : Option (List ℕ))
          → hmac prk (t ++ (info ++ (counter ∷ []))) ≡ o
          → ((t' : List ℕ)
              → hmac prk (t ++ (info ++ (counter ∷ []))) ≡ some t'
              → expand_rounds hmac fuel prk info n t'
                  (g ++ take (taken (n - length g)) t')
                  ((counter + 1) % 256)
                ≢ fault)
          → ((elim o [ none ↦ refused | some mac ↦ ok mac ]) >>= λ t'.
              expand_rounds hmac fuel prk info n t'
                (g ++ take (taken (n - length g)) t')
                ((counter + 1) % 256))
            ≢ fault
      round none eo k = λ e. cc e
      round (some t') eo k = k t' eo

  -- For an HMAC of 32 bytes or an error, the loop of BlorgTlsHkdfExpand ends.
  pub hkdf_expand-ne-fault : (prk info : List ℕ) (n : ℕ) → hkdf_expand hmac prk info n ≢ fault
  unfolding hkdf_expand
  hkdf_expand-ne-fault prk info n = elim (Bool-cases (ltb 256 (add32 (add32 (length info) 32) 1))) [
    | inl p ↦ rw p (λ e. cc e)
    | inr p ↦ rw p (expand_rounds-ne-fault n prk info n [] [] 1 (omega arith))
  ]

  pub hkdf_expand_label-ne-fault :
      (secret label context : List ℕ) (n : ℕ)
      → hkdf_expand_label hmac secret label context n ≢ fault
  unfolding hkdf_expand_label
  hkdf_expand_label-ne-fault secret label context n =
      elim (Bool-cases (ltb 255 (6 + length label) || ltb 255 (length context))) [
        | inl p ↦ rw p (λ e. cc e)
        | inr p ↦ rw p (hkdf_expand-ne-fault secret (hkdf_label hmac label context n) n)
      ]
