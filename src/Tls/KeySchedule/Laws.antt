-- ===== src/Tls/KeySchedule/Laws.antt =====
-- What BlorgTlsHkdfExpand of src/Tls.c gives.
use mathlib.Core.List.{append_assoc, append-nil}
use blorg_fs.Prelude.{
  ℕ, zero, suc, ◌+◌, ◌-◌, ◌*◌, ◌%◌, ◌≤◌, ◌<◌, ◌≡◌, refl, sym, ap, ◌∙◌, false, some, List, [], ◌∷◌,
  ◌++◌, length, length-append, arith, add32, ltb, if◌then◌else◌, lt→ltb, dec_lt, take, length-take,
  Outcome, ok,
}
use blorg_fs.Tls.KeySchedule.{expand_rounds, hkdf_expand}

-- RFC 5869: the blocks T(1), T(2), …, each from the one before.
module _ (hmac : List ℕ → List ℕ → List ℕ) (prk info : List ℕ) where
  abbrev pub blocks : ℕ → List ℕ → ℕ → List ℕ
  blocks zero t counter = []
  blocks (suc n) t counter =
      let t' = hmac prk (t ++ (info ++ (counter ∷ []))) in t' ++ blocks n t' (counter + 1)

take_append_lt : (n : ℕ) (xs ys : List ℕ) → n ≤ length xs → take n (xs ++ ys) ≡ take n xs
take_append_lt zero xs ys h = refl
take_append_lt (suc n) [] ys h = absurd (omega arith)
take_append_lt (suc n) (x ∷ xs) ys h = ap (λ zs. x ∷ zs) (take_append_lt n xs ys (omega arith))

take_append_ge :
    (n : ℕ) (xs ys : List ℕ) → length xs ≤ n → take n (xs ++ ys) ≡ xs ++ take (n - length xs) ys
take_append_ge n [] ys h = ap (λ k. take k ys) (omega arith)
take_append_ge zero (x ∷ xs) ys h = absurd (omega arith)
take_append_ge (suc n) (x ∷ xs) ys h =
    ap (λ zs. x ∷ zs)
      (take_append_ge n xs ys (omega arith) ∙ ap (λ k. xs ++ take k ys) (omega arith))

take_all : (n : ℕ) (xs : List ℕ) → length xs ≡ n → take n xs ≡ xs
take_all zero [] h = refl
take_all zero (x ∷ xs) h = absurd (omega arith)
take_all (suc n) [] h = absurd (omega arith)
take_all (suc n) (x ∷ xs) h = ap (λ ys. x ∷ ys) (take_all n xs (omega arith))

not_lt : (a b : ℕ) → b ≤ a → ltb a b ≡ false
not_lt a b h = ground arith

module _ (hmac : List ℕ → List ℕ → List ℕ)
    (size : (key message : List ℕ) → length (hmac key message) ≡ 32) (prk info : List ℕ) where
  rounds : ℕ → ℕ → List ℕ → List ℕ → ℕ → Outcome (List ℕ)
  rounds fuel n t g counter =
      expand_rounds (λ key message. some (hmac key message)) fuel prk info n t g counter

  rounds_done :
      (fuel n : ℕ) (t g : List ℕ) (counter : ℕ) → n ≤ length g → rounds fuel n t g counter ≡ ok g
  unfolding rounds expand_rounds
  rounds_done zero n t g counter h = rw (not_lt (length g) n h)
  rounds_done (suc fuel) n t g counter h = rw (not_lt (length g) n h)

  next : List ℕ → ℕ → List ℕ
  next t counter = hmac prk (t ++ (info ++ (counter ∷ [])))

  rounds_step :
      (fuel n : ℕ) (t g : List ℕ) (counter : ℕ)
      → length g < n
      → rounds (suc fuel) n t g counter
        ≡ rounds fuel n
            (next t counter)
            (g ++ take (if ltb (n - length g) 32 then n - length g else 32) (next t counter))
            ((counter + 1) % 256)
  unfolding rounds expand_rounds next
  rounds_step fuel n t g counter h = rw (lt→ltb (length g) n h)

  -- The last block, or a part of it.
  last :
      (fuel n : ℕ) (t g : List ℕ) (counter : ℕ)
      → length g < n
      → n ≤ 32 + length g
      → rounds (suc fuel) n t g counter
        ≡ ok (g ++ take (n - length g) (blocks hmac prk info (suc fuel) t counter))
  unfolding next
  last fuel n t g counter h k =
      let t' = next t counter in
      let r = n - length g in
      rounds_step fuel n t g counter h
      ∙ ap (λ j. rounds fuel n t' (g ++ take j t') ((counter + 1) % 256)) (least r (omega arith))
      ∙ rounds_done fuel n t' (g ++ take r t') ((counter + 1) % 256) (
          omega (
            arith,
            length-append g (take r t'),
            length-take r t' (omega (arith, size prk (t ++ (info ++ (counter ∷ []))))),
          ))
      ∙ ap (λ ys. ok (g ++ ys))
          (sym (
            take_append_lt r t' (blocks hmac prk info fuel t' (counter + 1))
              (omega (arith, size prk (t ++ (info ++ (counter ∷ [])))))))
    where
      least : (r : ℕ) → r ≤ 32 → (if ltb r 32 then r else 32) ≡ r
      least r h = ground arith

  whole :
      (fuel n : ℕ) (t g : List ℕ) (counter : ℕ)
      → 32 + length g < n
      → rounds (suc fuel) n t g counter
        ≡ rounds fuel n (next t counter) (g ++ next t counter) ((counter + 1) % 256)
  unfolding next
  whole fuel n t g counter h =
      let t' = next t counter in
      rounds_step fuel n t g counter (omega arith)
      ∙ ap (λ j. rounds fuel n t' (g ++ take j t') ((counter + 1) % 256))
          (most (n - length g) (omega arith))
      ∙ ap (λ ys. rounds fuel n t' (g ++ ys) ((counter + 1) % 256))
          (take_all 32 t' (size prk (t ++ (info ++ (counter ∷ [])))))
    where
      most : (r : ℕ) → 32 < r → (if ltb r 32 then r else 32) ≡ 32
      most r h = ground arith

  rounds-eq :
      (fuel n : ℕ) (t g : List ℕ) (counter : ℕ)
      → length g ≤ n
      → n ≤ fuel + length g
      → n ≤ 32 * (256 - counter) + length g
      → rounds fuel n t g counter
        ≡ ok (g ++ take (n - length g) (blocks hmac prk info fuel t counter))
  unfolding next
  rounds-eq zero n t g counter h f b =
      rounds_done zero n t g counter (omega arith)
      ∙ ap ok
          (sym (append-nil g) ∙ ap (λ j. g ++ take j []) {x = 0} {y = n - length g} (omega arith))
  rounds-eq (suc fuel) n t g counter h f b = elim (dec_lt (length g) n) [
    | no p ↦
        rounds_done (suc fuel) n t g counter (omega arith)
        ∙ ap ok (
            sym (append-nil g)
            ∙ ap (λ j. g ++ take j (blocks hmac prk info (suc fuel) t counter)) {x = 0}
                {y = n - length g} (omega arith))
    | yes p ↦ elim (dec_lt (32 + length g) n) [
      | no q ↦ last fuel n t g counter p (omega arith)
      | yes q ↦
          let t' = next t counter in
          let bs = blocks hmac prk info fuel t' (counter + 1) in
          let size_t' : length t' ≡ 32 = size prk (t ++ (info ++ (counter ∷ []))) in
          let total = length-append g t' in
          let same : (counter + 1) % 256 ≡ counter + 1 = omega arith in
          whole fuel n t g counter q
          ∙ ap (λ c. rounds fuel n t' (g ++ t') c) same
          ∙ rounds-eq fuel n t' (g ++ t') (counter + 1) (omega arith) (omega arith) (omega arith)
          ∙ ap ok (
              append_assoc g t' (take (n - length (g ++ t')) bs)
              ∙ ap (λ j. g ++ (t' ++ take j bs)) {x = n - length (g ++ t')}
                  {y = n - length g - length t'} (omega arith)
              ∙ ap (λ ys. g ++ ys) (sym (take_append_ge (n - length g) t' bs (omega arith))))
    ]
  ]

  -- For an HMAC of 32 bytes that does not fail, BlorgTlsHkdfExpand gives the first bytes of the blocks
  -- T(1), T(2), …, where its buffer takes the info and RFC 5869's limit of 255 blocks is kept.
  pub hkdf_expand-eq :
      (n : ℕ)
      → length info ≤ 223
      → n ≤ 255 * 32
      → hkdf_expand (λ key message. some (hmac key message)) prk info n
        ≡ ok (take n (blocks hmac prk info n [] 1))
  unfolding hkdf_expand rounds
  hkdf_expand-eq n fits h = rw (fits_buffer (length info) fits) (
      rounds-eq n n [] [] 1 (omega arith) (omega arith) (omega arith)
      ∙ ap (λ j. ok (take j (blocks hmac prk info n [] 1))) {x = n - 0} {y = n} (omega arith))
    where
      fits_buffer : (n : ℕ) → n ≤ 223 → ltb 256 (add32 (add32 n 32) 1) ≡ false
      fits_buffer n h = ground arith
