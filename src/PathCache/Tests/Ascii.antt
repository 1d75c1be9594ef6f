-- ===== src/PathCache/Tests/Ascii.antt =====
-- A kernel that folds the case of ASCII letters and hashes by its failure path: it shows that the
-- documented behaviour can be met.
use blorg_fs.Prelude.{
  ℕ, ◌-◌, ◌≡◌, refl, sym, ap, ◌∙◌, Bool, true, false, ◌&&◌, ◌↔◌, [], ◌∷◌, ◌++◌, none, arith, leb,
  ◌==◌, if◌then◌else◌,
}
use blorg_fs.PathCache.Kernel.{Name, Kernel, IsDocumented, fold_case}

abbrev pub ascii_upcase : ℕ → ℕ
ascii_upcase c = if leb b'a' c && leb c b'z' then c - 32 else c

abbrev pub same : Name → Name → Bool
same [] [] = true
same [] (y ∷ ys) = false
same (x ∷ xs) [] = false
same (x ∷ xs) (y ∷ ys) = (x == y) && same xs ys

abbrev pub starts : Name → Name → Bool
starts [] ys = true
starts (x ∷ xs) [] = false
starts (x ∷ xs) (y ∷ ys) = (x == y) && starts xs ys

-- A function of its own over the native map, which computes.
abbrev pub up : Name → Name
up [] = []
up (c ∷ cs) = ascii_upcase c ∷ up cs

abbrev pub ascii : Kernel
ascii = record {
  upcase = ascii_upcase;
  equal = λ p q. same (up p) (up q);
  is_prefix = λ d p. starts (up d) (up p);
  hash_string = λ p. none;
}

up-fold : (p : Name) → up p ≡ fold_case ascii p
up-fold [] = refl
up-fold (c ∷ cs) = ap (λ (r : Name). ascii_upcase c ∷ r) (up-fold cs)

same_iff : (xs ys : Name) → (same xs ys ≡ true) ↔ (xs ≡ ys)
same_iff [] [] = (λ h. refl, λ e. refl)
same_iff [] (y ∷ ys) = (λ h. cc, λ e. cc)
same_iff (x ∷ xs) [] = (λ h. cc, λ e. cc)
same_iff (x ∷ xs) (y ∷ ys) =
    (λ h. ground (arith, same_iff xs ys), λ e. ground (arith, same_iff xs ys))

starts_append : (xs ys : Name) → starts xs (xs ++ ys) ≡ true
starts_append [] ys = refl
starts_append (x ∷ xs) ys = ground (arith, starts_append xs ys)

starts-rest : (xs ys : Name) → starts xs ys ≡ true → (rest : Name) × (ys ≡ xs ++ rest)
starts-rest [] ys h = (ys, refl)
starts-rest (x ∷ xs) [] h = absurd (cc)
starts-rest (x ∷ xs) (y ∷ ys) h =
    let (rest, e) = starts-rest xs ys (ground arith) in (rest, ground arith)

pub ascii-IsDocumented : IsDocumented ascii
ascii-IsDocumented = record {
  equal_iff = λ p q. (
    λ h. sym (up-fold p) ∙ (same_iff (up p) (up q)).0 h ∙ up-fold q,
    λ e. (same_iff (up p) (up q)).1 (up-fold p ∙ e ∙ sym (up-fold q)),
  );
  prefix_iff = λ d p. (
    λ h.
        let (rest, e) = starts-rest (up d) (up p) h in
        (rest, sym (up-fold p) ∙ e ∙ ap (λ (x : Name). x ++ rest) (up-fold d)),
    λ (rest, e).
        rw (up-fold p ∙ e ∙ ap (λ (x : Name). x ++ rest) (sym (up-fold d)))
          (starts_append (up d) rest),
  );
  hash_string_fold = λ p q e. refl;
  upcase_separator = λ c. (λ h. ground arith, λ e. ground arith);
}
