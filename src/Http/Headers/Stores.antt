-- ===== src/Http/Headers/Stores.antt =====
-- HttpForbidsStoring of src/Client.c finds a no-store directive wherever it stands.
use blorg_fs.Prelude.{
  ℕ, zero, suc, ◌≤◌, ◌≡◌, refl, sym, ap, ◌∙◌, inl, inr, Bool, true, false, ◌||◌, List, [], ◌∷◌,
  length, arith, ◌==◌, if◌then◌else◌, Bool-cases, Outcome, ok,
}
use blorg_fs.Http.Headers.{
  Header, token_equals, cache_control_name, no_store_token, until_comma, behind_comma, trim_start,
  trim_end, has_no_store, or_else, forbids_storing,
}
use blorg_fs.Http.Headers.Scans.{values_of}

abbrev before_first : ℕ → List (List ℕ) → List (List ℕ)
before_first c [] = (c ∷ []) ∷ []
before_first c (d ∷ ds) = (c ∷ d) ∷ ds

-- A value's directives: its parts between commas.
abbrev pub directives : List ℕ → List (List ℕ)
directives [] = [] ∷ []
directives (c ∷ cs) = if c == 44 then [] ∷ directives cs else before_first c (directives cs)

abbrev pub any {ℓ} : {A : Type ℓ} → (A → Bool) → List A → Bool
any p [] = false
any p (x ∷ xs) = p x || any p xs

-- The directive, without the blanks around it, is no-store, in any case of letters.
abbrev pub says_no_store : List ℕ → Bool
says_no_store directive = token_equals (trim_end (trim_start directive)) no_store_token

-- One test for the first part, another for the rest.
abbrev first_or_any : (List ℕ → Bool) → (List ℕ → Bool) → List (List ℕ) → Bool
first_or_any q p [] = q []
first_or_any q p (d ∷ ds) = q d || any p ds

||_false : (b : Bool) → b || false ≡ b
||_false b = ground arith

first_or_any-before :
    (q p : List ℕ → Bool) (c : ℕ) (ds : List (List ℕ))
    → first_or_any q p (before_first c ds) ≡ first_or_any (λ d. q (c ∷ d)) p ds
first_or_any-before q p c [] = ||_false (q (c ∷ []))
first_or_any-before q p c (d ∷ ds) = refl

first_or_any-directives :
    (q p : List ℕ → Bool) (v : List ℕ)
    → p [] ≡ false
    → first_or_any q p (directives v) ≡ q (until_comma v) || any p (directives (behind_comma v))
first_or_any-directives q p [] h = ap (λ b. q [] || b) (sym (||_false (p []) ∙ h))
first_or_any-directives q p (c ∷ cs) h = elim (Bool-cases (c == 44)) [
  | inl e ↦ rw e
  | inr e ↦
      rw e (
        first_or_any-before q p c (directives cs) ∙ first_or_any-directives (λ d. q (c ∷ d)) p cs h)
]

directives-nonempty :
    (p : List ℕ → Bool) (v : List ℕ) → any p (directives v) ≡ first_or_any p p (directives v)
directives-nonempty p [] = refl
directives-nonempty p (c ∷ cs) = elim (Bool-cases (c == 44)) [
  | inl e ↦ rw e
  | inr e ↦ rw e (nonempty (directives cs))
]
  where
    nonempty :
        (ds : List (List ℕ)) → any p (before_first c ds) ≡ first_or_any p p (before_first c ds)
    nonempty [] = refl
    nonempty (d ∷ ds) = refl

le-behind_comma : (c : ℕ) (cs : List ℕ) → length (behind_comma (c ∷ cs)) ≤ length cs
le-behind_comma c cs = elim (Bool-cases (c == 44)) [
  | inl e ↦ rw e (omega arith)
  | inr e ↦ rw e (shorter cs)
]
  where
    shorter : (cs : List ℕ) → length (behind_comma cs) ≤ length cs
    shorter [] = omega arith
    shorter (c ∷ cs) = elim (Bool-cases (c == 44)) [
      | inl e ↦ rw e (omega arith)
      | inr e ↦ rw e (omega (arith, shorter cs))
    ]

chosen : (t : Bool) (b : Bool) → (if t then ok true else ok b) ≡ ok (t || b)
chosen true b = refl
chosen false b = refl

says_no_store-nil : says_no_store [] ≡ false
unfolding token_equals
says_no_store-nil = refl

has_no_store-eq :
    (fuel : ℕ) (v : List ℕ)
    → length v ≤ fuel
    → has_no_store fuel v ≡ ok (any says_no_store (directives v))
unfolding has_no_store
has_no_store-eq fuel [] h = ap ok (sym (||_false (says_no_store []) ∙ says_no_store-nil))
has_no_store-eq zero (c ∷ cs) h = absurd (omega arith)
has_no_store-eq (suc fuel) (c ∷ cs) h =
    let v = c ∷ cs in
    let p = says_no_store in
    ap (λ (o : Outcome Bool). if says_no_store (until_comma v) then ok true else o)
      (has_no_store-eq fuel (behind_comma v) (omega (arith, le-behind_comma c cs)))
    ∙ chosen (says_no_store (until_comma v)) (any p (directives (behind_comma v)))
    ∙ ap ok (sym (directives-nonempty p v ∙ first_or_any-directives p p v says_no_store-nil))

or_else-ok : (a b : Bool) → or_else (ok a) (ok b) ≡ ok (a || b)
or_else-ok true b = refl
or_else-ok false b = refl

-- HttpForbidsStoring ends, and says whether any directive of any Cache-Control header is no-store.
pub forbids_storing-eq :
    (hs : List Header)
    → forbids_storing hs
      ≡ ok (any (λ v. any says_no_store (directives v)) (values_of cache_control_name hs))
unfolding forbids_storing
forbids_storing-eq [] = refl
forbids_storing-eq (h ∷ hs) = elim (Bool-cases (token_equals h.name cache_control_name)) [
  | inr p ↦ rw p (forbids_storing-eq hs)
  | inl p ↦ rw p (
      ap (λ o. or_else o (forbids_storing hs))
        (has_no_store-eq (length h.value) h.value (omega arith))
      ∙ ap (or_else (ok (any says_no_store (directives h.value)))) (forbids_storing-eq hs)
      ∙ or_else-ok (any says_no_store (directives h.value))
          (any (λ v. any says_no_store (directives v)) (values_of cache_control_name hs)))
]
