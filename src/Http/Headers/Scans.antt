-- ===== src/Http/Headers/Scans.antt =====
-- What the scans over a response's headers in src/Client.c find.
use blorg_fs.Prelude.{
  ℕ, suc, ◌≡◌, ◌↔◌, refl, sym, ap, ◌∙◌, inl, inr, Bool, true, false, Option, none, some, List, [],
  ◌∷◌, map, length, arith, ◌==◌, ==_iff, if◌then◌else◌, Bool-cases,
}
use blorg_fs.Http.Headers.{
  Header, lower, same_folded, token_equals, content_length_name, ContentLength, not_found,
  invalid_value, repeated, found, parsed_length, is_not_found, scan_content_length,
  get_content_length, str_to_size,
}

conditional_true :
    (t : Bool) (k : Bool) → ((if t then k else false) ≡ true) ↔ ((t ≡ true) × (k ≡ true))
conditional_true t k = ground arith

same_folded_iff :
    (name expected : List ℕ)
    → length name ≡ length expected
    → (same_folded name expected ≡ true) ↔ (map lower name ≡ expected)
same_folded_iff [] [] h = (λ _. refl, λ _. refl)
same_folded_iff [] (e ∷ es) h = absurd (omega arith)
same_folded_iff (c ∷ cs) [] h = absurd (omega arith)
same_folded_iff (c ∷ cs) (e ∷ es) h =
    let here = ==_iff (lower c) e in
    let rest = same_folded_iff cs es (omega arith) in
    let both = conditional_true (lower c == e) (same_folded cs es) in
    (
      λ t.
          let (p, q) = both.0 t in
          let first = here.0 p in let others = rest.0 q in cc (first, others),
      λ t. both.1 (here.1 (heads t), rest.1 (tails t)),
    )
  where
    heads : {x y : ℕ} {xs ys : List ℕ} → x ∷ xs ≡ y ∷ ys → x ≡ y
    heads e = cc e

    tails : {x y : ℕ} {xs ys : List ℕ} → x ∷ xs ≡ y ∷ ys → xs ≡ ys
    tails e = cc e

length-map-lower : (cs : List ℕ) → length (map lower cs) ≡ length cs
length-map-lower [] = refl
length-map-lower (c ∷ cs) = ap suc (length-map-lower cs)

-- HttpTokenEquals: the name, with A to Z in lower case, is the expected one.
pub token_equals_iff :
    (name expected : List ℕ) → (token_equals name expected ≡ true) ↔ (map lower name ≡ expected)
unfolding token_equals
token_equals_iff name expected =
    let both = conditional_true (length name == length expected) (same_folded name expected) in
    let sizes = ==_iff (length name) (length expected) in
    (
      λ t. let (p, q) = both.0 t in (same_folded_iff name expected (sizes.0 p)).0 q,
      λ t.
          let size : length name ≡ length expected =
            sym (length-map-lower name) ∙ ap (λ (cs : List ℕ). length cs) t in
          both.1 (sizes.1 size, (same_folded_iff name expected size).1 t),
    )

-- The values of the headers of a name.
abbrev pub values_of : List ℕ → List Header → List (List ℕ)
values_of name [] = []
values_of name (h ∷ hs) =
    if token_equals h.name name then h.value ∷ values_of name hs else values_of name hs

-- What the values of Content-Length say.
abbrev pub length_of : List (List ℕ) → ContentLength
length_of [] = not_found
length_of (v ∷ []) = parsed_length v
length_of (v ∷ w ∷ vs) = repeated

-- Behind a value that was taken, another one is an error.
abbrev pub with_more : ContentLength → List (List ℕ) → ContentLength
with_more result [] = result
with_more result (w ∷ ws) = repeated

parsed_length-found : (v : List ℕ) → is_not_found (parsed_length v) ≡ false
parsed_length-found v = cases (str_to_size v)
  where
    cases :
        (o : Option ℕ) → is_not_found (elim o [ none ↦ invalid_value | some n ↦ found n ]) ≡ false
    cases none = refl
    cases (some n) = refl

scan-taken :
    (result : ContentLength) (hs : List Header)
    → is_not_found result ≡ false
    → scan_content_length result hs ≡ with_more result (values_of content_length_name hs)
unfolding scan_content_length
scan-taken result [] h = refl
scan-taken result (x ∷ hs) h = elim (Bool-cases (token_equals x.name content_length_name)) [
  | inl p ↦ rw (p, h)
  | inr p ↦ rw p (scan-taken result hs h)
]

more_length :
    (v : List ℕ) (vs : List (List ℕ)) → with_more (parsed_length v) vs ≡ length_of (v ∷ vs)
more_length v [] = refl
more_length v (w ∷ ws) = refl

-- HttpGetContentLengthFromHeaders looks at every header: none with the name is not found, one is read,
-- and two or more are an error, whatever they say.
pub get_content_length-eq :
    (hs : List Header) → get_content_length hs ≡ length_of (values_of content_length_name hs)
unfolding get_content_length scan_content_length
get_content_length-eq [] = refl
get_content_length-eq (x ∷ hs) = elim (Bool-cases (token_equals x.name content_length_name)) [
  | inl p ↦ rw p (
      scan-taken (parsed_length x.value) hs (parsed_length-found x.value)
      ∙ more_length x.value (values_of content_length_name hs))
  | inr p ↦ rw p (get_content_length-eq hs)
]
