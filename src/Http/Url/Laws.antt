-- ===== src/Http/Url/Laws.antt =====
-- What HttpUrlEncodePathToAnsi of src/Client.c writes.
use mathlib.Core.List.{append_assoc, append-nil}
use blorg_fs.Prelude.{
  ℕ, ◌+◌, ◌-◌, ◌*◌, ◌/◌, ◌%◌, ◌≤◌, ◌<◌, ◌≡◌, refl, sym, ap, ◌∙◌, inl, inr, Bool, true, false, ◌||◌,
  List, [], ◌∷◌, ◌++◌, length, length-append, All, arith, ltb, ◌==◌, if◌then◌else◌, Bool-cases,
}
use blorg_fs.Http.Url.{
  is_character_safe, hex_to_char, encoded_length, Encoded, name_too_long, no_memory,
  buffer_overflow, encoded, encode_bytes, url_encode,
}

-- What one byte is written as, and a path.
abbrev pub escape : ℕ → List ℕ
escape c =
    if is_character_safe c then c ∷ [] else 37 ∷ hex_to_char (c / 16) ∷ hex_to_char (c % 16) ∷ []

abbrev pub percent_encoded : List ℕ → List ℕ
percent_encoded [] = []
percent_encoded (c ∷ cs) = escape c ++ percent_encoded cs

-- RFC 3986 2.1: a reader of percent-encoded text.
abbrev pub digit_value : ℕ → ℕ
digit_value d = if ltb d 65 then d - 48 else d - 65 + 10

abbrev pub percent_decoded : List ℕ → List ℕ
percent_decoded [] = []
percent_decoded (c ∷ []) = c ∷ []
percent_decoded (c ∷ d ∷ []) = c ∷ percent_decoded (d ∷ [])
percent_decoded (c ∷ d ∷ e ∷ cs) =
    if c == 37
    then (digit_value d * 16 + digit_value e) ∷ percent_decoded cs
    else c ∷ percent_decoded (d ∷ e ∷ cs)

at_most : (a b : ℕ) → b ≤ a → ltb a b ≡ false
at_most a b h = ground arith

length-escape : (c : ℕ) → length (escape c) ≡ (if is_character_safe c then 1 else 3)
length-escape c = elim (Bool-cases (is_character_safe c)) [ inl p ↦ rw p | inr p ↦ rw p ]

length-percent_encoded : (cs : List ℕ) → length (percent_encoded cs) ≡ encoded_length cs
unfolding encoded_length
length-percent_encoded [] = refl
length-percent_encoded (c ∷ cs) = omega (
  arith,
  length-append (escape c) (percent_encoded cs),
  length-escape c,
  length-percent_encoded cs,
)

-- One round of the loop, for which there is room.
round :
    (safe : Bool) (room : ℕ) (written a b : List ℕ) (f : List ℕ → Encoded)
    → length written + length (if safe then a else b) ≤ room
    → length a ≡ 1
    → length b ≡ 3
    → (if safe
        then (if ltb room (length written + 1) then buffer_overflow else f (written ++ a))
        else (if ltb room (length written + 3) then buffer_overflow else f (written ++ b)))
      ≡ f (written ++ (if safe then a else b))
round true room written a b f h p q = rw (at_most room (length written + 1) (omega arith))
round false room written a b f h p q = rw (at_most room (length written + 3) (omega arith))

encode_bytes-eq :
    (room : ℕ) (written cs : List ℕ)
    → length written + encoded_length cs ≤ room
    → encode_bytes room written cs ≡ encoded (written ++ percent_encoded cs)
unfolding encode_bytes encoded_length
encode_bytes-eq room written [] h = ap encoded (sym (append-nil written))
encode_bytes-eq room written (c ∷ cs) h =
    let size = length-escape c in
    round (is_character_safe c) room written (c ∷ [])
      (37 ∷ hex_to_char (c / 16) ∷ hex_to_char (c % 16) ∷ []) (λ w. encode_bytes room w cs)
      (omega arith) refl refl
    ∙ encode_bytes-eq room (written ++ escape c) cs
        (omega (arith, length-append written (escape c)))
    ∙ ap encoded (append_assoc written (escape c) (percent_encoded cs))

-- HttpUrlEncodePathToAnsi: a path whose encoding, the reserve and the terminator fit in a USHORT is
-- encoded in full, never overflowing the room that its first loop counted, where there is memory; a
-- longer one is refused.
pub url_encode-eq :
    (path : List ℕ) (reserve : ℕ) (allocated : Bool)
    → url_encode path reserve allocated ≡ (
        if ltb 65535 (length (percent_encoded path) + reserve + 1)
        then name_too_long
        else if allocated
        then encoded (percent_encoded path)
        else no_memory)
unfolding url_encode
url_encode-eq path reserve allocated =
    ap
      (λ o.
        if ltb 65535 reserve || ltb 65535 (encoded_length path + reserve + 1)
        then name_too_long
        else if allocated
        then o
        else no_memory)
      (encode_bytes-eq (encoded_length path) [] path (omega arith))
    ∙ rw (length-percent_encoded path) (
        bound reserve (encoded_length path)
          (if allocated then encoded (percent_encoded path) else no_memory))
  where
    bound :
        (r n : ℕ) (o : Encoded)
        → (if ltb 65535 r || ltb 65535 (n + r + 1) then name_too_long else o)
          ≡ (if ltb 65535 (n + r + 1) then name_too_long else o)
    bound r n o = ap (λ t. if t then name_too_long else o) (either r n)
      where
        either : (r n : ℕ) → (ltb 65535 r || ltb 65535 (n + r + 1)) ≡ ltb 65535 (n + r + 1)
        either r n = ground arith

decoded_plain :
    (c : ℕ) (rest : List ℕ)
    → (c == 37) ≡ false
    → percent_decoded (c ∷ rest) ≡ c ∷ percent_decoded rest
decoded_plain c [] h = refl
decoded_plain c (d ∷ []) h = refl
decoded_plain c (d ∷ e ∷ cs) h = rw h

digit_value-hex_to_char : (x : ℕ) → x < 16 → digit_value (hex_to_char x) ≡ x
digit_value-hex_to_char x h = ground arith

safe_plain : (c : ℕ) → is_character_safe c ≡ true → (c == 37) ≡ false
unfolding is_character_safe
safe_plain c h = ground arith

-- What the driver writes for a path is read back as the path's bytes.
pub percent_decoded-percent_encoded :
    (cs : List ℕ) → All (λ c. c < 256) cs → percent_decoded (percent_encoded cs) ≡ cs
percent_decoded-percent_encoded [] h = refl
percent_decoded-percent_encoded (c ∷ cs) h =
    let rest = percent_decoded-percent_encoded cs h.1 in
    elim (Bool-cases (is_character_safe c)) [
      | inl p ↦
          rw p (decoded_plain c (percent_encoded cs) (safe_plain c p) ∙ ap (λ xs. c ∷ xs) rest)
      | inr p ↦ rw p (
          same
            (omega (
              arith,
              digit_value-hex_to_char (c / 16) (omega arith),
              digit_value-hex_to_char (c % 16) (omega arith),
            ))
            rest)
    ]
  where
    same : {x y : ℕ} {xs ys : List ℕ} → x ≡ y → xs ≡ ys → x ∷ xs ≡ y ∷ ys
    same p q = cc (p, q)

-- A path of bytes whose encoding, the reserve and the terminator fit in a USHORT is encoded, where there
-- is memory, in as many bytes as were counted, and a reader of percent-encoded text gets the path back;
-- one that does not fit is refused.
pub url_encode-decoded :
    (path : List ℕ) (reserve : ℕ)
    → All (λ c. c < 256) path
    → (encoded_length path + reserve + 1 ≤ 65535
        → (text : List ℕ) × (url_encode path reserve true ≡ encoded text)
          × (percent_decoded text ≡ path)
          × (length text ≡ encoded_length path))
      × (65535 < encoded_length path + reserve + 1
          → (allocated : Bool) → url_encode path reserve allocated ≡ name_too_long)
url_encode-decoded path reserve bytes = (
  λ h. (
    percent_encoded path,
    url_encode-eq path reserve true ∙ fits h,
    percent_decoded-percent_encoded path bytes,
    size,
  ),
  λ h allocated.
      url_encode-eq path reserve allocated
      ∙ short h (if allocated then encoded (percent_encoded path) else no_memory),
)
  where
    size : length (percent_encoded path) ≡ encoded_length path
    size = length-percent_encoded path

    fits :
        encoded_length path + reserve + 1 ≤ 65535
        → (if ltb 65535 (length (percent_encoded path) + reserve + 1)
            then name_too_long
            else encoded (percent_encoded path))
          ≡ encoded (percent_encoded path)
    fits h = rw (
        at_most 65535 (length (percent_encoded path) + reserve + 1)
          (omega (arith, length-percent_encoded path)))

    short :
        65535 < encoded_length path + reserve + 1
        → (o : Encoded)
        → (if ltb 65535 (length (percent_encoded path) + reserve + 1) then name_too_long else o)
          ≡ name_too_long
    short h o = rw (
        above 65535 (length (percent_encoded path) + reserve + 1)
          (omega (arith, length-percent_encoded path)))
      where
        above : (a b : ℕ) → a < b → ltb a b ≡ true
        above a b h = ground arith
