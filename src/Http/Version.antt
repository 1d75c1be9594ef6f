-- ===== src/Http/Version.antt =====
-- HttpParseHex64 and HttpParseFileVersion of src/Client.c.
pub mod Laws
use blorg_fs.Prelude.{
  ℕ, zero, suc, ◌+◌, ◌-◌, ◌*◌, ◌/◌, ◌%◌, ◌^◌, Bool, true, false, ◌&&◌, ◌||◌, not, Option, none,
  some, List, [], ◌∷◌, length, ltb, leb, ◌==◌, if◌then◌else◌, add64, mul64,
}
use blorg_fs.Http.Headers.{Header, token_equals}

-- One digit, of either case.
abbrev pub hex_digit : ℕ → Option ℕ
hex_digit c =
    if leb 48 c && leb c 57
    then some (c - 48)
    else if leb 97 c && leb c 102
    then some (c - 97 + 10)
    else if leb 65 c && leb c 70
    then some (c - 65 + 10)
    else none

-- The loop: `value << 4 | digit`, in 64 bits.
unfoldable pub hex_digits : ℕ → List ℕ → Option ℕ
hex_digits value [] = some value
hex_digits value (c ∷ cs) = elim (hex_digit c) [
  | none ↦ none
  | some d ↦ hex_digits (value * 16 % 2 ^ 64 + d) cs
]

-- HttpParseHex64
unfoldable pub parse_hex64 : List ℕ → Option ℕ
unfolding hex_digits
parse_hex64 text = if length text == 0 || ltb 16 (length text) then none else hex_digits 0 text

-- "etag"
abbrev pub etag_name : List ℕ
etag_name = 101 ∷ 116 ∷ 97 ∷ 103 ∷ []

-- The values of the headers with the entity tag's name.
abbrev pub etags : List Header → List (List ℕ)
etags [] = []
etags (h ∷ hs) = if token_equals h.name etag_name then h.value ∷ etags hs else etags hs

-- What comes before a byte, and what behind it; nothing where it does not occur.
abbrev pub text_before : ℕ → List ℕ → List ℕ
text_before b [] = []
text_before b (c ∷ cs) = if c == b then [] else c ∷ text_before b cs

abbrev pub text_behind : ℕ → List ℕ → Option (List ℕ)
text_behind b [] = none
text_behind b (c ∷ cs) = if c == b then some cs else text_behind b cs

abbrev pub ticks_per_second : ℕ
ticks_per_second = 10000000

abbrev pub epoch_ticks : ℕ
epoch_ticks = 116444736000000000

-- The last bounds, and the time.
unfoldable pub version_of : ℕ → ℕ → ℕ → Option (ℕ × ℕ)
version_of seconds nanoseconds size =
    if leb 1000000000 nanoseconds || ltb ((2 ^ 64 - 1 - epoch_ticks) / ticks_per_second - 1) seconds
    then none
    else some (size, add64 (add64 (mul64 seconds ticks_per_second) (nanoseconds / 100)) epoch_ticks)

-- The text of a tag that ends in a quote, without it.
abbrev pub closed : List ℕ → Option (List ℕ)
closed [] = none
closed (c ∷ []) = if c == 34 then some [] else none
closed (c ∷ d ∷ cs) = elim (closed (d ∷ cs)) [ none ↦ none | some text ↦ some (c ∷ text) ]

abbrev pub unquoted : List ℕ → Option (List ℕ)
unquoted [] = none
unquoted (c ∷ cs) = if c == 34 then closed cs else none

infixl 5 ◌>>=◌
abbrev pub ◌>>=◌ {ℓ κ} : {A : Type ℓ} {B : Type κ} → Option A → (A → Option B) → Option B
none >>= f = none
some a >>= f = f a

-- "<seconds>.<nanoseconds>-<size>"
unfoldable pub parse_version : List ℕ → Option (ℕ × ℕ)
unfolding parse_hex64 version_of
parse_version value = do
  text ← unquoted value
  behind_dot ← text_behind 46 text
  behind_dash ← text_behind 45 behind_dot
  seconds ← parse_hex64 (text_before 46 text)
  nanoseconds ← parse_hex64 (text_before 45 behind_dot)
  size ← parse_hex64 behind_dash
  version_of seconds nanoseconds size

abbrev pub only : List (List ℕ) → Option (List ℕ)
only [] = none
only (v ∷ []) = some v
only (v ∷ w ∷ vs) = none

-- HttpParseFileVersion: the size and the time of the one entity tag.
unfoldable pub parse_file_version : List Header → Option (ℕ × ℕ)
unfolding parse_version token_equals
parse_file_version hs = only (etags hs) >>= parse_version
