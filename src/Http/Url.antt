-- ===== src/Http/Url.antt =====
-- HttpIsCharacterSafeForUrl and HttpUrlEncodePathToAnsi of src/Client.c, on the path's UTF-8 bytes, which
-- the system's conversion gives.
pub mod Laws
use blorg_fs.Prelude.{
  ℕ, zero, suc, ◌+◌, ◌-◌, ◌/◌, ◌%◌, Bool, true, false, ◌&&◌, ◌||◌, List, [], ◌∷◌, ◌++◌, length, ltb,
  leb, ◌==◌, if◌then◌else◌,
}

unfoldable pub is_character_safe : ℕ → Bool
is_character_safe c =
    (leb 65 c && leb c 90)
    || (leb 97 c && leb c 122)
    || (leb 48 c && leb c 57)
    || c == 45
    || c == 46
    || c == 95
    || c == 126

-- HEX_TO_CHAR
abbrev pub hex_to_char : ℕ → ℕ
hex_to_char x = if ltb x 10 then 48 + x else 65 + x - 10

-- The first loop: how long the encoded path is.
unfoldable pub encoded_length : List ℕ → ℕ
unfolding is_character_safe
encoded_length [] = 0
encoded_length (c ∷ cs) = (if is_character_safe c then 1 else 3) + encoded_length cs

-- STATUS_NAME_TOO_LONG, STATUS_INSUFFICIENT_RESOURCES, STATUS_BUFFER_OVERFLOW, and the encoded path.
pub data Encoded : Type 0 where
  name_too_long no_memory buffer_overflow : Encoded
  encoded : List ℕ → Encoded

-- The second loop: what is written so far, against the room.
unfoldable pub encode_bytes : ℕ → List ℕ → List ℕ → Encoded
unfolding is_character_safe
encode_bytes room written [] = encoded written
encode_bytes room written (c ∷ cs) =
    let plain = encode_bytes room (written ++ (c ∷ [])) cs in
    let escaped =
      encode_bytes room (written ++ (37 ∷ hex_to_char (c / 16) ∷ hex_to_char (c % 16) ∷ [])) cs in
    if is_character_safe c
    then (if ltb room (length written + 1) then buffer_overflow else plain)
    else (if ltb room (length written + 3) then buffer_overflow else escaped)

-- HttpUrlEncodePathToAnsi, where `allocated` says whether the pool had the memory.
unfoldable pub url_encode : List ℕ → ℕ → Bool → Encoded
unfolding encoded_length encode_bytes
url_encode path reserve allocated =
    if ltb 65535 reserve || ltb 65535 (encoded_length path + reserve + 1)
    then name_too_long
    else if allocated
    then encode_bytes (encoded_length path) [] path
    else no_memory
