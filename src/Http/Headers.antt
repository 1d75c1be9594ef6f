-- ===== src/Http/Headers.antt =====
-- HttpCheckedAddSizeT, HttpListingCountsAreCredible, HttpStrToSize, HttpTokenEquals,
-- HttpGetContentLengthFromHeaders and HttpForbidsStoring of src/Client.c. A SIZE_T has 64 bits.
pub mod Numbers
pub mod Scans
pub mod Stores
use blorg_fs.Prelude.{
  ℕ, zero, suc, ◌+◌, ◌-◌, ◌*◌, ◌/◌, ◌%◌, ◌^◌, Bool, true, false, ◌&&◌, ◌||◌, not, Option, none,
  some, List, [], ◌∷◌, length, ltb, leb, ◌==◌, if◌then◌else◌, add64, Outcome, fault, refused, ok,
}

-- SIZE_MAX
abbrev pub size_max : ℕ
size_max = 2 ^ 64 - 1

unfoldable pub checked_add : ℕ → ℕ → Option ℕ
checked_add a b = let sum = add64 a b in if ltb sum a then none else some sum

-- HttpListingCountsAreCredible, with four bytes of the body for an entry.
unfoldable pub listing_counts_are_credible : ℕ → ℕ → ℕ → Bool
unfolding checked_add
listing_counts_are_credible subdirs files body_len = elim (checked_add subdirs files) [
  | none ↦ false
  | some total ↦ if ltb (body_len / 4) total then false else true
]

abbrev pub is_digit : ℕ → Bool
is_digit c = leb 48 c && leb c 57

-- The loop over the digits.
unfoldable pub digits_to_size : ℕ → List ℕ → Option ℕ
digits_to_size result [] = some result
digits_to_size result (c ∷ cs) =
    let rest = digits_to_size (result * 10 + (c - 48)) cs in
    let overflow =
      ltb (size_max / 10) result || (result == size_max / 10 && ltb (size_max % 10) (c - 48)) in
    if is_digit c then (if overflow then none else rest) else none

-- HttpStrToSize
unfoldable pub str_to_size : List ℕ → Option ℕ
unfolding digits_to_size
str_to_size [] = none
str_to_size (c ∷ cs) = digits_to_size 0 (c ∷ cs)

abbrev pub lower : ℕ → ℕ
lower c = if leb 65 c && leb c 90 then c + 32 else c

abbrev same_folded : List ℕ → List ℕ → Bool
same_folded [] expected = true
same_folded (c ∷ cs) [] = true
same_folded (c ∷ cs) (e ∷ es) = if lower c == e then same_folded cs es else false

-- HttpTokenEquals
unfoldable pub token_equals : List ℕ → List ℕ → Bool
token_equals name expected =
    if length name == length expected then same_folded name expected else false

-- struct phr_header
pub record Header : Type 0 where
  pub name : List ℕ
  pub value : List ℕ

-- "content-length", "cache-control" and "no-store"
abbrev pub content_length_name : List ℕ
content_length_name =
    99 ∷ 111 ∷ 110 ∷ 116 ∷ 101 ∷ 110 ∷ 116 ∷ 45 ∷ 108 ∷ 101 ∷ 110 ∷ 103 ∷ 116 ∷ 104 ∷ []

abbrev pub cache_control_name : List ℕ
cache_control_name = 99 ∷ 97 ∷ 99 ∷ 104 ∷ 101 ∷ 45 ∷ 99 ∷ 111 ∷ 110 ∷ 116 ∷ 114 ∷ 111 ∷ 108 ∷ []

abbrev pub no_store_token : List ℕ
no_store_token = 110 ∷ 111 ∷ 45 ∷ 115 ∷ 116 ∷ 111 ∷ 114 ∷ 101 ∷ []

-- STATUS_NOT_FOUND, STATUS_INVALID_PARAMETER, STATUS_INVALID_NETWORK_RESPONSE and STATUS_SUCCESS with
-- the length.
pub data ContentLength : Type 0 where
  not_found invalid_value repeated : ContentLength
  found : ℕ → ContentLength

abbrev pub parsed_length : List ℕ → ContentLength
parsed_length value = elim (str_to_size value) [ none ↦ invalid_value | some n ↦ found n ]

abbrev pub is_not_found : ContentLength → Bool
is_not_found not_found = true
is_not_found invalid_value = false
is_not_found repeated = false
is_not_found (found n) = false

-- The loop over the headers, from the result so far.
unfoldable pub scan_content_length : ContentLength → List Header → ContentLength
unfolding token_equals str_to_size
scan_content_length result [] = result
scan_content_length result (h ∷ hs) =
    let skipped = scan_content_length result hs in
    let taken = scan_content_length (parsed_length h.value) hs in
    if token_equals h.name content_length_name
    then (if is_not_found result then taken else repeated)
    else skipped

-- HttpGetContentLengthFromHeaders
unfoldable pub get_content_length : List Header → ContentLength
unfolding scan_content_length
get_content_length hs = scan_content_length not_found hs

-- The directive before the next comma, and what is behind the comma.
abbrev pub until_comma : List ℕ → List ℕ
until_comma [] = []
until_comma (c ∷ cs) = if c == 44 then [] else c ∷ until_comma cs

abbrev pub behind_comma : List ℕ → List ℕ
behind_comma [] = []
behind_comma (c ∷ cs) = if c == 44 then cs else behind_comma cs

abbrev pub is_space : ℕ → Bool
is_space c = c == 32 || c == 9

abbrev pub trim_start : List ℕ → List ℕ
trim_start [] = []
trim_start (c ∷ cs) = if is_space c then trim_start cs else c ∷ cs

abbrev pub is_blank : List ℕ → Bool
is_blank [] = true
is_blank (c ∷ cs) = is_space c && is_blank cs

abbrev pub trim_end : List ℕ → List ℕ
trim_end [] = []
trim_end (c ∷ cs) = if is_blank (c ∷ cs) then [] else c ∷ trim_end cs

-- The loop over a value's directives. Each round takes a byte at least.
unfoldable pub has_no_store : ℕ → List ℕ → Outcome Bool
unfolding token_equals
has_no_store fuel [] = ok false
has_no_store zero (c ∷ cs) = fault
has_no_store (suc fuel) (c ∷ cs) =
    let rest = has_no_store fuel (behind_comma (c ∷ cs)) in
    if token_equals (trim_end (trim_start (until_comma (c ∷ cs)))) no_store_token
    then ok true
    else rest

-- A header that forbids ends the search.
abbrev pub or_else : Outcome Bool → Outcome Bool → Outcome Bool
or_else fault rest = fault
or_else refused rest = refused
or_else (ok true) rest = ok true
or_else (ok false) rest = rest

-- HttpForbidsStoring
unfoldable pub forbids_storing : List Header → Outcome Bool
unfolding has_no_store
forbids_storing [] = ok false
forbids_storing (h ∷ hs) =
    let rest = forbids_storing hs in
    if token_equals h.name cache_control_name
    then or_else (has_no_store (length h.value) h.value) rest
    else rest
