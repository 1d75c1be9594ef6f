-- ===== src/PathCache/Paths.antt =====
-- Path strings: BlorgHashPath of src/Structs.c, and the helpers of src/PathCache.c that take paths
-- apart. Lengths are in characters; the code's are in bytes, twice as many.
pub mod Laws
pub mod Under
use blorg_fs.Prelude.{
  ℕ, zero, suc, ◌+◌, ◌-◌, ◌*◌, ◌/◌, ◌%◌, ◌^◌, Bool, true, false, ◌&&◌, ◌||◌, not, List, [], ◌∷◌,
  ◌++◌, Option, none, some, length, get_elem?, is_empty, add32, mul32, ltb, leb, ◌==◌,
  if◌then◌else◌,
}
use blorg_fs.PathCache.Kernel.{Name, separator, Kernel}

-- The fallback of BlorgHashPath: `hash * 131 + upcase(c)` over the characters.
unfoldable pub hash_chars : Kernel → ℕ → Name → ℕ
hash_chars k hash [] = hash
hash_chars k hash (c ∷ cs) = hash_chars k (add32 (mul32 hash 131) (k.upcase c)) cs

unfoldable pub hash_path : Kernel → Name → ℕ
unfolding hash_chars
hash_path k path =
    mul32 (elim (k.hash_string path) [ none ↦ hash_chars k 0 path | some h ↦ h ]) 0x9E3779B1

-- PathCacheBucket and ListingCacheBucket: the top eight bits of the hash, of 256 buckets.
abbrev pub bucket_bits : ℕ
bucket_bits = 8

abbrev pub buckets : ℕ
buckets = 2 ^ bucket_bits

unfoldable pub bucket_of : Kernel → Name → ℕ
unfolding hash_path
bucket_of k path = hash_path k path / 2 ^ (32 - bucket_bits)

-- The `while` loop of PathCacheParent and ChangeFeedNameOffset: how many characters are left when
-- characters other than the separator are dropped from the end.
unfoldable pub scan_back : Name → ℕ → ℕ
scan_back path zero = 0
scan_back path (suc chars) =
    let rest = scan_back path chars in
    elim (get_elem? path chars) [
      | none ↦ rest
      | some c ↦ if c == separator then suc chars else rest
    ]

abbrev pub take : ℕ → Name → Name
take zero xs = []
take (suc n) [] = []
take (suc n) (x ∷ xs) = x ∷ take n xs

-- PathCacheParent: `none` is FALSE.
unfoldable pub parent : Name → Option Name
unfolding scan_back
parent path =
    let chars = scan_back path (length path) in
    if chars == 0 || chars == length path
    then none
    else some (take (if chars == 1 then 1 else chars - 1) path)

-- Whether the character at an index is the separator.
unfoldable pub separator_at : Name → ℕ → Bool
separator_at path i = elim (get_elem? path i) [ none ↦ false | some c ↦ c == separator ]

-- Whether a non-empty path ends in the separator.
unfoldable pub ends_with_separator : Name → Bool
unfolding separator_at
ends_with_separator path = ltb 0 (length path) && separator_at path (length path - 1)

-- PathCacheIsUnder.
unfoldable pub is_under : Kernel → Name → Name → Bool
unfolding ends_with_separator separator_at
is_under k dir path =
    if ltb (length path) (length dir)
    then false
    else if not (k.is_prefix dir path)
    then false
    else (length path == length dir) || ends_with_separator dir || separator_at path (length dir)

-- The `for` loop of PathCacheIsBelowChild, with the characters left to look at.
unfoldable pub separator_from : ℕ → Name → ℕ → Bool
unfolding separator_at
separator_from zero path i = false
separator_from (suc left) path i =
    let rest = separator_from left path (i + 1) in if separator_at path i then true else rest

-- PathCacheIsBelowChild.
unfoldable pub is_below_child : Name → Name → Bool
unfolding ends_with_separator separator_from
is_below_child dir path =
    let first = if ends_with_separator dir then length dir else length dir + 1 in
    separator_from (length path - first) path first

abbrev pub max_name_len : ℕ
max_name_len = 260

-- Whether a name holds a separator.
unfoldable pub has_separator : Name → Bool
has_separator [] = false
has_separator (c ∷ cs) = let rest = has_separator cs in if c == separator then true else rest

-- PathCacheIsComponent.
unfoldable pub is_component : Name → Bool
unfolding has_separator
is_component name =
    if length name == 0 || leb max_name_len (length name) then false else not (has_separator name)
