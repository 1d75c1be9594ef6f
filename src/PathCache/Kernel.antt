-- ===== src/PathCache/Kernel.antt =====
-- What PathCache.c and Structs.c call of the Windows kernel's string routines: parameters of the
-- model, with the documented behaviour as laws. A path is the list of its UTF-16 code units; an
-- absent string (a NULL pointer or buffer) is the empty one, since every guard of the code treats
-- NULL, a NULL buffer and length zero alike.
pub mod Laws
use blorg_fs.Prelude.{ℕ, ◌≡◌, ◌↔◌, Bool, true, Option, List, ◌++◌, map}

abbrev pub Name : Type 0
Name = List ℕ

-- L'\\'
abbrev pub separator : ℕ
separator = 92

pub record Kernel : Type 0 where
  -- RtlUpcaseUnicodeChar
  pub upcase : ℕ → ℕ
  -- RtlEqualUnicodeString, ignoring case
  pub equal : Name → Name → Bool
  -- RtlPrefixUnicodeString, ignoring case
  pub is_prefix : Name → Name → Bool
  -- RtlHashUnicodeString, ignoring case, by the default algorithm; `none` is a failure status
  pub hash_string : Name → Option ℕ

abbrev pub fold_case : Kernel → Name → Name
fold_case k = map k.upcase

pub record IsDocumented (k : Kernel) : Type 0 where
  -- Two strings are equal when their upper-case forms are.
  pub equal_iff : (p q : Name) → (k.equal p q ≡ true) ↔ (fold_case k p ≡ fold_case k q)
  -- A string is a prefix of another when its upper-case form begins the other's.
  pub prefix_iff :
      (d p : Name)
      → (k.is_prefix d p ≡ true) ↔ ((rest : Name) × (fold_case k p ≡ fold_case k d ++ rest))
  -- The hash reads the upper-case form only.
  pub hash_string_fold :
      (p q : Name) → fold_case k p ≡ fold_case k q → k.hash_string p ≡ k.hash_string q
  -- The separator has no case, and is no other character's upper case.
  pub upcase_separator : (c : ℕ) → (k.upcase c ≡ separator) ↔ (c ≡ separator)
