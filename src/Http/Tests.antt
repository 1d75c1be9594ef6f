-- ===== src/Http/Tests.antt =====
-- Responses and paths, parsed and encoded by the code of src/Client.c.
use blorg_fs.Prelude.{
  ℕ, ◌≡◌, ◌+◌, ◌^◌, ◌≤◌, ◌<◌, refl, Bool, true, List, [], ◌∷◌, some, ok, length, All, ◌↔◌, arith,
}
use blorg_fs.Http.Headers.{
  Header, str_to_size, get_content_length, content_length_name, cache_control_name, repeated,
  forbids_storing,
}
use blorg_fs.Http.Headers.Numbers.{str_to_size_iff, IsNonempty, IsDigit, decimal}
use blorg_fs.Http.Headers.Scans.{get_content_length-eq, length_of, values_of}
use blorg_fs.Http.Headers.Stores.{forbids_storing-eq, any, says_no_store, directives}
use blorg_fs.Http.Url.{encoded, name_too_long, url_encode, encoded_length}
use blorg_fs.Http.Url.Laws.{url_encode-decoded, percent_decoded}
use blorg_fs.Http.Version.{etag_name}

-- "42"
abbrev forty_two : List ℕ
forty_two = 52 ∷ 50 ∷ []

str_to_size_iff_example :
    (str_to_size forty_two ≡ some 42)
    ↔ (IsNonempty forty_two × All IsDigit forty_two × (decimal 0 forty_two ≡ 42) × (42 < 2 ^ 64))
str_to_size_iff_example = str_to_size_iff forty_two 42

abbrev twice : List Header
twice =
    record { name = content_length_name; value = forty_two }
    ∷ record { name = cache_control_name; value = forty_two }
    ∷ record { name = content_length_name; value = forty_two }
    ∷ []

get_content_length-eq_example :
    get_content_length twice ≡ length_of (values_of content_length_name twice)
get_content_length-eq_example = get_content_length-eq twice

length_repeated : get_content_length twice ≡ repeated
unfolding get_content_length
length_repeated = refl

-- "max-age=0, No-Store"
abbrev stored : List Header
stored =
    record {
      name = cache_control_name;
      value =
          109 ∷ 97 ∷ 120 ∷ 45 ∷ 97 ∷ 103 ∷ 101 ∷ 61 ∷ 48 ∷ 44 ∷ 32 ∷ 78 ∷ 111 ∷ 45 ∷ 83 ∷ 116 ∷ 111
          ∷ 114 ∷ 101 ∷ [];
    }
    ∷ []

forbids_storing-eq_example :
    forbids_storing stored
    ≡ ok (any (λ v. any says_no_store (directives v)) (values_of cache_control_name stored))
forbids_storing-eq_example = forbids_storing-eq stored

storing_forbidden : forbids_storing stored ≡ ok true
unfolding forbids_storing
storing_forbidden = refl

-- "a b"
abbrev with_space : List ℕ
with_space = 97 ∷ 32 ∷ 98 ∷ []

url_encode-decoded_example :
    (encoded_length with_space + 10 + 1 ≤ 65535
      → (text : List ℕ) × (url_encode with_space 10 true ≡ encoded text)
        × (percent_decoded text ≡ with_space)
        × (length text ≡ encoded_length with_space))
    × (65535 < encoded_length with_space + 10 + 1
        → (allocated : Bool) → url_encode with_space 10 allocated ≡ name_too_long)
url_encode-decoded_example =
    url_encode-decoded with_space 10 (omega arith, (omega arith, (omega arith, tt)))

-- "\"1.64-Ff\""
abbrev tagged : List Header
tagged = record { name = etag_name; value = 34 ∷ 49 ∷ 46 ∷ 54 ∷ 52 ∷ 45 ∷ 70 ∷ 102 ∷ 34 ∷ [] } ∷ []
