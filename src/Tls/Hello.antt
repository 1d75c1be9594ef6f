-- ===== src/Tls/Hello.antt =====
-- BlorgTlsBuildClientHello and BlorgTlsParseServerHello of src/Tls.c.
pub mod Safe
pub mod Accepted
pub mod Built
use blorg_fs.Prelude.{
  ℕ, zero, suc, ◌+◌, ◌-◌, ◌*◌, ◌^◌, ◌%◌, Bool, true, false, ◌&&◌, ◌||◌, not, Option, none, some,
  List, [], ◌∷◌, ◌++◌, length, add32, ltb, leb, ◌==◌, if◌then◌else◌, Outcome, fault, refused, ok,
  ◌>>=◌, ◌>>◌, require, read, copy,
}
use blorg_fs.Tls.Wire.{
  random_length, public_key_length, ext_server_name, ext_supported_groups, ext_signature_algorithms,
  ext_supported_versions, ext_key_share, group_secp256r1, cipher_suite_aes_128_gcm_sha256,
  sigalg_ecdsa_secp256r1_sha256, version_1_3, put_uint16, put_uint24, get_uint16,
}

-- What a ServerHello's extensions have shown so far.
pub record Extensions : Type 0 where
  pub version : Bool
  pub key : Bool
  pub public_key : List ℕ

-- One extension: its type, and its content at an offset with its length.
unfoldable pub parse_extension : List ℕ → ℕ → ℕ → ℕ → Extensions → Outcome Extensions
unfolding get_uint16 copy read
parse_extension m type offset len s =
    if type == ext_supported_versions
    then (do
      require (len == 2)
      version ← get_uint16 m offset
      require (version == version_1_3)
      ok (record s { version = true }))
    else if type == ext_key_share
    then (do
      require (len == 2 + 2 + public_key_length)
      group ← get_uint16 m offset
      require (group == group_secp256r1)
      key_length ← get_uint16 m (offset + 2)
      require (key_length == public_key_length)
      key ← copy m (offset + 4) public_key_length
      first ← read key 0
      require (first == 0x04)
      ok (record s { key = true; public_key = key }))
    else ok s

-- The `while` loop over the extensions.
unfoldable pub parse_extensions : ℕ → List ℕ → ℕ → ℕ → Extensions → Outcome Extensions
unfolding parse_extension
parse_extensions zero m offset end s = if leb (offset + 4) end then fault else ok s
parse_extensions (suc fuel) m offset end s =
    let round = (do
      type ← get_uint16 m offset
      len ← get_uint16 m (offset + 2)
      require (leb (offset + 4 + len) end)
      s' ← parse_extension m type (offset + 4) len s
      parse_extensions fuel m (offset + 4 + len) end s') in
    if leb (offset + 4) end then round else ok s

-- BlorgTlsParseServerHello: the server's random and its public key. Each round takes four bytes of
-- the message at least. No sum of an offset and a length that the message names reaches 2 ^ 32.
unfoldable pub parse_server_hello : List ℕ → Outcome (List ℕ × List ℕ)
unfolding parse_extensions
parse_server_hello m = do
  require (leb (2 + random_length + 1 + 2 + 1 + 2) (length m))
  random ← copy m 2 random_length
  session_id_length ← read m (2 + random_length)
  let offset = 2 + random_length + 1 + session_id_length
  require (leb offset (length m))
  require (leb (offset + 2) (length m))
  suite ← get_uint16 m offset
  require (suite == cipher_suite_aes_128_gcm_sha256)
  require (leb (offset + 3 + 2) (length m))
  extensions_length ← get_uint16 m (offset + 3)
  require (leb (offset + 5 + extensions_length) (length m))
  s ←
      parse_extensions (suc (length m)) m (offset + 5) (offset + 5 + extensions_length)
        (record { version = false; key = false; public_key = [] })
  require (s.version && s.key)
  ok (random, s.public_key)

-- The server_name extension, written at `offset`. The source's test of its room wraps for a name of
-- nearly 2 ^ 32 bytes, and the copy would then leave the buffer.
unfoldable pub server_name_extension : List ℕ → ℕ → ℕ → Outcome (List ℕ)
server_name_extension name offset buffer_len =
    let n = length name in
    let content_len = add32 5 n in
    let bytes =
      put_uint16 ext_server_name
      ++ (put_uint16 content_len ++ (put_uint16 (3 + n) ++ (0x00 ∷ (put_uint16 n ++ name)))) in
    (do
      require (leb (add32 (offset + 4) content_len) buffer_len)
      if leb (offset + length bytes) buffer_len then ok bytes else fault)

-- It is left out for an absent or empty name.
unfoldable pub server_name_part : Option (List ℕ) → ℕ → ℕ → Outcome (List ℕ)
unfolding server_name_extension
server_name_part none offset buffer_len = ok []
server_name_part (some []) offset buffer_len = ok []
server_name_part (some (c ∷ cs)) offset buffer_len =
    server_name_extension (c ∷ cs) offset buffer_len

abbrev pub supported_groups : List ℕ
supported_groups =
    put_uint16 ext_supported_groups
    ++ (put_uint16 4 ++ (put_uint16 2 ++ put_uint16 group_secp256r1))

abbrev pub key_share : List ℕ → List ℕ
key_share key =
    put_uint16 ext_key_share
    ++ (put_uint16 (2 + (2 + 2 + public_key_length))
        ++ (put_uint16 (2 + 2 + public_key_length)
            ++ (put_uint16 group_secp256r1 ++ (put_uint16 public_key_length ++ key))))

abbrev pub supported_versions : List ℕ
supported_versions =
    put_uint16 ext_supported_versions ++ (put_uint16 3 ++ (2 ∷ put_uint16 version_1_3))

abbrev pub signature_algorithms : List ℕ
signature_algorithms =
    put_uint16 ext_signature_algorithms
    ++ (put_uint16 4 ++ (put_uint16 2 ++ put_uint16 sigalg_ecdsa_secp256r1_sha256))

-- What goes before the extensions' length, behind the message's length.
abbrev pub hello_start : List ℕ → List ℕ
hello_start random =
    0x03
    ∷ 0x03
    ∷ (random
        ++ (0x00
            ∷ (put_uint16 2 ++ (put_uint16 cipher_suite_aes_128_gcm_sha256 ++ (0x01 ∷ 0x00 ∷ [])))))

-- BlorgTlsBuildClientHello, for a random of 32 bytes and a key of 65: the message.
unfoldable pub build_client_hello : List ℕ → List ℕ → Option (List ℕ) → ℕ → Outcome (List ℕ)
unfolding server_name_part
build_client_hello random key name buffer_len = do
  require (leb 4 buffer_len)
  require (leb (4 + 2 + random_length + 1 + 2 + 2 + 1 + 1 + 2) buffer_len)
  let start = 4 + 2 + random_length + 1 + 2 + 2 + 1 + 1 + 2
  server_name ← server_name_part name start buffer_len
  let at_groups = start + length server_name
  require (leb (at_groups + 8) buffer_len)
  let at_key = at_groups + 8
  require (leb (at_key + 4 + (2 + (2 + 2 + public_key_length))) buffer_len)
  let at_versions = at_key + 4 + (2 + (2 + 2 + public_key_length))
  require (leb (at_versions + 7 + 8) buffer_len)
  let extensions =
      server_name
      ++ (supported_groups ++ (key_share key ++ (supported_versions ++ signature_algorithms)))
  let body = hello_start random ++ (put_uint16 (length extensions) ++ extensions)
  ok (0x01 ∷ (put_uint24 (length body) ++ body))
