-- ===== src/Tls/Certificate.antt =====
-- BlorgTlsParseCertificateMessage, TlsDerReadTlv, TlsDerSkipTlv, BlorgTlsExtractSpkiFromCertificate and
-- the P-256 SubjectPublicKeyInfo of src/Tls.c. A pointer into the certificate is an index.
pub mod Safe
pub mod Der
pub mod Found
pub mod Message
use blorg_fs.Prelude.{
  ℕ, zero, suc, ◌+◌, ◌-◌, ◌*◌, ◌%◌, Bool, true, false, ◌&&◌, List, [], ◌∷◌, ◌++◌, length, ltb, leb,
  ◌==◌, if◌then◌else◌, Outcome, fault, refused, ok, ◌>>=◌, ◌>>◌, require, read, copy, take, drop,
}
use blorg_fs.Tls.Wire.{public_key_length, spki_length, get_uint24}

-- BlorgTlsParseCertificateMessage: where the leaf certificate is, and its length. The lengths that the
-- message names have 24 bits, so no sum reaches 2 ^ 32.
unfoldable pub parse_certificate_message : List ℕ → Outcome (ℕ × ℕ)
unfolding read get_uint24
parse_certificate_message m = do
  require (leb 1 (length m))
  context_length ← read m 0
  let offset = 1 + context_length
  require (leb (offset + 3) (length m))
  list_length ← get_uint24 m offset
  require (leb 3 list_length)
  require (leb (offset + 3 + list_length) (length m))
  data_length ← get_uint24 m (offset + 3)
  require (leb (offset + 6 + data_length) (length m))
  ok (offset + 6, data_length)

-- The loop over the bytes of a long-form length.
unfoldable pub long_length : List ℕ → ℕ → ℕ → ℕ → Outcome ℕ
unfolding read
long_length m p zero len = ok len
long_length m p (suc n) len = do b ← read m p; long_length m (p + 1) n (len * 256 + b)

-- The length behind a tag: it, and where the value begins.
unfoldable pub der_length : List ℕ → ℕ → ℕ → Outcome (ℕ × ℕ)
unfolding read long_length
der_length m p end = do
  require (ltb p end)
  b ← read m p
  if ltb b 128 then ok (b, p + 1) else (do
    let length_bytes = b % 128
    require (leb 1 length_bytes)
    require (leb length_bytes 2)
    require (leb length_bytes (end - (p + 1)))
    len ← long_length m (p + 1) length_bytes 0
    ok (len, p + 1 + length_bytes))

-- TlsDerReadTlv: the value's length, and where it begins.
unfoldable pub der_read_tlv : List ℕ → ℕ → ℕ → ℕ → Outcome (ℕ × ℕ)
unfolding der_length
der_read_tlv m p end tag = do
  require (ltb p end)
  b ← read m p
  require (b == tag)
  h ← der_length m (p + 1) end
  require (leb h.0 (end - h.1))
  ok h

-- TlsDerSkipTlv: where the next field begins.
unfoldable pub der_skip_tlv : List ℕ → ℕ → ℕ → Outcome ℕ
unfolding der_length
der_skip_tlv m p end = do
  require (ltb p end)
  h ← der_length m (p + 1) end
  require (leb h.0 (end - h.1))
  ok (h.1 + h.0)

-- The version, which is optional.
unfoldable pub skip_version : List ℕ → ℕ → ℕ → Outcome ℕ
unfolding der_skip_tlv
skip_version m p end =
    if ltb p end then (do b ← read m p; if b == 0xA0 then der_skip_tlv m p end else ok p) else ok p

-- So many fields are skipped.
unfoldable pub skip_fields : ℕ → List ℕ → ℕ → ℕ → Outcome ℕ
unfolding der_skip_tlv
skip_fields zero m p end = ok p
skip_fields (suc n) m p end = do p' ← der_skip_tlv m p end; skip_fields n m p' end

-- BlorgTlsExtractSpkiFromCertificate: where the SubjectPublicKeyInfo is, and its length.
unfoldable pub extract_spki : List ℕ → Outcome (ℕ × ℕ)
unfolding der_read_tlv skip_version skip_fields
extract_spki m = do
  certificate ← der_read_tlv m 0 (length m) 0x30
  body ← der_read_tlv m certificate.1 (length m) 0x30
  let end = body.1 + body.0
  p ← skip_version m body.1 end
  start ← skip_fields 5 m p end
  key ← der_read_tlv m start end 0x30
  ok (start, key.1 + key.0 - start)

abbrev pub spki_header : List ℕ
spki_header =
    0x30 ∷ 0x59 ∷ 0x30 ∷ 0x13 ∷ 0x06 ∷ 0x07 ∷ 0x2A ∷ 0x86 ∷ 0x48 ∷ 0xCE ∷ 0x3D ∷ 0x02 ∷ 0x01 ∷ 0x06
    ∷ 0x08 ∷ 0x2A ∷ 0x86 ∷ 0x48 ∷ 0xCE ∷ 0x3D ∷ 0x03 ∷ 0x01 ∷ 0x07 ∷ 0x03 ∷ 0x42 ∷ 0x00 ∷ []

-- `expectedHeader` of the decoder.
abbrev pub expected_header : List ℕ
expected_header =
    0x30 ∷ 0x59 ∷ 0x30 ∷ 0x13 ∷ 0x06 ∷ 0x07 ∷ 0x2A ∷ 0x86 ∷ 0x48 ∷ 0xCE ∷ 0x3D ∷ 0x02 ∷ 0x01 ∷ 0x06
    ∷ 0x08 ∷ 0x2A ∷ 0x86 ∷ 0x48 ∷ 0xCE ∷ 0x3D ∷ 0x03 ∷ 0x01 ∷ 0x07 ∷ 0x03 ∷ 0x42 ∷ 0x00 ∷ []

-- RtlEqualMemory of as many bytes as the first list has.
abbrev pub equal_memory : List ℕ → List ℕ → Bool
equal_memory [] ys = true
equal_memory (x ∷ xs) [] = false
equal_memory (x ∷ xs) (y ∷ ys) = (x == y) && equal_memory xs ys

-- BlorgTlsEncodeP256SubjectPublicKeyInfo
unfoldable pub encode_spki : List ℕ → List ℕ
encode_spki key = spki_header ++ key

-- BlorgTlsDecodeP256SubjectPublicKeyInfo
unfoldable pub decode_spki : List ℕ → Outcome (List ℕ)
unfolding copy read
decode_spki der = do
  require (length der == spki_length)
  require (equal_memory expected_header der)
  key ← copy der 26 public_key_length
  first ← read key 0
  require (first == 0x04)
  ok key
