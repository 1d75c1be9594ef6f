-- ===== src/Tls/Signature.antt =====
-- BlorgTlsParseCertificateVerifyMessage and BlorgTlsBuildServerCertVerifyContent of src/Tls.c.
pub mod Laws
pub mod RoundTrip
use blorg_fs.Prelude.{
  ℕ, zero, suc, ◌+◌, ◌-◌, Bool, List, [], ◌∷◌, ◌++◌, length, leb, ◌==◌, if◌then◌else◌, Outcome,
  fault, refused, ok, ◌>>=◌, ◌>>◌, require, read, copy,
}
use blorg_fs.Tls.Wire.{sigalg_ecdsa_secp256r1_sha256, get_uint16}
use blorg_fs.Tls.Certificate.{der_read_tlv}

abbrev pub repeat : ℕ → ℕ → List ℕ
repeat zero b = []
repeat (suc n) b = b ∷ repeat n b

-- The zero byte that keeps an INTEGER of 32 bytes from being negative is passed over: where the
-- number begins, and its length.
unfoldable pub strip_sign : List ℕ → ℕ → ℕ → Outcome (ℕ × ℕ)
unfolding read
strip_sign m start len =
    if len == 33
    then (do b ← read m start; if b == 0 then ok (start + 1, 32) else ok (start, 33))
    else ok (start, len)

-- BlorgTlsParseCertificateVerifyMessage: the signature as r and s, 32 bytes each.
unfoldable pub parse_certificate_verify : List ℕ → Outcome (List ℕ)
unfolding get_uint16 der_read_tlv strip_sign copy
parse_certificate_verify m = do
  require (leb 4 (length m))
  algorithm ← get_uint16 m 0
  require (algorithm == sigalg_ecdsa_secp256r1_sha256)
  signature_length ← get_uint16 m 2
  require (4 + signature_length == length m)
  pair ← der_read_tlv m 4 (4 + signature_length) 0x30
  let end = pair.1 + pair.0
  r_field ← der_read_tlv m pair.1 end 0x02
  s_field ← der_read_tlv m (r_field.1 + r_field.0) end 0x02
  r ← strip_sign m r_field.1 r_field.0
  s ← strip_sign m s_field.1 s_field.0
  require (leb r.1 32)
  require (leb s.1 32)
  require (leb 1 r.1)
  require (leb 1 s.1)
  r_bytes ← copy m r.0 r.1
  s_bytes ← copy m s.0 s.1
  ok ((repeat (32 - r.1) 0 ++ r_bytes) ++ (repeat (32 - s.1) 0 ++ s_bytes))

-- "TLS 1.3, server CertificateVerify"
abbrev pub context_string : List ℕ
context_string =
    0x54 ∷ 0x4c ∷ 0x53 ∷ 0x20 ∷ 0x31 ∷ 0x2e ∷ 0x33 ∷ 0x2c ∷ 0x20 ∷ 0x73 ∷ 0x65 ∷ 0x72 ∷ 0x76 ∷ 0x65
    ∷ 0x72 ∷ 0x20 ∷ 0x43 ∷ 0x65 ∷ 0x72 ∷ 0x74 ∷ 0x69 ∷ 0x66 ∷ 0x69 ∷ 0x63 ∷ 0x61 ∷ 0x74 ∷ 0x65
    ∷ 0x56 ∷ 0x65 ∷ 0x72 ∷ 0x69 ∷ 0x66 ∷ 0x79 ∷ []

-- BlorgTlsBuildServerCertVerifyContent: what the server signs for a transcript's hash. Its length is
-- checked at the end.
unfoldable pub cert_verify_content : List ℕ → Outcome (List ℕ)
cert_verify_content hash =
    let content = repeat 64 0x20 ++ (context_string ++ (0x00 ∷ hash)) in
    (do require (length content == 130); ok content)
