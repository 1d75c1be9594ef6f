-- ===== src/Tls/Tests.antt =====
-- Messages of TLS, parsed and built by the code of src/Tls.c on concrete bytes.
use blorg_fs.Prelude.{
  ℕ, ◌≤◌, ◌<◌, ◌≡◌, ◌≢◌, ◌↔◌, refl, Option, none, some, List, [], ◌∷◌, ◌++◌, length, All, arith,
  take, copy, ok, refused,
}
use blorg_fs.Tls.Wire.{IsByte, put_uint16}
use blorg_fs.Tls.Hello.{parse_server_hello, build_client_hello}
use blorg_fs.Tls.Hello.Accepted.{Says, parse_server_hello-eq-ok}
use blorg_fs.Tls.Hello.Built.{build_client_hello-total, room}
use blorg_fs.Tls.Certificate.{extract_spki, encode_spki, decode_spki, equal_memory}
use blorg_fs.Tls.Certificate.Der.{tlv}
use blorg_fs.Tls.Certificate.Found.{Fields, certificate_der, extract_spki-certificate_der}
use blorg_fs.Tls.Certificate.Message.{decode_spki_iff, IsPoint}
use blorg_fs.Tls.Signature.{repeat, parse_certificate_verify}
use blorg_fs.Tls.Signature.RoundTrip.{
  plain, signed, pad, IsSame, certificate_verify, parse-certificate_verify,
}
use blorg_fs.Tls.Record.{constant_time_equal, strip_inner_plaintext, build_nonce}
use blorg_fs.Tls.Record.Laws.{
  constant_time_equal-eq, build_nonce-ne, strip_inner_plaintext-append, zeros,
}
use blorg_fs.Tls.KeySchedule.{hkdf_expand}
use blorg_fs.Tls.KeySchedule.Laws.{hkdf_expand-eq, blocks}

abbrev point : List ℕ
point = 4 ∷ repeat 64 8

-- A ServerHello with supported_versions and key_share.
abbrev server_hello : List ℕ
server_hello =
    (3 ∷ 3 ∷ [])
    ++ repeat 32 6
    ++ (0 ∷ [])
    ++ put_uint16 0x1301
    ++ (0 ∷ [])
    ++ put_uint16 79
    ++ put_uint16 0x002B
    ++ put_uint16 2
    ++ put_uint16 0x0304
    ++ put_uint16 0x0033
    ++ put_uint16 69
    ++ put_uint16 0x0017
    ++ put_uint16 65
    ++ point

accepted : parse_server_hello server_hello ≡ ok (repeat 32 6, point)
unfolding parse_server_hello
accepted = refl

parse_server_hello-eq-ok_example : Says server_hello (repeat 32 6) point
parse_server_hello-eq-ok_example =
    parse_server_hello-eq-ok server_hello (repeat 32 6) point accepted

abbrev name : Option (List ℕ)
name = some (97 ∷ 98 ∷ [])

build_client_hello-total_example :
    (room name ≤ 200
      → (m : List ℕ) × (build_client_hello (repeat 32 6) point name 200 ≡ ok m)
        × (length m ≡ room name))
    × (200 < room name → build_client_hello (repeat 32 6) point name 200 ≡ refused)
build_client_hello-total_example =
    build_client_hello-total (repeat 32 6) point name 200 refl refl (omega arith)

abbrev fields : Fields
fields = record {
  version = none;
  serial = 5 ∷ [];
  algorithm = [];
  issuer = repeat 200 6;
  validity = [];
  subject = 7 ∷ [];
  key = 1 ∷ 2 ∷ [];
  extensions = 1 ∷ [];
  signature = 2 ∷ [];
}

extract_spki-certificate_der_example :
    (start : ℕ) × (extract_spki (certificate_der fields)
      ≡ ok (start, length (tlv 0x30 (1 ∷ 2 ∷ []))))
    × (copy (certificate_der fields) start (length (tlv 0x30 (1 ∷ 2 ∷ [])))
        ≡ ok (tlv 0x30 (1 ∷ 2 ∷ [])))
extract_spki-certificate_der_example = extract_spki-certificate_der fields (omega arith)

decode_spki_iff_example :
    (decode_spki (encode_spki point) ≡ ok point)
    ↔ ((encode_spki point ≡ encode_spki point) × IsPoint point)
decode_spki_iff_example = decode_spki_iff (encode_spki point) point

parse-certificate_verify_example :
    (parse_certificate_verify (certificate_verify (0 ∷ repeat 32 200) (1 ∷ 2 ∷ []))
      ≡ ok (pad (repeat 32 200) ++ pad (1 ∷ 2 ∷ [])))
    × IsSame (0 ∷ repeat 32 200) (repeat 32 200)
    × IsSame (1 ∷ 2 ∷ []) (1 ∷ 2 ∷ [])
parse-certificate_verify_example =
    parse-certificate_verify (0 ∷ repeat 32 200) (1 ∷ 2 ∷ []) (signed refl)
      (plain (omega arith) (omega arith))

constant_time_equal-eq_example :
    constant_time_equal (1 ∷ 2 ∷ 3 ∷ []) (1 ∷ 2 ∷ 4 ∷ []) 3
    ≡ ok (equal_memory (take 3 (1 ∷ 2 ∷ 3 ∷ [])) (1 ∷ 2 ∷ 4 ∷ []))
constant_time_equal-eq_example =
    constant_time_equal-eq 3 (1 ∷ 2 ∷ 3 ∷ []) (1 ∷ 2 ∷ 4 ∷ []) (omega arith) (omega arith)
      (omega arith, (omega arith, (omega arith, tt)))
      (omega arith, (omega arith, (omega arith, tt)))

abbrev iv : List ℕ
iv = repeat 12 3

iv-IsByte : All IsByte iv
iv-IsByte = (
  three,
  (
    three,
    (three, (three, (three, (three, (three, (three, (three, (three, (three, (three, tt)))))))))),
  ),
)
  where
    three : 3 < 256
    three = omega arith

build_nonce-ne_example : build_nonce iv 7 ≢ build_nonce iv 263
build_nonce-ne_example =
    build_nonce-ne iv 7 263 refl iv-IsByte (omega arith) (omega arith) (omega arith)

abbrev content : List ℕ
content = 1 ∷ 0 ∷ []

strip_inner_plaintext-append_example :
    strip_inner_plaintext (content ++ (0x16 ∷ zeros 3)) ≡ ok (0x16, length content)
strip_inner_plaintext-append_example = strip_inner_plaintext-append content 0x16 3 (omega arith)

abbrev toy_hmac : List ℕ → List ℕ → List ℕ
toy_hmac key message = repeat 32 (length message)

length-toy_hmac : (key message : List ℕ) → length (toy_hmac key message) ≡ 32
length-toy_hmac key message = refl

hkdf_expand-eq_example :
    hkdf_expand (λ key message. some (toy_hmac key message)) (1 ∷ []) (2 ∷ []) 40
    ≡ ok (take 40 (blocks toy_hmac (1 ∷ []) (2 ∷ []) 40 [] 1))
hkdf_expand-eq_example =
    hkdf_expand-eq toy_hmac length-toy_hmac (1 ∷ []) (2 ∷ []) 40 (omega arith) (omega arith)
