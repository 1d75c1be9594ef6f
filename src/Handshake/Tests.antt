-- ===== src/Handshake/Tests.antt =====
-- A handshake of src/TlsHandshake.c, run on concrete records with a toy cryptography.
use blorg_fs.Prelude.{
  ℕ, Outcome, ok, fault, refused, Option, copy, arith, ◌≡◌, ◌≢◌, subst, refl, Bool, true, false,
  some, List, [], ◌∷◌, ◌++◌, length, drop,
}
use blorg_fs.Tls.Certificate.{encode_spki, parse_certificate_message, extract_spki, decode_spki}
use blorg_fs.Tls.Certificate.Found.{Fields, certificate_der}
use blorg_fs.Tls.Certificate.Message.{certificate_message}
use blorg_fs.Tls.Signature.{repeat, parse_certificate_verify, cert_verify_content}
use blorg_fs.Tls.Signature.RoundTrip.{certificate_verify}
use blorg_fs.Tls.Wire.{put_uint24, hash_length}
use blorg_fs.Handshake.{Crypto, Context, waiting_for_flight_record}
use blorg_fs.Handshake.Reply.{Answer, replied, broken, failed}
use blorg_fs.Handshake.Record.{on_record}
use blorg_fs.Handshake.Done.{started, on_record-IsAuthentic}
use blorg_fs.Handshake.Safe.{Sized}
use blorg_fs.Handshake.Total.{on_record-ne-broken}
use blorg_fs.Tls.Record.{constant_time_equal}
use blorg_fs.Tls.KeySchedule.{hkdf_expand_label}
use blorg_fs.Handshake.Authentic.{IsAuthentic}
use blorg_fs.Handshake.Flight.{check_pin, label_finished}
use blorg_fs.Handshake.Live.{
  GoodCertificate, GoodVerify, GoodFinished, behind_certificate, behind_verify,
}
use blorg_fs.Handshake.Served.{flight_of, behind_extensions, IsServed}

abbrev toy : Crypto
toy = record {
  sha256 = λ m. some (repeat 32 7);
  hmac = λ key m. some (repeat 32 9);
  ecdh = λ own public server. some (repeat 32 5);
  ecdsa_verify = λ key digest signature. true;
  aead_decrypt = λ key nonce header ciphertext tag. some ciphertext;
}

abbrev first : Context
first = record {
  server_seq = 0;
  stage = waiting_for_flight_record;
  client_private = [];
  client_public = [];
  server_public = [];
  transcript = 1 ∷ 2 ∷ [];
  handshake_secret = [];
  client_hs_traffic = [];
  server_hs_traffic = repeat 32 1;
  client_hs_key = [];
  client_hs_iv = [];
  server_hs_key = [];
  server_hs_iv = repeat 12 3;
  server_long_term_key = [];
  hash_through_cert = [];
  hash_through_verify = [];
  saw_encrypted_extensions = false;
  saw_certificate = false;
  saw_cert_verify = false;
  flight = [];
}

abbrev fields : Fields
fields = record {
  version = some (2 ∷ 1 ∷ 2 ∷ []);
  serial = 5 ∷ [];
  algorithm = [];
  issuer = 6 ∷ [];
  validity = [];
  subject = 7 ∷ [];
  key = drop 2 (encode_spki (4 ∷ repeat 64 8));
  extensions = 1 ∷ [];
  signature = 2 ∷ [];
}

abbrev handshake_message : ℕ → List ℕ → List ℕ
handshake_message type body = type ∷ (put_uint24 (length body) ++ body)

-- EncryptedExtensions, Certificate, CertificateVerify and Finished in one record, its inner type, and
-- a tag.
abbrev record_payload : List ℕ
record_payload =
    handshake_message 0x08 []
    ++ handshake_message 0x0B (certificate_message [] (certificate_der fields) (0 ∷ 0 ∷ []))
    ++ handshake_message 0x0F (certificate_verify (0 ∷ repeat 32 200) (1 ∷ 2 ∷ []))
    ++ handshake_message 0x14 (repeat 32 9)
    ++ (0x16 ∷ 0 ∷ 0 ∷ [])
    ++ repeat 16 0

abbrev context_of : Context → Answer (Context × Bool) → Context
context_of c broken = c
context_of c (failed s) = c
context_of c (replied p) = p.0

abbrev last : Context
last = context_of first (on_record toy (some (repeat 32 7)) first 0x17 [] record_payload)

run : on_record toy (some (repeat 32 7)) first 0x17 [] record_payload ≡ replied (last, true)
unfolding on_record encode_spki
run = refl

on_record-IsAuthentic_example : IsAuthentic toy (some (repeat 32 7)) last
on_record-IsAuthentic_example =
    on_record-IsAuthentic toy (some (repeat 32 7)) first last 0x17 [] record_payload
      (started refl refl) run

some-length : (a b : List ℕ) → some a ≡ some b → length a ≡ 32 → length b ≡ 32
some-length a b e h = subst (λ (xs : List ℕ). length xs ≡ 32) {x = a} {y = b} (cc e) h

toy-Sized : Sized toy (some (repeat 32 7))
toy-Sized = record {
  digest = λ m h e. some-length (repeat 32 7) h e refl;
  mac = λ key m h e. some-length (repeat 32 9) h e refl;
  pinned = λ value e. some-length (repeat 32 7) value e refl;
}

on_record-ne-broken_example :
    on_record toy (some (repeat 32 7)) first 0x17 [] record_payload ≢ broken
on_record-ne-broken_example =
    on_record-ne-broken toy (some (repeat 32 7)) toy-Sized first 0x17 [] record_payload

-- The same four messages, one byte of a next one behind them.
abbrev certificate : List ℕ
certificate = certificate_message [] (certificate_der fields) (0 ∷ 0 ∷ [])

abbrev verify : List ℕ
verify = certificate_verify (0 ∷ repeat 32 200) (1 ∷ 2 ∷ [])

abbrev pin : Option (List ℕ)
pin = some (repeat 32 7)

abbrev second : Context
second = record first { flight = flight_of [] certificate verify (repeat 32 9) ++ (4 ∷ []) }

abbrev place_of : Outcome (ℕ × ℕ) → ℕ × ℕ
place_of fault = (0, 0)
place_of refused = (0, 0)
place_of (ok p) = p

abbrev bytes_of : Outcome (List ℕ) → List ℕ
bytes_of fault = []
bytes_of refused = []
bytes_of (ok bs) = bs

abbrev leaf_at : ℕ × ℕ
leaf_at = place_of (parse_certificate_message certificate)

abbrev leaf : List ℕ
leaf = bytes_of (copy certificate leaf_at.0 leaf_at.1)

abbrev spki_at : ℕ × ℕ
spki_at = place_of (extract_spki leaf)

abbrev spki : List ℕ
spki = bytes_of (copy leaf spki_at.0 spki_at.1)

abbrev good_certificate : GoodCertificate toy pin (behind_extensions second []) certificate
unfolding parse_certificate_message extract_spki decode_spki copy encode_spki check_pin
good_certificate = record {
  leaf_at = leaf_at;
  leaf_found = refl;
  leaf = leaf;
  leaf_copied = refl;
  spki_at = spki_at;
  spki_found = refl;
  spki = spki;
  spki_copied = refl;
  pinned = refl;
  key = bytes_of (decode_spki spki);
  decoded = refl;
  digest = repeat 32 7;
  hashed = refl;
}

abbrev behind_second : Context
behind_second =
    behind_certificate toy pin (behind_extensions second []) certificate good_certificate

abbrev good_verify : GoodVerify toy pin behind_second verify
unfolding parse_certificate_verify cert_verify_content good_certificate
good_verify = record {
  signature = bytes_of (parse_certificate_verify verify);
  signature_parsed = refl;
  content = bytes_of (cert_verify_content (repeat 32 7));
  content_built = refl;
  digest = repeat 32 7;
  digested = refl;
  verified = refl;
  through = repeat 32 7;
  hashed = refl;
}

abbrev good_finished :
    GoodFinished toy pin (behind_verify toy pin behind_second verify good_verify) (repeat 32 9)
unfolding hkdf_expand_label constant_time_equal
good_finished = record {
  size = refl;
  key = bytes_of (hkdf_expand_label toy.hmac (repeat 32 1) label_finished [] hash_length);
  derived_key = refl;
  mac = repeat 32 9;
  computed = refl;
  same = refl;
}

abbrev served : IsServed toy pin second [] certificate verify (repeat 32 9)
unfolding encode_spki
served = record {
  extensions_size = omega arith;
  certificate_size = omega arith;
  verify_size = omega arith;
  room = omega arith;
  no_extensions = refl;
  no_certificate = refl;
  no_verify = refl;
  good_certificate = good_certificate;
  good_verify = good_verify;
  good_finished = good_finished;
}
