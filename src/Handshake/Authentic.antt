-- ===== src/Handshake/Authentic.antt =====
-- What a finished handshake of src/TlsHandshake.c has shown of the server.
pub mod Steps
use blorg_fs.Prelude.{
  ℕ, ◌+◌, ◌≤◌, ◌≡◌, Bool, true, false, Option, some, List, [], ◌++◌, length, drop, copy, read, ok,
}
use blorg_fs.Tls.Wire.{hash_length, get_uint24}
use blorg_fs.Tls.Certificate.{parse_certificate_message, extract_spki, decode_spki}
use blorg_fs.Tls.Signature.{parse_certificate_verify, cert_verify_content}
use blorg_fs.Tls.Record.{constant_time_equal}
use blorg_fs.Tls.KeySchedule.{hkdf_expand_label}
use blorg_fs.Handshake.{Crypto, Context, waiting_for_flight_record}
use blorg_fs.Handshake.Flight.{label_finished}

-- A handshake message of a type: four bytes with the type and the length of the body, and the body.
pub record IsMessage (type : ℕ) (message : List ℕ) : Type 0 where
  pub header : 4 ≤ length message
  pub kind : read message 0 ≡ ok type
  pub size : get_uint24 message 1 ≡ ok (length (drop 4 message))

module _ (crypto : Crypto) (pin : Option (List ℕ)) where
  -- A Certificate message, behind a beginning of the transcript, whose SubjectPublicKeyInfo has the
  -- pinned hash and is this key; the other hash is that of the transcript up to and with the message.
  pub record Trusted (before message key hash : List ℕ) : Type 0 where
    pub kind : IsMessage 0x0B message
    pub leaf_at : ℕ × ℕ
    pub leaf_found : parse_certificate_message (drop 4 message) ≡ ok leaf_at
    pub leaf : List ℕ
    pub leaf_copied : copy (drop 4 message) leaf_at.0 leaf_at.1 ≡ ok leaf
    pub spki_at : ℕ × ℕ
    pub spki_found : extract_spki leaf ≡ ok spki_at
    pub spki : List ℕ
    pub spki_copied : copy leaf spki_at.0 spki_at.1 ≡ ok spki
    pub digest : List ℕ
    pub hashed : crypto.sha256 spki ≡ some digest
    pub pinned : List ℕ
    pub configured : pin ≡ some pinned
    pub matches : constant_time_equal digest pinned hash_length ≡ ok true
    pub decoded : decode_spki spki ≡ ok key
    pub through : crypto.sha256 (before ++ message) ≡ some hash

  -- A CertificateVerify message with a signature of what the first hash makes, which this key
  -- verifies; the second hash is that of the transcript up to and with the message.
  pub record Signed (before message key cert_hash verify_hash : List ℕ) : Type 0 where
    pub kind : IsMessage 0x0F message
    pub signature : List ℕ
    pub signature_parsed : parse_certificate_verify (drop 4 message) ≡ ok signature
    pub content : List ℕ
    pub content_built : cert_verify_content cert_hash ≡ ok content
    pub digest : List ℕ
    pub hashed : crypto.sha256 content ≡ some digest
    pub verified : crypto.ecdsa_verify key digest signature ≡ true
    pub through : crypto.sha256 (before ++ message) ≡ some verify_hash

  -- A Finished message: the MAC of the second hash, under the key of the server's traffic secret.
  pub record Finished (message traffic verify_hash : List ℕ) : Type 0 where
    pub kind : IsMessage 0x14 message
    pub key : List ℕ
    pub key_derived : hkdf_expand_label crypto.hmac traffic label_finished [] hash_length ≡ ok key
    pub mac : List ℕ
    pub mac_computed : crypto.hmac key verify_hash ≡ some mac
    pub same : constant_time_equal mac (drop 4 message) hash_length ≡ ok true

  -- A transcript that ends in a Certificate message.
  pub record WithCertificate (transcript key hash : List ℕ) : Type 0 where
    pub before : List ℕ
    pub certificate : List ℕ
    pub at : transcript ≡ before ++ certificate
    pub trusted : Trusted before certificate key hash

  -- A transcript that ends in a Certificate message and a CertificateVerify message.
  pub record WithVerify (transcript key cert_hash verify_hash : List ℕ) : Type 0 where
    pub before : List ℕ
    pub certificate : List ℕ
    pub verify : List ℕ
    pub at : transcript ≡ (before ++ certificate) ++ verify
    pub trusted : Trusted before certificate key cert_hash
    pub signed : Signed (before ++ certificate) verify key cert_hash verify_hash

  -- The transcript ends in Certificate, CertificateVerify and Finished, one behind the other: the
  -- signature is of the transcript up to and with the certificate, by the certificate's key, and the
  -- MAC is of the transcript up to and with the signature.
  pub record IsAuthentic (c : Context) : Type 0 where
    pub before : List ℕ
    pub certificate : List ℕ
    pub verify : List ℕ
    pub finished : List ℕ
    pub at : c.transcript ≡ ((before ++ certificate) ++ verify) ++ finished
    pub trusted : Trusted before certificate c.server_long_term_key c.hash_through_cert
    pub signed :
        Signed
          (before ++ certificate)
          verify
          c.server_long_term_key
          c.hash_through_cert
          c.hash_through_verify
    pub mac : Finished finished c.server_hs_traffic c.hash_through_verify

  -- What the context's flags stand for, while the flight arrives.
  pub record Kept (c : Context) : Type 0 where
    pub stage : c.stage ≡ waiting_for_flight_record
    pub order : c.saw_cert_verify ≡ true → c.saw_certificate ≡ true
    pub trusted :
        c.saw_certificate ≡ true
        → c.saw_cert_verify ≡ false
        → WithCertificate c.transcript c.server_long_term_key c.hash_through_cert
    pub signed :
        c.saw_cert_verify ≡ true
        → WithVerify c.transcript c.server_long_term_key c.hash_through_cert c.hash_through_verify
