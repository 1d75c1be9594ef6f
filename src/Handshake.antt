-- ===== src/Handshake.antt =====
-- The TLS 1.3 handshake of src/TlsHandshake.c: what the records that arrive make of its context. The
-- system's cryptography is an interface, whose operations give nothing where the system reports an
-- error.
pub mod Reply
pub mod Keys
pub mod Flight
pub mod Record
pub mod Authentic
pub mod Done
pub mod Safe
pub mod Ends
pub mod Total
pub mod Live
pub mod Served
pub mod Tests
use blorg_fs.Prelude.{ℕ, Bool, true, false, Option, List, [], ◌∷◌, ◌++◌}

pub record Crypto : Type 0 where
  pub sha256 : List ℕ → Option (List ℕ)
  -- The key and the message.
  pub hmac : List ℕ → List ℕ → Option (List ℕ)
  -- Our private and public key, and the server's public key.
  pub ecdh : List ℕ → List ℕ → List ℕ → Option (List ℕ)
  -- The public key, the digest and the signature.
  pub ecdsa_verify : List ℕ → List ℕ → List ℕ → Bool
  -- The key, the nonce, the additional data, the ciphertext and the tag.
  pub aead_decrypt : List ℕ → List ℕ → List ℕ → List ℕ → List ℕ → Option (List ℕ)

-- TLS_HS_STAGE
pub data Stage : Type 0 where
  waiting_for_server_hello waiting_for_flight_record : Stage

-- TLS_HANDSHAKE_CONTEXT; an array with its length is the list of what it holds.
pub record Context : Type 0 where
  pub server_seq : ℕ
  pub stage : Stage
  pub client_private : List ℕ
  pub client_public : List ℕ
  pub server_public : List ℕ
  pub transcript : List ℕ
  pub handshake_secret : List ℕ
  pub client_hs_traffic : List ℕ
  pub server_hs_traffic : List ℕ
  pub client_hs_key : List ℕ
  pub client_hs_iv : List ℕ
  pub server_hs_key : List ℕ
  pub server_hs_iv : List ℕ
  pub server_long_term_key : List ℕ
  pub hash_through_cert : List ℕ
  pub hash_through_verify : List ℕ
  pub saw_encrypted_extensions : Bool
  pub saw_certificate : Bool
  pub saw_cert_verify : Bool
  pub flight : List ℕ

-- TLS_HS_TRANSCRIPT_MAX and TLS_HS_FLIGHT_MAX
abbrev pub transcript_max : ℕ
transcript_max = 8192

abbrev pub flight_max : ℕ
flight_max = 32768
