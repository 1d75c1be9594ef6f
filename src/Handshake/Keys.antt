-- ===== src/Handshake/Keys.antt =====
-- TlsHandshakeOnReceiveServerHello of src/TlsHandshake.c: the ServerHello, and the handshake's keys.
use blorg_fs.Prelude.{ℕ, ◌+◌, List, [], ◌∷◌, ◌++◌, length, leb, ◌==◌, drop, read}
use blorg_fs.Tls.Wire.{hash_length, iv_length, get_uint24}
use blorg_fs.Tls.Hello.{parse_server_hello}
use blorg_fs.Tls.KeySchedule.{hkdf_expand_label}
use blorg_fs.Tls.Signature.{repeat}
use blorg_fs.Handshake.{Crypto, Context, waiting_for_flight_record, transcript_max}
use blorg_fs.Handshake.Reply.{
  invalid_parameter, insufficient_resources, Answer, replied, ◌>>=◌, ◌>>◌, require, parsed, derived,
  from_system,
}

-- TLS_KEY_LEN
abbrev pub aes_key_length : ℕ
aes_key_length = 16

-- "derived", "c hs traffic", "s hs traffic", "key" and "iv"
abbrev pub label_derived : List ℕ
label_derived = 0x64 ∷ 0x65 ∷ 0x72 ∷ 0x69 ∷ 0x76 ∷ 0x65 ∷ 0x64 ∷ []

abbrev hs_traffic : List ℕ
hs_traffic = 0x20 ∷ 0x68 ∷ 0x73 ∷ 0x20 ∷ 0x74 ∷ 0x72 ∷ 0x61 ∷ 0x66 ∷ 0x66 ∷ 0x69 ∷ 0x63 ∷ []

abbrev pub label_client_traffic : List ℕ
label_client_traffic = 0x63 ∷ hs_traffic

abbrev pub label_server_traffic : List ℕ
label_server_traffic = 0x73 ∷ hs_traffic

abbrev pub label_key : List ℕ
label_key = 0x6b ∷ 0x65 ∷ 0x79 ∷ []

abbrev pub label_iv : List ℕ
label_iv = 0x69 ∷ 0x76 ∷ []

-- What the chain derives, and its place in the context.
pub record HandshakeKeys : Type 0 where
  pub secret : List ℕ
  pub client_traffic : List ℕ
  pub server_traffic : List ℕ
  pub server_key : List ℕ
  pub server_iv : List ℕ
  pub client_key : List ℕ
  pub client_iv : List ℕ

unfoldable pub install_keys : Context → HandshakeKeys → Context
install_keys c k = record c {
  stage = waiting_for_flight_record;
  handshake_secret = k.secret;
  client_hs_traffic = k.client_traffic;
  server_hs_traffic = k.server_traffic;
  server_hs_key = k.server_key;
  server_hs_iv = k.server_iv;
  client_hs_key = k.client_key;
  client_hs_iv = k.client_iv;
}

module _ (crypto : Crypto) where
  abbrev expand : List ℕ → List ℕ → List ℕ → ℕ → Answer (List ℕ)
  expand secret label context n = derived (hkdf_expand_label crypto.hmac secret label context n)

  -- The chain of RFC 8446 7.1, from the transcript that holds both hellos.
  unfoldable pub key_schedule : Context → Answer HandshakeKeys
  unfolding hkdf_expand_label
  key_schedule c = do
    shared_secret ← from_system (crypto.ecdh c.client_private c.client_public c.server_public)
    transcript_hash ← from_system (crypto.sha256 c.transcript)
    empty_hash ← from_system (crypto.sha256 [])
    early_secret ← from_system (crypto.hmac (repeat 32 0) (repeat 32 0))
    derived_secret ← expand early_secret label_derived empty_hash hash_length
    secret ← from_system (crypto.hmac derived_secret shared_secret)
    client_traffic ← expand secret label_client_traffic transcript_hash hash_length
    server_traffic ← expand secret label_server_traffic transcript_hash hash_length
    server_key ← expand server_traffic label_key [] aes_key_length
    server_iv ← expand server_traffic label_iv [] iv_length
    client_key ← expand client_traffic label_key [] aes_key_length
    client_iv ← expand client_traffic label_iv [] iv_length
    replied (record {
      secret = secret;
      client_traffic = client_traffic;
      server_traffic = server_traffic;
      server_key = server_key;
      server_iv = server_iv;
      client_key = client_key;
      client_iv = client_iv;
    })

  -- TlsHandshakeOnReceiveServerHello, of a record's payload.
  unfoldable pub on_server_hello : Context → List ℕ → Answer Context
  unfolding key_schedule install_keys parse_server_hello read get_uint24
  on_server_hello c payload = do
    require invalid_parameter (leb 4 (length payload))
    type ← parsed (read payload 0)
    require invalid_parameter (type == 0x02)
    body_length ← parsed (get_uint24 payload 1)
    require invalid_parameter (4 + body_length == length payload)
    require insufficient_resources (leb (length c.transcript + length payload) transcript_max)
    hello ← parsed (parse_server_hello (drop 4 payload))
    let c' = record c { transcript = c.transcript ++ payload; server_public = hello.1 }
    keys ← key_schedule c'
    replied (install_keys c' keys)
