-- ===== src/Handshake/Record.antt =====
-- TlsHandshakeOnReceiveRecordPayload of src/TlsHandshake.c, at PASSIVE_LEVEL, for a record that was
-- received.
use blorg_fs.Prelude.{
  ℕ, ◌+◌, ◌-◌, Bool, false, Option, List, ◌++◌, length, leb, ◌==◌, if◌then◌else◌, take, drop, add64,
}
use blorg_fs.Tls.Record.{strip_inner_plaintext, build_nonce}
use blorg_fs.Handshake.{
  Crypto, Context, waiting_for_server_hello, waiting_for_flight_record, flight_max,
}
use blorg_fs.Handshake.Reply.{
  invalid_parameter, insufficient_resources, Answer, failed, replied, ◌>>=◌, ◌>>◌, require, parsed,
  from_system,
}
use blorg_fs.Handshake.Keys.{on_server_hello}
use blorg_fs.Handshake.Flight.{process_flight_messages}

-- TLS_TAG_LEN
abbrev pub tag_length : ℕ
tag_length = 16

module _ (crypto : Crypto) (pin : Option (List ℕ)) where
  -- A protected record: it is decrypted behind what the flight holds, and its messages are processed.
  unfoldable pub on_protected_record : Context → List ℕ → List ℕ → Answer (Context × Bool)
  unfolding build_nonce strip_inner_plaintext process_flight_messages
  on_protected_record c header payload = do
    require invalid_parameter (leb tag_length (length payload))
    let ciphertext_length = length payload - tag_length
    require insufficient_resources (leb (length c.flight + ciphertext_length) flight_max)
    plaintext ← from_system (
        crypto.aead_decrypt c.server_hs_key (build_nonce c.server_hs_iv c.server_seq) header
          (take ciphertext_length payload) (drop ciphertext_length payload))
    inner ← parsed (strip_inner_plaintext plaintext)
    require invalid_parameter (inner.0 == 0x16)
    process_flight_messages crypto pin (record c {
      server_seq = add64 c.server_seq 1;
      flight = c.flight ++ take inner.1 plaintext;
    })

  -- A record of another type than the stage waits for ends the handshake, but for a ChangeCipherSpec
  -- behind the ServerHello.
  unfoldable pub on_record : Context → ℕ → List ℕ → List ℕ → Answer (Context × Bool)
  unfolding on_server_hello on_protected_record
  on_record c type header payload = elim c.stage [
    | waiting_for_server_hello ↦ (do
      require invalid_parameter (type == 0x16)
      c' ← on_server_hello crypto c payload
      replied (c', false))
    | waiting_for_flight_record ↦
        if type == 0x15
        then failed invalid_parameter
        else if type == 0x14
        then replied (c, false)
        else if type == 0x17
        then on_protected_record c header payload
        else failed invalid_parameter
  ]
