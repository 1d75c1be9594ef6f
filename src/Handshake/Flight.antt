-- ===== src/Handshake/Flight.antt =====
-- TlsHandshakeProcessFlightMessages of src/TlsHandshake.c, and BlorgTlsCheckPin.
use blorg_fs.Prelude.{
  ℕ, zero, suc, ◌+◌, Bool, true, false, ◌||◌, ◌&&◌, not, Option, none, some, List, [], ◌∷◌, ◌++◌,
  length, leb, ltb, ◌==◌, if◌then◌else◌, drop, read, copy,
}
use blorg_fs.Tls.Wire.{hash_length, get_uint24}
use blorg_fs.Tls.Certificate.{parse_certificate_message, extract_spki, decode_spki}
use blorg_fs.Tls.Signature.{parse_certificate_verify, cert_verify_content}
use blorg_fs.Tls.Record.{constant_time_equal}
use blorg_fs.Tls.KeySchedule.{hkdf_expand_label}
use blorg_fs.Handshake.{Crypto, Context, transcript_max}
use blorg_fs.Handshake.Reply.{
  Status, invalid_parameter, insufficient_resources, trust_failure, Answer, broken, failed, replied,
  ◌>>=◌, ◌>>◌, require, parsed, derived, from_system,
}

-- "finished"
abbrev pub label_finished : List ℕ
label_finished = 0x66 ∷ 0x69 ∷ 0x6e ∷ 0x69 ∷ 0x73 ∷ 0x68 ∷ 0x65 ∷ 0x64 ∷ []

module _ (crypto : Crypto) (pin : Option (List ℕ)) where
  -- BlorgTlsCheckPin: nothing matches while no pin is configured.
  unfoldable pub check_pin : List ℕ → Answer Bool
  unfolding constant_time_equal
  check_pin spki = elim (crypto.sha256 spki) [
    | none ↦ replied false
    | some digest ↦ elim pin [
      | none ↦ replied false
      | some value ↦ parsed (constant_time_equal digest value hash_length)
    ]
  ]

  unfoldable pub on_encrypted_extensions : Context → Answer Context
  on_encrypted_extensions c = do
    require invalid_parameter (not (c.saw_encrypted_extensions || c.saw_certificate))
    replied (record c { saw_encrypted_extensions = true })

  unfoldable pub on_certificate : Context → List ℕ → Answer Context
  unfolding check_pin parse_certificate_message extract_spki decode_spki copy
  on_certificate c body = do
    require invalid_parameter (c.saw_encrypted_extensions && not c.saw_certificate)
    leaf_at ← parsed (parse_certificate_message body)
    leaf ← parsed (copy body leaf_at.0 leaf_at.1)
    spki_at ← parsed (extract_spki leaf)
    spki ← parsed (copy leaf spki_at.0 spki_at.1)
    matches ← check_pin spki
    require trust_failure matches
    key ← parsed (decode_spki spki)
    digest ← from_system (crypto.sha256 c.transcript)
    replied (record c {
      server_long_term_key = key;
      hash_through_cert = digest;
      saw_certificate = true;
    })

  unfoldable pub on_certificate_verify : Context → List ℕ → Answer Context
  unfolding parse_certificate_verify cert_verify_content
  on_certificate_verify c body = do
    require invalid_parameter (c.saw_certificate && not c.saw_cert_verify)
    signature ← parsed (parse_certificate_verify body)
    content ← parsed (cert_verify_content c.hash_through_cert)
    digest ← from_system (crypto.sha256 content)
    require Status.crypto_failure (crypto.ecdsa_verify c.server_long_term_key digest signature)
    transcript_digest ← from_system (crypto.sha256 c.transcript)
    replied (record c { hash_through_verify = transcript_digest; saw_cert_verify = true })

  unfoldable pub on_finished : Context → List ℕ → Answer Context
  unfolding hkdf_expand_label constant_time_equal
  on_finished c body = do
    require invalid_parameter (c.saw_cert_verify && (length body == 32))
    key ← derived (hkdf_expand_label crypto.hmac c.server_hs_traffic label_finished [] hash_length)
    mac ← from_system (crypto.hmac key c.hash_through_verify)
    same ← parsed (constant_time_equal mac body hash_length)
    require invalid_parameter same
    replied c

  -- One message, with its four bytes of type and length: the context, and whether the handshake is
  -- done.
  unfoldable pub process_message : Context → ℕ → List ℕ → Answer (Context × Bool)
  unfolding on_encrypted_extensions on_certificate on_certificate_verify on_finished
  process_message c₀ type message =
      let c = record c₀ { transcript = c₀.transcript ++ message } in
      let body = drop 4 message in
      (do
        require insufficient_resources (leb (length c₀.transcript + length message) transcript_max)
        if type == 0x08
            then (on_encrypted_extensions c >>= λ c'. replied (c', false))
            else if type == 0x0B
            then (on_certificate c body >>= λ c'. replied (c', false))
            else if type == 0x0F
            then (on_certificate_verify c body >>= λ c'. replied (c', false))
            else if type == 0x14
            then (on_finished c body >>= λ c'. replied (c', true))
            else failed invalid_parameter)

  -- What is left of the flight is moved to its front.
  abbrev pub keep_rest : ℕ → Context → Context
  keep_rest offset c = record c { flight = drop offset c.flight }

  -- The loop over the messages of the flight. Each takes four bytes at least.
  unfoldable pub process_messages : ℕ → ℕ → Context → Answer (Context × Bool)
  unfolding process_message read copy get_uint24
  process_messages zero offset c =
      if leb (offset + 4) (length c.flight) then broken else replied (keep_rest offset c, false)
  process_messages (suc fuel) offset c =
      let round = (do
        type ← parsed (read c.flight offset)
        body_length ← parsed (get_uint24 c.flight (offset + 1))
        let next = offset + (4 + body_length)
        let process = (do
          message ← parsed (copy c.flight offset (4 + body_length))
          p ← process_message c type message
          let rest = process_messages fuel next p.0
          if p.1 then replied (keep_rest next p.0, true) else rest)
        if ltb (length c.flight) next then replied (keep_rest offset c, false) else process) in
      if leb (offset + 4) (length c.flight) then round else replied (keep_rest offset c, false)

  -- TlsHandshakeProcessFlightMessages
  unfoldable pub process_flight_messages : Context → Answer (Context × Bool)
  unfolding process_messages
  process_flight_messages c = process_messages (suc (length c.flight)) 0 c
