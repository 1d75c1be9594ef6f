-- ===== src/Handshake/Ends.antt =====
-- The loop of TlsHandshakeProcessFlightMessages of src/TlsHandshake.c ends, and no step of the handshake
-- reads outside a buffer.
use blorg_fs.Prelude.{
  ℕ, ◌+◌, ◌≡◌, ◌≢◌, refl, sym, ap, ◌∙◌, Bool, true, false, ◌&&◌, ◌||◌, not, Option, List, [], ◌++◌,
  length, leb, ◌==◌, if◌then◌else◌, drop, copy,
}
use blorg_fs.Tls.Wire.{hash_length}
use blorg_fs.Tls.Certificate.{parse_certificate_message, extract_spki, decode_spki}
use blorg_fs.Tls.Signature.{parse_certificate_verify, cert_verify_content}
use blorg_fs.Tls.Record.{constant_time_equal}
use blorg_fs.Tls.KeySchedule.{hkdf_expand_label}
use blorg_fs.Handshake.{Crypto, Context, transcript_max}
use blorg_fs.Handshake.Flight.{
  label_finished, check_pin, on_encrypted_extensions, on_certificate, on_certificate_verify,
  on_finished, process_message,
}
use blorg_fs.Handshake.Safe.{
  Sized, on_certificate-ne-broken, on_certificate_verify-ne-broken, on_finished-ne-broken,
}
use blorg_fs.Handshake.Reply.{
  Status, invalid_parameter, insufficient_resources, trust_failure, crypto_failure, Answer, replied,
  failed, broken, ◌>>=◌, ◌>>◌, require, parsed, derived, from_system, >>=-replied, >>=-ne-broken,
  require-ne-broken, replied-inj,
}

-- A step that leaves this flight to its successor.
abbrev Leaves : List ℕ → Answer Context → Type 0
Leaves flight o = (c : Context) → o ≡ replied c → c.flight ≡ flight

leaves {ℓ} :
    {A : Type ℓ} (flight : List ℕ) (m : Answer A) (f : A → Answer Context)
    → ((a : A) → Leaves flight (f a))
    → Leaves flight (m >>= f)
leaves flight m f h c e = let (a, _, e₁) = >>=-replied m f e in h a c e₁

Leaves-replied : (flight : List ℕ) (c : Context) → c.flight ≡ flight → Leaves flight (replied c)
Leaves-replied flight c h c' e = sym (ap (λ (c : Context). c.flight) (replied-inj c c' e)) ∙ h

module _ (crypto : Crypto) (pin : Option (List ℕ)) where
  on_encrypted_extensions-Leaves :
      (c : Context) → Leaves c.flight (on_encrypted_extensions crypto pin c)
  unfolding on_encrypted_extensions
  on_encrypted_extensions-Leaves c =
      leaves c.flight
        (require invalid_parameter (not (c.saw_encrypted_extensions || c.saw_certificate))) _
        (λ _. Leaves-replied c.flight _ refl)

  on_certificate-Leaves :
      (c : Context) (body : List ℕ) → Leaves c.flight (on_certificate crypto pin c body)
  unfolding on_certificate
  on_certificate-Leaves c body =
      leaves c.flight
        (require invalid_parameter (c.saw_encrypted_extensions && not c.saw_certificate)) _
        (λ _. leaves c.flight (parsed (parse_certificate_message body)) _ (λ leaf_at.
          leaves c.flight (parsed (copy body leaf_at.0 leaf_at.1)) _ (λ leaf.
            leaves c.flight (parsed (extract_spki leaf)) _ (λ spki_at.
              leaves c.flight (parsed (copy leaf spki_at.0 spki_at.1)) _ (λ spki.
                leaves c.flight (check_pin crypto pin spki) _ (λ matches.
                  leaves c.flight (require trust_failure matches) _ (λ _.
                    leaves c.flight (parsed (decode_spki spki)) _ (λ key.
                      leaves c.flight (from_system (crypto.sha256 c.transcript)) _
                        (λ digest. Leaves-replied c.flight _ refl)))))))))

  on_certificate_verify-Leaves :
      (c : Context) (body : List ℕ) → Leaves c.flight (on_certificate_verify crypto pin c body)
  unfolding on_certificate_verify
  on_certificate_verify-Leaves c body =
      leaves c.flight (require invalid_parameter (c.saw_certificate && not c.saw_cert_verify)) _
        (λ _. leaves c.flight (parsed (parse_certificate_verify body)) _ (λ signature.
          leaves c.flight (parsed (cert_verify_content c.hash_through_cert)) _ (λ content.
            leaves c.flight (from_system (crypto.sha256 content)) _ (λ digest.
              leaves c.flight
                (require crypto_failure
                  (crypto.ecdsa_verify c.server_long_term_key digest signature))
                _
                (λ _.
                  leaves c.flight (from_system (crypto.sha256 c.transcript)) _
                    (λ _. Leaves-replied c.flight _ refl))))))

  on_finished-Leaves :
      (c : Context) (body : List ℕ) → Leaves c.flight (on_finished crypto pin c body)
  unfolding on_finished
  on_finished-Leaves c body =
      leaves c.flight (require invalid_parameter (c.saw_cert_verify && (length body == 32))) _ (λ _.
        leaves c.flight
          (derived
            (hkdf_expand_label crypto.hmac c.server_hs_traffic label_finished [] hash_length))
          _
          (λ key. leaves c.flight (from_system (crypto.hmac key c.hash_through_verify)) _ (λ mac.
            leaves c.flight (parsed (constant_time_equal mac body hash_length)) _ (λ same.
              leaves c.flight (require invalid_parameter same) _
                (λ _. Leaves-replied c.flight _ refl)))))

  -- What the loop needs of a step: it is not broken, and the flight is as before.
  unfoldable pub StepsOn : List ℕ → Answer (Context × Bool) → Type 0
  StepsOn flight o = (o ≢ broken) × ((p : Context × Bool) → o ≡ replied p → p.0.flight ≡ flight)

  one :
      (flight : List ℕ) (done : Bool) (m : Answer Context)
      → m ≢ broken
      → Leaves flight m
      → StepsOn flight (m >>= λ c. replied (c, done))
  unfolding StepsOn
  one flight done m h k = (
    >>=-ne-broken m _ h (λ c e. cc e),
    λ p e.
        let (c, ec, e₁) = >>=-replied m (λ c. replied (c, done)) e in
        sym (ap (λ (p : Context × Bool). p.0.flight) (replied-inj (c, done) p e₁)) ∙ k c ec,
  )

  choose :
      (flight : List ℕ) (t₁ t₂ t₃ t₄ : Bool) (m₁ m₂ m₃ m₄ : Answer (Context × Bool))
      → StepsOn flight m₁
      → StepsOn flight m₂
      → StepsOn flight m₃
      → StepsOn flight m₄
      → StepsOn flight (
          if t₁
          then m₁
          else if t₂
          then m₂
          else if t₃
          then m₃
          else if t₄
          then m₄
          else failed invalid_parameter)
  unfolding StepsOn
  choose flight true t₂ t₃ t₄ m₁ m₂ m₃ m₄ h₁ h₂ h₃ h₄ = h₁
  choose flight false true t₃ t₄ m₁ m₂ m₃ m₄ h₁ h₂ h₃ h₄ = h₂
  choose flight false false true t₄ m₁ m₂ m₃ m₄ h₁ h₂ h₃ h₄ = h₃
  choose flight false false false true m₁ m₂ m₃ m₄ h₁ h₂ h₃ h₄ = h₄
  choose flight false false false false m₁ m₂ m₃ m₄ h₁ h₂ h₃ h₄ = (λ e. cc e, λ p e. cc e)

  guarded :
      (flight : List ℕ) (s : Status) (test : Bool) (m : Answer (Context × Bool))
      → StepsOn flight m
      → StepsOn flight (require s test >> m)
  unfolding StepsOn
  guarded flight s true m h = h
  guarded flight s false m h = (λ e. cc e, λ p e. cc e)

  module _ (sized : Sized crypto pin) where
    on_encrypted_extensions-ne-broken :
        (c : Context) → on_encrypted_extensions crypto pin c ≢ broken
    unfolding on_encrypted_extensions
    on_encrypted_extensions-ne-broken c =
        require-ne-broken invalid_parameter (not (c.saw_encrypted_extensions || c.saw_certificate))
          _ (λ _ e. cc e)

    pub process_message-StepsOn :
        (c : Context) (type : ℕ) (message : List ℕ)
        → StepsOn c.flight (process_message crypto pin c type message)
    unfolding process_message
    process_message-StepsOn c₀ type message =
        let c = record c₀ { transcript = c₀.transcript ++ message } in
        let body = drop 4 message in
        let f = c₀.flight in
        guarded f insufficient_resources
          (leb (length c₀.transcript + length message) transcript_max) _
          (choose f (type == 0x08) (type == 0x0B) (type == 0x0F) (type == 0x14) _ _ _ _
            (one f false (on_encrypted_extensions crypto pin c)
              (on_encrypted_extensions-ne-broken c) (on_encrypted_extensions-Leaves c))
            (one f false (on_certificate crypto pin c body)
              (on_certificate-ne-broken crypto pin sized c body) (on_certificate-Leaves c body))
            (one f false (on_certificate_verify crypto pin c body)
              (on_certificate_verify-ne-broken crypto pin sized c body)
              (on_certificate_verify-Leaves c body))
            (one f true (on_finished crypto pin c body)
              (on_finished-ne-broken crypto pin sized c body) (on_finished-Leaves c body)))
