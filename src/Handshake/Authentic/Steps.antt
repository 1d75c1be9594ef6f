-- ===== src/Handshake/Authentic/Steps.antt =====
-- Each step of the handshake of src/TlsHandshake.c keeps what its flags stand for, and the last one
-- leaves it authentic.
pub mod Runs
use blorg_fs.Prelude.{
  ℕ, zero, suc, ◌+◌, ◌≡◌, refl, sym, ap, ◌∙◌, subst, Bool, true, false, ◌&&◌, ◌||◌, not, Option,
  none, some, List, [], ◌∷◌, ◌++◌, length, leb, ltb, ◌==◌, if◌then◌else◌, drop, read, copy, ok,
  Bool-cases, inl, inr, &&-both, arith,
}
use blorg_fs.Tls.Wire.{hash_length, get_uint24}
use blorg_fs.Tls.Certificate.{parse_certificate_message, extract_spki, decode_spki}
use blorg_fs.Tls.Signature.{parse_certificate_verify, cert_verify_content}
use blorg_fs.Tls.Record.{constant_time_equal}
use blorg_fs.Tls.KeySchedule.{hkdf_expand_label}
use blorg_fs.Handshake.{Crypto, Context, transcript_max}
use blorg_fs.Handshake.Flight.{
  label_finished, check_pin, on_encrypted_extensions, on_certificate, on_certificate_verify,
  on_finished, process_message, process_messages, process_flight_messages, keep_rest,
}
use blorg_fs.Handshake.Authentic.{IsMessage, Trusted, Signed, Finished, IsAuthentic, Kept}
use blorg_fs.Handshake.Reply.{
  Status, invalid_parameter, insufficient_resources, trust_failure, crypto_failure, Answer, replied,
  failed, broken, ◌>>=◌, ◌>>◌, require, parsed, derived, from_system, >>=-replied, require-replied,
  parsed-replied, derived-replied, from_system-replied, replied-inj,
}

unset : (b : Bool) → not b ≡ true → b ≡ false
unset b h = ground arith

never : {b : Bool} → b ≡ false → b ≡ true → ⊥
never p q = cc (p, q)

-- A message is appended to the transcript before it is handled.
abbrev received : Context → List ℕ → Context
received c message = record c { transcript = c.transcript ++ message }

module _ (crypto : Crypto) (pin : Option (List ℕ)) where
  check_pin-true :
      (spki : List ℕ)
      → check_pin crypto pin spki ≡ replied true
      → (digest : List ℕ) × (pinned : List ℕ) × (crypto.sha256 spki ≡ some digest)
        × (pin ≡ some pinned)
        × (constant_time_equal digest pinned hash_length ≡ ok true)
  unfolding check_pin
  check_pin-true spki = cases (crypto.sha256 spki) pin refl refl
    where
      cases :
          (h p : Option (List ℕ))
          → crypto.sha256 spki ≡ h
          → pin ≡ p
          → (elim h [
            | none ↦ replied false
            | some digest ↦ elim p [
              | none ↦ replied false
              | some value ↦ parsed (constant_time_equal digest value hash_length)
            ]
          ])
            ≡ replied true
          → (digest : List ℕ) × (pinned : List ℕ) × (crypto.sha256 spki ≡ some digest)
            × (pin ≡ some pinned)
            × (constant_time_equal digest pinned hash_length ≡ ok true)
      cases none p eh ep e = cc e
      cases (some digest) none eh ep e = cc e
      cases (some digest) (some pinned) eh ep e =
          (digest, pinned, eh, ep, parsed-replied (constant_time_equal digest pinned hash_length) e)

  pub on_certificate-Kept :
      (c₀ c' : Context) (message : List ℕ)
      → Kept crypto pin c₀
      → IsMessage 0x0B message
      → on_certificate crypto pin (received c₀ message) (drop 4 message) ≡ replied c'
      → Kept crypto pin c'
  unfolding on_certificate
  on_certificate-Kept c₀ c' message h kind e =
      let c = received c₀ message in
      let body = drop 4 message in
      let (flags, e₁) =
        require-replied invalid_parameter (c.saw_encrypted_extensions && not c.saw_certificate) _
          e in
      let (leaf_at, l₁, e₂) = >>=-replied (parsed (parse_certificate_message body)) _ e₁ in
      let (leaf, l₂, e₃) = >>=-replied (parsed (copy body leaf_at.0 leaf_at.1)) _ e₂ in
      let (spki_at, l₃, e₄) = >>=-replied (parsed (extract_spki leaf)) _ e₃ in
      let (spki, l₄, e₅) = >>=-replied (parsed (copy leaf spki_at.0 spki_at.1)) _ e₄ in
      let (matches, l₅, e₆) = >>=-replied (check_pin crypto pin spki) _ e₅ in
      let (yes_, e₇) = require-replied trust_failure matches _ e₆ in
      let (key, l₆, e₈) = >>=-replied (parsed (decode_spki spki)) _ e₇ in
      let (hash, l₇, e₉) = >>=-replied (from_system (crypto.sha256 c.transcript)) _ e₈ in
      let (digest, pinned, p₁, p₂, p₃) = check_pin-true spki (l₅ ∙ ap replied yes_) in
      let c'' = record c {
        server_long_term_key = key;
        hash_through_cert = hash;
        saw_certificate = true;
      } in
      let unseen =
        unset c.saw_certificate
          (&&-both c.saw_encrypted_extensions (not c.saw_certificate) flags).1 in
      subst (Kept crypto pin) (replied-inj c'' c' e₉) (record {
        stage = h.stage;
        order = λ _. refl;
        trusted = λ _ _. record {
          before = c₀.transcript;
          certificate = message;
          at = refl;
          trusted = record {
            kind = kind;
            leaf_at = leaf_at;
            leaf_found = parsed-replied (parse_certificate_message body) l₁;
            leaf = leaf;
            leaf_copied = parsed-replied (copy body leaf_at.0 leaf_at.1) l₂;
            spki_at = spki_at;
            spki_found = parsed-replied (extract_spki leaf) l₃;
            spki = spki;
            spki_copied = parsed-replied (copy leaf spki_at.0 spki_at.1) l₄;
            digest = digest;
            hashed = p₁;
            pinned = pinned;
            configured = p₂;
            matches = p₃;
            decoded = parsed-replied (decode_spki spki) l₆;
            through = from_system-replied (crypto.sha256 c.transcript) l₇;
          };
        };
        signed = λ v. absurd (never unseen (h.order v));
      })

  pub on_certificate_verify-Kept :
      (c₀ c' : Context) (message : List ℕ)
      → Kept crypto pin c₀
      → IsMessage 0x0F message
      → on_certificate_verify crypto pin (received c₀ message) (drop 4 message) ≡ replied c'
      → Kept crypto pin c'
  unfolding on_certificate_verify
  on_certificate_verify-Kept c₀ c' message h kind e =
      let c = received c₀ message in
      let body = drop 4 message in
      let (flags, e₁) =
        require-replied invalid_parameter (c.saw_certificate && not c.saw_cert_verify) _ e in
      let (signature, l₁, e₂) = >>=-replied (parsed (parse_certificate_verify body)) _ e₁ in
      let (content, l₂, e₃) = >>=-replied (parsed (cert_verify_content c.hash_through_cert)) _ e₂ in
      let (digest, l₃, e₄) = >>=-replied (from_system (crypto.sha256 content)) _ e₃ in
      let (verified, e₅) =
        require-replied crypto_failure (crypto.ecdsa_verify c.server_long_term_key digest signature)
          _ e₄ in
      let (hash, l₄, e₆) = >>=-replied (from_system (crypto.sha256 c.transcript)) _ e₅ in
      let c'' = record c { hash_through_verify = hash; saw_cert_verify = true } in
      let (seen, unverified) = &&-both c.saw_certificate (not c.saw_cert_verify) flags in
      let w = h.trusted seen (unset c.saw_cert_verify unverified) in
      subst (Kept crypto pin) (replied-inj c'' c' e₆) (record {
        stage = h.stage;
        order = λ _. seen;
        trusted = λ _ never. cc never;
        signed = λ _. record {
          before = w.before;
          certificate = w.certificate;
          verify = message;
          at = ap (λ (t : List ℕ). t ++ message) w.at;
          trusted = w.trusted;
          signed = record {
            kind = kind;
            signature = signature;
            signature_parsed = parsed-replied (parse_certificate_verify body) l₁;
            content = content;
            content_built = parsed-replied (cert_verify_content c.hash_through_cert) l₂;
            digest = digest;
            hashed = from_system-replied (crypto.sha256 content) l₃;
            verified = verified;
            through =
                ap (λ (t : List ℕ). crypto.sha256 (t ++ message)) (sym w.at)
                ∙ from_system-replied (crypto.sha256 c.transcript) l₄;
          };
        };
      })

  pub on_encrypted_extensions-Kept :
      (c₀ c' : Context) (message : List ℕ)
      → Kept crypto pin c₀
      → on_encrypted_extensions crypto pin (received c₀ message) ≡ replied c'
      → Kept crypto pin c'
  unfolding on_encrypted_extensions
  on_encrypted_extensions-Kept c₀ c' message h e =
      let c = received c₀ message in
      let (flags, e₁) =
        require-replied invalid_parameter (not (c.saw_encrypted_extensions || c.saw_certificate)) _
          e in
      let unseen = neither c.saw_encrypted_extensions c.saw_certificate flags in
      subst (Kept crypto pin) (replied-inj (record c { saw_encrypted_extensions = true }) c' e₁)
        (record {
          stage = h.stage;
          order = h.order;
          trusted = λ s _. absurd (never unseen s);
          signed = λ v. absurd (never unseen (h.order v));
        })
    where
      neither : (a b : Bool) → not (a || b) ≡ true → b ≡ false
      neither a b p = ground arith

  pub on_finished-IsAuthentic :
      (c₀ c' : Context) (message : List ℕ)
      → Kept crypto pin c₀
      → IsMessage 0x14 message
      → on_finished crypto pin (received c₀ message) (drop 4 message) ≡ replied c'
      → IsAuthentic crypto pin c'
  unfolding on_finished
  on_finished-IsAuthentic c₀ c' message h kind e =
      let c = received c₀ message in
      let body = drop 4 message in
      let (flags, e₁) =
        require-replied invalid_parameter (c.saw_cert_verify && (length body == 32)) _ e in
      let (key, l₁, e₂) =
        >>=-replied
          (derived
            (hkdf_expand_label crypto.hmac c.server_hs_traffic label_finished [] hash_length))
          _ e₁ in
      let (mac, l₂, e₃) = >>=-replied (from_system (crypto.hmac key c.hash_through_verify)) _ e₂ in
      let (same, l₃, e₄) = >>=-replied (parsed (constant_time_equal mac body hash_length)) _ e₃ in
      let (yes_, e₅) = require-replied invalid_parameter same _ e₄ in
      let verified = (&&-both c.saw_cert_verify (length body == 32) flags).0 in
      let w = h.signed verified in
      subst (IsAuthentic crypto pin) (replied-inj c c' e₅) (record {
        before = w.before;
        certificate = w.certificate;
        verify = w.verify;
        finished = message;
        at = ap (λ (t : List ℕ). t ++ message) w.at;
        trusted = w.trusted;
        signed = w.signed;
        mac = record {
          kind = kind;
          key = key;
          key_derived =
              derived-replied
                (hkdf_expand_label crypto.hmac c.server_hs_traffic label_finished [] hash_length)
                l₁;
          mac = mac;
          mac_computed = from_system-replied (crypto.hmac key c.hash_through_verify) l₂;
          same = parsed-replied (constant_time_equal mac body hash_length) (l₃ ∙ ap replied yes_);
        };
      })
