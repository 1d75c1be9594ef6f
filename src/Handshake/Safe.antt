-- ===== src/Handshake/Safe.antt =====
-- The handshake of src/TlsHandshake.c reads nothing outside its buffers, and its loops end.
use blorg_fs.Prelude.{
  ℕ, ◌≡◌, ◌≢◌, refl, false, ◌&&◌, not, Option, none, some, List, [], length, arith, ◌==◌, ==_iff,
  &&-both, copy, copy-ne-fault,
}
use blorg_fs.Tls.Wire.{hash_length}
use blorg_fs.Tls.Certificate.{parse_certificate_message, extract_spki, decode_spki}
use blorg_fs.Tls.Certificate.Safe.{
  parse_certificate_message-ne-fault, parse_certificate_message-le, extract_spki-ne-fault,
  extract_spki-le, decode_spki-ne-fault,
}
use blorg_fs.Tls.Signature.{parse_certificate_verify, cert_verify_content}
use blorg_fs.Tls.Signature.Laws.{parse_certificate_verify-ne-fault, cert_verify_content-ne-fault}
use blorg_fs.Tls.Record.{constant_time_equal}
use blorg_fs.Tls.Record.Laws.{constant_time_equal-ne-fault}
use blorg_fs.Tls.KeySchedule.{hkdf_expand_label}
use blorg_fs.Tls.KeySchedule.Safe.{hkdf_expand_label-ne-fault}
use blorg_fs.Handshake.{Crypto, Context}
use blorg_fs.Handshake.Flight.{
  label_finished, check_pin, on_certificate, on_certificate_verify, on_finished,
}
use blorg_fs.Handshake.Reply.{
  invalid_parameter, trust_failure, crypto_failure, Answer, replied, broken, ◌>>=◌, parsed, derived,
  from_system, >>=-ne-broken, require-ne-broken, parsed-ne-broken, derived-ne-broken,
  from_system-ne-broken, chain-ne-broken,
}

-- The system's SHA-256 and HMAC-SHA-256 give 32 bytes, and a configured pin has 32.
pub record Sized (crypto : Crypto) (pin : Option (List ℕ)) : Type 0 where
  pub digest : (m h : List ℕ) → crypto.sha256 m ≡ some h → length h ≡ 32
  pub mac : (key m h : List ℕ) → crypto.hmac key m ≡ some h → length h ≡ 32
  pub pinned : (value : List ℕ) → pin ≡ some value → length value ≡ 32

module _ (crypto : Crypto) (pin : Option (List ℕ)) (sized : Sized crypto pin) where
  check_pin-ne-broken : (spki : List ℕ) → check_pin crypto pin spki ≢ broken
  unfolding check_pin
  check_pin-ne-broken spki = cases (crypto.sha256 spki) pin (sized.digest spki) sized.pinned
    where
      cases :
          (h p : Option (List ℕ))
          → ((d : List ℕ) → h ≡ some d → length d ≡ 32)
          → ((v : List ℕ) → p ≡ some v → length v ≡ 32)
          → (elim h [
            | none ↦ replied false
            | some digest ↦ elim p [
              | none ↦ replied false
              | some value ↦ parsed (constant_time_equal digest value hash_length)
            ]
          ])
            ≢ broken
      cases none p a b = λ e. cc e
      cases (some digest) none a b = λ e. cc e
      cases (some digest) (some value) a b =
          parsed-ne-broken (constant_time_equal digest value hash_length) (
            constant_time_equal-ne-fault 32 digest value (omega (arith, a digest refl))
              (omega (arith, b value refl)))

  pub on_certificate-ne-broken :
      (c : Context) (body : List ℕ) → on_certificate crypto pin c body ≢ broken
  unfolding on_certificate
  on_certificate-ne-broken c body =
      require-ne-broken invalid_parameter (c.saw_encrypted_extensions && not c.saw_certificate) _
        (λ _.
          chain-ne-broken (parse_certificate_message body) _
            (parse_certificate_message-ne-fault body)
            (λ leaf_at el.
              chain-ne-broken (copy body leaf_at.0 leaf_at.1) _
                (copy-ne-fault body leaf_at.0 leaf_at.1
                  (parse_certificate_message-le body leaf_at el))
                (λ leaf _.
                  chain-ne-broken (extract_spki leaf) _ (extract_spki-ne-fault leaf) (λ spki_at es.
                    chain-ne-broken (copy leaf spki_at.0 spki_at.1) _
                      (copy-ne-fault leaf spki_at.0 spki_at.1
                        (extract_spki-le leaf spki_at.0 spki_at.1 es))
                      (λ spki _.
                        >>=-ne-broken (check_pin crypto pin spki) _ (check_pin-ne-broken spki)
                          (λ matches. require-ne-broken trust_failure matches _ (λ _.
                            chain-ne-broken (decode_spki spki) _ (decode_spki-ne-fault spki)
                              (λ key _.
                                >>=-ne-broken (from_system (crypto.sha256 c.transcript)) _
                                  (from_system-ne-broken (crypto.sha256 c.transcript))
                                  (λ _ e. cc e)))))))))

  pub on_certificate_verify-ne-broken :
      (c : Context) (body : List ℕ) → on_certificate_verify crypto pin c body ≢ broken
  unfolding on_certificate_verify cert_verify_content
  on_certificate_verify-ne-broken c body =
      require-ne-broken invalid_parameter (c.saw_certificate && not c.saw_cert_verify) _ (λ _.
        chain-ne-broken (parse_certificate_verify body) _ (parse_certificate_verify-ne-fault body)
          (λ signature _.
            chain-ne-broken (cert_verify_content c.hash_through_cert) _
              (cert_verify_content-ne-fault c.hash_through_cert)
              (λ content _.
                >>=-ne-broken (from_system (crypto.sha256 content)) _
                  (from_system-ne-broken (crypto.sha256 content))
                  (λ digest.
                    require-ne-broken crypto_failure
                      (crypto.ecdsa_verify c.server_long_term_key digest signature) _
                      (λ _.
                        >>=-ne-broken (from_system (crypto.sha256 c.transcript)) _
                          (from_system-ne-broken (crypto.sha256 c.transcript)) (λ _ e. cc e))))))

  pub on_finished-ne-broken : (c : Context) (body : List ℕ) → on_finished crypto pin c body ≢ broken
  unfolding on_finished
  on_finished-ne-broken c body =
      require-ne-broken invalid_parameter (c.saw_cert_verify && (length body == 32)) _ (λ flags.
        let size : length body ≡ 32 =
          (==_iff (length body) 32).0 (&&-both c.saw_cert_verify (length body == 32) flags).1 in
        >>=-ne-broken
          (derived
            (hkdf_expand_label crypto.hmac c.server_hs_traffic label_finished [] hash_length))
          _
          (derived-ne-broken _ (
            hkdf_expand_label-ne-fault crypto.hmac sized.mac c.server_hs_traffic label_finished []
              hash_length))
          (λ key. system (crypto.hmac key c.hash_through_verify) (λ mac em.
            chain-ne-broken (constant_time_equal mac body hash_length) _
              (constant_time_equal-ne-fault 32 mac body
                (omega (arith, sized.mac key c.hash_through_verify mac em)) (omega arith))
              (λ same _. require-ne-broken invalid_parameter same _ (λ _ e. cc e)))))
    where
      system :
          {A : Type 0} (o : Option (List ℕ)) {k : List ℕ → Answer A}
          → ((x : List ℕ) → o ≡ some x → k x ≢ broken)
          → (from_system o >>= k) ≢ broken
      system none h = λ e. cc e
      system (some x) h = h x refl
