-- ===== src/Handshake/Live.antt =====
-- The messages of a flight that keeps to the protocol, one by one, as TlsHandshakeProcessFlightMessages of
-- src/TlsHandshake.c accepts them.
use blorg_fs.Prelude.{
  ℕ, suc, ◌+◌, ◌^◌, ◌≤◌, ◌<◌, ◌≡◌, refl, ap, ◌∙◌, Bool, true, false, ◌&&◌, ◌||◌, not, Option, some,
  List, [], ◌∷◌, ◌++◌, length, arith, leb, ltb, le→leb, ◌==◌, if◌then◌else◌, ok, read, copy, Holds,
  Holds-at, Holds-append, Holds-le, read-Holds, copy-Holds,
}
use blorg_fs.Tls.Wire.{put_uint24, get_uint24, get_uint24-Holds, hash_length}
use blorg_fs.Tls.Certificate.{parse_certificate_message, extract_spki, decode_spki}
use blorg_fs.Tls.Signature.{parse_certificate_verify, cert_verify_content}
use blorg_fs.Tls.Record.{constant_time_equal}
use blorg_fs.Tls.KeySchedule.{hkdf_expand_label}
use blorg_fs.Handshake.{Crypto, Context, transcript_max}
use blorg_fs.Handshake.Flight.{
  label_finished, check_pin, on_encrypted_extensions, on_certificate, on_certificate_verify,
  on_finished, process_message, process_messages, keep_rest,
}
use blorg_fs.Handshake.Reply.{
  invalid_parameter, insufficient_resources, crypto_failure, Answer, replied, ◌>>=◌, ◌>>◌, require,
  answer_then, parsed_then, derived_then, system_gives, required, when_true, when_false,
}

-- A handshake message: its type, its length and its body.
abbrev pub frame : ℕ → List ℕ → List ℕ
frame type body = type ∷ (put_uint24 (length body) ++ body)

not_less : (a b : ℕ) → b ≤ a → ltb a b ≡ false
not_less a b h = ground arith

module _ (crypto : Crypto) (pin : Option (List ℕ)) where
  -- One round of the loop.
  pub next_message :
      (fuel offset : ℕ) (c c' : Context) (type : ℕ) (body : List ℕ) (done : Bool)
      → offset ≤ length c.flight
      → Holds c.flight offset (frame type body)
      → length body < 2 ^ 24
      → process_message crypto pin c type (frame type body) ≡ replied (c', done)
      → process_messages crypto pin (suc fuel) offset c ≡ (
          if done
          then replied (keep_rest crypto pin (offset + (4 + length body)) c', true)
          else process_messages crypto pin fuel (offset + (4 + length body)) c')
  unfolding process_messages
  next_message fuel offset c c' type body done within holds small e =
      let n = length body in
      let size = Holds-le c.flight (frame type body) offset within holds in
      let len = (Holds-append c.flight (put_uint24 n) body (suc offset) holds.1).0 in
      let copied : copy c.flight offset (4 + n) ≡ ok (frame type body) =
        ap (copy c.flight offset) {x = 4 + n} {y = length (frame type body)} (omega arith)
        ∙ copy-Holds c.flight (frame type body) offset within holds in
      when_true (leb (offset + 4) (length c.flight)) _ _
        (le→leb (offset + 4) (length c.flight) (omega arith))
        (parsed_then (read c.flight offset) _ type
          (read-Holds c.flight type (put_uint24 (length body) ++ body) offset holds)
          (parsed_then (get_uint24 c.flight (offset + 1)) _ n
            (get_uint24-Holds c.flight n (offset + 1) small
              (Holds-at c.flight (put_uint24 n) (suc offset) (offset + 1) (omega arith) len))
            (when_false (ltb (length c.flight) (offset + (4 + n))) _ _
              (not_less (length c.flight) (offset + (4 + n)) (omega arith))
              (parsed_then (copy c.flight offset (4 + n)) _ (frame type body) copied (
                answer_then (process_message crypto pin c type (frame type body)) _ (c', done) e
                  refl)))))

  -- The messages, one by one.
  module _ (c : Context) (body : List ℕ) where
    abbrev pub grown : ℕ → List ℕ
    grown type = c.transcript ++ frame type body

    module _ (type : ℕ)
        (fits : length c.transcript + length (frame type body) ≤ transcript_max) where
      fitting :
          {r : Answer (Context × Bool)} (k : Answer (Context × Bool))
          → k ≡ r
          → (require insufficient_resources
                (leb (length c.transcript + length (frame type body)) transcript_max)
              >> k)
            ≡ r
      fitting k e =
          required insufficient_resources
            (leb (length c.transcript + length (frame type body)) transcript_max) k
            (le→leb (length c.transcript + length (frame type body)) transcript_max fits) e

    pub with_extensions :
        length c.transcript + length (frame 0x08 body) ≤ transcript_max
        → c.saw_encrypted_extensions ≡ false
        → c.saw_certificate ≡ false
        → process_message crypto pin c 0x08 (frame 0x08 body)
          ≡ replied (record c { transcript = grown 0x08; saw_encrypted_extensions = true }, false)
    unfolding process_message on_encrypted_extensions
    with_extensions fits e s =
        let c' = record c { transcript = grown 0x08 } in
        fitting 0x08 fits (on_encrypted_extensions crypto pin c' >>= λ c'. replied (c', false)) (
          answer_then (on_encrypted_extensions crypto pin c') (λ c'. replied (c', false))
            (record c' { saw_encrypted_extensions = true })
            (required invalid_parameter (not (c.saw_encrypted_extensions || c.saw_certificate))
              (replied (record c' { saw_encrypted_extensions = true }))
              (flags c.saw_encrypted_extensions c.saw_certificate e s) refl)
            refl)
      where
        flags : (a b : Bool) → a ≡ false → b ≡ false → not (a || b) ≡ true
        flags a b p q = ground arith

    -- A certificate that the parsers read, with the pinned key, and what is kept of it.
    pub record GoodCertificate : Type 0 where
      pub leaf_at : ℕ × ℕ
      pub leaf_found : parse_certificate_message body ≡ ok leaf_at
      pub leaf : List ℕ
      pub leaf_copied : copy body leaf_at.0 leaf_at.1 ≡ ok leaf
      pub spki_at : ℕ × ℕ
      pub spki_found : extract_spki leaf ≡ ok spki_at
      pub spki : List ℕ
      pub spki_copied : copy leaf spki_at.0 spki_at.1 ≡ ok spki
      pub pinned : check_pin crypto pin spki ≡ replied true
      pub key : List ℕ
      pub decoded : decode_spki spki ≡ ok key
      pub digest : List ℕ
      pub hashed : crypto.sha256 (grown 0x0B) ≡ some digest

    abbrev pub behind_certificate : GoodCertificate → Context
    behind_certificate g = record c {
      transcript = grown 0x0B;
      server_long_term_key = g.key;
      hash_through_cert = g.digest;
      saw_certificate = true;
    }

    pub with_certificate :
        length c.transcript + length (frame 0x0B body) ≤ transcript_max
        → c.saw_encrypted_extensions ≡ true
        → c.saw_certificate ≡ false
        → (g : GoodCertificate)
        → process_message crypto pin c 0x0B (frame 0x0B body)
          ≡ replied (behind_certificate g, false)
    unfolding process_message on_certificate
    with_certificate fits e s g =
        let c' = record c { transcript = grown 0x0B } in
        fitting 0x0B fits (on_certificate crypto pin c' body >>= λ c'. replied (c', false)) (
          answer_then (on_certificate crypto pin c' body) (λ c'. replied (c', false))
            (behind_certificate g)
            (required invalid_parameter (c.saw_encrypted_extensions && not c.saw_certificate) _
              (flags c.saw_encrypted_extensions c.saw_certificate e s)
              (parsed_then (parse_certificate_message body) _ g.leaf_at g.leaf_found (
                parsed_then (copy body g.leaf_at.0 g.leaf_at.1) _ g.leaf g.leaf_copied (
                  parsed_then (extract_spki g.leaf) _ g.spki_at g.spki_found (
                    parsed_then (copy g.leaf g.spki_at.0 g.spki_at.1) _ g.spki g.spki_copied (
                      answer_then (check_pin crypto pin g.spki) _ true g.pinned (
                        parsed_then (decode_spki g.spki) _ g.key g.decoded (
                          system_gives (crypto.sha256 (grown 0x0B)) _ g.digest g.hashed refl))))))))
            refl)
      where
        flags : (a b : Bool) → a ≡ true → b ≡ false → (a && not b) ≡ true
        flags a b p q = ground arith

    -- A signature of the transcript by that key.
    pub record GoodVerify : Type 0 where
      pub signature : List ℕ
      pub signature_parsed : parse_certificate_verify body ≡ ok signature
      pub content : List ℕ
      pub content_built : cert_verify_content c.hash_through_cert ≡ ok content
      pub digest : List ℕ
      pub digested : crypto.sha256 content ≡ some digest
      pub verified : crypto.ecdsa_verify c.server_long_term_key digest signature ≡ true
      pub through : List ℕ
      pub hashed : crypto.sha256 (grown 0x0F) ≡ some through

    abbrev pub behind_verify : GoodVerify → Context
    behind_verify g = record c {
      transcript = grown 0x0F;
      hash_through_verify = g.through;
      saw_cert_verify = true;
    }

    pub with_verify :
        length c.transcript + length (frame 0x0F body) ≤ transcript_max
        → c.saw_certificate ≡ true
        → c.saw_cert_verify ≡ false
        → (g : GoodVerify)
        → process_message crypto pin c 0x0F (frame 0x0F body) ≡ replied (behind_verify g, false)
    unfolding process_message on_certificate_verify
    with_verify fits e s g =
        let c' = record c { transcript = grown 0x0F } in
        fitting 0x0F fits (on_certificate_verify crypto pin c' body >>= λ c'. replied (c', false)) (
          answer_then (on_certificate_verify crypto pin c' body) (λ c'. replied (c', false))
            (behind_verify g)
            (required invalid_parameter (c.saw_certificate && not c.saw_cert_verify) _
              (flags c.saw_certificate c.saw_cert_verify e s)
              (parsed_then (parse_certificate_verify body) _ g.signature g.signature_parsed (
                parsed_then (cert_verify_content c.hash_through_cert) _ g.content g.content_built (
                  system_gives (crypto.sha256 g.content) _ g.digest g.digested (
                    required crypto_failure
                      (crypto.ecdsa_verify c.server_long_term_key g.digest g.signature) _ g.verified
                      (system_gives (crypto.sha256 (grown 0x0F)) _ g.through g.hashed refl))))))
            refl)
      where
        flags : (a b : Bool) → a ≡ true → b ≡ false → (a && not b) ≡ true
        flags a b p q = ground arith

    -- The MAC of the transcript.
    pub record GoodFinished : Type 0 where
      pub size : length body ≡ 32
      pub key : List ℕ
      pub derived_key :
          hkdf_expand_label crypto.hmac c.server_hs_traffic label_finished [] hash_length ≡ ok key
      pub mac : List ℕ
      pub computed : crypto.hmac key c.hash_through_verify ≡ some mac
      pub same : constant_time_equal mac body hash_length ≡ ok true

    pub with_finished :
        length c.transcript + length (frame 0x14 body) ≤ transcript_max
        → c.saw_cert_verify ≡ true
        → GoodFinished
        → process_message crypto pin c 0x14 (frame 0x14 body)
          ≡ replied (record c { transcript = grown 0x14 }, true)
    unfolding process_message on_finished
    with_finished fits e g =
        let c' = record c { transcript = grown 0x14 } in
        fitting 0x14 fits (on_finished crypto pin c' body >>= λ c'. replied (c', true)) (
          answer_then (on_finished crypto pin c' body) (λ c'. replied (c', true)) c'
            (required invalid_parameter (c.saw_cert_verify && (length body == 32)) _
              (flags c.saw_cert_verify (length body) e g.size)
              (derived_then
                (hkdf_expand_label crypto.hmac c.server_hs_traffic label_finished [] hash_length) _
                g.key g.derived_key
                (system_gives (crypto.hmac g.key c.hash_through_verify) _ g.mac g.computed
                  (parsed_then (constant_time_equal g.mac body hash_length) _ true g.same refl))))
            refl)
      where
        flags : (a : Bool) (n : ℕ) → a ≡ true → n ≡ 32 → (a && (n == 32)) ≡ true
        flags a n p q = ground arith
