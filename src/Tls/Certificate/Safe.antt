-- ===== src/Tls/Certificate/Safe.antt =====
-- The parsers of certificates of src/Tls.c read nothing outside their message, and what they give lies
-- within it.
use blorg_fs.Prelude.{
  ℕ, zero, suc, ◌+◌, ◌-◌, ◌*◌, ◌%◌, ◌≤◌, ◌<◌, ◌≡◌, ◌≢◌, true, false, List, length, ◌⊎◌, inl, inr,
  arith, ltb, leb, leb→le, ltb→lt, ◌==◌, if◌then◌else◌, Bool-cases, Outcome, fault, ok, ◌>>=◌, ◌>>◌,
  require, read, copy, >>=-ne-fault, require-ne-fault, require-leb, require-eq-ok, >>=-eq-ok,
  ok-pair, read-ne-fault, copy-ne-fault, length-copy,
}
use blorg_fs.Tls.Wire.{public_key_length, spki_length, get_uint24, get_uint24-ne-fault}
use blorg_fs.Tls.Certificate.{
  parse_certificate_message, long_length, der_length, der_read_tlv, der_skip_tlv, skip_version,
  skip_fields, extract_spki, decode_spki, expected_header, equal_memory,
}

-- Whatever the server sends, BlorgTlsParseCertificateMessage reads nothing outside the message.
pub parse_certificate_message-ne-fault : (m : List ℕ) → parse_certificate_message m ≢ fault
unfolding parse_certificate_message
parse_certificate_message-ne-fault m = require-leb 1 (length m) _ (λ l.
    >>=-ne-fault (read m 0) _ (read-ne-fault m 0 (omega arith)) (λ c _.
      require-leb (1 + c + 3) (length m) _ (λ l₁.
        >>=-ne-fault (get_uint24 m (1 + c)) _ (get_uint24-ne-fault m (1 + c) l₁) (λ list _.
          require-leb 3 list _ (λ l₂. require-leb (1 + c + 3 + list) (length m) _ (λ l₃.
            >>=-ne-fault (get_uint24 m (1 + c + 3)) _
              (get_uint24-ne-fault m (1 + c + 3) (omega arith))
              (λ n _. require-leb (1 + c + 6 + n) (length m) _ (λ _ z. cc z))))))))

-- A result is a span between two indexes.
abbrev pub Ends : (Outcome (ℕ × ℕ)) → ℕ → ℕ → Type 0
Ends o p end = (h : ℕ × ℕ) → o ≡ ok h → (p ≤ h.1) × (h.1 + h.0 ≤ end)

module _ (m : List ℕ) where
  long_length-ne-fault : (n p len : ℕ) → p + n ≤ length m → long_length m p n len ≢ fault
  unfolding long_length
  long_length-ne-fault zero p len h = λ z. cc z
  long_length-ne-fault (suc n) p len h =
      >>=-ne-fault (read m p) _ (read-ne-fault m p (omega arith))
        (λ b _. long_length-ne-fault n (p + 1) (len * 256 + b) (omega arith))

  der_length-ne-fault : (p end : ℕ) → end ≤ length m → der_length m p end ≢ fault
  unfolding der_length
  der_length-ne-fault p end h = require-ne-fault (ltb p end) _ (λ l.
      let lt = ltb→lt p end l in
      >>=-ne-fault (read m p) _ (read-ne-fault m p (omega arith)) (λ b _.
        elim (Bool-cases (ltb b 128)) [
          | inl q ↦ rw q (λ z. cc z)
          | inr q ↦ rw q (
              require-leb 1 (b % 128) _ (λ _. require-leb (b % 128) 2 _ (λ _.
                require-leb (b % 128) (end - (p + 1)) _ (λ l₂.
                  >>=-ne-fault (long_length m (p + 1) (b % 128) 0) _
                    (long_length-ne-fault (b % 128) (p + 1) 0 (omega arith)) (λ _ _ z. cc z)))))
        ]))

  der_length-le : (p end : ℕ) (h : ℕ × ℕ) → der_length m p end ≡ ok h → (p ≤ h.1) × (h.1 ≤ end)
  unfolding der_length
  der_length-le p end h e =
      let (l, e₁) = require-eq-ok (ltb p end) _ e in
      let (b, _, e₂) = >>=-eq-ok (read m p) _ e₁ in
      let lt = ltb→lt p end l in either b (Bool-cases (ltb b 128)) lt e₂
    where
      either :
          (b : ℕ)
          → (ltb b 128 ≡ true) ⊎ (ltb b 128 ≡ false)
          → p < end
          → (if ltb b 128 then ok (b, p + 1) else (do
            require (leb 1 (b % 128))
            require (leb (b % 128) 2)
            require (leb (b % 128) (end - (p + 1)))
            len ← long_length m (p + 1) (b % 128) 0
            ok (len, p + 1 + b % 128)))
            ≡ ok h
          → (p ≤ h.1) × (h.1 ≤ end)
      either b (inl q) lt = rw q (λ e.
          let parts = ok-pair (b, p + 1) h e in (omega (arith, parts.1), omega (arith, parts.1)))
      either b (inr q) lt = rw q (λ e.
          let (_, e₁) = require-eq-ok (leb 1 (b % 128)) _ e in
          let (_, e₂) = require-eq-ok (leb (b % 128) 2) _ e₁ in
          let (l, e₃) = require-eq-ok (leb (b % 128) (end - (p + 1))) _ e₂ in
          let (len, _, e₄) = >>=-eq-ok (long_length m (p + 1) (b % 128) 0) _ e₃ in
          let fits = leb→le (b % 128) (end - (p + 1)) l in
          let parts = ok-pair (len, p + 1 + b % 128) h e₄ in
          (omega (arith, parts.1), omega (arith, parts.1, fits)))

  pub der_read_tlv-ne-fault : (p end tag : ℕ) → end ≤ length m → der_read_tlv m p end tag ≢ fault
  unfolding der_read_tlv
  der_read_tlv-ne-fault p end tag h = require-ne-fault (ltb p end) _ (λ l.
      let lt = ltb→lt p end l in
      >>=-ne-fault (read m p) _ (read-ne-fault m p (omega arith)) (λ b _.
        require-ne-fault (b == tag) _ (λ _.
          >>=-ne-fault (der_length m (p + 1) end) _ (der_length-ne-fault (p + 1) end h)
            (λ r _. require-leb r.0 (end - r.1) _ (λ _ z. cc z)))))

  pub der_read_tlv-Ends : (p end tag : ℕ) → Ends (der_read_tlv m p end tag) p end
  unfolding der_read_tlv
  der_read_tlv-Ends p end tag h e =
      let (_, e₁) = require-eq-ok (ltb p end) _ e in
      let (b, _, e₂) = >>=-eq-ok (read m p) _ e₁ in
      let (_, e₃) = require-eq-ok (b == tag) _ e₂ in
      let (r, er, e₄) = >>=-eq-ok (der_length m (p + 1) end) _ e₃ in
      let (l, e₅) = require-eq-ok (leb r.0 (end - r.1)) _ e₄ in
      let within = der_length-le (p + 1) end r er in
      let fits = leb→le r.0 (end - r.1) l in
      let parts = ok-pair r h e₅ in
      (omega (arith, parts, within), omega (arith, parts, within, fits))

  der_skip_tlv-ne-fault : (p end : ℕ) → end ≤ length m → der_skip_tlv m p end ≢ fault
  unfolding der_skip_tlv
  der_skip_tlv-ne-fault p end h = require-ne-fault (ltb p end) _ (λ l.
      >>=-ne-fault (der_length m (p + 1) end) _ (der_length-ne-fault (p + 1) end h)
        (λ r _. require-leb r.0 (end - r.1) _ (λ _ z. cc z)))

  skip_version-ne-fault : (p end : ℕ) → end ≤ length m → skip_version m p end ≢ fault
  unfolding skip_version der_skip_tlv
  skip_version-ne-fault p end h = elim (Bool-cases (ltb p end)) [
    | inr q ↦ rw q (λ z. cc z)
    | inl q ↦
        let lt = ltb→lt p end q in
        rw q (
          >>=-ne-fault (read m p) _ (read-ne-fault m p (omega arith)) (λ b _.
            elim (Bool-cases (b == 0xA0)) [
              | inl r ↦ rw r (rw q at (der_skip_tlv-ne-fault p end h))
              | inr r ↦ rw r (λ z. cc z)
            ]))
  ]

  skip_fields-ne-fault : (n p end : ℕ) → end ≤ length m → skip_fields n m p end ≢ fault
  unfolding skip_fields
  skip_fields-ne-fault zero p end h = λ z. cc z
  skip_fields-ne-fault (suc n) p end h =
      >>=-ne-fault (der_skip_tlv m p end) _ (der_skip_tlv-ne-fault p end h)
        (λ p' _. skip_fields-ne-fault n p' end h)

-- Whatever the certificate is, BlorgTlsExtractSpkiFromCertificate reads nothing outside it.
pub extract_spki-ne-fault : (m : List ℕ) → extract_spki m ≢ fault
unfolding extract_spki
extract_spki-ne-fault m =
    >>=-ne-fault (der_read_tlv m 0 (length m) 0x30) _
      (der_read_tlv-ne-fault m 0 (length m) 0x30 (omega arith))
      (λ c _.
        >>=-ne-fault (der_read_tlv m c.1 (length m) 0x30) _
          (der_read_tlv-ne-fault m c.1 (length m) 0x30 (omega arith))
          (λ b eb.
            let end = b.1 + b.0 in
            let inside : end ≤ length m = (der_read_tlv-Ends-at m c.1 (length m) 0x30 b eb).1 in
            >>=-ne-fault (skip_version m b.1 end) _ (skip_version-ne-fault m b.1 end inside) (λ p _.
              >>=-ne-fault (skip_fields 5 m p end) _ (skip_fields-ne-fault m 5 p end inside)
                (λ start _.
                  >>=-ne-fault (der_read_tlv m start end 0x30) _
                    (der_read_tlv-ne-fault m start end 0x30 inside) (λ _ _ z. cc z)))))
  where
    der_read_tlv-Ends-at :
        (m : List ℕ) (p end tag : ℕ) (h : ℕ × ℕ)
        → der_read_tlv m p end tag ≡ ok h
        → (p ≤ h.1) × (h.1 + h.0 ≤ end)
    der_read_tlv-Ends-at m p end tag h e = der_read_tlv-Ends m p end tag h e

-- The key that BlorgTlsExtractSpkiFromCertificate finds lies within the certificate.
pub extract_spki-le :
    (m : List ℕ) (start len : ℕ) → extract_spki m ≡ ok (start, len) → start + len ≤ length m
unfolding extract_spki
extract_spki-le m start len e =
    let (c, _, e₁) = >>=-eq-ok (der_read_tlv m 0 (length m) 0x30) _ e in
    let (b, eb, e₂) = >>=-eq-ok (der_read_tlv m c.1 (length m) 0x30) _ e₁ in
    let (p, _, e₃) = >>=-eq-ok (skip_version m b.1 (b.1 + b.0)) _ e₂ in
    let (s, _, e₄) = >>=-eq-ok (skip_fields 5 m p (b.1 + b.0)) _ e₃ in
    let (k, ek, e₅) = >>=-eq-ok (der_read_tlv m s (b.1 + b.0) 0x30) _ e₄ in
    let outer = der_read_tlv-Ends m c.1 (length m) 0x30 b eb in
    let inner = der_read_tlv-Ends m s (b.1 + b.0) 0x30 k ek in
    let parts = ok-pair (s, k.1 + k.0 - s) (start, len) e₅ in omega (arith, outer, inner, parts)

-- Whatever the key's bytes are, BlorgTlsDecodeP256SubjectPublicKeyInfo reads nothing outside them.
pub decode_spki-ne-fault : (der : List ℕ) → decode_spki der ≢ fault
unfolding decode_spki
decode_spki-ne-fault der = require-ne-fault (length der == spki_length) _ (λ e.
    require-ne-fault (equal_memory expected_header der) _ (λ _.
      >>=-ne-fault (copy der 26 public_key_length) _
        (copy-ne-fault der 26 public_key_length (ground arith))
        (λ key c.
          >>=-ne-fault (read key 0) _
            (read-ne-fault key 0 (omega (arith, length-copy der 26 public_key_length c)))
            (λ b _. require-ne-fault (b == 0x04) _ (λ _ z. cc z)))))

-- The leaf that BlorgTlsParseCertificateMessage finds lies within the message.
pub parse_certificate_message-le :
    (m : List ℕ) (h : ℕ × ℕ) → parse_certificate_message m ≡ ok h → h.0 + h.1 ≤ length m
unfolding parse_certificate_message
parse_certificate_message-le m h e =
    let (_, e₁) = require-eq-ok (leb 1 (length m)) _ e in
    let (c, _, e₂) = >>=-eq-ok (read m 0) _ e₁ in
    let (_, e₃) = require-eq-ok (leb (1 + c + 3) (length m)) _ e₂ in
    let (n, _, e₄) = >>=-eq-ok (get_uint24 m (1 + c)) _ e₃ in
    let (_, e₅) = require-eq-ok (leb 3 n) _ e₄ in
    let (_, e₆) = require-eq-ok (leb (1 + c + 3 + n) (length m)) _ e₅ in
    let (k, _, e₇) = >>=-eq-ok (get_uint24 m (1 + c + 3)) _ e₆ in
    let (l, e₈) = require-eq-ok (leb (1 + c + 6 + k) (length m)) _ e₇ in
    let parts = ok-pair (1 + c + 6, k) h e₈ in
    let fits = leb→le (1 + c + 6 + k) (length m) l in omega (arith, parts)
