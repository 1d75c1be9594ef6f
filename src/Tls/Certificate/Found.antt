-- ===== src/Tls/Certificate/Found.antt =====
-- Well-formed certificates, and the key that BlorgTlsExtractSpkiFromCertificate of src/Tls.c finds in
-- them.
use blorg_fs.Prelude.{
  ℕ, suc, ◌+◌, ◌-◌, ◌≤◌, ◌<◌, ◌≡◌, refl, ap, ◌∙◌, Option, none, some, List, [], ◌∷◌, ◌++◌, length,
  length-append, arith, lt→ltb, ok, read, copy, Holds, Holds-append, read-Holds, Holds-all,
  copy-Holds, pair-ok, >>=-ok,
}
use blorg_fs.Tls.Certificate.{der_read_tlv, der_skip_tlv, skip_version, skip_fields, extract_spki}
use blorg_fs.Tls.Certificate.Der.{
  der_len, tlv, der_read_tlv-tlv, der_skip_tlv-tlv, Holds-value, length-tlv,
}

-- The fields of a certificate; those behind the key are left as bytes.
pub record Fields : Type 0 where
  pub version : Option (List ℕ)
  pub serial : List ℕ
  pub algorithm : List ℕ
  pub issuer : List ℕ
  pub validity : List ℕ
  pub subject : List ℕ
  pub key : List ℕ
  pub extensions : List ℕ
  pub signature : List ℕ

abbrev version_der : Option (List ℕ) → List ℕ
version_der none = []
version_der (some value) = tlv 0xA0 value

abbrev fields_der : List (ℕ × List ℕ) → List ℕ
fields_der [] = []
fields_der (f ∷ fs) = tlv f.0 f.1 ++ fields_der fs

abbrev skipped : Fields → List (ℕ × List ℕ)
skipped c =
    (0x02, c.serial)
    ∷ (0x30, c.algorithm)
    ∷ (0x30, c.issuer)
    ∷ (0x30, c.validity)
    ∷ (0x30, c.subject)
    ∷ []

abbrev pub body_der : Fields → List ℕ
body_der c = version_der c.version ++ (fields_der (skipped c) ++ (tlv 0x30 c.key ++ c.extensions))

-- RFC 5280: a certificate with these fields.
abbrev pub certificate_der : Fields → List ℕ
certificate_der c = tlv 0x30 (tlv 0x30 (body_der c) ++ c.signature)

module _ (m : List ℕ) (end : ℕ) (small : end < 65536) where
  skip_fields-fields_der :
      (fs : List (ℕ × List ℕ)) (p : ℕ)
      → Holds m p (fields_der fs)
      → length (fields_der fs) + p ≤ end
      → skip_fields (length fs) m p end ≡ ok (length (fields_der fs) + p)
  unfolding skip_fields
  skip_fields-fields_der [] p h b = ap ok (omega arith)
  skip_fields-fields_der (f ∷ fs) p h b =
      let field = tlv f.0 f.1 in
      let size = length-append field (fields_der fs) in
      let parts = Holds-append m field (fields_der fs) p h in
      >>=-ok (der_skip_tlv m p end) _ (length field + p)
        (der_skip_tlv-tlv m end small p f.0 f.1 parts.0 (omega arith))
        (skip_fields-fields_der fs (length field + p) parts.1 (omega arith) ∙ ap ok (omega arith))

  -- What follows the version begins with the serial number.
  skip_version-version_der :
      (version : Option (List ℕ)) (rest : List ℕ) (p : ℕ)
      → Holds m p (version_der version ++ (0x02 ∷ rest))
      → length (version_der version ++ (0x02 ∷ rest)) + p ≤ end
      → skip_version m p end ≡ ok (length (version_der version) + p)
  unfolding skip_version
  skip_version-version_der none rest p h b =
      rw (lt→ltb p end (omega arith), read-Holds m 0x02 rest p h) (ap ok (omega arith))
  skip_version-version_der (some value) rest p h b =
      let size = length-append (tlv 0xA0 value) (0x02 ∷ rest) in
      let parts = Holds-append m (tlv 0xA0 value) (0x02 ∷ rest) p h in
      let skip = der_skip_tlv-tlv m end small p 0xA0 value parts.0 (omega arith) in
      rw (lt→ltb p end (omega arith)) (
        >>=-ok (read m p) _ 0xA0 (read-Holds m 0xA0 _ p parts.0)
          (unfold der_skip_tlv in rw (lt→ltb p end (omega arith)) at skip))

-- Where the fields behind the version, and the key, begin.
abbrev past_version : Fields → ℕ → ℕ
past_version c p = length (version_der c.version) + p

abbrev key_at : Fields → ℕ → ℕ
key_at c p = length (fields_der (skipped c)) + past_version c p

module _ (m : List ℕ) (c : Fields) (p : ℕ) (h : Holds m p (body_der c)) where
  behind_version :
      Holds m (past_version c p) (fields_der (skipped c) ++ (tlv 0x30 c.key ++ c.extensions))
  behind_version = (Holds-append m (version_der c.version) _ p h).1

  key-Holds : Holds m (key_at c p) (tlv 0x30 c.key)
  key-Holds =
      (Holds-append m (tlv 0x30 c.key) c.extensions (key_at c p)
        (Holds-append m (fields_der (skipped c)) _ (past_version c p) behind_version).1).0

  length-body_der : length (tlv 0x30 c.key) + key_at c p ≤ length (body_der c) + p
  length-body_der = omega (
    arith,
    length-append (version_der c.version)
        (fields_der (skipped c) ++ (tlv 0x30 c.key ++ c.extensions)),
    length-append (fields_der (skipped c)) (tlv 0x30 c.key ++ c.extensions),
    length-append (tlv 0x30 c.key) c.extensions,
  )

  module _ (end : ℕ) (small : end < 65536) (b : length (body_der c) + p ≤ end) where
    skip_version-body : skip_version m p end ≡ ok (past_version c p)
    skip_version-body = skip_version-version_der m end small c.version _ p h b

    skip_fields-body : skip_fields 5 m (past_version c p) end ≡ ok (key_at c p)
    skip_fields-body =
        skip_fields-fields_der m end small (skipped c) (past_version c p)
          (Holds-append m (fields_der (skipped c)) _ (past_version c p) behind_version).0
          (omega (arith, length-body_der))

    read_key :
        der_read_tlv m (key_at c p) end 0x30
        ≡ ok (length c.key, length (der_len (length c.key)) + suc (key_at c p))
    read_key =
        der_read_tlv-tlv m end small (key_at c p) 0x30 c.key key-Holds
          (omega (arith, length-body_der))

-- In a well-formed certificate of less than 64 kilobytes, with a version or without,
-- BlorgTlsExtractSpkiFromCertificate finds the SubjectPublicKeyInfo, with its tag and its length.
pub extract_spki-certificate_der :
    (c : Fields)
    → length (certificate_der c) < 65536
    → (start : ℕ) × (extract_spki (certificate_der c) ≡ ok (start, length (tlv 0x30 c.key)))
      × (copy (certificate_der c) start (length (tlv 0x30 c.key)) ≡ ok (tlv 0x30 c.key))
unfolding extract_spki
extract_spki-certificate_der c small =
    let m = certificate_der c in
    let inner = tlv 0x30 (body_der c) ++ c.signature in
    let q = length (der_len (length inner)) + suc 0 in
    let p = length (der_len (length (body_der c))) + suc q in
    let whole = Holds-all m in
    let inside = Holds-value m 0 0x30 inner whole in
    let tbs = (Holds-append m (tlv 0x30 (body_der c)) c.signature q inside).0 in
    let body = Holds-value m q 0x30 (body_der c) tbs in
    let len = length-tlv 0x30 inner in
    let len₁ = length-append (tlv 0x30 (body_der c)) c.signature in
    let len₂ = length-tlv 0x30 (body_der c) in
    let len₃ = length-tlv 0x30 c.key in
    let end = p + length (body_der c) in
    let fits : end ≤ length m = omega arith in
    let key_fits = length-body_der m c p body in
    (
      key_at c p,
      >>=-ok (der_read_tlv m 0 (length m) 0x30) _ (length inner, q)
          (der_read_tlv-tlv m (length m) small 0 0x30 inner whole (omega arith))
          (>>=-ok (der_read_tlv m q (length m) 0x30) _ (length (body_der c), p)
            (der_read_tlv-tlv m (length m) small q 0x30 (body_der c) tbs (omega arith))
            (>>=-ok (skip_version m p end) _ (past_version c p)
              (skip_version-body m c p body end (omega arith) (omega arith))
              (>>=-ok (skip_fields 5 m (past_version c p) end) _ (key_at c p)
                (skip_fields-body m c p body end (omega arith) (omega arith))
                (>>=-ok (der_read_tlv m (key_at c p) end 0x30) _
                  (length c.key, length (der_len (length c.key)) + suc (key_at c p))
                  (read_key m c p body end (omega arith) (omega arith))
                  (pair-ok
                    (
                      key_at c p,
                      length (der_len (length c.key))
                          + suc (key_at c p)
                          + length c.key
                          - key_at c p,
                    )
                    (key_at c p, length (tlv 0x30 c.key)) refl (omega arith)))))),
      copy-Holds m (tlv 0x30 c.key) (key_at c p) (omega arith) (key-Holds m c p body),
    )
