-- ===== src/Tls/Signature/RoundTrip.antt =====
-- A signature written out in DER is read back by BlorgTlsParseCertificateVerifyMessage of src/Tls.c.
use blorg_fs.Prelude.{
  ℕ, zero, suc, ◌+◌, ◌-◌, ◌*◌, ◌≤◌, ◌≡◌, refl, sym, ap, ◌∙◌, false, List, [], ◌∷◌, ◌++◌, length,
  length-append, arith, leb, le→leb, ◌==◌, ==_iff, ok, read, copy, require-ok, >>=-ok, read-some,
  pair-ok, Holds, Holds-append, Holds-at, Holds-all, copy-Holds,
}
use blorg_fs.Tls.Wire.{sigalg_ecdsa_secp256r1_sha256, get_uint16, put_uint16, get_uint16-Holds}
use blorg_fs.Tls.Certificate.{der_read_tlv}
use blorg_fs.Tls.Certificate.Der.{
  der_len, tlv, der_read_tlv-tlv, Holds-value, length-tlv, length-der_len,
}
use blorg_fs.Tls.Signature.{repeat, strip_sign, parse_certificate_verify}

-- The number that bytes make, the first the highest.
abbrev pub number : ℕ → List ℕ → ℕ
number n [] = n
number n (b ∷ bs) = number (n * 256 + b) bs

-- The content of a DER INTEGER of up to 256 bits, and the bytes of the number without a sign's zero.
pub data DerInteger : List ℕ → List ℕ → Type 0 where
  plain : {bytes : List ℕ} → 1 ≤ length bytes → length bytes ≤ 32 → DerInteger bytes bytes
  signed : {bytes : List ℕ} → length bytes ≡ 32 → DerInteger (0 ∷ bytes) bytes

abbrev pub pad : List ℕ → List ℕ
pad bytes = repeat (32 - length bytes) 0 ++ bytes

-- RFC 8446 4.4.3: a CertificateVerify message with this signature.
abbrev pub signature_der : List ℕ → List ℕ → List ℕ
signature_der r s = tlv 0x30 (tlv 0x02 r ++ tlv 0x02 s)

abbrev pub certificate_verify : List ℕ → List ℕ → List ℕ
certificate_verify r s =
    put_uint16 sigalg_ecdsa_secp256r1_sha256
    ++ (put_uint16 (length (signature_der r s)) ++ signature_der r s)

number-repeat : (n : ℕ) (bytes : List ℕ) → number 0 (repeat n 0 ++ bytes) ≡ number 0 bytes
number-repeat zero bytes = refl
number-repeat (suc n) bytes = number-repeat n bytes

length-repeat : (n b : ℕ) → length (repeat n b) ≡ n
length-repeat zero b = refl
length-repeat (suc n) b = omega (arith, length-repeat n b)

abbrev pub IsSame : List ℕ → List ℕ → Type 0
IsSame field bytes = (length (pad bytes) ≡ 32) × (number 0 (pad bytes) ≡ number 0 field)

pad-IsSame : {field bytes : List ℕ} → DerInteger field bytes → IsSame field bytes
pad-IsSame (plain {bytes = bytes} h k) = (
  omega (
    arith,
    length-append (repeat (32 - length bytes) 0) bytes,
    length-repeat (32 - length bytes) 0,
  ),
  number-repeat (32 - length bytes) bytes,
)
pad-IsSame (signed {bytes = bytes} h) = (
  omega (
    arith,
    length-append (repeat (32 - length bytes) 0) bytes,
    length-repeat (32 - length bytes) 0,
  ),
  number-repeat (32 - length bytes) bytes,
)

DerInteger-length :
    {field bytes : List ℕ}
    → DerInteger field bytes
    → (1 ≤ length bytes) × (length bytes ≤ 32) × (length field ≤ 33)
DerInteger-length (plain h k) = (h, k, omega arith)
DerInteger-length (signed h) = (omega arith, omega arith, omega arith)

-- What is left once a sign's zero is passed over.
strip_sign-DerInteger :
    (m : List ℕ) (i : ℕ) {field bytes : List ℕ}
    → DerInteger field bytes
    → Holds m i field
    → (j : ℕ) × (strip_sign m i (length field) ≡ ok (j, length bytes))
      × Holds m j bytes
      × (j + length bytes ≡ i + length field)
unfolding strip_sign
strip_sign-DerInteger m i (plain {bytes = bytes} h k) held =
    (i, rw (not_33 (length bytes) k), held, refl)
  where
    not_33 : (n : ℕ) → n ≤ 32 → (n == 33) ≡ false
    not_33 n h = ground arith
strip_sign-DerInteger m i (signed {bytes = bytes} h) held = (
  i + 1,
  rw ((==_iff (suc (length bytes)) 33).1 (omega arith)) (
      >>=-ok (read m i) _ 0 (read-some m i held.0)
        (pair-ok (i + 1, 32) (i + 1, length bytes) refl (sym h))),
  Holds-at m bytes (suc i) (i + 1) (omega arith) held.1,
  omega arith,
)

-- The whole chain of the parser, from what each step gives.
parsed :
    (m : List ℕ) (n : ℕ) (pair rf sf r s : ℕ × ℕ) (ρ σ : List ℕ)
    → get_uint16 m 0 ≡ ok sigalg_ecdsa_secp256r1_sha256
    → get_uint16 m 2 ≡ ok n
    → 4 + n ≡ length m
    → der_read_tlv m 4 (4 + n) 0x30 ≡ ok pair
    → der_read_tlv m pair.1 (pair.1 + pair.0) 0x02 ≡ ok rf
    → der_read_tlv m (rf.1 + rf.0) (pair.1 + pair.0) 0x02 ≡ ok sf
    → strip_sign m rf.1 rf.0 ≡ ok r
    → strip_sign m sf.1 sf.0 ≡ ok s
    → (1 ≤ r.1) × (r.1 ≤ 32)
    → (1 ≤ s.1) × (s.1 ≤ 32)
    → copy m r.0 r.1 ≡ ok ρ
    → copy m s.0 s.1 ≡ ok σ
    → parse_certificate_verify m ≡ ok ((repeat (32 - r.1) 0 ++ ρ) ++ (repeat (32 - s.1) 0 ++ σ))
unfolding parse_certificate_verify
parsed m n pair rf sf r s ρ σ alg len whole ep er es hr hs br bs cr cs =
    require-ok (leb 4 (length m)) _ (le→leb 4 (length m) (omega arith)) (
      >>=-ok (get_uint16 m 0) _ sigalg_ecdsa_secp256r1_sha256 alg (
        >>=-ok (get_uint16 m 2) _ n len (
          require-ok (4 + n == length m) _ ((==_iff (4 + n) (length m)).1 whole) (
            >>=-ok (der_read_tlv m 4 (4 + n) 0x30) _ pair ep (
              >>=-ok (der_read_tlv m pair.1 (pair.1 + pair.0) 0x02) _ rf er (
                >>=-ok (der_read_tlv m (rf.1 + rf.0) (pair.1 + pair.0) 0x02) _ sf es (
                  >>=-ok (strip_sign m rf.1 rf.0) _ r hr (
                    >>=-ok (strip_sign m sf.1 sf.0) _ s hs (
                      require-ok (leb r.1 32) _ (le→leb r.1 32 br.1) (
                        require-ok (leb s.1 32) _ (le→leb s.1 32 bs.1) (
                          require-ok (leb 1 r.1) _ (le→leb 1 r.1 br.0) (
                            require-ok (leb 1 s.1) _ (le→leb 1 s.1 bs.0) (
                              >>=-ok (copy m r.0 r.1) _ ρ cr
                                (>>=-ok (copy m s.0 s.1) _ σ cs refl))))))))))))))

-- From a CertificateVerify message with a signature in DER, BlorgTlsParseCertificateVerifyMessage gives
-- r and s in 32 bytes each, with their values.
pub parse-certificate_verify :
    (r s : List ℕ) {ρ σ : List ℕ}
    → DerInteger r ρ
    → DerInteger s σ
    → (parse_certificate_verify (certificate_verify r s) ≡ ok (pad ρ ++ pad σ))
      × IsSame r ρ
      × IsSame s σ
parse-certificate_verify r s {ρ = ρ} {σ = σ} hr hs =
    let m = certificate_verify r s in
    let sig = signature_der r s in
    let fields = tlv 0x02 r ++ tlv 0x02 s in
    let n = length sig in
    let whole = Holds-all m in
    let lr = DerInteger-length hr in
    let ls = DerInteger-length hs in
    let at_len = Holds-append m (put_uint16 n) sig 2 (whole.1.1) in
    let at_sig : Holds m 4 sig = at_len.1 in
    let p = length (der_len (length fields)) + suc 4 in
    let at_fields =
      Holds-append m (tlv 0x02 r) (tlv 0x02 s) p (Holds-value m 4 0x30 fields at_sig) in
    let q = length (tlv 0x02 r) + p in
    let rp = length (der_len (length r)) + suc p in
    let sp = length (der_len (length s)) + suc q in
    let e₁ = length-tlv 0x30 fields in
    let e₂ = length-append (tlv 0x02 r) (tlv 0x02 s) in
    let e₃ = length-tlv 0x02 r in
    let e₄ = length-tlv 0x02 s in
    let small_r = length-der_len (length r) in
    let small_s = length-der_len (length s) in
    let small_f = length-der_len (length fields) in
    let end = p + length fields in
    let (jr, er, held_r, sum_r) =
      strip_sign-DerInteger m rp hr (Holds-value m p 0x02 r at_fields.0) in
    let (js, es, held_s, sum_s) =
      strip_sign-DerInteger m sp hs (Holds-value m q 0x02 s at_fields.1) in
    let field_s : der_read_tlv m (rp + length r) end 0x02 ≡ ok (length s, sp) =
      ap (λ i. der_read_tlv m i end 0x02) (omega arith)
      ∙ der_read_tlv-tlv m end (omega arith) q 0x02 s at_fields.1 (omega arith) in
    (
      parsed m n (length fields, p) (length r, rp) (length s, sp) (jr, length ρ) (js, length σ) ρ σ
          (get_uint16-Holds m sigalg_ecdsa_secp256r1_sha256 0 (omega arith)
            (whole.0, (whole.1.0, tt)))
          (get_uint16-Holds m n 2 (omega arith) at_len.0) (omega arith)
          (der_read_tlv-tlv m (4 + n) (omega arith) 4 0x30 fields at_sig (omega arith))
          (der_read_tlv-tlv m end (omega arith) p 0x02 r at_fields.0 (omega arith)) field_s er es
          (lr.0, lr.1) (ls.0, ls.1) (copy-Holds m ρ jr (omega arith) held_r)
          (copy-Holds m σ js (omega arith) held_s),
      pad-IsSame hr,
      pad-IsSame hs,
    )
