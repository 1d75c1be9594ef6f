-- ===== src/Tls/Signature/Laws.antt =====
-- What BlorgTlsParseCertificateVerifyMessage of src/Tls.c reads, and what it makes of a signature.
use blorg_fs.Prelude.{
  ℕ, ◌+◌, ◌≤◌, ◌≡◌, ◌≢◌, inl, inr, Bool, true, false, List, ◌∷◌, ◌++◌, length, arith, ◌==◌, ==_iff,
  if◌then◌else◌, Bool-cases, fault, ok, read, copy, >>=-eq-ok, >>=-ne-fault, require-ne-fault,
  require-leb, read-ne-fault, copy-ne-fault, ok-pair,
}
use blorg_fs.Tls.Wire.{sigalg_ecdsa_secp256r1_sha256, get_uint16, get_uint16-ne-fault}
use blorg_fs.Tls.Certificate.{der_read_tlv}
use blorg_fs.Tls.Certificate.Safe.{der_read_tlv-ne-fault, der_read_tlv-Ends}
use blorg_fs.Tls.Signature.{
  repeat, strip_sign, parse_certificate_verify, context_string, cert_verify_content,
}

strip_sign-ne-fault :
    (m : List ℕ) (start len : ℕ) → start + len ≤ length m → strip_sign m start len ≢ fault
unfolding strip_sign
strip_sign-ne-fault m start len h = elim (Bool-cases (len == 33)) [
  | inr p ↦ rw p (λ e. cc e)
  | inl p ↦ rw p (
      >>=-ne-fault (read m start) _ (read-ne-fault m start (ground arith))
        (λ b _. elim (Bool-cases (b == 0)) [ inl q ↦ rw q (λ e. cc e) | inr q ↦ rw q (λ e. cc e) ]))
]

strip_sign-le :
    (m : List ℕ) (start len : ℕ) (h : ℕ × ℕ)
    → strip_sign m start len ≡ ok h
    → h.0 + h.1 ≤ start + len
unfolding strip_sign
strip_sign-le m start len h = elim (Bool-cases (len == 33)) [
  | inr p ↦ rw p (λ e. omega (arith, ok-pair (start, len) h e))
  | inl p ↦ rw p (λ e.
      let (b, _, e₁) = >>=-eq-ok (read m start) _ e in stripped (b == 0) e₁ ((==_iff len 33).0 p))
]
  where
    stripped :
        (zero_first : Bool)
        → (if zero_first then ok (start + 1, 32) else ok (start, 33)) ≡ ok h
        → len ≡ 33
        → h.0 + h.1 ≤ start + len
    stripped true e l = omega (arith, ok-pair (start + 1, 32) h e)
    stripped false e l = omega (arith, ok-pair (start, 33) h e)

-- Whatever the server sends, BlorgTlsParseCertificateVerifyMessage reads nothing outside the message.
pub parse_certificate_verify-ne-fault : (m : List ℕ) → parse_certificate_verify m ≢ fault
unfolding parse_certificate_verify
parse_certificate_verify-ne-fault m = require-leb 4 (length m) _ (λ l.
    >>=-ne-fault (get_uint16 m 0) _ (get_uint16-ne-fault m 0 (omega arith)) (λ algorithm _.
      require-ne-fault (algorithm == sigalg_ecdsa_secp256r1_sha256) _ (λ _.
        >>=-ne-fault (get_uint16 m 2) _ (get_uint16-ne-fault m 2 (omega arith)) (λ n _.
          require-ne-fault (4 + n == length m) _ (λ e.
            let whole : 4 + n ≡ length m = (==_iff (4 + n) (length m)).0 e in
            >>=-ne-fault (der_read_tlv m 4 (4 + n) 0x30) _
              (der_read_tlv-ne-fault m 4 (4 + n) 0x30 (omega arith))
              (λ pair ep.
                let end = pair.1 + pair.0 in
                let within = der_read_tlv-Ends m 4 (4 + n) 0x30 pair ep in
                >>=-ne-fault (der_read_tlv m pair.1 end 0x02) _
                  (der_read_tlv-ne-fault m pair.1 end 0x02 (omega arith))
                  (λ rf er.
                    let r_within = der_read_tlv-Ends m pair.1 end 0x02 rf er in
                    >>=-ne-fault (der_read_tlv m (rf.1 + rf.0) end 0x02) _
                      (der_read_tlv-ne-fault m (rf.1 + rf.0) end 0x02 (omega arith))
                      (λ sf es.
                        let s_within = der_read_tlv-Ends m (rf.1 + rf.0) end 0x02 sf es in
                        >>=-ne-fault (strip_sign m rf.1 rf.0) _
                          (strip_sign-ne-fault m rf.1 rf.0 (omega arith))
                          (λ r hr.
                            >>=-ne-fault (strip_sign m sf.1 sf.0) _
                              (strip_sign-ne-fault m sf.1 sf.0 (omega arith))
                              (λ s hs. require-leb r.1 32 _ (λ _. require-leb s.1 32 _ (λ _.
                                require-leb 1 r.1 _ (λ _. require-leb 1 s.1 _ (λ _.
                                  >>=-ne-fault (copy m r.0 r.1) _
                                    (copy-ne-fault m r.0 r.1
                                      (omega (arith, strip_sign-le m rf.1 rf.0 r hr)))
                                    (λ _ _.
                                      >>=-ne-fault (copy m s.0 s.1) _
                                        (copy-ne-fault m s.0 s.1
                                          (omega (arith, strip_sign-le m sf.1 sf.0 s hs)))
                                        (λ _ _ z. cc z))))))))))))))))

pub cert_verify_content-ne-fault : (hash : List ℕ) → cert_verify_content hash ≢ fault
unfolding cert_verify_content
cert_verify_content-ne-fault hash =
    require-ne-fault (length (repeat 64 0x20 ++ (context_string ++ (0x00 ∷ hash))) == 130) _
      (λ _ e. cc e)
