-- ===== src/Tls/Certificate/Der.antt =====
-- Fields written out in DER, and what TlsDerReadTlv and TlsDerSkipTlv of src/Tls.c make of them.
use blorg_fs.Prelude.{
  ℕ, suc, ◌+◌, ◌-◌, ◌*◌, ◌/◌, ◌%◌, ◌≤◌, ◌<◌, ◌≡◌, refl, sym, ap, List, [], ◌∷◌, ◌++◌, length,
  length-append, inl, inr, arith, ltb, le→leb, lt→ltb, ==_refl, if◌then◌else◌, Bool-cases, ok,
  Holds, Holds-at, Holds-append, read-Holds, pair-ok,
}
use blorg_fs.Tls.Certificate.{long_length, der_length, der_read_tlv, der_skip_tlv}

-- A length in DER, of up to two bytes.
abbrev pub der_len : ℕ → List ℕ
der_len n =
    if ltb n 128 then n ∷ [] else if ltb n 256 then 0x81 ∷ n ∷ [] else 0x82 ∷ n / 256 ∷ n % 256 ∷ []

-- A field in DER: its tag, its length and its value.
abbrev pub tlv : ℕ → List ℕ → List ℕ
tlv tag value = tag ∷ (der_len (length value) ++ value)

suc_eq : (p : ℕ) → suc p ≡ p + 1
suc_eq p = omega arith

module _ (m : List ℕ) (end : ℕ) where
  der_length-der_len :
      (p n : ℕ)
      → n < 65536
      → Holds m p (der_len n)
      → length (der_len n) + p + n ≤ end
      → der_length m p end ≡ ok (n, length (der_len n) + p)
  unfolding der_length long_length
  der_length-der_len p n small = elim (Bool-cases (ltb n 128)) [
    | inl q ↦ rw q (λ h b.
        rw (lt→ltb p end (omega arith), read-Holds m n [] p h, q)
          (pair-ok (n, p + 1) (n, 1 + p) refl (omega arith)))
    | inr q ↦ elim (Bool-cases (ltb n 256)) [
      | inl r ↦
          rw (q, r)
            (λ h b.
              rw
                (
                  lt→ltb p end (omega arith),
                  read-Holds m 0x81 (n ∷ []) p h,
                  le→leb 1 (end - (p + 1)) (omega arith),
                  read-Holds m n [] (p + 1) (Holds-at m (n ∷ []) (suc p) (p + 1) (omega arith) h.1),
                )
                (pair-ok (0 * 256 + n, p + 1 + 1) (n, 2 + p) (omega arith) (omega arith)))
      | inr r ↦
          rw (q, r)
            (λ h b.
              rw
                (
                  lt→ltb p end (omega arith),
                  read-Holds m 0x82 (n / 256 ∷ n % 256 ∷ []) p h,
                  le→leb 2 (end - (p + 1)) (omega arith),
                  read-Holds m (n / 256) (n % 256 ∷ []) (p + 1)
                      (Holds-at m (n / 256 ∷ n % 256 ∷ []) (suc p) (p + 1) (omega arith) h.1),
                  read-Holds m (n % 256) [] (p + 1 + 1)
                      (Holds-at m (n % 256 ∷ []) (suc (suc p)) (p + 1 + 1) (omega arith) h.1.1),
                )
                (pair-ok ((0 * 256 + n / 256) * 256 + n % 256, p + 1 + 2) (n, 3 + p) (omega arith)
                  (omega arith)))
    ]
  ]

  module _ (small : end < 65536) where
    pub der_read_tlv-tlv :
        (p tag : ℕ) (value : List ℕ)
        → Holds m p (tlv tag value)
        → length (tlv tag value) + p ≤ end
        → der_read_tlv m p end tag ≡ ok (length value, length (der_len (length value)) + suc p)
    unfolding der_read_tlv
    der_read_tlv-tlv p tag value h b =
        let n = length value in
        let size = length-append (der_len n) value in
        let len = (Holds-append m (der_len n) value (suc p) h.1).0 in
        rw (
          lt→ltb p end (omega arith),
          read-Holds m tag (der_len n ++ value) p h,
          ==_refl tag,
          sym (suc_eq p),
          der_length-der_len (suc p) n (omega arith) len (omega arith),
          le→leb n (end - (length (der_len n) + suc p)) (omega arith),
        )

    pub der_skip_tlv-tlv :
        (p tag : ℕ) (value : List ℕ)
        → Holds m p (tlv tag value)
        → length (tlv tag value) + p ≤ end
        → der_skip_tlv m p end ≡ ok (length (tlv tag value) + p)
    unfolding der_skip_tlv
    der_skip_tlv-tlv p tag value h b =
        let n = length value in
        let size = length-append (der_len n) value in
        let len = (Holds-append m (der_len n) value (suc p) h.1).0 in
        rw
          (
            lt→ltb p end (omega arith),
            sym (suc_eq p),
            der_length-der_len (suc p) n (omega arith) len (omega arith),
            le→leb n (end - (length (der_len n) + suc p)) (omega arith),
          )
          (ap ok (omega arith))

-- Where the value of a field is.
pub Holds-value :
    (m : List ℕ) (p tag : ℕ) (value : List ℕ)
    → Holds m p (tlv tag value)
    → Holds m (length (der_len (length value)) + suc p) value
Holds-value m p tag value h = (Holds-append m (der_len (length value)) value (suc p) h.1).1

pub length-tlv :
    (tag : ℕ) (value : List ℕ)
    → length (tlv tag value) ≡ suc (length (der_len (length value)) + length value)
length-tlv tag value = omega (arith, length-append (der_len (length value)) value)

pub length-der_len : (n : ℕ) → length (der_len n) ≤ 3
length-der_len n = elim (Bool-cases (ltb n 128)) [
  | inl q ↦ rw q (omega arith)
  | inr q ↦ elim (Bool-cases (ltb n 256)) [
    | inl r ↦ rw (q, r) (omega arith)
    | inr r ↦ rw (q, r) (omega arith)
  ]
]
