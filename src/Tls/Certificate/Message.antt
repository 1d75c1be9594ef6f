-- ===== src/Tls/Certificate/Message.antt =====
-- A Certificate message and a P-256 SubjectPublicKeyInfo, written out, and what the parsers of src/Tls.c
-- make of them.
use blorg_fs.Prelude.{
  ℕ, zero, suc, ◌+◌, ◌^◌, ◌≤◌, ◌<◌, ◌≡◌, ◌↔◌, refl, sym, ap, subst, ◌∙◌, Bool, true, false, List,
  [], ◌∷◌, ◌++◌, length, length-append, arith, leb, le→leb, ◌==◌, ==_iff, ==_refl, if◌then◌else◌,
  &&-both, fault, ok, read, copy, take, drop, Holds-at, Holds-append, read-some, Holds-all,
  copy-Holds, >>=-ok, >>=-eq-ok, require-eq-ok, ok-inj, require-ok, length-copy, length-drop,
}
use blorg_fs.Tls.Wire.{put_uint24, get_uint24, get_uint24-Holds, public_key_length, spki_length}
use blorg_fs.Tls.Certificate.{
  parse_certificate_message, encode_spki, decode_spki, spki_header, expected_header, equal_memory,
}

-- RFC 8446 4.4.2: a Certificate message with this leaf, and bytes behind it.
abbrev pub certificate_message : List ℕ → List ℕ → List ℕ → List ℕ
certificate_message context leaf rest =
    length context
    ∷ (context
        ++ (put_uint24 (3 + length leaf + length rest)
            ++ (put_uint24 (length leaf) ++ (leaf ++ rest))))

parsed :
    (m : List ℕ) (c n k : ℕ)
    → read m 0 ≡ ok c
    → get_uint24 m (1 + c) ≡ ok n
    → 3 ≤ n
    → 1 + c + 3 + n ≤ length m
    → get_uint24 m (1 + c + 3) ≡ ok k
    → 1 + c + 6 + k ≤ length m
    → parse_certificate_message m ≡ ok (1 + c + 6, k)
unfolding parse_certificate_message
parsed m c n k context list h l leaf l₁ =
    require-ok (leb 1 (length m)) _ (le→leb 1 (length m) (omega arith)) (
      >>=-ok (read m 0) _ c context (
        require-ok (leb (1 + c + 3) (length m)) _ (le→leb (1 + c + 3) (length m) (omega arith)) (
          >>=-ok (get_uint24 m (1 + c)) _ n list (
            require-ok (leb 3 n) _ (le→leb 3 n h) (
              require-ok (leb (1 + c + 3 + n) (length m)) _ (le→leb (1 + c + 3 + n) (length m) l) (
                >>=-ok (get_uint24 m (1 + c + 3)) _ k leaf (
                  require-ok (leb (1 + c + 6 + k) (length m)) _
                    (le→leb (1 + c + 6 + k) (length m) l₁) refl)))))))

-- In a Certificate message, BlorgTlsParseCertificateMessage finds the leaf.
pub parse-certificate_message :
    (context leaf rest : List ℕ)
    → 3 + length leaf + length rest < 2 ^ 24
    → (offset : ℕ) × (parse_certificate_message (certificate_message context leaf rest)
        ≡ ok (offset, length leaf))
      × (copy (certificate_message context leaf rest) offset (length leaf) ≡ ok leaf)
parse-certificate_message context leaf rest small =
    let m = certificate_message context leaf rest in
    let c = length context in
    let n = 3 + length leaf + length rest in
    let whole = Holds-all m in
    let entry = put_uint24 (length leaf) ++ (leaf ++ rest) in
    let lens = (Holds-append m context (put_uint24 n ++ entry) 1 whole.1).1 in
    let list =
      Holds-append m (put_uint24 n) entry (1 + c)
        (Holds-at m (put_uint24 n ++ entry) (c + 1) (1 + c) (omega arith) lens) in
    let leaf_len =
      Holds-append m (put_uint24 (length leaf)) (leaf ++ rest) (1 + c + 3)
        (Holds-at m entry (3 + (1 + c)) (1 + c + 3) (omega arith) list.1) in
    let body =
      Holds-append m leaf rest (1 + c + 6)
        (Holds-at m (leaf ++ rest) (3 + (1 + c + 3)) (1 + c + 6) (omega arith) leaf_len.1) in
    let size : length m ≡ 1 + c + 6 + (length leaf + length rest) =
      omega (arith, length-append context (put_uint24 n ++ entry), length-append leaf rest) in
    (
      1 + c + 6,
      parsed m c n (length leaf) (read-some m 0 whole.0) (get_uint24-Holds m n (1 + c) small list.0)
          (omega arith) (omega arith)
          (get_uint24-Holds m (length leaf) (1 + c + 3) (omega arith) leaf_len.0) (omega arith),
      copy-Holds m leaf (1 + c + 6) (omega arith) body.0,
    )

equal_memory-prefix : (xs ys : List ℕ) → equal_memory xs (xs ++ ys) ≡ true
equal_memory-prefix [] ys = refl
equal_memory-prefix (x ∷ xs) ys = rw (==_refl x, equal_memory-prefix xs ys)

equal_memory-drop : (xs ys : List ℕ) → equal_memory xs ys ≡ true → xs ++ drop (length xs) ys ≡ ys
equal_memory-drop [] ys h = refl
equal_memory-drop (x ∷ xs) [] h = cc h
equal_memory-drop (x ∷ xs) (y ∷ ys) h =
    let both = &&-both (x == y) (equal_memory xs ys) h in
    cc ((==_iff x y).0 both.0, equal_memory-drop xs ys both.1)

take_all : (n : ℕ) (xs : List ℕ) → length xs ≡ n → take n xs ≡ xs
take_all zero [] h = refl
take_all zero (x ∷ xs) h = absurd (omega arith)
take_all (suc n) [] h = absurd (omega arith)
take_all (suc n) (x ∷ xs) h = ap (λ ys. x ∷ ys) (take_all n xs (omega arith))

copied :
    (der k : List ℕ)
    → copy der 26 public_key_length ≡ ok k
    → length (drop 26 der) ≡ 65
    → k ≡ drop 26 der
unfolding copy
copied der k e h =
    branch (leb (26 + 65) (length der)) (take 65 (drop 26 der)) e ∙ take_all 65 (drop 26 der) h
  where
    branch : (test : Bool) (xs : List ℕ) → (if test then ok xs else fault) ≡ ok k → k ≡ xs
    branch true xs e = sym (ok-inj xs k e)
    branch false xs e = cc e

-- An uncompressed point of P-256.
abbrev pub IsPoint : List ℕ → Type 0
IsPoint key = (length key ≡ public_key_length) × (read key 0 ≡ ok 0x04)

-- BlorgTlsDecodeP256SubjectPublicKeyInfo accepts what BlorgTlsEncodeP256SubjectPublicKeyInfo writes for
-- an uncompressed point, gives that point, and accepts nothing else.
pub decode_spki_iff :
    (der key : List ℕ) → (decode_spki der ≡ ok key) ↔ ((encode_spki key ≡ der) × IsPoint key)
unfolding decode_spki encode_spki
decode_spki_iff der key = (to, from)
  where
    decode_encode : (key : List ℕ) → IsPoint key → decode_spki (spki_header ++ key) ≡ ok key
    decode_encode key h =
        let size = length-append spki_header key in
        let der = spki_header ++ key in
        require-ok (length der == spki_length) _ ((==_iff (length der) spki_length).1 (omega arith))
          (require-ok (equal_memory expected_header der) _ (equal_memory-prefix spki_header key) (
            >>=-ok (copy der 26 public_key_length) _ key
              (ap (λ n. copy der 26 n) (sym h.0)
                ∙ copy-Holds der key 26 (omega arith)
                    (Holds-append der spki_header key 0 (Holds-all der)).1)
              (>>=-ok (read key 0) _ 0x04 h.1 refl)))

    from : (spki_header ++ key ≡ der) × IsPoint key → decode_spki der ≡ ok key
    from h =
        subst (λ (d : List ℕ). decode_spki d ≡ ok key) {x = spki_header ++ key} {y = der} h.0
          (decode_encode key h.1)

    to : decode_spki der ≡ ok key → (spki_header ++ key ≡ der) × IsPoint key
    to e =
        let (size, e₁) = require-eq-ok (length der == spki_length) _ e in
        let (same, e₂) = require-eq-ok (equal_memory expected_header der) _ e₁ in
        let (k, ek, e₃) = >>=-eq-ok (copy der 26 public_key_length) _ e₂ in
        let (b, eb, e₄) = >>=-eq-ok (read k 0) _ e₃ in
        let (four, e₅) = require-eq-ok (b == 0x04) _ e₄ in
        let is_key = ok-inj k key e₅ in
        let whole = equal_memory-drop spki_header der same in
        let len = length-copy der 26 public_key_length ek in
        let n : length der ≡ 91 = (==_iff (length der) spki_length).0 size in
        let tail : length (drop 26 der) ≡ 65 = omega (arith, length-drop 26 der (omega arith)) in
        let rest : k ≡ drop 26 der = copied der k ek tail in
        (
          ap (λ (ys : List ℕ). spki_header ++ ys) (sym is_key ∙ rest) ∙ whole,
          subst IsPoint is_key (len, eb ∙ ap ok ((==_iff b 4).0 four)),
        )
