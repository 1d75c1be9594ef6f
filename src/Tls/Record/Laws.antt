-- ===== src/Tls/Record/Laws.antt =====
-- What the record layer's helpers of src/Tls.c do.
use Prim.Native.Nat.{bit_or, bit_xor}
use blorg_fs.Prelude.{
  ℕ, zero, suc, ◌+◌, ◌/◌, ◌^◌, ◌≤◌, ◌<◌, ◌≡◌, ◌≢◌, refl, ap, ◌∙◌, Bool, false, ◌&&◌, List, [], ◌∷◌,
  ◌++◌, length, length-append, All, arith, ◌==◌, if◌then◌else◌, Bool-cases, inl, inr, take, drop,
  fault, ok, ◌>>=◌, read, >>=-ne-fault, read-ne-fault, read-some, Holds, Holds-append, Holds-all,
  bit_xor-zero, bit_or-zero, byte_range, bit_xor-inj, length-drop,
}
use blorg_fs.Tls.Wire.{IsByte}
use blorg_fs.Tls.Certificate.{equal_memory}
use blorg_fs.Tls.Record.{
  differences, constant_time_equal, strip_from, strip_inner_plaintext, seq_byte, xor_seq,
  build_nonce,
}

&&-assoc : (a b c : Bool) → (a && b) && c ≡ a && (b && c)
&&-assoc a b c = ground arith

zero_eq : (d : ℕ) → (0 == d) ≡ (d == 0)
zero_eq d = ground arith

differences-eq :
    (n : ℕ) (xs ys : List ℕ) (diff : ℕ)
    → n ≤ length xs
    → n ≤ length ys
    → All IsByte xs
    → All IsByte ys
    → diff < 256
    → (differences n xs ys diff >>= λ d. ok (0 == d))
      ≡ ok ((diff == 0) && equal_memory (take n xs) ys)
unfolding differences
differences-eq zero xs ys diff h k hx hy s = ap ok (zero_eq diff ∙ ground arith)
differences-eq (suc n) [] ys diff h k hx hy s = absurd (omega arith)
differences-eq (suc n) (x ∷ xs) [] diff h k hx hy s = absurd (omega arith)
differences-eq (suc n) (x ∷ xs) (y ∷ ys) diff h k hx hy s =
    differences-eq n xs ys (bit_or diff (bit_xor x y)) (omega arith) (omega arith) hx.1 hy.1
      (byte_range diff (bit_xor x y) s (byte_range x y hx.0 hy.0).1).0
    ∙ ap ok (
        rw
          (
            bit_or-zero diff (bit_xor x y) s (byte_range x y hx.0 hy.0).1,
            bit_xor-zero x y hx.0 hy.0,
          )
          (&&-assoc (diff == 0) (x == y) (equal_memory (take n xs) ys)))

-- On bytes, BlorgTlsConstantTimeEqual, which never stops early, gives what a comparison of the two
-- buffers gives.
pub constant_time_equal-eq :
    (n : ℕ) (xs ys : List ℕ)
    → n ≤ length xs
    → n ≤ length ys
    → All IsByte xs
    → All IsByte ys
    → constant_time_equal xs ys n ≡ ok (equal_memory (take n xs) ys)
unfolding constant_time_equal
constant_time_equal-eq n xs ys h k hx hy = differences-eq n xs ys 0 h k hx hy (omega arith)

abbrev pub zeros : ℕ → List ℕ
zeros zero = []
zeros (suc n) = 0 ∷ zeros n

length-zeros : (n : ℕ) → length (zeros n) ≡ n
length-zeros zero = refl
length-zeros (suc n) = omega (arith, length-zeros n)

zeros_at : (m : List ℕ) (k i j : ℕ) → Holds m i (zeros k) → j < k → read m (i + j) ≡ ok 0
zeros_at m zero i j h lt = absurd (omega arith)
zeros_at m (suc k) i zero h lt = ap (read m) (omega arith) ∙ read-some m i h.0
zeros_at m (suc k) i (suc j) h lt =
    ap (read m) (omega arith) ∙ zeros_at m k (suc i) j h.1 (omega arith)

strip_step :
    (m : List ℕ) (i b : ℕ)
    → read m i ≡ ok b
    → strip_from m (suc i) ≡ (if b == 0 then strip_from m i else ok (b, i))
unfolding strip_from
strip_step m i b e = ap (λ o. o >>= λ b. if b == 0 then strip_from m i else ok (b, i)) e

strip_zeros :
    (m : List ℕ) (k i type : ℕ)
    → (type == 0) ≡ false
    → read m i ≡ ok type
    → ((j : ℕ) → j < k → read m (suc i + j) ≡ ok 0)
    → strip_from m (suc i + k) ≡ ok (type, i)
strip_zeros m zero i type ne e h =
    ap (strip_from m) (omega arith)
    ∙ strip_step m i type e
    ∙ ap (λ t. if t then strip_from m i else ok (type, i)) ne
strip_zeros m (suc k) i type ne e h =
    ap (strip_from m) (omega arith)
    ∙ strip_step m (suc i + k) 0 (h k (omega arith))
    ∙ strip_zeros m k i type ne e (λ j lt. h j (omega arith))

-- From a record's content, its type, which is not zero, and any padding, BlorgTlsStripInnerPlaintext
-- gives the type back and the length of the content.
pub strip_inner_plaintext-append :
    (content : List ℕ) (type k : ℕ)
    → type ≢ 0
    → strip_inner_plaintext (content ++ (type ∷ zeros k)) ≡ ok (type, length content)
unfolding strip_inner_plaintext
strip_inner_plaintext-append content type k ne =
    let m = content ++ (type ∷ zeros k) in
    let rest = (Holds-append m content (type ∷ zeros k) 0 (Holds-all m)).1 in
    ap (strip_from m) (omega (arith, length-append content (type ∷ zeros k), length-zeros k))
    ∙ strip_zeros m k (length content) type (not_zero type ne)
        (ap (read m) (omega arith) ∙ read-some m (length content + 0) rest.0)
        (λ j lt. ap (read m) (omega arith) ∙ zeros_at m k (suc (length content + 0)) j rest.1 lt)
  where
    not_zero : (n : ℕ) → n ≢ 0 → (n == 0) ≡ false
    not_zero n h = ground arith

strip_from-ne-fault : (m : List ℕ) (i : ℕ) → i ≤ length m → strip_from m i ≢ fault
unfolding strip_from
strip_from-ne-fault m zero h = λ e. cc e
strip_from-ne-fault m (suc i) h =
    >>=-ne-fault (read m i) _ (read-ne-fault m i (omega arith)) (λ b _. elim (Bool-cases (b == 0)) [
      | inl p ↦ rw p (strip_from-ne-fault m i (omega arith))
      | inr p ↦ rw p (λ e. cc e)
    ])

-- Whatever was decrypted, BlorgTlsStripInnerPlaintext reads nothing outside it.
pub strip_inner_plaintext-ne-fault : (m : List ℕ) → strip_inner_plaintext m ≢ fault
unfolding strip_inner_plaintext
strip_inner_plaintext-ne-fault m = strip_from-ne-fault m (length m) (omega arith)

xor_seq-inj :
    (i : ℕ) (bs : List ℕ) (a b : ℕ)
    → All IsByte bs
    → xor_seq i bs a ≡ xor_seq i bs b
    → (j : ℕ) → j < length bs
    → seq_byte a (i + j) ≡ seq_byte b (i + j)
unfolding xor_seq
xor_seq-inj i [] a b h e j lt = absurd (omega arith)
xor_seq-inj i (x ∷ bs) a b h e zero lt =
    ap (seq_byte a) (omega arith)
    ∙ bit_xor-inj x (seq_byte a i) (seq_byte b i) h.0 (omega arith) (omega arith) (heads e)
    ∙ ap (seq_byte b) (omega arith)
  where
    heads : {x y : ℕ} {xs ys : List ℕ} → x ∷ xs ≡ y ∷ ys → x ≡ y
    heads e = cc e
xor_seq-inj i (x ∷ bs) a b h e (suc j) lt =
    ap (seq_byte a) (omega arith)
    ∙ xor_seq-inj (suc i) bs a b h.1 (tails e) j (omega arith)
    ∙ ap (seq_byte b) (omega arith)
  where
    tails : {x y : ℕ} {xs ys : List ℕ} → x ∷ xs ≡ y ∷ ys → xs ≡ ys
    tails e = cc e

-- Eight bytes tell a 64-bit number.
bytes_tell :
    (a b : ℕ) → a < 2 ^ 64 → b < 2 ^ 64 → ((j : ℕ) → j < 8 → seq_byte a j ≡ seq_byte b j) → a ≡ b
bytes_tell a b s t h =
    let d₀ : a / 2 ^ 56 ≡ b / 2 ^ 56 = omega (arith, h 0 (omega arith)) in
    let d₁ : a / 2 ^ 48 ≡ b / 2 ^ 48 = omega (arith, h 1 (omega arith)) in
    let d₂ : a / 2 ^ 40 ≡ b / 2 ^ 40 = omega (arith, h 2 (omega arith)) in
    let d₃ : a / 2 ^ 32 ≡ b / 2 ^ 32 = omega (arith, h 3 (omega arith)) in
    let d₄ : a / 2 ^ 24 ≡ b / 2 ^ 24 = omega (arith, h 4 (omega arith)) in
    let d₅ : a / 2 ^ 16 ≡ b / 2 ^ 16 = omega (arith, h 5 (omega arith)) in
    let d₆ : a / 2 ^ 8 ≡ b / 2 ^ 8 = omega (arith, h 6 (omega arith)) in
    omega (arith, h 7 (omega arith))

append-cancel : (xs : List ℕ) {ys zs : List ℕ} → xs ++ ys ≡ xs ++ zs → ys ≡ zs
append-cancel [] e = e
append-cancel (x ∷ xs) e = append-cancel xs (tails e)
  where
    tails : {x y : ℕ} {xs ys : List ℕ} → x ∷ xs ≡ y ∷ ys → xs ≡ ys
    tails e = cc e

All-drop : (n : ℕ) (xs : List ℕ) → All IsByte xs → All IsByte (drop n xs)
All-drop zero xs h = h
All-drop (suc n) [] h = h
All-drop (suc n) (x ∷ xs) h = All-drop n xs h.1

build_nonce-inj :
    (iv : List ℕ) (a b : ℕ)
    → length iv ≡ 12
    → All IsByte iv
    → a < 2 ^ 64
    → b < 2 ^ 64
    → build_nonce iv a ≡ build_nonce iv b
    → a ≡ b
unfolding build_nonce
build_nonce-inj iv a b size bytes s t e =
    let low = append-cancel (take 4 iv) e in
    let n = length-drop 4 iv (omega arith) in
    bytes_tell a b s t (λ j lt.
      ap (seq_byte a) (omega arith)
      ∙ xor_seq-inj 0 (drop 4 iv) a b (All-drop 4 iv bytes) low j (omega arith)
      ∙ ap (seq_byte b) (omega arith))

-- Under one IV of twelve bytes, two different sequence numbers of 64 bits give different nonces.
pub build_nonce-ne :
    (iv : List ℕ) (a b : ℕ)
    → length iv ≡ 12
    → All IsByte iv
    → a < 2 ^ 64
    → b < 2 ^ 64
    → a ≢ b
    → build_nonce iv a ≢ build_nonce iv b
build_nonce-ne iv a b size bytes s t h e = h (build_nonce-inj iv a b size bytes s t e)

differences-ne-fault :
    (n : ℕ) (xs ys : List ℕ) (diff : ℕ)
    → n ≤ length xs
    → n ≤ length ys
    → differences n xs ys diff ≢ fault
unfolding differences
differences-ne-fault zero xs ys diff h k = λ e. cc e
differences-ne-fault (suc n) [] ys diff h k = absurd (omega arith)
differences-ne-fault (suc n) (x ∷ xs) [] diff h k = absurd (omega arith)
differences-ne-fault (suc n) (x ∷ xs) (y ∷ ys) diff h k =
    differences-ne-fault n xs ys (bit_or diff (bit_xor x y)) (omega arith) (omega arith)

pub constant_time_equal-ne-fault :
    (n : ℕ) (xs ys : List ℕ) → n ≤ length xs → n ≤ length ys → constant_time_equal xs ys n ≢ fault
unfolding constant_time_equal
constant_time_equal-ne-fault n xs ys h k =
    >>=-ne-fault (differences n xs ys 0) _ (differences-ne-fault n xs ys 0 h k) (λ d _ e. cc e)
