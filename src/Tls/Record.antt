-- ===== src/Tls/Record.antt =====
-- BlorgTlsConstantTimeEqual, BlorgTlsStripInnerPlaintext and TlsBuildNonce of src/Tls.c.
use Prim.Native.Nat.{bit_or, bit_xor}
pub mod Laws
use blorg_fs.Prelude.{
  ℕ, zero, suc, ◌+◌, ◌-◌, ◌*◌, ◌/◌, ◌%◌, ◌^◌, Bool, List, [], ◌∷◌, ◌++◌, length, ◌==◌,
  if◌then◌else◌, take, drop, Outcome, fault, refused, ok, ◌>>=◌, read,
}

-- The loop: what has differed so far.
unfoldable pub differences : ℕ → List ℕ → List ℕ → ℕ → Outcome ℕ
differences zero xs ys diff = ok diff
differences (suc n) (x ∷ xs) (y ∷ ys) diff = differences n xs ys (bit_or diff (bit_xor x y))
differences (suc n) [] ys diff = fault
differences (suc n) (x ∷ xs) [] diff = fault

-- BlorgTlsConstantTimeEqual
unfoldable pub constant_time_equal : List ℕ → List ℕ → ℕ → Outcome Bool
unfolding differences
constant_time_equal xs ys len = do diff ← differences len xs ys 0; ok (0 == diff)

-- BlorgTlsStripInnerPlaintext, from the end: the content's type, and its length.
unfoldable pub strip_from : List ℕ → ℕ → Outcome (ℕ × ℕ)
unfolding read
strip_from m zero = refused
strip_from m (suc i) =
    let rest = strip_from m i in (do b ← read m i; if b == 0 then rest else ok (b, i))

unfoldable pub strip_inner_plaintext : List ℕ → Outcome (ℕ × ℕ)
unfolding strip_from
strip_inner_plaintext m = strip_from m (length m)

-- The byte of a sequence number that goes into the nonce's byte 4 + i.
abbrev pub seq_byte : ℕ → ℕ → ℕ
seq_byte seq i = seq / 2 ^ (8 * (7 - i)) % 256

unfoldable pub xor_seq : ℕ → List ℕ → ℕ → List ℕ
xor_seq i [] seq = []
xor_seq i (b ∷ bs) seq = bit_xor b (seq_byte seq i) ∷ xor_seq (suc i) bs seq

-- TlsBuildNonce: the last eight bytes of the IV take up the sequence number.
unfoldable pub build_nonce : List ℕ → ℕ → List ℕ
unfolding xor_seq
build_nonce iv seq = take 4 iv ++ xor_seq 0 (drop 4 iv) seq
