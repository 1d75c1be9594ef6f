-- ===== src/Tls/Wire.antt =====
-- Numbers on the wire, and the wire constants of src/Tls.c and src/Tls.h.
use blorg_fs.Prelude.{
  ℕ, ◌+◌, ◌*◌, ◌/◌, ◌%◌, ◌^◌, ◌≤◌, ◌<◌, ◌≡◌, ◌≢◌, List, [], ◌∷◌, length, Outcome, ok, fault, ◌>>=◌,
  read, >>=-ne-fault, read-ne-fault, arith, suc, ap, Holds, Holds-at, read-some, >>=-ok,
}

abbrev pub random_length : ℕ
random_length = 32

abbrev pub coordinate_length : ℕ
coordinate_length = 32

abbrev pub public_key_length : ℕ
public_key_length = 65

abbrev pub hash_length : ℕ
hash_length = 32

abbrev pub iv_length : ℕ
iv_length = 12

abbrev pub spki_length : ℕ
spki_length = 91

abbrev pub ext_server_name : ℕ
ext_server_name = 0x0000

abbrev pub ext_supported_groups : ℕ
ext_supported_groups = 0x000A

abbrev pub ext_signature_algorithms : ℕ
ext_signature_algorithms = 0x000D

abbrev pub ext_supported_versions : ℕ
ext_supported_versions = 0x002B

abbrev pub ext_key_share : ℕ
ext_key_share = 0x0033

abbrev pub group_secp256r1 : ℕ
group_secp256r1 = 0x0017

abbrev pub cipher_suite_aes_128_gcm_sha256 : ℕ
cipher_suite_aes_128_gcm_sha256 = 0x1301

abbrev pub sigalg_ecdsa_secp256r1_sha256 : ℕ
sigalg_ecdsa_secp256r1_sha256 = 0x0403

abbrev pub version_1_3 : ℕ
version_1_3 = 0x0304

abbrev pub IsByte : ℕ → Type 0
IsByte b = b < 256

-- TlsPutUint16: what it writes.
abbrev pub put_uint16 : ℕ → List ℕ
put_uint16 v = v / 256 % 256 ∷ v % 256 ∷ []

-- TlsPutUint24
abbrev pub put_uint24 : ℕ → List ℕ
put_uint24 v = v / 65536 % 256 ∷ v / 256 % 256 ∷ v % 256 ∷ []

-- TlsGetUint16. On bytes the source's `|` adds.
unfoldable pub get_uint16 : List ℕ → ℕ → Outcome ℕ
get_uint16 m i = do a ← read m i; b ← read m (i + 1); ok (a * 256 + b)

-- The 24-bit lengths of a Certificate message.
unfoldable pub get_uint24 : List ℕ → ℕ → Outcome ℕ
get_uint24 m i = do
  a ← read m i
  b ← read m (i + 1)
  c ← read m (i + 2)
  ok (a * 65536 + b * 256 + c)

pub get_uint16-ne-fault : (m : List ℕ) (i : ℕ) → i + 2 ≤ length m → get_uint16 m i ≢ fault
unfolding get_uint16
get_uint16-ne-fault m i h =
    >>=-ne-fault (read m i) _ (read-ne-fault m i (omega arith)) (λ a _.
      >>=-ne-fault (read m (i + 1)) _ (read-ne-fault m (i + 1) (omega arith)) (λ b _ e. cc e))

pub get_uint24-ne-fault : (m : List ℕ) (i : ℕ) → i + 3 ≤ length m → get_uint24 m i ≢ fault
unfolding get_uint24
get_uint24-ne-fault m i h = >>=-ne-fault (read m i) _ (read-ne-fault m i (omega arith)) (λ a _.
    >>=-ne-fault (read m (i + 1)) _ (read-ne-fault m (i + 1) (omega arith)) (λ b _.
      >>=-ne-fault (read m (i + 2)) _ (read-ne-fault m (i + 2) (omega arith)) (λ c _ e. cc e)))

-- A number that was written is read back.
pub get_uint16-Holds :
    (m : List ℕ) (n i : ℕ) → n < 2 ^ 16 → Holds m i (put_uint16 n) → get_uint16 m i ≡ ok n
unfolding get_uint16
get_uint16-Holds m n i small h = >>=-ok (read m i) _ (n / 256 % 256) (read-some m i h.0) (
    >>=-ok (read m (i + 1)) _ (n % 256)
      (read-some m (i + 1) (Holds-at m (n % 256 ∷ []) (suc i) (i + 1) (omega arith) h.1).0)
      (ap ok (omega arith)))

pub get_uint24-Holds :
    (m : List ℕ) (n i : ℕ) → n < 2 ^ 24 → Holds m i (put_uint24 n) → get_uint24 m i ≡ ok n
unfolding get_uint24
get_uint24-Holds m n i small h = >>=-ok (read m i) _ (n / 65536 % 256) (read-some m i h.0) (
    >>=-ok (read m (i + 1)) _ (n / 256 % 256)
      (read-some m (i + 1)
        (Holds-at m (n / 256 % 256 ∷ n % 256 ∷ []) (suc i) (i + 1) (omega arith) h.1).0)
      (>>=-ok (read m (i + 2)) _ (n % 256)
        (read-some m (i + 2)
          (Holds-at m (n % 256 ∷ []) (suc (suc i)) (i + 2) (omega arith) h.1.1).0)
        (ap ok (omega arith))))
