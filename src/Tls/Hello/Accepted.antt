-- ===== src/Tls/Hello/Accepted.antt =====
-- What a ServerHello that BlorgTlsParseServerHello of src/Tls.c accepts says.
use blorg_fs.Prelude.{
  ℕ, zero, suc, ◌+◌, ◌≡◌, ◌≤◌, leb→le, arith, sym, ap, ◌∙◌, subst, true, false, ◌&&◌, List, [],
  length, inl, inr, leb, ◌==◌, ==_iff, Bool-cases, Outcome, ok, read, copy, require-eq-ok,
  >>=-eq-ok, &&-both, ok-pair,
}
use blorg_fs.Tls.Wire.{
  public_key_length, ext_supported_versions, ext_key_share, get_uint16, random_length,
  group_secp256r1, version_1_3, cipher_suite_aes_128_gcm_sha256,
}
use blorg_fs.Tls.Hello.{Extensions, parse_extension, parse_extensions, parse_server_hello}

-- Where the extensions of a block start: at the block's first byte, and behind each extension that
-- the block has room for, by its two bytes of type, two of length and its content.
pub data ExtensionAt (m : List ℕ) (start end : ℕ) : ℕ → Type 0 where
  first : ExtensionAt m start end start
  next :
      {at : ℕ} (len : ℕ)
      → ExtensionAt m start end at
      → get_uint16 m (at + 2) ≡ ok len
      → at + 4 + len ≤ end
      → ExtensionAt m start end (at + 4 + len)

-- One of the block's extensions selects TLS 1.3.
pub record HasVersion (m : List ℕ) (start end : ℕ) : Type 0 where
  pub at : ℕ
  pub walked : ExtensionAt m start end at
  pub type : get_uint16 m at ≡ ok ext_supported_versions
  pub len : get_uint16 m (at + 2) ≡ ok 2
  pub inside : at + 4 + 2 ≤ end
  pub selected : get_uint16 m (at + 4) ≡ ok version_1_3

-- One of the block's extensions has this key: an uncompressed point of the curve P-256.
pub record HasKey (m : List ℕ) (start end : ℕ) (point : List ℕ) : Type 0 where
  pub at : ℕ
  pub walked : ExtensionAt m start end at
  pub type : get_uint16 m at ≡ ok ext_key_share
  pub len : get_uint16 m (at + 2) ≡ ok 69
  pub inside : at + 4 + 69 ≤ end
  pub group : get_uint16 m (at + 4) ≡ ok group_secp256r1
  pub key_length : get_uint16 m (at + 4 + 2) ≡ ok public_key_length
  pub key : copy m (at + 4 + 4) public_key_length ≡ ok point
  pub uncompressed : read point 0 ≡ ok 0x04

record Shown (m : List ℕ) (start end : ℕ) (s : Extensions) : Type 0 where
  pub version : s.version ≡ true → HasVersion m start end
  pub key : s.key ≡ true → HasKey m start end s.public_key

-- A read number that passes a test is the number tested for.
exactly : (o : Outcome ℕ) (a b : ℕ) → o ≡ ok a → (a == b) ≡ true → o ≡ ok b
exactly o a b e t = e ∙ ap ok ((==_iff a b).0 t)

version-Shown :
    (m : List ℕ) (start end i len : ℕ) (s s' : Extensions)
    → ExtensionAt m start end i
    → i + 4 + len ≤ end
    → get_uint16 m i ≡ ok ext_supported_versions
    → get_uint16 m (i + 2) ≡ ok len
    → Shown m start end s
    → parse_extension m ext_supported_versions (i + 4) len s ≡ ok s'
    → Shown m start end s'
unfolding parse_extension
version-Shown m start end i len s s' w fits et el h e =
    let (two, e₁) = require-eq-ok (len == 2) _ e in
    let (v, ev, e₂) = >>=-eq-ok (get_uint16 m (i + 4)) _ e₁ in
    let (same, e₃) = require-eq-ok (v == version_1_3) _ e₂ in
    subst (Shown m start end) {x = record s { version = true }} {y = s'} (cc e₃) (record {
      version = λ _. record {
        at = i;
        walked = w;
        type = et;
        len = exactly _ len 2 el two;
        inside = ground arith;
        selected = exactly _ v version_1_3 ev same;
      };
      key = h.key;
    })

key-Shown :
    (m : List ℕ) (start end i len : ℕ) (s s' : Extensions)
    → ExtensionAt m start end i
    → i + 4 + len ≤ end
    → get_uint16 m i ≡ ok ext_key_share
    → get_uint16 m (i + 2) ≡ ok len
    → Shown m start end s
    → parse_extension m ext_key_share (i + 4) len s ≡ ok s'
    → Shown m start end s'
unfolding parse_extension
key-Shown m start end i len s s' w fits et el h e =
    let (size, e₁) = require-eq-ok (len == 2 + 2 + public_key_length) _ e in
    let (g, eg, e₂) = >>=-eq-ok (get_uint16 m (i + 4)) _ e₁ in
    let (group, e₃) = require-eq-ok (g == group_secp256r1) _ e₂ in
    let (l, ekl, e₄) = >>=-eq-ok (get_uint16 m (i + 4 + 2)) _ e₃ in
    let (same, e₅) = require-eq-ok (l == public_key_length) _ e₄ in
    let (key, ek, e₆) = >>=-eq-ok (copy m (i + 4 + 4) public_key_length) _ e₅ in
    let (b, eb, e₇) = >>=-eq-ok (read key 0) _ e₆ in
    let (four, e₈) = require-eq-ok (b == 0x04) _ e₇ in
    subst (Shown m start end) {x = record s { key = true; public_key = key }} {y = s'} (cc e₈)
      (record {
        version = h.version;
        key = λ _. record {
          at = i;
          walked = w;
          type = et;
          len = exactly _ len 69 el size;
          inside = ground arith;
          group = exactly _ g group_secp256r1 eg group;
          key_length = exactly _ l public_key_length ekl same;
          key = ek;
          uncompressed = exactly _ b 0x04 eb four;
        };
      })

parse_extension-Shown :
    (m : List ℕ) (start end type i len : ℕ) (s s' : Extensions)
    → ExtensionAt m start end i
    → i + 4 + len ≤ end
    → get_uint16 m i ≡ ok type
    → get_uint16 m (i + 2) ≡ ok len
    → Shown m start end s
    → parse_extension m type (i + 4) len s ≡ ok s'
    → Shown m start end s'
parse_extension-Shown m start end type i len s s' w fits et el h e =
    elim (Bool-cases (type == ext_supported_versions)) [
      | inl p ↦
          let same : type ≡ ext_supported_versions = (==_iff type ext_supported_versions).0 p in
          version-Shown m start end i len s s' w fits (et ∙ ap ok same) el h
            (ap (λ t. parse_extension m t (i + 4) len s) (sym same) ∙ e)
      | inr p ↦ elim (Bool-cases (type == ext_key_share)) [
        | inl q ↦
            let same : type ≡ ext_key_share = (==_iff type ext_key_share).0 q in
            key-Shown m start end i len s s' w fits (et ∙ ap ok same) el h
              (ap (λ t. parse_extension m t (i + 4) len s) (sym same) ∙ e)
        | inr q ↦ subst (Shown m start end) {x = s} {y = s'} (other p q e) h
      ]
    ]
  where
    other :
        (type == ext_supported_versions) ≡ false
        → (type == ext_key_share) ≡ false
        → parse_extension m type (i + 4) len s ≡ ok s'
        → s ≡ s'
    other p q e = unfold parse_extension in cc (p, q, e)

parse_extensions-Shown :
    (fuel : ℕ) (m : List ℕ) (start i end : ℕ) (s s' : Extensions)
    → ExtensionAt m start end i
    → Shown m start end s
    → parse_extensions fuel m i end s ≡ ok s'
    → Shown m start end s'
unfolding parse_extensions
parse_extensions-Shown zero m start i end s s' w h = elim (Bool-cases (leb (i + 4) end)) [
  | inl p ↦ rw p (λ e. cc e)
  | inr p ↦ rw p (λ e. subst (Shown m start end) {x = s} {y = s'} (cc e) h)
]
parse_extensions-Shown (suc fuel) m start i end s s' w h = elim (Bool-cases (leb (i + 4) end)) [
  | inr p ↦ rw p (λ e. subst (Shown m start end) {x = s} {y = s'} (cc e) h)
  | inl p ↦ rw p (λ e.
      let (type, et, e₁) = >>=-eq-ok (get_uint16 m i) _ e in
      let (len, el, e₂) = >>=-eq-ok (get_uint16 m (i + 2)) _ e₁ in
      let (fits, e₃) = require-eq-ok (leb (i + 4 + len) end) _ e₂ in
      let (s₁, es, e₄) = >>=-eq-ok (parse_extension m type (i + 4) len s) _ e₃ in
      let inside = leb→le (i + 4 + len) end fits in
      parse_extensions-Shown fuel m start (i + 4 + len) end s₁ s' (next len w el inside)
        (parse_extension-Shown m start end type i len s s₁ w inside et el h es) e₄)
]

abbrev nothing_shown : Extensions
nothing_shown = record { version = false; key = false; public_key = [] }

nothing : (m : List ℕ) (start end : ℕ) → Shown m start end nothing_shown
nothing m start end = record { version = λ e. cc e; key = λ e. cc e }

-- What a message says that is accepted: behind its session id, it names the one cipher suite of the
-- driver, and its block of extensions, as long as its length says, has one that selects TLS 1.3 and
-- one with this key; the random is the message's.
pub record Says (m random key : List ℕ) : Type 0 where
  pub session_length : ℕ
  pub session : read m 34 ≡ ok session_length
  pub suite : get_uint16 m (35 + session_length) ≡ ok cipher_suite_aes_128_gcm_sha256
  pub extensions_length : ℕ
  pub extensions : get_uint16 m (35 + session_length + 3) ≡ ok extensions_length
  pub inside : 35 + session_length + 5 + extensions_length ≤ length m
  pub version : HasVersion m (35 + session_length + 5) (35 + session_length + 5 + extensions_length)
  pub key_share :
      HasKey m (35 + session_length + 5) (35 + session_length + 5 + extensions_length) key
  pub random_sent : copy m 2 random_length ≡ ok random

-- A ServerHello that is accepted names, behind its session id, the one cipher suite of the driver; and
-- a walk over its extensions from the first, each by its own length, meets one that selects TLS 1.3
-- and one with the public key that is returned, an uncompressed point of P-256, both inside the
-- block. The random that is returned is the message's.
pub parse_server_hello-eq-ok :
    (m random key : List ℕ) → parse_server_hello m ≡ ok (random, key) → Says m random key
unfolding parse_server_hello
parse_server_hello-eq-ok m random key e =
    let (_, e₁) = require-eq-ok (leb 40 (length m)) _ e in
    let (r, er, e₂) = >>=-eq-ok (copy m 2 random_length) _ e₁ in
    let (n, en, e₃) = >>=-eq-ok (read m 34) _ e₂ in
    let (_, e₄) = require-eq-ok (leb (35 + n) (length m)) _ e₃ in
    let (_, e₅) = require-eq-ok (leb (35 + n + 2) (length m)) _ e₄ in
    let (suite, es, e₆) = >>=-eq-ok (get_uint16 m (35 + n)) _ e₅ in
    let (aes, e₇) = require-eq-ok (suite == cipher_suite_aes_128_gcm_sha256) _ e₆ in
    let (_, e₈) = require-eq-ok (leb (35 + n + 3 + 2) (length m)) _ e₇ in
    let (len, el, e₉) = >>=-eq-ok (get_uint16 m (35 + n + 3)) _ e₈ in
    let (room, f₁) = require-eq-ok (leb (35 + n + 5 + len) (length m)) _ e₉ in
    let (s, f, f₂) =
      >>=-eq-ok (parse_extensions (suc (length m)) m (35 + n + 5) (35 + n + 5 + len) nothing_shown)
        _ f₁ in
    let (both, f₃) = require-eq-ok (s.version && s.key) _ f₂ in
    let start = 35 + n + 5 in
    let shown =
      parse_extensions-Shown (suc (length m)) m start start (start + len) nothing_shown s first
        (nothing m start (start + len)) f in
    let flags = &&-both s.version s.key both in
    let parts = ok-pair (r, s.public_key) (random, key) f₃ in
    record {
      session_length = n;
      session = en;
      suite = exactly _ suite cipher_suite_aes_128_gcm_sha256 es aes;
      extensions_length = len;
      extensions = el;
      inside = leb→le (start + len) (length m) room;
      version = shown.version flags.0;
      key_share = subst (HasKey m start (start + len)) parts.1 (shown.key flags.1);
      random_sent = er ∙ ap ok parts.0;
    }
