-- ===== src/Tls/KeySchedule.antt =====
-- BlorgTlsHkdfExpand and BlorgTlsHkdfExpandLabel of src/Tls.c. The system's HMAC is a parameter.
pub mod Laws
pub mod Safe
use blorg_fs.Prelude.{
  ℕ, zero, suc, ◌+◌, ◌-◌, ◌/◌, ◌%◌, ◌^◌, Bool, true, false, ◌||◌, Option, none, some, List, [], ◌∷◌,
  ◌++◌, length, add32, ltb, leb, if◌then◌else◌, take, Outcome, fault, refused, ok, ◌>>=◌, ◌>>◌,
  require,
}

module _ (hmac : List ℕ → List ℕ → Option (List ℕ)) where
  -- BlorgTlsHmacSha256: an error of the system, or 32 bytes.
  abbrev pub hmac_sha256 : List ℕ → List ℕ → Outcome (List ℕ)
  hmac_sha256 key message = elim (hmac key message) [ none ↦ refused | some mac ↦ ok mac ]

  -- The loop: the block before, what is generated so far, and the counter, a byte. Each round
  -- generates a byte at least.
  unfoldable pub expand_rounds : ℕ → List ℕ → List ℕ → ℕ → List ℕ → List ℕ → ℕ → Outcome (List ℕ)
  expand_rounds zero prk info out_len t generated counter =
      if ltb (length generated) out_len then fault else ok generated
  expand_rounds (suc fuel) prk info out_len t generated counter =
      let round = (do
        t' ← hmac_sha256 prk (t ++ (info ++ (counter ∷ [])))
        let left = out_len - length generated
        let copy_len = if ltb left 32 then left else 32
        expand_rounds fuel prk info out_len t' (generated ++ take copy_len t')
            ((counter + 1) % 256)) in
      if ltb (length generated) out_len then round else ok generated

  -- BlorgTlsHkdfExpand
  unfoldable pub hkdf_expand : List ℕ → List ℕ → ℕ → Outcome (List ℕ)
  unfolding expand_rounds
  hkdf_expand prk info out_len =
      if ltb 256 (add32 (add32 (length info) 32) 1)
      then refused
      else expand_rounds out_len prk info out_len [] [] 1

  -- "tls13 "
  abbrev pub label_prefix : List ℕ
  label_prefix = 0x74 ∷ 0x6c ∷ 0x73 ∷ 0x31 ∷ 0x33 ∷ 0x20 ∷ []

  abbrev pub hkdf_label : List ℕ → List ℕ → ℕ → List ℕ
  hkdf_label label context n =
      n / 256 % 256
      ∷ n % 256
      ∷ (6 + length label) % 256
      ∷ (label_prefix ++ (label ++ (length context % 256 ∷ context)))

  -- BlorgTlsHkdfExpandLabel, of a label without its terminator.
  unfoldable pub hkdf_expand_label : List ℕ → List ℕ → List ℕ → ℕ → Outcome (List ℕ)
  unfolding hkdf_expand
  hkdf_expand_label secret label context n =
      if ltb 255 (6 + length label) || ltb 255 (length context)
      then refused
      else hkdf_expand secret (hkdf_label label context n) n
