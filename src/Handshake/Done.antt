-- ===== src/Handshake/Done.antt =====
-- The handshake of src/TlsHandshake.c as a relation: the contexts that records lead to, and what its
-- end has shown.
use blorg_fs.Prelude.{
  ℕ, suc, ◌+◌, ◌-◌, ◌≡◌, refl, ◌⊎◌, inl, inr, subst, Bool, true, false, Option, List, ◌++◌, length,
  leb, ◌==◌, if◌then◌else◌, take, drop, read, add64,
}
use blorg_fs.Tls.Wire.{get_uint24}
use blorg_fs.Tls.Hello.{parse_server_hello}
use blorg_fs.Tls.Record.{strip_inner_plaintext, build_nonce}
use blorg_fs.Handshake.{
  Crypto, Context, Stage, waiting_for_server_hello, waiting_for_flight_record, transcript_max,
  flight_max,
}
use blorg_fs.Handshake.Flight.{process_flight_messages}
use blorg_fs.Handshake.Keys.{on_server_hello, key_schedule, install_keys}
use blorg_fs.Handshake.Record.{on_protected_record, on_record, tag_length}
use blorg_fs.Handshake.Authentic.{IsAuthentic, Kept}
use blorg_fs.Handshake.Authentic.Steps.Runs.{Left, goes_on, process_messages-Left}
use blorg_fs.Handshake.Reply.{
  invalid_parameter, insufficient_resources, Answer, replied, failed, ◌>>=◌, ◌>>◌, require, parsed,
  from_system, >>=-replied, require-replied, replied-inj,
}

module _ (crypto : Crypto) (pin : Option (List ℕ)) where
  -- The contexts that a run passes through. It starts with no message seen.
  pub data Reachable : Context → Type 0 where
    started : {c : Context} → c.saw_certificate ≡ false → c.saw_cert_verify ≡ false → Reachable c
    received :
        {c c' : Context} (type : ℕ) (header payload : List ℕ)
        → Reachable c
        → on_record crypto pin c type header payload ≡ replied (c', false)
        → Reachable c'

  -- A context that has seen neither message.
  abbrev HasSeenNone : Context → Type 0
  HasSeenNone c = (c.saw_certificate ≡ false) × (c.saw_cert_verify ≡ false)

  unseen-Kept :
      (c : Context) → c.stage ≡ waiting_for_flight_record → HasSeenNone c → Kept crypto pin c
  unseen-Kept c e (s, v) = record {
    stage = e;
    order = λ v'. absurd (cc (v, v'));
    trusted = λ s' _. absurd (cc (s, s'));
    signed = λ v'. absurd (cc (v, v'));
  }

  -- Where a run stands: in the flight, or before it, with nothing seen.
  abbrev Standing : Context → Type 0
  Standing c = Kept crypto pin c ⊎ HasSeenNone c

  in_flight : (c : Context) → c.stage ≡ waiting_for_flight_record → Standing c → Kept crypto pin c
  in_flight c e (inl h) = h
  in_flight c e (inr h) = unseen-Kept c e h

  before_flight : (c : Context) → c.stage ≡ waiting_for_server_hello → Standing c → HasSeenNone c
  before_flight c e (inl h) = absurd (cc (e, h.stage))
  before_flight c e (inr h) = h

  on_server_hello-Kept :
      (c c' : Context) (payload : List ℕ)
      → HasSeenNone c
      → on_server_hello crypto c payload ≡ replied c'
      → Kept crypto pin c'
  unfolding on_server_hello install_keys
  on_server_hello-Kept c c' payload h e =
      let (_, e₁) = require-replied invalid_parameter (leb 4 (length payload)) _ e in
      let (type, _, e₂) = >>=-replied (parsed (read payload 0)) _ e₁ in
      let (_, e₃) = require-replied invalid_parameter (type == 0x02) _ e₂ in
      let (n, _, e₄) = >>=-replied (parsed (get_uint24 payload 1)) _ e₃ in
      let (_, e₅) = require-replied invalid_parameter (4 + n == length payload) _ e₄ in
      let (_, e₆) =
        require-replied insufficient_resources
          (leb (length c.transcript + length payload) transcript_max) _ e₅ in
      let (hello, _, e₇) = >>=-replied (parsed (parse_server_hello (drop 4 payload))) _ e₆ in
      let c₁ = record c { transcript = c.transcript ++ payload; server_public = hello.1 } in
      let (keys, _, e₈) = >>=-replied (key_schedule crypto c₁) _ e₇ in
      subst (Kept crypto pin) (replied-inj (install_keys c₁ keys) c' e₈)
        (unseen-Kept (install_keys c₁ keys) refl h)

  on_protected_record-Left :
      (c : Context) (header payload : List ℕ) (p : Context × Bool)
      → Kept crypto pin c
      → on_protected_record crypto pin c header payload ≡ replied p
      → Left crypto pin p
  unfolding on_protected_record process_flight_messages
  on_protected_record-Left c header payload p h e =
      let n = length payload - tag_length in
      let (_, e₁) = require-replied invalid_parameter (leb tag_length (length payload)) _ e in
      let (_, e₂) =
        require-replied insufficient_resources (leb (length c.flight + n) flight_max) _ e₁ in
      let (plaintext, _, e₃) =
        >>=-replied
          (from_system (
            crypto.aead_decrypt c.server_hs_key (build_nonce c.server_hs_iv c.server_seq) header
              (take n payload) (drop n payload)))
          _ e₂ in
      let (inner, _, e₄) = >>=-replied (parsed (strip_inner_plaintext plaintext)) _ e₃ in
      let (_, e₅) = require-replied invalid_parameter (inner.0 == 0x16) _ e₄ in
      let c' = record c {
        server_seq = add64 c.server_seq 1;
        flight = c.flight ++ take inner.1 plaintext;
      } in
      process_messages-Left crypto pin (suc (length c'.flight)) 0 c' p
        (record { stage = h.stage; order = h.order; trusted = h.trusted; signed = h.signed }) e₅

  -- The choice by the record's type, behind the ServerHello.
  choose :
      (t₁ t₂ t₃ : Bool) (c : Context) (m : Answer (Context × Bool)) (p : Context × Bool)
      → Kept crypto pin c
      → (m ≡ replied p → Left crypto pin p)
      → (if t₁
          then failed invalid_parameter
          else if t₂
          then replied (c, false)
          else if t₃
          then m
          else failed invalid_parameter)
        ≡ replied p
      → Left crypto pin p
  choose true t₂ t₃ c m p h k e = cc e
  choose false true t₃ c m p h k e =
      subst (Left crypto pin) {x = (c, false)} {y = p} (replied-inj (c, false) p e) h
  choose false false true c m p h k e = k e
  choose false false false c m p h k e = cc e

  on_record-Left :
      (c : Context) (type : ℕ) (header payload : List ℕ) (p : Context × Bool)
      → Standing c
      → on_record crypto pin c type header payload ≡ replied p
      → Left crypto pin p
  unfolding on_record
  on_record-Left c type header payload p h = by_stage c.stage refl
    where
      by_stage :
          (stage : Stage)
          → c.stage ≡ stage
          → (elim stage [
            | waiting_for_server_hello ↦
                (require invalid_parameter (type == 0x16)
                  >> (on_server_hello crypto c payload >>= λ c'. replied (c', false)))
            | waiting_for_flight_record ↦
                if type == 0x15
                then failed invalid_parameter
                else if type == 0x14
                then replied (c, false)
                else if type == 0x17
                then on_protected_record crypto pin c header payload
                else failed invalid_parameter
          ])
            ≡ replied p
          → Left crypto pin p
      by_stage waiting_for_server_hello at e =
          let (_, e₁) = require-replied invalid_parameter (type == 0x16) _ e in
          goes_on crypto pin (on_server_hello crypto c payload) p
            (λ c'. on_server_hello-Kept c c' payload (before_flight c at h)) e₁
      by_stage waiting_for_flight_record at e =
          choose (type == 0x15) (type == 0x14) (type == 0x17) c
            (on_protected_record crypto pin c header payload) p (in_flight c at h)
            (on_protected_record-Left c header payload p (in_flight c at h)) e

  -- While the handshake goes on, the flags hold.
  pub Reachable-Standing : {c : Context} → Reachable c → Standing c
  Reachable-Standing (started p q) = inr (p, q)
  Reachable-Standing (received {c = c} {c' = c'} type header payload r e) =
      inl (on_record-Left c type header payload (c', false) (Reachable-Standing r) e)

-- A handshake that ends, whatever records arrived before, is authentic: its transcript ends in a
-- Certificate, a CertificateVerify and a Finished message, one behind the other. The certificate's
-- SubjectPublicKeyInfo has the pinned hash; the second holds a signature, which that very key
-- verifies, of the content made from the hash of the transcript up to and with the certificate; the
-- third is the MAC, under the key of the server's traffic secret, of the hash of the transcript up to
-- and with the second.
pub on_record-IsAuthentic :
    (crypto : Crypto) (pin : Option (List ℕ)) (c c' : Context) (type : ℕ) (header payload : List ℕ)
    → Reachable crypto pin c
    → on_record crypto pin c type header payload ≡ replied (c', true)
    → IsAuthentic crypto pin c'
on_record-IsAuthentic crypto pin c c' type header payload r e =
    on_record-Left crypto pin c type header payload (c', true) (Reachable-Standing crypto pin r) e
