-- ===== src/Handshake/Authentic/Steps/Runs.antt =====
-- Runs of the handshake of src/TlsHandshake.c, record by record, and what a finished one has shown.
use blorg_fs.Prelude.{
  ℕ, zero, suc, ◌+◌, ◌≡◌, refl, ap, ◌∙◌, subst, arith, ok, ==_iff, read-copy, length-copy,
  length-drop, Bool, true, false, Option, List, ◌++◌, length, leb, ltb, ◌==◌, if◌then◌else◌, drop,
  read, copy,
}
use blorg_fs.Tls.Wire.{get_uint24}
use blorg_fs.Handshake.{Crypto, Context, transcript_max}
use blorg_fs.Handshake.Flight.{
  on_encrypted_extensions, on_certificate, on_certificate_verify, on_finished, process_message,
  process_messages, keep_rest,
}
use blorg_fs.Handshake.Authentic.{IsMessage, IsAuthentic, Kept}
use blorg_fs.Handshake.Authentic.Steps.{
  on_certificate-Kept, on_certificate_verify-Kept, on_encrypted_extensions-Kept,
  on_finished-IsAuthentic,
}
use blorg_fs.Handshake.Reply.{
  invalid_parameter, insufficient_resources, Answer, replied, failed, broken, ◌>>=◌, parsed,
  >>=-replied, require-replied, replied-inj, parsed-replied,
}

get_uint24-same :
    (a b : List ℕ) (i j : ℕ)
    → read a i ≡ read b j
    → read a (i + 1) ≡ read b (j + 1)
    → read a (i + 2) ≡ read b (j + 2)
    → get_uint24 a i ≡ get_uint24 b j
unfolding get_uint24
get_uint24-same a b i j e f g = rw (e, f, g) refl

-- What the loop copies out of the flight is a message of the type that it read there.
copied-IsMessage :
    (flight : List ℕ) (offset type n : ℕ) (message : List ℕ)
    → read flight offset ≡ ok type
    → get_uint24 flight (offset + 1) ≡ ok n
    → copy flight offset (4 + n) ≡ ok message
    → IsMessage type message
copied-IsMessage flight offset type n message et en em = record {
  header = omega (arith, size);
  kind = read-copy flight offset (4 + n) 0 offset em (omega arith) (omega arith) ∙ et;
  size =
      get_uint24-same message flight 1 (offset + 1)
        (read-copy flight offset (4 + n) 1 (offset + 1) em (omega arith) (omega arith))
        (read-copy flight offset (4 + n) (1 + 1) (offset + 1 + 1) em (omega arith) (omega arith))
        (read-copy flight offset (4 + n) (1 + 2) (offset + 1 + 2) em (omega arith) (omega arith))
      ∙ en
      ∙ ap ok (omega (arith, size, length-drop 4 message (omega (arith, size))));
}
  where
    size : length message ≡ 4 + n
    size = length-copy flight offset (4 + n) em

module _ (crypto : Crypto) (pin : Option (List ℕ)) where
  -- What a step leaves: the flags hold while the handshake goes on, and it is authentic at its end.
  abbrev pub Left : Context × Bool → Type 0
  Left (c, true) = IsAuthentic crypto pin c
  Left (c, false) = Kept crypto pin c

  pub goes_on :
      (m : Answer Context) (p : Context × Bool)
      → ((c : Context) → m ≡ replied c → Kept crypto pin c)
      → (m >>= λ c. replied (c, false)) ≡ replied p
      → Left p
  goes_on m p h e =
      let (c, ec, e₁) = >>=-replied m (λ c. replied (c, false)) e in
      subst Left {x = (c, false)} {y = p} (replied-inj (c, false) p e₁) (h c ec)

  ends :
      (m : Answer Context) (p : Context × Bool)
      → ((c : Context) → m ≡ replied c → IsAuthentic crypto pin c)
      → (m >>= λ c. replied (c, true)) ≡ replied p
      → Left p
  ends m p h e =
      let (c, ec, e₁) = >>=-replied m (λ c. replied (c, true)) e in
      subst Left {x = (c, true)} {y = p} (replied-inj (c, true) p e₁) (h c ec)

  -- The choice by the message's type.
  choose :
      (t₁ t₂ t₃ t₄ : Bool) (m₁ m₂ m₃ m₄ : Answer Context) (p : Context × Bool)
      → ((c : Context) → m₁ ≡ replied c → Kept crypto pin c)
      → (t₂ ≡ true → (c : Context) → m₂ ≡ replied c → Kept crypto pin c)
      → (t₃ ≡ true → (c : Context) → m₃ ≡ replied c → Kept crypto pin c)
      → (t₄ ≡ true → (c : Context) → m₄ ≡ replied c → IsAuthentic crypto pin c)
      → (if t₁
          then (m₁ >>= λ c'. replied (c', false))
          else if t₂
          then (m₂ >>= λ c'. replied (c', false))
          else if t₃
          then (m₃ >>= λ c'. replied (c', false))
          else if t₄
          then (m₄ >>= λ c'. replied (c', true))
          else failed invalid_parameter)
        ≡ replied p
      → Left p
  choose true t₂ t₃ t₄ m₁ m₂ m₃ m₄ p h₁ h₂ h₃ h₄ e = goes_on m₁ p h₁ e
  choose false true t₃ t₄ m₁ m₂ m₃ m₄ p h₁ h₂ h₃ h₄ e = goes_on m₂ p (h₂ refl) e
  choose false false true t₄ m₁ m₂ m₃ m₄ p h₁ h₂ h₃ h₄ e = goes_on m₃ p (h₃ refl) e
  choose false false false true m₁ m₂ m₃ m₄ p h₁ h₂ h₃ h₄ e = ends m₄ p (h₄ refl) e
  choose false false false false m₁ m₂ m₃ m₄ p h₁ h₂ h₃ h₄ e = cc e

  process_message-Left :
      (c : Context) (type : ℕ) (message : List ℕ) (p : Context × Bool)
      → Kept crypto pin c
      → IsMessage type message
      → process_message crypto pin c type message ≡ replied p
      → Left p
  unfolding process_message
  process_message-Left c₀ type message p h kind e =
      let c = record c₀ { transcript = c₀.transcript ++ message } in
      let (_, e₁) =
        require-replied insufficient_resources
          (leb (length c₀.transcript + length message) transcript_max) _ e in
      choose (type == 0x08) (type == 0x0B) (type == 0x0F) (type == 0x14)
        (on_encrypted_extensions crypto pin c) (on_certificate crypto pin c (drop 4 message))
        (on_certificate_verify crypto pin c (drop 4 message))
        (on_finished crypto pin c (drop 4 message)) p
        (λ c'. on_encrypted_extensions-Kept crypto pin c₀ c' message h)
        (λ t c'. on_certificate-Kept crypto pin c₀ c' message h (of_type 0x0B t))
        (λ t c'. on_certificate_verify-Kept crypto pin c₀ c' message h (of_type 0x0F t))
        (λ t c'. on_finished-IsAuthentic crypto pin c₀ c' message h (of_type 0x14 t)) e₁
    where
      of_type : (n : ℕ) → (type == n) ≡ true → IsMessage n message
      of_type n t = subst (λ n. IsMessage n message) ((==_iff type n).0 t) kind

  -- Neither depends on the flight.
  keep_rest-Left :
      (offset : ℕ) (p : Context × Bool) → Left p → Left (keep_rest crypto pin offset p.0, p.1)
  keep_rest-Left offset (c, true) h = record {
    before = h.before;
    certificate = h.certificate;
    verify = h.verify;
    finished = h.finished;
    at = h.at;
    trusted = h.trusted;
    signed = h.signed;
    mac = h.mac;
  }
  keep_rest-Left offset (c, false) h = record {
    stage = h.stage;
    order = h.order;
    trusted = h.trusted;
    signed = h.signed;
  }

  pauses :
      (test : Bool) (offset : ℕ) (c : Context) (k : Answer (Context × Bool)) (p : Context × Bool)
      → Kept crypto pin c
      → (k ≡ replied p → Left p)
      → (if test then k else replied (keep_rest crypto pin offset c, false)) ≡ replied p
      → Left p
  pauses true offset c k p h next e = next e
  pauses false offset c k p h next e =
      subst Left {x = (keep_rest crypto pin offset c, false)} {y = p}
        (replied-inj (keep_rest crypto pin offset c, false) p e)
        (keep_rest-Left offset (c, false) h)

  pauses_short :
      (test : Bool) (offset : ℕ) (c : Context) (k : Answer (Context × Bool)) (p : Context × Bool)
      → Kept crypto pin c
      → (k ≡ replied p → Left p)
      → (if test then replied (keep_rest crypto pin offset c, false) else k) ≡ replied p
      → Left p
  pauses_short false offset c k p h next e = next e
  pauses_short true offset c k p h next e = pauses false offset c k p h next e

  after_message :
      (next : ℕ) (q p : Context × Bool) (rest : Answer (Context × Bool))
      → Left q
      → (Kept crypto pin q.0 → rest ≡ replied p → Left p)
      → (if q.1 then replied (keep_rest crypto pin next q.0, true) else rest) ≡ replied p
      → Left p
  after_message next (c, true) p rest h k e =
      subst Left {x = (keep_rest crypto pin next c, true)} {y = p}
        (replied-inj (keep_rest crypto pin next c, true) p e) (keep_rest-Left next (c, true) h)
  after_message next (c, false) p rest h k e = k h e

  pub process_messages-Left :
      (fuel offset : ℕ) (c : Context) (p : Context × Bool)
      → Kept crypto pin c
      → process_messages crypto pin fuel offset c ≡ replied p
      → Left p
  unfolding process_messages
  process_messages-Left zero offset c p h e = no_fuel (leb (offset + 4) (length c.flight)) e
    where
      no_fuel :
          (test : Bool)
          → (if test then broken else replied (keep_rest crypto pin offset c, false)) ≡ replied p
          → Left p
      no_fuel true e = cc e
      no_fuel false e = pauses false offset c broken p h (λ z. cc z) e
  process_messages-Left (suc fuel) offset c p h e =
      pauses (leb (offset + 4) (length c.flight)) offset c _ p h
        (λ e.
          let (type, et, e₁) = >>=-replied (parsed (read c.flight offset)) _ e in
          let (n, en, e₂) = >>=-replied (parsed (get_uint24 c.flight (offset + 1))) _ e₁ in
          let next = offset + (4 + n) in
          pauses_short (ltb (length c.flight) next) offset c _ p h
            (λ e.
              let (message, em, e₃) = >>=-replied (parsed (copy c.flight offset (4 + n))) _ e in
              let (q, eq, e₄) = >>=-replied (process_message crypto pin c type message) _ e₃ in
              after_message next q p (process_messages crypto pin fuel next q.0)
                (process_message-Left c type message q h
                  (copied-IsMessage c.flight offset type n message
                    (parsed-replied (read c.flight offset) et)
                    (parsed-replied (get_uint24 c.flight (offset + 1)) en)
                    (parsed-replied (copy c.flight offset (4 + n)) em))
                  eq)
                (λ k e. process_messages-Left fuel next q.0 p k e) e₄)
            e₂)
        e
