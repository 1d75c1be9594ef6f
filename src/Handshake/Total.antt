-- ===== src/Handshake/Total.antt =====
-- Every record that arrives is answered: the handshake of src/TlsHandshake.c goes on, is done, or fails
-- with a status.
use blorg_fs.Prelude.{
  ℕ, zero, suc, ◌+◌, ◌-◌, ◌≤◌, ◌<◌, ◌≡◌, ◌≢◌, refl, ap, inl, inr, Bool, true, false, Option, List,
  [], ◌++◌, length, arith, leb, ltb, leb→le, ◌==◌, if◌then◌else◌, Bool-cases, take, drop, read,
  copy, read-ne-fault, copy-ne-fault, add64,
}
use blorg_fs.Tls.Wire.{hash_length, iv_length, get_uint24, get_uint24-ne-fault}
use blorg_fs.Tls.Hello.{parse_server_hello}
use blorg_fs.Tls.Hello.Safe.{parse_server_hello-ne-fault}
use blorg_fs.Tls.Signature.{repeat}
use blorg_fs.Tls.Record.{strip_inner_plaintext, build_nonce}
use blorg_fs.Tls.Record.Laws.{strip_inner_plaintext-ne-fault}
use blorg_fs.Tls.KeySchedule.{hkdf_expand_label}
use blorg_fs.Tls.KeySchedule.Safe.{hkdf_expand_label-ne-fault}
use blorg_fs.Handshake.{
  Crypto, Context, Stage, waiting_for_server_hello, waiting_for_flight_record, transcript_max,
  flight_max,
}
use blorg_fs.Handshake.Flight.{
  process_message, process_messages, process_flight_messages, keep_rest,
}
use blorg_fs.Handshake.Keys.{
  on_server_hello, key_schedule, label_derived, label_client_traffic, label_server_traffic,
  label_key, label_iv, aes_key_length,
}
use blorg_fs.Handshake.Record.{on_protected_record, on_record, tag_length}
use blorg_fs.Handshake.Safe.{Sized}
use blorg_fs.Handshake.Ends.{StepsOn, process_message-StepsOn}
use blorg_fs.Handshake.Reply.{
  invalid_parameter, insufficient_resources, Answer, replied, failed, broken, ◌>>=◌, ◌>>◌, require,
  derived, from_system, >>=-ne-broken, require-ne-broken, derived-ne-broken, from_system-ne-broken,
  chain-ne-broken,
}

module _ (crypto : Crypto) (pin : Option (List ℕ)) (sized : Sized crypto pin) where
  system_then :
      (o : Option (List ℕ)) {A : Type 0} (f : List ℕ → Answer A)
      → ((x : List ℕ) → f x ≢ broken)
      → (from_system o >>= f) ≢ broken
  system_then o f h = >>=-ne-broken (from_system o) f (from_system-ne-broken o) h

  pauses :
      (test : Bool) (p : Context × Bool) (k : Answer (Context × Bool))
      → (test ≡ true → k ≢ broken)
      → (if test then k else replied p) ≢ broken
  pauses true p k h = h refl
  pauses false p k h = λ e. cc e

  pauses_short :
      (a b : ℕ) (p : Context × Bool) (k : Answer (Context × Bool))
      → (b ≤ a → k ≢ broken)
      → (if ltb a b then replied p else k) ≢ broken
  pauses_short a b p k h = elim (Bool-cases (ltb a b)) [
    | inl q ↦ rw q (λ e. cc e)
    | inr q ↦ rw q (h (ground arith))
  ]

  after_step :
      (flight : List ℕ) (m : Answer (Context × Bool)) (k : Context × Bool → Answer (Context × Bool))
      → StepsOn crypto pin flight m
      → ((p : Context × Bool) → p.0.flight ≡ flight → k p ≢ broken)
      → (m >>= k) ≢ broken
  unfolding StepsOn
  after_step flight broken k h next = absurd (h.0 refl)
  after_step flight (failed s) k h next = λ e. cc e
  after_step flight (replied p) k h next = next p (h.1 p refl)

  process_messages-ne-broken :
      (fuel offset : ℕ) (c : Context)
      → length c.flight < fuel + offset
      → process_messages crypto pin fuel offset c ≢ broken
  unfolding process_messages
  process_messages-ne-broken zero offset c h =
      no_fuel (length c.flight) (keep_rest crypto pin offset c, false) h
    where
      no_fuel :
          (n : ℕ) (p : Context × Bool)
          → n < 0 + offset
          → (if leb (offset + 4) n then broken else replied p) ≢ broken
      no_fuel n p h = elim (Bool-cases (leb (offset + 4) n)) [
        | inl q ↦ absurd (omega (arith, leb→le (offset + 4) n q))
        | inr q ↦ rw q (λ e. cc e)
      ]
  process_messages-ne-broken (suc fuel) offset c h =
      pauses (leb (offset + 4) (length c.flight)) (keep_rest crypto pin offset c, false) _
        (λ l.
          let room = leb→le (offset + 4) (length c.flight) l in
          chain-ne-broken (read c.flight offset) _ (read-ne-fault c.flight offset (omega arith))
            (λ type _.
              chain-ne-broken (get_uint24 c.flight (offset + 1)) _
                (get_uint24-ne-fault c.flight (offset + 1) (omega arith))
                (λ n _.
                  pauses_short (length c.flight) (offset + (4 + n))
                    (keep_rest crypto pin offset c, false) _
                    (λ fits.
                      chain-ne-broken (copy c.flight offset (4 + n)) _
                        (copy-ne-fault c.flight offset (4 + n) fits)
                        (λ message _.
                          after_step c.flight (process_message crypto pin c type message) _
                            (process_message-StepsOn crypto pin sized c type message)
                            (λ p same.
                              done_or p.1 (keep_rest crypto pin (offset + (4 + n)) p.0, true)
                                (process_messages crypto pin fuel (offset + (4 + n)) p.0)
                                (process_messages-ne-broken fuel (offset + (4 + n)) p.0
                                  (omega (arith, ap (λ (ys : List ℕ). length ys) same)))))))))
    where
      done_or :
          (test : Bool) (p : Context × Bool) (k : Answer (Context × Bool))
          → k ≢ broken
          → (if test then replied p else k) ≢ broken
      done_or true p k h = λ e. cc e
      done_or false p k h = h

  on_protected_record-ne-broken :
      (c : Context) (header payload : List ℕ)
      → on_protected_record crypto pin c header payload ≢ broken
  unfolding on_protected_record process_flight_messages
  on_protected_record-ne-broken c header payload =
      let n = length payload - tag_length in
      require-ne-broken invalid_parameter (leb tag_length (length payload)) _ (λ _.
        require-ne-broken insufficient_resources (leb (length c.flight + n) flight_max) _ (λ _.
          system_then
            (crypto.aead_decrypt c.server_hs_key (build_nonce c.server_hs_iv c.server_seq) header
              (take n payload) (drop n payload))
            _
            (λ plaintext.
              chain-ne-broken (strip_inner_plaintext plaintext) _
                (strip_inner_plaintext-ne-fault plaintext)
                (λ inner _. require-ne-broken invalid_parameter (inner.0 == 0x16) _ (λ _.
                  process_messages-ne-broken (suc (length (c.flight ++ take inner.1 plaintext))) 0
                    (record c {
                      server_seq = add64 c.server_seq 1;
                      flight = c.flight ++ take inner.1 plaintext;
                    })
                    (omega arith))))))

  expand_then :
      (secret label context : List ℕ) (n : ℕ) {A : Type 0} (f : List ℕ → Answer A)
      → ((x : List ℕ) → f x ≢ broken)
      → (derived (hkdf_expand_label crypto.hmac secret label context n) >>= f) ≢ broken
  expand_then secret label context n f h =
      >>=-ne-broken (derived (hkdf_expand_label crypto.hmac secret label context n)) f
        (derived-ne-broken (hkdf_expand_label crypto.hmac secret label context n)
          (hkdf_expand_label-ne-fault crypto.hmac sized.mac secret label context n))
        h

  key_schedule-ne-broken : (c : Context) → key_schedule crypto c ≢ broken
  unfolding key_schedule
  key_schedule-ne-broken c =
      system_then (crypto.ecdh c.client_private c.client_public c.server_public) _ (λ shared.
        system_then (crypto.sha256 c.transcript) _ (λ transcript_hash.
          system_then (crypto.sha256 []) _ (λ empty_hash.
            system_then (crypto.hmac (repeat 32 0) (repeat 32 0)) _ (λ early.
              expand_then early label_derived empty_hash hash_length _ (λ d.
                system_then (crypto.hmac d shared) _ (λ secret.
                  expand_then secret label_client_traffic transcript_hash hash_length _ (λ client.
                    expand_then secret label_server_traffic transcript_hash hash_length _ (λ server.
                      expand_then server label_key [] aes_key_length _ (λ _.
                        expand_then server label_iv [] iv_length _ (λ _.
                          expand_then client label_key [] aes_key_length _ (λ _.
                            expand_then client label_iv [] iv_length _ (λ _ e. cc e))))))))))))

  on_server_hello-ne-broken :
      (c : Context) (payload : List ℕ) → on_server_hello crypto c payload ≢ broken
  unfolding on_server_hello
  on_server_hello-ne-broken c payload =
      require-ne-broken invalid_parameter (leb 4 (length payload)) _ (λ l.
        let room = leb→le 4 (length payload) l in
        chain-ne-broken (read payload 0) _ (read-ne-fault payload 0 (omega arith)) (λ type _.
          require-ne-broken invalid_parameter (type == 0x02) _ (λ _.
            chain-ne-broken (get_uint24 payload 1) _ (get_uint24-ne-fault payload 1 (omega arith))
              (λ n _. require-ne-broken invalid_parameter (4 + n == length payload) _ (λ _.
                require-ne-broken insufficient_resources
                  (leb (length c.transcript + length payload) transcript_max) _
                  (λ _.
                    chain-ne-broken (parse_server_hello (drop 4 payload)) _
                      (parse_server_hello-ne-fault (drop 4 payload))
                      (λ hello _.
                        >>=-ne-broken
                          (key_schedule crypto (record c {
                            transcript = c.transcript ++ payload;
                            server_public = hello.1;
                          }))
                          _
                          (key_schedule-ne-broken (record c {
                            transcript = c.transcript ++ payload;
                            server_public = hello.1;
                          }))
                          (λ _ e. cc e))))))))

  on_flight_record-ne-broken :
      (t₁ t₂ t₃ : Bool) (p : Context × Bool) (m : Answer (Context × Bool))
      → m ≢ broken
      → (if t₁
          then failed invalid_parameter
          else if t₂
          then replied p
          else if t₃
          then m
          else failed invalid_parameter)
        ≢ broken
  on_flight_record-ne-broken true t₂ t₃ p m h = λ e. cc e
  on_flight_record-ne-broken false true t₃ p m h = λ e. cc e
  on_flight_record-ne-broken false false true p m h = h
  on_flight_record-ne-broken false false false p m h = λ e. cc e

  -- Where the system's hashes and the pin have their 32 bytes, no record that arrives, in any context,
  -- makes the handshake read outside a buffer or loop without end.
  pub on_record-ne-broken :
      (c : Context) (type : ℕ) (header payload : List ℕ)
      → on_record crypto pin c type header payload ≢ broken
  unfolding on_record
  on_record-ne-broken c type header payload = by_stage c.stage
    where
      by_stage :
          (stage : Stage)
          → ◌≢◌ {A = Answer (Context × Bool)}
              (elim stage [
                | waiting_for_server_hello ↦
                    (require invalid_parameter (type == 0x16)
                      >> (on_server_hello crypto c payload >>= λ c'. replied (c', false)))
                | waiting_for_flight_record ↦
                    if type == 0x15
                    then failed invalid_parameter
                    else if type == 0x14
                    then replied (c, false)
                    else if type == 0x17
                    then on_protected_record crypto pin c header payload
                    else failed invalid_parameter
              ])
              broken
      by_stage waiting_for_server_hello = require-ne-broken invalid_parameter (type == 0x16) _ (λ _.
          >>=-ne-broken (on_server_hello crypto c payload) _ (on_server_hello-ne-broken c payload)
            (λ _ e. cc e))
      by_stage waiting_for_flight_record =
          on_flight_record-ne-broken (type == 0x15) (type == 0x14) (type == 0x17) (c, false)
            (on_protected_record crypto pin c header payload)
            (on_protected_record-ne-broken c header payload)
