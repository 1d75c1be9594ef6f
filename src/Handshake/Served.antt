-- ===== src/Handshake/Served.antt =====
-- A whole flight that keeps to the protocol, as the loop of src/TlsHandshake.c processes it.
use blorg_fs.Prelude.{ℕ, ◌+◌, ◌^◌, ◌≤◌, ◌<◌, ◌≡◌, true, false, Option, List, ◌++◌, length}
use blorg_fs.Handshake.{Crypto, Context, transcript_max}
use blorg_fs.Handshake.Live.{
  frame, GoodCertificate, GoodVerify, GoodFinished, behind_certificate, behind_verify,
}

abbrev pub flight_of : List ℕ → List ℕ → List ℕ → List ℕ → List ℕ
flight_of extensions certificate verify finished =
    frame 0x08 extensions ++ (frame 0x0B certificate ++ (frame 0x0F verify ++ frame 0x14 finished))

abbrev pub behind_extensions : Context → List ℕ → Context
behind_extensions c extensions = record c {
  transcript = c.transcript ++ frame 0x08 extensions;
  saw_encrypted_extensions = true;
}

module _ (crypto : Crypto) (pin : Option (List ℕ)) (c : Context)
    (extensions certificate verify finished : List ℕ) where
  abbrev c₁ : Context
  c₁ = behind_extensions c extensions

  -- What a flight that keeps to the protocol brings: the sizes that fit their length fields, room in the
  -- transcript, and messages that the parsers and the system accept.
  pub record IsServed : Type 0 where
    pub extensions_size : length extensions < 2 ^ 24
    pub certificate_size : length certificate < 2 ^ 24
    pub verify_size : length verify < 2 ^ 24
    pub room :
        length c.transcript + length (flight_of extensions certificate verify finished)
        ≤ transcript_max
    pub no_extensions : c.saw_encrypted_extensions ≡ false
    pub no_certificate : c.saw_certificate ≡ false
    pub no_verify : c.saw_cert_verify ≡ false
    pub good_certificate : GoodCertificate crypto pin c₁ certificate
    pub good_verify :
        GoodVerify crypto pin (behind_certificate crypto pin c₁ certificate good_certificate) verify
    pub good_finished :
        GoodFinished crypto pin
          (behind_verify crypto pin
            (behind_certificate crypto pin c₁ certificate good_certificate)
            verify
            good_verify)
          finished

  module _ (s : IsServed) where
    abbrev c₂ : Context
    c₂ = behind_certificate crypto pin c₁ certificate s.good_certificate

    abbrev c₃ : Context
    c₃ = behind_verify crypto pin c₂ verify s.good_verify

    abbrev pub behind_flight : Context
    behind_flight = record c₃ { transcript = c₃.transcript ++ frame 0x14 finished }

    abbrev at₂ : ℕ
    at₂ = 0 + (4 + length extensions)

    abbrev at₃ : ℕ
    at₃ = at₂ + (4 + length certificate)

    abbrev at₄ : ℕ
    at₄ = at₃ + (4 + length verify)

    abbrev pub flight_end : ℕ
    flight_end = at₄ + (4 + length finished)
