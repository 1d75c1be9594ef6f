-- ===== src/Tls/Hello/Built.antt =====
-- When BlorgTlsBuildClientHello of src/Tls.c builds a message, and how long it is.
use blorg_fs.Prelude.{
  ℕ, ◌+◌, ◌^◌, ◌≤◌, ◌<◌, ◌≡◌, ◌≢◌, refl, sym, ap, Option, none, some, List, [], ◌∷◌, ◌++◌, length,
  length-append, arith, add32, leb, le→leb, if◌then◌else◌, fault, refused, ok, require-ok, >>=-ok,
  >>=-ne-fault, require-leb, require-eq-ok, >>=-eq-ok, leb→le, ok-inj, length-copy_if, refused-if,
  ok_if-ne-fault,
}
use blorg_fs.Tls.Wire.{put_uint16, put_uint24, ext_server_name}
use blorg_fs.Tls.Hello.{
  server_name_extension, server_name_part, supported_groups, key_share, supported_versions,
  signature_algorithms, hello_start, build_client_hello,
}

-- The bytes that a name takes.
abbrev pub name_room : Option (List ℕ) → ℕ
name_room none = 0
name_room (some []) = 0
name_room (some (c ∷ cs)) = 9 + length (c ∷ cs)

abbrev pub name_length : Option (List ℕ) → ℕ
name_length none = 0
name_length (some name) = length name

server_name_part-ok :
    (name : Option (List ℕ)) (offset len : ℕ)
    → name_length name < 2 ^ 31
    → offset + 4 + name_room name < 2 ^ 32
    → offset + name_room name ≤ len
    → (bytes : List ℕ) × (server_name_part name offset len ≡ ok bytes)
      × (length bytes ≡ name_room name)
unfolding server_name_part server_name_extension
server_name_part-ok none offset len s w h = ([], refl, refl)
server_name_part-ok (some []) offset len s w h = ([], refl, refl)
server_name_part-ok (some (c ∷ cs)) offset len s w h =
    let name = c ∷ cs in
    let bytes =
      put_uint16 ext_server_name
      ++ (put_uint16 (add32 5 (length name))
          ++ (put_uint16 (3 + length name) ++ (0x00 ∷ (put_uint16 (length name) ++ name)))) in
    (
      bytes,
      require-ok (leb (add32 (offset + 4) (add32 5 (length name))) len) _
          (le→leb (add32 (offset + 4) (add32 5 (length name))) len (omega arith))
          (ap (λ t. if t then ok bytes else fault)
            (le→leb (offset + length bytes) len (omega arith))),
      omega arith,
    )

name_bound : (name : Option (List ℕ)) → name_length name < 2 ^ 31 → 47 + 4 + name_room name < 2 ^ 32
name_bound none h = omega arith
name_bound (some []) h = omega arith
name_bound (some (c ∷ cs)) h = omega arith

-- The extension is written in full, within the buffer, or refused.
server_name_part-ne-fault :
    (name : Option (List ℕ)) (offset len : ℕ)
    → offset + 4 + name_room name < 2 ^ 32
    → server_name_part name offset len ≢ fault
unfolding server_name_part server_name_extension
server_name_part-ne-fault none offset len w = λ e. cc e
server_name_part-ne-fault (some []) offset len w = λ e. cc e
server_name_part-ne-fault (some (c ∷ cs)) offset len w =
    let name = c ∷ cs in
    let written =
      put_uint16 ext_server_name
      ++ (put_uint16 (add32 5 (length name))
          ++ (put_uint16 (3 + length name) ++ (0x00 ∷ (put_uint16 (length name) ++ name)))) in
    require-leb (add32 (offset + 4) (add32 5 (length name))) len _ (λ l.
      ok_if-ne-fault (leb (offset + length written) len) written
        (le→leb (offset + length written) len (omega arith)))

server_name_part-length :
    (name : Option (List ℕ)) (offset len : ℕ) (bytes : List ℕ)
    → server_name_part name offset len ≡ ok bytes
    → length bytes ≡ name_room name
unfolding server_name_part server_name_extension
server_name_part-length none offset len bytes e = sym (ap length (ok-inj [] bytes e))
server_name_part-length (some []) offset len bytes e = sym (ap length (ok-inj [] bytes e))
server_name_part-length (some (c ∷ cs)) offset len bytes e =
    let name = c ∷ cs in
    let written =
      put_uint16 ext_server_name
      ++ (put_uint16 (add32 5 (length name))
          ++ (put_uint16 (3 + length name) ++ (0x00 ∷ (put_uint16 (length name) ++ name)))) in
    let (_, e₁) = require-eq-ok (leb (add32 (offset + 4) (add32 5 (length name))) len) _ e in
    length-copy_if (leb (offset + length written) len) written (9 + length name) (λ _. omega arith)
      e₁

abbrev pub room : Option (List ℕ) → ℕ
room name = 145 + name_room name

module _ (random key : List ℕ) (name : Option (List ℕ)) (len : ℕ) where
  -- The message, once the server's name is written.
  abbrev message : List ℕ → List ℕ
  message server_name =
      let extensions =
        server_name
        ++ (supported_groups ++ (key_share key ++ (supported_versions ++ signature_algorithms))) in
      let body = hello_start random ++ (put_uint16 (length extensions) ++ extensions) in
      0x01 ∷ (put_uint24 (length body) ++ body)

  length-message :
      (server_name : List ℕ)
      → length random ≡ 32
      → length key ≡ 65
      → length (message server_name) ≡ 145 + length server_name
  length-message server_name hr hk = omega (
    arith,
    length-append random (0x00 ∷ (put_uint16 2 ++ (put_uint16 0x1301 ++ (0x01 ∷ 0x00 ∷ [])))),
    length-append (hello_start random)
        (put_uint16 (length (server_name ++ rest)) ++ (server_name ++ rest)),
    length-append server_name rest,
    length-append (key_share key) (supported_versions ++ signature_algorithms),
    hr,
    hk,
  )
    where
      rest : List ℕ
      rest = supported_groups ++ (key_share key ++ (supported_versions ++ signature_algorithms))

  build_client_hello-fits :
      name_length name < 2 ^ 31
      → room name ≤ len
      → (server_name : List ℕ) × (build_client_hello random key name len ≡ ok (message server_name))
        × (length server_name ≡ name_room name)
  unfolding build_client_hello
  build_client_hello-fits small h =
      let (server_name, e, n) =
        server_name_part-ok name 47 len small (name_bound name small) (omega arith) in
      let l = length server_name in
      (
        server_name,
        require-ok (leb 4 len) _ (le→leb 4 len (omega arith)) (
            require-ok (leb 47 len) _ (le→leb 47 len (omega arith)) (
              >>=-ok (server_name_part name 47 len) _ server_name e (
                require-ok (leb (47 + l + 8) len) _ (le→leb (47 + l + 8) len (omega arith)) (
                  require-ok (leb (47 + l + 8 + 4 + 71) len) _
                    (le→leb (47 + l + 8 + 4 + 71) len (omega arith))
                    (require-ok (leb (47 + l + 8 + 4 + 71 + 7 + 8) len) _
                      (le→leb (47 + l + 8 + 4 + 71 + 7 + 8) len (omega arith)) refl))))),
        n,
      )

  build_client_hello-ne-fault :
      name_length name < 2 ^ 31 → build_client_hello random key name len ≢ fault
  unfolding build_client_hello
  build_client_hello-ne-fault small = require-leb 4 len _ (λ _. require-leb 47 len _ (λ _.
      >>=-ne-fault (server_name_part name 47 len) _
        (server_name_part-ne-fault name 47 len (name_bound name small))
        (λ server_name _. require-leb (47 + length server_name + 8) len _ (λ _.
          require-leb (47 + length server_name + 8 + 4 + 71) len _ (λ _.
            require-leb (47 + length server_name + 8 + 4 + 71 + 7 + 8) len _ (λ _ e. cc e))))))

  build_client_hello-le :
      (m : List ℕ) → build_client_hello random key name len ≡ ok m → room name ≤ len
  unfolding build_client_hello
  build_client_hello-le m e =
      let (_, e₁) = require-eq-ok (leb 4 len) _ e in
      let (_, e₂) = require-eq-ok (leb 47 len) _ e₁ in
      let (server_name, es, e₃) = >>=-eq-ok (server_name_part name 47 len) _ e₂ in
      let (_, e₄) = require-eq-ok (leb (47 + length server_name + 8) len) _ e₃ in
      let (_, e₅) = require-eq-ok (leb (47 + length server_name + 8 + 4 + 71) len) _ e₄ in
      let (l, _) = require-eq-ok (leb (47 + length server_name + 8 + 4 + 71 + 7 + 8) len) _ e₅ in
      let size = server_name_part-length name 47 len server_name es in
      let fits = leb→le (47 + length server_name + 8 + 4 + 71 + 7 + 8) len l in omega arith

-- For a name of less than 2 ^ 31 bytes, BlorgTlsBuildClientHello writes a message of 145 bytes and the
-- room of the name, where the buffer has that room, and reports an error where it has not.
pub build_client_hello-total :
    (random key : List ℕ) (name : Option (List ℕ)) (len : ℕ)
    → length random ≡ 32
    → length key ≡ 65
    → name_length name < 2 ^ 31
    → (room name ≤ len
        → (m : List ℕ) × (build_client_hello random key name len ≡ ok m) × (length m ≡ room name))
      × (len < room name → build_client_hello random key name len ≡ refused)
build_client_hello-total random key name len hr hk small = (
  λ h.
      let (server_name, e, n) = build_client_hello-fits random key name len small h in
      (
        message random key name len server_name,
        e,
        omega (arith, length-message random key name len server_name hr hk),
      ),
  λ h.
      refused-if (build_client_hello random key name len)
        (build_client_hello-ne-fault random key name len small)
        (λ m e. absurd (omega (arith, build_client_hello-le random key name len m e))),
)
