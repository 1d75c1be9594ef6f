-- ===== src/Tls/Hello/Safe.antt =====
-- BlorgTlsParseServerHello of src/Tls.c reads nothing outside the message, and ends.
use blorg_fs.Prelude.{
  ℕ, zero, suc, ◌+◌, ◌≤◌, ◌<◌, ◌≢◌, false, ◌&&◌, List, [], length, inl, inr, arith, leb, ◌==◌,
  Bool-cases, fault, read, copy, >>=-ne-fault, require-ne-fault, require-leb, read-ne-fault,
  copy-ne-fault, length-copy,
}
use blorg_fs.Tls.Wire.{
  public_key_length, ext_supported_versions, ext_key_share, get_uint16, get_uint16-ne-fault,
  random_length, group_secp256r1, version_1_3, cipher_suite_aes_128_gcm_sha256,
}
use blorg_fs.Tls.Hello.{Extensions, parse_extension, parse_extensions, parse_server_hello}

parse_extension-ne-fault :
    (m : List ℕ) (type offset len : ℕ) (s : Extensions)
    → offset + len ≤ length m
    → parse_extension m type offset len s ≢ fault
unfolding parse_extension
parse_extension-ne-fault m type offset len s h =
    elim (Bool-cases (type == ext_supported_versions)) [
      | inl p ↦ rw p (
          require-ne-fault (len == 2) _ (λ e.
            >>=-ne-fault (get_uint16 m offset) _ (get_uint16-ne-fault m offset (ground arith))
              (λ v _. require-ne-fault (v == version_1_3) _ (λ _ z. cc z))))
      | inr p ↦ elim (Bool-cases (type == ext_key_share)) [
        | inr q ↦ rw (p, q) (λ z. cc z)
        | inl q ↦
            rw (p, q)
              (require-ne-fault (len == 2 + 2 + public_key_length) _ (λ e.
                >>=-ne-fault (get_uint16 m offset) _ (get_uint16-ne-fault m offset (ground arith))
                  (λ g _. require-ne-fault (g == group_secp256r1) _ (λ _.
                    >>=-ne-fault (get_uint16 m (offset + 2)) _
                      (get_uint16-ne-fault m (offset + 2) (ground arith))
                      (λ l _. require-ne-fault (l == public_key_length) _ (λ _.
                        >>=-ne-fault (copy m (offset + 4) public_key_length) _
                          (copy-ne-fault m (offset + 4) public_key_length (ground arith))
                          (λ key c.
                            >>=-ne-fault (read key 0) _
                              (read-ne-fault key 0
                                (omega (arith, length-copy m (offset + 4) public_key_length c)))
                              (λ b _. require-ne-fault (b == 4) _ (λ _ z. cc z)))))))))
      ]
    ]

parse_extensions-ne-fault :
    (fuel : ℕ) (m : List ℕ) (offset end : ℕ) (s : Extensions)
    → end ≤ length m
    → end < fuel + offset
    → parse_extensions fuel m offset end s ≢ fault
unfolding parse_extensions
parse_extensions-ne-fault zero m offset end s h f = ground arith
parse_extensions-ne-fault (suc fuel) m offset end s h f = elim (Bool-cases (leb (offset + 4) end)) [
  | inr p ↦ rw p (λ z. cc z)
  | inl p ↦ rw p (
      >>=-ne-fault (get_uint16 m offset) _ (get_uint16-ne-fault m offset (ground arith)) (λ type _.
        >>=-ne-fault (get_uint16 m (offset + 2)) _
          (get_uint16-ne-fault m (offset + 2) (ground arith))
          (λ len _. require-leb (offset + 4 + len) end _ (λ le.
            >>=-ne-fault (parse_extension m type (offset + 4) len s) _
              (parse_extension-ne-fault m type (offset + 4) len s (omega arith))
              (λ s' _.
                parse_extensions-ne-fault fuel m (offset + 4 + len) end s' h (omega arith))))))
]

-- Whatever the server sends, BlorgTlsParseServerHello reads nothing outside the message, and its loop
-- over the extensions ends.
pub parse_server_hello-ne-fault : (m : List ℕ) → parse_server_hello m ≢ fault
unfolding parse_server_hello
parse_server_hello-ne-fault m = require-leb 40 (length m) _ (λ l.
    >>=-ne-fault (copy m 2 random_length) _ (copy-ne-fault m 2 random_length (omega arith))
      (λ random _. >>=-ne-fault (read m 34) _ (read-ne-fault m 34 (omega arith)) (λ session _.
        require-leb (35 + session) (length m) _ (λ _.
          require-leb (35 + session + 2) (length m) _ (λ l₁.
            >>=-ne-fault (get_uint16 m (35 + session)) _ (get_uint16-ne-fault m (35 + session) l₁)
              (λ suite _. require-ne-fault (suite == cipher_suite_aes_128_gcm_sha256) _ (λ _.
                require-leb (35 + session + 3 + 2) (length m) _ (λ l₂.
                  >>=-ne-fault (get_uint16 m (35 + session + 3)) _
                    (get_uint16-ne-fault m (35 + session + 3) l₂)
                    (λ len _. require-leb (35 + session + 5 + len) (length m) _ (λ l₃.
                      >>=-ne-fault
                        (parse_extensions (suc (length m)) m (35 + session + 5)
                          (35 + session + 5 + len)
                          (record { version = false; key = false; public_key = [] }))
                        _
                        (parse_extensions-ne-fault (suc (length m)) m (35 + session + 5)
                          (35 + session + 5 + len) _ l₃ (omega arith))
                        (λ s _. require-ne-fault (s.version && s.key) _ (λ _ z. cc z))))))))))))
