-- ===== src/Ktls/Ciphers/Probes.antt =====
-- What `test_ciphers` (ktls/src/lib.rs) finds out, and how `is_compatible` reads it.
use proxy_printer.Base.{◌≡◌, refl, ap, ◌∙◌, Bool, true, false, List, [], ◌∷◌, Option, none, some}
use proxy_printer.Ktls.Io.{IoError}
use proxy_printer.Ktls.Rustls.{BulkAlgorithm, SupportedCipherSuite, tls12, tls13, Bindings, Suites}
use proxy_printer.Ktls.Results.{
  KtlsCompatibilityError, continue, mapped, ulp_error, tls_crypto_info_error, Outcome, returned,
  failed_with, panics, out_of_fuel, Result, ok, err,
}
use proxy_printer.Ktls.Ffi.{
  CryptoInfo, Kernel, SocketOption, last_os_error, tx, from_rustls, ulp_option, info_option,
  setup_ulp, setup_tls_info,
}
use proxy_printer.Ktls.Ciphers.{
  CompatibleCiphers, is_compatible, bulk_of, zero_secrets, sample_cipher_setup, ciphers, FieldRef,
  assign, record_result, probe_each, test_ciphers,
}

module _ {Io : Type 0} (b : Bindings) (kernel : Kernel Io) where
  open kernel use {setsockopt}

  -- The kernel takes the options, one after another.
  abbrev pub accepts : List SocketOption → Io → Bool
  accepts [] io = true
  accepts (o ∷ os) io =
      let (r, io') = setsockopt o io in elim r [ none ↦ accepts os io' | some e ↦ false ]

  -- The options of a probe: the upper level protocol, and the suite's structure with zero secrets.
  abbrev pub probe_options :
      SupportedCipherSuite → Result KtlsCompatibilityError CryptoInfo → List SocketOption
  probe_options suite (ok info) = ulp_option ∷ info_option b tx info ∷ []
  probe_options suite (err e) = []

  abbrev pub probe : SupportedCipherSuite → Io → Bool
  probe suite io =
      accepts (probe_options suite (from_rustls b suite (0, zero_secrets (bulk_of suite)))) io

  abbrev Told : Bool → Outcome (Unit {0}) → Type 0
  Told v (returned u) = v ≡ true
  Told v (failed_with e) = v ≡ false
  Told v panics = ⊥
  Told v out_of_fuel = ⊥

  info-Told :
      (info : CryptoInfo) (q : Option IoError × Io)
      → Told
          (elim q.0 [ none ↦ true | some e ↦ false ])
          (mapped tls_crypto_info_error (last_os_error q)).0
  info-Told info (none, io) = refl
  info-Told info (some e, io) = refl

  ulp-Told :
      (info : CryptoInfo) (q : Option IoError × Io)
      → Told
          (elim q.0 [ none ↦ accepts (info_option b tx info ∷ []) q.1 | some e ↦ false ])
          (continue (λ _. setup_tls_info kernel b tx info) (mapped ulp_error (last_os_error q))).0
  unfolding setup_tls_info
  ulp-Told info (none, io) = info-Told info (setsockopt (info_option b tx info) io)
  ulp-Told info (some e, io) = refl

  sample-Told :
      (suite : SupportedCipherSuite) (io : Io)
      → Told (probe suite io) (sample_cipher_setup b kernel suite io).0
  unfolding sample_cipher_setup setup_ulp from_rustls
  sample-Told (tls12 n BulkAlgorithm.aes128_gcm) io = ulp-Told _ (setsockopt ulp_option io)
  sample-Told (tls12 n BulkAlgorithm.aes256_gcm) io = ulp-Told _ (setsockopt ulp_option io)
  sample-Told (tls12 n BulkAlgorithm.chacha20_poly1305) io = ulp-Told _ (setsockopt ulp_option io)
  sample-Told (tls13 n BulkAlgorithm.aes128_gcm) io = ulp-Told _ (setsockopt ulp_option io)
  sample-Told (tls13 n BulkAlgorithm.aes256_gcm) io = ulp-Told _ (setsockopt ulp_option io)
  sample-Told (tls13 n BulkAlgorithm.chacha20_poly1305) io = ulp-Told _ (setsockopt ulp_option io)

  record_result_lem :
      (field : FieldRef) (v : Bool) (q : Outcome (Unit {0})) (c : CompatibleCiphers)
      → Told v q
      → record_result b kernel field q c ≡ returned (assign field v c)
  record_result_lem field v (returned u) c h = rw h refl
  record_result_lem field v (failed_with e) c h = rw h refl
  record_result_lem field v panics c h = absurd h
  record_result_lem field v out_of_fuel c h = absurd h

  -- The flags after the probes.
  abbrev assigned :
      List (SupportedCipherSuite × FieldRef) → List Io → CompatibleCiphers → CompatibleCiphers
  assigned [] socks c = c
  assigned ((suite, field) ∷ rest) [] c = c
  assigned ((suite, field) ∷ rest) (sock ∷ socks) c =
      assigned rest socks (assign field (probe suite sock) c)

  probe_each-assigned :
      (l : List (SupportedCipherSuite × FieldRef)) (socks : List Io) (c : CompatibleCiphers)
      → probe_each b kernel l socks (returned c) ≡ returned (assigned l socks c)
  unfolding probe_each
  probe_each-assigned [] socks c = refl
  probe_each-assigned ((suite, field) ∷ rest) [] c = refl
  probe_each-assigned ((suite, field) ∷ rest) (sock ∷ socks) c =
      ap (probe_each b kernel rest socks)
        (record_result_lem field (probe suite sock) _ c (sample-Told suite sock))
      ∙ probe_each-assigned rest socks (assign field (probe suite sock) c)

  module _ (su : Suites) (s0 s1 s2 s3 s4 s5 : Io) where
    abbrev pub socks : List Io
    socks = s0 ∷ s1 ∷ s2 ∷ s3 ∷ s4 ∷ s5 ∷ []

    -- The suite and the socket that were tried for a version and a bulk algorithm.
    abbrev pub tried : SupportedCipherSuite → SupportedCipherSuite × Io
    tried (tls13 n BulkAlgorithm.aes128_gcm) =
        (tls13 su.tls13_aes_128_gcm_sha256 BulkAlgorithm.aes128_gcm, s0)
    tried (tls13 n BulkAlgorithm.aes256_gcm) =
        (tls13 su.tls13_aes_256_gcm_sha384 BulkAlgorithm.aes256_gcm, s1)
    tried (tls13 n BulkAlgorithm.chacha20_poly1305) =
        (tls13 su.tls13_chacha20_poly1305_sha256 BulkAlgorithm.chacha20_poly1305, s2)
    tried (tls12 n BulkAlgorithm.aes128_gcm) =
        (tls12 su.tls_ecdhe_ecdsa_with_aes_128_gcm_sha256 BulkAlgorithm.aes128_gcm, s3)
    tried (tls12 n BulkAlgorithm.aes256_gcm) =
        (tls12 su.tls_ecdhe_ecdsa_with_aes_256_gcm_sha384 BulkAlgorithm.aes256_gcm, s4)
    tried (tls12 n BulkAlgorithm.chacha20_poly1305) =
        (tls12 su.tls_ecdhe_ecdsa_with_chacha20_poly1305_sha256 BulkAlgorithm.chacha20_poly1305, s5)

    abbrev found : SupportedCipherSuite → Bool
    found suite = let (s, io) = tried suite in probe s io

    -- What the flags say of a suite.
    abbrev pub Tells : Outcome CompatibleCiphers → SupportedCipherSuite → Type 0
    Tells (returned c) suite = is_compatible c suite ≡ found suite
    Tells (failed_with e) suite = ⊥
    Tells panics suite = ⊥
    Tells out_of_fuel suite = ⊥

    -- The probes on six sockets do not panic, whatever the flags were before. Afterwards a suite counts
    -- as compatible exactly if the kernel took, on the socket of its version and bulk algorithm, the
    -- upper level protocol and then the sending structure of the suite named for them.
    pub test_ciphers-Tells :
        (c : CompatibleCiphers) (suite : SupportedCipherSuite)
        → Tells (test_ciphers b kernel su c socks) suite
    unfolding test_ciphers is_compatible
    test_ciphers-Tells c suite = rw (probe_each-assigned (ciphers su) socks c) (each suite)
      where
        each :
            (s : SupportedCipherSuite) → is_compatible (assigned (ciphers su) socks c) s ≡ found s
        each (tls13 n BulkAlgorithm.aes128_gcm) = refl
        each (tls13 n BulkAlgorithm.aes256_gcm) = refl
        each (tls13 n BulkAlgorithm.chacha20_poly1305) = refl
        each (tls12 n BulkAlgorithm.aes128_gcm) = refl
        each (tls12 n BulkAlgorithm.aes256_gcm) = refl
        each (tls12 n BulkAlgorithm.chacha20_poly1305) = refl
