-- ===== src/Ktls/Samples.antt =====
-- Concrete values for the tests of the set-up: the numbers of linux/tls.h, and a kernel that takes
-- every option.
use proxy_printer.Base.{◌∷◌, ◌++◌, List, [], none, refl, replicate}
use proxy_printer.Ktls.Rustls.{ConnectionTrafficSecrets, Bindings, Suites}
use proxy_printer.Ktls.Ffi.{Kernel, SocketOption}

abbrev pub linux : Bindings
linux = record {
  tls_1_2_version_major = 3;
  tls_1_2_version_minor = 3;
  tls_1_3_version_major = 3;
  tls_1_3_version_minor = 4;
  tls_cipher_aes_gcm_128 = 51;
  tls_cipher_aes_gcm_256 = 52;
  tls_cipher_chacha20_poly1305 = 54;
  size_of_aes_gcm_128 = 40;
  size_of_aes_gcm_256 = 56;
  size_of_aes_ccm_128 = 40;
  size_of_chacha20_poly1305 = 56;
  size_of_sm4_gcm = 40;
  size_of_sm4_ccm = 40;
}

abbrev pub suites : Suites
suites = record {
  tls13_aes_128_gcm_sha256 = 0x1301;
  tls13_aes_256_gcm_sha384 = 0x1302;
  tls13_chacha20_poly1305_sha256 = 0x1303;
  tls_ecdhe_ecdsa_with_aes_128_gcm_sha256 = 0xC02B;
  tls_ecdhe_ecdsa_with_aes_256_gcm_sha384 = 0xC02C;
  tls_ecdhe_ecdsa_with_chacha20_poly1305_sha256 = 0xCCA9;
}

-- A socket is the list of its options.
abbrev pub willing : Kernel (List SocketOption)
willing = record {
  setsockopt = λ o io. (none, io ++ o ∷ []);
  options = λ io. io;
  options-setsockopt = λ o io. refl;
}

abbrev pub secrets : ConnectionTrafficSecrets
secrets = ConnectionTrafficSecrets.aes128_gcm (replicate 16 7) (replicate 4 1) (replicate 8 2)
