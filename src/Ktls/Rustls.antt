-- ===== src/Ktls/Rustls.antt =====
-- What ktls/src takes from rustls and ktls_sys: the shapes of their types, and their constants, which
-- are parameters.
use proxy_printer.Base.{ℕ, List}

-- `rustls::BulkAlgorithm`.
pub data BulkAlgorithm : Type 0 where
  aes128_gcm aes256_gcm chacha20_poly1305 : BulkAlgorithm

-- `rustls::SupportedCipherSuite`: a suite by its number and its `common.bulk`.
pub data SupportedCipherSuite : Type 0 where
  tls12 tls13 : ℕ → BulkAlgorithm → SupportedCipherSuite

-- `rustls::ConnectionTrafficSecrets`, which is non-exhaustive.
pub data ConnectionTrafficSecrets : Type 0 where
  aes128_gcm aes256_gcm : List ℕ → List ℕ → List ℕ → ConnectionTrafficSecrets
  chacha20_poly1305 : List ℕ → List ℕ → ConnectionTrafficSecrets
  other_secrets : ConnectionTrafficSecrets

-- The numbers of linux/tls.h, as ktls_sys has them, and the sizes of its structures.
pub record Bindings : Type 0 where
  pub tls_1_2_version_major : ℕ
  pub tls_1_2_version_minor : ℕ
  pub tls_1_3_version_major : ℕ
  pub tls_1_3_version_minor : ℕ
  pub tls_cipher_aes_gcm_128 : ℕ
  pub tls_cipher_aes_gcm_256 : ℕ
  pub tls_cipher_chacha20_poly1305 : ℕ
  pub size_of_aes_gcm_128 : ℕ
  pub size_of_aes_gcm_256 : ℕ
  pub size_of_aes_ccm_128 : ℕ
  pub size_of_chacha20_poly1305 : ℕ
  pub size_of_sm4_gcm : ℕ
  pub size_of_sm4_ccm : ℕ

-- The six suites that ktls/src/lib.rs names, each of the version and the bulk algorithm of its name.
pub record Suites : Type 0 where
  pub tls13_aes_128_gcm_sha256 : ℕ
  pub tls13_aes_256_gcm_sha384 : ℕ
  pub tls13_chacha20_poly1305_sha256 : ℕ
  pub tls_ecdhe_ecdsa_with_aes_128_gcm_sha256 : ℕ
  pub tls_ecdhe_ecdsa_with_aes_256_gcm_sha384 : ℕ
  pub tls_ecdhe_ecdsa_with_chacha20_poly1305_sha256 : ℕ
