-- ===== src/Ktls/Ciphers.antt =====
-- ktls/src/lib.rs, `CompatibleCiphers`: which ciphers the kernel takes, found by setting each one up
-- on a socket of its own.
pub mod Probes
pub mod Connections
mod Tests
use proxy_printer.Base.{ℕ, Bool, true, false, List, [], ◌∷◌, replicate, if◌then◌else◌}
use proxy_printer.Ktls.Rustls.{
  BulkAlgorithm, SupportedCipherSuite, tls12, tls13, ConnectionTrafficSecrets, Bindings, Suites,
}
use proxy_printer.Ktls.Results.{
  ulp_error, Outcome, returned, failed_with, panics, out_of_fuel, Action, mapped, unwrap, continue,
  ◌>>=◌, ◌>>◌,
}
use proxy_printer.Ktls.Ffi.{Kernel, tx, from_rustls, setup_ulp, setup_tls_info}

pub record CompatibleCiphersForVersion : Type 0 where
  pub aes_gcm_128 : Bool
  pub aes_gcm_256 : Bool
  pub chacha20_poly1305 : Bool

pub record CompatibleCiphers : Type 0 where
  pub tls12 : CompatibleCiphersForVersion
  pub tls13 : CompatibleCiphersForVersion

-- The field of a bulk algorithm.
abbrev pub field_of : CompatibleCiphersForVersion → BulkAlgorithm → Bool
field_of fields BulkAlgorithm.aes128_gcm = fields.aes_gcm_128
field_of fields BulkAlgorithm.aes256_gcm = fields.aes_gcm_256
field_of fields BulkAlgorithm.chacha20_poly1305 = fields.chacha20_poly1305

pub is_compatible : CompatibleCiphers → SupportedCipherSuite → Bool
is_compatible c (SupportedCipherSuite.tls12 n bulk) = field_of c.tls12 bulk
is_compatible c (SupportedCipherSuite.tls13 n bulk) = field_of c.tls13 bulk

abbrev pub bulk_of : SupportedCipherSuite → BulkAlgorithm
bulk_of (SupportedCipherSuite.tls12 n bulk) = bulk
bulk_of (SupportedCipherSuite.tls13 n bulk) = bulk

-- `Default::default()` for each array, of the length that rustls gives it.
abbrev pub zero_secrets : BulkAlgorithm → ConnectionTrafficSecrets
zero_secrets BulkAlgorithm.aes128_gcm =
    ConnectionTrafficSecrets.aes128_gcm (replicate 16 0) (replicate 4 0) (replicate 8 0)
zero_secrets BulkAlgorithm.aes256_gcm =
    ConnectionTrafficSecrets.aes256_gcm (replicate 32 0) (replicate 4 0) (replicate 8 0)
zero_secrets BulkAlgorithm.chacha20_poly1305 =
    ConnectionTrafficSecrets.chacha20_poly1305 (replicate 32 0) (replicate 12 0)

-- `&mut self.tls13.aes_gcm_128` and the like: where the result of a probe goes.
pub data FieldRef : Type 0 where
  of_tls12 of_tls13 : BulkAlgorithm → FieldRef

abbrev set_field : BulkAlgorithm → Bool → CompatibleCiphersForVersion → CompatibleCiphersForVersion
set_field BulkAlgorithm.aes128_gcm v fields = record fields { aes_gcm_128 = v }
set_field BulkAlgorithm.aes256_gcm v fields = record fields { aes_gcm_256 = v }
set_field BulkAlgorithm.chacha20_poly1305 v fields = record fields { chacha20_poly1305 = v }

abbrev assign : FieldRef → Bool → CompatibleCiphers → CompatibleCiphers
assign (of_tls12 bulk) v c = record c { tls12 = set_field bulk v c.tls12 }
assign (of_tls13 bulk) v c = record c { tls13 = set_field bulk v c.tls13 }

-- The array of `test_ciphers`.
abbrev pub ciphers : Suites → List (SupportedCipherSuite × FieldRef)
ciphers su =
    (
      SupportedCipherSuite.tls13 su.tls13_aes_128_gcm_sha256 BulkAlgorithm.aes128_gcm,
      of_tls13 BulkAlgorithm.aes128_gcm,
    )
    ∷ (
      SupportedCipherSuite.tls13 su.tls13_aes_256_gcm_sha384 BulkAlgorithm.aes256_gcm,
      of_tls13 BulkAlgorithm.aes256_gcm,
    )
    ∷ (
      SupportedCipherSuite.tls13 su.tls13_chacha20_poly1305_sha256 BulkAlgorithm.chacha20_poly1305,
      of_tls13 BulkAlgorithm.chacha20_poly1305,
    )
    ∷ (
      SupportedCipherSuite.tls12 su.tls_ecdhe_ecdsa_with_aes_128_gcm_sha256
          BulkAlgorithm.aes128_gcm,
      of_tls12 BulkAlgorithm.aes128_gcm,
    )
    ∷ (
      SupportedCipherSuite.tls12 su.tls_ecdhe_ecdsa_with_aes_256_gcm_sha384
          BulkAlgorithm.aes256_gcm,
      of_tls12 BulkAlgorithm.aes256_gcm,
    )
    ∷ (
      SupportedCipherSuite.tls12 su.tls_ecdhe_ecdsa_with_chacha20_poly1305_sha256
          BulkAlgorithm.chacha20_poly1305,
      of_tls12 BulkAlgorithm.chacha20_poly1305,
    )
    ∷ []

module _ {Io : Type 0} (b : Bindings) (kernel : Kernel Io) where
  pub sample_cipher_setup : SupportedCipherSuite → Action Io (Unit {0})
  sample_cipher_setup suite = do
    info ← unwrap (from_rustls b suite (0, zero_secrets (bulk_of suite)))
    λ fd. mapped ulp_error (setup_ulp kernel fd)
    setup_tls_info kernel b tx info

  -- `*field = sample_cipher_setup(..).is_ok()`.
  abbrev record_result :
      FieldRef → Outcome (Unit {0}) → CompatibleCiphers → Outcome CompatibleCiphers
  record_result field (returned u) c = returned (assign field true c)
  record_result field (failed_with e) c = returned (assign field false c)
  record_result field panics c = panics
  record_result field out_of_fuel c = out_of_fuel

  -- `ciphers.into_iter().zip(socks).for_each(..)`: as long as both have an entry.
  pub probe_each :
      List (SupportedCipherSuite × FieldRef)
      → List Io
      → Outcome CompatibleCiphers
      → Outcome CompatibleCiphers
  unfolding sample_cipher_setup
  probe_each [] socks c = c
  probe_each ((suite, field) ∷ rest) [] c = c
  probe_each ((suite, field) ∷ rest) (sock ∷ socks) (returned c) =
      probe_each rest socks (record_result field (sample_cipher_setup suite sock).0 c)
  probe_each ((suite, field) ∷ rest) (sock ∷ socks) (failed_with e) = failed_with e
  probe_each ((suite, field) ∷ rest) (sock ∷ socks) panics = panics
  probe_each ((suite, field) ∷ rest) (sock ∷ socks) out_of_fuel = out_of_fuel

  pub test_ciphers : Suites → CompatibleCiphers → List Io → Outcome CompatibleCiphers
  unfolding probe_each
  test_ciphers su c socks = probe_each (ciphers su) socks (returned c)
