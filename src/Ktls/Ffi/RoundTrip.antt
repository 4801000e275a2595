-- ===== src/Ktls/Ffi/RoundTrip.antt =====
-- What `CryptoInfo::from_rustls` (ktls/src/ffi.rs) puts into the structure that the kernel is given.
use proxy_printer.Base.{
  ℕ, ◌+◌, ◌*◌, ◌^◌, ◌<◌, ◌%◌, ◌≡◌, refl, ap, List, [], ◌∷◌, Option, none, some, arith,
}
use proxy_printer.Ktls.Rustls.{
  SupportedCipherSuite, tls12, tls13, ConnectionTrafficSecrets, other_secrets, Bindings,
}
use proxy_printer.Ktls.Results.{KtlsCompatibilityError, unsupported_cipher_suite, Result, ok, err}
use proxy_printer.Ktls.Ffi.{
  CryptoInfo, aes_gcm_128, aes_gcm_256, aes_ccm_128, chacha20_poly1305, sm4_gcm, sm4_ccm, as_ptr,
  to_be_bytes, size, from_rustls,
}

-- The number that big-endian bytes stand for.
abbrev pub from_be_bytes : ℕ → List ℕ → ℕ
from_be_bytes acc [] = acc
from_be_bytes acc (byte ∷ rest) = from_be_bytes (acc * 2 ^ 8 + byte) rest

from_be_bytes-to_be_bytes : (seq : ℕ) → seq < 2 ^ 64 → from_be_bytes 0 (to_be_bytes seq) ≡ seq
from_be_bytes-to_be_bytes seq h = omega arith

read_back :
    (seq : ℕ) (secrets : ConnectionTrafficSecrets)
    → seq < 2 ^ 64
    → ◌≡◌ {A = Option (ℕ × ConnectionTrafficSecrets)}
        (some (from_be_bytes 0 (to_be_bytes seq), secrets))
        (some (seq, secrets))
read_back seq secrets h = ap (λ n. some (n, secrets)) (from_be_bytes-to_be_bytes seq h)

-- What a structure says, in rustls's terms.
abbrev pub secrets_of : CryptoInfo → Option (ℕ × ConnectionTrafficSecrets)
secrets_of (aes_gcm_128 i) =
    some (from_be_bytes 0 i.rec_seq, ConnectionTrafficSecrets.aes128_gcm i.key i.salt i.iv)
secrets_of (aes_gcm_256 i) =
    some (from_be_bytes 0 i.rec_seq, ConnectionTrafficSecrets.aes256_gcm i.key i.salt i.iv)
secrets_of (chacha20_poly1305 i) =
    some (from_be_bytes 0 i.rec_seq, ConnectionTrafficSecrets.chacha20_poly1305 i.key i.iv)
secrets_of (aes_ccm_128 i) = none
secrets_of (sm4_gcm i) = none
secrets_of (sm4_ccm i) = none

-- The number of the cipher, and the size of its structure, in linux/tls.h.
module _ (b : Bindings) where
  abbrev pub cipher_number : ConnectionTrafficSecrets → Option (ℕ × ℕ)
  cipher_number (ConnectionTrafficSecrets.aes128_gcm key salt iv) =
      some (b.tls_cipher_aes_gcm_128, b.size_of_aes_gcm_128)
  cipher_number (ConnectionTrafficSecrets.aes256_gcm key salt iv) =
      some (b.tls_cipher_aes_gcm_256, b.size_of_aes_gcm_256)
  cipher_number (ConnectionTrafficSecrets.chacha20_poly1305 key iv) =
      some (b.tls_cipher_chacha20_poly1305, b.size_of_chacha20_poly1305)
  cipher_number other_secrets = none

  -- The major and the minor number of the version.
  abbrev pub version_bytes : SupportedCipherSuite → ℕ × ℕ
  version_bytes (tls12 n bulk) = (b.tls_1_2_version_major, b.tls_1_2_version_minor)
  version_bytes (tls13 n bulk) = (b.tls_1_3_version_major, b.tls_1_3_version_minor)

module _ (b : Bindings) (suite : SupportedCipherSuite) (seq : ℕ)
    (secrets : ConnectionTrafficSecrets) where
  -- The result has the secrets, and in the structure itself the version and the cipher, or the secrets
  -- are of no kind that is known.
  abbrev pub Keeps : Result KtlsCompatibilityError CryptoInfo → Type 0
  Keeps (ok info) =
      (secrets_of info ≡ some (seq, secrets))
      × (cipher_number b secrets ≡ some ((as_ptr info).cipher_type, size b info))
      × ((as_ptr info).version
          ≡ (version_bytes b suite).0 % 2 ^ 8 * 2 ^ 8 + (version_bytes b suite).1 % 2 ^ 8)
  Keeps (err e) = (e ≡ unsupported_cipher_suite suite) × (secrets ≡ other_secrets)

-- From the structure that `from_rustls` makes, the sequence number (of 64 bits), the key, the salt and
-- the IV can be read back; the structure has the cipher number of linux/tls.h for the kind of the
-- secrets and the size of that cipher's structure, and its version is made of the major and the minor
-- number of the suite's version. The only error is for secrets of another kind.
pub from_rustls-Keeps :
    (b : Bindings) (suite : SupportedCipherSuite) (seq : ℕ) (secrets : ConnectionTrafficSecrets)
    → seq < 2 ^ 64
    → Keeps b suite seq secrets (from_rustls b suite (seq, secrets))
unfolding from_rustls
from_rustls-Keeps b (tls12 n bulk) seq (ConnectionTrafficSecrets.aes128_gcm key salt iv) h =
    (read_back seq _ h, refl, refl)
from_rustls-Keeps b (tls13 n bulk) seq (ConnectionTrafficSecrets.aes128_gcm key salt iv) h =
    (read_back seq _ h, refl, refl)
from_rustls-Keeps b (tls12 n bulk) seq (ConnectionTrafficSecrets.aes256_gcm key salt iv) h =
    (read_back seq _ h, refl, refl)
from_rustls-Keeps b (tls13 n bulk) seq (ConnectionTrafficSecrets.aes256_gcm key salt iv) h =
    (read_back seq _ h, refl, refl)
from_rustls-Keeps b (tls12 n bulk) seq (ConnectionTrafficSecrets.chacha20_poly1305 key iv) h =
    (read_back seq _ h, refl, refl)
from_rustls-Keeps b (tls13 n bulk) seq (ConnectionTrafficSecrets.chacha20_poly1305 key iv) h =
    (read_back seq _ h, refl, refl)
from_rustls-Keeps b suite seq other_secrets h = (refl, refl)
