-- ===== src/Ktls/Ffi.antt =====
-- ktls/src/ffi.rs: the options that hand a connection to the kernel, and the close_notify alert. The
-- system calls `setsockopt` and `sendmsg` are parameters.
pub mod RoundTrip
mod Tests
use proxy_printer.Base.{
  ℕ, ◌+◌, ◌*◌, ◌/◌, ◌%◌, ◌^◌, ◌≡◌, List, [], ◌∷◌, ◌++◌, Option, none, some, length,
}
use proxy_printer.Ktls.Io.{IoError}
use proxy_printer.Ktls.Rustls.{
  SupportedCipherSuite, tls12, tls13, ConnectionTrafficSecrets, other_secrets, Bindings,
}
use proxy_printer.Ktls.Results.{
  KtlsCompatibilityError, unsupported_cipher_suite, Error, tls_crypto_info_error, Result, ok, err,
  Outcome, mapped,
}

abbrev pub sol_tcp : ℕ
sol_tcp = 6

abbrev pub tcp_ulp : ℕ
tcp_ulp = 31

abbrev pub sol_tls : ℕ
sol_tls = 282

abbrev pub tls_tx : ℕ
tls_tx = 1

abbrev pub tlx_rx : ℕ
tlx_rx = 2

pub data Direction : Type 0 where
  tx rx : Direction

-- `From<Direction> for libc::c_int`.
abbrev pub option_name : Direction → ℕ
option_name tx = tls_tx
option_name rx = tlx_rx

-- Two bytes of a version; the `|` of the source joins disjoint bits.
abbrev pub version_number : ℕ → ℕ → ℕ
version_number major minor = major % 2 ^ 8 * 2 ^ 8 + minor % 2 ^ 8

-- The fields that the structures of linux/tls.h have in common; the salt of ChaCha20-Poly1305 is empty.
pub record CryptoFields : Type 0 where
  pub version : ℕ
  pub cipher_type : ℕ
  pub iv : List ℕ
  pub key : List ℕ
  pub salt : List ℕ
  pub rec_seq : List ℕ

pub data CryptoInfo : Type 0 where
  aes_gcm_128 aes_gcm_256 aes_ccm_128 chacha20_poly1305 : CryptoFields → CryptoInfo
  sm4_gcm sm4_ccm : CryptoFields → CryptoInfo

-- What `as_ptr` points at.
abbrev pub as_ptr : CryptoInfo → CryptoFields
as_ptr (aes_gcm_128 info) = info
as_ptr (aes_gcm_256 info) = info
as_ptr (aes_ccm_128 info) = info
as_ptr (chacha20_poly1305 info) = info
as_ptr (sm4_gcm info) = info
as_ptr (sm4_ccm info) = info

-- `u64::to_be_bytes`.
abbrev pub byte_of : ℕ → ℕ → ℕ
byte_of seq k = seq / 2 ^ (8 * k) % 2 ^ 8

abbrev pub to_be_bytes : ℕ → List ℕ
to_be_bytes seq =
    byte_of seq 7
    ∷ byte_of seq 6
    ∷ byte_of seq 5
    ∷ byte_of seq 4
    ∷ byte_of seq 3
    ∷ byte_of seq 2
    ∷ byte_of seq 1
    ∷ byte_of seq 0
    ∷ []

module _ (b : Bindings) where
  abbrev pub tls_1_2_version_number : ℕ
  tls_1_2_version_number = version_number b.tls_1_2_version_major b.tls_1_2_version_minor

  abbrev pub tls_1_3_version_number : ℕ
  tls_1_3_version_number = version_number b.tls_1_3_version_major b.tls_1_3_version_minor

  abbrev pub size : CryptoInfo → ℕ
  size (aes_gcm_128 info) = b.size_of_aes_gcm_128
  size (aes_gcm_256 info) = b.size_of_aes_gcm_256
  size (aes_ccm_128 info) = b.size_of_aes_ccm_128
  size (chacha20_poly1305 info) = b.size_of_chacha20_poly1305
  size (sm4_gcm info) = b.size_of_sm4_gcm
  size (sm4_ccm info) = b.size_of_sm4_ccm

  abbrev pub version_of : SupportedCipherSuite → ℕ
  version_of (tls12 n bulk) = tls_1_2_version_number
  version_of (tls13 n bulk) = tls_1_3_version_number

  unfoldable pub from_rustls :
      SupportedCipherSuite → ℕ × ConnectionTrafficSecrets → Result KtlsCompatibilityError CryptoInfo
  from_rustls suite (seq, ConnectionTrafficSecrets.aes128_gcm key salt iv) = ok (
      aes_gcm_128 (record {
        version = version_of suite;
        cipher_type = b.tls_cipher_aes_gcm_128;
        iv = iv;
        key = key;
        salt = salt;
        rec_seq = to_be_bytes seq;
      }))
  from_rustls suite (seq, ConnectionTrafficSecrets.aes256_gcm key salt iv) = ok (
      aes_gcm_256 (record {
        version = version_of suite;
        cipher_type = b.tls_cipher_aes_gcm_256;
        iv = iv;
        key = key;
        salt = salt;
        rec_seq = to_be_bytes seq;
      }))
  from_rustls suite (seq, ConnectionTrafficSecrets.chacha20_poly1305 key iv) = ok (
      chacha20_poly1305 (record {
        version = version_of suite;
        cipher_type = b.tls_cipher_chacha20_poly1305;
        iv = iv;
        key = key;
        salt = [];
        rec_seq = to_be_bytes seq;
      }))
  from_rustls suite (seq, other_secrets) = err (unsupported_cipher_suite suite)

-- The value of a socket option: a text, or a structure.
pub data OptionValue : Type 0 where
  text : List ℕ → OptionValue
  structure : CryptoFields → OptionValue

-- The arguments of `setsockopt` behind the socket.
pub record SocketOption : Type 0 where
  pub level : ℕ
  pub name : ℕ
  pub value : OptionValue
  pub len : ℕ

-- The system call, and the options that a socket has been given. `none` is a return below zero, with
-- `last_os_error`; a call that fails sets nothing.
abbrev pub accepted : Option IoError → SocketOption → List SocketOption
accepted none o = o ∷ []
accepted (some e) o = []

pub record Kernel (Io : Type 0) : Type 0 where
  pub setsockopt : SocketOption → Io → Option IoError × Io
  pub options : Io → List SocketOption
  pub options-setsockopt :
      (o : SocketOption) (io : Io)
      → options (setsockopt o io).1 ≡ options io ++ accepted (setsockopt o io).0 o

-- `if ret < 0 { return Err(last_os_error()) } Ok(())`.
abbrev pub last_os_error : {Io : Type 0} → Option IoError × Io → Result IoError (Unit {0}) × Io
last_os_error (none, io) = (ok tt, io)
last_os_error (some e, io) = (err e, io)

-- "tls", of length 3, without a terminating zero.
abbrev pub ulp_option : SocketOption
ulp_option = record {
  level = sol_tcp;
  name = tcp_ulp;
  value = text (b't' ∷ b'l' ∷ b's' ∷ []);
  len = 3;
}

abbrev pub info_option : Bindings → Direction → CryptoInfo → SocketOption
info_option b dir info = record {
  level = sol_tls;
  name = option_name dir;
  value = structure (as_ptr info);
  len = size b info;
}

module _ {Io : Type 0} (kernel : Kernel Io) where
  open kernel use {setsockopt}

  unfoldable pub setup_ulp : Io → Result IoError (Unit {0}) × Io
  setup_ulp fd = last_os_error (setsockopt ulp_option fd)

  unfoldable pub setup_tls_info : Bindings → Direction → CryptoInfo → Io → Outcome (Unit {0}) × Io
  setup_tls_info b dir info fd =
      mapped tls_crypto_info_error (last_os_error (setsockopt (info_option b dir info) fd))
