-- ===== src/Ktls/Ffi/Tests.antt =====
-- `from_rustls` (ktls/src/ffi.rs) on the secrets of an AES-128 connection.
use proxy_printer.Base.{arith}
use proxy_printer.Ktls.Rustls.{BulkAlgorithm, tls13}
use proxy_printer.Ktls.Ffi.{from_rustls}
use proxy_printer.Ktls.Ffi.RoundTrip.{Keeps, from_rustls-Keeps}
use proxy_printer.Ktls.Samples.{linux, secrets}

from_rustls-Keeps_example :
    Keeps linux
      (tls13 0x1301 BulkAlgorithm.aes128_gcm)
      258
      secrets
      (from_rustls linux (tls13 0x1301 BulkAlgorithm.aes128_gcm) (258, secrets))
from_rustls-Keeps_example =
    from_rustls-Keeps linux (tls13 0x1301 BulkAlgorithm.aes128_gcm) 258 secrets (omega arith)
