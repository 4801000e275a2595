-- ===== src/Ktls/Setup/Tests.antt =====
-- `drain` (ktls/src/lib.rs) on a stream with three decrypted bytes.
use proxy_printer.Base.{[]}
use proxy_printer.Ktls.Samples.{linux, willing}
use proxy_printer.Ktls.Setup.Samples.{three, decrypted, connected}
use proxy_printer.Ktls.Setup.{drain, config_ktls}
use proxy_printer.Ktls.Setup.HandOver.{HandsOver, config_ktls-HandsOver}

config_ktls-HandsOver_example :
    HandsOver three linux willing connected []
      (drain three decrypted).1
      (config_ktls three linux willing connected decrypted)
config_ktls-HandsOver_example = config_ktls-HandsOver three linux willing connected decrypted
