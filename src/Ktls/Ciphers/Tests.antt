-- ===== src/Ktls/Ciphers/Tests.antt =====
-- `CompatibleCiphers::new` (ktls/src/lib.rs) on a kernel that takes every option.
use proxy_printer.Base.{refl, ap, inl, inr, List, [], ◌∷◌}
use proxy_printer.Net.{v4}
use proxy_printer.Ktls.Io.{IoError}
use proxy_printer.Ktls.Results.{Result, ok, err}
use proxy_printer.Ktls.Ffi.{SocketOption}
use proxy_printer.Ktls.Ciphers.Connections.{Loopback, IsJoined, TryJoinAll, new, IsNew, new-IsNew}
use proxy_printer.Ktls.Samples.{linux, suites, willing}

-- One future after another.
module _ {Io : Type 0} where
  abbrev cons : Io → Result IoError (List Io) → Result IoError (List Io)
  cons io (ok ios) = ok (io ∷ ios)
  cons io (err e) = err e

  abbrev in_turn : List (Result IoError Io) → Result IoError (List Io)
  in_turn [] = ok []
  in_turn (err e ∷ rs) = err e
  in_turn (ok io ∷ rs) = cons io (in_turn rs)

  cons-IsJoined :
      (io : Io) (rs : List (Result IoError Io)) (q : Result IoError (List Io))
      → IsJoined rs q
      → IsJoined (ok io ∷ rs) (cons io q)
  cons-IsJoined io rs (ok ios) h = ap (ok io ∷◌) h
  cons-IsJoined io rs (err e) h = inr h

  in_turn-IsJoined : (rs : List (Result IoError Io)) → IsJoined rs (in_turn rs)
  in_turn-IsJoined [] = refl
  in_turn-IsJoined (err e ∷ rs) = inl refl
  in_turn-IsJoined (ok io ∷ rs) = cons-IsJoined io rs (in_turn rs) (in_turn-IsJoined rs)

abbrev futures : TryJoinAll (List SocketOption)
futures = record { try_join_all = in_turn; joins = in_turn-IsJoined }

abbrev loopback : Loopback (List SocketOption)
loopback = record { bind = ok tt; local_addr = ok (v4 0x7F000001 40000); connect = λ addr i. ok [] }

new-IsNew_example :
    IsNew linux willing suites loopback futures (new linux willing suites loopback futures)
new-IsNew_example = new-IsNew linux willing suites loopback futures
