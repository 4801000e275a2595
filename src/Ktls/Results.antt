-- ===== src/Ktls/Results.antt =====
-- The errors of ktls/src/lib.rs and ktls/src/ffi.rs, and results of code that also changes a socket.
use proxy_printer.Base.{Option, none, some}
use proxy_printer.Ktls.Io.{IoError}
use proxy_printer.Ktls.Rustls.{SupportedCipherSuite}

pub data KtlsCompatibilityError : Type 0 where
  unsupported_cipher_suite : SupportedCipherSuite → KtlsCompatibilityError
  wrong_size_key wrong_size_iv : KtlsCompatibilityError

pub data Error : Type 0 where
  ulp_error : IoError → Error
  ktls_compatibility : KtlsCompatibilityError → Error
  export_secrets : Error
  tls_crypto_info_error : IoError → Error
  drain_error : IoError → Error
  no_negotiated_cipher_suite : Error

-- `Result<A, E>`.
pub data Result (E A : Type 0) : Type 0 where
  ok : A → Result E A
  err : E → Result E A

-- `Result<A, Error>`, or a panic, or a loop that its fuel has cut short.
pub data Outcome (A : Type 0) : Type 0 where
  returned : A → Outcome A
  failed_with : Error → Outcome A
  panics : Outcome A
  out_of_fuel : Outcome A

abbrev pub and_then : {A B : Type 0} → Outcome A → (A → Outcome B) → Outcome B
and_then (returned a) f = f a
and_then (failed_with e) f = failed_with e
and_then panics f = panics
and_then out_of_fuel f = out_of_fuel

-- Code over a state, the socket: what it did stays done when it fails.
abbrev pub Action : Type 0 → Type 0 → Type 0
Action S A = S → Outcome A × S

module _ {S A : Type 0} where
  abbrev pub pure : A → Action S A
  pure a s = (returned a, s)

  -- `?` on a value, its error mapped.
  abbrev pub lift : {E : Type 0} → (E → Error) → Result E A → Action S A
  lift f (ok a) s = (returned a, s)
  lift f (err e) s = (failed_with (f e), s)

  -- `?` on an option.
  abbrev pub or_fail : Error → Option A → Action S A
  or_fail e none s = (failed_with e, s)
  or_fail e (some a) s = (returned a, s)

  -- `?` on a call that changes the state.
  abbrev pub mapped : (IoError → Error) → Result IoError A × S → Outcome A × S
  mapped f (ok a, s) = (returned a, s)
  mapped f (err e, s) = (failed_with (f e), s)

  abbrev pub unwrap : {E : Type 0} → Result E A → Action S A
  unwrap (ok a) s = (returned a, s)
  unwrap (err e) s = (panics, s)

abbrev pub continue : {S A B : Type 0} → (A → Action S B) → Outcome A × S → Outcome B × S
continue f (returned a, s) = f a s
continue f (failed_with e, s) = (failed_with e, s)
continue f (panics, s) = (panics, s)
continue f (out_of_fuel, s) = (out_of_fuel, s)

infixl 5 ◌>>=◌ ◌>>◌
abbrev pub ◌>>=◌ : {S A B : Type 0} → Action S A → (A → Action S B) → Action S B
◌>>=◌ m f s = continue f (m s)

abbrev pub ◌>>◌ : {S A B : Type 0} → Action S A → Action S B → Action S B
m >> k = m >>= λ _. k
