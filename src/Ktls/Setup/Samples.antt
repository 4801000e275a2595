-- ===== src/Ktls/Setup/Samples.antt =====
-- A connection for the tests of the set-up (ktls/src/lib.rs), with three decrypted bytes.
use proxy_printer.Base.{
  ℕ, ◌≤◌, ◌≡◌, Bool, true, false, ◌∷◌, ◌++◌, List, [], some, refl, length, take, drop, arith,
  length-take,
}
use proxy_printer.Ktls.Rustls.{BulkAlgorithm, tls13}
use proxy_printer.Ktls.Results.{Outcome, returned, failed_with, panics, out_of_fuel}
use proxy_printer.Ktls.Ffi.{SocketOption, from_rustls, setup_ulp, setup_tls_info}
use proxy_printer.Ktls.Stream.{KtlsStream}
use proxy_printer.Ktls.Samples.{linux, willing, secrets}
use proxy_printer.Ktls.Setup.{
  got, TlsStream, Connected, drain, drain_loop, absorb, setup_inner, config_ktls,
}

-- The bytes taken, and those that are left.
abbrev pub Bytes : Type 0
Bytes = List ℕ × List ℕ

pub take_fits : (n : ℕ) (bs : List ℕ) → length (take n bs) ≤ n
take_fits n bs = omega (arith, length-take n bs)

abbrev pub three : TlsStream
three = record {
  Tls = Bytes;
  Io = List SocketOption;
  Connection = Unit;
  read = λ n t. (got (take n t.1), (t.0 ++ take n t.1, drop n t.1));
  cork = λ t. t;
  into_inner = λ t. ([], tt);
  taken = λ t. t.0;
  fits = λ n t. take_fits n t.1;
  logs = λ n t. refl;
  taken-cork = λ t. refl;
}

abbrev pub decrypted : Bytes
decrypted = ([], 1 ∷ 2 ∷ 3 ∷ [])

-- A TLS 1.3 connection that has sent two records and received three.
abbrev pub connected : Connected Unit
connected = record {
  negotiated_cipher_suite = λ c. some (tls13 0x1301 BulkAlgorithm.aes128_gcm);
  extract_secrets = λ c. some ((2, secrets), (3, secrets));
}

has_returned : {A : Type 0} → Outcome A → Bool
has_returned (returned a) = true
has_returned (failed_with e) = false
has_returned panics = false
has_returned out_of_fuel = false

value_of : {A : Type 0} (o : Outcome A) → has_returned o ≡ true → (a : A) × (o ≡ returned a)
unfolding has_returned
value_of (returned a) e = (a, refl)
value_of (failed_with x) e = cc
value_of panics e = cc
value_of out_of_fuel e = cc

-- The hand-over of this connection succeeds.
pub config_ktls-three :
    (s : KtlsStream (List SocketOption)) × (config_ktls three linux willing connected decrypted
      ≡ returned s)
unfolding has_returned config_ktls drain drain_loop absorb setup_inner setup_ulp setup_tls_info
    from_rustls
config_ktls-three = value_of _ refl
