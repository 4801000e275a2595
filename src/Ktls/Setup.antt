-- ===== src/Ktls/Setup.antt =====
-- ktls/src/lib.rs, `drain`, `setup_inner` and `config_ktls_server`: the hand-over of a connection
-- from rustls to the kernel. rustls's stream and the system calls are parameters.
pub mod Draining
pub mod Options
pub mod HandOver
pub mod Samples
mod Tests
use proxy_printer.Base.{
  ℕ, zero, suc, ◌+◌, ◌-◌, ◌*◌, ◌≤◌, ◌≡◌, Bool, true, false, List, [], ◌∷◌, ◌++◌, Option, some, none,
  length, if◌then◌else◌,
}
use proxy_printer.Ktls.Io.{IoError, ErrorKind, unexpected_eof, broken_pipe, other_kind}
use proxy_printer.Ktls.Rustls.{SupportedCipherSuite, ConnectionTrafficSecrets, Bindings}
use proxy_printer.Ktls.Results.{
  Error, ulp_error, ktls_compatibility, export_secrets, drain_error, no_negotiated_cipher_suite,
  Outcome, returned, failed_with, out_of_fuel, and_then, Action, lift, or_fail, mapped, ◌>>=◌, ◌>>◌,
}
use proxy_printer.Ktls.Ffi.{Kernel, tx, rx, from_rustls, setup_ulp, setup_tls_info}
use proxy_printer.Ktls.Stream.{KtlsStream, new}

-- What `read(..).await` ends with.
pub data Answer : Type 0 where
  got : List ℕ → Answer
  fails : IoError → Answer

abbrev pub bytes_of : Answer → List ℕ
bytes_of (got bs) = bs
bytes_of (fails e) = []

-- A `TlsStream` over a `CorkStream`: a read gives no more than it is asked for, and `taken` are the
-- decrypted bytes read so far. `cork` sets the flag of the inner stream; `into_inner` takes the stream
-- apart.
pub record TlsStream : Type 1 where
  pub Tls : Type 0
  pub Io : Type 0
  pub Connection : Type 0
  pub read : ℕ → Tls → Answer × Tls
  pub cork : Tls → Tls
  pub into_inner : Tls → Io × Connection
  pub taken : Tls → List ℕ
  pub fits : (n : ℕ) (t : Tls) → length (bytes_of (read n t).0) ≤ n
  pub logs : (n : ℕ) (t : Tls) → taken (read n t).1 ≡ taken t ++ bytes_of (read n t).0
  pub taken-cork : (t : Tls) → taken (cork t) ≡ taken t

-- What rustls tells of a connection (`rustls::Connection`); an error of the extraction has no content
-- here. Each secret comes with its sequence number.
pub record Connected (Connection : Type 0) : Type 0 where
  pub negotiated_cipher_suite : Connection → Option SupportedCipherSuite
  pub extract_secrets :
      Connection → Option ((ℕ × ConnectionTrafficSecrets) × (ℕ × ConnectionTrafficSecrets))

-- `vec![0u8; 128 * 1024]`.
abbrev pub buffer_size : ℕ
buffer_size = 128 * 1024

pub is_eof : IoError → Bool
is_eof e = elim e.kind [ unexpected_eof ↦ true | broken_pipe ↦ false | other_kind ↦ false ]

module _ (tls : TlsStream) where
  open tls use {Tls, read}

  -- One answer, with the bytes so far; `again` goes round the loop.
  absorb : (List ℕ → Tls → Outcome (List ℕ) × Tls) → List ℕ → Answer × Tls → Outcome (List ℕ) × Tls
  unfolding is_eof
  absorb again so_far (got [], t) = (returned so_far, t)
  absorb again so_far (got (b ∷ bs), t) = again (so_far ++ b ∷ bs) t
  absorb again so_far (fails e, t) =
      if is_eof e then (returned so_far, t) else (failed_with (drain_error e), t)

  drain_loop : ℕ → List ℕ → Tls → Outcome (List ℕ) × Tls
  drain_loop zero so_far t = (out_of_fuel, t)
  drain_loop (suc fuel) so_far t =
      absorb (drain_loop fuel) so_far (read (buffer_size - length so_far) t)

  -- `None` where nothing was read.
  abbrev pub maybe_drained : List ℕ → Option (List ℕ)
  maybe_drained [] = none
  maybe_drained (b ∷ bs) = some (b ∷ bs)

  -- Each round but the last reads a byte, and the buffer is full after `buffer_size` of them.
  pub drain : Tls → Outcome (Option (List ℕ)) × Tls
  drain t =
      let (r, t') = drain_loop (suc buffer_size) [] t in
      (and_then r (λ bs. returned (maybe_drained bs)), t')

module _ {Io Connection : Type 0} (b : Bindings) (kernel : Kernel Io)
    (rustls : Connected Connection) where
  open rustls use {negotiated_cipher_suite, extract_secrets}

  pub setup_inner : Connection → Action Io (Unit {0})
  setup_inner conn = do
    cipher_suite ← or_fail no_negotiated_cipher_suite (negotiated_cipher_suite conn)
    secrets ← or_fail export_secrets (extract_secrets conn)
    λ fd. mapped ulp_error (setup_ulp kernel fd)
    tx_info ← lift ktls_compatibility (from_rustls b cipher_suite secrets.0)
    setup_tls_info kernel b tx tx_info
    rx_info ← lift ktls_compatibility (from_rustls b cipher_suite secrets.1)
    setup_tls_info kernel b rx rx_info

  -- The end of `config_ktls_server` and `config_ktls_client`: `setup_inner(..)?` and the new stream.
  abbrev pub hand_over : Connection → Option (List ℕ) → Io → Outcome (KtlsStream Io)
  hand_over conn drained io =
      let (r, io') = setup_inner conn io in and_then r (λ _. returned (new io' drained))

module _ (tls : TlsStream) (b : Bindings) (kernel : Kernel tls.Io)
    (rustls : Connected tls.Connection) where
  open tls use {Tls, Io, cork, into_inner}

  -- `config_ktls_server` and `config_ktls_client`, which differ in the kind of rustls's connection.
  pub config_ktls : Tls → Outcome (KtlsStream Io)
  config_ktls stream =
      let (r, stream') = drain tls (cork stream) in
      and_then r
        (λ drained. hand_over b kernel rustls (into_inner stream').1 drained (into_inner stream').0)
