-- ===== src/Splice.antt =====
-- turbine/src/splice_strategy: mod.rs, naive.rs, splice.rs and the trait's view of ebpf_sockmap.rs. A strategy
-- copies between two connections until both are at their end.
pub mod Reports
mod Tests
use proxy_printer.Base.{ℕ, Option, some, none}
use proxy_printer.Ktls.Io.{IoError}
use proxy_printer.Ktls.Results.{Result, ok, err}
use proxy_printer.Sockmap.{SockHash, TcpStream, Spliced, copies, gave_up, panicked, splice}

-- `io::Result<()>`, or a panic.
pub data Reply : Type 0 where
  done : Reply
  failed : IoError → Reply
  panics : Reply

-- A library's copy in both directions, with the bytes that went each way; it changes the world outside.
-- `tokio::io::copy_bidirectional` and `tokio_splice::zero_copy_bidirectional` are such copies, for a
-- local `TcpStream` and for a local `KtlsTcpStream`.
pub record Copy (World : Type 0) : Type 0 where
  pub plain : World → Result IoError (ℕ × ℕ) × World
  pub ktls : World → Result IoError (ℕ × ℕ) × World

-- `.map(|_| ())`.
abbrev pub unit_of : {World : Type 0} → Result IoError (ℕ × ℕ) × World → Reply × World
unit_of (ok n, w) = (done, w)
unit_of (err e, w) = (failed e, w)

-- The trait: the world, and the map of sockets that `SockMapSplice` shares.
pub record SocketSplice (State : Type 0) : Type 0 where
  pub splice_bidirectional : TcpStream → TcpStream → State → Reply × State
  pub splice_ktls_bidirectional : TcpStream → TcpStream → State → Reply × State

abbrev pub State : SockHash → Type 0 → Type 0
State h World = h.Map × World

module _ {World : Type 0} (h : SockHash) where
  open h use {Map}

  abbrev pub beside : Map → Reply × World → Reply × State h World
  beside m (r, w) = (r, (m, w))

  -- `NaiveSplice::splice` and `SpliceSyscall::splice`, which differ in the library's copy.
  unfoldable pub by_copy : Copy World → SocketSplice (State h World)
  by_copy c = record {
    splice_bidirectional = λ local upstream s. beside s.0 (unit_of (c.plain s.1));
    splice_ktls_bidirectional = λ local upstream s. beside s.0 (unit_of (c.ktls s.1));
  }

  abbrev pub naive_splice : Copy World → SocketSplice (State h World)
  naive_splice tokio = by_copy tokio

  abbrev pub splice_syscall : Copy World → SocketSplice (State h World)
  splice_syscall zero_copy = by_copy zero_copy

  -- `let _ = copy_bidirectional(..)` behind the insertions.
  abbrev pub then_copy : Copy World → World → Spliced × Map → Reply × State h World
  then_copy c w (copies, m) = (done, (m, (c.plain w).1))
  then_copy c w (gave_up, m) = (done, (m, w))
  then_copy c w (panicked, m) = (panics, (m, w))

  -- `SockMapSplice`; its copy of a `KtlsTcpStream` is `todo!()`.
  unfoldable pub by_map : Copy World → SocketSplice (State h World)
  by_map c = record {
    splice_bidirectional = λ local upstream s. then_copy c s.1 (splice h s.0 local upstream);
    splice_ktls_bidirectional = λ local upstream s. (panics, s);
  }
