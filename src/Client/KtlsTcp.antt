-- ===== src/Client/KtlsTcp.antt =====
-- `KtlsTcpStream` (turbine/src/main.rs), through which the data transfer loop uses a `KtlsStream`. Its
-- `try_io_n` hands the caller's own system call on; vectored writes are those of tokio's traits.
use proxy_printer.Base.{ℕ, ◌+◌, ◌≤◌, ◌≡◌, refl, ap, ◌∙◌, List, [], ◌∷◌, none}
use proxy_printer.Ktls.Io.{Poll, ReadBuf}
use proxy_printer.Ktls.Socket.{Socket, WritePoll}
use proxy_printer.Ktls.Stream
use proxy_printer.Ktls.Stream.{KtlsStream, Polled, new}
use proxy_printer.Ktls.Stream.Closing
use proxy_printer.Ktls.Stream.Closing.{Call, reads, writes, flushes, shuts_down, notified-run-le}

pub record KtlsTcpStream (Io : Type 0) : Type 0 where
  pub inner : KtlsStream Io

module _ (sock : Socket) where
  open sock use {Io, notified}

  -- The answer, and the stream after the call.
  abbrev pub poll_read : KtlsTcpStream Io → ReadBuf → Polled Io × KtlsTcpStream Io
  poll_read s buf = let r = Stream.poll_read sock s.inner buf in (r, record { inner = r.stream })

  abbrev pub poll_write : KtlsTcpStream Io → List ℕ → WritePoll × KtlsTcpStream Io
  poll_write s bs =
      let (r, inner) = Stream.poll_write sock s.inner bs in (r, record { inner = inner })

  abbrev pub poll_flush : KtlsTcpStream Io → Poll × KtlsTcpStream Io
  poll_flush s = let (r, inner) = Stream.poll_flush sock s.inner in (r, record { inner = inner })

  abbrev pub poll_shutdown : KtlsTcpStream Io → Poll × KtlsTcpStream Io
  poll_shutdown s =
      let (r, inner) = Stream.poll_shutdown sock s.inner in (r, record { inner = inner })

  abbrev pub poll_read_ready_n : KtlsTcpStream Io → Poll
  poll_read_ready_n s = Stream.poll_read_ready sock s.inner

  abbrev pub poll_write_ready_n : KtlsTcpStream Io → Poll
  poll_write_ready_n s = Stream.poll_write_ready sock s.inner

  -- What the transfer loop calls, one after another.
  abbrev pub step : KtlsTcpStream Io → Call sock → KtlsTcpStream Io
  step s (reads buf) = (poll_read s buf).1
  step s (writes bs) = (poll_write s bs).1
  step s flushes = (poll_flush s).1
  step s shuts_down = (poll_shutdown s).1

  abbrev pub run : KtlsTcpStream Io → List (Call sock) → KtlsTcpStream Io
  run s [] = s
  run s (c ∷ cs) = run (step s c) cs

  step-inner :
      (s : KtlsTcpStream Io) (c : Call sock) → (step s c).inner ≡ Closing.step sock s.inner c
  unfolding Closing.step
  step-inner s (reads buf) = refl
  step-inner s (writes bs) = refl
  step-inner s flushes = refl
  step-inner s shuts_down = refl

  run-inner :
      (s : KtlsTcpStream Io) (cs : List (Call sock))
      → (run s cs).inner ≡ Closing.run sock s.inner cs
  unfolding Closing.run
  run-inner s [] = refl
  run-inner s (c ∷ cs) = run-inner (step s c) cs ∙ ap (λ t. Closing.run sock t cs) (step-inner s c)

  -- The stream of the transfer loop, `KtlsStream::new(tcp, None)` wrapped, sends at most two
  -- close_notify alerts, whatever the loop calls on it.
  pub notified-transfer-le :
      (tcp : Io) (cs : List (Call sock))
      → notified (run (record { inner = new tcp none }) cs).inner.inner ≤ notified tcp + 2
  notified-transfer-le tcp cs =
      rw (run-inner (record { inner = new tcp none }) cs) (notified-run-le sock tcp none cs)
