-- ===== src/Ktls/Stream/Closing.antt =====
-- How a `KtlsStream` (ktls/src/ktls_stream.rs) ends: which alerts close it, how often it sends a
-- close_notify, and what a closed stream still does.
use proxy_printer.Base.{
  ℕ, ◌+◌, ◌≤◌, ◌≡◌, refl, Bool, true, false, List, [], ◌∷◌, Option, some, none, arith,
}
use proxy_printer.Ktls.Io.{IoError, Reply, filled, failed, pending, ReadBuf, remaining}
use proxy_printer.Ktls.Socket.{
  Socket, Received, message, again, errno, tls_get_record_type, other_cmsg,
}
use proxy_printer.Ktls.Notify.{close_notify_msg, send_close_notify}
use proxy_printer.Ktls.Stream.{
  KtlsStream, TlsRecordType, alert, new, read_drained, hang_up, after_hang_up, read_alert,
  read_record, read_control, read_inner, poll_read, poll_write, poll_flush, poll_shutdown,
  finish_shutdown, record_type,
}

-- The close_notify alerts that a stream may still send, by its flags.
abbrev closings : Bool → ℕ
closings true = 0
closings false = 1

module _ (sock : Socket) where
  open sock use {
    Io, notified, written, delivered, recvmsg, poll_read as inner_read, notified-poll_read,
    notified-recvmsg, notified-send, notified-poll_write, notified-poll_shutdown,
    notified-poll_flush,
  }

  abbrev allowance : KtlsStream Io → ℕ
  allowance s = notified s.inner + closings s.read_closed + closings s.write_closed

  after_hang_up-stream :
      (buf : ReadBuf) (q : Option IoError × KtlsStream Io) → (after_hang_up sock buf q).stream ≡ q.1
  unfolding after_hang_up
  after_hang_up-stream buf (none, s) = refl
  after_hang_up-stream buf (some e, s) = refl

  hang_up-le :
      (s : KtlsStream Io) (buf : ReadBuf)
      → s.read_closed ≡ false
      → allowance (after_hang_up sock buf (hang_up sock s)).stream ≤ allowance s
  unfolding hang_up
  hang_up-le s buf h =
      rw (after_hang_up-stream buf (hang_up sock s))
        (ground (arith, notified-send (close_notify_msg sock) s.inner))

  read_alert-le :
      (s : KtlsStream Io) (buf : ReadBuf) (iov : Option (List ℕ))
      → s.read_closed ≡ false
      → allowance (read_alert sock s buf iov).stream ≤ allowance s
  unfolding read_alert
  read_alert-le s buf iov h = ground (arith, hang_up-le s buf)

  read_record-le :
      (s : KtlsStream Io) (buf : ReadBuf) (iov : Option (List ℕ)) (t : TlsRecordType)
      → s.read_closed ≡ false
      → allowance (read_record sock s buf iov t).stream ≤ allowance s
  unfolding read_record
  read_record-le s buf iov alert h = read_alert-le s buf iov h
  read_record-le s buf iov _ h = omega arith

  read_control-le :
      (s : KtlsStream Io) (buf : ReadBuf) (q : Received × Io)
      → s.read_closed ≡ false
      → notified q.1 ≡ notified s.inner
      → allowance (read_control sock s buf q).stream ≤ allowance s
  unfolding read_control
  read_control-le s buf (again, io) h n = omega arith
  read_control-le s buf (errno e, io) h n = omega arith
  read_control-le s buf (message none iov, io) h n = omega arith
  read_control-le s buf (message (some other_cmsg) iov, io) h n = omega arith
  read_control-le s buf (message (some (tls_get_record_type t)) iov, io) h n =
      omega (arith, read_record-le (record s { inner = io }) buf iov (record_type t) h)

  read_inner-le :
      (s : KtlsStream Io) (buf : ReadBuf) (q : Reply × Io)
      → s.read_closed ≡ false
      → notified q.1 ≡ notified s.inner
      → allowance (read_inner sock s buf q).stream ≤ allowance s
  unfolding read_inner
  read_inner-le s buf (filled bs, io) h n = omega arith
  read_inner-le s buf (pending, io) h n = omega arith
  read_inner-le s buf (failed e, io) h n = ground (
    arith,
    read_control-le (record s { inner = io }) buf (recvmsg (remaining buf) io) h
        (notified-recvmsg (remaining buf) io),
  )

  poll_read-le :
      (s : KtlsStream Io) (buf : ReadBuf) → allowance (poll_read sock s buf).stream ≤ allowance s
  unfolding poll_read read_drained
  poll_read-le s buf = ground (
    arith,
    read_inner-le s buf (inner_read (remaining buf) s.inner),
    notified-poll_read (remaining buf) s.inner,
  )

  poll_write-le :
      (s : KtlsStream Io) (bs : List ℕ) → allowance (poll_write sock s bs).1 ≤ allowance s
  unfolding poll_write
  poll_write-le s bs = ground (arith, notified-poll_write bs s.inner)

  poll_flush-le : (s : KtlsStream Io) → allowance (poll_flush sock s).1 ≤ allowance s
  unfolding poll_flush
  poll_flush-le s = omega (arith, notified-poll_flush s.inner)

  finish_shutdown-notified :
      (s : KtlsStream Io) (q : Option IoError × Io)
      → allowance (finish_shutdown sock s q).1 ≡ allowance (record s { inner = q.1 })
  unfolding finish_shutdown
  finish_shutdown-notified s (none, io) = omega (arith, notified-poll_shutdown io)
  finish_shutdown-notified s (some e, io) = refl

  poll_shutdown-le : (s : KtlsStream Io) → allowance (poll_shutdown sock s).1 ≤ allowance s
  unfolding poll_shutdown
  poll_shutdown-le s = ground (
    arith,
    finish_shutdown-notified s (none, s.inner),
    finish_shutdown-notified (record s { write_closed = true }) (send_close_notify sock s.inner),
    notified-send (close_notify_msg sock) s.inner,
  )

  -- The calls that a user of the stream makes, one after another, and the stream after them.
  pub data Call : Type 0 where
    reads : ReadBuf → Call
    writes : List ℕ → Call
    flushes : Call
    shuts_down : Call

  unfoldable pub step : KtlsStream Io → Call → KtlsStream Io
  step s (reads buf) = (poll_read sock s buf).stream
  step s (writes bs) = (poll_write sock s bs).1
  step s flushes = (poll_flush sock s).1
  step s shuts_down = (poll_shutdown sock s).1

  unfoldable pub run : KtlsStream Io → List Call → KtlsStream Io
  run s [] = s
  run s (c ∷ cs) = run (step s c) cs

  run-le : (s : KtlsStream Io) (cs : List Call) → allowance (run s cs) ≤ allowance s
  unfolding run step
  run-le s [] = omega arith
  run-le s (reads buf ∷ cs) =
      omega (arith, poll_read-le s buf, run-le (poll_read sock s buf).stream cs)
  run-le s (writes bs ∷ cs) = omega (arith, poll_write-le s bs, run-le (poll_write sock s bs).1 cs)
  run-le s (flushes ∷ cs) = omega (arith, poll_flush-le s, run-le (poll_flush sock s).1 cs)
  run-le s (shuts_down ∷ cs) = omega (arith, poll_shutdown-le s, run-le (poll_shutdown sock s).1 cs)

  -- Over any sequence of reads, writes, flushes and shutdowns of a new stream, with or without drained
  -- bytes, at most two close_notify alerts are sent: one for the peer's closing alert and one for
  -- the shutdown.
  pub notified-run-le :
      (io : Io) (drained : Option (List ℕ)) (cs : List Call)
      → notified (run (new io drained) cs).inner ≤ notified io + 2
  unfolding new
  notified-run-le io drained cs = omega (arith, run-le (new io drained) cs)
