-- ===== src/Ktls/Stream.antt =====
-- ktls/src/ktls_stream.rs: `KtlsStream`, a socket whose records the kernel decrypts, with the bytes
-- that were drained from rustls before, and the control messages that interrupt its reads.
mod Records
pub mod Drained
pub mod Closing
pub mod Alerts
pub mod Messages
mod Tests
unfoldable pub use Records.*
use proxy_printer.Base.{
  ℕ, zero, suc, ◌+◌, Bool, true, false, ◌||◌, List, [], ◌∷◌, ◌++◌, Option, none, some, min, length,
  take, drop, ◌==◌, leb, if◌then◌else◌,
}
use proxy_printer.Ktls.Io.{
  IoError, Reply, filled, failed, pending, ReadBuf, remaining, append, Poll, ready, error,
  not_ready, panicked, broken_pipe,
}
use proxy_printer.Ktls.Socket.{
  Socket, Cmsg, tls_get_record_type, other_cmsg, Received, message, again, errno, WritePoll, wrote,
  write_error, write_pending,
}
use proxy_printer.Ktls.Notify.{send_close_notify}

pub record KtlsStream (Io : Type 0) : Type 0 where
  pub inner : Io
  pub write_closed : Bool
  pub read_closed : Bool
  pub drained : Option (ℕ × List ℕ)

pub record Polled (Io : Type 0) : Type 0 where
  pub poll : Poll
  pub stream : KtlsStream Io
  pub buf : ReadBuf
  pub woken : Bool

module _ {Io : Type 0} where
  unfoldable pub new : Io → Option (List ℕ) → KtlsStream Io
  new inner drained = record {
    inner = inner;
    write_closed = false;
    read_closed = false;
    drained = elim drained [ none ↦ none | some d ↦ some (0, d) ];
  }

  -- The drained data is handed back whole, also where a part of it was read already.
  unfoldable pub into_raw : KtlsStream Io → Option (List ℕ) × Io
  into_raw s = (elim s.drained [ none ↦ none | some (i, d) ↦ some d ], s.inner)

  -- A read from the drained bytes. The local `drained` is the slice from `drain_index` on, so that
  -- the last test compares the index with the length of that slice.
  read_drained : KtlsStream Io → ReadBuf → ℕ → List ℕ → Polled Io
  read_drained s buf i all =
      let drained = drop i all in
      let len = min (remaining buf) (length drained) in
      let i' = i + len in
      let next = if leb (length drained) i' then none else some (i', all) in
      if leb i (length all)
      then record {
        poll = ready;
        stream = record s { drained = next };
        buf = append buf (take len drained);
        woken = true;
      }
      else record { poll = panicked; stream = s; buf = buf; woken = false }

module _ (sock : Socket) where
  open sock use {
    Io, poll_read as inner_read, recvmsg, poll_write as inner_write,
    poll_shutdown as inner_shutdown, poll_write_ready as inner_write_ready,
    poll_flush as inner_flush, poll_read_ready as inner_read_ready,
  }

  -- A fatal alert or a close_notify: both directions are closed, and a close_notify goes out.
  hang_up : KtlsStream Io → Option IoError × KtlsStream Io
  hang_up s =
      let (sent, io) = send_close_notify sock s.inner in
      (sent, record s { inner = io; read_closed = true; write_closed = true })

  after_hang_up : ReadBuf → Option IoError × KtlsStream Io → Polled Io
  after_hang_up buf (none, s) = record { poll = ready; stream = s; buf = buf; woken = false }
  after_hang_up buf (some e, s) = record { poll = error e; stream = s; buf = buf; woken = false }

  -- The alert of a control message, by the data that came with it.
  read_alert : KtlsStream Io → ReadBuf → Option (List ℕ) → Polled Io
  unfolding hang_up after_hang_up alert_parts ends_session
  read_alert s buf none = record { poll = panicked; stream = s; buf = buf; woken = false }
  read_alert s buf (some iov) = elim (alert_parts iov) [
    | none ↦ record { poll = panicked; stream = s; buf = buf; woken = false }
    | some (level, description) ↦
        if ends_session level description
        then after_hang_up buf (hang_up s)
        else record { poll = ready; stream = s; buf = buf; woken = false }
  ]

  -- A record that is no data: handshakes and unknown types are passed over, and the task woken.
  read_record : KtlsStream Io → ReadBuf → Option (List ℕ) → TlsRecordType → Polled Io
  unfolding read_alert
  read_record s buf iov change_cipher_spec = record {
    poll = panicked;
    stream = s;
    buf = buf;
    woken = false;
  }
  read_record s buf iov alert = read_alert s buf iov
  read_record s buf iov handshake = record { poll = not_ready; stream = s; buf = buf; woken = true }
  read_record s buf iov application_data = record {
    poll = panicked;
    stream = s;
    buf = buf;
    woken = false;
  }
  read_record s buf iov (other_record t) = record {
    poll = not_ready;
    stream = s;
    buf = buf;
    woken = true;
  }

  -- What `recvmsg` brought after a read that failed with EIO.
  read_control : KtlsStream Io → ReadBuf → Received × Io → Polled Io
  unfolding read_record record_type
  read_control s buf (again, io) = record {
    poll = panicked;
    stream = record s { inner = io };
    buf = buf;
    woken = false;
  }
  read_control s buf (errno e, io) = record {
    poll = error e;
    stream = record s { inner = io };
    buf = buf;
    woken = false;
  }
  read_control s buf (message none iov, io) = record {
    poll = panicked;
    stream = record s { inner = io };
    buf = buf;
    woken = false;
  }
  read_control s buf (message (some other_cmsg) iov, io) = record {
    poll = panicked;
    stream = record s { inner = io };
    buf = buf;
    woken = false;
  }
  read_control s buf (message (some (tls_get_record_type t)) iov, io) =
      read_record (record s { inner = io }) buf iov (record_type t)

  -- `Some(5)`: the read found a control message.
  unfoldable pub is_eio : IoError → Bool
  is_eio e = elim e.raw_os_error [ none ↦ false | some n ↦ n == 5 ]

  read_inner : KtlsStream Io → ReadBuf → Reply × Io → Polled Io
  unfolding read_control is_eio
  read_inner s buf (filled bs, io) = record {
    poll = ready;
    stream = record s { inner = io };
    buf = append buf bs;
    woken = false;
  }
  read_inner s buf (pending, io) = record {
    poll = not_ready;
    stream = record s { inner = io };
    buf = buf;
    woken = false;
  }
  read_inner s buf (failed e, io) =
      if is_eio e
      then read_control (record s { inner = io }) buf (recvmsg (remaining buf) io)
      else record { poll = error e; stream = record s { inner = io }; buf = buf; woken = false }

  pub poll_read : KtlsStream Io → ReadBuf → Polled Io
  unfolding read_inner read_drained
  poll_read s buf =
      if s.read_closed
      then record { poll = ready; stream = s; buf = buf; woken = false }
      else if remaining buf == 0
      then record { poll = ready; stream = s; buf = buf; woken = false }
      else elim s.drained [
        | some (i, all) ↦ read_drained s buf i all
        | none ↦ read_inner s buf (inner_read (remaining buf) s.inner)
      ]

  pub poll_write : KtlsStream Io → List ℕ → WritePoll × KtlsStream Io
  poll_write s bs =
      let (r, io) = inner_write bs s.inner in
      if s.write_closed then (wrote 0, s) else (r, record s { inner = io })

  pub poll_flush : KtlsStream Io → Poll × KtlsStream Io
  poll_flush s = let (r, io) = inner_flush s.inner in (r, record s { inner = io })

  finish_shutdown : KtlsStream Io → Option IoError × Io → Poll × KtlsStream Io
  finish_shutdown s (some e, io) = (error e, record s { inner = io })
  finish_shutdown s (none, io) = let (r, io') = inner_shutdown io in (r, record s { inner = io' })

  pub poll_shutdown : KtlsStream Io → Poll × KtlsStream Io
  unfolding finish_shutdown
  poll_shutdown s =
      if s.write_closed
      then finish_shutdown s (none, s.inner)
      else finish_shutdown (record s { write_closed = true }) (send_close_notify sock s.inner)

  pub poll_read_ready : KtlsStream Io → Poll
  poll_read_ready s = inner_read_ready s.inner

  -- `poll_write_ready`: `BrokenPipe` once the stream is closed for writing.
  pub poll_write_ready : KtlsStream Io → Poll
  poll_write_ready s =
      if s.write_closed
      then error (record { kind = broken_pipe; raw_os_error = none })
      else inner_write_ready s.inner
