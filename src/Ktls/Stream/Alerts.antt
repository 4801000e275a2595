-- ===== src/Ktls/Stream/Alerts.antt =====
-- The alerts that a `KtlsStream` (ktls/src/ktls_stream.rs) reads, and what a closed stream does.
use proxy_printer.Base.{
  Bool-cases, ℕ, ◌<◌, ◌≡◌, refl, ap, sym, ◌∙◌, ◌⊎◌, inl, inr, ◌↔◌, true, false, List, [], ◌∷◌,
  Option, some, none, arith,
}
use proxy_printer.Ktls.Io.{IoError, failed, ReadBuf, remaining, ready}
use proxy_printer.Ktls.Socket.{Socket, message, tls_get_record_type}
use proxy_printer.Ktls.Stream.{
  KtlsStream, Polled, alert_level, alert_description, hang_up, after_hang_up, read_alert,
  read_record, record_type, read_control, read_inner, is_eio, poll_read, poll_write, poll_flush,
  poll_shutdown, finish_shutdown, ends_session,
}
use proxy_printer.Ktls.Stream.Closing.{Call, reads, writes, flushes, shuts_down, step, run}

-- A close_notify, or any alert of level fatal.
abbrev pub Closes : ℕ → ℕ → Type 0
Closes level description = (description ≡ 0) ⊎ (level ≡ 2)

ends_session_iff :
    (l d : ℕ) → (ends_session (alert_level l) (alert_description d) ≡ true) ↔ Closes l d
unfolding ends_session alert_level alert_description
ends_session_iff l d = ground arith

module _ (sock : Socket) where
  open sock use {
    Io, notified, written, delivered, recvmsg, poll_read as inner_read, notified-poll_shutdown,
    notified-poll_read, notified-recvmsg, written-poll_shutdown, delivered-poll_shutdown,
    notified-poll_flush, written-poll_flush, delivered-poll_flush,
  }

  -- The stream ends: both directions are closed.
  pub record Ended (r : Polled Io) : Type 0 where
    pub read_ended : r.stream.read_closed ≡ true
    pub write_ended : r.stream.write_closed ≡ true

  -- The stream goes on.
  pub record GoesOn (s : KtlsStream Io) (r : Polled Io) : Type 0 where
    pub no_error : r.poll ≡ ready
    pub same_read : r.stream.read_closed ≡ s.read_closed
    pub same_write : r.stream.write_closed ≡ s.write_closed
    pub no_notice : notified r.stream.inner ≡ notified s.inner

  -- The outcome of a read that met an alert with these two bytes.
  pub record Heard (s : KtlsStream Io) (buf : ReadBuf) (l d : ℕ) (r : Polled Io) : Type 0 where
    pub empty : r.buf ≡ buf
    pub by_kind : (Closes l d × Ended r) ⊎ ((¬ (Closes l d)) × GoesOn s r)

  after_hang_up-Heard :
      (s : KtlsStream Io) (buf : ReadBuf) (l d : ℕ) (q : Option IoError × KtlsStream Io)
      → Closes l d
      → q.1.read_closed ≡ true
      → q.1.write_closed ≡ true
      → Heard s buf l d (after_hang_up sock buf q)
  unfolding after_hang_up
  after_hang_up-Heard s buf l d (none, t) c h k = record {
    empty = refl;
    by_kind = inl (c, record { read_ended = h; write_ended = k });
  }
  after_hang_up-Heard s buf l d (some e, t) c h k = record {
    empty = refl;
    by_kind = inl (c, record { read_ended = h; write_ended = k });
  }

  read_alert-Heard :
      (s : KtlsStream Io) (buf : ReadBuf) (l d : ℕ)
      → Heard s buf l d (read_alert sock s buf (some (l ∷ d ∷ [])))
  unfolding read_alert
  read_alert-Heard s buf l d =
      elim (Bool-cases (ends_session (alert_level l) (alert_description d))) [
        | inl ends ↦ rw ends (
            after_hang_up-Heard s buf l d (hang_up sock s) ((ends_session_iff l d).0 ends)
              (unfold hang_up in refl) (unfold hang_up in refl))
        | inr goes_on ↦ rw goes_on (record {
          empty = refl;
          by_kind = inr (
            λ c. cc ((ends_session_iff l d).1 c),
            record { no_error = refl; same_read = refl; same_write = refl; no_notice = refl },
          );
        })
      ]

  module _ (s : KtlsStream Io) (buf : ReadBuf) (e : IoError) (io io' : Io) (l d : ℕ)
      (open_to_read : s.read_closed ≡ false) (room : 0 < remaining buf) (dry : s.drained ≡ none)
      (interrupted : inner_read (remaining buf) s.inner ≡ (failed e, io))
      (eio : e.raw_os_error ≡ some 5)
      (control : recvmsg (remaining buf) io
        ≡ (message (some (tls_get_record_type 21)) (some (l ∷ d ∷ [])), io')) where
    poll_read-read_alert :
        poll_read sock s buf
        ≡ read_alert sock (record (record s { inner = io }) { inner = io' }) buf (some (l ∷ d ∷ []))
    unfolding poll_read read_inner is_eio read_control read_record record_type
    poll_read-read_alert = ground arith

    -- When a read of an open stream with no drained bytes is interrupted by a two-byte alert, it
    -- returns no data. A close_notify or a fatal alert closes both directions of the stream; any
    -- other alert leaves both as they were, sends nothing, and the read returns without an error.
    pub poll_read-Heard : Heard s buf l d (poll_read sock s buf)
    poll_read-Heard =
        let h = read_alert-Heard (record s { inner = io' }) buf l d in
        rw poll_read-read_alert (record {
          empty = h.empty;
          by_kind = elim h.by_kind [
            | inl (c, ended) ↦ inl (c, ended)
            | inr (n, on) ↦ inr (
              n,
              record {
                no_error = on.no_error;
                same_read = on.same_read;
                same_write = on.same_write;
                no_notice = on.no_notice ∙ same;
              },
            )
          ];
        })
      where
        same : notified io' ≡ notified s.inner
        same =
            ap (λ q. notified q.1) (sym control)
            ∙ notified-recvmsg (remaining buf) io
            ∙ ap (λ q. notified q.1) (sym interrupted)
            ∙ notified-poll_read (remaining buf) s.inner

  pub record IsClosed (s : KtlsStream Io) : Type 0 where
    pub reading : s.read_closed ≡ true
    pub writing : s.write_closed ≡ true

  -- Nothing more was read, written or announced.
  pub record Quiet (s t : KtlsStream Io) : Type 0 where
    pub no_read : delivered t.inner ≡ delivered s.inner
    pub no_write : written t.inner ≡ written s.inner
    pub no_notice : notified t.inner ≡ notified s.inner

  step-Quiet :
      (s : KtlsStream Io) (c : Call sock)
      → IsClosed s
      → IsClosed (step sock s c) × Quiet s (step sock s c)
  unfolding step poll_read poll_write poll_flush poll_shutdown finish_shutdown
  step-Quiet s (reads buf) k = ground arith
  step-Quiet s (writes bs) k = ground arith
  step-Quiet s flushes k =
      ground (
        arith,
        notified-poll_flush s.inner,
        written-poll_flush s.inner,
        delivered-poll_flush s.inner,
      )
  step-Quiet s shuts_down k = ground (
    arith,
    notified-poll_shutdown s.inner,
    written-poll_shutdown s.inner,
    delivered-poll_shutdown s.inner,
  )

  -- Once both directions of a stream are closed, no sequence of reads, writes, flushes and shutdowns reads
  -- another byte from the socket, writes one to it, or sends a further close_notify; and the stream
  -- stays closed.
  pub run-Quiet :
      (s : KtlsStream Io) (cs : List (Call sock))
      → IsClosed s
      → IsClosed (run sock s cs) × Quiet s (run sock s cs)
  unfolding run
  run-Quiet s [] k = (k, record { no_read = refl; no_write = refl; no_notice = refl })
  run-Quiet s (c ∷ cs) k =
      let (k', q) = step-Quiet s c k in
      let (k'', q') = run-Quiet (step sock s c) cs k' in
      (
        k'',
        record {
          no_read = q'.no_read ∙ q.no_read;
          no_write = q'.no_write ∙ q.no_write;
          no_notice = q'.no_notice ∙ q.no_notice;
        },
      )
