-- ===== src/Ktls/Stream/Messages.antt =====
-- `KtlsStream::handle_msg` (ktls/src/ktls_stream.rs) beside the control messages of `poll_read`.
use proxy_printer.Base.{
  ℕ, if◌then◌else◌, ◌<◌, ◌≡◌, ◌≢◌, refl, false, List, Option, some, none, arith, Bool-cases,
  Option-cases, inl, inr,
}
use proxy_printer.Ktls.Io.{IoError, failed, ReadBuf, remaining, panicked}
use proxy_printer.Ktls.Socket.{
  Socket, Cmsg, Received, again, errno, message, tls_get_record_type, other_cmsg,
}
use proxy_printer.Ktls.Stream.{
  KtlsStream, Polled, TlsRecordType, change_cipher_spec, alert, handshake, application_data,
  other_record, alert_parts, ends_session, hang_up, after_hang_up, read_alert, read_record,
  record_type, read_control, read_inner, is_eio, poll_read,
}

module _ (sock : Socket) where
  open sock use {Io, recvmsg}

  -- `handle_msg`: a control message is taken without a read, into 1024 bytes of its own. `none` is a
  -- panic. The result of sending the close_notify is passed over.
  handle_alert : KtlsStream Io → Option (List ℕ) → Option (KtlsStream Io)
  unfolding hang_up alert_parts ends_session
  handle_alert s none = none
  handle_alert s (some iov) = elim (alert_parts iov) [
    | none ↦ none
    | some (level, description) ↦
        if ends_session level description then some (hang_up sock s).1 else some s
  ]

  handle_record : KtlsStream Io → Option (List ℕ) → TlsRecordType → Option (KtlsStream Io)
  unfolding handle_alert
  handle_record s iov change_cipher_spec = none
  handle_record s iov alert = handle_alert s iov
  handle_record s iov handshake = some s
  handle_record s iov application_data = none
  handle_record s iov (other_record t) = some s

  handle_control : KtlsStream Io → Received × Io → Option (KtlsStream Io)
  unfolding handle_record record_type
  handle_control s (again, io) = some (record s { inner = io })
  handle_control s (errno e, io) = some (record s { inner = io })
  handle_control s (message none iov, io) = none
  handle_control s (message (some other_cmsg) iov, io) = none
  handle_control s (message (some (tls_get_record_type t)) iov, io) =
      handle_record (record s { inner = io }) iov (record_type t)

  pub handle_msg : KtlsStream Io → Option (KtlsStream Io)
  unfolding handle_control
  handle_msg s = handle_control s (recvmsg 1024 s.inner)

module _ (sock : Socket) where
  open sock use {Io, recvmsg, poll_read as inner_read}

  -- Both panic, or neither does and they leave the same stream.
  abbrev pub Agrees : Option (KtlsStream Io) → Polled Io → Type 0
  Agrees none r = r.poll ≡ panicked
  Agrees (some t) r = (r.stream ≡ t) × (r.poll ≢ panicked)

  after_hang_up-Agrees :
      (buf : ReadBuf) (q : Option IoError × KtlsStream Io)
      → Agrees (some q.1) (after_hang_up sock buf q)
  unfolding after_hang_up
  after_hang_up-Agrees buf (none, t) = (refl, λ e. cc)
  after_hang_up-Agrees buf (some e, t) = (refl, λ f. cc)

  alert-Agrees :
      (s : KtlsStream Io) (buf : ReadBuf) (iov : Option (List ℕ))
      → Agrees (handle_alert sock s iov) (read_alert sock s buf iov)
  unfolding handle_alert read_alert
  alert-Agrees s buf none = refl
  alert-Agrees s buf (some iov) = elim (Option-cases (alert_parts iov)) [
    | inl e ↦ rw (e, handle_alert, read_alert) refl
    | inr ((level, description), e) ↦ elim (Bool-cases (ends_session level description)) [
      | inl ends ↦
          rw (e, ends, handle_alert, read_alert) (after_hang_up-Agrees buf (hang_up sock s))
      | inr goes_on ↦ rw (e, goes_on, handle_alert, read_alert) (refl, λ f. cc)
    ]
  ]

  record-Agrees :
      (s : KtlsStream Io) (buf : ReadBuf) (iov : Option (List ℕ)) (t : TlsRecordType)
      → Agrees (handle_record sock s iov t) (read_record sock s buf iov t)
  unfolding handle_record read_record
  record-Agrees s buf iov change_cipher_spec = refl
  record-Agrees s buf iov alert = alert-Agrees s buf iov
  record-Agrees s buf iov handshake = (refl, λ e. cc)
  record-Agrees s buf iov application_data = refl
  record-Agrees s buf iov (other_record t) = (refl, λ e. cc)

  control-Agrees :
      (s : KtlsStream Io) (buf : ReadBuf) (c : Option Cmsg) (iov : Option (List ℕ)) (io : Io)
      → Agrees
          (handle_control sock s (message c iov, io))
          (read_control sock s buf (message c iov, io))
  unfolding handle_control read_control
  control-Agrees s buf none iov io = refl
  control-Agrees s buf (some other_cmsg) iov io = refl
  control-Agrees s buf (some (tls_get_record_type t)) iov io =
      record-Agrees (record s { inner = io }) buf iov (record_type t)

  module _ (s : KtlsStream Io) (buf : ReadBuf) (e : IoError) (io io' : Io) (c : Option Cmsg)
      (iov : Option (List ℕ)) (open_to_read : s.read_closed ≡ false) (room : 0 < remaining buf)
      (dry : s.drained ≡ none) (interrupted : inner_read (remaining buf) s.inner ≡ (failed e, io))
      (eio : e.raw_os_error ≡ some 5) where
    poll_read-read_control :
        recvmsg (remaining buf) io ≡ (message c iov, io')
        → poll_read sock s buf
          ≡ read_control sock (record s { inner = io }) buf (message c iov, io')
    unfolding poll_read read_inner is_eio
    poll_read-read_control found = ground arith

    -- A control message has the same effect by either way: where a read of an open stream without
    -- drained bytes is interrupted by a message, and `handle_msg` would be given the same one, both
    -- panic or both leave the same stream.
    pub handle_msg-Agrees :
        recvmsg (remaining buf) io ≡ (message c iov, io')
        → recvmsg 1024 io ≡ (message c iov, io')
        → Agrees (handle_msg sock (record s { inner = io })) (poll_read sock s buf)
    unfolding handle_msg
    handle_msg-Agrees found taken =
        rw (poll_read-read_control found, taken)
          (control-Agrees (record s { inner = io }) buf c iov io')
