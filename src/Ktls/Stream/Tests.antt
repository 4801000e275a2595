-- ===== src/Ktls/Stream/Tests.antt =====
-- `KtlsStream` (ktls/src/ktls_stream.rs) on concrete inputs, over a socket that follows a script.
use proxy_printer.Base.{ℕ, ◌+◌, ◌≤◌, ◌≡◌, refl, true, List, [], ◌∷◌, some, none, arith}
use proxy_printer.Ktls.Io.{IoError, other_kind, failed, ReadBuf}
use proxy_printer.Ktls.Socket.{message, tls_get_record_type}
use proxy_printer.Ktls.Peer.{Peer, peer_read, peer}
use proxy_printer.Ktls.Script.{play_back}
use proxy_printer.Ktls.Stream.{
  KtlsStream, new, poll_read, read_drained, read_inner, read_control, read_record, record_type,
  read_alert, poll_shutdown,
}
use proxy_printer.Ktls.Stream.Drained.{Loses, poll_read-Loses}
use proxy_printer.Ktls.Stream.Closing.{reads, writes, shuts_down, run, step, notified-run-le}
use proxy_printer.Ktls.Stream.Messages.{handle_msg, Agrees, handle_msg-Agrees}
use proxy_printer.Ktls.Stream.Alerts.{Heard, poll_read-Heard, IsClosed, Quiet, run-Quiet}

-- A read that meets a control message, and the close_notify behind it.
abbrev eio : IoError
eio = record { kind = other_kind; raw_os_error = some 5 }

abbrev hanging_up : Peer
hanging_up = record {
  incoming = play_back (failed eio ∷ []);
  controls = message (some (tls_get_record_type 21)) (some (1 ∷ 0 ∷ [])) ∷ [];
  sent = 0;
  outgoing = [];
}

abbrev ten : List ℕ
ten = 0 ∷ 1 ∷ 2 ∷ 3 ∷ 4 ∷ 5 ∷ 6 ∷ 7 ∷ 8 ∷ 9 ∷ []

abbrev four : ReadBuf
four = record { contents = []; capacity = 4 }

-- Ten drained bytes, of which a read has taken the first four.
abbrev second_read : KtlsStream Peer
second_read = record (new hanging_up none) { drained = some (4, ten) }

poll_read-Loses_example : Loses second_read four (poll_read peer second_read four)
unfolding new
poll_read-Loses_example =
    poll_read-Loses peer second_read four 4 ten refl (omega arith) refl (omega arith)
      (record { partial = omega arith; passed = omega arith })

-- The last two of the ten bytes are gone.
two_lost : (poll_read peer second_read four).stream.drained ≡ none
unfolding new poll_read read_drained
two_lost = refl

notified-run-le_example :
    (run peer (new hanging_up none) (shuts_down ∷ reads four ∷ [])).inner.sent ≤ 0 + 2
notified-run-le_example = notified-run-le peer hanging_up none (shuts_down ∷ reads four ∷ [])

-- Both are sent where the peer's alert is read after the shutdown.
two_sent : (run peer (new hanging_up none) (shuts_down ∷ reads four ∷ [])).inner.sent ≡ 2
unfolding run step new poll_read read_inner read_control read_record record_type read_alert
    poll_shutdown
two_sent = refl

poll_read-Heard_example :
    Heard peer (new hanging_up none) four 1 0 (poll_read peer (new hanging_up none) four)
unfolding new
poll_read-Heard_example =
    poll_read-Heard peer (new hanging_up none) four eio _ _ 1 0 refl (omega arith) refl refl refl
      refl

abbrev closed : KtlsStream Peer
closed = record (new hanging_up none) { read_closed = true; write_closed = true }

run-Quiet_example :
    IsClosed peer (run peer closed (reads four ∷ writes ten ∷ shuts_down ∷ []))
    × Quiet peer closed (run peer closed (reads four ∷ writes ten ∷ shuts_down ∷ []))
run-Quiet_example =
    run-Quiet peer closed (reads four ∷ writes ten ∷ shuts_down ∷ [])
      (record { reading = refl; writing = refl })

-- The peer once a read has met the control message, and once the message has been taken.
abbrev met : Peer
met = (peer_read 4 hanging_up).1

handle_msg-Agrees_example :
    Agrees peer
      (handle_msg peer (record (new hanging_up none) { inner = met }))
      (poll_read peer (new hanging_up none) four)
unfolding new
handle_msg-Agrees_example =
    handle_msg-Agrees peer (new hanging_up none) four eio met (record met { controls = [] })
      (some (tls_get_record_type 21)) (some (1 ∷ 0 ∷ [])) refl (omega arith) refl refl refl refl
      refl
