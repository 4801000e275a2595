-- ===== src/Ktls/Peer.antt =====
-- A socket that follows a script, for the tests of the streams in ktls/src: it shows that the laws of
-- `Socket` can be met.
use proxy_printer.Base.{ℕ, suc, List, [], ◌∷◌, ◌++◌, none, arith, ◌≡◌, refl}
use proxy_printer.Ktls.Io.{Reply, ready}
use proxy_printer.Ktls.Socket.{Socket, Received, again, wrote}
use proxy_printer.Ktls.Script.{Script, play, answer_fits}

pub record Peer : Type 0 where
  pub incoming : Script
  pub controls : List Received
  pub sent : ℕ
  pub outgoing : List ℕ

abbrev pub next_control : Peer → Received × Peer
next_control p = elim p.controls [ [] ↦ (again, p) | c ∷ cs ↦ (c, record p { controls = cs }) ]

abbrev pub peer_read : ℕ → Peer → proxy_printer.Ktls.Io.Reply × Peer
peer_read n p = let (r, s) = play n p.incoming in (r, record p { incoming = s })

pub control_sent : (p : Peer) → (next_control p).1.sent ≡ p.sent
control_sent p = ground arith

pub control_outgoing : (p : Peer) → (next_control p).1.outgoing ≡ p.outgoing
control_outgoing p = ground arith

abbrev pub peer : Socket
peer = record {
  source = record {
    Io = Peer;
    poll_read = peer_read;
    delivered = λ p. p.incoming.past;
    fits = λ n p. answer_fits n p.incoming.future;
    logs = λ n p. refl;
  };
  recvmsg = λ n p. next_control p;
  sendmsg = λ m p. (none, record p { sent = suc p.sent });
  cmsg_data_offset = 16;
  encoded_close_notify = 1 ∷ 0 ∷ [];
  poll_write = λ bs p. (wrote 1, record p { outgoing = p.outgoing ++ bs });
  poll_shutdown = λ p. (ready, p);
  poll_flush = λ p. (ready, p);
  poll_read_ready = λ p. ready;
  poll_write_ready = λ p. ready;
  notified = λ p. p.sent;
  written = λ p. p.outgoing;
  notified-poll_read = λ n p. refl;
  written-poll_read = λ n p. refl;
  notified-recvmsg = λ n p. control_sent p;
  written-recvmsg = λ n p. control_outgoing p;
  notified-send = λ m p. refl;
  written-send = λ m p. refl;
  notified-poll_write = λ bs p. refl;
  notified-poll_shutdown = λ p. refl;
  written-poll_shutdown = λ p. refl;
  delivered-poll_shutdown = λ p. refl;
  delivered-poll_write = λ bs p. refl;
  notified-poll_flush = λ p. refl;
  written-poll_flush = λ p. refl;
  delivered-poll_flush = λ p. refl;
}
