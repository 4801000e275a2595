-- ===== src/Ktls/Cork/Boundary.antt =====
-- A corked `CorkStream` (ktls/src/cork_stream.rs) stops at the end of the message that it is in:
-- what the peer sent after it stays in the socket, where kTLS will decrypt it.
use proxy_printer.Base.{
  ℕ, ◌+◌, ◌-◌, ◌≤◌, min, ◌≡◌, refl, ap, ◌∙◌, true, ◌&&◌, List, [], ◌∷◌, arith, length, ◌==◌,
  length-append,
}
use proxy_printer.Ktls.Io.{Source, Reply, filled, failed, pending, received, ReadBuf, remaining}
use proxy_printer.Ktls.Cork.{
  State, read_header, read_payload, passthrough, CorkStream, Codec, Polled, payload_read, round,
  poll_loop, poll_read,
}

-- Between two messages, or inside the payload of one.
abbrev pub Within : State → Type 0
Within (read_header h o) = o ≡ 0
Within (read_payload size o) = o ≤ size
Within passthrough = ⊥

-- The bytes of the current message that are still to come.
abbrev pub budget : State → ℕ
budget (read_header h o) = 0
budget (read_payload size o) = size - o
budget passthrough = 0

module _ (codec : Codec) (src : Source) where
  open src use {Io, delivered, poll_read as inner_read, fits, logs}

  pub record IsCorked (s : CorkStream Io) : Type 0 where
    pub corked : s.corked ≡ true
    pub within : Within s.state

  -- From a history of `past` bytes with `left` bytes of the message to come.
  record Stops (past left : ℕ) (s : CorkStream Io) : Type 0 where
    still : IsCorked s
    spent : length (delivered s.io) + budget s.state ≡ past + left

  payload_read-Stops :
      (past : ℕ) (s : CorkStream Io) (buf : ReadBuf) (size o : ℕ) (q : Reply × Io)
      → s.corked ≡ true
      → s.state ≡ read_payload size o
      → o ≤ size
      → length (received q.0) ≤ size - o
      → length (delivered q.1) ≡ past + length (received q.0)
      → Stops past (size - o) (payload_read codec src s buf size o q).stream
  unfolding payload_read
  payload_read-Stops past s buf size o (filled bs, io) c e v fit d = record {
    still = record { corked = c; within = ground arith };
    spent = ground arith;
  }
  payload_read-Stops past s buf size o (failed x, io) c e v fit d = record {
    still = record { corked = c; within = rw e v };
    spent = rw e (omega arith);
  }
  payload_read-Stops past s buf size o (pending, io) c e v fit d = record {
    still = record { corked = c; within = rw e v };
    spent = rw e (omega arith);
  }

  round-Stops :
      (again : CorkStream Io → ReadBuf → Polled Io) (st : State) (s : CorkStream Io) (buf : ReadBuf)
      → s.corked ≡ true
      → s.state ≡ st
      → Within st
      → Stops (length (delivered s.io)) (budget st) (round codec src again st s buf).stream
  unfolding round
  round-Stops again (read_header h o) s buf c e v =
      let idle : (o == 0 && s.corked) ≡ true = ground arith in
      rw idle (record { still = record { corked = c; within = rw e v }; spent = rw e refl })
  round-Stops again (read_payload size o) s buf c e v =
      let n = min (remaining buf) (size - o) in
      payload_read-Stops (length (delivered s.io)) s buf size o (inner_read n s.io) c e v
        (omega (arith, fits n s.io))
        (ap length (logs n s.io) ∙ length-append (delivered s.io) (received (inner_read n s.io).0))
  round-Stops again passthrough s buf c e v = absurd v

  poll_read-Stops :
      (s : CorkStream Io) (buf : ReadBuf)
      → IsCorked s
      → Stops (length (delivered s.io)) (budget s.state) (poll_read codec src s buf).stream
  unfolding poll_read poll_loop
  poll_read-Stops s buf k = round-Stops (poll_loop codec src 4) s.state s buf k.corked refl k.within

  -- A sequence of polls, each with its own buffer.
  pub polls : CorkStream Io → List ReadBuf → CorkStream Io
  polls s [] = s
  polls s (buf ∷ bufs) = polls (poll_read codec src s buf).stream bufs

  -- A corked stream inside a payload, or between two messages, reads no byte beyond the current
  -- message: after any sequence of polls, the bytes taken from the source and those of the message
  -- still to come make up exactly what was to come at first.
  pub polls-budget :
      (s : CorkStream Io) (bufs : List ReadBuf)
      → IsCorked s
      → length (delivered (polls s bufs).io) + budget (polls s bufs).state
        ≡ length (delivered s.io) + budget s.state
  unfolding polls
  polls-budget s [] k = refl
  polls-budget s (buf ∷ bufs) k =
      let st = poll_read-Stops s buf k in
      polls-budget (poll_read codec src s buf).stream bufs st.still ∙ st.spent
