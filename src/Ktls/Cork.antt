-- ===== src/Ktls/Cork.antt =====
-- ktls/src/cork_stream.rs: `CorkStream`, its states and its `poll_read`.
pub mod Flow
pub mod Transparent
pub mod Boundary
pub mod Calls
mod Tests
use proxy_printer.Base.{
  ℕ, zero, suc, ◌+◌, ◌-◌, ◌*◌, ◌^◌, Bool, true, false, ◌&&◌, List, [], ◌∷◌, ◌++◌, Option, none,
  some, min, length, take, drop, replicate, ◌==◌, leb, if◌then◌else◌,
}
use proxy_printer.Ktls.Io.{
  Source, Reply, filled, failed, pending, ReadBuf, remaining, append, Poll, ready, error, not_ready,
  panicked, out_of_fuel,
}

-- `ReadHeader { header_buf: [u8; 5], offset }`, `ReadPayload { msg_size, offset }`, `Passthrough`.
pub data State : Type 0 where
  read_header : List ℕ → ℕ → State
  read_payload : ℕ → ℕ → State
  passthrough : State

pub record CorkStream (Io : Type 0) : Type 0 where
  pub io : Io
  pub corked : Bool
  pub state : State

-- `Default::default()` of `[u8; 5]`.
abbrev pub zeros : List ℕ
zeros = replicate 5 0

unfoldable pub new : {Io : Type 0} → Io → CorkStream Io
new io = record { io = io; corked = false; state = read_header zeros 0 }

-- rustls's decoders for the first three bytes of a header.
pub record Codec : Type 1 where
  pub ContentType : Type 0
  pub ProtocolVersion : Type 0
  pub content_type : List ℕ → Option ContentType
  pub protocol_version : List ℕ → Option ProtocolVersion

-- What a poll leaves: its outcome, the stream, the caller's buffer, and whether it woke the task.
pub record Polled (Io : Type 0) : Type 0 where
  pub poll : Poll
  pub stream : CorkStream Io
  pub buf : ReadBuf
  pub woken : Bool

-- `header_buf[offset..]` overwritten from its start.
abbrev pub write_at : List ℕ → ℕ → List ℕ → List ℕ
write_at h o bs = take o h ++ (bs ++ drop (o + length bs) h)

-- `u16::from_be_bytes([b[3], b[4]])`.
abbrev be16 : List ℕ → ℕ
be16 (hi ∷ lo ∷ rest) = hi * 2 ^ 8 + lo
be16 _ = 0

module _ (codec : Codec) where
  unfoldable pub decode_header : List ℕ → Option (codec.ContentType × codec.ProtocolVersion × ℕ)
  decode_header b = elim (codec.content_type (take 1 b)) [
    | none ↦ none
    | some typ ↦ elim (codec.protocol_version (take 2 (drop 1 b))) [
      | none ↦ none
      | some version ↦ some (typ, version, be16 (drop 3 b))
    ]
  ]

  -- The state after a whole header.
  unfoldable pub after_header : List ℕ → State
  unfolding decode_header
  after_header h = elim (decode_header h) [
    | some (typ, version, len) ↦ read_payload len 0
    | none ↦ passthrough
  ]

  module _ (src : Source) where
    open src use {Io, poll_read as inner_read}

    -- `buf.put_slice(bs)`, which panics where the buffer is too small, then a change of state.
    abbrev put_slice : CorkStream Io → ReadBuf → List ℕ → State → Polled Io
    put_slice s buf bs next =
        if leb (length bs) (remaining buf)
        then record {
          poll = ready;
          stream = record s { state = next };
          buf = append buf bs;
          woken = false;
        }
        else record { poll = panicked; stream = s; buf = buf; woken = false }

    -- The header branch, once the source has answered; `again` goes round the loop.
    header_read :
        (CorkStream Io → ReadBuf → Polled Io)
        → CorkStream Io
        → ReadBuf
        → List ℕ
        → ℕ
        → Reply × Io
        → Polled Io
    unfolding after_header
    header_read again s buf h o (failed e, io) = record {
      poll = error e;
      stream = record s { io = io };
      buf = buf;
      woken = false;
    }
    header_read again s buf h o (pending, io) = record {
      poll = not_ready;
      stream = record s { io = io };
      buf = buf;
      woken = false;
    }
    header_read again s buf h o (filled [], io) =
        put_slice (record s { io = io }) buf (take o h) passthrough
    header_read again s buf h o (filled (b ∷ bs), io) =
        let h' = write_at h o (b ∷ bs) in
        let o' = o + length (b ∷ bs) in
        let s' = record s { io = io; state = read_header h' o' } in
        let more = again s' buf in if o' == 5 then put_slice s' buf h' (after_header h') else more

    -- The payload branch, once the source has answered.
    pub payload_read : CorkStream Io → ReadBuf → ℕ → ℕ → Reply × Io → Polled Io
    payload_read s buf size o (failed e, io) = record {
      poll = error e;
      stream = record s { io = io };
      buf = buf;
      woken = false;
    }
    payload_read s buf size o (pending, io) = record {
      poll = not_ready;
      stream = record s { io = io };
      buf = buf;
      woken = false;
    }
    payload_read s buf size o (filled bs, io) =
        let o' = o + length bs in
        let next = if o' == size then read_header zeros 0 else read_payload size o' in
        record {
          poll = ready;
          stream = record s { io = io; state = next };
          buf = append buf bs;
          woken = false;
        }

    -- `Passthrough`: the caller's own read.
    pub direct_read : CorkStream Io → ReadBuf → Reply × Io → Polled Io
    direct_read s buf (failed e, io) = record {
      poll = error e;
      stream = record s { io = io };
      buf = buf;
      woken = false;
    }
    direct_read s buf (pending, io) = record {
      poll = not_ready;
      stream = record s { io = io };
      buf = buf;
      woken = false;
    }
    direct_read s buf (filled bs, io) = record {
      poll = ready;
      stream = record s { io = io };
      buf = append buf bs;
      woken = false;
    }

    -- One round of the loop, by state.
    round : (CorkStream Io → ReadBuf → Polled Io) → State → CorkStream Io → ReadBuf → Polled Io
    unfolding header_read payload_read direct_read
    round again (read_header h o) s buf =
        if o == 0 && s.corked
        then record { poll = ready; stream = s; buf = buf; woken = true }
        else header_read again s buf h o (inner_read (length h - o) s.io)
    round again (read_payload size o) s buf =
        payload_read s buf size o (inner_read (min (remaining buf) (size - o)) s.io)
    round again passthrough s buf = direct_read s buf (inner_read (remaining buf) s.io)

    poll_loop : ℕ → CorkStream Io → ReadBuf → Polled Io
    poll_loop zero s buf = record { poll = out_of_fuel; stream = s; buf = buf; woken = false }
    poll_loop (suc fuel) s buf = round (poll_loop fuel) s.state s buf

    -- A round that goes on has read at least one more byte of the five, so five rounds are enough.
    pub poll_read : CorkStream Io → ReadBuf → Polled Io
    poll_read s buf = poll_loop 5 s buf
