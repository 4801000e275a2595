-- ===== src/Ktls/Cork/Flow.antt =====
-- What one answer of the source does to `CorkStream` (ktls/src/cork_stream.rs): the bytes handed on
-- and held, by branch of `poll_read`.
use proxy_printer.Base.{
  ℕ, ◌+◌, ◌-◌, ◌≤◌, ◌<◌, ◌≡◌, refl, sym, ap, ◌∙◌, List, [], ◌++◌, append_assoc, append-nil, arith,
  length, take, drop, leb_of_le, length-append, length-take, length-drop, take-append, drop_all,
}
use proxy_printer.Ktls.Io.{
  Source, Reply, filled, failed, pending, received, ReadBuf, remaining, Poll, ready, error,
  not_ready, panicked, out_of_fuel,
}
use proxy_printer.Ktls.Cork.{
  State, read_header, read_payload, passthrough, CorkStream, Codec, Polled, write_at, after_header,
  put_slice, payload_read, direct_read,
}

-- The header buffer has five bytes and is not full; a payload is not overrun.
abbrev pub IsValid : State → Type 0
IsValid (read_header h o) = (length h ≡ 5) × (o < 5)
IsValid (read_payload size o) = o ≤ size
IsValid passthrough = Unit

-- The bytes that the stream has read and not yet handed on.
abbrev pub held : State → List ℕ
held (read_header h o) = take o h
held (read_payload size o) = []
held passthrough = []

-- The call returns to its caller, without a panic.
abbrev pub Returns : Poll → Type 0
Returns ready = Unit
Returns (error e) = Unit
Returns not_ready = Unit
Returns panicked = ⊥
Returns out_of_fuel = ⊥

pub length-write_at :
    (h : List ℕ) (o : ℕ) (bs : List ℕ)
    → o + length bs ≤ length h
    → length (write_at h o bs) ≡ length h
length-write_at h o bs room = omega (
  arith,
  length-append (take o h) (bs ++ drop (o + length bs) h),
  length-append bs (drop (o + length bs) h),
  length-take o h,
  length-drop (o + length bs) h,
)

pub take-write_at :
    (h : List ℕ) (o : ℕ) (bs : List ℕ)
    → o + length bs ≤ length h
    → take (o + length bs) (write_at h o bs) ≡ take o h ++ bs
take-write_at h o bs room =
    let n : length (take o h ++ bs) ≡ o + length bs =
      omega (arith, length-append (take o h) bs, length-take o h) in
    rw (← append_assoc (take o h) bs (drop (o + length bs) h))
      (take-append _ (take o h ++ bs) (drop (o + length bs) h) n)

-- A full header is what was held and what came.
pub write_at_full :
    (h : List ℕ) (o : ℕ) (bs : List ℕ) → length h ≤ o + length bs → write_at h o bs ≡ take o h ++ bs
write_at_full h o bs room =
    rw (drop_all (o + length bs) h room) (ap (◌++◌ (take o h)) (append-nil bs))

module _ (codec : Codec) (src : Source) where
  open src use {Io, delivered, poll_read as inner_read, fits, logs}

  -- From a history `past` and held bytes `hs`: `news` was read, and all of it handed on or held.
  pub record Transparent (past hs : List ℕ) (buf : ReadBuf) (r : Polled Io) : Type 0 where
    pub news : List ℕ
    pub reads : delivered r.stream.io ≡ past ++ news
    pub forwards : r.buf.contents ++ held r.stream.state ≡ (buf.contents ++ hs) ++ news
    pub valid : IsValid r.stream.state
    pub returns : Returns r.poll

  abbrev pub Plain : State → Type 0
  Plain next = IsValid next × (held next ≡ [])

  pub after_header-Plain : (h : List ℕ) → Plain (after_header codec h)
  unfolding after_header
  after_header-Plain h = ground arith

  -- A poll that hands on all that was held and all that came.
  pub flow-Transparent :
      (past hs news : List ℕ) (buf : ReadBuf) (r : Polled Io) (next : State)
      → r.stream.state ≡ next
      → delivered r.stream.io ≡ past ++ news
      → r.buf.contents ≡ buf.contents ++ (hs ++ news)
      → Plain next
      → Returns r.poll
      → Transparent past hs buf r
  flow-Transparent past hs news buf r next st d c p done = record {
    news = news;
    reads = d;
    forwards = rw (st, p.1, append-nil r.buf.contents, c) (sym (append_assoc buf.contents hs news));
    valid = rw st p.0;
    returns = done;
  }

  -- A poll that got nothing.
  pub idle-Transparent :
      (past : List ℕ) (buf : ReadBuf) (r : Polled Io) (next : State)
      → r.stream.state ≡ next
      → delivered r.stream.io ≡ past ++ []
      → r.buf.contents ≡ buf.contents
      → IsValid next
      → Returns r.poll
      → Transparent past (held next) buf r
  idle-Transparent past buf r next st d c v done = record {
    news = [];
    reads = d;
    forwards = rw (st, c, append-nil (buf.contents ++ held next)) refl;
    valid = rw st v;
    returns = done;
  }

  pub put_slice-Transparent :
      (past hs news : List ℕ) (s : CorkStream Io) (buf : ReadBuf) (bs : List ℕ) (next : State)
      → delivered s.io ≡ past ++ news
      → bs ≡ hs ++ news
      → length bs ≤ remaining buf
      → Plain next
      → Transparent past hs buf (put_slice codec src s buf bs next)
  put_slice-Transparent past hs news s buf bs next d e room p =
      rw (leb_of_le (length bs) (remaining buf) room)
        (flow-Transparent past hs news buf _ next refl d (ap (◌++◌ buf.contents) e) p tt)

  pub payload_read-Transparent :
      (past : List ℕ) (s : CorkStream Io) (buf : ReadBuf) (size o : ℕ) (q : Reply × Io)
      → o ≤ size
      → s.state ≡ read_payload size o
      → length (received q.0) ≤ size - o
      → delivered q.1 ≡ past ++ received q.0
      → Transparent past [] buf (payload_read codec src s buf size o q)
  unfolding payload_read
  payload_read-Transparent past s buf size o (filled bs, io) h st room d =
      flow-Transparent past [] bs buf _ _ refl d refl (ground arith) tt
  payload_read-Transparent past s buf size o (failed e, io) h st room d =
      idle-Transparent past buf _ (read_payload size o) st d refl h tt
  payload_read-Transparent past s buf size o (pending, io) h st room d =
      idle-Transparent past buf _ (read_payload size o) st d refl h tt

  pub direct_read-Transparent :
      (past : List ℕ) (s : CorkStream Io) (buf : ReadBuf) (q : Reply × Io)
      → s.state ≡ passthrough
      → delivered q.1 ≡ past ++ received q.0
      → Transparent past [] buf (direct_read codec src s buf q)
  unfolding direct_read
  direct_read-Transparent past s buf (filled bs, io) st d =
      flow-Transparent past [] bs buf _ passthrough st d refl (tt, refl) tt
  direct_read-Transparent past s buf (failed e, io) st d =
      idle-Transparent past buf _ passthrough st d refl tt tt
  direct_read-Transparent past s buf (pending, io) st d =
      idle-Transparent past buf _ passthrough st d refl tt tt

  -- What a later round does, after `bs` was read into the header buffer.
  pub then-Transparent :
      (past hs bs : List ℕ) (buf : ReadBuf) (r : Polled Io)
      → Transparent (past ++ bs) (hs ++ bs) buf r
      → Transparent past hs buf r
  then-Transparent past hs bs buf r t = record {
    news = bs ++ t.news;
    reads = t.reads ∙ append_assoc past bs t.news;
    forwards = t.forwards ∙ regroup;
    valid = t.valid;
    returns = t.returns;
  }
    where
      regroup : (buf.contents ++ (hs ++ bs)) ++ t.news ≡ (buf.contents ++ hs) ++ (bs ++ t.news)
      regroup = simp append_assoc
