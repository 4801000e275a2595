-- ===== src/Ktls/Cork/Calls.antt =====
-- The calls on a `CorkStream` (ktls/src/cork_stream.rs) in any order: reads, writes and flushes, which go
-- to the inner stream, the shutdown, and the setting of the cork.
use proxy_printer.Base.{
  ℕ, ◌≤◌, ◌≡◌, refl, sym, ap, ◌∙◌, Bool, List, [], ◌∷◌, ◌++◌, All, append_assoc, append-nil, arith,
}
use proxy_printer.Ktls.Io.{Poll}
use proxy_printer.Ktls.Socket.{Socket, WritePoll}
use proxy_printer.Ktls.Cork.{Codec, CorkStream, poll_read}
use proxy_printer.Ktls.Cork.Flow.{IsValid, held}
use proxy_printer.Ktls.Cork.Transparent.{poll_read-Transparent}

pub data Call : Type 0 where
  reads : ℕ → Call
  writes : List ℕ → Call
  flushes : Call
  shuts_down : Call
  corks : Bool → Call

-- A read has room for a header.
abbrev pub HasRoom : Call → Type 0
HasRoom (reads capacity) = 5 ≤ capacity
HasRoom (writes bs) = Unit
HasRoom flushes = Unit
HasRoom shuts_down = Unit
HasRoom (corks b) = Unit

module _ (codec : Codec) (sock : Socket) where
  open sock use {
    Io, source, delivered, poll_write as inner_write, poll_shutdown as inner_shutdown,
    poll_flush as inner_flush, poll_read_ready as inner_read_ready,
  }

  pub poll_write : CorkStream Io → List ℕ → WritePoll × CorkStream Io
  poll_write s bs = let (r, io) = inner_write bs s.io in (r, record s { io = io })

  pub poll_flush : CorkStream Io → Poll × CorkStream Io
  poll_flush s = let (r, io) = inner_flush s.io in (r, record s { io = io })

  pub poll_read_ready : CorkStream Io → Poll
  poll_read_ready s = inner_read_ready s.io

  pub poll_shutdown : CorkStream Io → Poll × CorkStream Io
  poll_shutdown s = let (r, io) = inner_shutdown s.io in (r, record s { io = io })

  -- The stream after a call, and the bytes that a read hands on.
  pub call : CorkStream Io → Call → CorkStream Io × List ℕ
  unfolding poll_write poll_flush poll_shutdown
  call s (reads capacity) =
      let r = poll_read codec source s (record { contents = []; capacity = capacity }) in
      (r.stream, r.buf.contents)
  call s (writes bs) = ((poll_write s bs).1, [])
  call s flushes = ((poll_flush s).1, [])
  call s shuts_down = ((poll_shutdown s).1, [])
  call s (corks b) = (record s { corked = b }, [])

  pub run : CorkStream Io → List Call → CorkStream Io × List ℕ
  run s [] = (s, [])
  run s (c ∷ cs) = let (t, bs) = call s c in let (u, more) = run t cs in (u, bs ++ more)

module _ (codec : Codec) (sock : Socket) where
  open sock use {
    Io, source, delivered, delivered-poll_write, delivered-poll_flush, delivered-poll_shutdown,
  }

  -- What the inner stream delivered meanwhile was handed on behind what was held, or is held.
  pub record Forwards (s : CorkStream Io) (q : CorkStream Io × List ℕ) : Type 0 where
    pub news : List ℕ
    pub reads : delivered q.0.io ≡ delivered s.io ++ news
    pub forwards : q.1 ++ held q.0.state ≡ held s.state ++ news
    pub valid : IsValid q.0.state

  Forwards-none :
      (s t : CorkStream Io)
      → IsValid s.state
      → delivered t.io ≡ delivered s.io
      → t.state ≡ s.state
      → Forwards s (t, [])
  Forwards-none s t v d e = record {
    news = [];
    reads = d ∙ sym (append-nil (delivered s.io));
    forwards = rw e (sym (append-nil (held s.state)));
    valid = rw e v;
  }

  Forwards-trans :
      (s t u : CorkStream Io) (bs cs : List ℕ)
      → Forwards s (t, bs)
      → Forwards t (u, cs)
      → Forwards s (u, bs ++ cs)
  Forwards-trans s t u bs cs f g = record {
    news = f.news ++ g.news;
    reads = g.reads ∙ ap (◌++ g.news) f.reads ∙ append_assoc (delivered s.io) f.news g.news;
    forwards =
        append_assoc bs cs (held u.state)
        ∙ ap (bs ++◌) g.forwards
        ∙ sym (append_assoc bs (held t.state) g.news)
        ∙ ap (◌++ g.news) f.forwards
        ∙ append_assoc (held s.state) f.news g.news;
    valid = g.valid;
  }

  call-Forwards :
      (s : CorkStream Io) (c : Call)
      → IsValid s.state
      → HasRoom c
      → Forwards s (call codec sock s c)
  unfolding call poll_write poll_flush poll_shutdown
  call-Forwards s (reads capacity) v room =
      let t =
        poll_read-Transparent codec source s (record { contents = []; capacity = capacity }) v
          (omega arith) in
      record { news = t.news; reads = t.reads; forwards = t.forwards; valid = t.valid }
  call-Forwards s (writes bs) v room = Forwards-none s _ v (delivered-poll_write bs s.io) refl
  call-Forwards s flushes v room = Forwards-none s _ v (delivered-poll_flush s.io) refl
  call-Forwards s shuts_down v room = Forwards-none s _ v (delivered-poll_shutdown s.io) refl
  call-Forwards s (corks b) v room = Forwards-none s _ v refl refl

  -- Whatever the order of reads with room for a header, writes, flushes, shutdowns and changes of the cork, a
  -- well-formed stream stays well-formed, and the bytes of all its reads, with those it still holds at
  -- the end, are those it held at the start and then exactly what the inner stream delivered, in order.
  pub run-Forwards :
      (s : CorkStream Io) (cs : List Call)
      → IsValid s.state
      → All HasRoom cs
      → Forwards s (run codec sock s cs)
  unfolding run
  run-Forwards s [] v h = Forwards-none s s v refl refl
  run-Forwards s (c ∷ cs) v (h, hs) =
      let f = call-Forwards s c v h in
      let (t, bs) = call codec sock s c in
      Forwards-trans s _ _ _ _ f (run-Forwards (call codec sock s c).0 cs f.valid hs)
