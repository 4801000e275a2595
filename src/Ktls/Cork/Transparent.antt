-- ===== src/Ktls/Cork/Transparent.antt =====
-- `CorkStream::poll_read` (ktls/src/cork_stream.rs), round by round of its loop: the bytes that it
-- reads are handed on or held.
use proxy_printer.Base.{
  ℕ, zero, suc, ◌+◌, ◌-◌, ◌≤◌, ◌<◌, min, ◌≡◌, refl, sym, subst, ◌∙◌, inl, inr, true, ◌&&◌, List, [],
  ◌∷◌, ◌++◌, append-nil, arith, length, take, ◌==◌, Bool-cases, length-take,
}
use proxy_printer.Ktls.Io.{
  Source, Reply, filled, failed, pending, received, ReadBuf, remaining, ready,
}
use proxy_printer.Ktls.Cork.{
  State, read_header, read_payload, passthrough, CorkStream, Codec, Polled, header_read, round,
  poll_loop, poll_read,
}
use proxy_printer.Ktls.Cork.Flow.{
  IsValid, held, Transparent, length-write_at, take-write_at, write_at_full, after_header-Plain,
  idle-Transparent, put_slice-Transparent, payload_read-Transparent, direct_read-Transparent,
  then-Transparent,
}

module _ (codec : Codec) (src : Source) where
  open src use {Io, delivered, poll_read as inner_read, fits, logs}

  header_read-Transparent :
      (again : CorkStream Io → ReadBuf → Polled Io) (past : List ℕ) (s : CorkStream Io)
      (buf : ReadBuf) (h : List ℕ) (o : ℕ) (q : Reply × Io)
      → ((s' : CorkStream Io) (h' : List ℕ) (o' : ℕ)
          → s'.state ≡ read_header h' o'
          → length h' ≡ 5
          → o < o'
          → o' < 5
          → Transparent codec src (delivered s'.io) (take o' h') buf (again s' buf))
      → s.state ≡ read_header h o
      → length h ≡ 5
      → o < 5
      → 5 ≤ remaining buf
      → length (received q.0) ≤ 5 - o
      → delivered q.1 ≡ past ++ received q.0
      → Transparent codec src past (take o h) buf (header_read codec src again s buf h o q)
  unfolding header_read
  header_read-Transparent again past s buf h o (filled [], io) ih st n lt room fit d =
      put_slice-Transparent codec src past (take o h) [] (record s { io = io }) buf (take o h)
        passthrough d (sym (append-nil (take o h))) (omega (arith, length-take o h)) (tt, refl)
  header_read-Transparent again past s buf h o (filled (b ∷ bs), io) ih st n lt room fit d =
      elim (Bool-cases (o + length (b ∷ bs) == 5)) [
        | inl full ↦ rw full (
            put_slice-Transparent codec src past (take o h) (b ∷ bs) _ buf _ _ d
              (write_at_full h o (b ∷ bs) (ground arith))
              (omega (arith, length-write_at h o (b ∷ bs) (omega arith)))
              (after_header-Plain codec src _))
        | inr more ↦ rw more (
            then-Transparent codec src past (take o h) (b ∷ bs) buf _ (
              rw (← d, ← take-write_at h o (b ∷ bs) (omega arith))
                (ih _ _ _ refl (omega (arith, length-write_at h o (b ∷ bs) (omega arith)))
                  (omega arith) (ground arith))))
      ]
  header_read-Transparent again past s buf h o (failed e, io) ih st n lt room fit d =
      idle-Transparent codec src past buf _ (read_header h o) st d refl (n, lt) tt
  header_read-Transparent again past s buf h o (pending, io) ih st n lt room fit d =
      idle-Transparent codec src past buf _ (read_header h o) st d refl (n, lt) tt

  -- The rounds that a state may still need.
  abbrev rounds : State → ℕ
  rounds (read_header h o) = 5 - o
  rounds (read_payload size o) = 1
  rounds passthrough = 1

  rounds-ne-zero : (st : State) → IsValid st → rounds st ≤ 0 → ⊥
  rounds-ne-zero (read_header h o) v f = omega arith
  rounds-ne-zero (read_payload size o) v f = omega arith
  rounds-ne-zero passthrough v f = omega arith

  rounds-le : (st : State) → rounds st ≤ 5
  rounds-le (read_header h o) = omega arith
  rounds-le (read_payload size o) = omega arith
  rounds-le passthrough = omega arith

  corked_empty :
      (past : List ℕ) (s : CorkStream Io) (buf : ReadBuf) (h : List ℕ) (o : ℕ)
      → s.state ≡ read_header h o
      → length h ≡ 5
      → o < 5
      → delivered s.io ≡ past
      → Transparent codec src past
          (take o h)
          buf
          (record { poll = ready; stream = s; buf = buf; woken = true })
  corked_empty past s buf h o st n lt d =
      idle-Transparent codec src past buf _ (read_header h o) st (d ∙ sym (append-nil past)) refl
        (n, lt) tt

  round-Transparent :
      (fuel : ℕ) (st : State) (s : CorkStream Io) (buf : ReadBuf)
      → ((s' : CorkStream Io) (h' : List ℕ) (o' : ℕ)
          → s'.state ≡ read_header h' o'
          → length h' ≡ 5
          → 5 - o' ≤ fuel
          → o' < 5
          → Transparent codec src
              (delivered s'.io)
              (take o' h')
              buf
              (poll_loop codec src fuel s' buf))
      → s.state ≡ st
      → IsValid st
      → 5 ≤ remaining buf
      → rounds st ≤ suc fuel
      → Transparent codec src
          (delivered s.io)
          (held st)
          buf
          (round codec src (poll_loop codec src fuel) st s buf)
  unfolding round
  round-Transparent fuel (read_header h o) s buf ih e v room f =
      elim (Bool-cases (o == 0 && s.corked)) [
        | inl idle ↦ rw idle (corked_empty (delivered s.io) s buf h o e v.0 v.1 refl)
        | inr busy ↦ rw busy (
            header_read-Transparent (poll_loop codec src fuel) (delivered s.io) s buf h o
              (inner_read (length h - o) s.io)
              (λ s' h' o' st n lt u. ih s' h' o' st n (omega arith) u) e v.0 v.1 room
              (omega (arith, fits (length h - o) s.io)) (logs (length h - o) s.io))
      ]
  round-Transparent fuel (read_payload size o) s buf ih e v room f =
      payload_read-Transparent codec src (delivered s.io) s buf size o _ v e
        (omega (arith, fits (min (remaining buf) (size - o)) s.io)) (logs _ s.io)
  round-Transparent fuel passthrough s buf ih e v room f =
      direct_read-Transparent codec src (delivered s.io) s buf _ e (logs _ s.io)

  poll_loop-Transparent :
      (fuel : ℕ) (s : CorkStream Io) (buf : ReadBuf)
      → IsValid s.state
      → 5 ≤ remaining buf
      → rounds s.state ≤ fuel
      → Transparent codec src (delivered s.io) (held s.state) buf (poll_loop codec src fuel s buf)
  unfolding poll_loop
  poll_loop-Transparent zero s buf v room f = absurd (rounds-ne-zero s.state v f)
  poll_loop-Transparent (suc fuel) s buf v room f =
      round-Transparent fuel s.state s buf
        (λ s' h' o' e n g lt.
          subst
            (λ st.
              Transparent codec src (delivered s'.io) (held st) buf
                (poll_loop codec src fuel s' buf))
            e (poll_loop-Transparent fuel s' buf (rw e (n, lt)) room (rw e g)))
        refl v room f

  -- With room for a header in the caller's buffer, every poll of a well-formed stream returns (no
  -- panic, and the loop ends), leaves a well-formed stream, and forwards: the caller's bytes and
  -- those still held afterwards are the earlier ones followed by exactly what the source delivered.
  pub poll_read-Transparent :
      (s : CorkStream Io) (buf : ReadBuf)
      → IsValid s.state
      → 5 ≤ remaining buf
      → Transparent codec src (delivered s.io) (held s.state) buf (poll_read codec src s buf)
  unfolding poll_read
  poll_read-Transparent s buf v room = poll_loop-Transparent 5 s buf v room (rounds-le s.state)
