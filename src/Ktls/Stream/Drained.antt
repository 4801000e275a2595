-- ===== src/Ktls/Stream/Drained.antt =====
-- The drained bytes of a `KtlsStream` (ktls/src/ktls_stream.rs): when `poll_read` hands them all on,
-- and when it forgets some.
use proxy_printer.Base.{
  ℕ, ◌+◌, ◌-◌, ◌≤◌, ◌<◌, min, ◌≡◌, refl, sym, ap, ◌∙◌, ◌⊎◌, inl, inr, true, false, List, [], ◌++◌,
  append_assoc, append-nil, Option, some, none, arith, length, take, drop, leb, length-append,
  length-take, length-drop, take-append-drop, drop-drop, take_all, leb_of_le,
}
use proxy_printer.Ktls.Io.{ReadBuf, remaining, ready}
use proxy_printer.Ktls.Socket.{Socket}
use proxy_printer.Ktls.Stream.{KtlsStream, Polled, read_drained, poll_read}

-- The drained bytes that no read has had yet.
abbrev pub undelivered : Option (ℕ × List ℕ) → List ℕ
undelivered none = []
undelivered (some (i, all)) = drop i all

-- The read takes a part only, and the index that it reaches is not below the length of what was
-- left before it.
pub record Overlooks (i : ℕ) (all : List ℕ) (buf : ReadBuf) : Type 0 where
  pub partial : remaining buf < length all - i
  pub passed : length all - i ≤ i + remaining buf

pub record Keeps {Io : Type 0} (s : KtlsStream Io) (buf : ReadBuf) (r : Polled Io) : Type 0 where
  pub done : r.poll ≡ ready
  pub untouched : r.stream.inner ≡ s.inner
  pub forwards :
      r.buf.contents ++ undelivered r.stream.drained ≡ buf.contents ++ undelivered s.drained

pub record Loses {Io : Type 0} (s : KtlsStream Io) (buf : ReadBuf) (r : Polled Io) : Type 0 where
  pub done : r.poll ≡ ready
  pub nothing_left : r.stream.drained ≡ none
  pub taken : r.buf.contents ≡ buf.contents ++ take (remaining buf) (undelivered s.drained)
  pub fewer : length r.buf.contents < length buf.contents + length (undelivered s.drained)

module _ {Io : Type 0} (s : KtlsStream Io) (buf : ReadBuf) (i : ℕ) (all : List ℕ) where
  -- The count of bytes that the read takes, and the two outcomes of its last test.
  abbrev len : ℕ
  len = min (remaining buf) (length (drop i all))

  whole-test : length all - i ≤ i + remaining buf → leb (length (drop i all)) (i + len) ≡ true
  whole-test h = ground (arith, length-drop i all)

  part-test : i + remaining buf < length all - i → leb (length (drop i all)) (i + len) ≡ false
  part-test h = ground (arith, length-drop i all)

  read_drained-Keeps :
      s.drained ≡ some (i, all)
      → i ≤ length all
      → (length all - i ≤ remaining buf) ⊎ (i + remaining buf < length all - i)
      → Keeps s buf (read_drained s buf i all)
  unfolding read_drained
  read_drained-Keeps e v (inl whole) =
      rw (leb_of_le i (length all) v, whole-test (omega arith))
        (record {
          done = refl;
          untouched = refl;
          forwards =
              append-nil (buf.contents ++ take len (drop i all))
              ∙ ap (◌++◌ buf.contents) (
                  take_all len (drop i all) (omega (arith, length-drop i all))
                  ∙ sym (ap undelivered e));
        })
  read_drained-Keeps e v (inr part) =
      rw (leb_of_le i (length all) v, part-test part)
        (record {
          done = refl;
          untouched = refl;
          forwards =
              append_assoc buf.contents (take len (drop i all)) (drop (i + len) all)
              ∙ ap (◌++◌ buf.contents) (
                  rw (← drop-drop i len all) (take-append-drop len (drop i all))
                  ∙ sym (ap undelivered e));
        })

  read_drained-Loses :
      s.drained ≡ some (i, all)
      → i ≤ length all
      → Overlooks i all buf
      → Loses s buf (read_drained s buf i all)
  unfolding read_drained
  read_drained-Loses e v o =
      let n : len ≡ remaining buf = omega (arith, length-drop i all) in
      rw (leb_of_le i (length all) v, whole-test o.passed)
        (record {
          done = refl;
          nothing_left = refl;
          taken = rw n (ap (λ d. buf.contents ++ take (remaining buf) (undelivered d)) (sym e));
          fewer = omega (
            arith,
            length-append buf.contents (take len (drop i all)),
            length-take len (drop i all),
            length-drop i all,
            ap (λ d. length (undelivered d)) e,
          );
        })

module _ (sock : Socket) (s : KtlsStream sock.Io) (buf : ReadBuf) (i : ℕ) (all : List ℕ)
    (open_to_read : s.read_closed ≡ false) (room : 0 < remaining buf)
    (left : s.drained ≡ some (i, all)) (in_range : i ≤ length all) where
  poll_read-read_drained : poll_read sock s buf ≡ read_drained s buf i all
  unfolding poll_read
  poll_read-read_drained = ground arith

  -- While an open stream has drained bytes left (from index `i` of `all` on), a read into a buffer
  -- with room takes them from there and leaves the socket alone. If it takes all of them, or
  -- reaches an index below the count of those that were left, then the caller's bytes and those
  -- left afterwards are together the earlier ones: none is lost, repeated or moved.
  poll_read-Keeps :
      (length all - i ≤ remaining buf) ⊎ (i + remaining buf < length all - i)
      → Keeps s buf (poll_read sock s buf)
  poll_read-Keeps c = rw poll_read-read_drained (read_drained-Keeps s buf i all left in_range c)

  -- In the remaining case (a read of a part that reaches an index not below the count of the bytes
  -- that were left), the same read drops what it did not take: nothing is left to read, and fewer
  -- bytes have been handed out than were there.
  pub poll_read-Loses : Overlooks i all buf → Loses s buf (poll_read sock s buf)
  poll_read-Loses o = rw poll_read-read_drained (read_drained-Loses s buf i all left in_range o)
