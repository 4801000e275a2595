-- ===== src/Splice/Reports.antt =====
-- What a strategy (turbine/src/splice_strategy) reports of the copy that it has made.
use proxy_printer.Base.{ℕ, ◌≡◌, refl, ◌⊎◌, some, none}
use proxy_printer.Ktls.Io.{IoError}
use proxy_printer.Ktls.Results.{Result, ok, err}
use proxy_printer.Sockmap.{SockHash, TcpStream, Spliced, copies, gave_up, panicked, key_of, splice}
use proxy_printer.Splice.{Reply, done, failed, panics, Copy, unit_of, State, beside, by_copy}

module _ (h : SockHash) where
  open h use {Map, insert}

  -- One of the two insertions into the map of sockets is refused.
  pub data IsRefused (m : Map) (local upstream : TcpStream) : Type 0 where
    first :
        (k : ℕ)
        → key_of h local ≡ some k
        → insert k upstream.fd m ≡ none
        → IsRefused m local upstream
    second :
        (k k' : ℕ) (m1 : Map)
        → key_of h local ≡ some k
        → insert k upstream.fd m ≡ some m1
        → key_of h upstream ≡ some k'
        → insert k' local.fd m1 ≡ none
        → IsRefused m local upstream

  -- Why `splice` does not come to its copy.
  abbrev pub Prevents : Map → TcpStream → TcpStream → Spliced × Map → Type 0
  Prevents m local upstream (copies, m') = Unit
  Prevents m local upstream (gave_up, m') = IsRefused m local upstream
  Prevents m local upstream (panicked, m') = (key_of h local ≡ none) ⊎ (key_of h upstream ≡ none)

module _ {World : Type 0} (h : SockHash) where
  open h use {Map}

  -- What the end of the copy is, and nothing else has happened.
  abbrev pub Reports : Result IoError (ℕ × ℕ) × World → Map → Reply × State h World → Type 0
  Reports (ok n, w) m r = r ≡ (done, (m, w))
  Reports (err e, w) m r = r ≡ (failed e, (m, w))

  unit_of-Reports :
      (q : Result IoError (ℕ × ℕ) × World) (m : Map) → Reports q m (beside h m (unit_of q))
  unit_of-Reports (ok n, w) m = refl
  unit_of-Reports (err e, w) m = refl

  -- The strategies that copy in user space or by `splice(2)` report the end of the copy as it is, an
  -- error as that error, of a plain and of a kernel TLS connection.
  pub by_copy-Reports :
      (c : Copy World) (local upstream : TcpStream) (m : Map) (w : World)
      → Reports (c.plain w) m ((by_copy h c).splice_bidirectional local upstream (m, w))
        × Reports (c.ktls w) m ((by_copy h c).splice_ktls_bidirectional local upstream (m, w))
  unfolding by_copy
  by_copy-Reports c local upstream m w =
      (unit_of-Reports (c.plain w) m, unit_of-Reports (c.ktls w) m)

  -- A copy that is reported as done has been made, well or not, or was not begun.
  abbrev pub Hides :
      Copy World → Map → TcpStream → TcpStream → World → Reply × State h World → Type 0
  Hides c m local upstream w (done, (m', w')) =
      ((splice h m local upstream ≡ (copies, m')) × (w' ≡ (c.plain w).1))
      ⊎ (IsRefused h m local upstream × (w' ≡ w))
  Hides c m local upstream w (failed e, s) = ⊥
  Hides c m local upstream w (panics, (m', w')) =
      ((key_of h local ≡ none) ⊎ (key_of h upstream ≡ none)) × (w' ≡ w)
