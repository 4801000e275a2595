-- ===== src/Sockmap/Redirect.antt =====
-- `SockMapSplice::splice` (turbine/src/splice_strategy/ebpf_sockmap.rs) and `stream_verdict`
-- (splice-ebpf/src/main.rs) together: to which socket the data of a connection goes.
use proxy_printer.Base.{
  ℕ, ◌<◌, ◌^◌, ◌≡◌, refl, some, arith, ◌==◌, if◌then◌else◌, Option-cases, inl, inr,
}
use proxy_printer.Net.{SocketAddr, port}
use proxy_printer.Sockmap.{
  socket_hash, SkBuff, SockHash, TcpStream, copies, stream_verdict, key_of, splice,
}
use proxy_printer.Sockmap.Hash.{IsSkbOf, verdict_key-socket_hash}

-- A stream with its addresses.
pub record IsAt (s : TcpStream) (local peer : SocketAddr) : Type 0 where
  pub at_local : s.local_addr ≡ some local
  pub at_peer : s.peer_addr ≡ some peer
  pub is_port : port peer < 2 ^ 16

module _ (h : SockHash) where
  open h use {Map, insert, get, get-insert}

  key_of-IsAt :
      (s : TcpStream) (l p : SocketAddr) → IsAt s l p → key_of h s ≡ some (socket_hash l p)
  unfolding key_of
  key_of-IsAt s l p k = rw (k.at_local, k.at_peer) refl

  -- A splice that reaches the copy has made both insertions.
  splice-copies :
      (m m' : Map) (local upstream : TcpStream) (k k' : ℕ)
      → key_of h local ≡ some k
      → key_of h upstream ≡ some k'
      → splice h m local upstream ≡ (copies, m')
      → (m1 : Map) × (insert k upstream.fd m ≡ some m1) × (insert k' local.fd m1 ≡ some m')
  unfolding splice
  splice-copies m m' local upstream k k' e e' r = elim (Option-cases (insert k upstream.fd m)) [
    | inl f ↦ ground arith
    | inr (m1, f) ↦ elim (Option-cases (insert k' local.fd m1)) [
      | inl g ↦ ground arith
      | inr (m2, g) ↦ (m1, f, ground arith)
    ]
  ]

  module _ (m m' : Map) (local upstream : TcpStream) (ll lp ul up : SocketAddr)
      (at_local : IsAt local ll lp) (at_upstream : IsAt upstream ul up)
      (spliced : splice h m local upstream ≡ (copies, m')) where
    -- After a splice that reaches the copy, data of the upstream's socket is redirected to the
    -- client's socket; and data of the client's socket to the upstream's, if the hashes of the two
    -- connections differ, and otherwise back to the client itself.
    pub splice-redirects :
        (to_local to_upstream : SkBuff)
        → IsSkbOf ul up to_local
        → IsSkbOf ll lp to_upstream
        → (stream_verdict h m' to_local ≡ some local.fd)
          × (stream_verdict h m' to_upstream
              ≡ some (if socket_hash ul up == socket_hash ll lp then local.fd else upstream.fd))
    unfolding stream_verdict
    splice-redirects to_local to_upstream s s' =
        let (m1, f, g) =
          splice-copies m m' local upstream (socket_hash ll lp) (socket_hash ul up)
            (key_of-IsAt local ll lp at_local) (key_of-IsAt upstream ul up at_upstream) spliced in
        let a = get-insert (socket_hash ul up) local.fd m1 m' in
        let b = get-insert (socket_hash ll lp) upstream.fd m m1 (socket_hash ll lp) f in
        (
          rw (verdict_key-socket_hash ul up to_local s at_upstream.is_port, stream_verdict)
              (ground (arith, a (socket_hash ul up) g)),
          rw (verdict_key-socket_hash ll lp to_upstream s' at_local.is_port, stream_verdict)
              (ground (arith, a (socket_hash ll lp) g, b)),
        )
