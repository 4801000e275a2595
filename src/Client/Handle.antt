-- ===== src/Client/Handle.antt =====
-- turbine/src/main.rs, `handle_client`.
use proxy_printer.Base.{ℕ, Bool, List, [], ◌∷◌, Option, none, some, if◌then◌else◌}
use proxy_printer.Net.{SocketAddr}
use proxy_printer.Config.{Protocol, tcp, tls, Upstream, Rule}
use proxy_printer.Match.{MatchContext, new, find_matching_upstream}
use proxy_printer.Balance.{pick_backend}
use proxy_printer.Client.Action.{
  advances, sends, handshakes, copies, client_socket, proxy_header, upstream_write, tls_handshake,
  ktls_setup, failed, panics, goes_on, Action, pure, or_fail, or_panic, emit, ensure, ◌>>=◌, ◌>>◌,
}
use proxy_printer.Client.Hello.{ClientSocket, Messages, extract_tls_info}
use proxy_printer.Client.Connect.{UpstreamSocket, connect_upstream}
use proxy_printer.Ktls.Results as Ktls
use proxy_printer.Ktls.Rustls.{Bindings}
use proxy_printer.Ktls.Ffi.{Kernel}
use proxy_printer.Ktls.Stream as KtlsStream
use proxy_printer.Ktls.Setup.{TlsStream, Connected, config_ktls}

-- What one round of the last loop ends with: the copy is over, it fails, or the time is.
pub data Round : Type 0 where
  copied copy_failed time_over : Round

-- The world of one connection. `nanos` is the clock when a backend is picked at random, none before 1970; `header` is
-- ppp's encoding of the PROXY header, and `write` whether bytes can be written to the upstream.
pub record World (Regex Acceptor : Type 0) : Type 1 where
  pub is_match : Regex → List ℕ → Bool
  pub set_nodelay : Bool
  pub set_tcp_keepalive : Bool
  pub local_addr : Option SocketAddr
  pub client : ClientSocket
  pub messages : Messages
  pub nanos : Option ℕ
  pub upstream : UpstreamSocket
  pub header : SocketAddr → SocketAddr → Option (List ℕ)
  pub write : List ℕ → Bool
  pub tls : TlsStream
  pub bindings : Bindings
  pub kernel : Kernel tls.Io
  pub rustls : Connected tls.Connection
  pub accept : Acceptor → Option tls.Tls
  pub rounds : List Round

module _ {Regex Acceptor : Type 0} (world : World Regex Acceptor) where
  open world use {client, messages, local_addr}

  unfoldable pub match_context : Protocol → Action MatchContext
  match_context tls = do
    info ← extract_tls_info messages client
    pure (new local_addr info.0 info.1)
  match_context tcp = pure (new local_addr none none)

  -- `sock.write_all(..)`.
  unfoldable pub write_all : List ℕ → Action (Unit {0})
  write_all bs = do emit (sends bs); ensure upstream_write (world.write bs)

  unfoldable pub send_header : SocketAddr → Action (Unit {0})
  send_header peer_addr = do
    local ← or_panic local_addr
    bs ← or_fail proxy_header (world.header peer_addr local)
    write_all bs

  -- The loop over the copy: only an error or the end of the time leaves it.
  unfoldable pub transfer : ℕ → List Round → Action (Unit {0})
  transfer limit [] = (goes_on, [])
  transfer limit (copied ∷ rest) = do emit (copies limit); transfer limit rest
  transfer limit (copy_failed ∷ rest) = emit (copies limit)
  transfer limit (time_over ∷ rest) = emit (copies limit)

  abbrev pub set_up : Ktls.Outcome (KtlsStream.KtlsStream world.tls.Io) → Action (Option (List ℕ))
  set_up (Ktls.returned s) = pure (KtlsStream.into_raw s).0
  set_up (Ktls.failed_with e) = (failed ktls_setup, [])
  set_up Ktls.panics = (panics, [])
  set_up Ktls.out_of_fuel = (goes_on, [])

  abbrev pub write_drained : Option (List ℕ) → Action (Unit {0})
  write_drained none = pure tt
  write_drained (some bytes) = write_all bytes

  -- TLS termination.
  unfoldable pub terminate : ℕ → Acceptor → Action (Unit {0})
  terminate limit acceptor = do
    emit handshakes
    tls_stream ← or_fail tls_handshake (world.accept acceptor)
    drain ← set_up (config_ktls world.tls world.bindings world.kernel world.rustls tls_stream)
    write_drained drain
    transfer limit world.rounds

  -- Passthrough: one copy, whose end is logged only.
  unfoldable pub forward : Upstream Regex Acceptor → Action (Unit {0})
  forward u = elim u.tls_acceptor [
    | none ↦ emit (copies u.cfg.cnx_max_duration)
    | some acceptor ↦ terminate u.cfg.cnx_max_duration acceptor
  ]

  -- From the chosen upstream on.
  unfoldable pub serve : SocketAddr → Upstream Regex Acceptor → Action (Unit {0})
  serve peer_addr u = do
    let picked = pick_backend u.load_balancing world.nanos u.backends
    emit (advances picked.1)
    backend ← or_panic picked.0
    connect_upstream world.upstream backend.addr u.cfg.connect_timeout
    if u.cfg.proxy_protocol then send_header peer_addr else pure tt
    forward u

  unfoldable pub handle_client : Rule Regex Acceptor → SocketAddr → Action (Unit {0})
  handle_client rule peer_addr = do
    ensure client_socket world.set_nodelay
    ensure client_socket world.set_tcp_keepalive
    context ← match_context rule.protocol
    elim (find_matching_upstream world.is_match context rule.upstreams) [
      | none ↦ pure tt
      | some u ↦ serve peer_addr u
    ]
