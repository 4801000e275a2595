-- ===== src/Client/Action.antt =====
-- Results and effects of the code in turbine/src/main.rs that handles a connection.
use proxy_printer.Base.{ℕ, Bool, true, false, Option, none, some, List, [], ◌∷◌, ◌++◌}
use proxy_printer.Net.{SocketAddr}
use proxy_printer.Config.{LoadBalancingStrategy}

-- The calls on a new socket, in `create_socket`.
pub data SocketCall : Type 0 where
  new_socket : Bool → SocketCall
  set_tcp_keepalive set_reuse_address set_reuse_port : SocketCall
  set_keepalive set_nodelay set_nonblocking : SocketCall
  bind : SocketAddr → SocketCall

-- What the code does to the world, as far as others see it: calls on the socket to the upstream, the
-- advance of a round robin, the connection, bytes written to the upstream, the handshake with the
-- client, and a copy in both directions, with its time limit.
pub data Effect : Type 0 where
  calls : SocketCall → Effect
  advances : LoadBalancingStrategy → Effect
  connects : SocketAddr → Effect
  sends : List ℕ → Effect
  handshakes : Effect
  copies : ℕ → Effect

-- Where an `anyhow::Error` comes from.
pub data Failure : Type 0 where
  client_socket client_hello upstream_socket connect_refused connect_timeout connect_wait : Failure
  proxy_header upstream_write tls_handshake ktls_setup : Failure

-- `anyhow::Result<A>`, or a panic; `goes_on` is a loop that is not at its end.
pub data Done (A : Type 0) : Type 0 where
  returned : A → Done A
  failed : Failure → Done A
  panics : Done A
  goes_on : Done A

abbrev pub Action : Type 0 → Type 0
Action A = Done A × List Effect

module _ {A : Type 0} where
  abbrev pub pure : A → Action A
  pure a = (returned a, [])

  unfoldable pub or_fail : Failure → Option A → Action A
  or_fail e none = (failed e, [])
  or_fail e (some a) = (returned a, [])

  unfoldable pub or_panic : Option A → Action A
  or_panic none = (panics, [])
  or_panic (some a) = (returned a, [])

abbrev pub emit : Effect → Action (Unit {0})
emit e = (returned tt, e ∷ [])

unfoldable pub ensure : Failure → Bool → Action (Unit {0})
ensure e true = (returned tt, [])
ensure e false = (failed e, [])

infixl 5 ◌>>=◌ ◌>>◌
unfoldable pub ◌>>=◌ : {A B : Type 0} → Action A → (A → Action B) → Action B
(returned a, t) >>= f = let (r, t') = f a in (r, t ++ t')
(failed e, t) >>= f = (failed e, t)
(panics, t) >>= f = (panics, t)
(goes_on, t) >>= f = (goes_on, t)

abbrev pub ◌>>◌ : {A B : Type 0} → Action A → Action B → Action B
m >> k = m >>= λ _. k
