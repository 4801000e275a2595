-- ===== src/Client/Connect.antt =====
-- turbine/src/main.rs, `create_socket` and the connection of `handle_client` to the backend.
use proxy_printer.Base.{ℕ, Bool, List, [], ◌∷◌, if◌then◌else◌}
use proxy_printer.Net.{SocketAddr, is_ipv4}
use proxy_printer.Config.{local_addr_v4, local_addr_v6}
use proxy_printer.Client.Action.{
  SocketCall, new_socket, set_tcp_keepalive, set_reuse_address, set_reuse_port, set_keepalive,
  set_nodelay, set_nonblocking, bind, calls, connects, upstream_socket, connect_refused,
  connect_timeout, connect_wait, Action, pure, emit, ensure, ◌>>◌, failed,
}

-- `sock.connect(..)`: done, EINPROGRESS, or another error.
pub data ConnectAnswer : Type 0 where
  connected in_progress refused : ConnectAnswer

-- `timeout(connect_timeout, sock.writable())`.
pub data WaitAnswer : Type 0 where
  elapsed wait_failed writable : WaitAnswer

-- `sock.take_error()`: the call fails, or there is an error, or there is none.
pub data ErrorCheck : Type 0 where
  unreadable pending_error clean : ErrorCheck

-- The answers about the socket to the upstream. The wait is told its limit.
pub record UpstreamSocket : Type 0 where
  pub call : SocketCall → Bool
  pub connect : SocketAddr → ConnectAnswer
  pub from_std : Bool
  pub wait_writable : ℕ → WaitAnswer
  pub take_error : ErrorCheck

module _ (sock : UpstreamSocket) where
  -- Each call, up to the first that fails.
  unfoldable pub call_all : List SocketCall → Action (Unit {0})
  call_all [] = pure tt
  call_all (c ∷ rest) = do emit (calls c); ensure upstream_socket (sock.call c); call_all rest

  unfoldable pub create_socket : SocketAddr → Action (Unit {0})
  create_socket addr = call_all (
      new_socket (is_ipv4 addr)
      ∷ set_tcp_keepalive
      ∷ set_reuse_address
      ∷ set_reuse_port
      ∷ set_keepalive
      ∷ set_nodelay
      ∷ set_nonblocking
      ∷ bind addr
      ∷ [])

  unfoldable pub check : ErrorCheck → Action (Unit {0})
  check unreadable = (failed connect_wait, [])
  check pending_error = (failed connect_refused, [])
  check clean = pure tt

  unfoldable pub wait : WaitAnswer → Action (Unit {0})
  wait elapsed = (failed connect_timeout, [])
  wait wait_failed = (failed connect_wait, [])
  wait writable = check sock.take_error

  unfoldable pub established : ℕ → ConnectAnswer → Action (Unit {0})
  established limit connected = ensure upstream_socket sock.from_std
  established limit in_progress = do
    ensure upstream_socket sock.from_std
    wait (sock.wait_writable limit)
  established limit refused = (failed connect_refused, [])

  -- A socket of the backend's family, connected to it.
  unfoldable pub connect_upstream : SocketAddr → ℕ → Action (Unit {0})
  connect_upstream addr limit = do
    create_socket (if is_ipv4 addr then local_addr_v4 else local_addr_v6)
    emit (connects addr)
    established limit (sock.connect addr)
