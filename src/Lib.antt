-- ===== src/Lib.antt =====
-- proxy_printer is a layer-4 load balancer (turbine) with kernel TLS (ktls). turbine reads a
-- configuration of rules, keeps a listener for each address in it, and for each accepted
-- connection picks an upstream, a backend, and copies bytes. ktls hands a TLS connection that
-- rustls has negotiated to the kernel.
--
-- How the parts interact. `parse_config` (turbine/src/config/mod.rs) makes a map from addresses to
-- rules, at start and whenever `ConfigWatcher::handle_event` sees a watched file change; the map
-- goes through a channel to `LBAppContext::listen_config_change` (turbine/src/event_loop.rs),
-- which starts, informs and stops the listeners. A listener, `LBRunner::run`, takes new rules from
-- its watch channel and spawns a task for each connection. A task matches the connection against
-- the upstreams of its rule (turbine/src/match.rs) and picks a backend
-- (turbine/src/load_balancing_strategy.rs). For TLS, `CorkStream` (ktls/src/cork_stream.rs) lets
-- rustls stop at the end of a record, and `KtlsStream` (ktls/src/ktls_stream.rs) goes on from
-- there.
--
-- Which file models which part:
--   Base, Net: helpers, and `std::net::SocketAddr`.
--   Config, Tls: turbine/src/config/types.rs, the structures of turbine/src/main.rs, and
--     turbine/src/tls.rs. Config.Parse is `parse_config`, Config.Watch is `ConfigWatcher::new` and
--     `handle_event`.
--   Match, Balance: turbine/src/match.rs and turbine/src/load_balancing_strategy.rs.
--   EventLoop: `listen_config_change`; its state `Listening` has the map of listeners, a store of
--     watch channels and the spawned runners. EventLoop.Runner is the loop of `LBRunner::run`,
--     with the accept queue and the watch channel in its state; a round may find its poll of the
--     socket held up though connections wait, as tokio's budget makes it, and the socket is closed
--     with the loop, with the connections in its queue. EventLoop.Tasks is the counter
--     `tasks_running`. EventLoop.System is all of it at once: the event loop, the listeners that
--     it has spawned with the version that each receiver has seen, and a step for whatever can
--     happen next.
--   Sockmap: `SockMapSplice::splice` and `socket_hash`
--     (turbine/src/splice_strategy/ebpf_sockmap.rs) and the kernel program's `stream_verdict`
--     (splice-ebpf/src/main.rs), which looks a socket up by the same hash.
--   Ktls: Ktls.Cork is `CorkStream::poll_read`, state for state, and Ktls.Cork.Calls its other
--     calls; Ktls.Stream is `KtlsStream`. Ktls.Setup is `drain`, `setup_inner` and
--     `config_ktls_server` (ktls/src/lib.rs), Ktls.Ciphers its `CompatibleCiphers`, whose `new` is
--     Ktls.Ciphers.Connections. Ktls.Ffi and Ktls.Notify are ktls/src/ffi.rs: the options and the
--     message that go to the kernel. Ktls.Results has the errors and results of the crate, with an
--     action on a socket that may return, fail, or panic. Ktls.Io, Ktls.Socket and Ktls.Rustls are
--     what the rest stands on.
--   Xtask: xtask/src: `build_ebpf`, `build` and `run`, with the commands tried as a trace.
--   Splice: the trait `SocketSplice` and its implementations (turbine/src/splice_strategy).
--   Main: the start of `main` (turbine/src/main.rs); Main.Stopping is its end, a state machine
--     that signals and seconds drive, and `wait_for_tasks` the last loop of it. Main.Versions
--     follows a file through the watcher and the channel to the event loop; the configuration, the
--     keys and the certificates may be others at each event.
--   Client: `handle_client`, `create_socket` and `extract_tls_info` (turbine/src/main.rs), with
--     turbine/src/peekable_stream.rs in Client.Hello and `KtlsTcpStream` in Client.KtlsTcp. An
--     action of Client.Action returns, fails with the source of its error, or panics, and has a
--     list of effects: the calls on the new socket, the connection, the bytes sent to the
--     upstream, the handshake, the copies.
--
-- Parameters. Code outside the repository is a parameter with its documented behaviour as fields:
-- `Ktls.Io.Source` is an `AsyncRead` that never gives more bytes than asked for and logs what it
-- gave, `Ktls.Socket.Socket` adds recvmsg, sendmsg, writes, flushes and the shutdown,
-- `Ktls.Cork.Codec` is rustls's reading of a record header, `Tls.Library` is std's files,
-- rustls_pemfile and rustls, `Config.Watch.Notify` is the notify crate, `Sockmap.SockHash` is the
-- kernel's map of sockets, `Ktls.Setup.TlsStream` and `Ktls.Setup.Connected` are rustls's stream
-- and connection, `Ktls.Ffi.Kernel` is setsockopt, `Ktls.Rustls.Bindings` are the numbers of
-- linux/tls.h, `Xtask.run` takes the status of a command, `Client.Hello.Messages` is rustls's
-- reading of a ClientHello, `Ktls.Ciphers.Connections` takes the answers of a loopback listener
-- and `try_join_all`, `Splice.Copy` is a copy of a library, `Client.Connect.UpstreamSocket`
-- answers the calls on the socket to a backend, `Client.Handle.World` collects what one connection
-- meets, and a match takes the regular expressions as a test.
--
-- Bounds. `usize` is a 64-bit word where it counts: the round robin and the task counter wrap. The
-- loop of `CorkStream::poll_read` has fuel 5: a round that goes on has read at least one of the
-- five bytes of a header, so that the fuel is never used up. The loop of `drain` has one round
-- more than its buffer has bytes, since a round that goes on fills at least one. The last loop of
-- `handle_client` runs over the ends of its copies as they are given. Bytes are natural numbers.
--
-- Not modelled: the copies of tokio and tokio_splice, the loading of the kernel program, the
-- deserialisation of the configuration (serde), `try_io` and vectored writes, logging, error
-- texts, files that change while one reload reads them, and the command lines of turbine and
-- xtask.
pub mod Base
pub mod Net
pub mod Tls
pub mod Config
pub mod Match
pub mod Balance
pub mod EventLoop
pub mod Ktls
pub mod Sockmap
pub mod Splice
pub mod Client
pub mod Main
pub mod Xtask
