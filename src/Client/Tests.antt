-- ===== src/Client/Tests.antt =====
-- `handle_client` (turbine/src/main.rs) for a client that comes to port 443 and asks for nothing.
use proxy_printer.Base.{ℕ, refl, true, List, [], ◌∷◌, none, some, inl, inr, ◌⊎◌, bytes_eq}
use proxy_printer.Net.{v6, SocketAddr}
use proxy_printer.Config.{tcp, tls, any, sni, Rule, Upstream, round_robin, round_robin_at, static}
use proxy_printer.Match.{new, find_matching_upstream}
use proxy_printer.Ktls.Samples.{linux, willing}
use proxy_printer.Ktls.Setup.Samples.{three, decrypted, connected, config_ktls-three}
use proxy_printer.Client.Action.{copies}
use proxy_printer.Client.Hello.{Messages, hello, handshake}
use proxy_printer.Client.Connect.{
  ConnectAnswer, in_progress, refused, writable, clean, UpstreamSocket,
}
use proxy_printer.Client.Handle.{copied, time_over, World, match_context, transfer, handle_client}
use proxy_printer.Client.Effects.{Emits}
use proxy_printer.Client.Routing.{Routes, handle_client-Routes}
use proxy_printer.Client.Preface.{Begins}
use proxy_printer.Client.Opening.{IsPreface, handle_client-Begins}
use proxy_printer.Client.Transfer.{GoesOn, Leaves, transfer-GoesOn_or_Leaves}
use proxy_printer.Client.Success.{Answers, Does}
use proxy_printer.Client.Progress.{Healthy, handle_client-Copies}
use proxy_printer.Client.Refused.{IsBeforehand, handle_client-Beforehand}

abbrev messages : Messages
messages = record {
  Deframer = Unit;
  OpaqueMessage = Unit;
  Hello = Unit;
  ServerNames = Unit;
  deframe = λ read. some tt;
  pop = λ d. some (some tt);
  try_from = λ m. some (handshake (hello tt));
  get_sni_extension = λ h. none;
  get_single_hostname = λ n. none;
  get_alpn_extension = λ h. none;
}

abbrev socket : ConnectAnswer → UpstreamSocket
socket a = record {
  call = λ c. true;
  connect = λ addr. a;
  from_std = true;
  wait_writable = λ limit. writable;
  take_error = clean;
}

-- The first copy comes to its end, the second runs out of time.
abbrev world : ConnectAnswer → World (List ℕ) Unit
world a = record {
  is_match = bytes_eq;
  set_nodelay = true;
  set_tcp_keepalive = true;
  local_addr = some (v6 1 443);
  client = record { readable = true; peek = λ len. some [] };
  messages = messages;
  nanos = some 0;
  upstream = socket a;
  header = λ peer local. some (13 ∷ 10 ∷ []);
  write = λ bs. true;
  tls = three;
  bindings = linux;
  kernel = willing;
  rustls = connected;
  accept = λ acceptor. some decrypted;
  rounds = copied ∷ time_over ∷ [];
}

abbrev peer : SocketAddr
peer = v6 7 40000

-- TLS ends here, and the upstream wants the PROXY header.
abbrev upstream : Upstream (List ℕ) Unit
upstream = record {
  cfg = record {
    name = [];
    backends = static (record { head = record { addr = v6 254 8084 }; tail = [] });
    load_balancing = round_robin;
    proxy_protocol = true;
    match = any;
    cnx_max_duration = 3600;
    connect_timeout = 10;
    tls = none;
  };
  backends = record { head = record { addr = v6 254 8084 }; tail = [] };
  load_balancing = round_robin_at 0;
  tls_acceptor = some tt;
}

abbrev rule : Rule (List ℕ) Unit
rule = record { protocol = tcp; upstreams = record { head = upstream; tail = [] } }

-- A client that says in its ClientHello that it wants `e`, and the upstream is for those.
abbrev named : World (List ℕ) Unit
named = record (world in_progress) {
  messages = record messages {
    get_sni_extension = λ h. some tt;
    get_single_hostname = λ n. some (b'e' ∷ []);
  };
}

abbrev for_named : Rule (List ℕ) Unit
for_named = record {
  protocol = tls;
  upstreams = record {
    head = record upstream { cfg = record upstream.cfg { match = sni (b'e' ∷ []) } };
    tail = [];
  };
}

handle_client-Routes_example : Emits (Routes named for_named) (handle_client named for_named peer)
handle_client-Routes_example = handle_client-Routes named for_named peer

handle_client-Begins_example :
    Begins (IsPreface (world in_progress) rule peer) (handle_client (world in_progress) rule peer)
handle_client-Begins_example = handle_client-Begins (world in_progress) rule peer

-- Every answer is good.
healthy : Healthy (world in_progress) rule upstream
unfolding match_context find_matching_upstream
healthy = record {
  nodelay = refl;
  keepalive = refl;
  nanos = 0;
  after_1970 = refl;
  context = new (some (v6 1 443)) none none;
  recognised = refl;
  suited = refl;
  willing = λ c. refl;
  from_std = refl;
  answers = λ addr. inr (refl, refl, refl);
  local = v6 1 443;
  is_local = refl;
  encodes = λ peer. (13 ∷ 10 ∷ [], refl);
  writes = λ bs. refl;
  accepted = (decrypted, refl, config_ktls-three.0, config_ktls-three.1);
  first = copied;
  later = time_over ∷ [];
  rounds = refl;
}

handle_client-Copies_example : Does (copies 3600) (handle_client (world in_progress) rule peer)
handle_client-Copies_example = handle_client-Copies (world in_progress) rule upstream healthy peer

unreachable : (limit : ℕ) (addr : SocketAddr) → ¬ (Answers (socket refused) limit addr)
unreachable limit addr (inl e) = cc
unreachable limit addr (inr (e, w, c)) = cc

handle_client-Beforehand_example : Emits IsBeforehand (handle_client (world refused) rule peer)
handle_client-Beforehand_example = handle_client-Beforehand (world refused) unreachable rule peer

transfer-GoesOn_or_Leaves_example :
    GoesOn 3600
      (copied ∷ time_over ∷ [])
      (transfer (world in_progress) 3600 (copied ∷ time_over ∷ []))
    ⊎ Leaves 3600
        (copied ∷ time_over ∷ [])
        (transfer (world in_progress) 3600 (copied ∷ time_over ∷ []))
transfer-GoesOn_or_Leaves_example =
    transfer-GoesOn_or_Leaves 3600 (world in_progress) (copied ∷ time_over ∷ [])
