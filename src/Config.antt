-- ===== src/Config.antt =====
-- turbine/src/config/types.rs and the structures of turbine/src/main.rs that are built from it.
-- Texts are their bytes. The regular expressions and the TLS acceptors are those of other crates:
-- their types are parameters.
pub mod Parse
pub mod Watch
use proxy_printer.Base.{ℕ, List, Option, Bool, true, false, ◌∷◌, []}
use proxy_printer.Net.{SocketAddr, v4, v6}

-- `nonempty::NonEmpty`.
pub record NonEmpty (A : Type 0) : Type 0 where
  pub head : A
  pub tail : List A

abbrev pub iter : {A : Type 0} → NonEmpty A → List A
iter n = n.head ∷ n.tail

pub data Protocol : Type 0 where
  tcp tls : Protocol

pub data LoadBalancingStrategyConfig : Type 0 where
  round_robin random : LoadBalancingStrategyConfig

pub record BackendConfig : Type 0 where
  pub addr : SocketAddr

pub data BackendDiscovery : Type 0 where
  static : NonEmpty BackendConfig → BackendDiscovery

pub data MatchConfig (Regex : Type 0) : Type 0 where
  any : MatchConfig Regex
  none : MatchConfig Regex
  sni : List ℕ → MatchConfig Regex
  sni_regex : Regex → MatchConfig Regex
  sni_regex_not : Regex → MatchConfig Regex
  alpn : List ℕ → MatchConfig Regex
  destination_port : ℕ → MatchConfig Regex

pub record TlsConfig : Type 0 where
  pub certificate : List ℕ
  pub private_key : List ℕ
  pub alpns : List (List ℕ)

pub record UpstreamConfig (Regex : Type 0) : Type 0 where
  pub name : List ℕ
  pub backends : BackendDiscovery
  pub load_balancing : LoadBalancingStrategyConfig
  pub proxy_protocol : Bool
  pub match : MatchConfig Regex
  pub cnx_max_duration : ℕ
  pub connect_timeout : ℕ
  pub tls : Option TlsConfig

pub record RuleConfig (Regex : Type 0) : Type 0 where
  pub protocol : Protocol
  pub listen_addr : NonEmpty SocketAddr
  pub upstreams : NonEmpty (UpstreamConfig Regex)

pub record Config (Regex : Type 0) : Type 0 where
  pub rules : List (RuleConfig Regex)

pub record Backend : Type 0 where
  pub addr : SocketAddr

-- The strategy at run time: the round robin keeps the number of picks, an `AtomicUsize`.
pub data LoadBalancingStrategy : Type 0 where
  round_robin_at : ℕ → LoadBalancingStrategy
  random_pick : LoadBalancingStrategy

pub record Upstream (Regex Acceptor : Type 0) : Type 0 where
  pub cfg : UpstreamConfig Regex
  pub backends : NonEmpty Backend
  pub load_balancing : LoadBalancingStrategy
  pub tls_acceptor : Option Acceptor

pub record Rule (Regex Acceptor : Type 0) : Type 0 where
  pub protocol : Protocol
  pub upstreams : NonEmpty (Upstream Regex Acceptor)

-- `LOCAL_ADDR_V4` and `LOCAL_ADDR_V6`: the unspecified address, port 0.
abbrev pub local_addr_v4 : SocketAddr
local_addr_v4 = v4 0 0

abbrev pub local_addr_v6 : SocketAddr
local_addr_v6 = v6 0 0
