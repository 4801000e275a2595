-- ===== src/Config/Parse.antt =====
-- turbine/src/config/mod.rs, `parse_config`: from the deserialised configuration to the rules by
-- address. Reading the file (serde_yaml) is a parameter.
pub mod Table
pub mod Faults
pub mod Laws
pub mod Samples
mod Tests
use proxy_printer.Base.{
  ℕ, Bool, true, false, List, [], ◌∷◌, ◌++◌, map, Option, some, none, if◌then◌else◌,
}
use proxy_printer.Net.{SocketAddr, addr_eq}
use proxy_printer.Tls.{
  Library, Acceptor, FilePath, load_certificates_from_pem, load_private_key_from_file, tls_acceptor,
  ◌>>=◌,
}
use proxy_printer.Config.{
  NonEmpty, iter, BackendConfig, BackendDiscovery, static, TlsConfig, UpstreamConfig, RuleConfig,
  Config, Backend, Upstream, Rule,
}
use proxy_printer.Balance.{backend, from_config}
use Table.{insert}

-- The result of the parse: a map, an error, or a panic (`expect("Empty upstreams list")`).
pub data Parsed (A : Type 0) : Type 0 where
  parsed : A → Parsed A
  error : Parsed A
  panicked : Parsed A

-- `NonEmpty::collect`.
abbrev pub collect : {A : Type 0} → List A → Option (NonEmpty A)
collect [] = none
collect (a ∷ rest) = some (record { head = a; tail = rest })

-- `NonEmpty::collect(bs.into_iter().map(|x| Backend::new(x.addr)))`.
static_backends : BackendDiscovery → Option (NonEmpty Backend)
static_backends (static bs) = collect (map (λ b. backend b.addr) (iter bs))

module _ (lib : Library) where
  open lib use {Identity}

  -- The acceptor of an upstream: none is an error, `some none` an upstream without TLS.
  acceptor_of : Option TlsConfig → Option (Option (Acceptor Identity))
  acceptor_of none = some none
  acceptor_of (some tls) = do
    certs ← load_certificates_from_pem lib tls.certificate
    key ← load_private_key_from_file lib tls.private_key
    acceptor ← tls_acceptor lib certs key (some tls.alpns)
    some (some acceptor)

-- The map from addresses to rules.
abbrev pub Rules : Type 0 → Library → Type 0
Rules Regex lib = List (SocketAddr × Rule Regex (Acceptor lib.Identity))

module _ {Regex : Type 0} (lib : Library) where
  open lib use {Identity}

  -- The closure over the upstreams: an error where the acceptor or the backends fail.
  pub build_upstream : UpstreamConfig Regex → Option (Upstream Regex (Acceptor Identity))
  unfolding acceptor_of static_backends
  build_upstream u = do
    tls_acceptor ← acceptor_of lib u.tls
    backends ← static_backends u.backends
    some (record {
      cfg = u;
      backends = backends;
      load_balancing = from_config u.load_balancing;
      tls_acceptor = tls_acceptor;
    })

  -- `flat_map` over the results: an upstream with an error is left out.
  pub build_upstreams : List (UpstreamConfig Regex) → List (Upstream Regex (Acceptor Identity))
  build_upstreams [] = []
  build_upstreams (u ∷ us) =
      let rest = build_upstreams us in elim (build_upstream u) [ none ↦ rest | some v ↦ v ∷ rest ]

  -- One rule of the file; none is the panic.
  pub build_rule : RuleConfig Regex → Option (Rule Regex (Acceptor Identity))
  unfolding build_upstreams
  build_rule x = do
    ups ← collect (build_upstreams (iter x.upstreams))
    some (record { protocol = x.protocol; upstreams = ups })

  -- The rule, at each of its addresses, goes into the map.
  pub insert_all :
      List SocketAddr → Rule Regex (Acceptor Identity) → Rules Regex lib → Rules Regex lib
  insert_all [] r m = m
  insert_all (a ∷ rest) r m = insert_all rest r (insert a r m)

  -- `collect` into the `HashMap`, rule by rule.
  unfoldable pub build_rules : List (RuleConfig Regex) → Rules Regex lib → Parsed (Rules Regex lib)
  unfolding insert_all
  build_rules [] m = parsed m
  build_rules (x ∷ xs) m = elim (build_rule x) [
    | none ↦ panicked
    | some r ↦ build_rules xs (insert_all (iter x.listen_addr) r m)
  ]

  unfoldable pub parse_config :
      (FilePath → Option (Config Regex)) → FilePath → Parsed (Rules Regex lib)
  parse_config read path = elim (read path) [ none ↦ error | some c ↦ build_rules c.rules [] ]
