-- ===== src/Match.antt =====
-- turbine/src/match.rs: which upstream a connection goes to.
pub mod Laws
mod Tests
use proxy_printer.Base.{
  ℕ, Bool, true, false, not, List, [], ◌∷◌, Option, some, none, ◌==◌, if◌then◌else◌, bytes_eq,
}
use proxy_printer.Net.{SocketAddr, v4, port}
use proxy_printer.Config.{
  MatchConfig, any, sni, sni_regex, sni_regex_not, alpn, destination_port, Upstream, NonEmpty, iter,
}

pub record MatchContext : Type 0 where
  pub server_name : Option (List ℕ)
  pub alpns : Option (List (List ℕ))
  pub destination : SocketAddr

-- `MatchContext::new`: the local address of the stream, or 0.0.0.0:0 where it cannot be read.
unfoldable pub new : Option SocketAddr → Option (List ℕ) → Option (List (List ℕ)) → MatchContext
new local sni_name alpn_names = record {
  server_name = sni_name;
  alpns = alpn_names;
  destination = elim local [ some a ↦ a | none ↦ v4 0 0 ];
}

-- `cnx_alpn.to_slices().iter().any(|cnx_alpn| *cnx_alpn == alpn.as_bytes())`.
any_eq : List (List ℕ) → List ℕ → Bool
any_eq [] bs = false
any_eq (a ∷ rest) bs = if bytes_eq a bs then true else any_eq rest bs

module _ {Regex : Type 0} (is_match : Regex → List ℕ → Bool) where
  -- The closure that `find` tests each upstream with.
  pub matches : MatchContext → MatchConfig Regex → Bool
  unfolding any_eq
  matches c any = true
  matches c MatchConfig.none = false
  matches c (sni name) = elim c.server_name [ none ↦ false | some cnx_sni ↦ bytes_eq cnx_sni name ]
  matches c (sni_regex re) = elim c.server_name [
    | none ↦ false
    | some cnx_sni ↦ is_match re cnx_sni
  ]
  matches c (sni_regex_not re) = elim c.server_name [
    | none ↦ false
    | some cnx_sni ↦ not (is_match re cnx_sni)
  ]
  matches c (destination_port dport) = port c.destination == dport
  matches c (alpn name) = elim c.alpns [ none ↦ false | some cnx_alpn ↦ any_eq cnx_alpn name ]

module _ {Regex Acceptor : Type 0} (is_match : Regex → List ℕ → Bool) where
  find : MatchContext → List (Upstream Regex Acceptor) → Option (Upstream Regex Acceptor)
  find c [] = none
  find c (u ∷ us) = if matches is_match c u.cfg.match then some u else find c us

  unfoldable pub find_matching_upstream :
      MatchContext → NonEmpty (Upstream Regex Acceptor) → Option (Upstream Regex Acceptor)
  unfolding find matches
  find_matching_upstream c upstreams = find c (iter upstreams)
