-- ===== src/Match/Tests.antt =====
-- The search for an upstream (turbine/src/match.rs) on the rule for port 443 of config.yaml.
use proxy_printer.Base.{ℕ, ◌≡◌, refl, Bool, false, List, [], ◌∷◌, some, none, bytes_eq}
use proxy_printer.Net.{v6}
use proxy_printer.Config.{
  MatchConfig, any, sni, Upstream, NonEmpty, iter, round_robin, round_robin_at, static,
}
use proxy_printer.Match.{MatchContext, find_matching_upstream}
use proxy_printer.Match.Laws.{Picks, find_matching_upstream-Picks}

-- `ws.erebe.eu`, cut to its first bytes.
abbrev ws : List ℕ
ws = b'w' ∷ b's' ∷ []

-- An expression is a text that must be equal.
abbrev same : List ℕ → List ℕ → Bool
same = bytes_eq

abbrev upstream : List ℕ → MatchConfig (List ℕ) → Upstream (List ℕ) Unit
upstream name m = record {
  cfg = record {
    name = name;
    backends = static (record { head = record { addr = v6 254 8084 }; tail = [] });
    load_balancing = round_robin;
    proxy_protocol = false;
    match = m;
    cnx_max_duration = 3600;
    connect_timeout = 10;
    tls = none;
  };
  backends = record { head = record { addr = v6 254 8084 }; tail = [] };
  load_balancing = round_robin_at 0;
  tls_acceptor = none;
}

abbrev rule443 : NonEmpty (Upstream (List ℕ) Unit)
rule443 = record { head = upstream ws (sni ws); tail = upstream (b'n' ∷ []) any ∷ [] }

abbrev client : MatchContext
client = record { server_name = some (b'x' ∷ []); alpns = none; destination = v6 0 443 }

other_name : find_matching_upstream same client rule443 ≡ some (upstream (b'n' ∷ []) any)
unfolding find_matching_upstream bytes_eq
other_name = refl

find_matching_upstream-Picks_example :
    Picks same client (iter rule443) (find_matching_upstream same client rule443)
find_matching_upstream-Picks_example = find_matching_upstream-Picks same client rule443
