-- ===== src/Balance/Tests.antt =====
-- The choice of a backend (turbine/src/load_balancing_strategy.rs) on concrete inputs.
use proxy_printer.Base.{◌≡◌, refl, [], ◌∷◌, ◌++◌, map, some, none, arith, drop, take}
use proxy_printer.Net.{v4}
use proxy_printer.Config.{NonEmpty, iter, Backend, round_robin_at, round_robin}
use proxy_printer.Balance.{backend, from_config, pick_backend}
use proxy_printer.Balance.Rounds.{picks, picks-round}

abbrev three : NonEmpty Backend
three = record {
  head = record { addr = v4 1 80 };
  tail = record { addr = v4 2 80 } ∷ record { addr = v4 3 80 } ∷ [];
}

first_pick : (pick_backend (from_config round_robin) (some 7) three).0 ≡ some (backend (v4 1 80))
unfolding pick_backend from_config backend
first_pick = refl

picks-round_example :
    picks (round_robin_at 4) three (none ∷ some 0 ∷ some 0 ∷ [])
    ≡ map some (drop 1 (iter three) ++ take 1 (iter three))
picks-round_example = picks-round three 4 (none ∷ some 0 ∷ some 0 ∷ []) refl (omega arith)
