-- ===== src/Balance.antt =====
-- turbine/src/load_balancing_strategy.rs: the choice of a backend.
pub mod Rounds
mod Tests
use proxy_printer.Base.{ℕ, ◌+◌, ◌%◌, ◌^◌, List, Option, some, none, length, get_elem?}
use proxy_printer.Net.{SocketAddr}
use proxy_printer.Config.{
  NonEmpty, iter, Backend, LoadBalancingStrategy, round_robin_at, random_pick,
  LoadBalancingStrategyConfig, round_robin, random,
}

-- `usize` is a 64-bit word.
abbrev pub usize_mod : ℕ
usize_mod = 2 ^ 64

-- `Backend::new`.
unfoldable pub backend : SocketAddr → Backend
backend addr = record { addr = addr }

-- `impl From<&LoadBalancingStrategyConfig>`.
unfoldable pub from_config : LoadBalancingStrategyConfig → LoadBalancingStrategy
from_config round_robin = round_robin_at 0
from_config random = random_pick

-- The pick and the strategy after it; `none` is a panic, by an index out of bounds or by the `unwrap`
-- of the clock. `fetch_add` gives the old value and wraps; `nanos` is the clock's `subsec_nanos`, none
-- where the clock is before 1970.
unfoldable pub pick_backend :
    LoadBalancingStrategy → Option ℕ → NonEmpty Backend → Option Backend × LoadBalancingStrategy
pick_backend (round_robin_at ix) nanos bs =
    (get_elem? (iter bs) (ix % length (iter bs)), round_robin_at ((ix + 1) % usize_mod))
pick_backend random_pick none bs = (none, random_pick)
pick_backend random_pick (some nanos) bs =
    (get_elem? (iter bs) (nanos % length (iter bs)), random_pick)
