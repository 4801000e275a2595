-- ===== src/EventLoop/Tests.antt =====
-- The event loop (turbine/src/event_loop.rs) on concrete inputs. A rule is a number.
use proxy_printer.Base.{◌↔◌, arith, ℕ, ◌≡◌, refl, true, [], ◌∷◌, none}
use proxy_printer.Net.{SocketAddr, v6, addr_eq}
use proxy_printer.EventLoop.Store.{lookup, contains_key, distinct}
use proxy_printer.EventLoop.{Update, start, listen_config_change, config_change, shutdown}
use proxy_printer.EventLoop.Reload.{config_of, serves, listen_config_change-serves}
use proxy_printer.EventLoop.Runners.{IsAccounted, listen_config_change-IsAccounted}
use proxy_printer.EventLoop.Runner.{Runner}
use proxy_printer.EventLoop.Tasks.{
  none_yet, Reach, here, next, begins, spawns, spawn, begin, all_done, all_done_iff,
}

abbrev https : SocketAddr
https = v6 0 443

abbrev http : SocketAddr
http = v6 0 80

abbrev first_config : Update ℕ
first_config = (https, 1) ∷ (http, 2) ∷ []

abbrev second_config : Update ℕ
second_config = (https, 3) ∷ []

listen_config_change-serves_example :
    config_of (listen_config_change start (config_change first_config ∷ shutdown ∷ [])) https
    ≡ serves (λ j. none) (config_change first_config ∷ shutdown ∷ []) https
listen_config_change-serves_example =
    listen_config_change-serves (config_change first_config ∷ shutdown ∷ []) https
      (unfold distinct contains_key lookup addr_eq in (refl, tt))

listen_config_change-IsAccounted_example :
    IsAccounted
      (listen_config_change start (config_change first_config ∷ config_change second_config ∷ []))
listen_config_change-IsAccounted_example =
    listen_config_change-IsAccounted (config_change first_config ∷ config_change second_config ∷ [])

abbrev idle : Runner ℕ ℕ
idle = record { rule = 1; unseen = none; sender = true; queue = []; spawned = []; running = true }

-- A task is spawned, and begins.
one_begun : Reach (begin (spawn none_yet))
unfolding spawn
one_begun = next (next here (spawns none_yet)) (begins (spawn none_yet) (omega arith))

all_done_iff_example :
    (all_done (begin (spawn none_yet)) ≡ true) ↔ ((begin (spawn none_yet)).started ≡ 0)
unfolding begin spawn
all_done_iff_example = all_done_iff one_begun (omega arith)
