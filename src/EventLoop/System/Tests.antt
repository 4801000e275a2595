-- ===== src/EventLoop/System/Tests.antt =====
-- turbine/src/event_loop.rs as a whole on a concrete run. A rule and a connection are numbers.
use proxy_printer.Base.{true, arith, ℕ, ◌≡◌, refl, [], ◌∷◌, some, inl, false}
use proxy_printer.Net.{SocketAddr, v6, addr_eq}
use proxy_printer.EventLoop.Store.{lookup, contains_key, distinct, update}
use proxy_printer.EventLoop.{
  Update, start, reload, retain, retained, drop_others, configure, configure_all, stop, spawn,
  send_replace,
}
use proxy_printer.EventLoop.System.{
  Listener, unbound, bound, System, begin, set_member, reloads, ends, binds, arrives, initial,
  Reach, here, next, arrive_listener,
}
use proxy_printer.EventLoop.System.Simulation.{Reach-trans, Calm, stays, follows}
use proxy_printer.EventLoop.System.Following.{Follows, reloads-Follows}
use proxy_printer.EventLoop.System.Ending.{Stops, ended-Stops}
use proxy_printer.EventLoop.System.Given.{Given, Reach-Given}
use proxy_printer.EventLoop.System.Unbound.{IsUnserved, starts, goes_on, fails_to_bind-IsUnserved}

abbrev https : SocketAddr
https = v6 0 443

abbrev one : Update ℕ
one = (https, 1) ∷ []

abbrev two : Update ℕ
two = (https, 2) ∷ []

-- A configuration is taken.
abbrev spawned : System ℕ ℕ
spawned = record initial { loop = reload start one; updates = one ∷ [] }

spawned-Reach : Reach initial spawned
spawned-Reach = next here (reloads initial one refl)

-- Its listener is bound, and a connection arrives.
abbrev fresh : Listener ℕ ℕ
fresh = record { rule = 1; seen = 0; queue = []; spawned = []; running = true }

abbrev queued : Listener ℕ ℕ
queued = record fresh { queue = some 7 ∷ [] }

abbrev listening : System ℕ ℕ
listening = set_member spawned 0 (bound fresh)

abbrev arrived : System ℕ ℕ
arrived = set_member listening 0 (bound queued)

listening-Reach : Reach initial listening
unfolding set_member start reload retain retained drop_others configure configure_all spawn
    contains_key lookup addr_eq update begin
listening-Reach = next spawned-Reach (binds spawned https 0 fresh (inl (refl, refl)) refl refl)

listening-bound : listening.members 0 ≡ bound fresh
unfolding set_member update
listening-bound = refl

arrived-bound : arrived.members 0 ≡ bound queued
unfolding set_member update
arrived-bound = refl

arrived-Reach : Reach initial arrived
unfolding set_member arrive_listener
arrived-Reach = next listening-Reach (arrives listening 0 fresh (some 7) listening-bound)

-- The next configuration is taken, the loop ends, and the listener makes a round.
abbrev reloaded : System ℕ ℕ
reloaded = record arrived { loop = reload arrived.loop two; updates = two ∷ arrived.updates }

abbrev ended : System ℕ ℕ
ended = record reloaded { loop = stop reloaded.loop; ended = true }

reloaded-Reach : Reach arrived reloaded
unfolding set_member
reloaded-Reach = next here (reloads arrived two refl)

ended-Calm : Calm reloaded ended
unfolding set_member
ended-Calm = follows stays (ends reloaded refl) tt

ended-Reach : Reach arrived ended
unfolding set_member
ended-Reach = next reloaded-Reach (ends reloaded refl)

ended-bound : ended.members 0 ≡ bound queued
ended-bound = arrived-bound

reloads-Follows_example : Follows 2 queued ended 0
unfolding set_member start reload retain retained drop_others configure configure_all spawn
    send_replace contains_key lookup addr_eq distinct
reloads-Follows_example =
    reloads-Follows two https 0 queued 2 arrived-Reach refl refl refl refl arrived-bound ended-Calm

ended-Stops_example : Stops (true ∷ true ∷ false ∷ []) ended 0 queued
ended-Stops_example =
    ended-Stops (true ∷ true ∷ false ∷ []) 0 queued (Reach-trans arrived-Reach ended-Reach) refl
      ended-bound refl (omega arith)

Reach-Given_example : Given ended
Reach-Given_example = Reach-Given (Reach-trans arrived-Reach ended-Reach)

-- Or its socket cannot be had, and the next configuration has the address again.
abbrev failed : System ℕ ℕ
failed = set_member spawned 0 unbound

abbrev reconfigured : System ℕ ℕ
reconfigured = record failed { loop = reload failed.loop two; updates = two ∷ failed.updates }

fails_to_bind-IsUnserved_example : IsUnserved https 0 spawned reconfigured
unfolding set_member start reload retain retained drop_others configure configure_all spawn
    send_replace contains_key lookup addr_eq
fails_to_bind-IsUnserved_example =
    fails_to_bind-IsUnserved https 0 refl refl (goes_on starts (reloads failed two refl) refl)
