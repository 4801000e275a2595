-- ===== src/EventLoop/System/Following.antt =====
-- From a configuration to the tasks (turbine/src/event_loop.rs): which rule the connections are served by
-- once the event loop has taken a configuration.
use proxy_printer.Base.{ℕ, ◌≡◌, sym, ap, ◌∙◌, true, false, List, ◌∷◌, ◌++◌, some}
use proxy_printer.Net.{SocketAddr}
use proxy_printer.EventLoop.Store.{lookup, distinct}
use proxy_printer.EventLoop.{Update, reload}
use proxy_printer.EventLoop.Reload.{config_of, config_of-reload}
use proxy_printer.EventLoop.Runner.{Runner, latest}
use proxy_printer.EventLoop.Runner.Serving.{tasks, run-quiet}
use proxy_printer.EventLoop.System.{Listener, bound, System, view, reloads, initial, Reach, next}
use proxy_printer.EventLoop.System.Invariant.{Sound-latest, Reach-Inv}
use proxy_printer.EventLoop.System.Simulation.{Calm, Calm-Simulates}

module _ {Rule Conn : Type 0} where
  -- Between two moments the listener has spawned tasks for some connections, all by the one rule.
  pub record Follows (r : Rule) (l : Listener Rule Conn) (t : System Rule Conn) (i : ℕ)
      : Type 0 where
    pub later : Listener Rule Conn
    pub is_bound : t.members i ≡ bound later
    pub served : List Conn
    pub spawned_since : later.spawned ≡ l.spawned ++ tasks r served

  module _ {s : System Rule Conn} (k : SocketAddr) (i : ℕ) (l : Listener Rule Conn) (r : Rule) where
    latest-config_of :
        Reach initial s
        → lookup k s.loop.listeners ≡ some i
        → config_of s.loop k ≡ some r
        → s.members i ≡ bound l
        → latest (view (s.loop.channels i) l) ≡ r
    unfolding config_of
    latest-config_of reach listed config e =
        let value : (s.loop.channels i).value ≡ some r = rw (listed, config_of) at config in
        let known = Sound-latest (s.loop.channels i) l ((Reach-Inv reach).sound i l e) in
        let same : some (latest (view (s.loop.channels i) l)) ≡ some r = sym known ∙ value in cc

    Calm-Follows :
        {t : System Rule Conn}
        → Reach initial s
        → lookup k s.loop.listeners ≡ some i
        → config_of s.loop k ≡ some r
        → s.members i ≡ bound l
        → Calm s t
        → Follows r l t i
    Calm-Follows reach listed config e calm =
        let f = Calm-Simulates i l reach calm e in
        let q =
          run-quiet r (view (s.loop.channels i) l) f.events (f.quiet tt)
            (latest-config_of reach listed config e) in
        record {
          later = f.later;
          is_bound = f.is_bound;
          served = q.served;
          spawned_since = ap (λ (w : Runner Rule Conn). w.spawned) f.ran ∙ q.spawned_since;
        }

  -- Once the event loop has taken a configuration that gives an address a rule, every task that the
  -- bound listener of the address spawns has that rule, until the loop takes the next configuration:
  -- whatever comes in between, in whatever order, arrivals, rounds of this and the other listeners, and
  -- the end of the loop.
  pub reloads-Follows :
      {s t : System Rule Conn} (u : Update Rule) (k : SocketAddr) (i : ℕ) (l : Listener Rule Conn)
      (r : Rule)
      → Reach initial s
      → s.ended ≡ false
      → distinct u ≡ true
      → lookup k u ≡ some r
      → lookup k (reload s.loop u).listeners ≡ some i
      → s.members i ≡ bound l
      → Calm (record s { loop = reload s.loop u; updates = u ∷ s.updates }) t
      → Follows r l t i
  reloads-Follows {s} {t} u k i l r reach on d has listed e calm =
      Calm-Follows k i l r (next reach (reloads s u on)) listed
        (config_of-reload s.loop u k (Reach-Inv reach).consistent d ∙ has) e calm
