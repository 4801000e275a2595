-- ===== src/EventLoop/Runner/Conserving.antt =====
-- What becomes of the connections that come to `LBRunner::run` (turbine/src/event_loop.rs).
use proxy_printer.Base.{◌≡◌, true, List, [], ◌∷◌, ◌++◌, map, some, none}
use proxy_printer.EventLoop.Runner.{
  Runner, Event, arrives, publishes, drops_sender, turns, connections,
}

module _ {Rule Conn : Type 0} where
  abbrev conn_of : Rule × Conn → Conn
  conn_of p = p.1

  -- All the connections that came to the runner: those with a task, then those in the queue.
  abbrev pub known : Runner Rule Conn → List Conn
  known w = map conn_of w.spawned ++ connections w.queue

  -- What was there is known still, in front of what is lost; and that is nothing while it runs.
  pub record Keeps (before : List Conn) (w : Runner Rule Conn) : Type 0 where
    pub lost : List Conn
    pub kept : before ≡ known w ++ lost
    pub while_running : w.running ≡ true → lost ≡ []

  -- The connections that come while the events happen.
  abbrev pub arrivals : List (Event Rule Conn) → List Conn
  arrivals [] = []
  arrivals (arrives (some c) ∷ es) = c ∷ arrivals es
  arrivals (arrives none ∷ es) = arrivals es
  arrivals (publishes r ∷ es) = arrivals es
  arrivals (drops_sender ∷ es) = arrivals es
  arrivals (turns ready ∷ es) = arrivals es
