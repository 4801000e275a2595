-- ===== src/EventLoop/Runner.antt =====
-- turbine/src/event_loop.rs, the loop of `LBRunner::run` behind the bound socket: it takes the rules
-- that its watch channel brings and spawns a task for each connection.
pub mod Conserving
pub mod Serving
pub mod Draining
use proxy_printer.Base.{Bool, true, false, List, [], ◌∷◌, ◌++◌, Option, some, none, if◌then◌else◌}

-- `queue` is what `accept` will give, a connection or an error (none); `unseen` is a value of the
-- watch channel that the receiver has not seen yet; `spawned` are the tasks, each with its rule.
pub record Runner (Rule Conn : Type 0) : Type 0 where
  pub rule : Rule
  pub unseen : Option Rule
  pub sender : Bool
  pub queue : List (Option Conn)
  pub spawned : List (Rule × Conn)
  pub running : Bool

-- What happens around the runner, and one round of its own loop: its poll of the socket may come to
-- `Pending` also while connections wait (`false`), as when the task has used up its budget with tokio.
pub data Event (Rule Conn : Type 0) : Type 0 where
  arrives : Option Conn → Event Rule Conn
  publishes : Rule → Event Rule Conn
  drops_sender : Event Rule Conn
  turns : Bool → Event Rule Conn

module _ {Rule Conn : Type 0} where
  -- `handle_client` in a task of its own, with the rule of this moment.
  unfoldable pub serve : Runner Rule Conn → List (Option Conn) → Conn → Runner Rule Conn
  serve w rest c = record w { queue = rest; spawned = w.spawned ++ (w.rule, c) ∷ [] }

  -- `tcp_server.accept()`: an error is passed over, and an empty queue is waited on.
  unfoldable pub accept : Runner Rule Conn → List (Option Conn) → Runner Rule Conn
  unfolding serve
  accept w [] = w
  accept w (some c ∷ rest) = serve w rest c
  accept w (none ∷ rest) = record w { queue = rest }

  -- `break`: the socket is closed with the connections that wait there.
  unfoldable pub close : Runner Rule Conn → Runner Rule Conn
  close w = record w { queue = []; running = false }

  -- `tcp_server.poll_accept(..)` once the sender is gone: an error or an empty queue ends the loop.
  unfoldable pub poll_accept : Runner Rule Conn → List (Option Conn) → Runner Rule Conn
  unfolding serve close
  poll_accept w [] = close w
  poll_accept w (some c ∷ rest) = serve w rest c
  poll_accept w (none ∷ rest) = close w

  -- The biased `select!`: a new rule first, then the end of the channel, then a connection.
  unfoldable pub turn : Bool → Runner Rule Conn → Runner Rule Conn
  unfolding accept poll_accept close
  turn ready w =
      if w.running
      then elim w.unseen [
        | some r ↦ record w { rule = r; unseen = none }
        | none ↦
            if w.sender
            then if ready then accept w w.queue else w
            else if ready
            then poll_accept w w.queue
            else close w
      ]
      else w

  -- A closed socket takes no connections.
  unfoldable pub arrive : Runner Rule Conn → Option Conn → Runner Rule Conn
  arrive w c = if w.running then record w { queue = w.queue ++ c ∷ [] } else w

  unfoldable pub step : Runner Rule Conn → Event Rule Conn → Runner Rule Conn
  unfolding turn arrive
  step w (arrives c) = arrive w c
  step w (publishes r) = if w.sender then record w { unseen = some r } else w
  step w drops_sender = record w { sender = false }
  step w (turns ready) = turn ready w

  unfoldable pub run : Runner Rule Conn → List (Event Rule Conn) → Runner Rule Conn
  run w [] = w
  run w (e ∷ es) = run (step w e) es

  -- The last rule published.
  abbrev pub latest : Runner Rule Conn → Rule
  latest w = elim w.unseen [ some r ↦ r | none ↦ w.rule ]

-- The connections among what `accept` gives.
abbrev pub connections : {Conn : Type 0} → List (Option Conn) → List Conn
connections [] = []
connections (some c ∷ rest) = c ∷ connections rest
connections (none ∷ rest) = connections rest

-- Those before the first error.
abbrev pub until_error : {Conn : Type 0} → List (Option Conn) → List Conn
until_error [] = []
until_error (some c ∷ rest) = c ∷ until_error rest
until_error (none ∷ rest) = []
