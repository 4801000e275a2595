-- ===== src/EventLoop/System.antt =====
-- turbine/src/event_loop.rs as a whole: the event loop, the listeners that it has spawned, and the watch
-- channels between them, each side moving in its own time.
pub mod Channels
pub mod Rounds
pub mod Invariant
pub mod Simulation
pub mod Following
pub mod Ending
pub mod Origins
pub mod Given
pub mod Unbound
mod Tests
use proxy_printer.Base.{
  ℕ, Bool, true, false, ◌≡◌, List, [], ◌∷◌, ◌++◌, Option, some, none, ◌==◌, if◌then◌else◌,
}
use proxy_printer.Net.{SocketAddr}
use proxy_printer.EventLoop.Store.{update}
use proxy_printer.EventLoop.{Channel, Listening, Update, start, reload, stop}
use proxy_printer.EventLoop.Invariant.{Serves}
use proxy_printer.EventLoop.Runner.{Runner, turn}

-- The state of `LBRunner::run` behind its bound socket. `seen` is the version that its receiver has
-- seen.
pub record Listener (Rule Conn : Type 0) : Type 0 where
  pub rule : Rule
  pub seen : ℕ
  pub queue : List (Option Conn)
  pub spawned : List (Rule × Conn)
  pub running : Bool

-- A spawned runner: not polled yet, ended because its socket could not be had, or with its socket.
pub data Member (Rule Conn : Type 0) : Type 0 where
  waiting : Member Rule Conn
  unbound : Member Rule Conn
  bound : Listener Rule Conn → Member Rule Conn

-- The members by the number of their channel. `updates` are the configurations taken so far, the last
-- one first.
pub record System (Rule Conn : Type 0) : Type 0 where
  pub loop : Listening Rule
  pub ended : Bool
  pub members : ℕ → Member Rule Conn
  pub updates : List (Update Rule)

module _ {Rule Conn : Type 0} where
  -- `create_socket(..)?`, `listen(..)?` and `from_std(..)?` have succeeded: `borrow_and_update`.
  unfoldable pub begin : Channel Rule → Option (Listener Rule Conn)
  begin c = elim c.value [
    | none ↦ none
    | some r ↦
        some (record { rule = r; seen = c.version; queue = []; spawned = []; running = true })
  ]

  -- The runner with what its receiver sees of the channel.
  abbrev pub view : Channel Rule → Listener Rule Conn → Runner Rule Conn
  view c l = record {
    rule = l.rule;
    unseen = if l.seen == c.version then none else c.value;
    sender = c.sender;
    queue = l.queue;
    spawned = l.spawned;
    running = l.running;
  }

  -- A round of its loop. Where it goes on, `changed` has looked at the channel.
  unfoldable pub turn_listener : Bool → Channel Rule → Listener Rule Conn → Listener Rule Conn
  turn_listener ready c l =
      let w = turn ready (view c l) in
      record {
        rule = w.rule;
        seen = if l.running then c.version else l.seen;
        queue = w.queue;
        spawned = w.spawned;
        running = w.running;
      }

  -- A connection, or an error of `accept`, comes to its socket.
  unfoldable pub arrive_listener : Listener Rule Conn → Option Conn → Listener Rule Conn
  arrive_listener l c = if l.running then record l { queue = l.queue ++ c ∷ [] } else l

  abbrev pub set_member : System Rule Conn → ℕ → Member Rule Conn → System Rule Conn
  unfolding update
  set_member s i m = record s { members = update s.members i m }

  -- What can happen next, in any order.
  pub data Step : System Rule Conn → System Rule Conn → Type 0 where
    reloads :
        (s : System Rule Conn) (u : Update Rule)
        → s.ended ≡ false
        → Step s (record s { loop = reload s.loop u; updates = u ∷ s.updates })
    ends :
        (s : System Rule Conn)
        → s.ended ≡ false
        → Step s (record s { loop = stop s.loop; ended = true })
    binds :
        (s : System Rule Conn) (k : SocketAddr) (i : ℕ) (l : Listener Rule Conn)
        → Serves k i s.loop.runners
        → s.members i ≡ waiting
        → begin (s.loop.channels i) ≡ some l
        → Step s (set_member s i (bound l))
    fails_to_bind :
        (s : System Rule Conn) (k : SocketAddr) (i : ℕ)
        → Serves k i s.loop.runners
        → s.members i ≡ waiting
        → Step s (set_member s i unbound)
    arrives :
        (s : System Rule Conn) (i : ℕ) (l : Listener Rule Conn) (c : Option Conn)
        → s.members i ≡ bound l
        → Step s (set_member s i (bound (arrive_listener l c)))
    turns :
        (s : System Rule Conn) (i : ℕ) (l : Listener Rule Conn) (ready : Bool)
        → s.members i ≡ bound l
        → Step s (set_member s i (bound (turn_listener ready (s.loop.channels i) l)))

  -- Before the first configuration.
  abbrev pub initial : System Rule Conn
  initial = record { loop = start; ended = false; members = λ i. waiting; updates = [] }

  pub data Reach (s : System Rule Conn) : System Rule Conn → Type 0 where
    here : Reach s s
    next : {t u : System Rule Conn} → Reach s t → Step t u → Reach s u
