-- ===== src/Main.antt =====
-- turbine/src/main.rs, `main`: the start, from the configuration on, and the wait for the connections at
-- the end. What is between waits for two signals.
pub mod Start
pub mod Waiting
pub mod Stopping
pub mod Versions
mod Tests
use proxy_printer.Base.{ℕ, zero, suc, Bool, true, List, [], ◌∷◌, Option, some, none, if◌then◌else◌}
use proxy_printer.Tls.{Library, FilePath}
use proxy_printer.Config.{Config}
use proxy_printer.Config.Parse.{parsed, error, panicked, parse_config, Rules}
use proxy_printer.Config.Watch.{Inner, Notify, new}
use proxy_printer.EventLoop.Tasks.{Tasks, all_done}

-- An error of the first parse is returned; without a watcher `main` panics.
pub data Started (Sent : Type 0) : Type 0 where
  failed panics : Started Sent
  running : Inner Sent → Started Sent

module _ (notify : Notify) {Regex : Type 0} (lib : Library)
    (read : FilePath → Option (Config Regex)) where
  watching : FilePath → Rules Regex lib → Started (Rules Regex lib)
  watching path rules = elim (new notify path (rules ∷ [], true)) [
    | none ↦ panics
    | some w ↦ running w
  ]

  -- The parse, `config_tx.send(rules)`, and the watcher. The event loop, spawned before, has the
  -- receiver.
  pub start : FilePath → Started (Rules Regex lib)
  unfolding watching
  start path = elim (parse_config lib read path) [
    | parsed rules ↦ watching path rules
    | error ↦ failed
    | panicked ↦ panics
  ]

-- A round of the wait: the tasks when the counter is read, and whether SIGINT comes before the second
-- is over.
pub record Round : Type 0 where
  pub tasks : Tasks
  pub sigint : Bool

-- How the wait ends; `waits` is a wait that is not at its end.
pub data Exit : Type 0 where
  drained interrupted waits : Exit

-- With the seconds that were slept.
pub wait_for_tasks : List Round → Exit × ℕ
wait_for_tasks [] = (waits, zero)
wait_for_tasks (r ∷ rest) =
    let (exit, seconds) = wait_for_tasks rest in
    if all_done r.tasks
    then (drained, zero)
    else if r.sigint
    then (interrupted, zero)
    else (exit, suc seconds)
