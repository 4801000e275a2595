-- ===== src/Main/Stopping.antt =====
-- turbine/src/main.rs, the end of `main`: from the signals that ask it to stop, over the shutdown of the
-- event loop, to its exit.
pub mod Orderly
pub mod Exiting
use proxy_printer.Base.{ℕ, ◌+◌, Bool, true, false, List, [], ◌∷◌, ◌==◌, if◌then◌else◌}
use proxy_printer.EventLoop.Tasks.{Tasks, all_done}

-- What `main` waits for: a signal, or that a second of the sleep of the moment goes by.
pub data Wakeup : Type 0 where
  sigterm sigint second : Wakeup

-- With the tasks as they are then.
pub record Moment : Type 0 where
  pub wakeup : Wakeup
  pub tasks : Tasks

-- Where `main` waits: for the first signal, through so many seconds of the 15, or for the tasks, once
-- the event loop has been told to end.
pub data Phase : Type 0 where
  serving : Phase
  grace : ℕ → Phase
  draining exited : Phase

-- The last loop reads the counter before it waits.
unfoldable pub read_tasks : Tasks → Phase
read_tasks t = if all_done t then exited else draining

-- `shutdown_tx.send(())`, after 15 seconds, is between `grace` and `read_tasks`.
unfoldable pub sleeps : ℕ → Tasks → Phase
unfolding read_tasks
sleeps n t = if n == 15 then read_tasks t else grace n

unfoldable pub wake : Phase → Wakeup → Tasks → Phase
unfolding sleeps read_tasks
wake serving second t = serving
wake serving sigterm t = grace 0
wake serving sigint t = grace 0
wake (grace n) second t = sleeps (n + 1) t
wake (grace n) sigterm t = grace n
wake (grace n) sigint t = read_tasks t
wake draining second t = read_tasks t
wake draining sigterm t = draining
wake draining sigint t = exited
wake exited w t = exited

-- Over the moments, the last one first.
unfoldable pub life : List Moment → Phase
unfolding wake
life [] = serving
life (m ∷ earlier) = wake (life earlier) m.wakeup m.tasks
