-- ===== src/EventLoop/Tasks.antt =====
-- The count of the connection tasks: `tasks_running` (turbine/src/event_loop.rs), which each task of
-- `LBRunner::run` raises and lowers, and which `main` (turbine/src/main.rs) waits on at its end.
use proxy_printer.Base.{ℕ, ◌+◌, ◌-◌, ◌%◌, ◌^◌, ◌<◌, ◌≡◌, refl, ◌↔◌, Bool, true, arith, ◌==◌}

-- A task is spawned, is polled for the first time, and ends. `counter` is an `AtomicUsize`.
pub record Tasks : Type 0 where
  pub waiting : ℕ
  pub started : ℕ
  pub counter : ℕ

abbrev pub usize_mod : ℕ
usize_mod = 2 ^ 64

-- `tokio::spawn(proxied_client_loop)`.
unfoldable pub spawn : Tasks → Tasks
spawn t = record t { waiting = t.waiting + 1 }

-- The first poll of a task: `task_counter.fetch_add(1, ..)`.
unfoldable pub begin : Tasks → Tasks
begin t = record {
  waiting = t.waiting - 1;
  started = t.started + 1;
  counter = (t.counter + 1) % usize_mod;
}

-- The guard of a task that ends: `task_counter.fetch_sub(1, ..)`.
unfoldable pub finish : Tasks → Tasks
finish t = record t { started = t.started - 1; counter = (t.counter + usize_mod - 1) % usize_mod }

-- The tasks run side by side: any of them may move next.
pub data Step : Tasks → Tasks → Type 0 where
  spawns : (t : Tasks) → Step t (spawn t)
  begins : (t : Tasks) → 0 < t.waiting → Step t (begin t)
  finishes : (t : Tasks) → 0 < t.started → Step t (finish t)

abbrev pub none_yet : Tasks
none_yet = record { waiting = 0; started = 0; counter = 0 }

pub data Reach : Tasks → Type 0 where
  here : Reach none_yet
  next : {t u : Tasks} → Reach t → Step t u → Reach u

-- `main` stops waiting for connections.
unfoldable pub all_done : Tasks → Bool
all_done t = t.counter == 0

-- The counter is the number of started tasks, modulo the word.
abbrev Counts : Tasks → Type 0
Counts t = t.counter ≡ t.started % usize_mod

Step-Counts : {t u : Tasks} → Step t u → Counts t → Counts u
unfolding spawn begin finish
Step-Counts (spawns t) c = c
Step-Counts (begins t h) c = omega arith
Step-Counts (finishes t h) c = omega arith

Reach-Counts : {t : Tasks} → Reach t → Counts t
Reach-Counts here = refl
Reach-Counts (next r s) = Step-Counts s (Reach-Counts r)

-- However tasks are spawned, begin and end: with fewer than 2^64 tasks begun and not ended, `main`
-- stops waiting exactly if there is no such task, the spawned tasks that wait for their first poll
-- not counted.
pub all_done_iff :
    {t : Tasks} → Reach t → t.started < usize_mod → (all_done t ≡ true) ↔ (t.started ≡ 0)
unfolding all_done
all_done_iff r h = ground (arith, Reach-Counts r)
