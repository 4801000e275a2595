-- ===== src/Main/Stopping/Exiting.antt =====
-- The third SIGINT ends `main` (turbine/src/main.rs).
use proxy_printer.Base.{
  ℕ, suc, ◌+◌, ◌≤◌, ◌≡◌, refl, inl, inr, List, [], ◌∷◌, ◌==◌, Bool-cases, arith,
}
use proxy_printer.EventLoop.Tasks.{Tasks, all_done}
use proxy_printer.Main.Stopping.{
  Wakeup, sigterm, sigint, second, Moment, Phase, serving, grace, draining, exited, read_tasks,
  sleeps, wake, life,
}
use proxy_printer.Main.Stopping.Orderly.{sigints_in}

-- At most so many times has SIGINT come.
abbrev MostSigints : Phase → ℕ → Type 0
MostSigints serving n = n ≡ 0
MostSigints (grace k) n = n ≤ 1
MostSigints draining n = n ≤ 2
MostSigints exited n = Unit

read_tasks-MostSigints : (t : Tasks) (n : ℕ) → n ≤ 2 → MostSigints (read_tasks t) n
unfolding read_tasks
read_tasks-MostSigints t n h = elim (Bool-cases (all_done t)) [
  | inl none_left ↦ rw (none_left, read_tasks) tt
  | inr left ↦ rw (left, read_tasks) h
]

sleeps-MostSigints : (k : ℕ) (t : Tasks) (n : ℕ) → n ≤ 1 → MostSigints (sleeps k t) n
unfolding sleeps
sleeps-MostSigints k t n h = elim (Bool-cases (k == 15)) [
  | inl last ↦ rw (last, sleeps) (read_tasks-MostSigints t n (omega arith))
  | inr more ↦ rw (more, sleeps) h
]

wake-MostSigints :
    (p : Phase) (w : Wakeup) (t : Tasks) (n : ℕ)
    → MostSigints p n
    → MostSigints (wake p w t) (elim w [ sigint ↦ suc n | second ↦ n | sigterm ↦ n ])
unfolding wake
wake-MostSigints serving second t n h = h
wake-MostSigints serving sigterm t n h = omega arith
wake-MostSigints serving sigint t n h = omega arith
wake-MostSigints (grace k) second t n h = sleeps-MostSigints (k + 1) t n h
wake-MostSigints (grace k) sigterm t n h = h
wake-MostSigints (grace k) sigint t n h = read_tasks-MostSigints t (suc n) (omega arith)
wake-MostSigints draining second t n h = read_tasks-MostSigints t n h
wake-MostSigints draining sigterm t n h = h
wake-MostSigints draining sigint t n h = tt
wake-MostSigints exited w t n h = tt

life-MostSigints : (ms : List Moment) → MostSigints (life ms) (sigints_in ms)
unfolding life
life-MostSigints [] = refl
life-MostSigints (m ∷ ms) =
    wake-MostSigints (life ms) m.wakeup m.tasks (sigints_in ms) (life-MostSigints ms)

many-exited : (p : Phase) (n : ℕ) → 3 ≤ n → MostSigints p n → p ≡ exited
many-exited serving n many h = absurd (omega arith)
many-exited (grace k) n many h = absurd (omega arith)
many-exited draining n many h = absurd (omega arith)
many-exited exited n many h = refl

-- Once SIGINT has come three times `main` has exited, whatever else happened and whatever tasks are left.
pub life-exited : (ms : List Moment) → 3 ≤ sigints_in ms → life ms ≡ exited
life-exited ms many = many-exited (life ms) (sigints_in ms) many (life-MostSigints ms)
