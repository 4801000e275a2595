-- ===== src/Main/Stopping/Orderly.antt =====
-- In which order `main` (turbine/src/main.rs) comes to its end.
use proxy_printer.Base.{
  ℕ, suc, ◌+◌, ◌<◌, ◌≡◌, refl, ap, ◌⊎◌, inl, inr, true, List, [], ◌∷◌, ◌++◌, All, ◌==◌, Bool-cases,
  arith,
}
use proxy_printer.EventLoop.Tasks.{all_done}
use proxy_printer.Main.Stopping.{
  Wakeup, sigterm, sigint, second, Moment, Phase, serving, grace, draining, exited, read_tasks,
  sleeps, wake, life,
}

abbrev pub IsSecond : Moment → Type 0
IsSecond m = m.wakeup ≡ second

abbrev pub IsSigint : Moment → Type 0
IsSigint m = m.wakeup ≡ sigint

abbrev pub seconds_in : List Moment → ℕ
seconds_in [] = 0
seconds_in (m ∷ ms) = elim m.wakeup [
  | second ↦ suc (seconds_in ms)
  | sigint ↦ seconds_in ms
  | sigterm ↦ seconds_in ms
]

abbrev pub sigints_in : List Moment → ℕ
sigints_in [] = 0
sigints_in (m ∷ ms) = elim m.wakeup [
  | sigint ↦ suc (sigints_in ms)
  | second ↦ sigints_in ms
  | sigterm ↦ sigints_in ms
]

-- A signal after which no second SIGINT came, and so many seconds.
pub record InGrace (n : ℕ) (ms : List Moment) : Type 0 where
  pub since : List Moment
  pub signal : Moment
  pub before : List Moment
  pub split : ms ≡ since ++ signal ∷ before
  pub quiet : All IsSecond before
  pub asked : IsSecond signal → ⊥
  pub unasked : sigints_in since ≡ 0
  pub slept : seconds_in since ≡ n

-- The grace time was over, by its last second or by a SIGINT.
pub record IsToldToEnd (ms : List Moment) : Type 0 where
  pub since : List Moment
  pub cause : Moment
  pub before : List Moment
  pub split : ms ≡ since ++ cause ∷ before
  pub waited : ℕ
  pub in_grace : InGrace waited before
  pub reason : IsSigint cause ⊎ (IsSecond cause × (waited ≡ 14))

-- Told to end, with a moment since at which no task was counted, or a further SIGINT.
pub record IsExit (ms : List Moment) : Type 0 where
  pub after : List Moment
  pub last : Moment
  pub earlier : List Moment
  pub split : ms ≡ after ++ last ∷ earlier
  pub told : IsToldToEnd (last ∷ earlier)
  pub reason : (all_done last.tasks ≡ true) ⊎ (IsSigint last × IsToldToEnd earlier)

abbrev pub IsOrderly : Phase → List Moment → Type 0
IsOrderly serving ms = All IsSecond ms
IsOrderly (grace n) ms = InGrace n ms × (n < 15)
IsOrderly draining ms = IsToldToEnd ms
IsOrderly exited ms = IsExit ms

InGrace-later :
    (n : ℕ) (m : Moment) (ms : List Moment) → InGrace n ms → m.wakeup ≡ sigterm → InGrace n (m ∷ ms)
InGrace-later n m ms g e = record {
  since = m ∷ g.since;
  signal = g.signal;
  before = g.before;
  split = ap (m ∷◌) g.split;
  quiet = g.quiet;
  asked = g.asked;
  unasked = ground (arith, g.unasked);
  slept = ground (arith, g.slept);
}

InGrace-second :
    (n : ℕ) (m : Moment) (ms : List Moment) → InGrace n ms → IsSecond m → InGrace (n + 1) (m ∷ ms)
InGrace-second n m ms g e = record {
  since = m ∷ g.since;
  signal = g.signal;
  before = g.before;
  split = ap (m ∷◌) g.split;
  quiet = g.quiet;
  asked = g.asked;
  unasked = ground (arith, g.unasked);
  slept = ground (arith, g.slept);
}

InGrace-signal :
    (m : Moment) (ms : List Moment) → All IsSecond ms → (IsSecond m → ⊥) → InGrace 0 (m ∷ ms)
InGrace-signal m ms q a = record {
  since = [];
  signal = m;
  before = ms;
  split = refl;
  quiet = q;
  asked = a;
  unasked = refl;
  slept = refl;
}

IsToldToEnd-later : (m : Moment) (ms : List Moment) → IsToldToEnd ms → IsToldToEnd (m ∷ ms)
IsToldToEnd-later m ms t = record {
  since = m ∷ t.since;
  cause = t.cause;
  before = t.before;
  split = ap (m ∷◌) t.split;
  waited = t.waited;
  in_grace = t.in_grace;
  reason = t.reason;
}

IsToldToEnd-now :
    (n : ℕ) (m : Moment) (ms : List Moment)
    → InGrace n ms
    → IsSigint m ⊎ (IsSecond m × (n ≡ 14))
    → IsToldToEnd (m ∷ ms)
IsToldToEnd-now n m ms g r = record {
  since = [];
  cause = m;
  before = ms;
  split = refl;
  waited = n;
  in_grace = g;
  reason = r;
}

IsExit-later : (m : Moment) (ms : List Moment) → IsExit ms → IsExit (m ∷ ms)
IsExit-later m ms x = record {
  after = m ∷ x.after;
  last = x.last;
  earlier = x.earlier;
  split = ap (m ∷◌) x.split;
  told = x.told;
  reason = x.reason;
}

IsExit-now :
    (m : Moment) (ms : List Moment)
    → IsToldToEnd (m ∷ ms)
    → (all_done m.tasks ≡ true) ⊎ (IsSigint m × IsToldToEnd ms)
    → IsExit (m ∷ ms)
IsExit-now m ms t r = record {
  after = [];
  last = m;
  earlier = ms;
  split = refl;
  told = t;
  reason = r;
}

-- The counter is read.
read_tasks-IsOrderly :
    (m : Moment) (ms : List Moment) → IsToldToEnd (m ∷ ms) → IsOrderly (read_tasks m.tasks) (m ∷ ms)
unfolding read_tasks
read_tasks-IsOrderly m ms t = elim (Bool-cases (all_done m.tasks)) [
  | inl none_left ↦ rw (none_left, read_tasks) (IsExit-now m ms t (inl none_left))
  | inr left ↦ rw (left, read_tasks) t
]

sleeps-IsOrderly :
    (n : ℕ) (m : Moment) (ms : List Moment)
    → InGrace n ms
    → n < 15
    → IsSecond m
    → IsOrderly (sleeps (n + 1) m.tasks) (m ∷ ms)
unfolding sleeps
sleeps-IsOrderly n m ms g few e = elim (Bool-cases (n + 1 == 15)) [
  | inl last ↦
      rw (last, sleeps)
        (read_tasks-IsOrderly m ms (IsToldToEnd-now n m ms g (inr (e, ground arith))))
  | inr more ↦ rw (more, sleeps) (InGrace-second n m ms g e, ground arith)
]

wake-IsOrderly :
    (p : Phase) (w : Wakeup) (m : Moment) (ms : List Moment)
    → m.wakeup ≡ w
    → IsOrderly p ms
    → IsOrderly (wake p w m.tasks) (m ∷ ms)
unfolding wake
wake-IsOrderly serving second m ms e o = (e, o)
wake-IsOrderly serving sigterm m ms e o = (InGrace-signal m ms o (λ f. cc), omega arith)
wake-IsOrderly serving sigint m ms e o = (InGrace-signal m ms o (λ f. cc), omega arith)
wake-IsOrderly (grace n) second m ms e (g, few) = sleeps-IsOrderly n m ms g few e
wake-IsOrderly (grace n) sigterm m ms e (g, few) = (InGrace-later n m ms g e, few)
wake-IsOrderly (grace n) sigint m ms e (g, few) =
    read_tasks-IsOrderly m ms (IsToldToEnd-now n m ms g (inl e))
wake-IsOrderly draining second m ms e o = read_tasks-IsOrderly m ms (IsToldToEnd-later m ms o)
wake-IsOrderly draining sigterm m ms e o = IsToldToEnd-later m ms o
wake-IsOrderly draining sigint m ms e o = IsExit-now m ms (IsToldToEnd-later m ms o) (inr (e, o))
wake-IsOrderly exited w m ms e o = IsExit-later m ms o

-- Whatever wakes `main` up, and in whatever order: until the first signal it serves; the event loop is
-- told to end only by a SIGINT that comes after the first signal, or when 15 seconds have gone by since
-- the first signal; and `main`
-- exits only once the event loop has been told, at a moment at which no task is counted or at a SIGINT
-- after that.
pub life-IsOrderly : (ms : List Moment) → IsOrderly (life ms) ms
unfolding life
life-IsOrderly [] = tt
life-IsOrderly (m ∷ ms) = wake-IsOrderly (life ms) m.wakeup m ms refl (life-IsOrderly ms)
