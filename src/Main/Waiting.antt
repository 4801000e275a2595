-- ===== src/Main/Waiting.antt =====
-- How long `main` (turbine/src/main.rs) waits for the connections at its end.
use proxy_printer.Base.{
  ℕ, zero, suc, ◌≡◌, refl, ◌<◌, Bool, true, false, List, [], ◌∷◌, ◌++◌, All, if◌then◌else◌, ap,
  length,
}
use proxy_printer.EventLoop.Tasks.{Reach, all_done, all_done_iff, usize_mod}
use proxy_printer.Main.{Round, Exit, drained, interrupted, waits, wait_for_tasks}

-- A round that the wait goes on after.
pub record GoesOn (r : Round) : Type 0 where
  pub tasks_left : all_done r.tasks ≡ false
  pub unasked : r.sigint ≡ false

-- The states that the wait reads are those of the tasks, with fewer than 2^64 at a time.
abbrev pub IsReached : Round → Type 0
IsReached r = Reach r.tasks × (r.tasks.started < usize_mod)

-- The wait slept in each of `earlier`, and ends in the round behind them.
pub record Ends (rounds : List Round) (P : Round → Type 0) (seconds : ℕ) : Type 0 where
  pub earlier : List Round
  pub last : Round
  pub later : List Round
  pub split : rounds ≡ earlier ++ last ∷ later
  pub went_on : All GoesOn earlier
  pub reason : P last
  pub slept : seconds ≡ length earlier

abbrev pub Waited : List Round → Exit × ℕ → Type 0
Waited rounds (drained, n) = Ends rounds (λ r. r.tasks.started ≡ 0) n
Waited rounds (interrupted, n) = Ends rounds (λ r. r.sigint ≡ true) n
Waited rounds (waits, n) = All GoesOn rounds × (n ≡ length rounds)

Ends-cons :
    {P : Round → Type 0} (r : Round) (rounds : List Round) (n : ℕ)
    → GoesOn r
    → Ends rounds P n
    → Ends (r ∷ rounds) P (suc n)
Ends-cons r rounds n g e = record {
  earlier = r ∷ e.earlier;
  last = e.last;
  later = e.later;
  split = ap (r ∷◌) e.split;
  went_on = (g, e.went_on);
  reason = e.reason;
  slept = ap suc e.slept;
}

Ends-now : {P : Round → Type 0} (r : Round) (rounds : List Round) → P r → Ends (r ∷ rounds) P 0
Ends-now r rounds p = record {
  earlier = [];
  last = r;
  later = rounds;
  split = refl;
  went_on = tt;
  reason = p;
  slept = refl;
}

slept-Waited :
    (r : Round) (rounds : List Round) (q : Exit × ℕ)
    → GoesOn r
    → Waited rounds q
    → Waited (r ∷ rounds) (q.0, suc q.1)
slept-Waited r rounds (drained, n) g w = Ends-cons r rounds n g w
slept-Waited r rounds (interrupted, n) g w = Ends-cons r rounds n g w
slept-Waited r rounds (waits, n) g (all, e) = ((g, all), ap suc e)

round-Waited :
    (r : Round) (rest : List Round) (q : Exit × ℕ) (none_left asked : Bool)
    → all_done r.tasks ≡ none_left
    → r.sigint ≡ asked
    → (all_done r.tasks ≡ true → r.tasks.started ≡ 0)
    → Waited rest q
    → Waited (r ∷ rest) (
        if none_left
        then (drained, zero)
        else if asked
        then (interrupted, zero)
        else (q.0, suc q.1))
round-Waited r rest q true asked d a none_started w = Ends-now r rest (none_started d)
round-Waited r rest q false true d a none_started w = Ends-now r rest a
round-Waited r rest q false false d a none_started w =
    slept-Waited r rest q (record { tasks_left = d; unasked = a }) w

-- Over any course of the tasks the wait of `main` ends in the first round in which the counter is zero
-- or SIGINT comes, after one second for each round before it, and with the first reason only if no
-- task that has started is left; as long as neither happens it goes on.
pub wait_for_tasks-Waited :
    (rounds : List Round) → All IsReached rounds → Waited rounds (wait_for_tasks rounds)
unfolding wait_for_tasks
wait_for_tasks-Waited [] h = (tt, refl)
wait_for_tasks-Waited (r ∷ rest) ((reach, few), hs) =
    round-Waited r rest (wait_for_tasks rest) (all_done r.tasks) r.sigint refl refl
      (λ none_left. (all_done_iff reach few).0 none_left) (wait_for_tasks-Waited rest hs)
