-- ===== src/Main/Tests.antt =====
-- `main` (turbine/src/main.rs) on a configuration without rules, and its wait for one task.
use proxy_printer.Base.{◌≡◌, refl, inl, true, false, List, [], ◌∷◌, Option, some, none, arith}
use proxy_printer.Tls.{Library, FilePath}
use proxy_printer.Config.{Config}
use proxy_printer.Config.Watch.{Notify}
use proxy_printer.EventLoop.Tasks.{
  all_done, Tasks, Reach, here, next, spawns, begins, finishes, none_yet, spawn, begin, finish,
}
use proxy_printer.Main.{Round, drained, start, wait_for_tasks}
use proxy_printer.Main.Start.{Starts, start-Starts}
use proxy_printer.Main.Stopping.{Moment, exited, life, second, sigint}
use proxy_printer.Main.Stopping.Orderly.{IsOrderly, life-IsOrderly}
use proxy_printer.Main.Stopping.Exiting.{life-exited}
use proxy_printer.Config.Parse.Samples.{files, read, good, config, is_parsed}
use proxy_printer.Config.Watch.{Inner, new, create, modify, handle_event}
use proxy_printer.Config.Parse.{Rules}
use proxy_printer.Main.{running, watching}
use proxy_printer.Main.Versions.{
  Edit, Version, WasRead, edited, IsInForce, Serving, start-Serving, start-IsInForce,
  handle_event-IsInForce,
}
use proxy_printer.Main.Waiting.{Waited, wait_for_tasks-Waited}

abbrev no_tls : Library
no_tls = record {
  File = Unit;
  Certificate = Unit;
  PrivateKey = Unit;
  Identity = Unit;
  open_file = λ p. none;
  certs = λ f. [];
  private_key = λ f. none;
  with_single_cert = λ cs k. none;
}

abbrev path : FilePath
path = b'c' ∷ []

abbrev empty : FilePath → Option (Config Unit)
empty p = some (record { rules = [] })

abbrev willing : Notify
willing = record { can_create = true; can_watch = λ p. true }

start-Starts_example : Starts willing no_tls empty path (start willing no_tls empty path)
start-Starts_example = start-Starts willing no_tls empty path

-- A task that has begun, and its end.
abbrev one : Tasks
one = record { waiting = 0; started = 1; counter = 1 }

abbrev over : Tasks
over = record { waiting = 0; started = 0; counter = 0 }

one-Reach : Reach one
unfolding spawn begin
one-Reach = next (next here (spawns none_yet)) (begins (spawn none_yet) (omega arith))

over-Reach : Reach over
unfolding finish
over-Reach = next one-Reach (finishes one (omega arith))

abbrev rounds : List Round
rounds = record { tasks = one; sigint = false } ∷ record { tasks = over; sigint = false } ∷ []

one_second : wait_for_tasks rounds ≡ (drained, 1)
unfolding wait_for_tasks all_done
one_second = refl

wait_for_tasks-Waited_example : Waited rounds (wait_for_tasks rounds)
wait_for_tasks-Waited_example =
    wait_for_tasks-Waited rounds ((one-Reach, omega arith), ((over-Reach, omega arith), tt))

-- Asked to stop, told to hurry, and told again while a task is left.
abbrev impatient : List Moment
impatient =
    record { wakeup = sigint; tasks = one }
    ∷ record { wakeup = second; tasks = one }
    ∷ record { wakeup = sigint; tasks = one }
    ∷ record { wakeup = sigint; tasks = one }
    ∷ []

life-IsOrderly_example : IsOrderly (life impatient) impatient
life-IsOrderly_example = life-IsOrderly impatient

life-exited_example : life impatient ≡ exited
life-exited_example = life-exited impatient (omega arith)

-- A file with a rule is touched once, and is not there the next time; then it is created
-- again where the key and the certificate are gone.
abbrev begun : Inner (Rules Unit files)
begun = record { watcher = [] ∷ []; sent = good ∷ []; receiver = true }

abbrev keys : FilePath → Option (Unit {0})
keys = files.open_file

abbrev edits : List (Edit Unit Unit)
edits =
    record { read = read; files = keys; notify = willing; event = some modify }
    ∷ record { read = λ p. none; files = keys; notify = willing; event = some modify }
    ∷ record { read = read; files = λ p. none; notify = willing; event = some create }
    ∷ []

starts : start willing files read [] ≡ running begun
unfolding start watching new
starts = rw (is_parsed, start) refl

start-Serving_example :
    Serving files [] (WasRead files [] read keys) edits (edited files [] begun edits)
start-Serving_example = start-Serving files [] willing read begun edits starts

abbrev now : Version Unit Unit
now = record { content = config []; files = keys }

begun-IsInForce : IsInForce files [] now begun
begun-IsInForce =
    let (v, (there, same), f) = start-IsInForce files [] willing read begun starts in
    let known : v ≡ now = cc in rw known at f

handle_event-IsInForce_example :
    IsInForce files [] now (handle_event willing files read begun [] (some create)).1
handle_event-IsInForce_example =
    handle_event-IsInForce files [] willing read now now good create begun begun-IsInForce
      (inl refl) refl is_parsed refl (λ p. refl)
