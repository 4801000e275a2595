-- ===== src/Config/Watch/Tests.antt =====
-- `handle_event` (turbine/src/config/mod.rs) on a file with a rule whose upstream has TLS, which was
-- created.
use proxy_printer.Base.{refl, true, inl, [], ◌∷◌, some}
use proxy_printer.Config.Parse.{Rules}
use proxy_printer.Config.Parse.Samples.{files, read, good, is_parsed}
use proxy_printer.Config.Watch.{create, Inner, Notify, handle_event}
use proxy_printer.Config.Watch.Laws.{Reloaded, handle_event-Reloaded}

abbrev idle : Inner (Rules Unit files)
idle = record { watcher = [] ∷ []; sent = []; receiver = true }

abbrev willing : Notify
willing = record { can_create = true; can_watch = λ p. true }

handle_event-Reloaded_example :
    Reloaded willing files read idle [] good (handle_event willing files read idle [] (some create))
handle_event-Reloaded_example =
    handle_event-Reloaded willing files read idle [] create good (inl refl) is_parsed refl
      (λ p. refl)
