-- ===== src/Main/Start.antt =====
-- The start of turbine (`main` in turbine/src/main.rs): what is served until the configuration changes.
use proxy_printer.Base.{
  ◌≡◌, ◌≢◌, refl, sym, ◌∙◌, arith, true, List, [], ◌∷◌, ◌++◌, Option, some, none, All, ap, ◌⊎◌, inl,
  inr, false,
}
use proxy_printer.Tls.{Library, FilePath}
use proxy_printer.Config.{Config}
use proxy_printer.Config.Parse.{Parsed, parsed, error, panicked, parse_config, Rules}
use proxy_printer.Config.Watch.{EventKind, Inner, done, Notify, new, file_changes}
use proxy_printer.Config.Watch.Start.{new-watcher, new-none, file_changes-unseen}
use proxy_printer.Main.{Started, failed, panics, running, watching, start}

module _ (notify : Notify) {Regex : Type 0} (lib : Library)
    (read : FilePath → Option (Config Regex)) (path : FilePath) where
  -- The rules of the file were sent, and changes of other files have no effect.
  pub record Serves (w : Inner (Rules Regex lib)) : Type 0 where
    pub rules : Rules Regex lib
    pub of_file : parse_config lib read path ≡ parsed rules
    pub sent : w.sent ≡ rules ∷ []
    pub unseen :
        (changes : List (FilePath × EventKind))
        → All (λ c. c.0 ≢ path) changes
        → file_changes notify lib read w path changes ≡ (done, w)

  abbrev pub Starts : Started (Rules Regex lib) → Type 0
  Starts (running w) = Serves w
  Starts failed = parse_config lib read path ≡ error
  Starts panics =
      (parse_config lib read path ≡ panicked)
      ⊎ ((notify.can_create ≡ false) ⊎ (notify.can_watch path ≡ false))

  made-Starts :
      (rules : Rules Regex lib) (o : Option (Inner (Rules Regex lib)))
      → parse_config lib read path ≡ parsed rules
      → new notify path (rules ∷ [], true) ≡ o
      → Starts (elim o [ none ↦ panics | some w ↦ running w ])
  made-Starts rules none e f = inr (new-none notify path (rules ∷ [], true) f)
  made-Starts rules (some w) e f = record {
    rules = rules;
    of_file = e;
    sent =
        ap (λ (v : Inner (Rules Regex lib)). v.sent) (new-watcher notify path (rules ∷ [], true) f);
    unseen = λ changes h. file_changes-unseen notify lib read path (rules ∷ [], true) w changes f h;
  }

  parsed-Starts :
      (p : Parsed (Rules Regex lib))
      → parse_config lib read path ≡ p
      → Starts (elim p [
        | parsed rules ↦ watching notify lib read path rules
        | error ↦ failed
        | panicked ↦ panics
      ])
  unfolding watching
  parsed-Starts (parsed rules) e = made-Starts rules (new notify path (rules ∷ [], true)) e refl
  parsed-Starts error e = e
  parsed-Starts panicked e = inl e

  -- Once `main` has started, the rules of the configuration file are the one configuration sent to the
  -- event loop, and until that file itself changes they stay so: however many other files change, the
  -- keys and certificates of the upstreams included, nothing is sent and nothing more is watched. It
  -- returns an error only where the file does not parse, and panics only where the parse does or the
  -- file cannot be watched.
  pub start-Starts : Starts (start notify lib read path)
  unfolding start
  start-Starts = parsed-Starts (parse_config lib read path) refl

  -- What a started `main` has sent, and that the event loop is there.
  pub record Began (w : Inner (Rules Regex lib)) : Type 0 where
    pub rules : Rules Regex lib
    pub of_file : parse_config lib read path ≡ parsed rules
    pub sent : w.sent ≡ [] ++ rules ∷ []
    pub receiver : w.receiver ≡ true

  abbrev IsRunning : Started (Rules Regex lib) → Inner (Rules Regex lib) → Type 0
  IsRunning q w = q ≡ running w

  made-Began :
      (rules : Rules Regex lib) (o : Option (Inner (Rules Regex lib))) (w : Inner (Rules Regex lib))
      → parse_config lib read path ≡ parsed rules
      → new notify path (rules ∷ [], true) ≡ o
      → IsRunning (elim o [ none ↦ panics | some v ↦ running v ]) w
      → Began w
  made-Began rules none w e f g = absurd (cc)
  made-Began rules (some v) w e f g =
      let same : v ≡ w = ground arith in
      let made = new-watcher notify path (rules ∷ [], true) f in
      record {
        rules = rules;
        of_file = e;
        sent = ap (λ (x : Inner (Rules Regex lib)). x.sent) (sym same ∙ made);
        receiver = ap (λ (x : Inner (Rules Regex lib)). x.receiver) (sym same ∙ made);
      }

  parsed-Began :
      (p : Parsed (Rules Regex lib)) (w : Inner (Rules Regex lib))
      → parse_config lib read path ≡ p
      → IsRunning
          (elim p [
            | parsed rules ↦ watching notify lib read path rules
            | error ↦ failed
            | panicked ↦ panics
          ])
          w
      → Began w
  unfolding watching
  parsed-Began (parsed rules) w e g =
      made-Began rules (new notify path (rules ∷ [], true)) w e refl g
  parsed-Began error w e g = absurd (cc)
  parsed-Began panicked w e g = absurd (cc)

  pub start-Began : (w : Inner (Rules Regex lib)) → start notify lib read path ≡ running w → Began w
  unfolding start
  start-Began w e = parsed-Began (parse_config lib read path) w refl e
