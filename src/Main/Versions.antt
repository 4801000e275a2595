-- ===== src/Main/Versions.antt =====
-- From the configuration file to the listeners: `main` (turbine/src/main.rs), `parse_config` and
-- `handle_event` (turbine/src/config/mod.rs), and the event loop (turbine/src/event_loop.rs) at the other
-- end of the channel of configurations.
use proxy_printer.Base.{
  ◌≡◌, refl, ap, ◌∙◌, ◌⊎◌, inl, inr, true, List, [], ◌∷◌, ◌++◌, Option, some, none, arith,
  Option-cases,
}
use proxy_printer.Net.{SocketAddr}
use proxy_printer.Tls.{Library, FilePath}
use proxy_printer.Config.{Config}
use proxy_printer.Config.Parse.{parsed, parse_config, Rules}
use proxy_printer.Config.Parse.Laws.{last_rule, parse_config-rules}
use proxy_printer.Config.Watch.{
  EventKind, create, modify, Inner, Outcome, done, failed, panics, Notify, handle_event,
}
use proxy_printer.Config.Watch.Laws.{handle_event-Sends, handle_event-Reloaded}
use proxy_printer.EventLoop.{start, listen_config_change}
use proxy_printer.EventLoop.Reload.{config_of}
use proxy_printer.EventLoop.Received.{received, AreDistinct, AreDistinct-snoc, config_of-received}
use proxy_printer.Main
use proxy_printer.Main.{Started, running, watching}
use proxy_printer.Main.Start.{start-Began}

-- An event of the watcher, with the configuration files, the keys and the certificates as they are
-- then, and what the notify crate can do then.
pub record Edit (Regex File : Type 0) : Type 0 where
  pub read : FilePath → Option (Config Regex)
  pub files : FilePath → Option File
  pub notify : Notify
  pub event : Option EventKind

-- What there was at one moment: the content of the configuration file, and the other files.
pub record Version (Regex File : Type 0) : Type 0 where
  pub content : Config Regex
  pub files : FilePath → Option File

-- The library at a moment with such files.
abbrev pub at_moment : (lib : Library) → (FilePath → Option lib.File) → Library
at_moment lib files = record lib { open_file = files }

module _ {Regex : Type 0} (lib : Library) (path : FilePath) where
  -- One after another: an error is logged, and a panic ends the thread of the watcher.
  abbrev pub edited : Inner (Rules Regex lib) → List (Edit Regex lib.File) → Inner (Rules Regex lib)
  edited w [] = w
  edited w (e ∷ es) =
      let q = handle_event e.notify (at_moment lib e.files) e.read w path e.event in
      let later = edited q.1 es in elim q.0 [ done ↦ later | failed ↦ later | panics ↦ q.1 ]

  -- The event loop is there, and serves each address by the rule that the version has for it.
  pub record IsInForce (v : Version Regex lib.File) (w : Inner (Rules Regex lib)) : Type 0 where
    pub receiver : w.receiver ≡ true
    pub maps : AreDistinct w.sent
    pub served :
        (k : SocketAddr)
        → config_of (listen_config_change start (received w.sent)) k
          ≡ last_rule (at_moment lib v.files) k v.content.rules none

  sent-IsInForce :
      (read : FilePath → Option (Config Regex)) (v : Version Regex lib.File) (t : Rules Regex lib)
      (w : Inner (Rules Regex lib)) (before : List (Rules Regex lib))
      → read path ≡ some v.content
      → parse_config (at_moment lib v.files) read path ≡ parsed t
      → AreDistinct before
      → w.receiver ≡ true
      → w.sent ≡ before ++ t ∷ []
      → IsInForce v w
  sent-IsInForce read v t w before e p ds on sent =
      let (rules, d) = parse_config-rules (at_moment lib v.files) read path v.content t e p in
      let all = AreDistinct-snoc before t ds d in
      record {
        receiver = on;
        maps = rw sent all;
        served = λ k. rw sent (config_of-received before t k all) ∙ rules k;
      }

  parsed-content :
      (files : FilePath → Option lib.File) (read : FilePath → Option (Config Regex))
      (t : Rules Regex lib)
      → parse_config (at_moment lib files) read path ≡ parsed t
      → (c : Config Regex) × (read path ≡ some c)
  unfolding parse_config
  parsed-content files read t e = elim (Option-cases (read path)) [
    | inl none_there ↦ absurd (ground arith)
    | inr there ↦ there
  ]

  -- What there was when the configuration file was read.
  abbrev pub WasRead :
      (FilePath → Option (Config Regex))
      → (FilePath → Option lib.File)
      → Version Regex lib.File
      → Type 0
  WasRead read files v = (read path ≡ some v.content) × (files ≡ v.files)

  -- The version is of the moment of one of the events.
  abbrev pub IsVersion : Version Regex lib.File → List (Edit Regex lib.File) → Type 0
  IsVersion v [] = ⊥
  IsVersion v (e ∷ es) = WasRead e.read e.files v ⊎ IsVersion v es

  -- A version is in force: an earlier one, or one of those that the events met.
  pub record Serving (P : Version Regex lib.File → Type 0) (es : List (Edit Regex lib.File))
      (w : Inner (Rules Regex lib)) : Type 0 where
    pub version : Version Regex lib.File
    pub known : P version ⊎ IsVersion version es
    pub in_force : IsInForce version w

  -- A single event leaves the version in force, or puts that of its own moment there.
  handle_event-Serving :
      (v : Version Regex lib.File) (w : Inner (Rules Regex lib)) (e : Edit Regex lib.File)
      → IsInForce v w
      → IsInForce v (handle_event e.notify (at_moment lib e.files) e.read w path e.event).1
        ⊎ ((v' : Version Regex lib.File) × WasRead e.read e.files v'
            × IsInForce v' (handle_event e.notify (at_moment lib e.files) e.read w path e.event).1)
  handle_event-Serving v w e f =
      elim (handle_event-Sends e.notify (at_moment lib e.files) e.read w path e.event) [
        | inl same ↦ inl (rw same f)
        | inr sends ↦
            let (c, there) = parsed-content e.files e.read sends.config sends.of_file in
            let v' : Version Regex lib.File = record { content = c; files = e.files } in
            inr (
              v',
              (there, refl),
              sent-IsInForce e.read v' sends.config _ w.sent there sends.of_file f.maps
                  (sends.same_receiver ∙ f.receiver) (ground (arith, sends.delivery, f.receiver)),
            )
      ]

  Serving-kept :
      (P : Version Regex lib.File → Type 0) (e : Edit Regex lib.File)
      (es : List (Edit Regex lib.File)) (w : Inner (Rules Regex lib))
      → Serving P es w
      → Serving P (e ∷ es) w
  Serving-kept P e es w s = record {
    version = s.version;
    known = elim s.known [ inl old ↦ inl old | inr met ↦ inr (inr met) ];
    in_force = s.in_force;
  }

  Serving-taken :
      (P : Version Regex lib.File → Type 0) (e : Edit Regex lib.File)
      (es : List (Edit Regex lib.File)) (w : Inner (Rules Regex lib))
      → Serving (WasRead e.read e.files) es w
      → Serving P (e ∷ es) w
  Serving-taken P e es w s = record {
    version = s.version;
    known = elim s.known [ inl now ↦ inr (inl now) | inr met ↦ inr (inr met) ];
    in_force = s.in_force;
  }

  goes_on-Serving :
      (P : Version Regex lib.File → Type 0) (es : List (Edit Regex lib.File)) (o : Outcome)
      (w later : Inner (Rules Regex lib))
      → Serving P es w
      → Serving P es later
      → Serving P es (elim o [ done ↦ later | failed ↦ later | panics ↦ w ])
  goes_on-Serving P es done w later now onward = onward
  goes_on-Serving P es failed w later now onward = onward
  goes_on-Serving P es panics w later now onward = now

  edited-Serving :
      (P : Version Regex lib.File → Type 0) (v : Version Regex lib.File)
      (w : Inner (Rules Regex lib)) (es : List (Edit Regex lib.File))
      → P v
      → IsInForce v w
      → Serving P es (edited w es)
  edited-Serving P v w [] p f = record { version = v; known = inl p; in_force = f }
  edited-Serving P v w (e ∷ es) p f =
      let q = handle_event e.notify (at_moment lib e.files) e.read w path e.event in
      goes_on-Serving P (e ∷ es) q.0 q.1 (edited q.1 es)
        (elim (handle_event-Serving v w e f) [
          | inl same ↦ record { version = v; known = inl p; in_force = same }
          | inr (v', there, new) ↦ record { version = v'; known = inr (inl there); in_force = new }
        ])
        (elim (handle_event-Serving v w e f) [
          | inl same ↦ Serving-kept P e es _ (edited-Serving P v q.1 es p same)
          | inr (v', there, new) ↦
              Serving-taken P e es _ (edited-Serving (WasRead e.read e.files) v' q.1 es there new)
        ])

  pub start-IsInForce :
      (notify : Notify) (read : FilePath → Option (Config Regex)) (w : Inner (Rules Regex lib))
      → Main.start notify lib read path ≡ running w
      → (v : Version Regex lib.File) × WasRead read lib.open_file v × IsInForce v w
  start-IsInForce notify read w e =
      let began = start-Began notify lib read path w e in
      let (c, there) = parsed-content lib.open_file read began.rules began.of_file in
      let v : Version Regex lib.File = record { content = c; files = lib.open_file } in
      (
        v,
        (there, refl),
        sent-IsInForce read v began.rules w [] there began.of_file tt began.receiver began.sent,
      )

  -- From the start of `main` on, and over any events, each with whatever configuration, key and
  -- certificate files there are at its time: once the event loop has taken the configurations sent so
  -- far, it serves each address by the rule that one and the same version has for it. A version is the
  -- content of the configuration file with the keys and certificates of the same moment, that of the
  -- start or of one of the events.
  pub start-Serving :
      (notify : Notify) (read : FilePath → Option (Config Regex)) (w : Inner (Rules Regex lib))
      (es : List (Edit Regex lib.File))
      → Main.start notify lib read path ≡ running w
      → Serving (WasRead read lib.open_file) es (edited w es)
  start-Serving notify read w es e =
      let (v, there, f) = start-IsInForce notify read w e in
      edited-Serving (WasRead read lib.open_file) v w es there f

  -- Where some version was in force, whatever the files were then, and the notify crate can make
  -- watchers and watch paths: the event that a file was created or modified takes the new version, if
  -- its configuration parses with the keys and certificates of now. Once the event loop has taken the
  -- configuration that this sends, it serves each address by the rule of the last entry of that file
  -- that lists it, and no other address.
  pub handle_event-IsInForce :
      (notify : Notify) (read : FilePath → Option (Config Regex)) (old v : Version Regex lib.File)
      (t : Rules Regex lib) (kind : EventKind) (w : Inner (Rules Regex lib))
      → IsInForce old w
      → (kind ≡ create) ⊎ (kind ≡ modify)
      → read path ≡ some v.content
      → parse_config (at_moment lib v.files) read path ≡ parsed t
      → notify.can_create ≡ true
      → ((p : FilePath) → notify.can_watch p ≡ true)
      → IsInForce v (handle_event notify (at_moment lib v.files) read w path (some kind)).1
  handle_event-IsInForce notify read old v t kind w f k there p can ok =
      let lib' = at_moment lib v.files in
      let h = handle_event-Reloaded notify lib' read w path kind t k p can ok in
      let later = (handle_event notify lib' read w path (some kind)).1 in
      let on : later.receiver ≡ true =
        elim (handle_event-Sends notify lib' read w path (some kind)) [
          | inl same ↦ ap (λ (x : Inner (Rules Regex lib)). x.receiver) same ∙ f.receiver
          | inr sends ↦ sends.same_receiver ∙ f.receiver
        ] in
      sent-IsInForce read v t later w.sent there p f.maps on
        (ground (arith, h.delivered, f.receiver))
