-- ===== src/Config/Watch.antt =====
-- turbine/src/config/mod.rs, `ConfigWatcher::handle_event`, and `Rule::files_to_watch_for_reload`
-- (turbine/src/main.rs): a change of a watched file reloads the configuration. Whether a watcher can
-- be made, and a path watched, is up to the notify crate: both are parameters.
pub mod Laws
pub mod Start
mod Tests
use proxy_printer.Base.{
  ℕ, Bool, true, false, List, [], ◌∷◌, ◌++◌, Option, some, none, if◌then◌else◌, bytes_eq,
}
use proxy_printer.Net.{SocketAddr}
use proxy_printer.Tls.{Library, Acceptor, FilePath}
use proxy_printer.Config.{iter, TlsConfig, Config, Upstream, Rule}
use proxy_printer.Config.Parse.{Parsed, parsed, error, panicked, parse_config, Rules}

-- `notify::EventKind`.
pub data EventKind : Type 0 where
  any access create modify remove other : EventKind

-- The kinds that lead to a reload.
unfoldable pub reloads : EventKind → Bool
reloads create = true
reloads modify = true
reloads access = false
reloads remove = false
reloads any = false
reloads other = false

-- `ConfigWatcherInner`: the paths of the installed watcher, and the configurations sent. The channel
-- takes them while its receiver is there.
pub record Inner (Sent : Type 0) : Type 0 where
  pub watcher : List FilePath
  pub sent : List Sent
  pub receiver : Bool

pub data Outcome : Type 0 where
  done failed panics : Outcome

-- The private key and the certificate of each upstream with TLS.
module _ {Regex A : Type 0} where
  pub files_of : List (Upstream Regex A) → List FilePath
  files_of [] = []
  files_of (u ∷ us) =
      let rest = files_of us in
      elim u.cfg.tls [ none ↦ rest | some t ↦ t.private_key ∷ t.certificate ∷ rest ]

  unfoldable pub files_to_watch_for_reload : Rule Regex A → List FilePath
  unfolding files_of
  files_to_watch_for_reload r = files_of (iter r.upstreams)

  -- Those of all rules, one after another.
  pub all_files : List (SocketAddr × Rule Regex A) → List FilePath
  all_files [] = []
  all_files ((a, r) ∷ rest) = files_to_watch_for_reload r ++ all_files rest

-- Into the `BTreeSet`: each path once. The order of the set decides only which failing path is met
-- first.
has : FilePath → List FilePath → Bool
has p [] = false
has p (q ∷ qs) = if bytes_eq q p then true else has p qs

pub to_set : List FilePath → List FilePath
unfolding has
to_set [] = []
to_set (p ∷ ps) = let rest = to_set ps in if has p rest then rest else p ∷ rest

-- What the notify crate answers.
pub record Notify : Type 0 where
  pub can_create : Bool
  pub can_watch : FilePath → Bool

module _ (notify : Notify) where
  -- `watcher.watch(path, ..)?` for each path.
  pub watch_all : List FilePath → List FilePath → Option (List FilePath)
  watch_all watched [] = some watched
  watch_all watched (p ∷ ps) =
      let rest = watch_all (watched ++ p ∷ []) ps in if notify.can_watch p then rest else none

  -- The configuration file itself: a failure to watch it is passed over.
  pub watch_config : FilePath → List FilePath
  watch_config path = if notify.can_watch path then path ∷ [] else []

  -- `ConfigWatcher::new`, with the sender of the configurations, what was sent before, and whether the
  -- receiver is there. A first watcher, of nothing, holds the place of the one that is made last.
  unfoldable pub new : {Sent : Type 0} → FilePath → List Sent × Bool → Option (Inner Sent)
  new {Sent} config_path config_tx =
      let inner : Inner Sent = record {
        watcher = [];
        sent = config_tx.0;
        receiver = config_tx.1;
      } in
      if notify.can_create
      then if notify.can_create
        then if notify.can_watch config_path
          then some (record inner { watcher = config_path ∷ [] })
          else none
        else none
      else none

  module _ {Regex : Type 0} (lib : Library) (read : FilePath → Option (Config Regex)) where
    -- The lock: `blocking_send(config)`, then the new watcher replaces the old one.
    pub install :
        Inner (Rules Regex lib) → Rules Regex lib → List FilePath → Inner (Rules Regex lib)
    install w config watched = record w {
      sent = if w.receiver then w.sent ++ config ∷ [] else w.sent;
      watcher = watched;
    }

    -- Behind the parse: the new watcher with its paths.
    pub rewatch :
        Inner (Rules Regex lib) → FilePath → Rules Regex lib → Outcome × Inner (Rules Regex lib)
    unfolding install
    rewatch w path config =
        if notify.can_create
        then elim (watch_all (watch_config path) (to_set (all_files config))) [
          | none ↦ (failed, w)
          | some watched ↦ (done, install w config watched)
        ]
        else (failed, w)

    reload : Inner (Rules Regex lib) → FilePath → Outcome × Inner (Rules Regex lib)
    unfolding rewatch
    reload w path = elim (parse_config lib read path) [
      | parsed config ↦ rewatch w path config
      | error ↦ (failed, w)
      | panicked ↦ (panics, w)
    ]

    -- An event that is an error (none) is passed over, as are those that do not reload.
    pub handle_event :
        Inner (Rules Regex lib) → FilePath → Option EventKind → Outcome × Inner (Rules Regex lib)
    unfolding reload reloads
    handle_event w path none = (done, w)
    handle_event w path (some kind) = if reloads kind then reload w path else (done, w)

    -- A change of a file: the installed watcher reports it if it watches the file.
    pub file_change :
        Inner (Rules Regex lib)
        → FilePath
        → FilePath × EventKind
        → Outcome × Inner (Rules Regex lib)
    file_change w path (file, kind) =
        if has file w.watcher then handle_event w path (some kind) else (done, w)

    -- One after another: an error is logged, and a panic ends the thread of the watcher.
    pub file_changes :
        Inner (Rules Regex lib)
        → FilePath
        → List (FilePath × EventKind)
        → Outcome × Inner (Rules Regex lib)
    file_changes w path [] = (done, w)
    file_changes w path (c ∷ rest) =
        let q = file_change w path c in
        let later = file_changes q.1 path rest in
        elim q.0 [ done ↦ later | failed ↦ later | panics ↦ q ]
