-- ===== src/Config/Watch/Start.antt =====
-- What is watched from the start on (`ConfigWatcher::new` of turbine/src/config/mod.rs).
use proxy_printer.Base.{
  ◌≡◌, refl, false, List, [], ◌∷◌, Option, some, none, All, Bool, Bool-cases, ◌⊎◌, inl, inr,
  bytes_eq, eq_of_bytes_eq, ◌≢◌, sym, ap, arith,
}
use proxy_printer.Tls.{Library, FilePath}
use proxy_printer.Config.{Config}
use proxy_printer.Config.Parse.{Rules}
use proxy_printer.Config.Watch.{EventKind, Inner, done, has, Notify, new, file_change, file_changes}

-- The watcher at the start has the configuration file alone.
pub new-watcher :
    (notify : Notify) {Sent : Type 0} (path : FilePath) (tx : List Sent × Bool) {w : Inner Sent}
    → new notify path tx ≡ some w
    → w ≡ record { watcher = path ∷ []; sent = tx.0; receiver = tx.1 }
unfolding new
new-watcher notify path tx e = ground arith

pub new-none :
    (notify : Notify) {Sent : Type 0} (path : FilePath) (tx : List Sent × Bool)
    → new notify path tx ≡ none
    → (notify.can_create ≡ false) ⊎ (notify.can_watch path ≡ false)
unfolding new
new-none notify path tx e = ground arith

has-other : (p q : FilePath) → q ≢ p → has q (p ∷ []) ≡ false
unfolding has
has-other p q h = elim (Bool-cases (bytes_eq p q)) [
  | inl e ↦ absurd (h (sym (eq_of_bytes_eq p q e)))
  | inr e ↦ rw e refl
]

module _ (notify : Notify) {Regex : Type 0} (lib : Library)
    (read : FilePath → Option (Config Regex)) (path : FilePath) where
  file_change-other :
      (w : Inner (Rules Regex lib)) (c : FilePath × EventKind)
      → w.watcher ≡ path ∷ []
      → c.0 ≢ path
      → file_change notify lib read w path c ≡ (done, w)
  unfolding file_change
  file_change-other w (file, kind) e h =
      let other : has file w.watcher ≡ false = rw e (has-other path file h) in rw other refl

  unseen :
      (w : Inner (Rules Regex lib)) (changes : List (FilePath × EventKind))
      → w.watcher ≡ path ∷ []
      → All (λ c. c.0 ≢ path) changes
      → file_changes notify lib read w path changes ≡ (done, w)
  unfolding file_changes
  unseen w [] e h = refl
  unseen w ((file, kind) ∷ rest) e (h, hs) =
      let same = file_change-other w (file, kind) e h in
      rw (ap (λ q. q.0) same, file_changes) (rw (ap (λ q. q.1) same) (unseen w rest e hs))

  -- From the start on, until the configuration file itself changes, no change of any other file is
  -- seen, the keys and certificates of its upstreams included: however many there are, no
  -- configuration is sent and the watcher stays as it is.
  pub file_changes-unseen :
      (config_tx : List (Rules Regex lib) × Bool) (w : Inner (Rules Regex lib))
      (changes : List (FilePath × EventKind))
      → new notify path config_tx ≡ some w
      → All (λ c. c.0 ≢ path) changes
      → file_changes notify lib read w path changes ≡ (done, w)
  file_changes-unseen config_tx w changes e h =
      let made = new-watcher notify path config_tx e in unseen w changes (rw made refl) h
