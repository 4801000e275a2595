-- ===== src/Config/Watch/Laws.antt =====
-- What `handle_event` (turbine/src/config/mod.rs) sends and watches.
use proxy_printer.Base.{
  ◌≡◌, refl, subst, ◌⊎◌, inl, inr, ◌≢◌, true, List, [], ◌∷◌, ◌++◌, Option, some, none, arith, All,
  if◌then◌else◌, Bool-cases, Option-cases, bytes_eq, eq_of_bytes_eq,
}
use proxy_printer.Tls.{Library, FilePath}
use proxy_printer.Net.{SocketAddr}
use proxy_printer.Config.{Config, Upstream, Rule, iter}
use proxy_printer.Config.Parse.{Parsed, parsed, error, panicked, parse_config, Rules}
use proxy_printer.Config.Watch.{
  EventKind, create, modify, reloads, Inner, Outcome, done, files_of, files_to_watch_for_reload,
  all_files, has, to_set, Notify, watch_all, watch_config, install, rewatch, reload, handle_event,
}

-- The path is in the list.
abbrev pub Has : FilePath → List FilePath → Type 0
Has p [] = ⊥
Has p (q ∷ qs) = (q ≡ p) ⊎ Has p qs

Has-has : (p : FilePath) (ps : List FilePath) → has p ps ≡ true → Has p ps
unfolding has
Has-has p [] h = cc
Has-has p (q ∷ qs) h = elim (Bool-cases (bytes_eq q p)) [
  | inl e ↦ inl (eq_of_bytes_eq q p e)
  | inr e ↦ inr (Has-has p qs (ground arith))
]

Has-to_set : (p : FilePath) (ps : List FilePath) → Has p ps → Has p (to_set ps)
unfolding to_set
Has-to_set p [] h = absurd h
Has-to_set p (q ∷ qs) (inl e) = elim (Bool-cases (has q (to_set qs))) [
  | inl there ↦ rw (there, to_set) (rw (← e) (Has-has q (to_set qs) there))
  | inr new ↦ rw (new, to_set) (inl e)
]
Has-to_set p (q ∷ qs) (inr h) = elim (Bool-cases (has q (to_set qs))) [
  | inl there ↦ rw (there, to_set) (Has-to_set p qs h)
  | inr new ↦ rw (new, to_set) (inr (Has-to_set p qs h))
]

Has-append : (p : FilePath) (ps qs : List FilePath) → Has p ps ⊎ Has p qs → Has p (ps ++ qs)
Has-append p [] qs (inl h) = absurd h
Has-append p [] qs (inr h) = h
Has-append p (x ∷ ps) qs (inl (inl e)) = inl e
Has-append p (x ∷ ps) qs (inl (inr h)) = inr (Has-append p ps qs (inl h))
Has-append p (x ∷ ps) qs (inr h) = inr (Has-append p ps qs (inr h))

Has-watch_all :
    (notify : Notify) (p : FilePath) (ps watched all : List FilePath)
    → watch_all notify watched ps ≡ some all
    → Has p watched ⊎ Has p ps
    → Has p all
unfolding watch_all
Has-watch_all notify p [] watched all e (inl h) =
    let s : watched ≡ all = ground arith in subst (Has p) s h
Has-watch_all notify p [] watched all e (inr h) = absurd h
Has-watch_all notify p (q ∷ qs) watched all e h =
    Has-watch_all notify p qs (watched ++ q ∷ []) all (ground arith) (elim h [
      | inl old ↦ inl (Has-append p watched (q ∷ []) (inl old))
      | inr (inl new) ↦ inl (Has-append p watched (q ∷ []) (inr (inl new)))
      | inr (inr later) ↦ inr later
    ])

-- The private key and the certificate of the upstream are in the list, if it has TLS.
abbrev pub Watches : {Regex A : Type 0} → List FilePath → Upstream Regex A → Type 0
Watches all u = elim u.cfg.tls [
  | none ↦ Unit
  | some c ↦ Has c.private_key all × Has c.certificate all
]

Watches-files_of :
    {Regex A : Type 0} (us : List (Upstream Regex A)) (all : List FilePath)
    → ((p : FilePath) → Has p (files_of us) → Has p all)
    → All (Watches all) us
unfolding files_of
Watches-files_of [] all h = tt
Watches-files_of (u ∷ us) all h = elim (Option-cases u.cfg.tls) [
  | inl e ↦
      let same : files_of (u ∷ us) ≡ files_of us = rw (e, files_of) refl in
      (rw e tt, Watches-files_of us all (λ p i. h p (rw same i)))
  | inr (c, e) ↦
      let same : files_of (u ∷ us) ≡ c.private_key ∷ c.certificate ∷ files_of us =
        rw (e, files_of) refl in
      let known : (p : FilePath) → Has p (c.private_key ∷ c.certificate ∷ files_of us) → Has p all =
        λ p i. h p (rw same i) in
      (
        rw e (known c.private_key (inl refl), known c.certificate (inr (inl refl))),
        Watches-files_of us all (λ p i. known p (inr (inr i))),
      )
]

Watches-all_files :
    {Regex A : Type 0} (t : List (SocketAddr × Rule Regex A)) (all : List FilePath)
    → ((p : FilePath) → Has p (all_files t) → Has p all)
    → All (λ e. All (Watches all) (iter e.1.upstreams)) t
unfolding all_files files_to_watch_for_reload
Watches-all_files [] all h = tt
Watches-all_files ((a, r) ∷ t) all h = (
  Watches-files_of (iter r.upstreams) all
      (λ p i. h p (Has-append p (files_of (iter r.upstreams)) (all_files t) (inl i))),
  Watches-all_files t all
      (λ p i. h p (Has-append p (files_of (iter r.upstreams)) (all_files t) (inr i))),
)

watch_all-some :
    (notify : Notify) (ps watched : List FilePath)
    → ((p : FilePath) → notify.can_watch p ≡ true)
    → (all : List FilePath) × (watch_all notify watched ps ≡ some all)
unfolding watch_all
watch_all-some notify [] watched ok = (watched, refl)
watch_all-some notify (p ∷ ps) watched ok =
    let (all, e) = watch_all-some notify ps (watched ++ p ∷ []) ok in (all, rw (ok p) e)

module _ (notify : Notify) {Regex : Type 0} (lib : Library)
    (read : FilePath → Option (Config Regex)) (w : Inner (Rules Regex lib)) (path : FilePath) where
  abbrev after : Option EventKind → Outcome × Inner (Rules Regex lib)
  after event = handle_event notify lib read w path event

  -- Whenever the handling of an event does not end well (the parse fails or panics, no watcher can
  -- be made, or a file of the new configuration cannot be watched), nothing is sent and the old
  -- watcher stays.
  handle_event-unchanged : (event : Option EventKind) → (after event).0 ≢ done → (after event).1 ≡ w
  unfolding handle_event reload rewatch
  handle_event-unchanged none h = refl
  handle_event-unchanged (some kind) h = ground arith

  -- An event either changes nothing, or sends the configuration that was parsed.
  pub record Sends (v : Inner (Rules Regex lib)) : Type 0 where
    pub config : Rules Regex lib
    pub of_file : parse_config lib read path ≡ parsed config
    pub same_receiver : v.receiver ≡ w.receiver
    pub delivery : v.sent ≡ (if w.receiver then w.sent ++ config ∷ [] else w.sent)

  install-Sends :
      (t : Rules Regex lib) (watched : List FilePath)
      → parse_config lib read path ≡ parsed t
      → Sends (install notify lib read w t watched)
  unfolding install
  install-Sends t watched e = record {
    config = t;
    of_file = e;
    same_receiver = refl;
    delivery = refl;
  }

  rewatch-Sends :
      (t : Rules Regex lib)
      → parse_config lib read path ≡ parsed t
      → ((rewatch notify lib read w path t).1 ≡ w) ⊎ Sends (rewatch notify lib read w path t).1
  unfolding rewatch
  rewatch-Sends t e = elim (Bool-cases notify.can_create) [
    | inr cannot ↦ inl (ground arith)
    | inl can ↦
        elim (Option-cases (watch_all notify (watch_config notify path) (to_set (all_files t)))) [
          | inl f ↦ inl (ground arith)
          | inr (all, f) ↦
              let installed : (rewatch notify lib read w path t).1
                  ≡ install notify lib read w t all =
                ground arith in
              inr (rw installed (install-Sends t all e))
        ]
  ]

  reload-Sends :
      (p : Parsed (Rules Regex lib))
      → parse_config lib read path ≡ p
      → ((reload notify lib read w path).1 ≡ w) ⊎ Sends (reload notify lib read w path).1
  unfolding reload
  reload-Sends (parsed t) e = rw (e, reload) (rewatch-Sends t e)
  reload-Sends error e = inl (ground arith)
  reload-Sends panicked e = inl (ground arith)

  pub handle_event-Sends :
      (event : Option EventKind) → ((after event).1 ≡ w) ⊎ Sends (after event).1
  unfolding handle_event
  handle_event-Sends none = inl refl
  handle_event-Sends (some kind) = elim (Bool-cases (reloads kind)) [
    | inl on ↦ rw (on, handle_event) (reload-Sends (parse_config lib read path) refl)
    | inr off ↦ inl (ground arith)
  ]

  reloads-either : (kind : EventKind) → (kind ≡ create) ⊎ (kind ≡ modify) → reloads kind ≡ true
  unfolding reloads
  reloads-either kind (inl e) = rw e refl
  reloads-either kind (inr e) = rw e refl

  pub record Reloaded (t : Rules Regex lib) (r : Outcome × Inner (Rules Regex lib)) : Type 0 where
    pub ended : r.0 ≡ done
    pub delivered : r.1.sent ≡ (if w.receiver then w.sent ++ t ∷ [] else w.sent)
    pub config_watched : Has path r.1.watcher
    pub files_watched : All (λ e. All (Watches r.1.watcher) (iter e.1.upstreams)) t

  rewatch-Reloaded :
      (t : Rules Regex lib) (all : List FilePath)
      → notify.can_create ≡ true
      → notify.can_watch path ≡ true
      → watch_all notify (watch_config notify path) (to_set (all_files t)) ≡ some all
      → Reloaded t (rewatch notify lib read w path t)
  rewatch-Reloaded t all can watch e =
      let start : watch_config notify path ≡ path ∷ [] = unfold watch_config in ground arith in
      let result : rewatch notify lib read w path t ≡ (done, install notify lib read w t all) =
        unfold rewatch in ground arith in
      let known =
        λ (p : FilePath) (h : Has p (watch_config notify path) ⊎ Has p (to_set (all_files t))).
          Has-watch_all notify p (to_set (all_files t)) (watch_config notify path) all e h in
      rw result (
        unfold install in
        record {
          ended = refl;
          delivered = refl;
          config_watched = known path (inl (rw start (inl refl)));
          files_watched =
              Watches-all_files t all (λ p h. known p (inr (Has-to_set p (all_files t) h)));
        })

  -- Where the notify crate can make watchers and watch paths, the event that a file was created or
  -- modified, with a configuration that parses, ends well: the new configuration is sent after those
  -- before, if there is a receiver, and the new watcher has the configuration file and, for each
  -- upstream with TLS of each rule of the new configuration, the private key and the certificate.
  pub handle_event-Reloaded :
      (kind : EventKind) (t : Rules Regex lib)
      → (kind ≡ create) ⊎ (kind ≡ modify)
      → parse_config lib read path ≡ parsed t
      → notify.can_create ≡ true
      → ((p : FilePath) → notify.can_watch p ≡ true)
      → Reloaded t (after (some kind))
  unfolding handle_event reload
  handle_event-Reloaded kind t either e can ok =
      let (all, f) = watch_all-some notify (to_set (all_files t)) (watch_config notify path) ok in
      let k = reloads-either kind either in
      rw (k, e, reload) (rewatch-Reloaded t all can (ok path) f)
