-- ===== src/EventLoop/Reload.antt =====
-- What a configuration does to the listeners (turbine/src/event_loop.rs): afterwards they are the
-- configuration, and the listeners that it keeps are the same ones.
use proxy_printer.Base.{
  ℕ, ◌≡◌, refl, ap, ◌∙◌, inl, inr, true, List, [], ◌∷◌, Option, some, none, arith, if◌then◌else◌,
  Bool-cases, Option-cases,
}
use mathlib.Core.Path.{fun_ext}
use proxy_printer.Net.{SocketAddr, addr_eq, addr_eq_iff}
use proxy_printer.EventLoop.Store.{lookup, contains_key, contains_key-none, distinct, In-lookup}
use proxy_printer.EventLoop.{
  Listening, Update, Signal, shutdown, config_change, config_closed, start, retained, retain, spawn,
  send_replace, configure, configure_all, reload, stop, listen_config_change,
}
use proxy_printer.EventLoop.Invariant.{
  IsConsistent, start-IsConsistent, retain-IsConsistent, configure-IsConsistent,
  reload-IsConsistent, drop_others-value,
}

module _ {Rule : Type 0} where
  -- The rule that an address is served by.
  unfoldable pub config_of : Listening Rule → SocketAddr → Option Rule
  config_of s k = elim (lookup k s.listeners) [ none ↦ none | some i ↦ (s.channels i).value ]

  pub lookup-retained :
      (u : Update Rule) (k : SocketAddr) (ls : List (SocketAddr × ℕ))
      → lookup k (retained u ls) ≡ (if contains_key k u then lookup k ls else none)
  unfolding retained lookup
  lookup-retained u k [] = ground arith
  lookup-retained u k ((j, n) ∷ ls) = elim (Bool-cases (addr_eq j k)) [
    | inl e ↦
        let p : j ≡ k = (addr_eq_iff j k).0 e in
        rw (← p) (ground (arith, lookup-retained u j ls, (addr_eq_iff j j).1 refl))
    | inr e ↦ ground (arith, lookup-retained u k ls)
  ]

  config_of-retain :
      (u : Update Rule) (s : Listening Rule) (k : SocketAddr)
      → config_of (retain u s) k ≡ (if contains_key k u then config_of s k else none)
  unfolding config_of retain
  config_of-retain u s k = elim (Option-cases (lookup k s.listeners)) [
    | inl e ↦ ground (arith, lookup-retained u k s.listeners)
    | inr (i, e) ↦
        ground
          (arith, lookup-retained u k s.listeners, drop_others-value u s.listeners s.channels i)
  ]

  config_of-spawn :
      (s : Listening Rule) (c : IsConsistent s) (addr : SocketAddr) (config : Rule) (k : SocketAddr)
      → config_of (spawn s addr config) k ≡ (if addr_eq addr k then some config else config_of s k)
  unfolding config_of spawn lookup
  config_of-spawn s c addr config k = elim (Option-cases (lookup k s.listeners)) [
    | inl e ↦ ground arith
    | inr (i, e) ↦ ground (arith, c.below k i (In-lookup k i s.listeners e))
  ]

  config_of-send_replace :
      (s : Listening Rule) (c : IsConsistent s) (addr : SocketAddr) (config : Rule) (i : ℕ)
      (k : SocketAddr)
      → lookup addr s.listeners ≡ some i
      → config_of (send_replace s i config) k
        ≡ (if addr_eq addr k then some config else config_of s k)
  unfolding config_of send_replace
  config_of-send_replace s c addr config i k e = elim (Option-cases (lookup k s.listeners)) [
    | inl none_there ↦ ground (arith, addr_eq_iff addr k)
    | inr (j, there) ↦ ground (
      arith,
      addr_eq_iff addr k,
      c.apart addr k i (In-lookup addr i s.listeners e),
      In-lookup k j s.listeners there,
    )
  ]

  config_of-configure :
      (s : Listening Rule) (addr : SocketAddr) (config : Rule) (k : SocketAddr)
      → IsConsistent s
      → config_of (configure s (addr, config)) k
        ≡ (if addr_eq addr k then some config else config_of s k)
  unfolding configure
  config_of-configure s addr config k c = elim (Option-cases (lookup addr s.listeners)) [
    | inl e ↦ rw (e, configure) (config_of-spawn s c addr config k)
    | inr (i, e) ↦ rw (e, configure) (config_of-send_replace s c addr config i k e)
  ]

  -- The configuration laid over what was there.
  abbrev over : Option Rule → Option Rule → Option Rule
  over (some r) old = some r
  over none old = old

  config_of-configure_all :
      (u : Update Rule) (s : Listening Rule) (k : SocketAddr)
      → IsConsistent s
      → distinct u ≡ true
      → config_of (configure_all s u) k ≡ over (lookup k u) (config_of s k)
  unfolding configure_all lookup distinct
  config_of-configure_all [] s k c d = refl
  config_of-configure_all ((addr, config) ∷ u) s k c d =
      config_of-configure_all u (configure s (addr, config)) k
        (configure-IsConsistent s (addr, config) c) (ground arith)
      ∙ ground (
        arith,
        config_of-configure s addr config k c,
        addr_eq_iff addr k,
        contains_key-none addr u,
      )

  -- After a configuration, every address is served by the rule that the configuration has for it,
  -- and by none if it has none, whatever was there before.
  pub config_of-reload :
      (s : Listening Rule) (u : Update Rule) (k : SocketAddr)
      → IsConsistent s
      → distinct u ≡ true
      → config_of (reload s u) k ≡ lookup k u
  unfolding reload contains_key
  config_of-reload s u k c d =
      config_of-configure_all u (retain u s) k (retain-IsConsistent u s c) d
      ∙ elim (Option-cases (lookup k u)) [
        | inl e ↦ ground (arith, config_of-retain u s k)
        | inr (r, e) ↦ rw e refl
      ]

  pub lookup-configure :
      (s : Listening Rule) (entry : SocketAddr × Rule) (k : SocketAddr) (i : ℕ)
      → lookup k s.listeners ≡ some i
      → lookup k (configure s entry).listeners ≡ some i
  unfolding configure spawn send_replace lookup
  lookup-configure s (addr, config) k i e = ground (arith, addr_eq_iff addr k)

  lookup-configure_all :
      (u : Update Rule) (s : Listening Rule) (k : SocketAddr) (i : ℕ)
      → lookup k s.listeners ≡ some i
      → lookup k (configure_all s u).listeners ≡ some i
  unfolding configure_all
  lookup-configure_all [] s k i e = e
  lookup-configure_all (entry ∷ u) s k i e =
      lookup-configure_all u (configure s entry) k i (lookup-configure s entry k i e)

  -- An address that is served, and that the new configuration has too, keeps its channel: its runner
  -- goes on and is not spawned again.
  pub lookup-reload :
      (s : Listening Rule) (u : Update Rule) (k : SocketAddr) (i : ℕ)
      → lookup k s.listeners ≡ some i
      → contains_key k u ≡ true
      → lookup k (reload s u).listeners ≡ some i
  unfolding reload retain
  lookup-reload s u k i e h =
      lookup-configure_all u (retain u s) k i (rw (lookup-retained u k s.listeners, h) e)

  -- The abstract event loop: a map from addresses to rules, replaced by each configuration and empty
  -- once the loop has ended.
  abbrev pub serves : (SocketAddr → Option Rule) → List (Signal Rule) → SocketAddr → Option Rule
  serves rules [] = rules
  serves rules (shutdown ∷ rest) = λ k. none
  serves rules (config_closed ∷ rest) = λ k. none
  serves rules (config_change u ∷ rest) = serves (λ k. lookup k u) rest

  -- The configurations among the signals are maps.
  abbrev pub AreMaps : List (Signal Rule) → Type 0
  AreMaps [] = Unit
  AreMaps (config_change u ∷ rest) = (distinct u ≡ true) × AreMaps rest
  AreMaps (shutdown ∷ rest) = AreMaps rest
  AreMaps (config_closed ∷ rest) = AreMaps rest

  config_of-listen :
      (s : Listening Rule) (signals : List (Signal Rule))
      → IsConsistent s
      → AreMaps signals
      → config_of (listen_config_change s signals) ≡ serves (config_of s) signals
  unfolding listen_config_change stop config_of lookup
  config_of-listen s [] c d = refl
  config_of-listen s (shutdown ∷ rest) c d = refl
  config_of-listen s (config_closed ∷ rest) c d = refl
  config_of-listen s (config_change u ∷ rest) c d =
      config_of-listen (reload s u) rest (reload-IsConsistent s u c) d.1
      ∙ ap (λ f. serves f rest) (fun_ext (λ k. config_of-reload s u k c d.0))

  -- From its start, and over any sequence of configurations, shutdowns and ends of the channel, the
  -- event loop serves each address by the rule of the abstract event loop.
  pub listen_config_change-serves :
      (signals : List (Signal Rule)) (k : SocketAddr)
      → AreMaps signals
      → config_of (listen_config_change start signals) k ≡ serves (λ j. none) signals k
  listen_config_change-serves signals k d =
      ap (λ f. f k) (config_of-listen start signals start-IsConsistent d) ∙ at_start
    where
      at_start : serves (config_of start) signals k ≡ serves (λ j. none) signals k
      at_start = unfold config_of start lookup in refl
