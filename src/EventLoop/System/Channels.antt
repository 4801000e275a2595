-- ===== src/EventLoop/System/Channels.antt =====
-- What the event loop does to one watch channel (turbine/src/event_loop.rs), and that a receiver sees it
-- as the runner of EventLoop.Runner does.
use proxy_printer.Base.{
  ℕ, ◌+◌, ◌<◌, ◌≤◌, ◌≡◌, refl, sym, ap, ◌∙◌, ◌⊎◌, inl, inr, Bool, true, false, List, [], ◌∷◌, ◌++◌,
  some, ◌==◌, arith, if◌then◌else◌, Bool-cases, Option-cases, All,
}
use proxy_printer.Net.{SocketAddr}
use proxy_printer.EventLoop.Store.{lookup, contains_key, update, In-lookup}
use proxy_printer.EventLoop.{
  Channel, Listening, Update, drop_sender, drop_others, retain, spawn, send_replace, configure,
  configure_all, reload, stop,
}
use proxy_printer.EventLoop.Invariant.{IsConsistent, retain-IsConsistent, configure-IsConsistent}
use proxy_printer.EventLoop.Runner.{Event, arrives, publishes, drops_sender, turns, step, run}
use proxy_printer.EventLoop.System.{Listener, view}

module _ {Rule Conn : Type 0} where
  -- The channel after what happens to it.
  abbrev pub after : Channel Rule → Event Rule Conn → Channel Rule
  after c (publishes r) =
      if c.sender then record c { value = some r; version = c.version + 1 } else c
  after c drops_sender = record c { sender = false }
  after c (arrives x) = c
  after c (turns ready) = c

  abbrev pub after_all : Channel Rule → List (Event Rule Conn) → Channel Rule
  after_all c [] = c
  after_all c (e ∷ es) = after_all (after c e) es

  -- An event of the channel.
  abbrev pub IsPublic : Event Rule Conn → Type 0
  IsPublic (publishes r) = Unit
  IsPublic drops_sender = Unit
  IsPublic (arrives x) = ⊥
  IsPublic (turns ready) = ⊥

  -- The receiver sees each event as the runner does.
  view-after :
      (c : Channel Rule) (l : Listener Rule Conn) (e : Event Rule Conn)
      → IsPublic e
      → l.seen ≤ c.version
      → (view (after c e) l ≡ step (view c l) e) × (l.seen ≤ (after c e).version)
  unfolding step
  view-after c l (publishes r) p h = (ground arith, ground arith)
  view-after c l drops_sender p h = (refl, h)
  view-after c l (arrives x) p h = absurd p
  view-after c l (turns ready) p h = absurd p

  pub view-after_all :
      (c : Channel Rule) (l : Listener Rule Conn) (es : List (Event Rule Conn))
      → All IsPublic es
      → l.seen ≤ c.version
      → (view (after_all c es) l ≡ run (view c l) es) × (l.seen ≤ (after_all c es).version)
  unfolding run
  view-after_all c l [] p h = (refl, h)
  view-after_all c l (e ∷ es) (p, ps) h =
      let (seen, le) = view-after c l e p h in
      let (seen', le') = view-after_all (after c e) l es ps le in
      (seen' ∙ ap (λ w. run w es) seen, le')

-- Its sender is dropped, or nothing happens.
module _ {Rule : Type 0} where
  abbrev pub dropped : Channel Rule → Channel Rule
  dropped c = record c { sender = false }

  abbrev pub IsKeptOrDropped : Channel Rule → Channel Rule → Type 0
  IsKeptOrDropped c d = (d ≡ c) ⊎ (d ≡ dropped c)

  drop_if-cases :
      (b : Bool) (n : ℕ) (chans : ℕ → Channel Rule) (i : ℕ)
      → IsKeptOrDropped (chans i) ((if b then chans else drop_sender n chans) i)
  unfolding drop_sender update
  drop_if-cases true n chans i = inl refl
  drop_if-cases false n chans i = elim (Bool-cases (n == i)) [
    | inl e ↦ inr (ground arith)
    | inr e ↦ inl (ground arith)
  ]

  KeptOrDropped-trans :
      (b c d : Channel Rule) → IsKeptOrDropped b c → IsKeptOrDropped c d → IsKeptOrDropped b d
  KeptOrDropped-trans b c d (inl e) h = rw e at h
  KeptOrDropped-trans b c d (inr e) (inl f) = inr (f ∙ e)
  KeptOrDropped-trans b c d (inr e) (inr f) = inr (f ∙ ap dropped e)

  drop_others-cases :
      (u : Update Rule) (ls : List (SocketAddr × ℕ)) (chans : ℕ → Channel Rule) (i : ℕ)
      → IsKeptOrDropped (chans i) (drop_others u ls chans i)
  unfolding drop_others
  drop_others-cases u [] chans i = inl refl
  drop_others-cases u ((k, n) ∷ ls) chans i =
      KeptOrDropped-trans _ _ _ (drop_if-cases (contains_key k u) n chans i)
        (drop_others-cases u ls _ i)

  pub stop-cases :
      (s : Listening Rule) (i : ℕ) → IsKeptOrDropped (s.channels i) ((stop s).channels i)
  unfolding stop
  stop-cases s i = drop_others-cases [] s.listeners s.channels i

module _ {Rule : Type 0} (Conn : Type 0) where
  -- The channel goes from one state to the other by such events.
  pub record Goes (c d : Channel Rule) : Type 0 where
    pub events : List (Event Rule Conn)
    pub public : All IsPublic events
    pub arrived : d ≡ after_all c events

  after_all-append :
      (c : Channel Rule) (es fs : List (Event Rule Conn))
      → after_all c (es ++ fs) ≡ after_all (after_all c es) fs
  after_all-append c [] fs = refl
  after_all-append c (e ∷ es) fs = after_all-append (after c e) es fs

  All-append :
      (es fs : List (Event Rule Conn)) → All IsPublic es → All IsPublic fs → All IsPublic (es ++ fs)
  All-append [] fs h k = k
  All-append (e ∷ es) fs (h, hs) k = (h, All-append es fs hs k)

  Goes-none : (c d : Channel Rule) → d ≡ c → Goes c d
  Goes-none c d e = record { events = []; public = tt; arrived = e }

  Goes-one : (c d : Channel Rule) (e : Event Rule Conn) → IsPublic e → d ≡ after c e → Goes c d
  Goes-one c d e p h = record { events = e ∷ []; public = (p, tt); arrived = h }

  Goes-trans : (b c d : Channel Rule) → Goes b c → Goes c d → Goes b d
  Goes-trans b c d g h = record {
    events = g.events ++ h.events;
    public = All-append g.events h.events g.public h.public;
    arrived =
        h.arrived
        ∙ ap (λ x. after_all x h.events) g.arrived
        ∙ sym (after_all-append b g.events h.events);
  }

  drop_others-Goes :
      (u : Update Rule) (ls : List (SocketAddr × ℕ)) (chans : ℕ → Channel Rule) (i : ℕ)
      → Goes (chans i) (drop_others u ls chans i)
  drop_others-Goes u ls chans i = elim (drop_others-cases u ls chans i) [
    | inl kept ↦ Goes-none _ _ kept
    | inr dropped ↦ Goes-one _ _ drops_sender tt dropped
  ]

  -- A configured entry is sent on its channel; other channels that are in use stay as they are.
  configure-Goes :
      (s : Listening Rule) (entry : SocketAddr × Rule) (i : ℕ)
      → IsConsistent s
      → i < s.next_channel
      → Goes (s.channels i) ((configure s entry).channels i)
        × (i < (configure s entry).next_channel)
  unfolding configure spawn send_replace update
  configure-Goes s (addr, config) i c h = elim (Option-cases (lookup addr s.listeners)) [
    | inl e ↦ rw (e, configure) (Goes-none _ _ (ground arith), omega arith)
    | inr (n, e) ↦
        let alive = c.alive addr n (In-lookup addr n s.listeners e) in
        rw (e, configure)
          (
            elim (Bool-cases (n == i)) [
              | inl same ↦ Goes-one _ _ (publishes config) tt (ground arith)
              | inr other ↦ Goes-none _ _ (ground arith)
            ],
            h,
          )
  ]

  configure_all-Goes :
      (u : Update Rule) (s : Listening Rule) (i : ℕ)
      → IsConsistent s
      → i < s.next_channel
      → Goes (s.channels i) ((configure_all s u).channels i)
  unfolding configure_all
  configure_all-Goes [] s i c h = Goes-none _ _ refl
  configure_all-Goes (entry ∷ u) s i c h =
      let (g, h') = configure-Goes s entry i c h in
      Goes-trans _ _ _ g
        (configure_all-Goes u (configure s entry) i (configure-IsConsistent s entry c) h')

  -- Whatever a configuration does to a channel in use, it is a sequence of sends and drops.
  pub stop-Goes : (s : Listening Rule) (i : ℕ) → Goes (s.channels i) ((stop s).channels i)
  unfolding stop
  stop-Goes s i = drop_others-Goes [] s.listeners s.channels i

  pub reload-Goes :
      (s : Listening Rule) (u : Update Rule) (i : ℕ)
      → IsConsistent s
      → i < s.next_channel
      → Goes (s.channels i) ((reload s u).channels i)
  unfolding reload retain
  reload-Goes s u i c h =
      Goes-trans _ _ _ (drop_others-Goes u s.listeners s.channels i)
        (configure_all-Goes u (retain u s) i (retain-IsConsistent u s c) h)
