-- ===== src/EventLoop/System/Simulation.antt =====
-- How a listener of the whole (turbine/src/event_loop.rs) moves, seen as the runner of EventLoop.Runner,
-- of which the watch channel is a part.
use proxy_printer.Base.{
  ℕ, ◌≡◌, refl, sym, ap, ◌∙◌, inl, inr, true, List, [], ◌∷◌, ◌++◌, ◌==◌, arith, Bool-cases,
}
use proxy_printer.EventLoop.Store.{update}
use proxy_printer.EventLoop.{Update, reload, stop}
use proxy_printer.EventLoop.Runner.{Runner, Event, publishes, drops_sender, step, run}
use proxy_printer.EventLoop.Runner.Serving.{IsQuiet}
use proxy_printer.EventLoop.System.{
  Listener, Member, waiting, unbound, bound, System, view, set_member, Step, reloads, ends, binds,
  fails_to_bind, arrives, turns, initial, Reach, here, next,
}
use proxy_printer.EventLoop.System.Channels.{view-after_all, stop-cases, reload-Goes}
use proxy_printer.EventLoop.System.Rounds.{turn_listener-view, arrive_listener-view}
use proxy_printer.EventLoop.System.Invariant.{Inv, Reach-Inv, channel-bound}

module _ {Rule Conn : Type 0} where
  -- A step that takes no configuration.
  abbrev pub IsCalm : {s t : System Rule Conn} → Step s t → Type 0
  IsCalm (reloads s u on) = ⊥
  IsCalm (ends s on) = Unit
  IsCalm (binds s k i l m e b) = Unit
  IsCalm (fails_to_bind s j i m e) = Unit
  IsCalm (arrives s i l c e) = Unit
  IsCalm (turns s i l ready e) = Unit

  pub data Calm (s : System Rule Conn) : System Rule Conn → Type 0 where
    stays : Calm s s
    follows : {t u : System Rule Conn} → Calm s t → (m : Step t u) → IsCalm m → Calm s u

  pub Reach-trans : {s t u : System Rule Conn} → Reach s t → Reach t u → Reach s u
  Reach-trans r here = r
  Reach-trans r (next q m) = next (Reach-trans r q) m

  run-append :
      (w : Runner Rule Conn) (es fs : List (Event Rule Conn)) → run w (es ++ fs) ≡ run (run w es) fs
  unfolding run
  run-append w [] fs = refl
  run-append w (e ∷ es) fs = run-append (step w e) es fs

  IsQuiet-append : (es fs : List (Event Rule Conn)) → IsQuiet es → IsQuiet fs → IsQuiet (es ++ fs)
  IsQuiet-append [] fs h k = k
  IsQuiet-append (publishes r ∷ es) fs h k = absurd h
  IsQuiet-append (Event.arrives c ∷ es) fs h k = IsQuiet-append es fs h k
  IsQuiet-append (drops_sender ∷ es) fs h k = IsQuiet-append es fs h k
  IsQuiet-append (Event.turns ready ∷ es) fs h k = IsQuiet-append es fs h k

  -- The listener is there at the later moment, and what it sees then is what the runner comes to by
  -- events of its own; where the loop took no configuration, none of them publishes a rule.
  pub record Simulates (calm : Type 0) (s t : System Rule Conn) (i : ℕ) (l : Listener Rule Conn)
      : Type 0 where
    pub later : Listener Rule Conn
    pub is_bound : t.members i ≡ bound later
    pub events : List (Event Rule Conn)
    pub ran : view (t.loop.channels i) later ≡ run (view (s.loop.channels i) l) events
    pub quiet : calm → IsQuiet events

  Simulates-trans :
      (calm : Type 0) (s t u : System Rule Conn) (i : ℕ) (l : Listener Rule Conn)
      (f : Simulates calm s t i l)
      → Simulates calm t u i f.later
      → Simulates calm s u i l
  Simulates-trans calm s t u i l f g = record {
    later = g.later;
    is_bound = g.is_bound;
    events = f.events ++ g.events;
    ran =
        g.ran
        ∙ ap (λ w. run w g.events) f.ran
        ∙ sym (run-append (view (s.loop.channels i) l) f.events g.events);
    quiet = λ q. IsQuiet-append f.events g.events (f.quiet q) (g.quiet q);
  }

  -- Nothing that the listener sees has changed.
  idle :
      (calm : Type 0) (s t : System Rule Conn) (i : ℕ) (l : Listener Rule Conn)
      → t.members i ≡ bound l
      → t.loop.channels i ≡ s.loop.channels i
      → Simulates calm s t i l
  unfolding run
  idle calm s t i l e c = record {
    later = l;
    is_bound = e;
    events = [];
    ran = ap (λ x. view x l) c;
    quiet = λ q. tt;
  }

  -- One member is set: another one is left alone, and itself takes the event.
  set_member-Simulates :
      (calm : Type 0) (s : System Rule Conn) (j : ℕ) (m : Member Rule Conn) (i : ℕ)
      (l : Listener Rule Conn)
      → s.members i ≡ bound l
      → (j ≡ i → Simulates calm s (set_member s j m) i l)
      → Simulates calm s (set_member s j m) i l
  unfolding update
  set_member-Simulates calm s j m i l e own = elim (Bool-cases (j == i)) [
    | inl hit ↦ own (ground arith)
    | inr miss ↦ idle calm s (set_member s j m) i l (ground arith) refl
  ]

  own_event :
      (calm : Type 0) (s : System Rule Conn) (i : ℕ) (l l' : Listener Rule Conn)
      (e : Event Rule Conn)
      → IsQuiet (e ∷ [])
      → view (s.loop.channels i) l' ≡ step (view (s.loop.channels i) l) e
      → Simulates calm s (set_member s i (bound l')) i l
  unfolding update run
  own_event calm s i l l' e q h = record {
    later = l';
    is_bound = ground arith;
    events = e ∷ [];
    ran = h;
    quiet = λ c. q;
  }

  module _ {s : System Rule Conn} (v : Inv s) (i : ℕ) (l : Listener Rule Conn)
      (e : s.members i ≡ bound l) where
    reloads-Simulates :
        (u : Update Rule)
        → Simulates ⊥ s (record s { loop = reload s.loop u; updates = u ∷ s.updates }) i l
    reloads-Simulates u =
        let g = reload-Goes Conn s.loop u i v.consistent (channel-bound s i l v e) in
        record {
          later = l;
          is_bound = e;
          events = g.events;
          ran =
              ap (λ c. view c l) g.arrived
              ∙ (view-after_all (s.loop.channels i) l g.events g.public (v.sound i l e).behind).0;
          quiet = λ q. absurd q;
        }

    ends-Simulates :
        (calm : Type 0) → Simulates calm s (record s { loop = stop s.loop; ended = true }) i l
    unfolding run step
    ends-Simulates calm = elim (stop-cases s.loop i) [
      | inl kept ↦ idle calm s _ i l e kept
      | inr closed ↦ record {
        later = l;
        is_bound = e;
        events = drops_sender ∷ [];
        ran = ap (λ c. view c l) closed;
        quiet = λ q. tt;
      }
    ]

  -- Each step of the whole is, for each bound listener, a run of its runner.
  Step-Simulates :
      {s t : System Rule Conn} (m : Step s t) (i : ℕ) (l : Listener Rule Conn)
      → Inv s
      → s.members i ≡ bound l
      → Simulates (IsCalm m) s t i l
  unfolding step
  Step-Simulates (reloads s u on) i l v e = reloads-Simulates v i l e u
  Step-Simulates (ends s on) i l v e = ends-Simulates v i l e Unit
  Step-Simulates (binds s k j l' m w b) i l v e =
      set_member-Simulates Unit s j (bound l') i l e
        λ same. let not_waiting : waiting ≡ bound l = sym w ∙ ap s.members same ∙ e in absurd (cc)
  Step-Simulates (fails_to_bind s k j m w) i l v e =
      set_member-Simulates Unit s j unbound i l e
        λ same. let not_waiting : waiting ≡ bound l = sym w ∙ ap s.members same ∙ e in absurd (cc)
  Step-Simulates (arrives s j l' c w) i l v e = set_member-Simulates Unit s j _ i l e λ same.
      let own : bound l' ≡ bound l = sym w ∙ ap s.members same ∙ e in
      let own' : l' ≡ l = cc in
      rw (same, own')
        (own_event Unit s i l _ (Event.arrives c) tt (arrive_listener-view (s.loop.channels i) l c))
  Step-Simulates (turns s j l' ready w) i l v e = set_member-Simulates Unit s j _ i l e λ same.
      let own : bound l' ≡ bound l = sym w ∙ ap s.members same ∙ e in
      let own' : l' ≡ l = cc in
      rw (same, own')
        (own_event Unit s i l _ (Event.turns ready) tt
          (turn_listener-view ready (s.loop.channels i) l))

  weaken :
      (calm calm' : Type 0) (s t : System Rule Conn) (i : ℕ) (l : Listener Rule Conn)
      → (calm' → calm)
      → Simulates calm s t i l
      → Simulates calm' s t i l
  weaken calm calm' s t i l f h = record {
    later = h.later;
    is_bound = h.is_bound;
    events = h.events;
    ran = h.ran;
    quiet = λ q. h.quiet (f q);
  }

  Calm-Reach : {s t : System Rule Conn} → Reach initial s → Calm s t → Reach initial t
  Calm-Reach r stays = r
  Calm-Reach r (follows q m c) = next (Calm-Reach r q) m

  pub Calm-Simulates :
      {s t : System Rule Conn} (i : ℕ) (l : Listener Rule Conn)
      → Reach initial s
      → Calm s t
      → s.members i ≡ bound l
      → Simulates Unit s t i l
  Calm-Simulates i l r stays e = idle Unit _ _ i l e refl
  Calm-Simulates i l r (follows q m c) e =
      let f = Calm-Simulates i l r q e in
      Simulates-trans Unit _ _ _ i l f (
        weaken (IsCalm m) Unit _ _ i f.later (λ x. c)
          (Step-Simulates m i f.later (Reach-Inv (Calm-Reach r q)) f.is_bound))
