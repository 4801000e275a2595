-- ===== src/EventLoop/System/Invariant.antt =====
-- What holds at any time between the event loop, its channels and its listeners
-- (turbine/src/event_loop.rs).
use proxy_printer.Base.{
  Bool, ℕ, ◌<◌, ◌≤◌, ◌≡◌, ◌≢◌, refl, inl, inr, true, false, List, [], ◌∷◌, Option, some, none, ◌==◌,
  arith, Bool-cases, Option-cases,
}
use proxy_printer.Net.{SocketAddr}
use proxy_printer.EventLoop.Store.{update}
use proxy_printer.EventLoop.{Channel, Update, start, reload, stop}
use proxy_printer.EventLoop.Invariant.{
  Serves, IsConsistent, start-IsConsistent, reload-IsConsistent, stop-IsConsistent, Serves-reload,
}
use proxy_printer.EventLoop.Runners.{
  IsAccounted, start-IsAccounted, reload-IsAccounted, stop-IsAccounted,
}
use proxy_printer.EventLoop.Runner.{Event, publishes, drops_sender, latest}
use proxy_printer.EventLoop.Runner.Draining.{stopped-turn}
use proxy_printer.EventLoop.System.{
  Listener, Member, unbound, bound, System, begin, view, turn_listener, arrive_listener, set_member,
  Step, reloads, ends, binds, fails_to_bind, arrives, turns, initial, Reach, here, next,
}
use proxy_printer.EventLoop.System.Channels.{after, after_all, Goes, stop-Goes, reload-Goes}
use proxy_printer.EventLoop.System.Rounds.{turn-kept}

module _ {Rule Conn : Type 0} where
  -- A receiver is not ahead of its channel, and has the value where it is level with it.
  pub record Sound (c : Channel Rule) (l : Listener Rule Conn) : Type 0 where
    pub valued : c.value ≢ none
    pub behind : l.seen ≤ c.version
    pub level : l.seen ≡ c.version → c.value ≡ some l.rule

  -- The last rule that a listener can know of is the value of the channel.
  pub Sound-latest :
      (c : Channel Rule) (l : Listener Rule Conn) → Sound c l → c.value ≡ some (latest (view c l))
  Sound-latest c l h = ground (arith, h.valued, h.level)

  begin-Sound : (c : Channel Rule) (l : Listener Rule Conn) → begin c ≡ some l → Sound c l
  unfolding begin
  begin-Sound c l e = elim (Option-cases c.value) [
    | inl none_there ↦ absurd (ground arith)
    | inr (r, there) ↦ record {
      valued = ground arith;
      behind = ground arith;
      level = λ h. ground arith;
    }
  ]

  after-Sound :
      (c : Channel Rule) (l : Listener Rule Conn) (e : Event Rule Conn)
      → Sound c l
      → Sound (after c e) l
  after-Sound c l (publishes r) h = record {
    valued = ground (arith, h.valued);
    behind = ground (arith, h.behind);
    level = ground (arith, h.behind, h.level);
  }
  after-Sound c l drops_sender h = record { valued = h.valued; behind = h.behind; level = h.level }
  after-Sound c l (Event.arrives x) h = h
  after-Sound c l (Event.turns ready) h = h

  after_all-Sound :
      (c : Channel Rule) (l : Listener Rule Conn) (es : List (Event Rule Conn))
      → Sound c l
      → Sound (after_all c es) l
  after_all-Sound c l [] h = h
  after_all-Sound c l (e ∷ es) h = after_all-Sound (after c e) l es (after-Sound c l e h)

  Goes-Sound : (c d : Channel Rule) (l : Listener Rule Conn) → Goes Conn c d → Sound c l → Sound d l
  Goes-Sound c d l g h = rw g.arrived (after_all-Sound c l g.events h)

  arrives-Sound :
      (c : Channel Rule) (l : Listener Rule Conn) (x : Option Conn)
      → Sound c l
      → Sound c (arrive_listener l x)
  unfolding arrive_listener
  arrives-Sound c l x h = record {
    valued = h.valued;
    behind = ground (arith, h.behind);
    level = λ e. ground (arith, h.level);
  }

  turn-Sound :
      (ready : Bool) (c : Channel Rule) (l : Listener Rule Conn)
      → Sound c l
      → Sound c (turn_listener ready c l)
  unfolding turn_listener
  turn-Sound ready c l h = record {
    valued = h.valued;
    behind = ground (arith, h.behind);
    level = λ e. elim (Bool-cases l.running) [
      | inl on ↦ ground (arith, turn-kept ready (view c l) on, Sound-latest c l h)
      | inr off ↦ ground (arith, stopped-turn ready (view c l) off, h.level)
    ];
  }

  -- Each bound listener is one of the runners, and sound; a loop that has ended has no senders.
  pub record Inv (s : System Rule Conn) : Type 0 where
    pub consistent : IsConsistent s.loop
    pub accounted : IsAccounted s.loop
    pub served :
        (i : ℕ) (l : Listener Rule Conn)
        → s.members i ≡ bound l
        → (k : SocketAddr) × Serves k i s.loop.runners
    pub sound :
        (i : ℕ) (l : Listener Rule Conn) → s.members i ≡ bound l → Sound (s.loop.channels i) l
    pub emptied : s.ended ≡ true → s.loop.listeners ≡ []

  -- A member is set, at an index of a runner.
  set_member-Inv :
      (s : System Rule Conn) (j : ℕ) (m : Member Rule Conn)
      → Inv s
      → ((l : Listener Rule Conn)
          → m ≡ bound l
          → ((k : SocketAddr) × Serves k j s.loop.runners) × Sound (s.loop.channels j) l)
      → Inv (set_member s j m)
  unfolding update
  set_member-Inv s j m v new = record {
    consistent = v.consistent;
    accounted = v.accounted;
    served = λ i l e. elim (Bool-cases (j == i)) [
      | inl hit ↦ let same : j ≡ i = ground arith in rw (← same) (new l (ground arith)).0
      | inr miss ↦ v.served i l (ground arith)
    ];
    sound = λ i l e. elim (Bool-cases (j == i)) [
      | inl hit ↦ let same : j ≡ i = ground arith in rw (← same) (new l (ground arith)).1
      | inr miss ↦ v.sound i l (ground arith)
    ];
    emptied = v.emptied;
  }

  pub channel-bound :
      (s : System Rule Conn) (i : ℕ) (l : Listener Rule Conn)
      → Inv s
      → s.members i ≡ bound l
      → i < s.loop.next_channel
  channel-bound s i l v e = let (k, m) = v.served i l e in v.accounted.numbered k i m

  reloads-Inv :
      (s : System Rule Conn) (u : Update Rule)
      → s.ended ≡ false
      → Inv s
      → Inv (record s { loop = reload s.loop u; updates = u ∷ s.updates })
  reloads-Inv s u on v = record {
    consistent = reload-IsConsistent s.loop u v.consistent;
    accounted = reload-IsAccounted u s.loop v.accounted;
    served = λ i l e. let (k, m) = v.served i l e in (k, Serves-reload s.loop u k i m);
    sound = λ i l e.
        Goes-Sound _ _ l (reload-Goes Conn s.loop u i v.consistent (channel-bound s i l v e))
          (v.sound i l e);
    emptied = λ off. absurd (cc);
  }

  ends-Inv : (s : System Rule Conn) → Inv s → Inv (record s { loop = stop s.loop; ended = true })
  unfolding stop
  ends-Inv s v = record {
    consistent = unfold stop in stop-IsConsistent s.loop;
    accounted = unfold stop in stop-IsAccounted s.loop v.accounted;
    served = v.served;
    sound = λ i l e. Goes-Sound _ _ l (stop-Goes Conn s.loop i) (v.sound i l e);
    emptied = λ off. refl;
  }

  pub Step-Inv : {s t : System Rule Conn} → Step s t → Inv s → Inv t
  Step-Inv (reloads s u on) v = reloads-Inv s u on v
  Step-Inv (ends s on) v = ends-Inv s v
  Step-Inv (binds s k i l m e b) v =
      set_member-Inv s i (bound l) v λ l' f.
        let same : l ≡ l' = cc in ((k, m), rw (← same) (begin-Sound (s.loop.channels i) l b))
  Step-Inv (fails_to_bind s j i m e) v = set_member-Inv s i unbound v λ l f. cc
  Step-Inv (arrives s i l c e) v = set_member-Inv s i _ v λ l' f.
      let same : arrive_listener l c ≡ l' = cc in
      (v.served i l e, rw (← same) (arrives-Sound (s.loop.channels i) l c (v.sound i l e)))
  Step-Inv (turns s i l ready e) v = set_member-Inv s i _ v λ l' f.
      let same : turn_listener ready (s.loop.channels i) l ≡ l' = cc in
      (v.served i l e, rw (← same) (turn-Sound ready (s.loop.channels i) l (v.sound i l e)))

  initial-Inv : Inv initial
  unfolding start
  initial-Inv = record {
    consistent = unfold start in start-IsConsistent;
    accounted = unfold start in start-IsAccounted;
    served = λ i l e. absurd (cc);
    sound = λ i l e. absurd (cc);
    emptied = λ e. refl;
  }

  -- In every reachable state.
  pub Reach-Inv : {s : System Rule Conn} → Reach initial s → Inv s
  Reach-Inv here = initial-Inv
  Reach-Inv (next r m) = Step-Inv m (Reach-Inv r)
