-- ===== src/EventLoop/System/Ending.antt =====
-- The end of the whole (turbine/src/event_loop.rs): once the event loop has ended, each listener stops.
use proxy_printer.Base.{
  List, false, Bool, [], ◌∷◌, ◌+◌, ◌<◌, All, ℕ, ◌≡◌, refl, ap, ◌∙◌, inl, inr, true, ◌++◌, length,
  arith,
}
use proxy_printer.EventLoop.Store.{update, In}
use proxy_printer.EventLoop.Runner.{Runner, step, run, latest, until_error}
use proxy_printer.EventLoop.Runner.Serving.{tasks}
use proxy_printer.EventLoop.Runner.Draining.{rounds, run-Drained}
use proxy_printer.EventLoop.System.{
  Listener, bound, System, view, turn_listener, set_member, turns, initial, Reach, here, next,
}
use proxy_printer.EventLoop.System.Rounds.{turn_listener-view}
use proxy_printer.EventLoop.System.Invariant.{Inv, Reach-Inv}
use proxy_printer.EventLoop.System.Simulation.{Reach-trans}

module _ {Rule Conn : Type 0} where
  -- Rounds of one listener, with nothing in between.
  pub record Turned (bs : List Bool) (s : System Rule Conn) (i : ℕ) (l : Listener Rule Conn)
      : Type 0 where
    pub last : System Rule Conn
    pub reach : Reach s last
    pub same_loop : last.loop ≡ s.loop
    pub later : Listener Rule Conn
    pub is_bound : last.members i ≡ bound later
    pub ran : view (s.loop.channels i) later ≡ run (view (s.loop.channels i) l) (rounds bs)

  turn_times :
      (bs : List Bool) (s : System Rule Conn) (i : ℕ) (l : Listener Rule Conn)
      → s.members i ≡ bound l
      → Turned bs s i l
  unfolding run step set_member
  turn_times [] s i l e = record {
    last = s;
    reach = here;
    same_loop = refl;
    later = l;
    is_bound = e;
    ran = refl;
  }
  turn_times (b ∷ bs) s i l e =
      let l1 = turn_listener b (s.loop.channels i) l in
      let s1 = set_member s i (bound l1) in
      let set : s1.members i ≡ bound l1 = unfold update in ground arith in
      let f = turn_times bs s1 i l1 set in
      record {
        last = f.last;
        reach = Reach-trans (next here (turns s i l b e)) f.reach;
        same_loop = f.same_loop;
        later = f.later;
        is_bound = f.is_bound;
        ran = f.ran ∙ ap (λ w. run w (rounds bs)) (turn_listener-view b (s.loop.channels i) l);
      }

  -- An ended loop has dropped the sender of each listener.
  sender-dropped :
      {s : System Rule Conn} (i : ℕ) (l : Listener Rule Conn)
      → Inv s
      → s.ended ≡ true
      → s.members i ≡ bound l
      → (s.loop.channels i).sender ≡ false
  sender-dropped {s} i l v off e =
      let (k, m) = v.served i l e in
      elim (v.accounted.listed_or_told k i m) [
        | inl listed ↦ let nowhere : In k i [] = rw (v.emptied off) at listed in absurd nowhere
        | inr told ↦ told
      ]

  pub record Stops (bs : List Bool) (s : System Rule Conn) (i : ℕ) (l : Listener Rule Conn)
      : Type 0 where
    pub turned : Turned bs s i l
    pub stopped : turned.later.running ≡ false
    pub served : List Conn
    pub left : List Conn
    pub split : until_error l.queue ≡ served ++ left
    pub spawned_all :
        turned.later.spawned ≡ l.spawned ++ tasks (latest (view (s.loop.channels i) l)) served
    pub whole : All (λ b. b ≡ true) bs → left ≡ []

  -- Once the event loop has ended, every listener that still runs stops after at most two rounds more
  -- than the entries of its accept queue, if nothing comes in between. It has then spawned tasks, by the
  -- last rule that its channel had, for connections at the front of the queue, in order. These are all
  -- that stood before the first failed accept if no poll of the socket was held up, that is, came to
  -- `Pending` while connections waited.
  pub ended-Stops :
      {s : System Rule Conn} (bs : List Bool) (i : ℕ) (l : Listener Rule Conn)
      → Reach initial s
      → s.ended ≡ true
      → s.members i ≡ bound l
      → l.running ≡ true
      → length l.queue + 1 < length bs
      → Stops bs s i l
  ended-Stops {s} bs i l r off e on n =
      let f = turn_times bs s i l e in
      let d =
        run-Drained bs (view (s.loop.channels i) l) n
          (record { on = on; closed = sender-dropped i l (Reach-Inv r) off e }) in
      record {
        turned = f;
        stopped = ap (λ (w : Runner Rule Conn). w.running) f.ran ∙ d.stopped;
        served = d.served;
        left = d.left;
        split = d.split;
        spawned_all = ap (λ (w : Runner Rule Conn). w.spawned) f.ran ∙ d.spawned_all;
        whole = d.whole;
      }
