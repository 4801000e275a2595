-- ===== src/EventLoop/Runner/Draining.antt =====
-- The end of `LBRunner::run` (turbine/src/event_loop.rs): once the sender of its channel is dropped,
-- it goes through the accept queue and stops.
use proxy_printer.Base.{
  ◌+◌, ◌<◌, ◌≡◌, refl, sym, ap, subst, ◌∙◌, Bool, true, false, List, [], ◌∷◌, ◌++◌, Option, some,
  none, arith, length, All, append_assoc, append-nil, Option-cases, inl, inr,
}
use proxy_printer.EventLoop.Runner.{
  Runner, Event, turns, serve, close, poll_accept, turn, step, run, latest, until_error,
}
use proxy_printer.EventLoop.Runner.Serving.{tasks}

module _ {Rule Conn : Type 0} where
  -- Rounds of the loop, with what tokio lets each poll of the socket do.
  abbrev pub rounds : List Bool → List (Event Rule Conn)
  rounds [] = []
  rounds (ready ∷ rest) = turns ready ∷ rounds rest

  pub stopped-turn : (ready : Bool) (w : Runner Rule Conn) → w.running ≡ false → turn ready w ≡ w
  unfolding turn
  stopped-turn ready w e = ground arith

  stopped-run : (bs : List Bool) (w : Runner Rule Conn) → w.running ≡ false → run w (rounds bs) ≡ w
  unfolding run step
  stopped-run [] w e = refl
  stopped-run (b ∷ bs) w e = ap (λ v. run v (rounds bs)) (stopped-turn b w e) ∙ stopped-run bs w e

  -- The loop has ended, and a task was spawned for the connections at the front of the queue: for all
  -- before the first failed accept, if no poll was held up.
  pub record Drained (bs : List Bool) (v w : Runner Rule Conn) : Type 0 where
    pub stopped : w.running ≡ false
    pub served : List Conn
    pub left : List Conn
    pub split : until_error v.queue ≡ served ++ left
    pub spawned_all : w.spawned ≡ v.spawned ++ tasks (latest v) served
    pub whole : All (λ b. b ≡ true) bs → left ≡ []

  pub record IsClosing (w : Runner Rule Conn) : Type 0 where
    pub on : w.running ≡ true
    pub closed : w.sender ≡ false

  turn-poll_accept :
      (w : Runner Rule Conn) (q : List (Option Conn))
      → IsClosing w
      → w.unseen ≡ none
      → w.queue ≡ q
      → turn true w ≡ poll_accept w q
  unfolding turn
  turn-poll_accept w q c u e = ground arith

  turn-close : (w : Runner Rule Conn) → IsClosing w → w.unseen ≡ none → turn false w ≡ close w
  unfolding turn
  turn-close w c u = ground arith

  -- The loop ends in this round, and those that follow change nothing.
  drain-last :
      (b : Bool) (bs : List Bool) (w : Runner Rule Conn) (left : List Conn)
      → turn b w ≡ close w
      → until_error w.queue ≡ left
      → (All (λ b. b ≡ true) (b ∷ bs) → left ≡ [])
      → Drained (b ∷ bs) w (run (turn b w) (rounds bs))
  unfolding close
  drain-last b bs w left t e all =
      rw (t, stopped-run bs (close w) refl)
        (record {
          stopped = refl;
          served = [];
          left = left;
          split = e;
          spawned_all = sym (append-nil w.spawned);
          whole = all;
        })

  drain-serve :
      (bs : List Bool) (w : Runner Rule Conn) (x : Conn) (rest : List (Option Conn))
      (z : Runner Rule Conn)
      → w.unseen ≡ none
      → w.queue ≡ some x ∷ rest
      → Drained bs (serve w rest x) z
      → Drained (true ∷ bs) w z
  unfolding serve
  drain-serve bs w x rest z u e d =
      let l : w.rule ≡ latest w = ground arith in
      record {
        stopped = d.stopped;
        served = x ∷ d.served;
        left = d.left;
        split = ap until_error e ∙ ap (◌∷◌ x) d.split;
        spawned_all =
            d.spawned_all
            ∙ append_assoc w.spawned ((w.rule, x) ∷ []) (tasks (latest (serve w rest x)) d.served)
            ∙ ap (λ r. w.spawned ++ (r, x) ∷ tasks (latest w) d.served) l;
        whole = λ all. d.whole all.1;
      }

  drain :
      (q : List (Option Conn)) (bs : List Bool) (w : Runner Rule Conn)
      → length q < length bs
      → IsClosing w
      → w.unseen ≡ none
      → w.queue ≡ q
      → Drained bs w (run w (rounds bs))
  unfolding run step poll_accept
  drain q [] w n c u e = absurd (omega (arith, n))
  drain q (false ∷ bs) w n c u e =
      drain-last false bs w (until_error w.queue) (turn-close w c u) refl
        (λ all. absurd (cc (all.0)))
  drain [] (true ∷ bs) w n c u e =
      drain-last true bs w [] (turn-poll_accept w [] c u e) (ap until_error e) (λ all. refl)
  drain (none ∷ rest) (true ∷ bs) w n c u e =
      drain-last true bs w [] (turn-poll_accept w (none ∷ rest) c u e) (ap until_error e)
        (λ all. refl)
  drain (some x ∷ rest) (true ∷ bs) w n c u e =
      let t = turn-poll_accept w (some x ∷ rest) c u e in
      drain-serve bs w x rest _ u e (
        subst (λ v. Drained bs (serve w rest x) (run v (rounds bs))) (sym t)
          (drain rest bs (serve w rest x) (omega (arith, n))
            (unfold serve in record { on = c.on; closed = c.closed }) (unfold serve in u)
            (unfold serve in refl)))

  -- The round that takes a new rule.
  drain-switch :
      (b : Bool) (bs : List Bool) (w : Runner Rule Conn) (r : Rule)
      → length w.queue < length bs
      → IsClosing w
      → w.unseen ≡ some r
      → Drained (b ∷ bs) w (run (turn b w) (rounds bs))
  drain-switch b bs w r n c u =
      let w1 = record w { rule = r; unseen = none } in
      let t : turn b w ≡ w1 = unfold turn in ground arith in
      let d = drain w.queue bs w1 n (record { on = c.on; closed = c.closed }) refl refl in
      let l : latest w ≡ r = ground arith in
      rw t (record {
        stopped = d.stopped;
        served = d.served;
        left = d.left;
        split = d.split;
        spawned_all = d.spawned_all ∙ ap (λ x. w.spawned ++ tasks x d.served) (sym l);
        whole = λ all. d.whole all.1;
      })

  -- A running runner whose sender is gone stops after at most two rounds more than the entries of
  -- its accept queue, if nothing else comes. It has then spawned a task, by the last rule published,
  -- for the connections at the front of the queue: if no poll was held up, for each one before the
  -- first failed accept.
  pub run-Drained :
      (bs : List Bool) (w : Runner Rule Conn)
      → length w.queue + 1 < length bs
      → IsClosing w
      → Drained bs w (run w (rounds bs))
  unfolding run step
  run-Drained [] w n c = absurd (omega (arith, n))
  run-Drained (b ∷ bs) w n c = elim (Option-cases w.unseen) [
    | inl u ↦ unfold run step in drain w.queue (b ∷ bs) w (omega (arith, n)) c u refl
    | inr (r, u) ↦ drain-switch b bs w r (omega (arith, n)) c u
  ]
