-- ===== src/EventLoop/Runner/Serving.antt =====
-- `LBRunner::run` (turbine/src/event_loop.rs) serves each connection by the rule that was last
-- published.
use proxy_printer.Base.{
  ◌≡◌, refl, sym, ap, ◌∙◌, ◌⊎◌, inl, inr, Bool, true, List, [], ◌∷◌, ◌++◌, Option, some, none,
  arith, append_assoc, append-nil, Bool-cases, Option-cases,
}
use proxy_printer.EventLoop.Runner.{
  Runner, Event, arrives, publishes, drops_sender, turns, serve, accept, close, poll_accept, turn,
  arrive, step, run, latest,
}

-- One task for each connection, all with one rule.
abbrev pub tasks : {Rule Conn : Type 0} → Rule → List Conn → List (Rule × Conn)
tasks r [] = []
tasks r (c ∷ cs) = (r, c) ∷ tasks r cs

tasks-append :
    {Rule Conn : Type 0} (r : Rule) (cs ds : List Conn)
    → tasks r (cs ++ ds) ≡ tasks r cs ++ tasks r ds
tasks-append r [] ds = refl
tasks-append r (c ∷ cs) ds = ap (◌∷◌ (r, c)) (tasks-append r cs ds)

module _ {Rule Conn : Type 0} where
  -- No rule is published.
  abbrev pub IsQuiet : List (Event Rule Conn) → Type 0
  IsQuiet [] = Unit
  IsQuiet (publishes r ∷ es) = ⊥
  IsQuiet (arrives c ∷ es) = IsQuiet es
  IsQuiet (drops_sender ∷ es) = IsQuiet es
  IsQuiet (turns ready ∷ es) = IsQuiet es

  -- The tasks spawned between two moments all have the given rule.
  pub record ServesBy (r : Rule) (v w : Runner Rule Conn) : Type 0 where
    pub served : List Conn
    pub spawned_since : w.spawned ≡ v.spawned ++ tasks r served
    pub still_latest : latest w ≡ r

  ServesBy-none :
      (r : Rule) (v w : Runner Rule Conn) → w.spawned ≡ v.spawned → latest w ≡ r → ServesBy r v w
  ServesBy-none r v w e l = record {
    served = [];
    spawned_since = e ∙ sym (append-nil v.spawned);
    still_latest = l;
  }

  ServesBy-trans :
      (r : Rule) (u v w : Runner Rule Conn) → ServesBy r u v → ServesBy r v w → ServesBy r u w
  ServesBy-trans r u v w h k = record {
    served = h.served ++ k.served;
    spawned_since =
        k.spawned_since
        ∙ rw (h.spawned_since, tasks-append r h.served k.served)
            (append_assoc u.spawned (tasks r h.served) (tasks r k.served));
    still_latest = k.still_latest;
  }

  accept-ServesBy :
      (w : Runner Rule Conn) (q : List (Option Conn))
      → w.unseen ≡ none
      → ServesBy w.rule w (accept w q)
  unfolding accept serve
  accept-ServesBy w [] e = ServesBy-none w.rule w w refl (ground arith)
  accept-ServesBy w (some c ∷ rest) e = record {
    served = c ∷ [];
    spawned_since = refl;
    still_latest = ground arith;
  }
  accept-ServesBy w (none ∷ rest) e = ServesBy-none w.rule w _ refl (ground arith)

  poll_accept-ServesBy :
      (w : Runner Rule Conn) (q : List (Option Conn))
      → w.unseen ≡ none
      → ServesBy w.rule w (poll_accept w q)
  unfolding poll_accept serve close
  poll_accept-ServesBy w [] e = ServesBy-none w.rule w _ refl (ground arith)
  poll_accept-ServesBy w (some c ∷ rest) e = record {
    served = c ∷ [];
    spawned_since = refl;
    still_latest = ground arith;
  }
  poll_accept-ServesBy w (none ∷ rest) e = ServesBy-none w.rule w _ refl (ground arith)

  -- The four things that a round can be.
  pub turn_cases :
      (ready : Bool) (w : Runner Rule Conn)
      → (turn ready w ≡ w)
        ⊎ (((r : Rule) × (w.unseen ≡ some r)
              × (turn ready w ≡ record w { rule = r; unseen = none }))
            ⊎ (((w.unseen ≡ none) × (turn ready w ≡ accept w w.queue))
                ⊎ (((w.unseen ≡ none) × (turn ready w ≡ poll_accept w w.queue))
                    ⊎ (turn ready w ≡ close w))))
  unfolding turn
  turn_cases ready w = elim (Bool-cases w.running) [
    | inr off ↦ inl (ground arith)
    | inl on ↦ elim (Option-cases w.unseen) [
      | inr (r, e) ↦ inr (inl (r, e, ground arith))
      | inl e ↦ elim (Bool-cases w.sender) [
        | inl open_ ↦ elim (Bool-cases ready) [
          | inl now ↦ inr (inr (inl (e, ground arith)))
          | inr waits ↦ inl (ground arith)
        ]
        | inr closed ↦ elim (Bool-cases ready) [
          | inl now ↦ inr (inr (inr (inl (e, ground arith))))
          | inr waits ↦ inr (inr (inr (inr (ground arith))))
        ]
      ]
    ]
  ]

  turn-ServesBy :
      (ready : Bool) (r : Rule) (w : Runner Rule Conn) → latest w ≡ r → ServesBy r w (turn ready w)
  turn-ServesBy ready r w l = elim (turn_cases ready w) [
    | inl same ↦ rw same (ServesBy-none r w w refl l)
    | inr (inl (x, e, switched)) ↦ rw switched (ServesBy-none r w _ refl (ground arith))
    | inr (inr (inl (e, took))) ↦
        let f : w.rule ≡ r = ground arith in rw (took, ← f) (accept-ServesBy w w.queue e)
    | inr (inr (inr (inr closes))) ↦ rw closes (unfold close in ServesBy-none r w _ refl l)
    | inr (inr (inr (inl (e, took)))) ↦
        let f : w.rule ≡ r = ground arith in rw (took, ← f) (poll_accept-ServesBy w w.queue e)
  ]

  step-ServesBy :
      (r : Rule) (w : Runner Rule Conn) (e : Event Rule Conn)
      → IsQuiet (e ∷ [])
      → latest w ≡ r
      → ServesBy r w (step w e)
  unfolding step
  step-ServesBy r w (arrives c) q l =
      unfold arrive in ServesBy-none r w _ (ground arith) (ground arith)
  step-ServesBy r w (publishes x) q l = absurd q
  step-ServesBy r w drops_sender q l = ServesBy-none r w _ refl l
  step-ServesBy r w (turns ready) q l = turn-ServesBy ready r w l

  pub run-quiet :
      (r : Rule) (w : Runner Rule Conn) (es : List (Event Rule Conn))
      → IsQuiet es
      → latest w ≡ r
      → ServesBy r w (run w es)
  unfolding run
  run-quiet r w [] q l = ServesBy-none r w w refl l
  run-quiet r w (publishes x ∷ es) q l = absurd q
  run-quiet r w (arrives c ∷ es) q l =
      let h = step-ServesBy r w (arrives c) tt l in
      ServesBy-trans r w (step w (arrives c)) _ h
        (run-quiet r (step w (arrives c)) es q h.still_latest)
  run-quiet r w (drops_sender ∷ es) q l =
      let h = step-ServesBy r w drops_sender tt l in
      ServesBy-trans r w (step w drops_sender) _ h
        (run-quiet r (step w drops_sender) es q h.still_latest)
  run-quiet r w (turns ready ∷ es) q l =
      let h = step-ServesBy r w (turns ready) tt l in
      ServesBy-trans r w (step w (turns ready)) _ h
        (run-quiet r (step w (turns ready)) es q h.still_latest)

  -- Once a rule is published to a runner, and until the next one is, every task that it spawns
  -- serves by that rule; the rounds, arrivals and the end of the channel may come in any order.
  run-publishes :
      (w : Runner Rule Conn) (r : Rule) (es : List (Event Rule Conn))
      → w.sender ≡ true
      → IsQuiet es
      → ServesBy r w (run w (publishes r ∷ es))
  unfolding run
  run-publishes w r es live q =
      let set : step w (publishes r) ≡ record w { unseen = some r } = unfold step in ground arith in
      rw set (
        ServesBy-trans r w (record w { unseen = some r }) _
          (ServesBy-none r w (record w { unseen = some r }) refl refl)
          (run-quiet r (record w { unseen = some r }) es q refl))
