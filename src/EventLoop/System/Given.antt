-- ===== src/EventLoop/System/Given.antt =====
-- Which rules the tasks of the whole are spawned with (turbine/src/event_loop.rs): those that the
-- configurations gave to the address of their listener.
use proxy_printer.Base.{
  Bool, ℕ, ◌≡◌, ◌⊎◌, inl, inr, true, List, [], ◌∷◌, ◌++◌, Option, some, none, arith, ◌==◌, All,
  Bool-cases, Option-cases,
}
use proxy_printer.Net.{SocketAddr}
use proxy_printer.EventLoop.Store.{update}
use proxy_printer.EventLoop.{Channel, Update, start, reload, stop}
use proxy_printer.EventLoop.Invariant.{Serves, Serves-reload}
use proxy_printer.EventLoop.Runner.{Runner, serve, accept, close, poll_accept, turn, latest}
use proxy_printer.EventLoop.System.{
  Listener, Member, unbound, bound, System, begin, view, turn_listener, arrive_listener, set_member,
  Step, reloads, ends, binds, fails_to_bind, arrives, turns, initial, Reach, here, next,
}
use proxy_printer.EventLoop.System.Invariant.{Sound-latest, Inv, Reach-Inv}
use proxy_printer.EventLoop.System.Origins.{
  IsGiven, Origin, start-Origin, reload-Origin, stop-Origin,
}

module _ {Rule Conn : Type 0} where
  -- Its rule, and those that it has spawned tasks with, have the property.
  pub record Uses (P : Rule → Type 0) (rule : Rule) (spawned : List (Rule × Conn)) : Type 0 where
    pub by_rule : P rule
    pub by_tasks : All (λ task. P task.0) spawned

  turn-cases :
      (ready : Bool) (w : Runner Rule Conn)
      → (turn ready w ≡ w)
        ⊎ ((r : Rule) × (turn ready w ≡ record w { rule = r; unseen = none }) × (r ≡ latest w))
        ⊎ (turn ready w ≡ accept w w.queue)
        ⊎ (turn ready w ≡ poll_accept w w.queue)
        ⊎ (turn ready w ≡ close w)
  unfolding turn
  turn-cases ready w = elim (Bool-cases w.running) [
    | inr off ↦ inl (ground arith)
    | inl on ↦ elim (Option-cases w.unseen) [
      | inr (r, e) ↦ inr (inl (r, ground arith, ground arith))
      | inl e ↦ elim (Bool-cases w.sender) [
        | inl kept ↦ elim (Bool-cases ready) [
          | inl now ↦ inr (inr (inl (ground arith)))
          | inr waits ↦ inl (ground arith)
        ]
        | inr closed ↦ elim (Bool-cases ready) [
          | inl now ↦ inr (inr (inr (inl (ground arith))))
          | inr waits ↦ inr (inr (inr (inr (ground arith))))
        ]
      ]
    ]
  ]

  module _ (P : Rule → Type 0) where
    All-snoc :
        (spawned : List (Rule × Conn)) (task : Rule × Conn)
        → All (λ t. P t.0) spawned
        → P task.0
        → All (λ t. P t.0) (spawned ++ task ∷ [])
    All-snoc [] task h p = (p, tt)
    All-snoc (t ∷ ts) task (h, hs) p = (h, All-snoc ts task hs p)

    accept-Uses :
        (w : Runner Rule Conn) (q : List (Option Conn))
        → Uses P w.rule w.spawned
        → Uses P (accept w q).rule (accept w q).spawned
    unfolding accept serve
    accept-Uses w [] h = h
    accept-Uses w (some c ∷ q) h = record {
      by_rule = h.by_rule;
      by_tasks = All-snoc w.spawned _ h.by_tasks h.by_rule;
    }
    accept-Uses w (none ∷ q) h = h

    close-Uses :
        (w : Runner Rule Conn) → Uses P w.rule w.spawned → Uses P (close w).rule (close w).spawned
    unfolding close
    close-Uses w h = h

    poll_accept-Uses :
        (w : Runner Rule Conn) (q : List (Option Conn))
        → Uses P w.rule w.spawned
        → Uses P (poll_accept w q).rule (poll_accept w q).spawned
    unfolding poll_accept serve
    poll_accept-Uses w [] h = close-Uses w h
    poll_accept-Uses w (some c ∷ q) h = record {
      by_rule = h.by_rule;
      by_tasks = All-snoc w.spawned _ h.by_tasks h.by_rule;
    }
    poll_accept-Uses w (none ∷ q) h = close-Uses w h

    -- What the receiver sees is taken first.
    turn-Uses :
        (ready : Bool) (w : Runner Rule Conn)
        → P (latest w)
        → Uses P w.rule w.spawned
        → Uses P (turn ready w).rule (turn ready w).spawned
    turn-Uses ready w p h = elim (turn-cases ready w) [
      | inl same ↦ rw same h
      | inr (inl (r, seen, at_r)) ↦ rw seen (record { by_rule = rw at_r p; by_tasks = h.by_tasks })
      | inr (inr (inl accepts)) ↦ rw accepts (accept-Uses w w.queue h)
      | inr (inr (inr (inl drains))) ↦ rw drains (poll_accept-Uses w w.queue h)
      | inr (inr (inr (inr closes))) ↦ rw closes (close-Uses w h)
    ]

  -- A bound listener serves its address by rules that configurations gave to it.
  pub record Given (s : System Rule Conn) : Type 0 where
    pub origin : Origin s.updates s.loop
    pub uses :
        (i : ℕ) (l : Listener Rule Conn) (k : SocketAddr)
        → s.members i ≡ bound l
        → Serves k i s.loop.runners
        → Uses (λ r. IsGiven k r s.updates) l.rule l.spawned

  set_member-Given :
      (s : System Rule Conn) (j : ℕ) (m : Member Rule Conn)
      → Given s
      → ((l : Listener Rule Conn) (k : SocketAddr)
          → m ≡ bound l
          → Serves k j s.loop.runners
          → Uses (λ r. IsGiven k r s.updates) l.rule l.spawned)
      → Given (set_member s j m)
  unfolding update
  set_member-Given s j m g new = record {
    origin = g.origin;
    uses = λ i l k e serves. elim (Bool-cases (j == i)) [
      | inl hit ↦ let same : j ≡ i = ground arith in new l k (ground arith) (rw same serves)
      | inr miss ↦ g.uses i l k (ground arith) serves
    ];
  }

  All-IsGiven :
      (k : SocketAddr) (u : Update Rule) (us : List (Update Rule)) (tasks : List (Rule × Conn))
      → All (λ t. IsGiven k t.0 us) tasks
      → All (λ t. IsGiven k t.0 (u ∷ us)) tasks
  All-IsGiven k u us [] h = tt
  All-IsGiven k u us (t ∷ ts) (h, hs) = (inr h, All-IsGiven k u us ts hs)

  reloads-Given :
      (s : System Rule Conn) (u : Update Rule)
      → Inv s
      → Given s
      → Given (record s { loop = reload s.loop u; updates = u ∷ s.updates })
  reloads-Given s u v g =
      let o = reload-Origin s.updates s.loop u v.consistent v.accounted g.origin in
      record {
        origin = o;
        uses = λ i l k e serves.
            let (j, old) = v.served i l e in
            let same : j ≡ k = o.own j k i (Serves-reload s.loop u j i old) serves in
            let h = g.uses i l k e (rw same at old) in
            record { by_rule = inr h.by_rule; by_tasks = All-IsGiven k u s.updates _ h.by_tasks };
      }

  ends-Given :
      (s : System Rule Conn) → Given s → Given (record s { loop = stop s.loop; ended = true })
  unfolding stop
  ends-Given s g = record {
    origin = unfold stop in stop-Origin s.updates s.loop g.origin;
    uses = g.uses;
  }

  begin-value :
      (c : Channel Rule) (l : Listener Rule Conn)
      → begin c ≡ some l
      → (c.value ≡ some l.rule) × (l.spawned ≡ [])
  unfolding begin
  begin-value c l b = elim (Option-cases c.value) [
    | inl e ↦ absurd (ground arith)
    | inr (r, e) ↦ (ground arith, ground arith)
  ]

  binds-Given :
      (s : System Rule Conn) (i : ℕ) (l : Listener Rule Conn) (k : SocketAddr)
      → Given s
      → begin (s.loop.channels i) ≡ some l
      → Serves k i s.loop.runners
      → Uses (λ r. IsGiven k r s.updates) l.rule l.spawned
  binds-Given s i l k g b serves =
      let (value, nothing) = begin-value (s.loop.channels i) l b in
      record { by_rule = g.origin.given k i l.rule serves value; by_tasks = rw nothing tt }

  turn_listener-Uses :
      (ready : Bool) (s : System Rule Conn) (i : ℕ) (l : Listener Rule Conn) (k : SocketAddr)
      → Inv s
      → Given s
      → s.members i ≡ bound l
      → Serves k i s.loop.runners
      → Uses
          (λ r. IsGiven k r s.updates)
          (turn_listener ready (s.loop.channels i) l).rule
          (turn_listener ready (s.loop.channels i) l).spawned
  unfolding turn_listener
  turn_listener-Uses ready s i l k v g e serves =
      turn-Uses (λ r. IsGiven k r s.updates) ready (view (s.loop.channels i) l)
        (g.origin.given k i _ serves (Sound-latest (s.loop.channels i) l (v.sound i l e)))
        (g.uses i l k e serves)

  arrive-Uses :
      (s : System Rule Conn) (i : ℕ) (l : Listener Rule Conn) (k : SocketAddr) (c : Option Conn)
      → Uses (λ r. IsGiven k r s.updates) l.rule l.spawned
      → Uses (λ r. IsGiven k r s.updates) (arrive_listener l c).rule (arrive_listener l c).spawned
  unfolding arrive_listener
  arrive-Uses s i l k c h = elim (Bool-cases l.running) [
    | inl on ↦ rw (on, arrive_listener) h
    | inr off ↦ rw (off, arrive_listener) h
  ]

  initial-Given : Given initial
  unfolding start
  initial-Given = record {
    origin = unfold start in start-Origin;
    uses = λ i l k e serves. absurd serves;
  }

  Step-Given : {s t : System Rule Conn} → Step s t → Inv s → Given s → Given t
  Step-Given (reloads s u on) v g = reloads-Given s u v g
  Step-Given (ends s on) v g = ends-Given s g
  Step-Given (binds s k i l m e b) v g =
      set_member-Given s i (bound l) g
        λ l' j f serves. let same : l ≡ l' = cc in rw (← same) (binds-Given s i l j g b serves)
  Step-Given (fails_to_bind s j i m e) v g = set_member-Given s i unbound g λ l j f serves. cc
  Step-Given (arrives s i l c e) v g = set_member-Given s i _ g λ l' j f serves.
      let same : arrive_listener l c ≡ l' = cc in
      rw (← same) (arrive-Uses s i l j c (g.uses i l j e serves))
  Step-Given (turns s i l ready e) v g = set_member-Given s i _ g λ l' j f serves.
      let same : turn_listener ready (s.loop.channels i) l ≡ l' = cc in
      rw (← same) (turn_listener-Uses ready s i l j v g e serves)

  -- In every reachable state, the channel of a runner belongs to one address only, its rule was given
  -- to that address by some configuration so far, and so were the rule of the bound listener of the
  -- channel and the rules of all tasks that it has spawned.
  pub Reach-Given : {s : System Rule Conn} → Reach initial s → Given s
  Reach-Given here = initial-Given
  Reach-Given (next r m) = Step-Given m (Reach-Inv r) (Reach-Given r)
