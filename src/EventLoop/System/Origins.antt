-- ===== src/EventLoop/System/Origins.antt =====
-- Where the rules come from that connections are served by (turbine/src/event_loop.rs).
use proxy_printer.Base.{
  ℕ, ◌≡◌, refl, sym, ◌∙◌, ◌⊎◌, inl, inr, List, [], ◌∷◌, some, arith, ◌==◌, Bool-cases, Option-cases,
}
use proxy_printer.Net.{SocketAddr}
use proxy_printer.EventLoop.Store.{lookup, update, In-lookup}
use proxy_printer.EventLoop.{
  Listening, Update, start, retain, spawn, send_replace, configure, configure_all, reload, stop,
}
use proxy_printer.EventLoop.Invariant.{
  Serves, Serves-split, IsConsistent, retain-IsConsistent, configure-IsConsistent,
  drop_others-value,
}
use proxy_printer.EventLoop.Runners.{IsAccounted, retain-IsAccounted, configure-IsAccounted}

-- The update, or one of the updates, gives the address the rule.
module _ {Rule : Type 0} where
  abbrev pub Gives : SocketAddr → Rule → Update Rule → Type 0
  Gives k r [] = ⊥
  Gives k r ((j, x) ∷ u) = ((j ≡ k) × (x ≡ r)) ⊎ Gives k r u

  abbrev pub IsGiven : SocketAddr → Rule → List (Update Rule) → Type 0
  IsGiven k r [] = ⊥
  IsGiven k r (u ∷ us) = Gives k r u ⊎ IsGiven k r us

  -- A runner's channel is its own, and has a rule that was given to its address.
  pub record Origin (us : List (Update Rule)) (s : Listening Rule) : Type 0 where
    pub own : (k j : SocketAddr) (i : ℕ) → Serves k i s.runners → Serves j i s.runners → k ≡ j
    pub given :
        (k : SocketAddr) (i : ℕ) (r : Rule)
        → Serves k i s.runners
        → (s.channels i).value ≡ some r
        → IsGiven k r us

  retain-Origin :
      (us : List (Update Rule)) (u : Update Rule) (s : Listening Rule)
      → Origin us s
      → Origin us (retain u s)
  unfolding retain
  retain-Origin us u s o = record {
    own = o.own;
    given = λ k i r m e. o.given k i r m (sym (drop_others-value u s.listeners s.channels i) ∙ e);
  }

  pub stop-Origin :
      (us : List (Update Rule)) (s : Listening Rule) → Origin us s → Origin us (stop s)
  unfolding stop
  stop-Origin us s o = record {
    own = o.own;
    given = λ k i r m e. o.given k i r m (sym (drop_others-value [] s.listeners s.channels i) ∙ e);
  }

  module _ (us : List (Update Rule)) (s : Listening Rule) (addr : SocketAddr) (config : Rule)
      (g : IsGiven addr config us) (a : IsAccounted s) (o : Origin us s) where
    spawn-Origin : Origin us (spawn s addr config)
    unfolding spawn update
    spawn-Origin = record {
      own = λ k j i m n. elim (Serves-split k i s.runners _ m) [
        | inl old ↦ elim (Serves-split j i s.runners _ n) [
          | inl old' ↦ o.own k j i old old'
          | inr new ↦ absurd (omega (arith, a.numbered k i old, new.1))
        ]
        | inr new ↦ elim (Serves-split j i s.runners _ n) [
          | inl old ↦ absurd (omega (arith, a.numbered j i old, new.1))
          | inr new' ↦ sym new.0 ∙ new'.0
        ]
      ];
      given = λ k i r m e. elim (Serves-split k i s.runners _ m) [
        | inl old ↦ o.given k i r old (ground (arith, a.numbered k i old))
        | inr new ↦
            let same : config ≡ r = ground arith in
            let at_k : addr ≡ k = new.0 in rw (same, at_k) at g
      ];
    }

    send_replace-Origin : (n : ℕ) → Serves addr n s.runners → Origin us (send_replace s n config)
    unfolding send_replace update
    send_replace-Origin n m0 = record {
      own = o.own;
      given = λ k i r m e. elim (Bool-cases (n == i)) [
        | inl hit ↦
            let at_i : n ≡ i = ground arith in
            let same : config ≡ r = ground arith in
            let at_k : addr ≡ k = o.own addr k i (rw at_i at m0) m in rw (same, at_k) at g
        | inr miss ↦ o.given k i r m (ground arith)
      ];
    }

  Origin-next :
      (u : Update Rule) (us : List (Update Rule)) (s : Listening Rule)
      → Origin us s
      → Origin (u ∷ us) s
  Origin-next u us s o = record { own = o.own; given = λ k i r m e. inr (o.given k i r m e) }

  configure-Origin :
      (us : List (Update Rule)) (s : Listening Rule) (addr : SocketAddr) (config : Rule)
      → IsGiven addr config us
      → IsConsistent s
      → IsAccounted s
      → Origin us s
      → Origin us (configure s (addr, config))
  unfolding configure
  configure-Origin us s addr config g c a o = elim (Option-cases (lookup addr s.listeners)) [
    | inl e ↦ rw (e, configure) (spawn-Origin us s addr config g a o)
    | inr (n, e) ↦
        rw (e, configure)
          (send_replace-Origin us s addr config g a o n
            (c.served addr n (In-lookup addr n s.listeners e)))
  ]

  -- Those of its entries that are still to be configured are given by it.
  configure_all-Origin :
      (us : List (Update Rule)) (w : Update Rule) (s : Listening Rule)
      → ((k : SocketAddr) (r : Rule) → Gives k r w → IsGiven k r us)
      → IsConsistent s
      → IsAccounted s
      → Origin us s
      → Origin us (configure_all s w)
  unfolding configure_all
  configure_all-Origin us [] s g c a o = o
  configure_all-Origin us ((addr, config) ∷ w) s g c a o =
      configure_all-Origin us w (configure s (addr, config)) (λ k r h. g k r (inr h))
        (configure-IsConsistent s (addr, config) c) (configure-IsAccounted s (addr, config) a)
        (configure-Origin us s addr config (g addr config (inl (refl, refl))) c a o)

  pub reload-Origin :
      (us : List (Update Rule)) (s : Listening Rule) (u : Update Rule)
      → IsConsistent s
      → IsAccounted s
      → Origin us s
      → Origin (u ∷ us) (reload s u)
  unfolding reload
  reload-Origin us s u c a o =
      configure_all-Origin (u ∷ us) u (retain u s) (λ k r h. inl h) (retain-IsConsistent u s c)
        (retain-IsAccounted u s a) (Origin-next u us (retain u s) (retain-Origin us u s o))

  pub start-Origin : Origin [] start
  unfolding start
  start-Origin = record { own = λ k j i m n. absurd m; given = λ k i r m e. absurd m }
