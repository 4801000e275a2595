-- ===== src/EventLoop/System/Unbound.antt =====
-- A listener whose socket could not be had (turbine/src/event_loop.rs): `LBRunner::run` has returned an
-- error, and the event loop goes on.
use proxy_printer.Base.{
  ℕ, ◌≡◌, ◌≢◌, ap, ◌∙◌, inl, inr, true, [], ◌∷◌, some, arith, ◌==◌, Bool-cases, Option-cases,
}
use proxy_printer.Net.{SocketAddr}
use proxy_printer.EventLoop.Store.{lookup, contains_key, update}
use proxy_printer.EventLoop.{
  Listening, Update, retain, spawn, send_replace, configure, configure_all, reload,
}
use proxy_printer.EventLoop.Invariant.{Serves, Serves-split}
use proxy_printer.EventLoop.Reload.{lookup-configure, lookup-retained, lookup-reload}
use proxy_printer.EventLoop.System.{
  Member, waiting, unbound, System, set_member, Step, reloads, ends, binds, fails_to_bind, arrives,
  turns,
}

module _ {Rule : Type 0} where
  -- An address that is listed gets no new runner.
  configure-Serves :
      (s : Listening Rule) (entry : SocketAddr × Rule) (k : SocketAddr) (i j : ℕ)
      → lookup k s.listeners ≡ some i
      → Serves k j (configure s entry).runners
      → Serves k j s.runners
  unfolding configure spawn send_replace
  configure-Serves s (addr, config) k i j e m = elim (Option-cases (lookup addr s.listeners)) [
    | inr (n, f) ↦
        let old : Serves k j (send_replace s n config).runners = rw (f, configure) at m in old
    | inl f ↦
        let new : Serves k j (spawn s addr config).runners = rw (f, configure) at m in
        elim (Serves-split k j s.runners _ new) [
          | inl old ↦ old
          | inr (same, at_j) ↦
              let e' : lookup addr s.listeners ≡ some i = rw (← same) at e in absurd (cc)
        ]
  ]

  configure_all-Serves :
      (u : Update Rule) (s : Listening Rule) (k : SocketAddr) (i j : ℕ)
      → lookup k s.listeners ≡ some i
      → Serves k j (configure_all s u).runners
      → Serves k j s.runners
  unfolding configure_all
  configure_all-Serves [] s k i j e m = m
  configure_all-Serves (entry ∷ u) s k i j e m =
      configure-Serves s entry k i j e
        (configure_all-Serves u (configure s entry) k i j (lookup-configure s entry k i e) m)

  reload-Serves :
      (s : Listening Rule) (u : Update Rule) (k : SocketAddr) (i j : ℕ)
      → lookup k s.listeners ≡ some i
      → contains_key k u ≡ true
      → Serves k j (reload s u).runners
      → Serves k j s.runners
  unfolding reload retain
  reload-Serves s u k i j e h m =
      configure_all-Serves u (retain u s) k i j (rw (lookup-retained u k s.listeners, h) e) m

module _ {Rule Conn : Type 0} where
  -- The steps of a loop that goes on, with configurations that all have the address.
  abbrev pub Has : SocketAddr → {s t : System Rule Conn} → Step s t → Type 0
  Has k (reloads s u on) = contains_key k u ≡ true
  Has k (ends s on) = ⊥
  Has k (binds s j i l m e b) = Unit
  Has k (fails_to_bind s j i m e) = Unit
  Has k (arrives s i l c e) = Unit
  Has k (turns s i l ready e) = Unit

  pub data Configured (k : SocketAddr) (s : System Rule Conn) : System Rule Conn → Type 0 where
    starts : Configured k s s
    goes_on :
        {t u : System Rule Conn} → Configured k s t → (m : Step t u) → Has k m → Configured k s u

  -- The address stands in the map of listeners, on the channel of a runner that has ended, and has
  -- the runners only that it had before.
  pub record IsUnserved (k : SocketAddr) (i : ℕ) (s t : System Rule Conn) : Type 0 where
    pub listed : lookup k t.loop.listeners ≡ some i
    pub dead : t.members i ≡ unbound
    pub none_new : (j : ℕ) → Serves k j t.loop.runners → Serves k j s.loop.runners

  set_member-IsUnserved :
      (k : SocketAddr) (i : ℕ) (s t : System Rule Conn) (j : ℕ) (m : Member Rule Conn)
      → IsUnserved k i s t
      → t.members j ≢ unbound
      → IsUnserved k i s (set_member t j m)
  unfolding update
  set_member-IsUnserved k i s t j m h other = record {
    listed = h.listed;
    dead = elim (Bool-cases (j == i)) [
      | inl hit ↦ let same : j ≡ i = ground arith in absurd (other (ap t.members same ∙ h.dead))
      | inr miss ↦ ground (arith, h.dead)
    ];
    none_new = h.none_new;
  }

  Step-IsUnserved :
      {t u : System Rule Conn} (k : SocketAddr) (i : ℕ) (s : System Rule Conn) (m : Step t u)
      → Has k m
      → IsUnserved k i s t
      → IsUnserved k i s u
  Step-IsUnserved k i s (reloads t u on) c h = record {
    listed = lookup-reload t.loop u k i h.listed c;
    dead = h.dead;
    none_new = λ j m. h.none_new j (reload-Serves t.loop u k i j h.listed c m);
  }
  Step-IsUnserved k i s (ends t on) c h = absurd c
  Step-IsUnserved k i s (binds t k' j l m e b) c h = set_member-IsUnserved k i s t j _ h (λ f. cc)
  Step-IsUnserved k i s (fails_to_bind t k2 j m e) c h =
      set_member-IsUnserved k i s t j _ h (λ f. cc)
  Step-IsUnserved k i s (arrives t j l x e) c h = set_member-IsUnserved k i s t j _ h (λ f. cc)
  Step-IsUnserved k i s (turns t j l ready e) c h = set_member-IsUnserved k i s t j _ h (λ f. cc)

  -- When the runner of a listed address could not have its socket, then as long as the loop goes on and
  -- every configuration has the address, the address stays in the map of listeners on the channel of
  -- that runner, which has ended for good, and no runner is spawned for it, whatever else happens.
  pub fails_to_bind-IsUnserved :
      {s : System Rule Conn} (k : SocketAddr) (i : ℕ)
      → lookup k s.loop.listeners ≡ some i
      → s.members i ≡ waiting
      → {t : System Rule Conn} → Configured k (set_member s i unbound) t
      → IsUnserved k i s t
  unfolding update
  fails_to_bind-IsUnserved {s} k i listed e starts = record {
    listed = listed;
    dead = ground arith;
    none_new = λ j m. m;
  }
  fails_to_bind-IsUnserved {s} k i listed e (goes_on q m c) =
      Step-IsUnserved k i s m c (fails_to_bind-IsUnserved k i listed e q)
