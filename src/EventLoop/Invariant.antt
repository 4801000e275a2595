-- ===== src/EventLoop/Invariant.antt =====
-- What holds of the listeners between two configurations (turbine/src/event_loop.rs): every entry has
-- a channel of its own, with its sender, and a runner on it.
use proxy_printer.Base.{
  ℕ, ◌+◌, ◌<◌, ◌≡◌, refl, sym, ◌∙◌, ◌⊎◌, inl, inr, true, false, List, [], ◌∷◌, ◌++◌, arith,
  Bool-cases, Option-cases,
}
use proxy_printer.Net.{SocketAddr}
use proxy_printer.EventLoop.Store.{lookup, contains_key, In}
use proxy_printer.EventLoop.{
  Channel, LbRunner, Listening, Update, start, drop_sender, retained, drop_others, retain, spawn,
  send_replace, configure, configure_all, reload, stop,
}

-- Some runner serves the address with the channel.
abbrev pub Serves : SocketAddr → ℕ → List LbRunner → Type 0
Serves k i [] = ⊥
Serves k i (r ∷ rs) = ((r.listen_addr ≡ k) × (r.config_rx ≡ i)) ⊎ Serves k i rs

Serves-append :
    (k : SocketAddr) (i : ℕ) (rs ts : List LbRunner)
    → Serves k i rs ⊎ Serves k i ts
    → Serves k i (rs ++ ts)
Serves-append k i [] ts (inl h) = absurd h
Serves-append k i [] ts (inr h) = h
Serves-append k i (r ∷ rs) ts (inl (inl h)) = inl h
Serves-append k i (r ∷ rs) ts (inl (inr h)) = inr (Serves-append k i rs ts (inl h))
Serves-append k i (r ∷ rs) ts (inr h) = inr (Serves-append k i rs ts (inr h))

pub Serves-split :
    (k : SocketAddr) (i : ℕ) (rs : List LbRunner) (r : LbRunner)
    → Serves k i (rs ++ r ∷ [])
    → Serves k i rs ⊎ ((r.listen_addr ≡ k) × (r.config_rx ≡ i))
Serves-split k i [] r (inl h) = inr h
Serves-split k i [] r (inr h) = absurd h
Serves-split k i (x ∷ rs) r (inl h) = inl (inl h)
Serves-split k i (x ∷ rs) r (inr h) = elim (Serves-split k i rs r h) [
  | inl old ↦ inl (inr old)
  | inr new ↦ inr new
]

pub record IsConsistent {Rule : Type 0} (s : Listening Rule) : Type 0 where
  pub below : (k : SocketAddr) (i : ℕ) → In k i s.listeners → i < s.next_channel
  pub apart : (k j : SocketAddr) (i : ℕ) → In k i s.listeners → In j i s.listeners → k ≡ j
  pub alive : (k : SocketAddr) (i : ℕ) → In k i s.listeners → (s.channels i).sender ≡ true
  pub served : (k : SocketAddr) (i : ℕ) → In k i s.listeners → Serves k i s.runners

module _ {Rule : Type 0} where
  pub start-IsConsistent : IsConsistent {Rule = Rule} start
  unfolding start
  start-IsConsistent = record {
    below = λ k i m. absurd m;
    apart = λ k j i m n. absurd m;
    alive = λ k i m. absurd m;
    served = λ k i m. absurd m;
  }

  -- An entry that stays was there, and the update has its address.
  In-retained :
      (u : Update Rule) (k : SocketAddr) (i : ℕ) (ls : List (SocketAddr × ℕ))
      → In k i (retained u ls)
      → In k i ls × (contains_key k u ≡ true)
  unfolding retained
  In-retained u k i [] m = absurd m
  In-retained u k i ((j, n) ∷ ls) m = elim (Bool-cases (contains_key j u)) [
    | inl h ↦ elim (keep h m) [
      | inl (e, f) ↦ (inl (e, f), rw (← e) h)
      | inr m' ↦ let (m'', c) = In-retained u k i ls m' in (inr m'', c)
    ]
    | inr h ↦ let (m'', c) = In-retained u k i ls (drop h m) in (inr m'', c)
  ]
    where
      keep :
          contains_key j u ≡ true
          → In k i (retained u ((j, n) ∷ ls))
          → ((j ≡ k) × (n ≡ i)) ⊎ In k i (retained u ls)
      keep h m = rw (h, retained) at m

      drop : contains_key j u ≡ false → In k i (retained u ((j, n) ∷ ls)) → In k i (retained u ls)
      drop h m = rw (h, retained) at m

  -- A channel loses its sender only if an entry that goes has it.
  drop_others-sender :
      (u : Update Rule) (ls : List (SocketAddr × ℕ)) (chans : ℕ → Channel Rule) (i : ℕ)
      → (chans i).sender ≡ true
      → ((k : SocketAddr) → In k i ls → contains_key k u ≡ true)
      → (drop_others u ls chans i).sender ≡ true
  unfolding drop_others drop_sender
  drop_others-sender u [] chans i h kept = h
  drop_others-sender u ((k, n) ∷ ls) chans i h kept =
      drop_others-sender u ls _ i (ground (arith, kept k)) (λ j m. kept j (inr m))

  pub drop_others-closed :
      (u : Update Rule) (ls : List (SocketAddr × ℕ)) (chans : ℕ → Channel Rule) (i : ℕ)
      → (chans i).sender ≡ false
      → (drop_others u ls chans i).sender ≡ false
  unfolding drop_others drop_sender
  drop_others-closed u [] chans i h = h
  drop_others-closed u ((k, n) ∷ ls) chans i h = drop_others-closed u ls _ i (ground arith)

  -- It does, and keeps what it holds.
  pub drop_others-dropped :
      (u : Update Rule) (ls : List (SocketAddr × ℕ)) (chans : ℕ → Channel Rule) (k : SocketAddr)
      (i : ℕ)
      → In k i ls
      → contains_key k u ≡ false
      → (drop_others u ls chans i).sender ≡ false
  unfolding drop_others drop_sender
  drop_others-dropped u [] chans k i m h = absurd m
  drop_others-dropped u ((j, n) ∷ ls) chans k i (inl (e, f)) h =
      drop_others-closed u ls _ i (let c : contains_key j u ≡ false = rw e h in ground arith)
  drop_others-dropped u ((j, n) ∷ ls) chans k i (inr m) h = drop_others-dropped u ls _ k i m h

  pub drop_others-value :
      (u : Update Rule) (ls : List (SocketAddr × ℕ)) (chans : ℕ → Channel Rule) (i : ℕ)
      → (drop_others u ls chans i).value ≡ (chans i).value
  unfolding drop_others drop_sender
  drop_others-value u [] chans i = refl
  drop_others-value u ((k, n) ∷ ls) chans i = drop_others-value u ls _ i ∙ ground arith

module _ {Rule : Type 0} where
  pub retain-IsConsistent :
      (u : Update Rule) (s : Listening Rule) → IsConsistent s → IsConsistent (retain u s)
  unfolding retain
  retain-IsConsistent u s c = record {
    below = λ k i m. c.below k i (In-retained u k i s.listeners m).0;
    apart = λ k j i m n.
        c.apart k j i (In-retained u k i s.listeners m).0 (In-retained u j i s.listeners n).0;
    alive = λ k i m.
        let (m', h) = In-retained u k i s.listeners m in
        drop_others-sender u s.listeners s.channels i (c.alive k i m')
          (λ j n. rw (c.apart j k i n m') h);
    served = λ k i m. c.served k i (In-retained u k i s.listeners m).0;
  }

  module _ (s : Listening Rule) (c : IsConsistent s) (addr : SocketAddr) (config : Rule) where
    -- The new channel's number is not in use.
    fresh : (k : SocketAddr) → In k s.next_channel s.listeners → ⊥
    fresh k m = omega (arith, c.below k s.next_channel m)

    abbrev new_runner : LbRunner
    new_runner = record { listen_addr = addr; config_rx = s.next_channel }

    spawn-below :
        (k : SocketAddr) (i : ℕ) → In k i (spawn s addr config).listeners → i < s.next_channel + 1
    unfolding spawn
    spawn-below k i (inl (e, f)) = omega arith
    spawn-below k i (inr m) = omega (arith, c.below k i m)

    spawn-apart :
        (k j : SocketAddr) (i : ℕ)
        → In k i (spawn s addr config).listeners
        → In j i (spawn s addr config).listeners
        → k ≡ j
    unfolding spawn
    spawn-apart k j i (inl (e, f)) (inl (e', f')) = sym e ∙ e'
    spawn-apart k j i (inl (e, f)) (inr n) = absurd (fresh j (rw f n))
    spawn-apart k j i (inr m) (inl (e, f)) = absurd (fresh k (rw f m))
    spawn-apart k j i (inr m) (inr n) = c.apart k j i m n

    spawn-alive :
        (k : SocketAddr) (i : ℕ)
        → In k i (spawn s addr config).listeners
        → ((spawn s addr config).channels i).sender ≡ true
    unfolding spawn
    spawn-alive k i (inl (e, f)) = ground arith
    spawn-alive k i (inr m) = ground (arith, c.alive k i m)

    spawn-served :
        (k : SocketAddr) (i : ℕ)
        → In k i (spawn s addr config).listeners
        → Serves k i (spawn s addr config).runners
    unfolding spawn
    spawn-served k i (inl h) = Serves-append k i s.runners (new_runner ∷ []) (inr (inl h))
    spawn-served k i (inr m) = Serves-append k i s.runners (new_runner ∷ []) (inl (c.served k i m))

    spawn-IsConsistent : IsConsistent (spawn s addr config)
    spawn-IsConsistent = record {
      below = λ k i m. unfold spawn in spawn-below k i m;
      apart = spawn-apart;
      alive = spawn-alive;
      served = spawn-served;
    }

    send_replace-IsConsistent : (i : ℕ) → IsConsistent (send_replace s i config)
    unfolding send_replace
    send_replace-IsConsistent i = record {
      below = c.below;
      apart = c.apart;
      alive = λ k j m. ground (arith, c.alive k j m, c.alive k i);
      served = c.served;
    }

  pub configure-IsConsistent :
      (s : Listening Rule) (entry : SocketAddr × Rule)
      → IsConsistent s
      → IsConsistent (configure s entry)
  unfolding configure
  configure-IsConsistent s (addr, config) c = elim (Option-cases (lookup addr s.listeners)) [
    | inl e ↦ rw (e, configure) (spawn-IsConsistent s c addr config)
    | inr (i, e) ↦ rw (e, configure) (send_replace-IsConsistent s c addr config i)
  ]

  pub configure_all-IsConsistent :
      (u : Update Rule) (s : Listening Rule) → IsConsistent s → IsConsistent (configure_all s u)
  unfolding configure_all
  configure_all-IsConsistent [] s c = c
  configure_all-IsConsistent (entry ∷ u) s c =
      configure_all-IsConsistent u (configure s entry) (configure-IsConsistent s entry c)

  -- Every configuration keeps the listeners consistent: no channel is shared by two addresses, each
  -- entry's channel has its sender, and a spawned runner serves each entry's address on its channel.
  pub reload-IsConsistent :
      (s : Listening Rule) (u : Update Rule) → IsConsistent s → IsConsistent (reload s u)
  unfolding reload
  reload-IsConsistent s u c = configure_all-IsConsistent u (retain u s) (retain-IsConsistent u s c)

  -- The runners stay.
  Serves-configure :
      (s : Listening Rule) (entry : SocketAddr × Rule) (k : SocketAddr) (i : ℕ)
      → Serves k i s.runners
      → Serves k i (configure s entry).runners
  unfolding configure spawn send_replace
  Serves-configure s (addr, config) k i m = elim (Option-cases (lookup addr s.listeners)) [
    | inl e ↦ rw (e, configure) (Serves-append k i s.runners _ (inl m))
    | inr (n, e) ↦ rw (e, configure) m
  ]

  Serves-configure_all :
      (u : Update Rule) (s : Listening Rule) (k : SocketAddr) (i : ℕ)
      → Serves k i s.runners
      → Serves k i (configure_all s u).runners
  unfolding configure_all
  Serves-configure_all [] s k i m = m
  Serves-configure_all (entry ∷ u) s k i m =
      Serves-configure_all u (configure s entry) k i (Serves-configure s entry k i m)

  pub Serves-reload :
      (s : Listening Rule) (u : Update Rule) (k : SocketAddr) (i : ℕ)
      → Serves k i s.runners
      → Serves k i (reload s u).runners
  unfolding reload retain
  Serves-reload s u k i m = Serves-configure_all u (retain u s) k i m

  pub stop-IsConsistent : (s : Listening Rule) → IsConsistent (stop s)
  unfolding stop
  stop-IsConsistent s = record {
    below = λ k i m. absurd m;
    apart = λ k j i m n. absurd m;
    alive = λ k i m. absurd m;
    served = λ k i m. absurd m;
  }
