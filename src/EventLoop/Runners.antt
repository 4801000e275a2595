-- ===== src/EventLoop/Runners.antt =====
-- The spawned listener tasks (turbine/src/event_loop.rs): each one serves an address of the current
-- configuration, or its sender is gone and it is about to stop.
use proxy_printer.Base.{
  ℕ, ◌<◌, ◌≡◌, refl, ◌⊎◌, inl, inr, false, List, [], ◌∷◌, arith, Bool-cases, Option-cases,
}
use proxy_printer.Net.{SocketAddr}
use proxy_printer.EventLoop.Store.{lookup, contains_key, In}
use proxy_printer.EventLoop.{
  Listening, Update, Signal, shutdown, config_change, config_closed, start, retained, retain, spawn,
  send_replace, configure, configure_all, reload, stop, listen_config_change,
}
use proxy_printer.EventLoop.Invariant.{
  Serves, Serves-split, drop_others-dropped, drop_others-closed,
}

module _ {Rule : Type 0} where
  pub record IsAccounted (s : Listening Rule) : Type 0 where
    pub numbered : (k : SocketAddr) (i : ℕ) → Serves k i s.runners → i < s.next_channel
    pub listed_or_told :
        (k : SocketAddr) (i : ℕ)
        → Serves k i s.runners
        → In k i s.listeners ⊎ ((s.channels i).sender ≡ false)

  In-split :
      (u : Update Rule) (k : SocketAddr) (i : ℕ) (ls : List (SocketAddr × ℕ))
      → In k i ls
      → In k i (retained u ls) ⊎ (contains_key k u ≡ false)
  unfolding retained
  In-split u k i [] m = absurd m
  In-split u k i ((j, n) ∷ ls) (inl (e, f)) = elim (Bool-cases (contains_key j u)) [
    | inl h ↦ inl (rw (h, retained) (inl (e, f)))
    | inr h ↦ inr (rw (← e) h)
  ]
  In-split u k i ((j, n) ∷ ls) (inr m) = elim (In-split u k i ls m) [
    | inl kept ↦ inl (elim (Bool-cases (contains_key j u)) [
      | inl h ↦ rw (h, retained) (inr kept)
      | inr h ↦ rw (h, retained) kept
    ])
    | inr gone ↦ inr gone
  ]

  pub retain-IsAccounted :
      (u : Update Rule) (s : Listening Rule) → IsAccounted s → IsAccounted (retain u s)
  unfolding retain
  retain-IsAccounted u s c = record {
    numbered = c.numbered;
    listed_or_told = λ k i m. elim (c.listed_or_told k i m) [
      | inl here ↦ elim (In-split u k i s.listeners here) [
        | inl kept ↦ inl kept
        | inr gone ↦ inr (drop_others-dropped u s.listeners s.channels k i here gone)
      ]
      | inr told ↦ inr (drop_others-closed u s.listeners s.channels i told)
    ];
  }

  module _ (s : Listening Rule) (addr : SocketAddr) (config : Rule) (c : IsAccounted s) where
    spawn-IsAccounted : IsAccounted (spawn s addr config)
    unfolding spawn
    spawn-IsAccounted = record {
      numbered = λ k i m. elim (Serves-split k i s.runners _ m) [
        | inl old ↦ omega (arith, c.numbered k i old)
        | inr new ↦ omega (arith, new.1)
      ];
      listed_or_told = λ k i m. elim (Serves-split k i s.runners _ m) [
        | inl old ↦ elim (c.listed_or_told k i old) [
          | inl here ↦ inl (inr here)
          | inr told ↦ inr (ground (arith, c.numbered k i old))
        ]
        | inr new ↦ inl (inl new)
      ];
    }

    send_replace-IsAccounted : (n : ℕ) → IsAccounted (send_replace s n config)
    unfolding send_replace
    send_replace-IsAccounted n = record {
      numbered = c.numbered;
      listed_or_told = λ k i m. elim (c.listed_or_told k i m) [
        | inl here ↦ inl here
        | inr told ↦ inr (ground arith)
      ];
    }

  pub configure-IsAccounted :
      (s : Listening Rule) (entry : SocketAddr × Rule)
      → IsAccounted s
      → IsAccounted (configure s entry)
  unfolding configure
  configure-IsAccounted s (addr, config) c = elim (Option-cases (lookup addr s.listeners)) [
    | inl e ↦ rw (e, configure) (spawn-IsAccounted s addr config c)
    | inr (i, e) ↦ rw (e, configure) (send_replace-IsAccounted s addr config c i)
  ]

  configure_all-IsAccounted :
      (u : Update Rule) (s : Listening Rule) → IsAccounted s → IsAccounted (configure_all s u)
  unfolding configure_all
  configure_all-IsAccounted [] s c = c
  configure_all-IsAccounted (entry ∷ u) s c =
      configure_all-IsAccounted u (configure s entry) (configure-IsAccounted s entry c)

  pub start-IsAccounted : IsAccounted start
  unfolding start
  start-IsAccounted = record { numbered = λ k i m. absurd m; listed_or_told = λ k i m. absurd m }

  pub reload-IsAccounted :
      (u : Update Rule) (s : Listening Rule) → IsAccounted s → IsAccounted (reload s u)
  unfolding reload
  reload-IsAccounted u s c = configure_all-IsAccounted u (retain u s) (retain-IsAccounted u s c)

  pub stop-IsAccounted : (s : Listening Rule) → IsAccounted s → IsAccounted (stop s)
  unfolding stop contains_key lookup
  stop-IsAccounted s c = record {
    numbered = c.numbered;
    listed_or_told = λ k i m. elim (c.listed_or_told k i m) [
      | inl here ↦ inr (drop_others-dropped [] s.listeners s.channels k i here refl)
      | inr told ↦ inr (drop_others-closed [] s.listeners s.channels i told)
    ];
  }

  listen-IsAccounted :
      (s : Listening Rule) (signals : List (Signal Rule))
      → IsAccounted s
      → IsAccounted (listen_config_change s signals)
  unfolding listen_config_change
  listen-IsAccounted s [] c = c
  listen-IsAccounted s (shutdown ∷ rest) c = stop-IsAccounted s c
  listen-IsAccounted s (config_closed ∷ rest) c = stop-IsAccounted s c
  listen-IsAccounted s (config_change u ∷ rest) c =
      listen-IsAccounted (reload s u) rest (reload-IsAccounted u s c)

  -- At any time, every spawned runner either stands in the map of listeners with its address and
  -- channel, or the sender of its channel has been dropped, which tells it to stop. None is leaked,
  -- whatever configurations came, and also once the loop has ended.
  pub listen_config_change-IsAccounted :
      (signals : List (Signal Rule)) → IsAccounted (listen_config_change start signals)
  listen_config_change-IsAccounted signals = listen-IsAccounted start signals start-IsAccounted
