-- ===== src/EventLoop.antt =====
-- turbine/src/event_loop.rs, `LBAppContext::listen_config_change`: the listeners that follow the
-- configuration. A rule is any type here. The watch channels live in a store, since a channel is
-- shared by the sender in the map and the receiver of its runner.
pub mod Store
pub mod Invariant
pub mod Reload
pub mod Received
pub mod Runners
pub mod Runner
pub mod Tasks
pub mod System
mod Tests
use proxy_printer.Base.{
  ℕ, ◌+◌, Bool, true, false, List, [], ◌∷◌, ◌++◌, Option, some, none, ◌==◌, if◌then◌else◌,
}
use proxy_printer.Net.{SocketAddr, addr_eq}
use Store.{lookup, contains_key, update}

-- `watch::channel`: the value, the count of sends, and whether the sender still exists.
pub record Channel (Rule : Type 0) : Type 0 where
  pub value : Option Rule
  pub version : ℕ
  pub sender : Bool

pub record LbRunner : Type 0 where
  pub listen_addr : SocketAddr
  pub config_rx : ℕ

-- `listeners` maps an address to the channel of its sender; `runners` are the spawned tasks.
pub record Listening (Rule : Type 0) : Type 0 where
  pub listeners : List (SocketAddr × ℕ)
  pub channels : ℕ → Channel Rule
  pub next_channel : ℕ
  pub runners : List LbRunner

-- A configuration, as `parse_config` gives it.
abbrev pub Update : Type 0 → Type 0
Update Rule = List (SocketAddr × Rule)

-- What `select!` yields: the shutdown, a configuration, or the end of the configurations.
pub data Signal (Rule : Type 0) : Type 0 where
  shutdown : Signal Rule
  config_change : Update Rule → Signal Rule
  config_closed : Signal Rule

-- `listeners.retain(|k, _| listeners_update.contains_key(k))`: the entries that stay.
module _ {Rule : Type 0} (u : Update Rule) where
  pub retained : List (SocketAddr × ℕ) → List (SocketAddr × ℕ)
  retained [] = []
  retained ((k, i) ∷ ls) =
      let rest = retained ls in if contains_key k u then (k, i) ∷ rest else rest

module _ {Rule : Type 0} where
  -- `HashMap::new()`, before the first update.
  unfoldable pub start : Listening Rule
  start = record {
    listeners = [];
    channels = λ i. record { value = none; version = 0; sender = false };
    next_channel = 0;
    runners = [];
  }

  -- A sender is dropped.
  pub drop_sender : ℕ → (ℕ → Channel Rule) → ℕ → Channel Rule
  unfolding update
  drop_sender i chans = update chans i (record (chans i) { sender = false })

  -- The channels once the senders of the other entries are dropped.
  pub drop_others : Update Rule → List (SocketAddr × ℕ) → (ℕ → Channel Rule) → ℕ → Channel Rule
  unfolding drop_sender
  drop_others u [] chans = chans
  drop_others u ((k, i) ∷ ls) chans =
      drop_others u ls (if contains_key k u then chans else drop_sender i chans)

  unfoldable pub retain : Update Rule → Listening Rule → Listening Rule
  unfolding retained drop_others
  retain u s = record s {
    listeners = retained u s.listeners;
    channels = drop_others u s.listeners s.channels;
  }

  -- `watch::channel(config)`, `listeners.insert(..)` and `tokio::spawn(runner.run())`.
  pub spawn : Listening Rule → SocketAddr → Rule → Listening Rule
  unfolding update
  spawn s addr config = record {
    listeners = (addr, s.next_channel) ∷ s.listeners;
    channels =
        update s.channels s.next_channel
          (record { value = some config; version = 0; sender = true });
    next_channel = s.next_channel + 1;
    runners = s.runners ++ record { listen_addr = addr; config_rx = s.next_channel } ∷ [];
  }

  -- `config_tx.send_replace(config)`.
  pub send_replace : Listening Rule → ℕ → Rule → Listening Rule
  unfolding update
  send_replace s i config =
      let c = s.channels i in
      record s {
        channels = update s.channels i (record c { value = some config; version = c.version + 1 });
      }

  unfoldable pub configure : Listening Rule → SocketAddr × Rule → Listening Rule
  unfolding spawn send_replace
  configure s (addr, config) = elim (lookup addr s.listeners) [
    | none ↦ spawn s addr config
    | some i ↦ send_replace s i config
  ]

  pub configure_all : Listening Rule → Update Rule → Listening Rule
  configure_all s [] = s
  configure_all s (entry ∷ u) = configure_all (configure s entry) u

  -- One round of the loop, for a received configuration.
  unfoldable pub reload : Listening Rule → Update Rule → Listening Rule
  unfolding configure_all
  reload s u = configure_all (retain u s) u

  -- The end of `listen_config_change`: the map is dropped, with all its senders.
  unfoldable pub stop : Listening Rule → Listening Rule
  unfolding drop_others
  stop s = record s { listeners = []; channels = drop_others [] s.listeners s.channels }

  -- The loop over the signals; it leaves at the first that ends it, and waits when there are none.
  unfoldable pub listen_config_change : Listening Rule → List (Signal Rule) → Listening Rule
  listen_config_change s [] = s
  listen_config_change s (shutdown ∷ rest) = stop s
  listen_config_change s (config_closed ∷ rest) = stop s
  listen_config_change s (config_change u ∷ rest) = listen_config_change (reload s u) rest
