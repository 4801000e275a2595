-- ===== src/EventLoop/System/Rounds.antt =====
-- A round of a listener (turbine/src/event_loop.rs) is a round of the runner of EventLoop.Runner.
use proxy_printer.Base.{
  Bool, ◌≡◌, refl, true, List, [], ◌∷◌, Option, some, none, arith, inl, inr, Bool-cases,
}
use proxy_printer.EventLoop.{Channel}
use proxy_printer.EventLoop.Runner.{Runner, serve, accept, poll_accept, turn, arrive, latest}
use proxy_printer.EventLoop.Runner.Draining.{stopped-turn}
use proxy_printer.EventLoop.System.{Listener, view, turn_listener, arrive_listener}

module _ {Rule Conn : Type 0} where
  accept-kept :
      (w : Runner Rule Conn) (q : List (Option Conn))
      → w.unseen ≡ none
      → ((accept w q).unseen ≡ none)
        × ((accept w q).sender ≡ w.sender)
        × ((accept w q).rule ≡ w.rule)
  unfolding accept serve
  accept-kept w [] e = (e, refl, refl)
  accept-kept w (some c ∷ q) e = (e, refl, refl)
  accept-kept w (none ∷ q) e = (e, refl, refl)

  poll_accept-kept :
      (w : Runner Rule Conn) (q : List (Option Conn))
      → w.unseen ≡ none
      → ((poll_accept w q).unseen ≡ none)
        × ((poll_accept w q).sender ≡ w.sender)
        × ((poll_accept w q).rule ≡ w.rule)
  unfolding poll_accept serve
  poll_accept-kept w [] e = (e, refl, refl)
  poll_accept-kept w (some c ∷ q) e = (e, refl, refl)
  poll_accept-kept w (none ∷ q) e = (e, refl, refl)

  -- A round of a running runner leaves nothing unseen, and has the last rule.
  pub turn-kept :
      (ready : Bool) (w : Runner Rule Conn)
      → w.running ≡ true
      → ((turn ready w).unseen ≡ none)
        × ((turn ready w).sender ≡ w.sender)
        × ((turn ready w).rule ≡ latest w)
  unfolding turn
  turn-kept ready w on = ground (arith, accept-kept w w.queue, poll_accept-kept w w.queue)

  -- A round of the listener is a round of the runner.
  pub turn_listener-view :
      (ready : Bool) (c : Channel Rule) (l : Listener Rule Conn)
      → view c (turn_listener ready c l) ≡ turn ready (view c l)
  unfolding turn_listener
  turn_listener-view ready c l = elim (Bool-cases l.running) [
    | inr off ↦ ground (arith, stopped-turn ready (view c l) off)
    | inl on ↦ ground (arith, turn-kept ready (view c l) on)
  ]

  -- So is an arrival.
  pub arrive_listener-view :
      (c : Channel Rule) (l : Listener Rule Conn) (x : Option Conn)
      → view c (arrive_listener l x) ≡ arrive (view c l) x
  unfolding arrive_listener arrive
  arrive_listener-view c l x = ground arith
