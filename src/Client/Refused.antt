-- ===== src/Client/Refused.antt =====
-- `handle_client` (turbine/src/main.rs) where the upstream cannot be reached.
use proxy_printer.Base.{ℕ, ◌≡◌, refl, Option, none, some, ◌⊎◌, inl, inr}
use proxy_printer.Net.{SocketAddr}
use proxy_printer.Config.{Upstream, Rule}
use proxy_printer.Client.Action.{
  calls, advances, connects, sends, handshakes, copies, Effect, returned, pure,
}
use proxy_printer.Client.Connect.{
  ConnectAnswer, connected, in_progress, refused, WaitAnswer, elapsed, wait_failed, writable,
  ErrorCheck, unreadable, pending_error, clean, UpstreamSocket, check, wait, established,
  connect_upstream,
}
use proxy_printer.Client.Handle.{World, serve, handle_client}
use proxy_printer.Client.Effects.{
  >>=-eq-returned, Emits, bind-Emits, quiet-Emits, emit-Emits, or_panic-Emits, ensure-Emits,
  connect_upstream-Emits,
}
use proxy_printer.Client.Success.{Answers}
use proxy_printer.Client.Parts.{match_context-Emits}

-- The effect is no byte for the upstream, no handshake with the client and no copy.
abbrev pub IsBeforehand : Effect → Type 0
IsBeforehand (calls c) = Unit
IsBeforehand (advances s) = Unit
IsBeforehand (connects a) = Unit
IsBeforehand (sends bs) = ⊥
IsBeforehand handshakes = ⊥
IsBeforehand (copies l) = ⊥

module _ (sock : UpstreamSocket) where
  check-eq-returned : (c : ErrorCheck) {v : Unit {0}} → (check sock c).0 ≡ returned v → c ≡ clean
  unfolding check
  check-eq-returned unreadable e = cc
  check-eq-returned pending_error e = cc
  check-eq-returned clean e = refl

  wait-eq-returned :
      (w : WaitAnswer) {v : Unit {0}}
      → (wait sock w).0 ≡ returned v
      → (w ≡ writable) × (sock.take_error ≡ clean)
  unfolding wait
  wait-eq-returned elapsed e = cc
  wait-eq-returned wait_failed e = cc
  wait-eq-returned writable e = (refl, check-eq-returned sock.take_error e)

  established-Answers :
      (limit : ℕ) (a : ConnectAnswer) {v : Unit {0}}
      → (established sock limit a).0 ≡ returned v
      → (a ≡ connected)
        ⊎ ((a ≡ in_progress) × (sock.wait_writable limit ≡ writable) × (sock.take_error ≡ clean))
  unfolding established
  established-Answers limit connected e = inl refl
  established-Answers limit refused e = cc
  established-Answers limit in_progress {v} e =
      let (x, f, g) = >>=-eq-returned _ _ e in
      let (w, c) = wait-eq-returned (sock.wait_writable limit) g in inr (refl, w, c)

  connect_upstream-Answers :
      (addr : SocketAddr) (limit : ℕ) {v : Unit {0}}
      → (connect_upstream sock addr limit).0 ≡ returned v
      → Answers sock limit addr
  unfolding connect_upstream
  connect_upstream-Answers addr limit e =
      let (x, f, g) = >>=-eq-returned _ _ e in
      let (y, f', g') = >>=-eq-returned _ _ g in established-Answers limit (sock.connect addr) g'

module _ {Regex Acceptor : Type 0} (world : World Regex Acceptor)
    (unreachable : (limit : ℕ) (addr : SocketAddr) → ¬ (Answers world.upstream limit addr)) where
  open world use {client, messages}

  serve-Emits :
      (peer : SocketAddr) (u : Upstream Regex Acceptor) → Emits IsBeforehand (serve world peer u)
  unfolding serve
  serve-Emits peer u = bind-Emits IsBeforehand (emit-Emits IsBeforehand tt) λ _ _.
      bind-Emits IsBeforehand (or_panic-Emits IsBeforehand _) λ b _.
        bind-Emits IsBeforehand
          (connect_upstream-Emits IsBeforehand world.upstream (λ c. tt) b.addr _ tt)
          λ _ e. absurd (unreachable _ b.addr (connect_upstream-Answers world.upstream b.addr _ e))

  found-Emits :
      (peer : SocketAddr) (o : Option (Upstream Regex Acceptor))
      → Emits IsBeforehand (elim o [ none ↦ pure tt | some u ↦ serve world peer u ])
  found-Emits peer none = quiet-Emits IsBeforehand
  found-Emits peer (some u) = serve-Emits peer u

  -- Where no connection to an upstream comes about, refused, failed after the wait, with an error
  -- pending, or not made within the time limit, `handle_client` sends the upstream nothing, shakes no
  -- hands with the client and copies nothing.
  pub handle_client-Beforehand :
      (rule : Rule Regex Acceptor) (peer : SocketAddr)
      → Emits IsBeforehand (handle_client world rule peer)
  unfolding handle_client
  handle_client-Beforehand rule peer =
      bind-Emits IsBeforehand (ensure-Emits IsBeforehand _ _) λ _ _.
        bind-Emits IsBeforehand (ensure-Emits IsBeforehand _ _) λ _ _.
          bind-Emits IsBeforehand (match_context-Emits world IsBeforehand rule.protocol)
            λ c _. found-Emits peer _
