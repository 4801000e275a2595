-- ===== src/Client/Progress.antt =====
-- `handle_client` (turbine/src/main.rs) where all goes well: the client is served.
use proxy_printer.Base.{
  ℕ, Bool, true, false, ◌≡◌, refl, sym, ◌∙◌, List, [], ◌∷◌, Option, none, some, inl, inr,
  if◌then◌else◌, Option-cases,
}
use mathlib.Core.List.{Memᴰ}
use proxy_printer.Net.{SocketAddr}
use proxy_printer.Config.{Upstream, Rule}
use proxy_printer.Match.{MatchContext, find_matching_upstream}
use proxy_printer.Balance.{pick_backend}
use proxy_printer.Balance.Rounds.{pick_backend-some}
use proxy_printer.Ktls.Results as Ktls
use proxy_printer.Ktls.Stream.{KtlsStream, into_raw}
use proxy_printer.Ktls.Setup.{config_ktls}
use proxy_printer.Client.Action.{SocketCall, copies, returned, pure, ◌>>=◌}
use proxy_printer.Client.Handle.{
  Round, copied, copy_failed, time_over, World, match_context, write_all, send_header, transfer,
  set_up, write_drained, terminate, forward, serve, handle_client,
}
use proxy_printer.Client.Success.{
  Does, Succeeds, bind-Does, bind-Succeeds, emit-Succeeds, ensure-Succeeds, or_fail-Succeeds,
  or_panic-Succeeds, or_fail-value, or_panic-value, Answers, connect_upstream-Succeeds,
}

module _ {Regex Acceptor : Type 0} (world : World Regex Acceptor) where
  open world use {
    client, messages, local_addr, is_match, tls, bindings, kernel, rustls, accept, header,
  }

  -- Where TLS ends here, the handshake and the hand-over to the kernel succeed.
  abbrev pub IsAccepted : Option Acceptor → Type 0
  IsAccepted none = Unit
  IsAccepted (some a) =
      (t : tls.Tls) × (accept a ≡ some t)
      × (s : KtlsStream tls.Io) × (config_ktls tls bindings kernel rustls t ≡ Ktls.returned s)

  -- The client is recognised, an upstream suits it, every socket answers well, and the clock is not
  -- before 1970.
  pub record Healthy (rule : Rule Regex Acceptor) (u : Upstream Regex Acceptor) : Type 0 where
    pub nodelay : world.set_nodelay ≡ true
    pub keepalive : world.set_tcp_keepalive ≡ true
    pub nanos : ℕ
    pub after_1970 : world.nanos ≡ some nanos
    pub context : MatchContext
    pub recognised : (match_context world rule.protocol).0 ≡ returned context
    pub suited : find_matching_upstream is_match context rule.upstreams ≡ some u
    pub willing : (c : SocketCall) → world.upstream.call c ≡ true
    pub from_std : world.upstream.from_std ≡ true
    pub answers : (addr : SocketAddr) → Answers world.upstream u.cfg.connect_timeout addr
    pub local : SocketAddr
    pub is_local : local_addr ≡ some local
    pub encodes : (peer : SocketAddr) → (bs : List ℕ) × (header peer local ≡ some bs)
    pub writes : (bs : List ℕ) → world.write bs ≡ true
    pub accepted : IsAccepted u.tls_acceptor
    pub first : Round
    pub later : List Round
    pub rounds : world.rounds ≡ first ∷ later

  write_all-Succeeds : (bs : List ℕ) → world.write bs ≡ true → Succeeds (write_all world bs)
  unfolding write_all
  write_all-Succeeds bs h = bind-Succeeds emit-Succeeds λ _ _. ensure-Succeeds _ _ h

  transfer-Does :
      (limit : ℕ) (rounds : List Round) {r : Round} {rs : List Round}
      → rounds ≡ r ∷ rs
      → Does (copies limit) (transfer world limit rounds)
  unfolding transfer ◌>>=◌
  transfer-Does limit [] e = cc
  transfer-Does limit (copied ∷ rs) e = record { does = Memᴰ.head refl }
  transfer-Does limit (copy_failed ∷ rs) e = record { does = Memᴰ.head refl }
  transfer-Does limit (time_over ∷ rs) e = record { does = Memᴰ.head refl }

  set_up-Succeeds :
      (o : Ktls.Outcome (KtlsStream tls.Io)) {s : KtlsStream tls.Io}
      → o ≡ Ktls.returned s
      → Succeeds (set_up world o)
  set_up-Succeeds o {s} h = rw h (record { value = (into_raw s).0; returns = refl })

  write_drained-Succeeds :
      (d : Option (List ℕ))
      → ((bs : List ℕ) → world.write bs ≡ true)
      → Succeeds (write_drained world d)
  write_drained-Succeeds none writes = record { value = tt; returns = refl }
  write_drained-Succeeds (some bs) writes = write_all-Succeeds bs (writes bs)

  returned-injective : {A : Type 0} {a b : A} → returned a ≡ returned b → a ≡ b
  returned-injective e = cc

  module _ (rule : Rule Regex Acceptor) (u : Upstream Regex Acceptor) (h : Healthy rule u) where
    header-Succeeds :
        (b : Bool) (peer : SocketAddr) → Succeeds (if b then send_header world peer else pure tt)
    unfolding send_header
    header-Succeeds true peer = bind-Succeeds (or_panic-Succeeds local_addr h.is_local) λ l e.
        let same : l ≡ h.local = or_panic-value e h.is_local in
        bind-Succeeds
          (or_fail-Succeeds _ (header peer l) {a = (h.encodes peer).0} (rw same (h.encodes peer).1))
          λ bs _. write_all-Succeeds bs (h.writes bs)
    header-Succeeds false peer = record { value = tt; returns = refl }

    terminate-Does :
        (limit : ℕ) (acceptor : Acceptor)
        → IsAccepted (some acceptor)
        → Does (copies limit) (terminate world limit acceptor)
    unfolding terminate
    terminate-Does limit acceptor (t, is_accepted, s, handed) = bind-Does emit-Succeeds λ _ _.
        bind-Does (or_fail-Succeeds _ (accept acceptor) is_accepted) λ t' e.
          let same : t' ≡ t = or_fail-value _ e is_accepted in
          bind-Does
            (set_up-Succeeds (config_ktls tls bindings kernel rustls t') {s = s} (rw same handed))
            λ d _.
              bind-Does (write_drained-Succeeds d h.writes)
                λ _ _. transfer-Does limit world.rounds h.rounds

    forward-Does : Does (copies u.cfg.cnx_max_duration) (forward world u)
    unfolding forward
    forward-Does = elim (Option-cases u.tls_acceptor) [
      | inl plain ↦ rw plain (record { does = Memᴰ.head refl })
      | inr (acceptor, secure) ↦ rw secure (terminate-Does _ acceptor (rw secure at h.accepted))
    ]

    serve-Does : (peer : SocketAddr) → Does (copies u.cfg.cnx_max_duration) (serve world peer u)
    unfolding serve
    serve-Does peer =
        let (b, found, mem) = pick_backend-some u.load_balancing h.nanos u.backends in
        let picked : (pick_backend u.load_balancing world.nanos u.backends).0 ≡ some b =
          rw h.after_1970 found in
        bind-Does emit-Succeeds λ _ _. bind-Does (or_panic-Succeeds _ picked) λ b' _.
          bind-Does
            (connect_upstream-Succeeds world.upstream h.willing h.from_std b'.addr _
              (h.answers b'.addr))
            λ _ _. bind-Does (header-Succeeds u.cfg.proxy_protocol peer) λ _ _. forward-Does

    -- A client that is recognised and suited by an upstream is served: where the sockets answer well,
    -- the clock is not before 1970, the header can be encoded and TLS, if it ends here, is handed to the kernel, `handle_client` comes
    -- to copy between the client and the upstream, with the limit of that upstream; no panic and no
    -- early return is in the way, whichever backend is picked.
    pub handle_client-Copies :
        (peer : SocketAddr) → Does (copies u.cfg.cnx_max_duration) (handle_client world rule peer)
    unfolding handle_client
    handle_client-Copies peer = bind-Does (ensure-Succeeds _ _ h.nodelay) λ _ _.
        bind-Does (ensure-Succeeds _ _ h.keepalive) λ _ _.
          bind-Does (record { value = h.context; returns = h.recognised })
            λ c e.
              let same : c ≡ h.context = returned-injective (sym e ∙ h.recognised) in
              rw same (rw h.suited (serve-Does peer))
