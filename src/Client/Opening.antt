-- ===== src/Client/Opening.antt =====
-- What the upstream is sent by `handle_client` (turbine/src/main.rs) before the client's own bytes are
-- copied to it.
use proxy_printer.Base.{
  ℕ, Bool, true, false, ◌≡◌, refl, sym, ap, ◌∙◌, List, [], ◌∷◌, ◌++◌, Option, none, some,
  if◌then◌else◌, Option-cases, Bool-cases, inl, inr, append-nil,
}
use proxy_printer.Net.{SocketAddr}
use proxy_printer.Config.{Upstream, Rule, iter}
use proxy_printer.Match.{MatchContext}
use proxy_printer.Match.Laws.{First, Picks, find_matching_upstream-Picks}
use proxy_printer.Ktls.Results as Ktls
use proxy_printer.Ktls.Stream.{KtlsStream, into_raw}
use proxy_printer.Ktls.Setup.{drain}
use proxy_printer.Ktls.Setup.Draining.{handed_on}
use proxy_printer.Ktls.Setup.HandOver.{HandsOver, config_ktls-HandsOver}
use proxy_printer.Client.Action.{returned, pure, or_fail, or_panic, ensure, ◌>>=◌, proxy_header}
use proxy_printer.Client.Handle.{
  Round, copied, copy_failed, time_over, World, write_all, send_header, transfer, set_up,
  write_drained, terminate, forward, serve, handle_client,
}
use proxy_printer.Client.Effects.{
  emit-Emits, or_fail-Emits, or_panic-Emits, ensure-Emits, connect_upstream-Emits,
}
use proxy_printer.Client.Names.{IsContext, match_context-IsContext}
use proxy_printer.Client.Preface.{
  sent, IsPrior, IsSilent, Begins, bind-Begins, silent-Begins, quiet-Begins, silent-eq-returned,
  or_fail-eq-returned, or_panic-eq-returned,
}
use proxy_printer.Client.Parts.{
  match_context-Emits, set_up-Emits, header-Emits, write_drained-Emits,
}

module _ {Regex Acceptor : Type 0} (world : World Regex Acceptor) where
  open world use {
    client, messages, local_addr, is_match, tls, bindings, kernel, rustls, accept, header,
  }
  open tls use {taken, cork}

  -- The PROXY header, of the client's address and the one it came to, where it is asked for.
  abbrev pub IsHeader : SocketAddr → Bool → List ℕ → Type 0
  IsHeader peer false bs = bs ≡ []
  IsHeader peer true bs =
      (local : SocketAddr) × (local_addr ≡ some local) × (header peer local ≡ some bs)

  -- Where TLS ends here: what rustls had decrypted between the handshake and the hand-over.
  abbrev pub IsDrained : Option Acceptor → List ℕ → Type 0
  IsDrained none bs = bs ≡ []
  IsDrained (some a) bs =
      (t : tls.Tls) × (accept a ≡ some t) × (taken (drain tls (cork t)).1 ≡ taken t ++ bs)

  pub record IsPreface (rule : Rule Regex Acceptor) (peer : SocketAddr) (bs : List ℕ) : Type 0 where
    pub context : MatchContext
    pub upstream : Upstream Regex Acceptor
    pub of_client : IsContext world rule.protocol context
    pub first : First is_match context (iter rule.upstreams) upstream
    pub head : List ℕ
    pub drained : List ℕ
    pub of_header : IsHeader peer upstream.cfg.proxy_protocol head
    pub of_rustls : IsDrained upstream.tls_acceptor drained
    pub bytes : bs ≡ head ++ drained

  write_all-sent : (bs : List ℕ) → sent (write_all world bs).1 ≡ bs
  unfolding write_all ◌>>=◌ ensure
  write_all-sent bs = elim (Bool-cases (world.write bs)) [
    | inl w ↦ rw w (append-nil bs)
    | inr w ↦ rw w (append-nil bs)
  ]

  send_header-IsHeader :
      (b : Bool) (peer : SocketAddr) (u : Unit {0})
      → (if b then send_header world peer else pure tt).0 ≡ returned u
      → IsHeader peer b (sent (if b then send_header world peer else pure tt).1)
  unfolding send_header
  send_header-IsHeader true peer u e =
      let (local, f, e', s) =
        silent-eq-returned (or_panic local_addr) _ (or_panic-Emits IsSilent _) e in
      let (bs, f', e'', s') =
        silent-eq-returned (or_fail proxy_header (header peer local)) _ (or_fail-Emits IsSilent _ _)
          e' in
      (
        local,
        or_panic-eq-returned local_addr f,
        or_fail-eq-returned proxy_header (header peer local) f'
            ∙ ap some (sym (s ∙ s' ∙ write_all-sent bs)),
      )
  send_header-IsHeader false peer u e = refl

  write_drained-sent : (d : Option (List ℕ)) → sent (write_drained world d).1 ≡ handed_on tls d
  write_drained-sent none = refl
  write_drained-sent (some bs) = write_all-sent bs

  transfer-Begins :
      (Q : List ℕ → Type 0) (limit : ℕ) (rs : List Round)
      → Q []
      → Begins Q (transfer world limit rs)
  unfolding transfer ◌>>=◌
  transfer-Begins Q limit [] q = quiet-Begins Q
  transfer-Begins Q limit (copied ∷ rest) q = record { says = q }
  transfer-Begins Q limit (copy_failed ∷ rest) q = record { says = q }
  transfer-Begins Q limit (time_over ∷ rest) q = record { says = q }

  -- What comes out of the hand-over is what rustls had.
  set_up-handed :
      (past : List ℕ) (t : tls.Tls) (o : Ktls.Outcome (KtlsStream tls.Io)) (d : Option (List ℕ))
      → HandsOver tls bindings kernel rustls past t o
      → (set_up world o).0 ≡ returned d
      → taken t ≡ past ++ handed_on tls d
  set_up-handed past t (Ktls.returned s) d h e =
      let same : (into_raw s).0 ≡ d = cc in rw same at (h.bytes ∙ ap (past ++◌) (sym h.handed_back))
  set_up-handed past t (Ktls.failed_with x) d h e = cc
  set_up-handed past t Ktls.panics d h e = cc
  set_up-handed past t Ktls.out_of_fuel d h e = cc

  terminate-Begins :
      (Q : List ℕ → Type 0) (limit : ℕ) (acceptor : Acceptor)
      → ((drained : List ℕ) → IsDrained (some acceptor) drained → Q drained)
      → Begins Q (terminate world limit acceptor)
  unfolding terminate
  terminate-Begins Q limit acceptor q = silent-Begins Q (emit-Emits IsSilent tt) λ _ _.
      silent-Begins Q (or_fail-Emits IsSilent _ _) λ t accepted.
        silent-Begins Q (set_up-Emits world IsSilent _) λ d done.
          bind-Begins Q _ _ (write_drained-Emits world IsPrior (λ bs. tt) d) λ _ _.
            transfer-Begins (λ rest. Q (sent (write_drained world d).1 ++ rest)) limit world.rounds
              (rw (append-nil (sent (write_drained world d).1)) (
                rw (write_drained-sent d) (
                  q (handed_on tls d) (
                    t,
                    or_fail-eq-returned _ (accept acceptor) accepted,
                    set_up-handed (taken t) (drain tls (cork t)).1 _ d
                        (config_ktls-HandsOver tls bindings kernel rustls t) done,
                  ))))

  forward-Begins :
      (Q : List ℕ → Type 0) (u : Upstream Regex Acceptor)
      → ((drained : List ℕ) → IsDrained u.tls_acceptor drained → Q drained)
      → Begins Q (forward world u)
  unfolding forward
  forward-Begins Q u q = elim (Option-cases u.tls_acceptor) [
    | inl plain ↦ rw plain (record { says = q [] (rw plain refl) })
    | inr (acceptor, secure) ↦
        rw secure (terminate-Begins Q _ acceptor (λ bs h. q bs (rw secure h)))
  ]

  module _ (rule : Rule Regex Acceptor) (peer : SocketAddr) where
    serve-Begins :
        (c : MatchContext) (u : Upstream Regex Acceptor)
        → IsContext world rule.protocol c
        → First is_match c (iter rule.upstreams) u
        → Begins (IsPreface rule peer) (serve world peer u)
    unfolding serve
    serve-Begins c u of_client first = silent-Begins _ (emit-Emits IsSilent tt) λ _ _.
        silent-Begins _ (or_panic-Emits IsSilent _) λ b _.
          silent-Begins _ (connect_upstream-Emits IsSilent world.upstream (λ c. tt) b.addr _ tt)
            λ _ _.
              bind-Begins _ _ _ (header-Emits world IsPrior (λ bs. tt) u.cfg.proxy_protocol peer)
                λ v e. forward-Begins _ u λ bs of_rustls. record {
                  context = c;
                  upstream = u;
                  of_client = of_client;
                  first = first;
                  head = sent (if u.cfg.proxy_protocol then send_header world peer else pure tt).1;
                  drained = bs;
                  of_header = send_header-IsHeader u.cfg.proxy_protocol peer v e;
                  of_rustls = of_rustls;
                  bytes = refl;
                }

    found-Begins :
        (c : MatchContext) (o : Option (Upstream Regex Acceptor))
        → IsContext world rule.protocol c
        → Picks is_match c (iter rule.upstreams) o
        → Begins (IsPreface rule peer) (elim o [ none ↦ pure tt | some u ↦ serve world peer u ])
    found-Begins c none k p = quiet-Begins _
    found-Begins c (some u) k p = serve-Begins c u k p

    -- Whatever the answers of sockets, of rustls and of the kernel, when `handle_client` comes to copy
    -- between the client and the upstream, the upstream has been sent exactly this before: the PROXY
    -- header with the client's address and the address it came to, if the first upstream that suits
    -- the client asks for it, and then, if TLS ends here, the bytes that rustls had decrypted when the
    -- connection was handed to the kernel; nothing else, and nothing in another order.
    pub handle_client-Begins : Begins (IsPreface rule peer) (handle_client world rule peer)
    unfolding handle_client
    handle_client-Begins = silent-Begins _ (ensure-Emits IsSilent _ _) λ _ _.
        silent-Begins _ (ensure-Emits IsSilent _ _) λ _ _.
          silent-Begins _ (match_context-Emits world IsSilent rule.protocol) λ c e.
            found-Begins c _ (match_context-IsContext world rule.protocol c e)
              (find_matching_upstream-Picks is_match c rule.upstreams)
