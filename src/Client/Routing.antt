-- ===== src/Client/Routing.antt =====
-- Where `handle_client` (turbine/src/main.rs) connects a client to.
use proxy_printer.Base.{refl, ◌≡◌, Option, none, some}
use mathlib.Core.List.{Memᴰ}
use proxy_printer.Net.{SocketAddr}
use proxy_printer.Config.{Upstream, Rule, Backend, iter}
use proxy_printer.Match.{MatchContext}
use proxy_printer.Match.Laws.{First, Picks, find_matching_upstream-Picks}
use proxy_printer.Balance.{pick_backend}
use proxy_printer.Balance.Rounds.{pick_backend-mem}
use proxy_printer.Client.Action.{
  calls, advances, connects, sends, handshakes, copies, Effect, returned, pure, or_panic,
}
use proxy_printer.Client.Preface.{or_panic-eq-returned}
use proxy_printer.Client.Names.{IsContext, match_context-IsContext}
use proxy_printer.Client.Handle.{World, serve, handle_client}
use proxy_printer.Client.Effects.{
  Emits, bind-Emits, quiet-Emits, emit-Emits, or_panic-Emits, ensure-Emits, connect_upstream-Emits,
}
use proxy_printer.Client.Parts.{match_context-Emits, header-Emits, forward-Emits}

module _ {Regex Acceptor : Type 0} (world : World Regex Acceptor) where
  open world use {is_match}

  -- The address belongs to a backend of the first upstream that suits the client.
  pub record IsRoute (rule : Rule Regex Acceptor) (addr : SocketAddr) : Type 0 where
    pub context : MatchContext
    pub upstream : Upstream Regex Acceptor
    pub backend : Backend
    pub of_client : IsContext world rule.protocol context
    pub first : First is_match context (iter rule.upstreams) upstream
    pub among : Memᴰ backend (iter upstream.backends)
    pub address : backend.addr ≡ addr

  module _ (rule : Rule Regex Acceptor) where
    abbrev pub Routes : Effect → Type 0
    Routes (connects addr) = IsRoute rule addr
    Routes (calls c) = Unit
    Routes (advances s) = Unit
    Routes (sends bs) = Unit
    Routes handshakes = Unit
    Routes (copies limit) = Unit

    module _ (c : MatchContext) (u : Upstream Regex Acceptor)
        (of_client : IsContext world rule.protocol c)
        (first : First is_match c (iter rule.upstreams) u) where
      picked-IsRoute :
          (b : Backend)
          → (or_panic (pick_backend u.load_balancing world.nanos u.backends).0).0 ≡ returned b
          → IsRoute rule b.addr
      picked-IsRoute b e = record {
        context = c;
        upstream = u;
        backend = b;
        of_client = of_client;
        first = first;
        among =
            pick_backend-mem u.load_balancing world.nanos u.backends b (or_panic-eq-returned _ e);
        address = refl;
      }

      serve-Emits : (peer : SocketAddr) → Emits Routes (serve world peer u)
      unfolding serve
      serve-Emits peer = bind-Emits Routes (emit-Emits Routes tt) λ _ _.
          bind-Emits Routes (or_panic-Emits Routes _) λ b e.
            bind-Emits Routes
              (connect_upstream-Emits Routes world.upstream (λ c. tt) b.addr _ (picked-IsRoute b e))
              λ _ _.
                bind-Emits Routes (header-Emits world Routes (λ bs. tt) u.cfg.proxy_protocol peer)
                  λ _ _. forward-Emits world Routes (λ bs. tt) (λ limit. tt) tt u

    found-Emits :
        (peer : SocketAddr) (c : MatchContext) (o : Option (Upstream Regex Acceptor))
        → IsContext world rule.protocol c
        → Picks is_match c (iter rule.upstreams) o
        → Emits Routes (elim o [ none ↦ pure tt | some u ↦ serve world peer u ])
    found-Emits peer c none k p = quiet-Emits Routes
    found-Emits peer c (some u) k p = serve-Emits c u k p peer

    -- However a connection ends, `handle_client` connects it to nothing but backends of the first
    -- upstream of the rule that suits the client. A client of a TLS rule is judged by the server name
    -- and the ALPN protocols of the ClientHello that its socket shows first, and by the address that it
    -- came to; any other by that address alone, with no names. An address that cannot be read counts as
    -- 0.0.0.0:0.
    pub handle_client-Routes : (peer : SocketAddr) → Emits Routes (handle_client world rule peer)
    unfolding handle_client
    handle_client-Routes peer = bind-Emits Routes (ensure-Emits Routes _ _) λ _ _.
        bind-Emits Routes (ensure-Emits Routes _ _) λ _ _.
          bind-Emits Routes (match_context-Emits world Routes rule.protocol) λ c e.
            found-Emits peer c _ (match_context-IsContext world rule.protocol c e)
              (find_matching_upstream-Picks is_match c rule.upstreams)
