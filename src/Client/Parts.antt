-- ===== src/Client/Parts.antt =====
-- Which effects the parts of `handle_client` (turbine/src/main.rs) around the connection can have.
use proxy_printer.Base.{
  ℕ, Bool, true, false, List, [], ◌∷◌, Option, none, some, if◌then◌else◌, Option-cases, inl, inr,
}
use proxy_printer.Net.{SocketAddr}
use proxy_printer.Config.{Protocol, tcp, tls, Upstream}
use proxy_printer.Ktls.Results as Ktls
use proxy_printer.Ktls.Stream.{KtlsStream}
use proxy_printer.Client.Action.{sends, handshakes, copies, Effect, pure}
use proxy_printer.Client.Handle.{
  Round, copied, copy_failed, time_over, World, match_context, write_all, send_header, transfer,
  set_up, write_drained, terminate, forward,
}
use proxy_printer.Client.Effects.{
  Emits, bind-Emits, quiet-Emits, emit-Emits, or_fail-Emits, or_panic-Emits, ensure-Emits,
  extract_tls_info-Emits,
}

module _ {Regex Acceptor : Type 0} (world : World Regex Acceptor) (P : Effect → Type 0) where
  pub match_context-Emits : (p : Protocol) → Emits P (match_context world p)
  unfolding match_context
  match_context-Emits tcp = quiet-Emits P
  match_context-Emits tls =
      bind-Emits P (extract_tls_info-Emits P world.messages world.client) λ _ _. quiet-Emits P

  pub set_up-Emits : (o : Ktls.Outcome (KtlsStream world.tls.Io)) → Emits P (set_up world o)
  set_up-Emits (Ktls.returned s) = quiet-Emits P
  set_up-Emits (Ktls.failed_with e) = quiet-Emits P
  set_up-Emits Ktls.panics = quiet-Emits P
  set_up-Emits Ktls.out_of_fuel = quiet-Emits P

module _ {Regex Acceptor : Type 0} (world : World Regex Acceptor) (P : Effect → Type 0)
    (ok_sends : (bs : List ℕ) → P (sends bs)) where
  write_all-Emits : (bs : List ℕ) → Emits P (write_all world bs)
  unfolding write_all
  write_all-Emits bs = bind-Emits P (emit-Emits P (ok_sends bs)) λ _ _. ensure-Emits P _ _

  pub header-Emits :
      (b : Bool) (peer : SocketAddr) → Emits P (if b then send_header world peer else pure tt)
  unfolding send_header
  header-Emits true peer =
      bind-Emits P (or_panic-Emits P _)
        λ _ _. bind-Emits P (or_fail-Emits P _ _) λ _ _. write_all-Emits _
  header-Emits false peer = quiet-Emits P

  pub write_drained-Emits : (d : Option (List ℕ)) → Emits P (write_drained world d)
  write_drained-Emits none = quiet-Emits P
  write_drained-Emits (some bs) = write_all-Emits bs

module _ {Regex Acceptor : Type 0} (world : World Regex Acceptor) (P : Effect → Type 0)
    (ok_sends : (bs : List ℕ) → P (sends bs)) (ok_copies : (limit : ℕ) → P (copies limit))
    (ok_handshakes : P handshakes) where
  transfer-Emits : (limit : ℕ) (rs : List Round) → Emits P (transfer world limit rs)
  unfolding transfer
  transfer-Emits limit [] = quiet-Emits P
  transfer-Emits limit (copied ∷ rest) =
      bind-Emits P (emit-Emits P (ok_copies limit)) λ _ _. transfer-Emits limit rest
  transfer-Emits limit (copy_failed ∷ rest) = emit-Emits P (ok_copies limit)
  transfer-Emits limit (time_over ∷ rest) = emit-Emits P (ok_copies limit)

  pub forward-Emits : (u : Upstream Regex Acceptor) → Emits P (forward world u)
  unfolding forward terminate
  forward-Emits u = elim (Option-cases u.tls_acceptor) [
    | inl plain ↦ rw plain (emit-Emits P (ok_copies _))
    | inr (acceptor, secure) ↦ rw secure (
        bind-Emits P (emit-Emits P ok_handshakes) λ _ _. bind-Emits P (or_fail-Emits P _ _) λ _ _.
          bind-Emits P (set_up-Emits world P _) λ drain _.
            bind-Emits P (write_drained-Emits world P ok_sends drain)
              λ _ _. transfer-Emits _ world.rounds)
  ]
