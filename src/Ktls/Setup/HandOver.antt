-- ===== src/Ktls/Setup/HandOver.antt =====
-- The whole hand-over (`config_ktls_server` of ktls/src/lib.rs): what the new `KtlsStream` starts with.
use proxy_printer.Base.{ℕ, ◌≤◌, ◌≡◌, refl, false, List, ◌++◌, Option, none, some, length}
use proxy_printer.Ktls.Rustls.{Bindings}
use proxy_printer.Ktls.Results.{Outcome, returned, failed_with, panics, out_of_fuel, and_then}
use proxy_printer.Ktls.Ffi.{Kernel}
use proxy_printer.Ktls.Stream.{KtlsStream, new, into_raw}
use proxy_printer.Ktls.Stream.Drained.{undelivered}
use proxy_printer.Ktls.Setup.{
  TlsStream, Connected, drain, setup_inner, hand_over, config_ktls, buffer_size,
}
use proxy_printer.Ktls.Setup.Draining.{handed_on, Drains, drain-Drains}
use proxy_printer.Ktls.Setup.Options.{Ensures, Whole, Partly, Configured, setup_inner-Ensures}

module _ (tls : TlsStream) (b : Bindings) (kernel : Kernel tls.Io)
    (rustls : Connected tls.Connection) where
  open tls use {Tls, Io, cork, into_inner, taken, taken-cork}

  -- A stream made of what rustls had taken by `past`, out of `t`.
  pub record Ready (past : List ℕ) (t : Tls) (s : KtlsStream Io) : Type 0 where
    pub bytes : taken t ≡ past ++ undelivered s.drained
    pub few : length (undelivered s.drained) ≤ buffer_size
    pub configured : Configured b kernel rustls (into_inner t).1 (into_inner t).0 s.inner
    pub reads : s.read_closed ≡ false
    pub writes : s.write_closed ≡ false
    pub handed_back : handed_on tls (into_raw s).0 ≡ undelivered s.drained

  abbrev pub HandsOver : List ℕ → Tls → Outcome (KtlsStream Io) → Type 0
  HandsOver past t (returned s) = Ready past t s
  HandsOver past t (failed_with e) = Unit
  HandsOver past t panics = ⊥
  HandsOver past t out_of_fuel = ⊥

  set_up-HandsOver :
      (past : List ℕ) (t : Tls) (d : Option (List ℕ)) (q : Outcome (Unit {0}) × Io)
      → taken t ≡ past ++ handed_on tls d
      → length (handed_on tls d) ≤ buffer_size
      → Ensures
          (Whole b kernel rustls (into_inner t).1 (into_inner t).0)
          (Partly b kernel rustls (into_inner t).1 (into_inner t).0)
          q
      → HandsOver past t (and_then q.0 (λ _. returned (new q.1 d)))
  unfolding new into_raw
  set_up-HandsOver past t none (returned u, io) e f c = record {
    bytes = e;
    few = f;
    configured = c;
    reads = refl;
    writes = refl;
    handed_back = refl;
  }
  set_up-HandsOver past t (some bs) (returned u, io) e f c = record {
    bytes = e;
    few = f;
    configured = c;
    reads = refl;
    writes = refl;
    handed_back = refl;
  }
  set_up-HandsOver past t d (failed_with x, io) e f c = tt
  set_up-HandsOver past t d (panics, io) e f c = c
  set_up-HandsOver past t d (out_of_fuel, io) e f c = c

  drained-HandsOver :
      (past : List ℕ) (q : Outcome (Option (List ℕ)) × Tls)
      → Drains tls past q
      → HandsOver past q.1
          (and_then q.0 (λ d. hand_over b kernel rustls (into_inner q.1).1 d (into_inner q.1).0))
  drained-HandsOver past (returned d, t) (e, f) =
      set_up-HandsOver past t d (setup_inner b kernel rustls (into_inner t).1 (into_inner t).0) e f
        (setup_inner-Ensures b kernel rustls (into_inner t).1 (into_inner t).0)
  drained-HandsOver past (failed_with x, t) c = tt
  drained-HandsOver past (panics, t) c = c
  drained-HandsOver past (out_of_fuel, t) c = c

  -- The hand-over ends and does not panic. If it succeeds, the new stream is open in both directions,
  -- its socket is configured with what rustls told of the connection, and the drained bytes that it
  -- holds are exactly those that were taken from rustls meanwhile, in order, at most the 128 KiB of
  -- the buffer; `into_raw` hands the same bytes back.
  pub config_ktls-HandsOver :
      (t : Tls) → HandsOver (taken t) (drain tls (cork t)).1 (config_ktls tls b kernel rustls t)
  unfolding config_ktls
  config_ktls-HandsOver t =
      drained-HandsOver (taken t) (drain tls (cork t))
        (rw (taken-cork t) at (drain-Drains tls (cork t)))
