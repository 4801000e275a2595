-- ===== src/Ktls/Setup/Options.antt =====
-- What the hand-over (ktls/src/lib.rs) sets on the socket, and in which order.
use proxy_printer.Base.{
  ℕ, ◌≡◌, refl, sym, ap, ◌∙◌, List, [], ◌∷◌, ◌++◌, Option, none, some, append_assoc, append-nil,
}
use proxy_printer.Ktls.Io.{IoError}
use proxy_printer.Ktls.Rustls.{SupportedCipherSuite, ConnectionTrafficSecrets, Bindings}
use proxy_printer.Ktls.Results.{
  Error, Result, ok, err, Outcome, returned, failed_with, panics, out_of_fuel, Action, ulp_error,
  export_secrets, no_negotiated_cipher_suite, tls_crypto_info_error, ktls_compatibility, lift,
  or_fail, mapped, continue, ◌>>=◌, ◌>>◌,
}
use proxy_printer.Ktls.Ffi.{
  CryptoInfo, tx, rx, from_rustls, Kernel, SocketOption, accepted, last_os_error, ulp_option,
  info_option, setup_ulp, setup_tls_info,
}
use proxy_printer.Ktls.Setup.{Connected, setup_inner}

-- An action that returns ends with `P`, one that fails with `Q`; it does not panic.
abbrev pub Ensures : {S A : Type 0} → (A → S → Type 0) → (S → Type 0) → Outcome A × S → Type 0
Ensures P Q (returned a, s) = P a s
Ensures P Q (failed_with e, s) = Q s
Ensures P Q (panics, s) = ⊥
Ensures P Q (out_of_fuel, s) = ⊥

continue-Ensures :
    {S A B : Type 0} (P : A → S → Type 0) (Q : S → Type 0) (R : B → S → Type 0) (f : A → Action S B)
    (q : Outcome A × S)
    → Ensures P Q q
    → ((a : A) (s : S) → P a s → Ensures R Q (f a s))
    → Ensures R Q (continue f q)
continue-Ensures P Q R f (returned a, s) h g = g a s h
continue-Ensures P Q R f (failed_with e, s) h g = h
continue-Ensures P Q R f (panics, s) h g = h
continue-Ensures P Q R f (out_of_fuel, s) h g = h

map-Ensures :
    {S A : Type 0} (P R : A → S → Type 0) (Q : S → Type 0) (q : Outcome A × S)
    → Ensures P Q q
    → ((a : A) (s : S) → P a s → R a s)
    → Ensures R Q q
map-Ensures P R Q (returned a, s) h g = g a s h
map-Ensures P R Q (failed_with e, s) h g = h
map-Ensures P R Q (panics, s) h g = h
map-Ensures P R Q (out_of_fuel, s) h g = h

or_fail-Ensures :
    {S A : Type 0} (Q : S → Type 0) (e : Error) (o : Option A) (s : S)
    → Q s
    → Ensures (λ a t. (o ≡ some a) × (t ≡ s)) Q (or_fail e o s)
or_fail-Ensures Q e none s h = h
or_fail-Ensures Q e (some a) s h = (refl, refl)

lift-Ensures :
    {S E A : Type 0} (Q : S → Type 0) (f : E → Error) (r : Result E A) (s : S)
    → Q s
    → Ensures (λ a t. (r ≡ ok a) × (t ≡ s)) Q (lift f r s)
lift-Ensures Q f (ok a) s h = (refl, refl)
lift-Ensures Q f (err e) s h = h

module _ {Io Connection : Type 0} (b : Bindings) (kernel : Kernel Io)
    (rustls : Connected Connection) (conn : Connection) (io : Io) where
  open kernel use {setsockopt, options, options-setsockopt}
  open rustls use {negotiated_cipher_suite, extract_secrets}

  -- The socket has its earlier options and these.
  abbrev pub Has : List SocketOption → Io → Type 0
  Has os io' = options io' ≡ options io ++ os

  -- A failed set-up stops somewhere on the way.
  pub data Partly (io' : Io) : Type 0 where
    untouched : Has [] io' → Partly io'
    only_ulp : Has (ulp_option ∷ []) io' → Partly io'
    no_rx : (info : CryptoInfo) → Has (ulp_option ∷ info_option b tx info ∷ []) io' → Partly io'

  -- All is set, from what rustls said of the connection.
  pub record Configured (io' : Io) : Type 0 where
    pub suite : SupportedCipherSuite
    pub secrets : (ℕ × ConnectionTrafficSecrets) × (ℕ × ConnectionTrafficSecrets)
    pub tx_info : CryptoInfo
    pub rx_info : CryptoInfo
    pub negotiated : negotiated_cipher_suite conn ≡ some suite
    pub extracted : extract_secrets conn ≡ some secrets
    pub of_tx : from_rustls b suite secrets.0 ≡ ok tx_info
    pub of_rx : from_rustls b suite secrets.1 ≡ ok rx_info
    pub set : Has (ulp_option ∷ info_option b tx tx_info ∷ info_option b rx rx_info ∷ []) io'

  abbrev pub Whole : Unit {0} → Io → Type 0
  Whole u s = Configured s

  -- One option after others.
  sets-Ensures :
      (os : List SocketOption) (o : SocketOption) (f : IoError → Error) (fd : Io)
      (q : Option IoError × Io)
      → Has os fd
      → options q.1 ≡ options fd ++ accepted q.0 o
      → (Has os q.1 → Partly q.1)
      → Ensures (λ _ s. Has (os ++ o ∷ []) s) Partly (mapped f (last_os_error q))
  sets-Ensures os o f fd (none, s) h e part =
      e ∙ ap (λ x. x ++ o ∷ []) h ∙ append_assoc (options io) os (o ∷ [])
  sets-Ensures os o f fd (some x, s) h e part = part (e ∙ append-nil (options fd) ∙ h)

  module _ (cs : SupportedCipherSuite)
      (ss : (ℕ × ConnectionTrafficSecrets) × (ℕ × ConnectionTrafficSecrets)) (fd : Io)
      (n : negotiated_cipher_suite conn ≡ some cs) (e : extract_secrets conn ≡ some ss)
      (start : Has [] fd) where
    -- The second half of the set-up, and what follows the secrets.
    abbrev rx_part : Action Io (Unit {0})
    rx_part = do
      rx_info ← lift ktls_compatibility (from_rustls b cs ss.1)
      setup_tls_info kernel b rx rx_info

    abbrev tx_part : Action Io (Unit {0})
    tx_part = do
      λ s. mapped ulp_error (setup_ulp kernel s)
      tx_info ← lift ktls_compatibility (from_rustls b cs ss.0)
      setup_tls_info kernel b tx tx_info
      rx_part

    module _ (itx : CryptoInfo) (of_tx : from_rustls b cs ss.0 ≡ ok itx) (s : Io)
        (before : Has (ulp_option ∷ info_option b tx itx ∷ []) s) where
      abbrev tx_option : SocketOption
      tx_option = info_option b tx itx

      rx_part-Ensures : Ensures Whole Partly (rx_part s)
      unfolding setup_tls_info
      rx_part-Ensures =
          continue-Ensures (λ i u. (from_rustls b cs ss.1 ≡ ok i) × (u ≡ s)) Partly Whole
            (λ info. setup_tls_info kernel b rx info) _
            (lift-Ensures Partly ktls_compatibility (from_rustls b cs ss.1) s (no_rx itx before))
            λ irx t (of_rx, same).
              map-Ensures (λ _ u. Has (ulp_option ∷ tx_option ∷ info_option b rx irx ∷ []) u) Whole
                Partly _
                (sets-Ensures (ulp_option ∷ tx_option ∷ []) (info_option b rx irx)
                  tls_crypto_info_error t _ (rw same before)
                  (options-setsockopt (info_option b rx irx) t) (no_rx itx))
                (λ _ u all. record {
                  suite = cs;
                  secrets = ss;
                  tx_info = itx;
                  rx_info = irx;
                  negotiated = n;
                  extracted = e;
                  of_tx = of_tx;
                  of_rx = of_rx;
                  set = all;
                })

    tx_part-Ensures : Ensures Whole Partly (tx_part fd)
    unfolding setup_ulp setup_tls_info
    tx_part-Ensures =
        continue-Ensures _ Partly Whole _ _
          (sets-Ensures [] ulp_option ulp_error fd _ start (options-setsockopt ulp_option fd)
            untouched)
          λ _ s1 h1.
            continue-Ensures (λ i s. (from_rustls b cs ss.0 ≡ ok i) × (s ≡ s1)) Partly Whole _ _
              (lift-Ensures Partly ktls_compatibility (from_rustls b cs ss.0) s1 (only_ulp h1))
              λ itx s2 (of_tx, same).
                continue-Ensures _ Partly Whole _ _
                  (sets-Ensures (ulp_option ∷ []) (info_option b tx itx) tls_crypto_info_error s2 _
                    (rw same h1) (options-setsockopt (info_option b tx itx) s2) only_ulp)
                  λ _ s3 h3. rx_part-Ensures itx of_tx s3 h3

  pub setup_inner-Ensures : Ensures Whole Partly (setup_inner b kernel rustls conn io)
  unfolding setup_inner
  setup_inner-Ensures =
      continue-Ensures (λ x s. (negotiated_cipher_suite conn ≡ some x) × (s ≡ io)) Partly Whole _ _
        (or_fail-Ensures Partly no_negotiated_cipher_suite (negotiated_cipher_suite conn) io
          (untouched start))
        λ cs s1 (n, same1).
          continue-Ensures (λ x s. (extract_secrets conn ≡ some x) × (s ≡ s1)) Partly Whole _ _
            (or_fail-Ensures Partly export_secrets (extract_secrets conn) s1
              (untouched (rw same1 start)))
            λ ss s2 (e, same2). tx_part-Ensures cs ss s2 n e (rw (same2, same1) start)
    where
      start : options io ≡ options io ++ []
      start = sym (append-nil (options io))
