-- ===== src/Config/Parse/Faults.antt =====
-- When the closure of `parse_config` over the upstreams (turbine/src/config/mod.rs) gives an error.
use proxy_printer.Base.{◌≡◌, inl, inr, ◌↔◌, List, Option, none, some, arith, Option-cases}
use proxy_printer.Tls.{
  Library, load_certificates_from_pem, load_private_key_from_file, tls_acceptor,
}
use proxy_printer.Config.{TlsConfig, UpstreamConfig}
use proxy_printer.Config.Parse.{acceptor_of, static_backends, build_upstream}

module _ (lib : Library) where
  open lib use {File, Certificate, PrivateKey, open_file, private_key, with_single_cert}

  -- Its certificates, its key, or the two together cannot be had.
  pub data IsBroken (tls : TlsConfig) : Type 0 where
    no_certificates : open_file tls.certificate ≡ none → IsBroken tls
    no_key_file : open_file tls.private_key ≡ none → IsBroken tls
    bad_key_file :
        (f : File) → open_file tls.private_key ≡ some f → private_key f ≡ none → IsBroken tls
    no_key :
        (f : File) → open_file tls.private_key ≡ some f → private_key f ≡ some none → IsBroken tls
    refused :
        (f : File) (certs : List Certificate) (key : PrivateKey)
        → load_certificates_from_pem lib tls.certificate ≡ some certs
        → open_file tls.private_key ≡ some f
        → private_key f ≡ some (some key)
        → with_single_cert certs key ≡ none
        → IsBroken tls

  -- An upstream without TLS has none of these.
  abbrev pub IsFaulty : Option TlsConfig → Type 0
  IsFaulty none = ⊥
  IsFaulty (some tls) = IsBroken tls

  acceptor_of-IsBroken : (tls : TlsConfig) → acceptor_of lib (some tls) ≡ none → IsBroken tls
  unfolding acceptor_of load_certificates_from_pem load_private_key_from_file tls_acceptor
  acceptor_of-IsBroken tls e = elim (Option-cases (open_file tls.certificate)) [
    | inl a ↦ no_certificates a
    | inr (c, a) ↦ elim (Option-cases (open_file tls.private_key)) [
      | inl b ↦ no_key_file b
      | inr (f, b) ↦ elim (Option-cases (private_key f)) [
        | inl k ↦ bad_key_file f b k
        | inr (found, k) ↦ elim (Option-cases found) [
          | inl n ↦ no_key f b (ground arith)
          | inr (key, n) ↦ elim (Option-cases (load_certificates_from_pem lib tls.certificate)) [
            | inl d ↦ absurd (ground arith)
            | inr (certs, d) ↦ refused f certs key d b (ground arith) (ground arith)
          ]
        ]
      ]
    ]
  ]

  IsBroken-acceptor_of : (tls : TlsConfig) → IsBroken tls → acceptor_of lib (some tls) ≡ none
  unfolding acceptor_of load_certificates_from_pem load_private_key_from_file tls_acceptor
  IsBroken-acceptor_of tls (no_certificates a) = ground arith
  IsBroken-acceptor_of tls (no_key_file b) = ground arith
  IsBroken-acceptor_of tls (bad_key_file f b k) = ground arith
  IsBroken-acceptor_of tls (no_key f b k) = ground arith
  IsBroken-acceptor_of tls (refused f certs key d b k r) = ground arith

  acceptor_of-none : (tls : Option TlsConfig) → (acceptor_of lib tls ≡ none) ↔ IsFaulty tls
  acceptor_of-none none = (unfold acceptor_of in λ e. cc, λ h. absurd h)
  acceptor_of-none (some tls) = (acceptor_of-IsBroken tls, IsBroken-acceptor_of tls)

  pub build_upstream-none :
      {Regex : Type 0} (u : UpstreamConfig Regex) → (build_upstream lib u ≡ none) ↔ IsFaulty u.tls
  unfolding build_upstream static_backends
  build_upstream-none u = elim (Option-cases (acceptor_of lib u.tls)) [
    | inl e ↦ (λ h. (acceptor_of-none u.tls).0 e, λ h. ground arith)
    | inr (a, e) ↦
        (λ h. absurd (ground arith), λ h. let bad = (acceptor_of-none u.tls).1 h in absurd (cc))
  ]
