-- ===== src/Config/Parse/Laws.antt =====
-- What `parse_config` (turbine/src/config/mod.rs) makes of a configuration: the rule of each address,
-- when it panics, and which upstreams stay.
use proxy_printer.Base.{
  ◌≡◌, refl, sym, ap, ◌∙◌, ◌⊎◌, inl, inr, ◌↔◌, Bool, true, false, List, [], ◌∷◌, Option, some, none,
  arith, All, if◌then◌else◌, Option-cases,
}
use proxy_printer.Net.{SocketAddr, addr_eq}
use proxy_printer.EventLoop.Store.{lookup, distinct}
use proxy_printer.Tls.{Library, Acceptor, FilePath, ◌>>=◌}
use proxy_printer.Config.{iter, UpstreamConfig, RuleConfig, Config, Upstream, Rule}
use proxy_printer.Config.Parse.Table.{insert, lookup-insert, distinct-insert}
use proxy_printer.Config.Parse.Faults.{IsFaulty, build_upstream-none}
use proxy_printer.Config.Parse.{
  parsed, panicked, collect, build_upstream, build_upstreams, build_rule, insert_all, build_rules,
  parse_config, Rules,
}

-- The address is among those of the rule.
abbrev pub listens : SocketAddr → List SocketAddr → Bool
listens a [] = false
listens a (b ∷ rest) = if addr_eq b a then true else listens a rest

module _ {Regex : Type 0} (lib : Library) where
  open lib use {Identity}

  lookup-insert_all :
      (addrs : List SocketAddr) (r : Rule Regex (Acceptor Identity)) (m : Rules Regex lib)
      (a : SocketAddr)
      → lookup a (insert_all lib addrs r m) ≡ (if listens a addrs then some r else lookup a m)
  unfolding insert_all
  lookup-insert_all [] r m a = refl
  lookup-insert_all (b ∷ rest) r m a =
      ground (arith, lookup-insert_all rest r (insert b r m) a, lookup-insert b r m a)

  distinct-insert_all :
      (addrs : List SocketAddr) (r : Rule Regex (Acceptor Identity)) (m : Rules Regex lib)
      → distinct m ≡ true
      → distinct (insert_all lib addrs r m) ≡ true
  unfolding insert_all
  distinct-insert_all [] r m d = d
  distinct-insert_all (b ∷ rest) r m d =
      distinct-insert_all rest r (insert b r m) (distinct-insert b r m d)

  -- The last rule of the file that lists the address, or else `old`.
  abbrev pub last_rule :
      SocketAddr
      → List (RuleConfig Regex)
      → Option (Rule Regex (Acceptor Identity))
      → Option (Rule Regex (Acceptor Identity))
  last_rule a [] old = old
  last_rule a (x ∷ xs) old =
      last_rule a xs (if listens a (iter x.listen_addr) then build_rule lib x else old)

  module _ (x : RuleConfig Regex) (xs : List (RuleConfig Regex)) (m : Rules Regex lib) where
    build_rules-none : build_rule lib x ≡ none → build_rules lib (x ∷ xs) m ≡ panicked
    unfolding build_rules
    build_rules-none f = rw (f, build_rules) refl

    build_rules-some :
        (r : Rule Regex (Acceptor Identity))
        → build_rule lib x ≡ some r
        → build_rules lib (x ∷ xs) m ≡ build_rules lib xs (insert_all lib (iter x.listen_addr) r m)
    unfolding build_rules
    build_rules-some r f = rw (f, build_rules) refl

  build_rules-lookup :
      (xs : List (RuleConfig Regex)) (m t : Rules Regex lib) (a : SocketAddr)
      → build_rules lib xs m ≡ parsed t
      → lookup a t ≡ last_rule a xs (lookup a m)
  build_rules-lookup [] m t a e = unfold build_rules in ground arith
  build_rules-lookup (x ∷ xs) m t a e = elim (Option-cases (build_rule lib x)) [
    | inl f ↦ cc (build_rules-none x xs m f)
    | inr (r, f) ↦
        build_rules-lookup xs (insert_all lib (iter x.listen_addr) r m) t a
          (sym (build_rules-some x xs m r f) ∙ e)
        ∙ ap (last_rule a xs) (rw f (lookup-insert_all (iter x.listen_addr) r m a))
  ]

  build_rules-distinct :
      (xs : List (RuleConfig Regex)) (m t : Rules Regex lib)
      → distinct m ≡ true
      → build_rules lib xs m ≡ parsed t
      → distinct t ≡ true
  build_rules-distinct [] m t d e = unfold build_rules in ground arith
  build_rules-distinct (x ∷ xs) m t d e = elim (Option-cases (build_rule lib x)) [
    | inl f ↦ cc (build_rules-none x xs m f)
    | inr (r, f) ↦
        build_rules-distinct xs (insert_all lib (iter x.listen_addr) r m) t
          (distinct-insert_all (iter x.listen_addr) r m d) (sym (build_rules-some x xs m r f) ∙ e)
  ]

  -- Every upstream of the rule has an error of its certificate, key or acceptor.
  abbrev pub IsDead : RuleConfig Regex → Type 0
  IsDead x = All (λ u. IsFaulty lib u.tls) (iter x.upstreams)

  abbrev pub SomeDead : List (RuleConfig Regex) → Type 0
  SomeDead [] = ⊥
  SomeDead (x ∷ xs) = IsDead x ⊎ SomeDead xs

  build_upstreams-nil :
      (us : List (UpstreamConfig Regex))
      → (build_upstreams lib us ≡ []) ↔ All (λ u. IsFaulty lib u.tls) us
  unfolding build_upstreams
  build_upstreams-nil [] = (λ e. tt, λ h. refl)
  build_upstreams-nil (u ∷ us) = elim (Option-cases (build_upstream lib u)) [
    | inl f ↦
        rw (f, build_upstreams)
          (
            λ e. ((build_upstream-none lib u).0 f, (build_upstreams-nil us).0 e),
            λ h. (build_upstreams-nil us).1 h.1,
          )
    | inr (v, f) ↦
        rw (f, build_upstreams)
          (λ e. cc, λ h. let bad = (build_upstream-none lib u).1 h.0 in absurd (cc))
  ]

  build_rule-none : (x : RuleConfig Regex) → (build_rule lib x ≡ none) ↔ IsDead x
  unfolding build_rule
  build_rule-none x = (
    λ e. (build_upstreams-nil (iter x.upstreams)).0 (nothing _ e),
    λ d. rw ((build_upstreams-nil (iter x.upstreams)).1 d) refl,
  )
    where
      nothing :
          (ups : List (Upstream Regex (Acceptor Identity)))
          → (collect ups >>= λ us. some (
              let r : Rule Regex (Acceptor Identity) = record {
                protocol = x.protocol;
                upstreams = us;
              } in
              r))
            ≡ none
          → ups ≡ []
      nothing [] e = refl
      nothing (u ∷ us) e = cc

  build_rules-panicked :
      (xs : List (RuleConfig Regex)) (m : Rules Regex lib)
      → (build_rules lib xs m ≡ panicked) ↔ SomeDead xs
  build_rules-panicked [] m = (unfold build_rules in λ e. cc, λ h. absurd h)
  build_rules-panicked (x ∷ xs) m = elim (Option-cases (build_rule lib x)) [
    | inl f ↦ (λ e. inl ((build_rule-none x).0 f), λ h. build_rules-none x xs m f)
    | inr (r, f) ↦
        let ih = build_rules-panicked xs (insert_all lib (iter x.listen_addr) r m) in
        let s = build_rules-some x xs m r f in
        (
          λ e. inr (ih.0 (sym s ∙ e)),
          elim [ inl dead ↦ cc ((build_rule-none x).1 dead) | inr later ↦ s ∙ ih.1 later ],
        )
  ]

  module _ (read : FilePath → Option (Config Regex)) (path : FilePath) where
    -- A configuration that is read and parsed gives each address the rule built from the last entry
    -- of the file that lists it, and no address twice.
    pub parse_config-rules :
        (c : Config Regex) (t : Rules Regex lib)
        → read path ≡ some c
        → parse_config lib read path ≡ parsed t
        → ((a : SocketAddr) → lookup a t ≡ last_rule a c.rules none) × (distinct t ≡ true)
    unfolding parse_config
    parse_config-rules c t f e =
        let g : build_rules lib c.rules [] ≡ parsed t = ground arith in
        (
          λ a.
              build_rules-lookup c.rules [] t a g
              ∙ ap (last_rule a c.rules) (unfold lookup in refl),
          build_rules-distinct c.rules [] t (unfold distinct in refl) g,
        )

    -- The parse of a configuration that is read panics exactly if, in some rule, every upstream asks for
    -- TLS and cannot have it: the file of its certificates or of its key cannot be opened, the latter
    -- has no key, or rustls refuses the two together.
    pub parse_config-panicked :
        (c : Config Regex)
        → read path ≡ some c
        → (parse_config lib read path ≡ panicked) ↔ SomeDead c.rules
    unfolding parse_config
    parse_config-panicked c f = rw (f, parse_config) (build_rules-panicked c.rules [])
