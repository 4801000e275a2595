-- ===== src/Match/Laws.antt =====
-- `find_matching_upstream` (turbine/src/match.rs) finds the first upstream whose match applies,
-- against a description of the matches by rules.
use proxy_printer.Base.{
  ◌∙◌, All, ℕ, ◌≡◌, refl, sym, ap, ◌↔◌, inl, inr, Bool, true, false, List, [], ◌∷◌, ◌++◌, Option,
  some, none, arith, bytes_eq, eq_of_bytes_eq, bytes_eq_refl, Bool-cases, Option-cases,
}
use mathlib.Core.List.{Memᴰ}
use proxy_printer.Net.{port}
use proxy_printer.Config.{
  MatchConfig, any, sni, sni_regex, sni_regex_not, alpn, destination_port, Upstream, NonEmpty, iter,
}
use proxy_printer.Match.{MatchContext, any_eq, matches, find, find_matching_upstream}

mem-any_eq : (names : List (List ℕ)) (bs : List ℕ) → any_eq names bs ≡ true → Memᴰ bs names
unfolding any_eq
mem-any_eq [] bs h = cc
mem-any_eq (a ∷ rest) bs h = elim (Bool-cases (bytes_eq a bs)) [
  | inl e ↦ Memᴰ.head (sym (eq_of_bytes_eq a bs e))
  | inr n ↦ Memᴰ.tail (mem-any_eq rest bs (ground arith))
]

any_eq-of_mem : {bs : List ℕ} {names : List (List ℕ)} → Memᴰ bs names → any_eq names bs ≡ true
unfolding any_eq
any_eq-of_mem {bs = bs} (Memᴰ.head e) = rw (← e, bytes_eq_refl bs)
any_eq-of_mem (Memᴰ.tail m) = ground (arith, any_eq-of_mem m)

module _ {Regex : Type 0} (is_match : Regex → List ℕ → Bool) where
  -- When a connection matches, by the kind of match. A missing server name or ALPN list matches
  -- no name, neither in a positive nor in a negative test.
  pub data Applies (c : MatchContext) : MatchConfig Regex → Type 0 where
    to_any : Applies c any
    to_name : (name : List ℕ) → c.server_name ≡ some name → Applies c (sni name)
    to_regex :
        (re : Regex) (name : List ℕ)
        → c.server_name ≡ some name
        → is_match re name ≡ true
        → Applies c (sni_regex re)
    to_regex_not :
        (re : Regex) (name : List ℕ)
        → c.server_name ≡ some name
        → is_match re name ≡ false
        → Applies c (sni_regex_not re)
    to_port : (dport : ℕ) → port c.destination ≡ dport → Applies c (destination_port dport)
    to_alpn :
        (name : List ℕ) (names : List (List ℕ))
        → c.alpns ≡ some names
        → Memᴰ name names
        → Applies c (alpn name)

  matches→Applies :
      (c : MatchContext) (m : MatchConfig Regex) → matches is_match c m ≡ true → Applies c m
  unfolding matches
  matches→Applies c any h = to_any
  matches→Applies c MatchConfig.none h = cc
  matches→Applies c (sni name) h = elim (Option-cases c.server_name) [
    | inl e ↦ ground arith
    | inr (n, e) ↦ to_name name (e ∙ ap some (eq_of_bytes_eq n name (ground arith)))
  ]
  matches→Applies c (sni_regex re) h = elim (Option-cases c.server_name) [
    | inl e ↦ ground arith
    | inr (n, e) ↦ to_regex re n e (ground arith)
  ]
  matches→Applies c (sni_regex_not re) h = elim (Option-cases c.server_name) [
    | inl e ↦ ground arith
    | inr (n, e) ↦ to_regex_not re n e (ground arith)
  ]
  matches→Applies c (destination_port dport) h = to_port dport (ground arith)
  matches→Applies c (alpn name) h = elim (Option-cases c.alpns) [
    | inl e ↦ ground arith
    | inr (ns, e) ↦ to_alpn name ns e (mem-any_eq ns name (ground arith))
  ]

  Applies→matches :
      (c : MatchContext) {m : MatchConfig Regex} → Applies c m → matches is_match c m ≡ true
  unfolding matches
  Applies→matches c to_any = refl
  Applies→matches c (to_name name e) = ground (arith, bytes_eq_refl name)
  Applies→matches c (to_regex re name e h) = ground arith
  Applies→matches c (to_regex_not re name e h) = ground arith
  Applies→matches c (to_port dport e) = ground arith
  Applies→matches c (to_alpn name names e m) = ground (arith, any_eq-of_mem m)

  -- The test of an upstream is true exactly when its match applies by the rules: any connection; a
  -- server name equal to the given one, or one on which the expression does, or does not, match;
  -- an ALPN name among those offered; the destination port.
  pub matches_iff :
      (c : MatchContext) (m : MatchConfig Regex) → (matches is_match c m ≡ true) ↔ Applies c m
  matches_iff c m = (matches→Applies c m, Applies→matches c)

module _ {Regex Acceptor : Type 0} (is_match : Regex → List ℕ → Bool) (c : MatchContext) where
  abbrev pub Suits : Upstream Regex Acceptor → Type 0
  Suits u = Applies is_match c u.cfg.match

  pub record First (us : List (Upstream Regex Acceptor)) (u : Upstream Regex Acceptor)
      : Type 0 where
    pub earlier : List (Upstream Regex Acceptor)
    pub later : List (Upstream Regex Acceptor)
    pub split : us ≡ earlier ++ u ∷ later
    pub suits : Suits u
    pub passed_over : All (λ v. ¬ (Suits v)) earlier

  -- What a search should give: the first upstream that suits, or none where none does.
  abbrev pub Picks : List (Upstream Regex Acceptor) → Option (Upstream Regex Acceptor) → Type 0
  Picks us (some u) = First us u
  Picks us none = All (λ v. ¬ (Suits v)) us

  Picks-cons :
      (u : Upstream Regex Acceptor) (us : List (Upstream Regex Acceptor))
      (r : Option (Upstream Regex Acceptor))
      → ¬ (Suits u)
      → Picks us r
      → Picks (u ∷ us) r
  Picks-cons u us none n h = (n, h)
  Picks-cons u us (some v) n h = record {
    earlier = u ∷ h.earlier;
    later = h.later;
    split = ap (◌∷◌ u) h.split;
    suits = h.suits;
    passed_over = (n, h.passed_over);
  }

  find-Picks : (us : List (Upstream Regex Acceptor)) → Picks us (find is_match c us)
  unfolding find
  find-Picks [] = tt
  find-Picks (u ∷ us) = elim (Bool-cases (matches is_match c u.cfg.match)) [
    | inl h ↦ rw h (record {
      earlier = [];
      later = us;
      split = refl;
      suits = (matches_iff is_match c u.cfg.match).0 h;
      passed_over = tt;
    })
    | inr h ↦ rw h (
        Picks-cons u us (find is_match c us) (λ s. cc ((matches_iff is_match c u.cfg.match).1 s))
          (find-Picks us))
  ]

  -- The search returns the first upstream whose match applies to the connection, with none before
  -- it that applies; and it returns none only if no upstream's match applies.
  pub find_matching_upstream-Picks :
      (us : NonEmpty (Upstream Regex Acceptor))
      → Picks (iter us) (find_matching_upstream is_match c us)
  unfolding find_matching_upstream
  find_matching_upstream-Picks us = find-Picks (iter us)
