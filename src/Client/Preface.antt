-- ===== src/Client/Preface.antt =====
-- The bytes that go to the upstream before the first copy (`handle_client` of turbine/src/main.rs), along
-- a sequence of actions.
use proxy_printer.Base.{
  ℕ, ◌≡◌, refl, sym, ap, ◌∙◌, List, [], ◌∷◌, ◌++◌, Option, none, some, All, append_assoc,
  append-nil,
}
use proxy_printer.Client.Action.{
  calls, advances, connects, sends, handshakes, copies, Effect, Failure, Done, returned, failed,
  panics, goes_on, Action, or_fail, or_panic, ◌>>=◌,
}
use proxy_printer.Client.Effects.{Emits}

-- The bytes sent.
abbrev pub sent : List Effect → List ℕ
sent [] = []
sent (sends bs ∷ t) = bs ++ sent t
sent (calls c ∷ t) = sent t
sent (advances s ∷ t) = sent t
sent (connects a ∷ t) = sent t
sent (handshakes ∷ t) = sent t
sent (copies l ∷ t) = sent t

abbrev pub before : List ℕ → Option (List ℕ) → Option (List ℕ)
before bs none = none
before bs (some rest) = some (bs ++ rest)

-- The bytes sent before the first copy, if there is one.
abbrev pub preface : List Effect → Option (List ℕ)
preface [] = none
preface (copies l ∷ t) = some []
preface (sends bs ∷ t) = before bs (preface t)
preface (calls c ∷ t) = preface t
preface (advances s ∷ t) = preface t
preface (connects a ∷ t) = preface t
preface (handshakes ∷ t) = preface t

-- An effect that is no copy; and one that sends nothing either.
abbrev pub IsPrior : Effect → Type 0
IsPrior (copies l) = ⊥
IsPrior (sends bs) = Unit
IsPrior (calls c) = Unit
IsPrior (advances s) = Unit
IsPrior (connects a) = Unit
IsPrior handshakes = Unit

abbrev pub IsSilent : Effect → Type 0
IsSilent (copies l) = ⊥
IsSilent (sends bs) = ⊥
IsSilent (calls c) = Unit
IsSilent (advances s) = Unit
IsSilent (connects a) = Unit
IsSilent handshakes = Unit

before-nil : (o : Option (List ℕ)) → before [] o ≡ o
before-nil none = refl
before-nil (some bs) = refl

before-append :
    (bs cs : List ℕ) (o : Option (List ℕ)) → before (bs ++ cs) o ≡ before bs (before cs o)
before-append bs cs none = refl
before-append bs cs (some rest) = ap some (append_assoc bs cs rest)

preface-append :
    (t t' : List Effect) → All IsPrior t → preface (t ++ t') ≡ before (sent t) (preface t')
preface-append [] t' h = sym (before-nil (preface t'))
preface-append (copies l ∷ t) t' (h, hs) = absurd h
preface-append (sends bs ∷ t) t' (h, hs) =
    ap (before bs) (preface-append t t' hs) ∙ sym (before-append bs (sent t) (preface t'))
preface-append (calls c ∷ t) t' (h, hs) = preface-append t t' hs
preface-append (advances s ∷ t) t' (h, hs) = preface-append t t' hs
preface-append (connects a ∷ t) t' (h, hs) = preface-append t t' hs
preface-append (handshakes ∷ t) t' (h, hs) = preface-append t t' hs

preface-IsPrior : (t : List Effect) → All IsPrior t → preface t ≡ none
preface-IsPrior t h = ap preface (sym (append-nil t)) ∙ preface-append t [] h

sent-IsSilent : (t : List Effect) → All IsSilent t → (sent t ≡ []) × All IsPrior t
sent-IsSilent [] h = (refl, tt)
sent-IsSilent (copies l ∷ t) (h, hs) = absurd h
sent-IsSilent (sends bs ∷ t) (h, hs) = absurd h
sent-IsSilent (calls c ∷ t) (h, hs) = let (e, k) = sent-IsSilent t hs in (e, (tt, k))
sent-IsSilent (advances s ∷ t) (h, hs) = let (e, k) = sent-IsSilent t hs in (e, (tt, k))
sent-IsSilent (connects a ∷ t) (h, hs) = let (e, k) = sent-IsSilent t hs in (e, (tt, k))
sent-IsSilent (handshakes ∷ t) (h, hs) = let (e, k) = sent-IsSilent t hs in (e, (tt, k))

sent-append : (t t' : List Effect) → All IsSilent t → sent (t ++ t') ≡ sent t'
sent-append [] t' h = refl
sent-append (copies l ∷ t) t' (h, hs) = absurd h
sent-append (sends bs ∷ t) t' (h, hs) = absurd h
sent-append (calls c ∷ t) t' (h, hs) = sent-append t t' hs
sent-append (advances s ∷ t) t' (h, hs) = sent-append t t' hs
sent-append (connects a ∷ t) t' (h, hs) = sent-append t t' hs
sent-append (handshakes ∷ t) t' (h, hs) = sent-append t t' hs

-- The bytes before the copy, if it comes to one, satisfy `Q`.
abbrev pub Says : (List ℕ → Type 0) → Option (List ℕ) → Type 0
Says Q none = Unit
Says Q (some bs) = Q bs

pub record Begins {A : Type 0} (Q : List ℕ → Type 0) (m : Action A) : Type 0 where
  pub says : Says Q (preface m.1)

Says-before :
    (Q : List ℕ → Type 0) (bs : List ℕ) (o : Option (List ℕ))
    → Says (λ rest. Q (bs ++ rest)) o
    → Says Q (before bs o)
Says-before Q bs none h = tt
Says-before Q bs (some rest) h = h

module _ (Q : List ℕ → Type 0) where
  pub bind-Begins :
      {A B : Type 0} (m : Action A) (f : A → Action B)
      → Emits IsPrior m
      → ((a : A) → m.0 ≡ returned a → Begins (λ rest. Q (sent m.1 ++ rest)) (f a))
      → Begins Q (m >>= f)
  unfolding ◌>>=◌
  bind-Begins (returned a, t) f p g = record {
    says =
        rw (preface-append t (f a).1 p.all)
          (Says-before Q (sent t) (preface (f a).1) (g a refl).says);
  }
  bind-Begins (failed e, t) f p g = record { says = rw (preface-IsPrior t p.all) tt }
  bind-Begins (panics, t) f p g = record { says = rw (preface-IsPrior t p.all) tt }
  bind-Begins (goes_on, t) f p g = record { says = rw (preface-IsPrior t p.all) tt }

  -- After an action that sends nothing.
  pub silent-Begins :
      {A B : Type 0} {m : Action A} {f : A → Action B}
      → Emits IsSilent m
      → ((a : A) → m.0 ≡ returned a → Begins Q (f a))
      → Begins Q (m >>= f)
  silent-Begins {m = m} {f} p g =
      let (e, k) = sent-IsSilent m.1 p.all in
      bind-Begins m f (record { all = k }) (λ a r. rw e (g a r))

  pub quiet-Begins : {A : Type 0} {r : Done A} → Begins Q (r, [])
  quiet-Begins = record { says = tt }

-- A silent action adds nothing to what is sent.
pub silent-eq-returned :
    {A B : Type 0} (m : Action A) (f : A → Action B) {b : B}
    → Emits IsSilent m
    → (m >>= f).0 ≡ returned b
    → (a : A) × (m.0 ≡ returned a) × ((f a).0 ≡ returned b) × (sent (m >>= f).1 ≡ sent (f a).1)
unfolding ◌>>=◌
silent-eq-returned (returned a, t) f p e = (a, refl, e, sent-append t (f a).1 p.all)
silent-eq-returned (failed x, t) f p e = cc
silent-eq-returned (panics, t) f p e = cc
silent-eq-returned (goes_on, t) f p e = cc

pub or_fail-eq-returned :
    {A : Type 0} (x : Failure) (o : Option A) {a : A} → (or_fail x o).0 ≡ returned a → o ≡ some a
unfolding or_fail
or_fail-eq-returned x none e = cc
or_fail-eq-returned x (some a) e = cc

pub or_panic-eq-returned :
    {A : Type 0} (o : Option A) {a : A} → (or_panic o).0 ≡ returned a → o ≡ some a
unfolding or_panic
or_panic-eq-returned none e = cc
or_panic-eq-returned (some a) e = cc
