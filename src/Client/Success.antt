-- ===== src/Client/Success.antt =====
-- Actions of `handle_client` (turbine/src/main.rs) that return, and the connection to the upstream.
use proxy_printer.Base.{ℕ, Bool, true, ◌≡◌, refl, List, [], ◌∷◌, Option, none, some, ◌⊎◌, inl, inr}
use mathlib.Core.List.{Memᴰ}
use mathlib.Core.List.Memᴰ
use proxy_printer.Net.{SocketAddr}
use proxy_printer.Client.Action.{
  SocketCall, Effect, Failure, returned, failed, panics, goes_on, Action, or_fail, or_panic, emit,
  ensure, ◌>>=◌,
}
use proxy_printer.Client.Connect.{
  connected, in_progress, writable, clean, UpstreamSocket, call_all, create_socket, check, wait,
  established, connect_upstream,
}

-- The action has the effect.
pub record Does {A : Type 0} (e : Effect) (m : Action A) : Type 0 where
  pub does : Memᴰ e m.1

-- The action returns.
pub record Succeeds {A : Type 0} (m : Action A) : Type 0 where
  pub value : A
  pub returns : m.0 ≡ returned value

pub bind-Does :
    {A B : Type 0} {e : Effect} {m : Action A} {f : A → Action B}
    → Succeeds m
    → ((a : A) → m.0 ≡ returned a → Does e (f a))
    → Does e (m >>= f)
unfolding ◌>>=◌
bind-Does {m = (returned a, t)} {f} s g = record { does = Memᴰ.append_right t (g a refl).does }
bind-Does {m = (failed x, t)} s g = let not_returned = s.returns in cc
bind-Does {m = (panics, t)} s g = let not_returned = s.returns in cc
bind-Does {m = (goes_on, t)} s g = let not_returned = s.returns in cc

pub bind-Succeeds :
    {A B : Type 0} {m : Action A} {f : A → Action B}
    → Succeeds m
    → ((a : A) → m.0 ≡ returned a → Succeeds (f a))
    → Succeeds (m >>= f)
unfolding ◌>>=◌
bind-Succeeds {m = (returned a, t)} {f} s g =
    let k = g a refl in record { value = k.value; returns = k.returns }
bind-Succeeds {m = (failed x, t)} s g = let not_returned = s.returns in cc
bind-Succeeds {m = (panics, t)} s g = let not_returned = s.returns in cc
bind-Succeeds {m = (goes_on, t)} s g = let not_returned = s.returns in cc

pub emit-Succeeds : {e : Effect} → Succeeds (emit e)
emit-Succeeds = record { value = tt; returns = refl }

pub ensure-Succeeds : (x : Failure) (b : Bool) → b ≡ true → Succeeds (ensure x b)
unfolding ensure
ensure-Succeeds x b h = rw h (record { value = tt; returns = refl })

pub or_fail-Succeeds :
    {A : Type 0} (x : Failure) (o : Option A) {a : A} → o ≡ some a → Succeeds (or_fail x o)
unfolding or_fail
or_fail-Succeeds x o {a} h = rw h (record { value = a; returns = refl })

pub or_panic-Succeeds : {A : Type 0} (o : Option A) {a : A} → o ≡ some a → Succeeds (or_panic o)
unfolding or_panic
or_panic-Succeeds o {a} h = rw h (record { value = a; returns = refl })

-- What is returned is the value.
pub or_fail-value :
    {A : Type 0} (x : Failure) {o : Option A} {a b : A}
    → (or_fail x o).0 ≡ returned b
    → o ≡ some a
    → b ≡ a
unfolding or_fail
or_fail-value x {o = none} e h = cc
or_fail-value x {o = some c} e h = cc

pub or_panic-value :
    {A : Type 0} {o : Option A} {a b : A} → (or_panic o).0 ≡ returned b → o ≡ some a → b ≡ a
unfolding or_panic
or_panic-value {o = none} e h = cc
or_panic-value {o = some c} e h = cc

module _ (sock : UpstreamSocket) where
  -- Connected at once, or after a wait that ends in time without an error.
  abbrev pub Answers : ℕ → SocketAddr → Type 0
  Answers limit addr =
      (sock.connect addr ≡ connected)
      ⊎ ((sock.connect addr ≡ in_progress)
          × (sock.wait_writable limit ≡ writable)
          × (sock.take_error ≡ clean))

  module _ (willing : (c : SocketCall) → sock.call c ≡ true) (from_std : sock.from_std ≡ true) where
    call_all-Succeeds : (cs : List SocketCall) → Succeeds (call_all sock cs)
    unfolding call_all
    call_all-Succeeds [] = record { value = tt; returns = refl }
    call_all-Succeeds (c ∷ cs) =
        bind-Succeeds emit-Succeeds
          λ _ _. bind-Succeeds (ensure-Succeeds _ _ (willing c)) λ _ _. call_all-Succeeds cs

    established-Succeeds :
        (limit : ℕ) (addr : SocketAddr)
        → Answers limit addr
        → Succeeds (established sock limit (sock.connect addr))
    unfolding established wait check
    established-Succeeds limit addr (inl h) = rw h (ensure-Succeeds _ _ from_std)
    established-Succeeds limit addr (inr (h, w, e)) = rw h (
        bind-Succeeds (ensure-Succeeds _ _ from_std)
          λ _ _. (rw w (rw e (record { value = tt; returns = refl }))))

    pub connect_upstream-Succeeds :
        (addr : SocketAddr) (limit : ℕ)
        → Answers limit addr
        → Succeeds (connect_upstream sock addr limit)
    unfolding connect_upstream create_socket
    connect_upstream-Succeeds addr limit a =
        bind-Succeeds (call_all-Succeeds _)
          λ _ _. bind-Succeeds emit-Succeeds λ _ _. established-Succeeds limit addr a
