-- ===== src/Client/Effects.antt =====
-- Which effects the parts of `handle_client` (turbine/src/main.rs) can have.
use proxy_printer.Base.{
  ℕ, Bool, true, false, ◌≡◌, refl, List, [], ◌∷◌, ◌++◌, Option, none, some, All,
}
use proxy_printer.Net.{SocketAddr}
use proxy_printer.Client.Action.{
  SocketCall, calls, connects, Effect, Failure, Done, returned, failed, panics, goes_on, Action,
  or_fail, or_panic, emit, ensure, ◌>>=◌,
}
use proxy_printer.Client.Hello.{ClientSocket, Messages, extract_tls_info}
use proxy_printer.Client.Connect.{
  ConnectAnswer, connected, in_progress, refused, WaitAnswer, elapsed, wait_failed, writable,
  ErrorCheck, unreadable, pending_error, clean, UpstreamSocket, call_all, create_socket, check,
  wait, established, connect_upstream,
}

All-append : {A : Type 0} (P : A → Type 0) (xs ys : List A) → All P xs → All P ys → All P (xs ++ ys)
All-append P [] ys h k = k
All-append P (x ∷ xs) ys (h, hs) k = (h, All-append P xs ys hs k)

-- What an action must have returned for the whole to return.
pub >>=-eq-returned :
    {A B : Type 0} (m : Action A) (f : A → Action B) {b : B}
    → (m >>= f).0 ≡ returned b
    → (a : A) × (m.0 ≡ returned a) × ((f a).0 ≡ returned b)
unfolding ◌>>=◌
>>=-eq-returned (returned a, t) f e = (a, refl, e)
>>=-eq-returned (failed x, t) f e = cc
>>=-eq-returned (panics, t) f e = cc
>>=-eq-returned (goes_on, t) f e = cc

-- Each effect of the action satisfies `P`.
pub record Emits {A : Type 0} (P : Effect → Type 0) (m : Action A) : Type 0 where
  pub all : All P m.1

module _ (P : Effect → Type 0) where
  -- The second action may use what the first one returned.
  pub bind-Emits :
      {A B : Type 0} {m : Action A} {f : A → Action B}
      → Emits P m
      → ((a : A) → m.0 ≡ returned a → Emits P (f a))
      → Emits P (m >>= f)
  unfolding ◌>>=◌
  bind-Emits {m = (returned a, t)} {f} h g = record {
    all = All-append P t (f a).1 h.all (g a refl).all;
  }
  bind-Emits {m = (failed e, t)} h g = record { all = h.all }
  bind-Emits {m = (panics, t)} h g = record { all = h.all }
  bind-Emits {m = (goes_on, t)} h g = record { all = h.all }

  pub quiet-Emits : {A : Type 0} {r : Done A} → Emits P (r, [])
  quiet-Emits = record { all = tt }

  pub emit-Emits : {e : Effect} → P e → Emits P (emit e)
  emit-Emits h = record { all = (h, tt) }

  pub or_fail-Emits : {A : Type 0} (e : Failure) (o : Option A) → Emits P (or_fail e o)
  unfolding or_fail
  or_fail-Emits e none = quiet-Emits
  or_fail-Emits e (some a) = quiet-Emits

  pub or_panic-Emits : {A : Type 0} (o : Option A) → Emits P (or_panic o)
  unfolding or_panic
  or_panic-Emits none = quiet-Emits
  or_panic-Emits (some a) = quiet-Emits

  pub ensure-Emits : (e : Failure) (b : Bool) → Emits P (ensure e b)
  unfolding ensure
  ensure-Emits e true = quiet-Emits
  ensure-Emits e false = quiet-Emits

  -- The look at the client's first message has no effects.
  pub extract_tls_info-Emits :
      (m : Messages) (client : ClientSocket) → Emits P (extract_tls_info m client)
  unfolding extract_tls_info
  extract_tls_info-Emits m client = bind-Emits (ensure-Emits _ _) λ _ _.
      bind-Emits (or_fail-Emits _ _) λ _ _. bind-Emits (or_fail-Emits _ _) λ _ _.
        bind-Emits (or_fail-Emits _ _) λ _ _.
          bind-Emits (or_fail-Emits _ _) λ _ _. bind-Emits (or_fail-Emits _ _) λ _ _. quiet-Emits

  module _ (sock : UpstreamSocket) (ok_calls : (c : SocketCall) → P (calls c)) where
    call_all-Emits : (cs : List SocketCall) → Emits P (call_all sock cs)
    unfolding call_all
    call_all-Emits [] = quiet-Emits
    call_all-Emits (c ∷ cs) =
        bind-Emits (emit-Emits (ok_calls c))
          λ _ _. bind-Emits (ensure-Emits _ _) λ _ _. call_all-Emits cs

    check-Emits : (e : ErrorCheck) → Emits P (check sock e)
    unfolding check
    check-Emits unreadable = quiet-Emits
    check-Emits pending_error = quiet-Emits
    check-Emits clean = quiet-Emits

    wait-Emits : (w : WaitAnswer) → Emits P (wait sock w)
    unfolding wait
    wait-Emits elapsed = quiet-Emits
    wait-Emits wait_failed = quiet-Emits
    wait-Emits writable = check-Emits sock.take_error

    established-Emits : (limit : ℕ) (a : ConnectAnswer) → Emits P (established sock limit a)
    unfolding established
    established-Emits limit connected = ensure-Emits _ _
    established-Emits limit refused = quiet-Emits
    established-Emits limit in_progress =
        bind-Emits (ensure-Emits _ _) λ _ _. wait-Emits (sock.wait_writable limit)

    create_socket-Emits : (addr : SocketAddr) → Emits P (create_socket sock addr)
    unfolding create_socket
    create_socket-Emits addr = call_all-Emits _

    -- A connection to the upstream has the calls on its socket and the connection itself.
    pub connect_upstream-Emits :
        (addr : SocketAddr) (limit : ℕ)
        → P (connects addr)
        → Emits P (connect_upstream sock addr limit)
    unfolding connect_upstream
    connect_upstream-Emits addr limit ok =
        bind-Emits (create_socket-Emits _)
          λ _ _. bind-Emits (emit-Emits ok) λ _ _. established-Emits limit (sock.connect addr)
