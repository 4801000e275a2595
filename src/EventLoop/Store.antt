-- ===== src/EventLoop/Store.antt =====
-- The maps of turbine/src/event_loop.rs: `HashMap` over socket addresses as an association list, and
-- the store of channels as a function.
use proxy_printer.Base.{
  ℕ, ◌≡◌, refl, Bool, true, false, List, [], ◌∷◌, Option, some, none, arith, ◌==◌, if◌then◌else◌,
  Bool-cases, ◌⊎◌, inl, inr,
}
use proxy_printer.Net.{SocketAddr, addr_eq, addr_eq_iff}

unfoldable pub update {ℓ} : {V : Type ℓ} → (ℕ → V) → ℕ → V → ℕ → V
update f i v j = if i == j then v else f j

pub update_lem {ℓ} :
    {V : Type ℓ} (f : ℕ → V) (i : ℕ) (v : V) (j : ℕ) → update f i v j ≡ (if i == j then v else f j)
unfolding update
update_lem f i v j = refl

module _ {V : Type 0} where
  unfoldable pub lookup : SocketAddr → List (SocketAddr × V) → Option V
  lookup k [] = none
  lookup k ((j, v) ∷ m) = if addr_eq j k then some v else lookup k m

  unfoldable pub contains_key : SocketAddr → List (SocketAddr × V) → Bool
  unfolding lookup
  contains_key k m = elim (lookup k m) [ none ↦ false | some v ↦ true ]

  -- No key stands twice, as in a map.
  unfoldable pub distinct : List (SocketAddr × V) → Bool
  distinct [] = true
  distinct ((k, v) ∷ m) = let rest = distinct m in if contains_key k m then false else rest

  pub lookup-cons :
      (k j : SocketAddr) (v : V) (m : List (SocketAddr × V))
      → lookup k ((j, v) ∷ m) ≡ (if addr_eq j k then some v else lookup k m)
  unfolding lookup
  lookup-cons k j v m = refl

  pub contains_key-some :
      (k : SocketAddr) (m : List (SocketAddr × V)) (v : V)
      → lookup k m ≡ some v
      → contains_key k m ≡ true
  unfolding contains_key
  contains_key-some k m v e = ground arith

  pub contains_key-none :
      (k : SocketAddr) (m : List (SocketAddr × V)) → contains_key k m ≡ false → lookup k m ≡ none
  unfolding contains_key
  contains_key-none k m e = ground arith

pub addr_eq_refl : (a : SocketAddr) → addr_eq a a ≡ true
addr_eq_refl a = (addr_eq_iff a a).1 refl

-- An entry of a map from addresses to channels.
abbrev pub In : SocketAddr → ℕ → List (SocketAddr × ℕ) → Type 0
In k i [] = ⊥
In k i ((j, n) ∷ m) = ((j ≡ k) × (n ≡ i)) ⊎ In k i m

pub In-lookup :
    (k : SocketAddr) (i : ℕ) (m : List (SocketAddr × ℕ)) → lookup k m ≡ some i → In k i m
unfolding lookup
In-lookup k i [] e = cc
In-lookup k i ((j, n) ∷ m) e = elim (Bool-cases (addr_eq j k)) [
  | inl h ↦ inl ((addr_eq_iff j k).0 h, ground arith)
  | inr h ↦ inr (In-lookup k i m (ground arith))
]
