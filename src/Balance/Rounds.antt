-- ===== src/Balance/Rounds.antt =====
-- What `pick_backend` (turbine/src/load_balancing_strategy.rs) picks, and in which order its round robin
-- goes.
use proxy_printer.Base.{
  length-take, length-drop, take-append-drop, ℕ, zero, suc, ◌+◌, ◌-◌, ◌%◌, ◌≤◌, ◌<◌, ◌≡◌, refl, sym,
  ap, ◌∙◌, List, [], ◌∷◌, ◌++◌, map, Option, some, none, subst, arith, length, get_elem?, take,
  drop, take_all,
}
use mathlib.Core.List.{Memᴰ, map-append}
use mathlib.Core.Path.{ap₂}
use native.Mathlib.Nat.{mod-lt, mod-add-mod, mod_self}
use proxy_printer.Config.{
  NonEmpty, iter, Backend, LoadBalancingStrategy, round_robin_at, random_pick,
}
use proxy_printer.Balance.{usize_mod, pick_backend}

module _ {A : Type 0} where
  get_elem?-some :
      (xs : List A) (i : ℕ) → i < length xs → (x : A) × (get_elem? xs i ≡ some x) × Memᴰ x xs
  get_elem?-some [] i h = elim h [ ]
  get_elem?-some (x ∷ xs) zero h = (x, refl, Memᴰ.head refl)
  get_elem?-some (x ∷ xs) (suc i) h =
      let (y, e, m) = get_elem?-some xs i (omega arith) in (y, e, Memᴰ.tail m)

  -- A slice of the list begins with the entry at its start.
  slice-suc :
      (xs : List A) (p m : ℕ)
      → p < length xs
      → map some (take (suc m) (drop p xs)) ≡ get_elem? xs p ∷ map some (take m (drop (suc p) xs))
  slice-suc [] p m h = elim h [ ]
  slice-suc (x ∷ xs) zero m h = refl
  slice-suc (x ∷ xs) (suc p) m h = slice-suc xs p m (omega arith)

-- The picks that follow one another, at the times that the clock shows.
pub picks : LoadBalancingStrategy → NonEmpty Backend → List (Option ℕ) → List (Option Backend)
picks s bs [] = []
picks s bs (t ∷ ts) = let (b, s') = pick_backend s t bs in b ∷ picks s' bs ts

-- With a clock after 1970 either strategy picks one of the backends.
pub pick_backend-some :
    (s : LoadBalancingStrategy) (nanos : ℕ) (bs : NonEmpty Backend)
    → (b : Backend) × ((pick_backend s (some nanos) bs).0 ≡ some b) × Memᴰ b (iter bs)
unfolding pick_backend
pick_backend-some (round_robin_at ix) nanos bs =
    get_elem?-some (iter bs) (ix % length (iter bs)) (omega arith)
pick_backend-some random_pick nanos bs =
    get_elem?-some (iter bs) (nanos % length (iter bs)) (omega arith)

pick_backend-mem-some :
    (s : LoadBalancingStrategy) (nanos : ℕ) (bs : NonEmpty Backend) (b : Backend)
    → (pick_backend s (some nanos) bs).0 ≡ some b
    → Memᴰ b (iter bs)
pick_backend-mem-some s nanos bs b e =
    let (b', found, mem) = pick_backend-some s nanos bs in
    let same : b' ≡ b = cc in subst (λ x. Memᴰ x (iter bs)) same mem

-- Every pick, by either strategy and at any time, is one of the backends.
pub pick_backend-mem :
    (s : LoadBalancingStrategy) (nanos : Option ℕ) (bs : NonEmpty Backend) (b : Backend)
    → (pick_backend s nanos bs).0 ≡ some b
    → Memᴰ b (iter bs)
unfolding pick_backend
pick_backend-mem s (some nanos) bs b e = pick_backend-mem-some s nanos bs b e
pick_backend-mem (round_robin_at ix) none bs b e =
    pick_backend-mem-some (round_robin_at ix) 0 bs b e
pick_backend-mem random_pick none bs b e = absurd (cc)

next-ix : (ix : ℕ) → ix + 1 < usize_mod → (ix + 1) % usize_mod ≡ ix + 1
next-ix ix h = omega arith

mod_suc : (a p n : ℕ) → a % n ≡ p → p + 1 < n → (a + 1) % n ≡ suc p
mod_suc a p n e h = grind arith

-- Picks that do not pass the end of the list.
picks-slice :
    (bs : NonEmpty Backend) (ix p : ℕ) (ts : List (Option ℕ))
    → ix % length (iter bs) ≡ p
    → p + length ts ≤ length (iter bs)
    → ix + length ts < usize_mod
    → picks (round_robin_at ix) bs ts ≡ map some (take (length ts) (drop p (iter bs)))
unfolding picks pick_backend
picks-slice bs ix p [] e fit small = refl
picks-slice bs ix p (t ∷ []) e fit small = rw e (sym (slice-suc (iter bs) p 0 (omega arith)))
picks-slice bs ix p (t ∷ u ∷ ts) e fit small =
    rw (next-ix ix (omega arith), e, slice-suc (iter bs) p (suc (length ts)) (omega arith))
      (ap (◌∷◌ (get_elem? (iter bs) p)) (
        picks-slice bs (ix + 1) (suc p) (u ∷ ts) (mod_suc ix p (length (iter bs)) e (omega arith))
          (omega arith) (omega arith)))

picks-append :
    (bs : NonEmpty Backend) (ix : ℕ) (ts us : List (Option ℕ))
    → ix + length ts < usize_mod
    → picks (round_robin_at ix) bs (ts ++ us)
      ≡ picks (round_robin_at ix) bs ts ++ picks (round_robin_at (ix + length ts)) bs us
unfolding picks pick_backend
picks-append bs ix [] us small = let e : ix + 0 ≡ ix = omega arith in rw e
picks-append bs ix (t ∷ ts) us small =
    let e : ix + suc (length ts) ≡ ix + 1 + length ts = omega arith in
    rw (next-ix ix (omega arith), e)
      (ap (◌∷◌ (get_elem? (iter bs) (ix % length (iter bs))))
        (picks-append bs (ix + 1) ts us (omega arith)))

mod_round : (a n : ℕ) → 0 < n → (a + (n - a % n)) % n ≡ 0
mod_round a n h =
    let lt : a % n < n = mod-lt a h in
    sym (mod-add-mod a n (n - a % n))
    ∙ (let e : a % n + (n - a % n) ≡ n = omega arith in rw (e, mod_self n))

module _ (bs : NonEmpty Backend) (ix : ℕ) (ts : List (Option ℕ)) (n : length ts ≡ length (iter bs))
    (small : ix + length ts < usize_mod) where
  -- Where the round starts, and how many picks there are before the end of the list.
  abbrev start : ℕ
  start = ix % length (iter bs)

  abbrev before : ℕ
  before = length (iter bs) - start

  length-before : length (take before ts) ≡ before
  length-before = omega (arith, length-take before ts)

  length-after : length (drop before ts) ≡ start
  length-after = omega (arith, length-drop before ts)

  picks-before : picks (round_robin_at ix) bs (take before ts) ≡ map some (drop start (iter bs))
  picks-before =
      picks-slice bs ix start (take before ts) refl (omega (arith, length-before))
        (omega (arith, length-before))
      ∙ ap (map some) (
          take_all (length (take before ts)) (drop start (iter bs))
            (omega (arith, length-before, length-drop start (iter bs))))

  picks-after :
      picks (round_robin_at (ix + length (take before ts))) bs (drop before ts)
      ≡ map some (take start (iter bs))
  picks-after =
      picks-slice bs (ix + length (take before ts)) 0 (drop before ts)
        (rw length-before (mod_round ix (length (iter bs)) (omega arith)))
        (omega (arith, length-after)) (omega (arith, length-before, length-after))
      ∙ ap (λ k. map some (take k (iter bs))) length-after

  -- As many picks as there are backends, by a round robin whose counter does not wrap on the way,
  -- give each backend once, in the order of the list from the one whose turn it is.
  pub picks-round :
      picks (round_robin_at ix) bs ts ≡ map some (drop start (iter bs) ++ take start (iter bs))
  picks-round =
      ap (picks (round_robin_at ix) bs) (sym (take-append-drop before ts))
      ∙ picks-append bs ix (take before ts) (drop before ts) (omega (arith, length-before))
      ∙ ap₂ ◌++◌ picks-before picks-after
      ∙ sym (map-append some (drop start (iter bs)) (take start (iter bs)))
