-- ===== src/Client/Transfer.antt =====
-- The last loop of `handle_client` (turbine/src/main.rs), which copies until it fails or time is up.
use proxy_printer.Base.{ℕ, suc, ◌≡◌, refl, ap, ◌⊎◌, inl, inr, List, [], ◌∷◌, ◌++◌, replicate}
use proxy_printer.Client.Action.{copies, returned, goes_on, Action, ◌>>=◌}
use proxy_printer.Client.Handle.{Round, copied, copy_failed, time_over, World, transfer}

-- A round that leaves the loop.
abbrev pub IsLast : Round → Type 0
IsLast copied = ⊥
IsLast copy_failed = Unit
IsLast time_over = Unit

module _ (limit : ℕ) where
  -- Every copy so far has come to its good end, and the next is to be begun.
  pub record GoesOn (rounds : List Round) (m : Action (Unit {0})) : Type 0 where
    pub n : ℕ
    pub finished : rounds ≡ replicate n copied
    pub run : m ≡ (goes_on, replicate n (copies limit))

  -- After `n` such copies, one that fails or runs out of time.
  pub record Leaves (rounds : List Round) (m : Action (Unit {0})) : Type 0 where
    pub n : ℕ
    pub last : Round
    pub rest : List Round
    pub leaves : IsLast last
    pub finished : rounds ≡ replicate n copied ++ last ∷ rest
    pub run : m ≡ (returned tt, replicate (suc n) (copies limit))

  module _ {Regex Acceptor : Type 0} (world : World Regex Acceptor) where
    -- The loop has two ways to go, and no third: it begins a new copy after each one that has come to
    -- its good end, however many there are, or it returns at the first that fails or runs out of time.
    pub transfer-GoesOn_or_Leaves :
        (rounds : List Round)
        → GoesOn rounds (transfer world limit rounds) ⊎ Leaves rounds (transfer world limit rounds)
    unfolding transfer ◌>>=◌
    transfer-GoesOn_or_Leaves [] = inl (record { n = 0; finished = refl; run = refl })
    transfer-GoesOn_or_Leaves (copied ∷ rest) = elim (transfer-GoesOn_or_Leaves rest) [
      | inl g ↦ inl (record {
        n = suc g.n;
        finished = ap (copied ∷◌) g.finished;
        run = ap (λ m. (m.0, copies limit ∷ m.1)) g.run;
      })
      | inr g ↦ inr (record {
        n = suc g.n;
        last = g.last;
        rest = g.rest;
        leaves = g.leaves;
        finished = ap (copied ∷◌) g.finished;
        run = ap (λ m. (m.0, copies limit ∷ m.1)) g.run;
      })
    ]
    transfer-GoesOn_or_Leaves (copy_failed ∷ rest) = inr (record {
      n = 0;
      last = copy_failed;
      rest = rest;
      leaves = tt;
      finished = refl;
      run = refl;
    })
    transfer-GoesOn_or_Leaves (time_over ∷ rest) =
        inr (record {
          n = 0;
          last = time_over;
          rest = rest;
          leaves = tt;
          finished = refl;
          run = refl;
        })
