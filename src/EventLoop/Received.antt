-- ===== src/EventLoop/Received.antt =====
-- The configurations that the event loop receives on its channel (turbine/src/event_loop.rs): the last
-- one is served.
use proxy_printer.Base.{◌≡◌, refl, ◌∙◌, true, List, [], ◌∷◌, ◌++◌, Option, none, All}
use proxy_printer.Net.{SocketAddr}
use proxy_printer.EventLoop.{Update, Signal, config_change, start, listen_config_change}
use proxy_printer.EventLoop.Store.{lookup, distinct}
use proxy_printer.EventLoop.Reload.{config_of, serves, AreMaps, listen_config_change-serves}

module _ {R : Type 0} where
  -- What the event loop receives.
  abbrev pub received : List (Update R) → List (Signal R)
  received [] = []
  received (u ∷ us) = config_change u ∷ received us

  abbrev pub AreDistinct : List (Update R) → Type 0
  AreDistinct us = All (λ u. distinct u ≡ true) us

  AreDistinct-AreMaps : (us : List (Update R)) → AreDistinct us → AreMaps (received us)
  AreDistinct-AreMaps [] d = tt
  AreDistinct-AreMaps (u ∷ us) (d, ds) = (d, AreDistinct-AreMaps us ds)

  pub AreDistinct-snoc :
      (us : List (Update R)) (t : Update R)
      → AreDistinct us
      → distinct t ≡ true
      → AreDistinct (us ++ t ∷ [])
  AreDistinct-snoc [] t d e = (e, tt)
  AreDistinct-snoc (u ∷ us) t (d, ds) e = (d, AreDistinct-snoc us t ds e)

  serves-snoc :
      (rules : SocketAddr → Option R) (us : List (Update R)) (t : Update R) (k : SocketAddr)
      → serves rules (received (us ++ t ∷ [])) k ≡ lookup k t
  serves-snoc rules [] t k = refl
  serves-snoc rules (u ∷ us) t k = serves-snoc (λ j. lookup j u) us t k

  -- The last configuration sent is the one that is served.
  pub config_of-received :
      (us : List (Update R)) (t : Update R) (k : SocketAddr)
      → AreDistinct (us ++ t ∷ [])
      → config_of (listen_config_change start (received (us ++ t ∷ []))) k ≡ lookup k t
  config_of-received us t k d =
      listen_config_change-serves (received (us ++ t ∷ [])) k (AreDistinct-AreMaps _ d)
      ∙ serves-snoc (λ j. none) us t k
