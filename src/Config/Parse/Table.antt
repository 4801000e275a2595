-- ===== src/Config/Parse/Table.antt =====
-- The map that `parse_config` (turbine/src/config/mod.rs) collects: a later entry replaces an earlier
-- one with its key.
use proxy_printer.Base.{◌≡◌, refl, true, List, [], ◌∷◌, some, arith, if◌then◌else◌}
use proxy_printer.Net.{SocketAddr, addr_eq, addr_eq_iff}
use proxy_printer.EventLoop.Store.{lookup, contains_key, distinct}

module _ {V : Type 0} where
  -- `HashMap::insert`.
  unfoldable pub insert : SocketAddr → V → List (SocketAddr × V) → List (SocketAddr × V)
  insert k v [] = (k, v) ∷ []
  insert k v ((j, w) ∷ m) = if addr_eq j k then (k, v) ∷ m else (j, w) ∷ insert k v m

  pub lookup-insert :
      (k : SocketAddr) (v : V) (m : List (SocketAddr × V)) (a : SocketAddr)
      → lookup a (insert k v m) ≡ (if addr_eq k a then some v else lookup a m)
  unfolding insert lookup
  lookup-insert k v [] a = refl
  lookup-insert k v ((j, w) ∷ m) a =
      ground (arith, addr_eq_iff j k, addr_eq_iff k a, addr_eq_iff j a, lookup-insert k v m a)

  pub distinct-insert :
      (k : SocketAddr) (v : V) (m : List (SocketAddr × V))
      → distinct m ≡ true
      → distinct (insert k v m) ≡ true
  unfolding insert distinct contains_key lookup
  distinct-insert k v [] d = refl
  distinct-insert k v ((j, w) ∷ m) d =
      ground (arith, addr_eq_iff j k, addr_eq_iff k j, lookup-insert k v m j, distinct-insert k v m)
