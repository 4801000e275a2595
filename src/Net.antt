-- ===== src/Net.antt =====
-- std::net::SocketAddr as turbine uses it: an address family, an address as a number, a port. The
-- flow label and the scope of an IPv6 address are always 0 here.
use proxy_printer.Base.{ℕ, ◌≡◌, ◌↔◌, Bool, true, false, ◌&&◌, arith, ◌==◌}

pub data SocketAddr : Type 0 where
  v4 : ℕ → ℕ → SocketAddr
  v6 : ℕ → ℕ → SocketAddr

abbrev pub port : SocketAddr → ℕ
port (v4 ip p) = p
port (v6 ip p) = p

abbrev pub is_ipv4 : SocketAddr → Bool
is_ipv4 (v4 ip p) = true
is_ipv4 (v6 ip p) = false

unfoldable pub addr_eq : SocketAddr → SocketAddr → Bool
addr_eq (v4 i p) (v4 j q) = i == j && p == q
addr_eq (v4 i p) (v6 j q) = false
addr_eq (v6 i p) (v4 j q) = false
addr_eq (v6 i p) (v6 j q) = i == j && p == q

pub addr_eq_iff : (a b : SocketAddr) → (addr_eq a b ≡ true) ↔ (a ≡ b)
unfolding addr_eq
addr_eq_iff (v4 i p) (v4 j q) = ground arith
addr_eq_iff (v4 i p) (v6 j q) = ground arith
addr_eq_iff (v6 i p) (v4 j q) = ground arith
addr_eq_iff (v6 i p) (v6 j q) = ground arith
