-- ===== src/Sockmap.antt =====
-- turbine/src/splice_strategy/ebpf_sockmap.rs and splice-ebpf/src/main.rs: the hash of a connection,
-- computed once by turbine and once in the kernel, and the map from hashes to sockets through which
-- the kernel redirects. Host and kernel program are little-endian.
pub mod Hash
pub mod Redirect
mod Tests
use proxy_printer.Base.{
  ℕ, ◌+◌, ◌-◌, ◌*◌, ◌/◌, ◌%◌, ◌^◌, ◌≡◌, Bool, true, false, Option, some, none, from_be, to_be,
  mul32, add32, if◌then◌else◌, ◌==◌,
}
use proxy_printer.Net.{SocketAddr, v4, v6, port}

-- `u128::from(ip)`, of an IPv4 address in its IPv6-mapped form.
unfoldable pub ip_number : SocketAddr → ℕ
ip_number (v4 ip p) = 65535 * 2 ^ 32 + ip
ip_number (v6 ip p) = ip

-- A byte of `to_be_bytes` of a `u128`.
unfoldable pub byte : ℕ → ℕ → ℕ
byte ip k = ip / 2 ^ (8 * (15 - k)) % 2 ^ 8

-- `u32::from_be_bytes([..]).to_be()` of four bytes.
unfoldable pub word : ℕ → ℕ → ℕ → ℕ → ℕ
word a b c d = to_be (from_be a b c d)

-- One round: `31u32.overflowing_mul(key).0.overflowing_add(w).0`, in the kernel program `31 * key + w`
-- (its profile has no overflow checks).
abbrev pub mix : ℕ → ℕ → ℕ
mix key w = add32 (mul32 31 key) w

-- The four words of an address, mixed into a key.
pub record Words : Type 0 where
  pub w0 : ℕ
  pub w1 : ℕ
  pub w2 : ℕ
  pub w3 : ℕ

unfoldable pub words : ℕ → Words
words ip = record {
  w0 = word (byte ip 0) (byte ip 1) (byte ip 2) (byte ip 3);
  w1 = word (byte ip 4) (byte ip 5) (byte ip 6) (byte ip 7);
  w2 = word (byte ip 8) (byte ip 9) (byte ip 10) (byte ip 11);
  w3 = word (byte ip 12) (byte ip 13) (byte ip 14) (byte ip 15);
}

unfoldable pub socket_hash : SocketAddr → SocketAddr → ℕ
socket_hash local_addr peer_addr =
    let l = words (ip_number local_addr) in
    let r = words (ip_number peer_addr) in
    let local_part = mix (mix (mix (mix l.w0 l.w1) l.w2) l.w3) (port local_addr) in
    let peer_part = mix (mix (mix (mix local_part r.w0) r.w1) r.w2) r.w3 in
    mix peer_part (to_be (port peer_addr))

-- What the kernel program reads of `__sk_buff`.
pub record SkBuff : Type 0 where
  pub local_ipv6 : Words
  pub local_port : ℕ
  pub remote_ipv6 : Words
  pub remote_port : ℕ

unfoldable pub verdict_key : SkBuff → ℕ
verdict_key skb =
    let l = skb.local_ipv6 in
    let r = skb.remote_ipv6 in
    let local_part = mix (mix (mix (mix l.w0 l.w1) l.w2) l.w3) skb.local_port in
    mix (mix (mix (mix (mix local_part r.w0) r.w1) r.w2) r.w3) skb.remote_port

-- The map of sockets (`SockHash`), by the descriptor that was put in. An insertion may fail, as when
-- the map is full; one that succeeds replaces what was there.
pub record SockHash : Type 1 where
  pub Map : Type 0
  pub insert : ℕ → ℕ → Map → Option Map
  pub get : ℕ → Map → Option ℕ
  pub get-insert :
      (k fd : ℕ) (m m' : Map) (j : ℕ)
      → insert k fd m ≡ some m'
      → get j m' ≡ (if k == j then some fd else get j m)

-- A `TcpStream`: its addresses, where the system can tell them, and its descriptor.
pub record TcpStream : Type 0 where
  pub local_addr : Option SocketAddr
  pub peer_addr : Option SocketAddr
  pub fd : ℕ

-- How `splice` goes on: it copies what is left in user space, has given up, or panics.
pub data Spliced : Type 0 where
  copies gave_up panicked : Spliced

module _ (h : SockHash) where
  open h use {Map, insert, get}

  -- `stream_verdict`: the socket that the data is redirected to, if any.
  unfoldable pub stream_verdict : Map → SkBuff → Option ℕ
  stream_verdict m skb = get (verdict_key skb) m

  -- `local_addr().unwrap()` and `peer_addr().unwrap()`.
  unfoldable pub key_of : TcpStream → Option ℕ
  key_of s = elim s.local_addr [
    | none ↦ none
    | some l ↦ elim s.peer_addr [ none ↦ none | some p ↦ some (socket_hash l p) ]
  ]

  unfoldable pub splice : Map → TcpStream → TcpStream → Spliced × Map
  splice m local upstream = elim (key_of local) [
    | none ↦ (panicked, m)
    | some key ↦ elim (insert key upstream.fd m) [
      | none ↦ (gave_up, m)
      | some m1 ↦ elim (key_of upstream) [
        | none ↦ (panicked, m1)
        | some key' ↦ elim (insert key' local.fd m1) [
          | none ↦ (gave_up, m1)
          | some m2 ↦ (copies, m2)
        ]
      ]
    ]
  ]
