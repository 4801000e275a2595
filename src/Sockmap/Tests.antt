-- ===== src/Sockmap/Tests.antt =====
-- The socket map (turbine/src/splice_strategy/ebpf_sockmap.rs) with a map that holds every socket.
use proxy_printer.Base.{
  ℕ, ◌+◌, ◌*◌, ◌/◌, ◌%◌, ◌^◌, ◌≡◌, refl, Option, some, none, arith, ◌==◌, if◌then◌else◌,
}
use proxy_printer.Net.{SocketAddr, v4, v6, port}
use proxy_printer.Sockmap.{
  SkBuff, SockHash, TcpStream, copies, splice, key_of, stream_verdict, socket_hash, ip_number,
}
use proxy_printer.Sockmap.Hash.{network, load, IsSkbOf, socket_hash-collides}
use proxy_printer.Sockmap.Redirect.{splice-redirects}

put_lem :
    (k fd : ℕ) (m m' : ℕ → Option ℕ) (j : ℕ)
    → some (λ i. if k == i then some fd else m i) ≡ some m'
    → m' j ≡ (if k == j then some fd else m j)
put_lem k fd m m' j e = ground arith

abbrev all_sockets : SockHash
all_sockets = record {
  Map = ℕ → Option ℕ;
  insert = λ k fd m. some (λ j. if k == j then some fd else m j);
  get = λ j m. m j;
  get-insert = put_lem;
}

-- 10.0.0.1:443, its client 10.0.0.9:50000, and an upstream.
abbrev front : SocketAddr
front = v4 167772161 443

abbrev client : SocketAddr
client = v4 167772169 50000

abbrev near : SocketAddr
near = v6 1 40000

abbrev far : SocketAddr
far = v6 254 8084

abbrev local : TcpStream
local = record { local_addr = some front; peer_addr = some client; fd = 7 }

abbrev upstream : TcpStream
upstream = record { local_addr = some near; peer_addr = some far; fd = 8 }

abbrev skb_of : SocketAddr → SocketAddr → SkBuff
skb_of l p = record {
  local_ipv6 = network (ip_number l);
  local_port = port l;
  remote_ipv6 = network (ip_number p);
  remote_port = load 0 0 (port p / 2 ^ 8) (port p % 2 ^ 8);
}

is_skb : (l p : SocketAddr) → IsSkbOf l p (skb_of l p)
is_skb l p = record {
  local_words = refl;
  peer_words = refl;
  local_number = refl;
  peer_number = refl;
}

abbrev spliced : ℕ → Option ℕ
spliced = (splice all_sockets (λ j. none) local upstream).1

reaches_copy : splice all_sockets (λ j. none) local upstream ≡ (copies, spliced)
unfolding splice key_of
reaches_copy = refl

splice-redirects_example :
    (stream_verdict all_sockets spliced (skb_of near far) ≡ some 7)
    × (stream_verdict all_sockets spliced (skb_of front client)
        ≡ some (if socket_hash near far == socket_hash front client then 7 else 8))
splice-redirects_example =
    splice-redirects all_sockets (λ j. none) spliced local upstream front client near far
      (record { at_local = refl; at_peer = refl; is_port = omega arith })
      (record { at_local = refl; at_peer = refl; is_port = omega arith }) reaches_copy
      (skb_of near far) (skb_of front client) (is_skb near far) (is_skb front client)

socket_hash-collides_example :
    socket_hash front (v4 (167772169 + 2 ^ 8) 42064)
    ≡ socket_hash front (v4 167772169 (42064 + 31 * 2 ^ 8))
socket_hash-collides_example =
    socket_hash-collides front 167772169 42064 (omega arith) (omega arith)
