-- ===== src/Sockmap/Hash.antt =====
-- The two hashes (`socket_hash` of turbine/src/splice_strategy/ebpf_sockmap.rs and `stream_verdict` of
-- splice-ebpf/src/main.rs) agree, and where they collide.
use proxy_printer.Base.{ℕ, ◌+◌, ◌*◌, ◌/◌, ◌%◌, ◌^◌, ◌<◌, ◌≡◌, refl, ap, ◌∙◌, arith, to_be}
use proxy_printer.Net.{SocketAddr, v4, port}
use proxy_printer.Sockmap.{
  ip_number, byte, word, mix, Words, words, socket_hash, SkBuff, verdict_key,
}

-- A little-endian load of four bytes that stand in this order.
abbrev pub load : ℕ → ℕ → ℕ → ℕ → ℕ
load a b c d = a + b * 2 ^ 8 + c * 2 ^ 16 + d * 2 ^ 24

-- The four words at an address in network byte order, as the kernel's context shows them.
abbrev pub network : ℕ → Words
network ip = record {
  w0 = load (byte ip 0) (byte ip 1) (byte ip 2) (byte ip 3);
  w1 = load (byte ip 4) (byte ip 5) (byte ip 6) (byte ip 7);
  w2 = load (byte ip 8) (byte ip 9) (byte ip 10) (byte ip 11);
  w3 = load (byte ip 12) (byte ip 13) (byte ip 14) (byte ip 15);
}

-- What `__sk_buff` shows of a socket (linux/bpf.h): the addresses in network byte order, the local
-- port as a number, the peer's port as its two bytes in network byte order, in the upper half of a
-- word. An IPv4 address appears in its mapped form.
pub record IsSkbOf (local peer : SocketAddr) (skb : SkBuff) : Type 0 where
  pub local_words : skb.local_ipv6 ≡ network (ip_number local)
  pub peer_words : skb.remote_ipv6 ≡ network (ip_number peer)
  pub local_number : skb.local_port ≡ port local
  pub peer_number : skb.remote_port ≡ load 0 0 (port peer / 2 ^ 8) (port peer % 2 ^ 8)

byte-lt : (ip k : ℕ) → byte ip k < 2 ^ 8
unfolding byte
byte-lt ip k = omega arith

word-load :
    (a b c d : ℕ) → a < 2 ^ 8 → b < 2 ^ 8 → c < 2 ^ 8 → d < 2 ^ 8 → word a b c d ≡ load a b c d
unfolding word
word-load a b c d ha hb hc hd = omega arith

word-bytes :
    (ip i j k l : ℕ)
    → word (byte ip i) (byte ip j) (byte ip k) (byte ip l)
      ≡ load (byte ip i) (byte ip j) (byte ip k) (byte ip l)
word-bytes ip i j k l =
    word-load _ _ _ _ (byte-lt ip i) (byte-lt ip j) (byte-lt ip k) (byte-lt ip l)

words-network : (ip : ℕ) → words ip ≡ network ip
unfolding words
words-network ip =
    rw
      (
        word-bytes ip 0 1 2 3,
        word-bytes ip 4 5 6 7,
        word-bytes ip 8 9 10 11,
        word-bytes ip 12 13 14 15,
      )
      refl

to_be-port : (p : ℕ) → p < 2 ^ 16 → to_be p ≡ load 0 0 (p / 2 ^ 8) (p % 2 ^ 8)
to_be-port p h = omega arith

-- For data of a socket, the key that the kernel program computes is the hash that turbine computes
-- from the socket's addresses, as long as the peer's port is a port.
pub verdict_key-socket_hash :
    (local peer : SocketAddr) (skb : SkBuff)
    → IsSkbOf local peer skb
    → port peer < 2 ^ 16
    → verdict_key skb ≡ socket_hash local peer
unfolding verdict_key socket_hash
verdict_key-socket_hash local peer skb s h =
    rw
      (
        s.local_words,
        s.peer_words,
        s.local_number,
        s.peer_number,
        words-network (ip_number local),
        words-network (ip_number peer),
        to_be-port (port peer) h,
      )
      refl

-- One more in the third byte of an IPv4 address: its word has 2^16 more, the others are the same.
module _ (x : ℕ) (h : x / 2 ^ 8 % 2 ^ 8 < 255) where
  same0 : (network (x + 2 ^ 8)).w0 ≡ (network x).w0
  unfolding byte
  same0 = omega arith

  same1 : (network (x + 2 ^ 8)).w1 ≡ (network x).w1
  unfolding byte
  same1 = omega arith

  same2 : (network (x + 2 ^ 8)).w2 ≡ (network x).w2
  unfolding byte
  same2 = omega arith

  more3 : (network (x + 2 ^ 8)).w3 ≡ (network x).w3 + 2 ^ 16
  unfolding byte
  more3 = omega arith

  words-next : words (x + 2 ^ 8) ≡ record (words x) { w3 = (words x).w3 + 2 ^ 16 }
  words-next = rw (words-network (x + 2 ^ 8), words-network x, same0, same1, same2, more3) refl

port-next : (p : ℕ) → p + 31 * 2 ^ 8 < 2 ^ 16 → to_be (p + 31 * 2 ^ 8) ≡ to_be p + 31 * 2 ^ 16
port-next p h = omega arith

mix-next : (key w u : ℕ) → mix (mix key (w + 2 ^ 16)) u ≡ mix (mix key w) (u + 31 * 2 ^ 16)
mix-next key w u = omega arith

-- The hash has collisions that need no chance: a peer whose IPv4 address has one more in its third
-- byte, with a port that is 31 * 256 less, hashes alike, whatever the local address is.
pub socket_hash-collides :
    (local : SocketAddr) (ip p : ℕ)
    → ip / 2 ^ 8 % 2 ^ 8 < 255
    → p + 31 * 2 ^ 8 < 2 ^ 16
    → socket_hash local (v4 (ip + 2 ^ 8) p) ≡ socket_hash local (v4 ip (p + 31 * 2 ^ 8))
unfolding socket_hash ip_number
socket_hash-collides local ip p h q =
    let x = 65535 * 2 ^ 32 + ip in
    let next : words (65535 * 2 ^ 32 + (ip + 2 ^ 8))
        ≡ record (words x) { w3 = (words x).w3 + 2 ^ 16 } =
      ap words (omega arith) ∙ words-next x (omega arith) in
    rw (next, port-next p q) (mix-next _ _ _)
