-- ===== src/Splice/Tests.antt =====
-- The strategies (turbine/src/splice_strategy) with a map of sockets that is full.
use proxy_printer.Base.{ℕ, ◌+◌, ◌≡◌, refl, Option, some, none, ◌==◌, if◌then◌else◌}
use proxy_printer.Net.{v4}
use proxy_printer.Ktls.Results.{ok}
use proxy_printer.Sockmap.{SockHash, TcpStream, key_of, splice}
use proxy_printer.Splice.{done, Copy, by_map}

abbrev nowhere : Option (Unit {0})
nowhere = none

abbrev no_socket : Option ℕ
no_socket = none

refused_lem :
    (k fd : ℕ) (m m' : Unit {0}) (j : ℕ)
    → nowhere ≡ some m'
    → no_socket ≡ (if k == j then some fd else no_socket)
refused_lem k fd m m' j e = absurd (cc)

abbrev full : SockHash
full = record {
  Map = Unit;
  insert = λ k fd m. nowhere;
  get = λ j m. no_socket;
  get-insert = refused_lem;
}

abbrev local : TcpStream
local = record { local_addr = some (v4 1 443); peer_addr = some (v4 2 50000); fd = 7 }

abbrev upstream : TcpStream
upstream = record { local_addr = some (v4 1 40000); peer_addr = some (v4 3 8084); fd = 8 }

-- The world counts the copies.
abbrev counted : Copy ℕ
counted = record { plain = λ n. (ok (1, 1), n + 1); ktls = λ n. (ok (1, 1), n + 1) }

nothing_copied : (by_map full counted).splice_bidirectional local upstream (tt, 0) ≡ (done, (tt, 0))
unfolding by_map splice key_of
nothing_copied = refl
