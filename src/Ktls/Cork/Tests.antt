-- ===== src/Ktls/Cork/Tests.antt =====
-- `CorkStream` (ktls/src/cork_stream.rs) on concrete inputs.
use proxy_printer.Base.{◌+◌, ◌≡◌, refl, true, false, [], ◌∷◌, arith, length}
use proxy_printer.Ktls.Io.{filled, ReadBuf}
use proxy_printer.Ktls.Script.{Script, script, play_back, any_codec}
use proxy_printer.Ktls.Cork.{
  CorkStream, read_header, zeros, read_payload, new, poll_read, poll_loop, round, header_read,
  after_header, decode_header,
}
use proxy_printer.Ktls.Cork.Flow.{Transparent}
use proxy_printer.Ktls.Cork.Transparent.{poll_read-Transparent}
use proxy_printer.Ktls.Peer.{Peer, peer}
use proxy_printer.Ktls.Cork.Calls.{reads, writes, corks, run, Forwards, run-Forwards}
use proxy_printer.Ktls.Cork.Boundary.{budget, polls, polls-budget}

-- A record of three bytes that comes in two parts, and the first byte of the next one.
abbrev fragments : Script
fragments = play_back (filled (22 ∷ 3 ∷ []) ∷ filled (3 ∷ 0 ∷ 3 ∷ 7 ∷ 8 ∷ 9 ∷ 22 ∷ []) ∷ [])

abbrev roomy : ReadBuf
roomy = record { contents = []; capacity = 16 }

header_whole :
    (poll_read any_codec script (new fragments) roomy).buf.contents ≡ 22 ∷ 3 ∷ 3 ∷ 0 ∷ 3 ∷ []
unfolding new poll_read poll_loop round header_read after_header decode_header
header_whole = refl

poll_read-Transparent_example :
    Transparent any_codec script [] [] roomy (poll_read any_codec script (new fragments) roomy)
unfolding new
poll_read-Transparent_example =
    poll_read-Transparent any_codec script (new fragments) roomy (refl, omega arith) (omega arith)

-- Inside a payload of five bytes of which two are in, with more than the rest in the socket.
abbrev halfway : CorkStream Script
halfway = record {
  io = play_back (filled (7 ∷ 8 ∷ []) ∷ filled (9 ∷ 22 ∷ 3 ∷ []) ∷ []);
  corked = true;
  state = read_payload 5 2;
}

polls-budget_example :
    length (polls any_codec script halfway (roomy ∷ roomy ∷ roomy ∷ [])).io.past
      + budget (polls any_codec script halfway (roomy ∷ roomy ∷ roomy ∷ [])).state
    ≡ 3
polls-budget_example =
    polls-budget any_codec script halfway (roomy ∷ roomy ∷ roomy ∷ [])
      (record { corked = refl; within = omega arith })

-- The first record is read in two parts, with a write between them.
abbrev written_between : CorkStream Peer
written_between = record {
  io = record {
    incoming = play_back (filled (22 ∷ 3 ∷ 3 ∷ 0 ∷ 2 ∷ []) ∷ filled (7 ∷ 8 ∷ 22 ∷ []) ∷ []);
    controls = [];
    sent = 0;
    outgoing = [];
  };
  corked = false;
  state = read_header zeros 0;
}

run-Forwards_example :
    Forwards any_codec peer written_between
      (run any_codec peer written_between (reads 16 ∷ writes (1 ∷ []) ∷ corks true ∷ reads 16 ∷ []))
run-Forwards_example =
    run-Forwards any_codec peer written_between
      (reads 16 ∷ writes (1 ∷ []) ∷ corks true ∷ reads 16 ∷ []) (refl, omega arith)
      (omega arith, (tt, (tt, (omega arith, tt))))
