-- ===== src/Ktls/Script.antt =====
-- A byte source that follows a script: it shows that the laws of `Source` can be met, and runs the
-- tests of the streams in ktls/src.
use proxy_printer.Base.{
  ℕ, ◌≤◌, refl, List, [], ◌∷◌, ◌++◌, some, arith, length, take, drop, length-take,
}
use proxy_printer.Ktls.Io.{Reply, filled, failed, pending, received, Source}
use proxy_printer.Ktls.Cork.{Codec}

pub record Script : Type 0 where
  pub past : List ℕ
  pub future : List Reply

abbrev pub put_back : List ℕ → List Reply → List Reply
put_back [] rest = rest
put_back (b ∷ bs) rest = filled (b ∷ bs) ∷ rest

-- The next entry answers; bytes that do not fit stay for the next read. At the end there are none.
abbrev pub answer : ℕ → List Reply → Reply × List Reply
answer n [] = (filled [], [])
answer n (filled bs ∷ rest) = (filled (take n bs), put_back (drop n bs) rest)
answer n (failed e ∷ rest) = (failed e, rest)
answer n (pending ∷ rest) = (pending, rest)

abbrev pub play : ℕ → Script → Reply × Script
play n s =
    let (r, rest) = answer n s.future in (r, record { past = s.past ++ received r; future = rest })

pub answer_fits : (n : ℕ) (rs : List Reply) → length (received (answer n rs).0) ≤ n
answer_fits n [] = omega arith
answer_fits n (filled bs ∷ rest) = omega (arith, length-take n bs)
answer_fits n (failed e ∷ rest) = omega arith
answer_fits n (pending ∷ rest) = omega arith

abbrev pub script : Source
script = record {
  Io = Script;
  poll_read = play;
  delivered = λ s. s.past;
  fits = λ n s. answer_fits n s.future;
  logs = λ n s. refl;
}

abbrev pub play_back : List Reply → Script
play_back rs = record { past = []; future = rs }

-- A codec that, like the one of rustls, decodes every value.
abbrev pub any_codec : Codec
any_codec = record {
  ContentType = List ℕ;
  ProtocolVersion = List ℕ;
  content_type = some;
  protocol_version = some;
}
