-- ===== src/Ktls/Io.antt =====
-- What ktls/src takes from tokio and std: `ReadBuf`, the outcome of a poll, and the byte source
-- (`AsyncRead`) below a stream, which is a parameter with its documented laws.
use proxy_printer.Base.{ℕ, ◌-◌, ◌≤◌, ◌≡◌, List, [], ◌++◌, Option, length}

-- The kinds of `std::io::ErrorKind` that the code tells apart.
pub data ErrorKind : Type 0 where
  unexpected_eof broken_pipe other_kind : ErrorKind

pub record IoError : Type 0 where
  pub kind : ErrorKind
  pub raw_os_error : Option ℕ

-- What one read of the source gives: bytes (none at the end of the stream), an error, or nothing yet.
pub data Reply : Type 0 where
  filled : List ℕ → Reply
  failed : IoError → Reply
  pending : Reply

abbrev pub received : Reply → List ℕ
received (filled bs) = bs
received (failed e) = []
received pending = []

-- `AsyncRead::poll_read` with room for `n` bytes. `delivered` is the history of a source: all the
-- bytes that it has handed out.
pub record Source : Type 1 where
  pub Io : Type 0
  pub poll_read : ℕ → Io → Reply × Io
  pub delivered : Io → List ℕ
  pub fits : (n : ℕ) (io : Io) → length (received (poll_read n io).0) ≤ n
  pub logs :
      (n : ℕ) (io : Io) → delivered (poll_read n io).1 ≡ delivered io ++ received (poll_read n io).0

-- `tokio::io::ReadBuf` over an initialised slice of `capacity` bytes.
pub record ReadBuf : Type 0 where
  pub contents : List ℕ
  pub capacity : ℕ

abbrev pub remaining : ReadBuf → ℕ
remaining b = b.capacity - length b.contents

abbrev pub append : ReadBuf → List ℕ → ReadBuf
append b bs = record b { contents = b.contents ++ bs }

-- `task::Poll<io::Result<()>>`; a panic is an outcome too, and so is a loop cut short by its fuel.
pub data Poll : Type 0 where
  ready : Poll
  error : IoError → Poll
  not_ready : Poll
  panicked : Poll
  out_of_fuel : Poll
