-- ===== src/Ktls/Socket.antt =====
-- What ktls/src/ktls_stream.rs asks of the socket below it, beyond the reads of `Source`: control
-- messages (`recvmsg` and `sendmsg`), writes, flushes and the shutdown. A parameter, with two histories: the
-- count of messages sent, all of which are close_notify alerts, and the bytes written.
use proxy_printer.Base.{ℕ, suc, ◌≡◌, List, Option}
use proxy_printer.Ktls.Io.{IoError, Source, Poll}

pub data Cmsg : Type 0 where
  tls_get_record_type : ℕ → Cmsg
  other_cmsg : Cmsg

-- `recvmsg`: the first control message and the first slice of data, EAGAIN, or another error.
pub data Received : Type 0 where
  message : Option Cmsg → Option (List ℕ) → Received
  again : Received
  errno : IoError → Received

-- `Poll<io::Result<usize>>`.
pub data WritePoll : Type 0 where
  wrote : ℕ → WritePoll
  write_error : IoError → WritePoll
  write_pending : WritePoll

-- `cmsghdr` with its data, and the parts of `msghdr` that are not null or 0.
pub record CmsgHdr : Type 0 where
  pub cmsg_len : ℕ
  pub cmsg_level : ℕ
  pub cmsg_type : ℕ
  pub bytes : List ℕ

pub record MsgHdr : Type 0 where
  pub iov : List ℕ
  pub control : CmsgHdr
  pub controllen : ℕ

pub record Socket : Type 1 where
  pub source : Source
  pub open source use *
  pub recvmsg : ℕ → Io → Received × Io
  -- `none` is a success, otherwise it is `last_os_error`.
  pub sendmsg : MsgHdr → Io → Option IoError × Io
  -- Where the data of a control message stands, and rustls's encoding of a close_notify alert.
  pub cmsg_data_offset : ℕ
  pub encoded_close_notify : List ℕ
  pub poll_write : List ℕ → Io → WritePoll × Io
  pub poll_shutdown : Io → Poll × Io
  pub poll_flush : Io → Poll × Io
  pub poll_read_ready : Io → Poll
  pub poll_write_ready : Io → Poll
  pub notified : Io → ℕ
  pub written : Io → List ℕ
  -- Each call adds to the history that it is about, and leaves the others.
  pub notified-poll_read : (n : ℕ) (io : Io) → notified (poll_read n io).1 ≡ notified io
  pub written-poll_read : (n : ℕ) (io : Io) → written (poll_read n io).1 ≡ written io
  pub notified-recvmsg : (n : ℕ) (io : Io) → notified (recvmsg n io).1 ≡ notified io
  pub written-recvmsg : (n : ℕ) (io : Io) → written (recvmsg n io).1 ≡ written io
  pub notified-send : (m : MsgHdr) (io : Io) → notified (sendmsg m io).1 ≡ suc (notified io)
  pub written-send : (m : MsgHdr) (io : Io) → written (sendmsg m io).1 ≡ written io
  pub notified-poll_write : (bs : List ℕ) (io : Io) → notified (poll_write bs io).1 ≡ notified io
  pub notified-poll_shutdown : (io : Io) → notified (poll_shutdown io).1 ≡ notified io
  pub written-poll_shutdown : (io : Io) → written (poll_shutdown io).1 ≡ written io
  pub delivered-poll_shutdown : (io : Io) → delivered (poll_shutdown io).1 ≡ delivered io
  pub delivered-poll_write : (bs : List ℕ) (io : Io) → delivered (poll_write bs io).1 ≡ delivered io
  pub notified-poll_flush : (io : Io) → notified (poll_flush io).1 ≡ notified io
  pub written-poll_flush : (io : Io) → written (poll_flush io).1 ≡ written io
  pub delivered-poll_flush : (io : Io) → delivered (poll_flush io).1 ≡ delivered io
