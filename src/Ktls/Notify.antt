-- ===== src/Ktls/Notify.antt =====
-- ktls/src/ffi.rs, `send_close_notify`: an alert record, its type in a control message.
use proxy_printer.Base.{ℕ, ◌+◌, List, [], ◌∷◌, Option, length}
use proxy_printer.Ktls.Io.{IoError}
use proxy_printer.Ktls.Socket.{Socket, CmsgHdr, MsgHdr}
use proxy_printer.Ktls.Ffi.{sol_tls}

abbrev pub tls_set_record_type : ℕ
tls_set_record_type = 1

-- `ALERT`, 0x15.
abbrev pub alert_type : ℕ
alert_type = 21

-- `Cmsg::new`: the length counts the header, up to the offset of the data, and the data.
abbrev pub cmsg_new : ℕ → ℕ → ℕ → List ℕ → CmsgHdr
cmsg_new data_offset level typ bytes = record {
  cmsg_len = data_offset + length bytes;
  cmsg_level = level;
  cmsg_type = typ;
  bytes = bytes;
}

module _ (sock : Socket) where
  open sock use {Io, sendmsg, cmsg_data_offset, encoded_close_notify}

  abbrev pub close_notify_msg : MsgHdr
  close_notify_msg =
      let cmsg = cmsg_new cmsg_data_offset sol_tls tls_set_record_type (alert_type ∷ []) in
      record { iov = encoded_close_notify; control = cmsg; controllen = cmsg.cmsg_len }

  abbrev pub send_close_notify : Io → Option IoError × Io
  send_close_notify fd = sendmsg close_notify_msg fd
