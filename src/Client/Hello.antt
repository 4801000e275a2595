-- ===== src/Client/Hello.antt =====
-- turbine/src/main.rs, `extract_tls_info`, and turbine/src/peekable_stream.rs: the names that a client
-- asks for, from its first TLS message, which is looked at and left in the socket.
use proxy_printer.Base.{ℕ, Bool, List, Option, none, some}
use proxy_printer.Client.Action.{Action, client_hello, pure, ensure, or_fail, ◌>>=◌, ◌>>◌}

-- `HandshakePayload` and `MessagePayload`, as far as they are told apart.
pub data HandshakePayload (Hello : Type 0) : Type 0 where
  hello : Hello → HandshakePayload Hello
  other_handshake : HandshakePayload Hello

pub data MessagePayload (Hello : Type 0) : Type 0 where
  handshake : HandshakePayload Hello → MessagePayload Hello
  other_message : MessagePayload Hello

-- The client's socket: whether the wait for it to be readable ends well, and what `peek` shows of the
-- bytes that have come, which stay where they are.
pub record ClientSocket : Type 0 where
  pub readable : Bool
  pub peek : ℕ → Option (List ℕ)

pub record PeekableStream : Type 0 where
  pub inner : ClientSocket

-- `Read::read` into a buffer of so many bytes.
abbrev pub read : PeekableStream → ℕ → Option (List ℕ)
read s len = s.inner.peek len

-- rustls's `MessageDeframer`, `Message` and the extensions of a ClientHello; `none` is an error, and
-- for the extensions their absence.
pub record Messages : Type 1 where
  pub Deframer : Type 0
  pub OpaqueMessage : Type 0
  pub Hello : Type 0
  pub ServerNames : Type 0
  pub deframe : (ℕ → Option (List ℕ)) → Option Deframer
  pub pop : Deframer → Option (Option OpaqueMessage)
  pub try_from : OpaqueMessage → Option (MessagePayload Hello)
  pub get_sni_extension : Hello → Option ServerNames
  pub get_single_hostname : ServerNames → Option (List ℕ)
  pub get_alpn_extension : Hello → Option (List (List ℕ))

module _ (m : Messages) where
  open m use {
    Hello, deframe, pop, try_from, get_sni_extension, get_single_hostname, get_alpn_extension,
  }

  -- The two names of a ClientHello; any other payload is an error.
  abbrev pub client_hello_of : MessagePayload Hello → Option Hello
  client_hello_of (handshake (hello h)) = some h
  client_hello_of (handshake other_handshake) = none
  client_hello_of other_message = none

  abbrev pub hostname : Hello → Option (List ℕ)
  hostname h = elim (get_sni_extension h) [ none ↦ none | some names ↦ get_single_hostname names ]

  unfoldable pub extract_tls_info : ClientSocket → Action (Option (List ℕ) × Option (List (List ℕ)))
  extract_tls_info stream = do
    ensure client_hello stream.readable
    tls_deframer ← or_fail client_hello (deframe (read (record { inner = stream })))
    popped ← or_fail client_hello (pop tls_deframer)
    opaque ← or_fail client_hello popped
    payload ← or_fail client_hello (try_from opaque)
    h ← or_fail client_hello (client_hello_of payload)
    pure (hostname h, get_alpn_extension h)
