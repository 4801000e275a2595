-- ===== src/Ktls.antt =====
-- The crate ktls (ktls/src): the stream that holds rustls back at a record boundary, the stream
-- over a kTLS socket, and the set-up of the kernel's side.
pub mod Io
pub mod Cork
pub mod Socket
pub mod Notify
pub mod Stream
pub mod Rustls
pub mod Results
pub mod Ffi
pub mod Setup
pub mod Ciphers
mod Script
mod Peer
pub mod Samples
