-- ===== src/Client.antt =====
-- turbine/src/main.rs, `handle_client` and what it calls: the life of one connection. The answers of
-- the operating system, of rustls and of the other crates are parameters; what the code does to them
-- is written down as a list of effects.
pub mod Action
pub mod Hello
pub mod Connect
pub mod Handle
pub mod Effects
pub mod Parts
pub mod Names
pub mod Routing
pub mod Preface
pub mod Opening
pub mod Transfer
pub mod KtlsTcp
pub mod Success
pub mod Progress
pub mod Refused
mod Tests
