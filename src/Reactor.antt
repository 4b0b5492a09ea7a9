-- ===== src/Reactor.antt =====
-- src/reactor.rs: the network engine. What it calls of mio, iobuf and the standard library are
-- parameters.
pub mod Connection
pub mod Services
pub mod Engine
pub mod Parsing
pub mod Draining
pub mod Buffers
pub mod NetEngine
