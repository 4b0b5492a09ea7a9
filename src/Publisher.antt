-- ===== src/Publisher.antt =====
-- src/publisherimpl.rs: the publishers, one to a child module. A publisher holds a subscriber, and
-- no index.
pub mod RndGen
pub mod IterPublisher
pub mod Coupler
pub mod Repeat
