-- ===== src/Subscriber.antt =====
-- src/subscriber.rs: the subscribers that end a chain, one to a child module.
pub mod StdoutSubscriber
pub mod Decoupler
pub mod Collect
