-- ===== src/Pipeline.antt =====
-- Whole chains of a publisher, processors and a subscriber, as src/lib.rs, src/net_stream.rs and
-- test/test.rs set them up: the chain is linked from its end, and then the publisher runs.
pub mod Mapped
pub mod RepeatTake
pub mod UnzipTake
pub mod Relay
pub mod Echo
pub mod Printing
pub mod SetUp
pub mod Conversation
pub mod Queues
pub mod Oneway
