-- ===== src/Lib.antt =====
-- RxRust: streams of values that a publisher pushes through stages to a subscriber, an allocator in a
-- memory-mapped file, and a network engine that cuts messages from the bytes it receives. Paths below are from
-- the root of the repository.
--
-- Streams. A stage of src/processorimpl.rs is a subscriber to the stage before it and a publisher to the
-- stage behind it: it stores the latter boxed, and calls its methods. A subscriber is modelled as the
-- record `Subscriber` of what its methods do to its own state and to the world, and a stage as a function
-- from such a record to another one, so that a chain of stages is a chain of calls as in the code. A
-- method is an `Action`: it takes the world, and gives a value or ends in a panic. A loop is given fuel,
-- and a third outcome says that it ran out.
--   Reactive              src/reactive.rs: the traits, the defaults, and `run`
--   Reactive/Feed, Stages values delivered one by one; chains of two stages
--   Reactive/Endless      publishers whose values never end, over a subscriber that refuses one of them
--   DefaultMacros         src/default_macros.rs
--   Sendable              src/sendable.rs
--   Processor/...         src/processorimpl.rs, a module for each stage; Delivery below it says what the stage
--                         does with a list of values, against the machine of Processor/Mealy
--                         (one value in, at most one out) or Processor/Tap (values watched or sent elsewhere)
--   Processor/Contract    the signals that are not values, as an interface that every stage fills (Stages), and
--                         chains of stages against it (Chains)
--   Publisher/...         src/publisherimpl.rs, a module for each publisher
--   Subscriber/...        src/subscriber.rs, a module for each subscriber
--   Pipeline/...          chains: those of the test in src/lib.rs (Mapped, Printing), Repeat with Take, Unzip with Take, a
--                         Decoupler and a Coupler with a channel between them; Oneway: both chains of
--                         the test `oneway_test` in src/net_stream.rs with the bytes between them; Echo: the
--                         chain of the program test/test.rs, which sends back what a server receives, with the
--                         program's first message (First), the program as a whole (Program), the echo
--                         between two connections of an engine (Wire), and the engine and the echo
--                         as one system, whose parts go on in any order (System);
--                         SetUp: the engine that both of these tests make; Queues: channels as lists;
--                         Conversation: two engines and the wire between them
-- The closures, iterators, channels and the standard random generator are parameters; what a theorem needs of them
-- stands among its hypotheses. What is logged or printed is modelled only as an effect on the world.
-- Counters are machine words and wrap round. The fuel of a run is bounded by the length of the stream.
--
-- Allocator. src/mmap_allocator.rs.
--   MmapAllocator            the header, the region, and the arithmetic of the next slot on 64-bit words
--   MmapAllocator/Arena      `allocate` as atomic operations of any number of calls, in any order
--   MmapAllocator/Disjoint, Counted, Bounds, Round   what follows for blocks, statistics and bounds
--   MmapAllocator/Progress, Totals   calls that disturb each other, and how long they can
--   MmapAllocator/Tiling     the space that calls take together, whatever their order: requests as a quotient of
--                            lists
--   MmapAllocator/Journal    the tests `mmap_allocator_basic` (Blocks) and `mmap_allocator_boundaries` (Boundaries)
--   MmapAllocator/Files, Reload   `new`, `load`, `drop`: what they do to one file, whatever the system answers
-- The memory model of the hardware is not modelled: the operations on the cursor are sequentially consistent
-- in the code, and the statistics are one counter.
--
-- Network. src/protocol.rs, src/reactor.rs and src/net_stream.rs.
--   Protocol              the trait, and `BufProtocol`, over iobuf's buffers, which are a parameter
--   Reactor/Connection    a connection, its write queue, and the loop of `readable` that cuts messages
--   Reactor/Buffers       what mio reads from the buffers
--   Reactor/Draining, Parsing   what becomes of the bytes
--   Reactor/Services      what the engine calls of mio, iobuf and the standard library: one record of calls, and
--                         mio's slabs with the laws of a store that gives out tokens
--   Reactor/Engine        `EngineInner` and the configuration; Opening (`connect` and `listen`; Endings below it is about
--                         what they leave behind, with Slots, and Working about when they succeed), Events
--                         (`readable`, `writable`, `notify`, `timeout`), what holds of them in Isolation, Framing, Sending,
--                         Receiving and Accepting, and in Loop what holds of several events, and of every
--                         engine that calls and events lead to, in any order
--   Reactor/NetEngine     an engine with its event loop
--   NetStream             src/net_stream.rs: a connection as a subscriber and a publisher; Delivery compares it
--                         with a Decoupler and a Coupler; U64Protocol is the protocol of its tests, on a
--                         little-endian machine
-- The fuel of the write queue is one round for each byte and each buffer, of the parsing loop one for each byte,
-- and one more.
--
-- Scheduler and member functions.
--   Scheduler             src/scheduler.rs: `fixed_loop`, over a clock, a timer and a sleep that are parameters; the
--                         signed words are the integers of Base/Int, cut to 64 bits. Rounds says how often the
--                         loop calls its function. The fuel is one more than the times it answers true.
--   MemberFn              src/memberfn.rs, which is no module of the crate
--
-- Not modelled: src/processorext.rs, an empty trait, and src/publisherext.rs, all of which is commented out; the
-- trait `Processor` of src/reactive.rs, which only joins the two others and which nothing uses; `Show` for the
-- header in src/mmap_allocator.rs and the objects that its first test writes; the
-- threads, where a spawn is a parameter, and Pipeline/Echo/System takes the steps of the engine and of the echo
-- one at a time, in any order, with messages that arrive between them; and what is logged.
pub mod Base
pub mod Effect
pub mod Reactive
pub mod DefaultMacros
pub mod Sendable
pub mod Processor
pub mod Subscriber
pub mod Publisher
pub mod Pipeline
pub mod MmapAllocator
pub mod Protocol
pub mod Reactor
pub mod NetStream
pub mod Scheduler
pub mod MemberFn
mod Tests
