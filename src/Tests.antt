-- ===== src/Tests.antt =====
-- The theorems at concrete inputs, and runs of the model.
mod Processors
mod Taps
mod Wires
mod Systems
mod Pipelines
mod Allocator
mod Reactors
mod Slabs
mod Engines
mod Streams
mod Schedules
mod Oneways
mod Receivers
mod Contracts
mod Echoes
mod SetUps
mod Conversations
