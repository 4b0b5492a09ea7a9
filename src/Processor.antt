-- ===== src/Processor.antt =====
-- src/processorimpl.rs: the processors, one to a child module.
pub mod Contract
pub mod DoDebug
pub mod DebugWhile
pub mod Do
pub mod Map
pub mod MapVal1
pub mod Reduce
pub mod Enumerate
pub mod Tee
pub mod Unzip
pub mod Take
pub mod Mealy
pub mod Tap
