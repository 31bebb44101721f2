-- ===== src/Bpf.antt =====
-- The in-kernel half of osdtrace.
pub mod Types
pub mod Maps
pub mod Tracer
pub mod Fetch
pub mod Queue
pub mod Store
pub mod Reply
pub mod Notes
pub mod Entry
pub mod Rules
pub mod Invariant
pub mod Run
pub mod Effects
pub mod OpNames
