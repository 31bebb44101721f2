-- ===== src/Bpf/Effects.antt =====
-- What single probes of src/osdtrace.bpf.c do to the state, on every branch.
pub mod Enqueue
pub mod Complete
pub mod Capture
