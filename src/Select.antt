-- ===== src/Select.antt =====
-- What osdtrace traces: the embedded DWARF data of a build and the processes that run it.
pub mod Embedded
pub mod Process
pub mod Targets
pub mod OsdId
pub mod Hprobes
pub mod Args
pub mod Discover
pub mod Main
