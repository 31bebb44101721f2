-- ===== src/Kfs.antt =====
-- kfstrace: the tracer of the kernel's Ceph clients.
pub mod Types
pub mod Osd
pub mod Name
pub mod Mds
pub mod Run
pub mod Show
pub mod Main
