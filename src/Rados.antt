-- ===== src/Rados.antt =====
-- radostrace: the tracer of librados clients.
pub mod Types
pub mod Probes
pub mod Run
pub mod Effects
pub mod Csv
pub mod Report
pub mod Clients
