-- ===== src/Report.antt =====
-- src/osdtrace.cc: how userspace turns the records of the ring buffer into rows and histograms.
pub mod Op
pub mod Latency
pub mod Histogram
pub mod Name
pub mod Events
