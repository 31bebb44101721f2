-- ===== src/Version.antt =====
-- src/version_utils.cc: versions, libraries and executables of the host.
pub mod Text
pub mod Ceph
pub mod Search
pub mod Deleted
pub mod Package
