-- ===== src/Tests.antt =====
-- Runs of the model on concrete inputs, with a map that never evicts.
mod Maps
mod Probes
mod Rows
mod Targets
mod Clients
mod Ids
mod Requests
mod Versions
mod Modules
mod Events
mod Modes
mod Debuginfo
mod Files
mod Runs
mod Kernel
