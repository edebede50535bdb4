-- ===== src/Tests.antt =====
-- Runs of the definitions on concrete input, and the theorems applied to it.
mod Options
mod Blocks
mod Messages
mod Connections
mod Transfers
mod Paths
mod Observations
mod Sessions
mod Datagrams
mod Routing
