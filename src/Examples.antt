-- ===== src/Examples.antt =====
-- Concrete inputs, and the theorems applied at them.
pub mod Samples
pub mod Leases
pub mod Sandboxes
pub mod Logs
pub mod Calls
pub mod Transports
pub mod Agents
pub mod Hosts
pub mod Searches
