-- ===== src/Outages.antt =====
-- internal/services/app_outages.go, node_outages.go: when apps and nodes were down. A write that fails
-- is only logged in the source; here it succeeds.
pub mod Open
pub mod Apps
pub mod Nodes
pub mod Kept
pub mod Swept
pub mod Uptime
pub mod Instants
pub mod Tracking
mod Examples
