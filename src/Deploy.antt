-- ===== src/Deploy.antt =====
-- Deploys: queueing them, what their logs report and how they end.
pub mod Markers
pub mod Ports
pub mod Dispatch
pub mod Rollback
