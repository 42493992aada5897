-- ===== src/App.antt =====
-- zarabot/app: what runs the parts together.
pub mod Shutdown
pub mod Executions
pub mod Confirmed
mod Examples
