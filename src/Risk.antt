-- ===== src/Risk.antt =====
-- zarabot/risk: the pure entry gate and the sizing of a position.
pub mod Sizing
pub mod Gate
mod Examples
