-- ===== src/Reconcile.antt =====
-- zarabot/broker/reconcile.py: the holdings at the broker against the local positions.
pub mod Sales
pub mod Holdings
pub mod Stops
pub mod Run
pub mod Kept
pub mod Findings
pub mod Feed
pub mod Invented
mod Examples
