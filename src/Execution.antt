-- ===== src/Execution.antt =====
-- zarabot/execution/orders.py: order submission and crash recovery.
pub mod Desk
pub mod Stops
pub mod Entries
pub mod Exits
pub mod Recovery
pub mod Kept
pub mod Halting
pub mod Outage
pub mod Closes
pub mod Answers
mod Examples
pub mod Operations
