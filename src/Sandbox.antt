-- ===== src/Sandbox.antt =====
-- sandbox/exchange.py: a simulated broker over historical bars.
pub mod Exchange
pub mod Fills
pub mod Firing
pub mod Advance
pub mod Broker
pub mod Positive
pub mod Kept
pub mod Solvency
pub mod Once
mod Examples
pub mod History
