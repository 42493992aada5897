-- ===== src/Db.antt =====
-- zarabot/db: the owners of the tables, over one shared connection.
pub mod Store
pub mod Connection
pub mod Orders
pub mod Positions
pub mod StopOrders
pub mod Cooldowns
pub mod TradingDays
pub mod Signals
pub mod JobRuns
pub mod Snapshots
pub mod Preserved
pub mod Apart
mod Examples
mod DailyExamples
