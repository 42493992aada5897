-- ===== src/Models.antt =====
-- zarabot/models.py: the domain types that every module shares, and what their constructors check.
mod Enums
mod Records
mod Validation
pub use Enums.*
pub use Records.*
unfoldable pub use Validation.*
