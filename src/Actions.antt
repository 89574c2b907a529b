-- ===== src/Actions.antt =====
-- internal/actionresolver: what becomes of an action that the model proposes.
pub mod Types
pub mod Catalogs
pub mod Codecs
pub mod Judge
pub mod Resolve
pub mod Slots
pub mod Grounded
pub mod Grouping
pub mod Clean
pub mod Supplied
pub mod Ready
pub mod OnlyValues
pub mod Intake
pub mod Preview
mod Examples
