-- ===== src/Engine.antt =====
-- The configuration engine: internal/configengine/engine.go. `Types` has its data, `Auth` the
-- derivation of credentials, `Policies`, `Externals`, `Inbounds`, `Outbounds` and `Stats` the
-- functions that build the parts of a configuration, and `Config` puts them together. The other
-- children prove.
pub mod Types
pub mod Auth
pub mod Policies
pub mod Externals
pub mod Outbounds
pub mod Inbounds
pub mod Stats
pub mod Config
pub mod Names
pub mod Relayed
pub mod Decided
pub mod Tags
pub mod Consistent
pub mod Targets
pub mod Resolution
mod Tests
pub mod Restrictions
pub mod Accounts
pub mod Order
pub mod Usable
pub mod Counted
pub mod Uuid
pub mod Excluded
