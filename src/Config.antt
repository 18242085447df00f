-- ===== src/Config.antt =====
-- Package config: what the operator sets.
pub mod Settings
pub mod Relay
pub mod Routes
pub mod Whole
pub mod Migrate
