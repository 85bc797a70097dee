-- ===== src/Repositories.antt =====
-- The repositories of crates/infrastructure/src/database and src/repositories beside it.
pub mod Tags
pub mod Devices
pub mod Postgres
pub mod AgentConfigs
pub mod Configured
