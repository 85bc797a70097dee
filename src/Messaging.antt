-- ===== src/Messaging.antt =====
-- crates/infrastructure/src/messaging and database/sqlite_buffer.rs, and the command listener of
-- crates/application/src/messaging: events on their way to the broker, and commands from it.
pub mod Client
pub mod Publisher
pub mod Commands
