-- ===== src/Domain.antt =====
-- crates/domain: identifiers, tags, events and connection states.
pub mod TagId
pub mod Quality
pub mod Status
pub mod UpdateMode
pub mod Config
pub mod Event
pub mod Tag
pub mod Connection
pub mod Device
