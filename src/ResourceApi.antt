-- ===== src/ResourceApi.antt =====
-- packages/resource-api: the proto-first resource pipeline of the commons.
pub mod Codes
pub mod Errors
pub mod Effects
pub mod Pipeline
pub mod Envelope
pub mod Store
pub mod Port
pub mod Resource
pub mod Publisher
pub mod References
pub mod Tests
