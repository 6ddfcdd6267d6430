-- ===== src/Law.antt =====
-- apps/law/backend/src/domain: the resources of the law application, beyond their policy.
pub mod Tasks
pub mod Reminders
pub mod CaseMembers
mod Tests
