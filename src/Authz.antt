-- ===== src/Authz.antt =====
-- apps/law/backend/src/domain/authz and packages/authorization: who may do what in the firm.
pub mod Paging
pub mod Vocabulary
pub mod Results
pub mod Policy
pub mod Reconcile
pub mod Projection
pub mod Tests
