-- ===== src/ResourceApi/Codes.antt =====
-- The codes of `Code` (connectrpc) that the applications answer with.
pub data Code : Type 0 where
  invalid_argument not_found already_exists failed_precondition : Code
  unauthenticated permission_denied internal resource_exhausted : Code
