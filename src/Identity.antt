-- ===== src/Identity.antt =====
-- packages/identity/src: sign-in, sessions and the ways a caller becomes a principal.
pub mod RateLimit
pub mod Sessions
pub mod Stores
pub mod Cookies
pub mod AuthService
pub mod Callers
pub mod CallerIdentity
mod Tests
