-- ===== src/Identity/AuthService/Steps.antt =====
-- packages/identity/src/auth-service.ts: the parts of the handlers, by how they end.
use stigmer_apps.Common.{Text, ◌≡◌, refl, some, ◌∷◌, false, ℕ, ◌+◌, ◌*◌, arith}
use stigmer_apps.ResourceApi.Effects.{ok}
use stigmer_apps.ResourceApi.Envelope.{Resource, id_of}
use stigmer_apps.Identity.RateLimit.{RateLimitDecision, allowed, denied, check}
use stigmer_apps.Identity.Sessions.{RefreshRow, RefreshTokens, insert, delete_where, is_over}
use stigmer_apps.Identity.Stores.{refresh_token_ttl_seconds, generate_refresh_token}
use stigmer_apps.Identity.Cookies.{set_refresh_cookie}
use stigmer_apps.Identity.AuthService.{
  AuthRuntime, HandlerContext, AuthState, within_budget, issue_session, of_decision, cookie_path,
}

-- An insert that succeeds adds a live row to those that have not expired.
pub insert-eq-ok :
    (now : ℕ) (u h : Text) (x : ℕ) (rows : RefreshTokens) {rows' : RefreshTokens}
    → insert now u h x rows ≡ (ok tt, rows')
    → rows'
      ≡ record { token_hash = h; user_id = u; expires_at = x; consumed = false }
        ∷ delete_where (is_over now) rows
unfolding insert
insert-eq-ok now u h x rows e = ground arith

module _ {Spec Status : Type 0} (rt : AuthRuntime Spec Status) (ctx : HandlerContext) where
  -- The row that a session leaves in the table.
  abbrev pub session_row : Resource Spec Status → RefreshRow
  session_row user = record {
    token_hash = (generate_refresh_token rt.sha256_hex ctx.random).sha256_hex;
    user_id = id_of user;
    expires_at = ctx.now + refresh_token_ttl_seconds * 1000;
    consumed = false;
  }

  abbrev pub with_session : Resource Spec Status → AuthState → AuthState
  with_session user w = record w {
    refresh_tokens = session_row user ∷ delete_where (is_over ctx.now) w.refresh_tokens;
    set_cookie = some (
        set_refresh_cookie rt.decimal (generate_refresh_token rt.sha256_hex ctx.random).raw
          (cookie_path rt ctx));
  }

  pub issue_session-eq-ok :
      (user : Resource Spec Status) (w : AuthState) {token : Text} {w' : AuthState}
      → issue_session rt ctx user w ≡ (ok token, w')
      → (rt.issue (id_of user) ≡ ok token) × (w' ≡ with_session user w)
  unfolding issue_session insert
  issue_session-eq-ok user w e = ground arith

  pub within_budget-eq-ok :
      (lead key : Text) (w : AuthState) {w' : AuthState}
      → within_budget rt ctx lead key w ≡ (ok tt, w')
      → ((check rt.limits ctx.now key w.limiter).0 ≡ allowed)
        × (w' ≡ record w { limiter = (check rt.limits ctx.now key w.limiter).1 })
  unfolding within_budget
  within_budget-eq-ok lead key w e = ground arith

  -- The session's row comes by an insert that the table accepted.
  pub issue_session-inserts :
      (user : Resource Spec Status) (w : AuthState) {token : Text} {w' : AuthState}
      → issue_session rt ctx user w ≡ (ok token, w')
      → insert ctx.now
          (id_of user)
          (session_row user).token_hash
          (session_row user).expires_at
          w.refresh_tokens
        ≡ (ok tt, w'.refresh_tokens)
  unfolding issue_session
  issue_session-inserts user w e = ground arith

  pub of_decision-eq-ok :
      (lead : Text) (d : RateLimitDecision) → of_decision rt ctx lead d ≡ ok tt → d ≡ allowed
  of_decision-eq-ok lead allowed e = refl
  of_decision-eq-ok lead (denied s) e = cc
