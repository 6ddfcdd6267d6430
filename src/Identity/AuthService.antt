-- ===== src/Identity/AuthService.antt =====
-- packages/identity/src/auth-service.ts: the handlers of AuthService. One request runs at one time of
-- the clock. The user store is only read; hashing, bcrypt, signing, the random bytes, lower-casing and
-- the printing of numbers are parameters, and so is the caller that the transport made out.
pub mod Steps
pub mod Login
pub mod Sessions
pub mod Passwords
use stigmer_apps.Common.{
  Text, codes, ◌++◌, text_eq, if◌then◌else◌, is_empty, leb, ltb, ◌==◌, not, Bool, true, false, ◌||◌,
  ◌&&◌, Option, none, some, Table, ℕ, ◌+◌, ◌*◌, ◌/◌, max, trim, length,
}
use stigmer_apps.ResourceApi.Codes.{Code}
use stigmer_apps.ResourceApi.Errors.{Failure, ConnectError, connect}
use stigmer_apps.ResourceApi.Effects.{
  Result, ok, throw, Action, pure, raise_connect, lift, ◌>>=◌, ◌>>◌,
}
use stigmer_apps.ResourceApi.Envelope.{PrincipalKind, CallerPrincipal, Resource, id_of}
use stigmer_apps.Identity.RateLimit.{
  Limits, RateLimiter, RateLimitDecision, allowed, denied, check, record_failure, record_success,
}
use stigmer_apps.Identity.Sessions.{
  RefreshTokens, RefreshConsumeResult, consumed_for, reused, invalid, insert, consume,
  revoke_all_for_user,
}
use stigmer_apps.Identity.Stores.{
  Credentials, set_password_hash, get_password_hash, ActivationCodes, consume_code,
  hash_activation_code, hash_refresh_token, generate_refresh_token, refresh_token_ttl_seconds,
  access_token_ttl_seconds, Secret,
}
use stigmer_apps.Identity.Cookies.{refresh_cookie, set_refresh_cookie, clear_refresh_cookie}

-- `AuthServiceDeps` and the functions of other packages.
pub record AuthRuntime (Spec Status : Type 0) : Type 0 where
  pub get_by_natural_key : (value : Text) → Result (Option (Resource Spec Status))
  pub get_by_id : (id : Text) → Result (Option (Resource Spec Status))
  pub issue : (user_id : Text) → Result Text
  pub verify_password : (password hash : Text) → Bool
  pub hash_password : Text → Text
  pub sha256_hex : Text → Text
  pub to_lower_case : Text → Text
  pub decimal : ℕ → Text
  pub kind_name : PrincipalKind → Text
  pub type_name : Text
  pub limits : Limits

-- What a handler finds with its request.
pub record HandlerContext : Type 0 where
  pub cookie : Option Text
  pub caller : Result (Option CallerPrincipal)
  pub now : ℕ
  pub random : Text

-- The state that outlives a request, and the cookie that the response sets.
pub record AuthState : Type 0 where
  pub limiter : RateLimiter
  pub refresh_tokens : RefreshTokens
  pub credentials : Credentials
  pub activation_codes : ActivationCodes
  pub set_cookie : Option Text

pub record LoginRequest : Type 0 where
  pub email : Text
  pub password : Text

pub record LoginResponse (User : Type 0) : Type 0 where
  pub access_token : Text
  pub expires_in_seconds : ℕ
  pub user : User

pub record RefreshResponse : Type 0 where
  pub access_token : Text
  pub expires_in_seconds : ℕ

pub record RedeemActivationCodeRequest : Type 0 where
  pub code : Text
  pub new_password : Text

pub record ChangePasswordRequest : Type 0 where
  pub current_password : Text
  pub new_password : Text

-- `caller.kind === "user"`
abbrev pub is_user : PrincipalKind → Bool
is_user PrincipalKind.user = true
is_user PrincipalKind.operator = false
is_user PrincipalKind.system = false

abbrev pub error : Code → Text → ConnectError
error code message = record { code = code; message = message }

abbrev pub uniform_login_failure : ConnectError
uniform_login_failure = error Code.unauthenticated (codes "Email or password is incorrect")

abbrev pub uniform_redeem_failure : ConnectError
uniform_redeem_failure = error Code.unauthenticated (codes "This code is not valid or has expired")

abbrev pub session_expired : ConnectError
session_expired = error Code.unauthenticated (codes "Your session has expired. Sign in again.")

abbrev pub session_ended : ConnectError
session_ended =
    error Code.unauthenticated (codes "Your session was ended for security reasons. Sign in again.")

module _ {Spec Status : Type 0} (rt : AuthRuntime Spec Status) (ctx : HandlerContext) where
  abbrev User : Type 0
  User = Resource Spec Status

  abbrev pub cookie_path : Text
  cookie_path = codes "/" ++ rt.type_name ++ codes "/"

  -- A statement that always comes to its end.
  abbrev pub change : (AuthState → AuthState) → Action AuthState (Unit {0})
  change f w = (ok tt, f w)

  abbrev pub fail : Text → Action AuthState (Unit {0})
  fail key = change (λ w. record w { limiter = record_failure rt.limits ctx.now key w.limiter })

  abbrev pub succeed : Text → Action AuthState (Unit {0})
  succeed key = change (λ w. record w { limiter = record_success key w.limiter })

  abbrev pub clear_cookie : Action AuthState (Unit {0})
  clear_cookie = change (λ w. record w { set_cookie = some (clear_refresh_cookie cookie_path) })

  abbrev minutes_of : ℕ → ℕ
  minutes_of seconds = max 1 ((seconds + 59) / 60)

  abbrev pub too_many : (lead : Text) → (seconds : ℕ) → ConnectError
  too_many lead seconds = error Code.resource_exhausted (
      lead
      ++ codes " Try again in about "
      ++ rt.decimal (minutes_of seconds)
      ++ codes " minute"
      ++ (if minutes_of seconds == 1 then codes "" else codes "s")
      ++ codes ".")

  abbrev pub of_decision : (lead : Text) → RateLimitDecision → Result (Unit {0})
  of_decision lead allowed = ok tt
  of_decision lead (denied seconds) = throw (connect (too_many lead seconds))

  -- The check of the budget that opens three of the handlers.
  unfoldable pub within_budget : (lead key : Text) → Action AuthState (Unit {0})
  within_budget lead key w =
      let checked = check rt.limits ctx.now key w.limiter in
      (of_decision lead checked.0, record w { limiter = checked.1 })

  abbrev insert_token : Text → Text → Action AuthState (Unit {0})
  insert_token user hash w =
      let out =
        insert ctx.now user hash (ctx.now + refresh_token_ttl_seconds * 1000) w.refresh_tokens in
      (out.0, record w { refresh_tokens = out.1 })

  -- `issueSession`
  unfoldable pub issue_session : User → Action AuthState Text
  issue_session user = do
    access_token ← lift (rt.issue (id_of user))
    let refresh = generate_refresh_token rt.sha256_hex ctx.random
    insert_token (id_of user) refresh.sha256_hex
    change (λ (w : AuthState). record w {
      set_cookie = some (set_refresh_cookie rt.decimal refresh.raw cookie_path);
    })
    pure access_token

  -- `user && hash && await verifyPassword(…)`: an empty hash is no hash.
  abbrev pub verified : (password : Text) → Option User → Option Text → Option User
  verified password none hash = none
  verified password (some user) none = none
  verified password (some user) (some hash) =
      if not (is_empty hash) && rt.verify_password password hash then some user else none

  abbrev pub stored_hash : Option User → Credentials → Option Text
  stored_hash none rows = none
  stored_hash (some user) rows = get_password_hash (id_of user) rows

  abbrev pub sign_in : (email : Text) → Option User → Action AuthState (LoginResponse User)
  sign_in email none = fail email >> raise_connect uniform_login_failure
  sign_in email (some user) = do
    succeed email
    access_token ← issue_session user
    pure (record {
      access_token = access_token;
      expires_in_seconds = access_token_ttl_seconds;
      user = user;
    })

  abbrev pub login_email : LoginRequest → Text
  login_email req = rt.to_lower_case (trim req.email)

  abbrev pub attempt_login : LoginRequest → (email : Text) → Action AuthState (LoginResponse User)
  attempt_login req email = do
    within_budget (codes "Too many sign-in attempts.") email
    user ← lift (rt.get_by_natural_key email)
    hash ← λ w. (ok (stored_hash user w.credentials), w)
    sign_in email (verified req.password user hash)

  unfoldable pub login : LoginRequest → Action AuthState (LoginResponse User)
  login req =
      if is_empty (login_email req) || is_empty req.password
      then raise_connect (error Code.invalid_argument (codes "Email and password are required"))
      else attempt_login req (login_email req)

  abbrev pub consume_token : Text → Action AuthState RefreshConsumeResult
  consume_token token w =
      let out = consume ctx.now (hash_refresh_token rt.sha256_hex token) w.refresh_tokens in
      (ok out.0, record w { refresh_tokens = out.1 })

  abbrev pub rotate : Option User → Action AuthState RefreshResponse
  rotate none = clear_cookie >> raise_connect session_expired
  rotate (some user) = do
    access_token ← issue_session user
    pure (record { access_token = access_token; expires_in_seconds = access_token_ttl_seconds })

  abbrev pub refreshed : RefreshConsumeResult → Action AuthState RefreshResponse
  refreshed (consumed_for user) = lift (rt.get_by_id user) >>= rotate
  refreshed (reused user) = clear_cookie >> raise_connect session_ended
  refreshed invalid = clear_cookie >> raise_connect session_expired

  abbrev refresh_with : Option Text → Action AuthState RefreshResponse
  refresh_with none =
      raise_connect (error Code.unauthenticated (codes "No active session — sign in"))
  refresh_with (some presented) = consume_token presented >>= refreshed

  unfoldable pub refresh : Action AuthState RefreshResponse
  refresh = refresh_with (refresh_cookie ctx.cookie)

  abbrev log_out : Option Text → Action AuthState (Unit {0})
  log_out none = clear_cookie
  log_out (some presented) = consume_token presented >> clear_cookie

  unfoldable pub logout : Action AuthState (Unit {0})
  logout = log_out (refresh_cookie ctx.cookie)

  abbrev found_user : Text → Option User → Action AuthState User
  found_user id none =
      raise_connect (error Code.not_found (codes "User '" ++ id ++ codes "' not found"))
  found_user id (some user) = pure user

  abbrev profile : Option CallerPrincipal → Action AuthState User
  profile none = raise_connect (error Code.unauthenticated (codes "Authentication required"))
  profile (some caller) = elim caller.kind [
    | PrincipalKind.user ↦ lift (rt.get_by_id caller.id) >>= found_user caller.id
    | other ↦ raise_connect (
        error Code.not_found
          (codes "The " ++ rt.kind_name other ++ codes " credential has no user profile"))
  ]

  unfoldable pub who_am_i : Action AuthState User
  who_am_i = lift ctx.caller >>= profile

  -- The stores' part of a new password: the hash is set and every session of the user ends.
  abbrev pub replace_password : (user_id password : Text) → Action AuthState (Unit {0})
  replace_password user password = change (λ w. record w {
    credentials = set_password_hash user (rt.hash_password password) w.credentials;
    refresh_tokens = revoke_all_for_user user w.refresh_tokens;
  })

  abbrev pub consume_activation : Text → Action AuthState (Option Text)
  consume_activation code w =
      let out = consume_code ctx.now (hash_activation_code rt.sha256_hex code) w.activation_codes in
      (ok out.0, record w { activation_codes = out.1 })

  abbrev pub redeemed :
      RedeemActivationCodeRequest → (key : Text) → Option Text → Action AuthState (Unit {0})
  redeemed req key none = fail key >> raise_connect uniform_redeem_failure
  redeemed req key (some user) = replace_password user req.new_password

  abbrev pub attempt_redeem :
      RedeemActivationCodeRequest → (key : Text) → Action AuthState (Unit {0})
  attempt_redeem req key = do
    within_budget (codes "Too many attempts.") key
    user ← consume_activation req.code
    redeemed req key user

  unfoldable pub redeem_activation_code : RedeemActivationCodeRequest → Action AuthState (Unit {0})
  redeem_activation_code req =
      if is_empty req.code || ltb (length req.new_password) 8
      then raise_connect (
          error Code.invalid_argument
            (codes "A code and a password of at least 8 characters are required"))
      else attempt_redeem req (codes "redeem:" ++ req.code)

  abbrev pub knows : (password : Text) → Option Text → Bool
  knows password none = false
  knows password (some hash) = not (is_empty hash) && rt.verify_password password hash

  abbrev pub exchange :
      ChangePasswordRequest → (user_id key : Text) → Bool → Action AuthState (Unit {0})
  exchange req user key false =
      fail key
      >> raise_connect (error Code.permission_denied (codes "The current password is incorrect"))
  exchange req user key true = succeed key >> replace_password user req.new_password >> clear_cookie

  abbrev pub attempt_change :
      ChangePasswordRequest → (user_id key : Text) → Action AuthState (Unit {0})
  attempt_change req user key = do
    within_budget (codes "Too many attempts.") key
    hash ← λ w. (ok (get_password_hash user w.credentials), w)
    exchange req user key (knows req.current_password hash)

  abbrev pub change_for : ChangePasswordRequest → CallerPrincipal → Action AuthState (Unit {0})
  change_for req caller =
      if ltb (length req.new_password) 8
      then raise_connect
          (error Code.invalid_argument (codes "The new password must be at least 8 characters"))
      else attempt_change req caller.id (codes "change:" ++ caller.id)

  abbrev pub as_user : ChangePasswordRequest → Option CallerPrincipal → Action AuthState (Unit {0})
  as_user req none = raise_connect (error Code.unauthenticated (codes "Authentication required"))
  as_user req (some caller) =
      if is_user caller.kind
      then change_for req caller
      else raise_connect (error Code.unauthenticated (codes "Authentication required"))

  unfoldable pub change_password : ChangePasswordRequest → Action AuthState (Unit {0})
  change_password req = lift ctx.caller >>= as_user req
