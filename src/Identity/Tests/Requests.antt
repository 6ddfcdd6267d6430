-- ===== src/Identity/Tests/Requests.antt =====
-- packages/identity/src/auth-service.ts and caller-identity.ts: the theorems on requests at concrete data.
use stigmer_apps.Identity.Cookies.{
  refresh_cookie, cookie_of_header, cookie_of_parts, set_refresh_cookie, clear_refresh_cookie,
}
use stigmer_apps.Common.{
  table_get, is_space, trim_start, trim_end, Text, codes, text_eq, if◌then◌else◌, ◌≡◌, ◌≢◌, refl,
  some, none, [], ◌∷◌, true, false, inr, ◌≤◌, ℕ, ◌++◌, length, split, join, table_has, table_set,
  table_delete,
}
use stigmer_apps.ResourceApi.Errors.{connect}
use stigmer_apps.ResourceApi.Effects.{ok, throw}
use stigmer_apps.ResourceApi.Envelope.{PrincipalKind, CallerPrincipal, Resource, id_of}
use stigmer_apps.ResourceApi.Port.{StorePort}
use stigmer_apps.Identity.RateLimit.{
  email_window, new_limiter, allowed, check, record_failure, record_success, bounded, write_back,
  drop_expired, retry_after,
}
use stigmer_apps.Identity.Sessions.{
  row_of, serve_all, delete_where, mark_consumed, insert, consume, revoke_all_for_user,
}
use stigmer_apps.Identity.Stores.{
  consume_code, get_password_hash, returned, hash_activation_code, set_password_hash,
  generate_refresh_token, hash_refresh_token,
}
use stigmer_apps.Identity.AuthService.{
  within_budget, AuthRuntime, HandlerContext, AuthState, LoginRequest, ChangePasswordRequest,
  RedeemActivationCodeRequest, uniform_login_failure, login, refresh, change_password,
  redeem_activation_code, issue_session,
}
use stigmer_apps.Identity.AuthService.Steps.{with_session}
use stigmer_apps.Identity.AuthService.Login.{login-uniform, login-proved}
use stigmer_apps.Identity.AuthService.Sessions.{refresh-once}
use stigmer_apps.Identity.AuthService.Passwords.{IsReset, change_password-IsReset, redeem-once}
use stigmer_apps.Identity.CallerIdentity.{
  is_wa_id, resolve_by_phone, CallerIdentity, resolve_caller,
}
use stigmer_apps.Identity.CallerIdentity.Laws.{user_principal, IsBound, resolve_caller-IsBound}

abbrev User : Type 0
User = Resource (Unit {0}) (Unit {0})

abbrev ann : User
ann = record {
  api_version = [];
  kind = codes "User";
  metadata = some (record {
    id = codes "u1";
    version = 1;
    created_at = none;
    created_by = none;
    updated_at = none;
    updated_by = none;
  });
  spec = none;
  status = none;
}

abbrev rt : AuthRuntime (Unit {0}) (Unit {0})
rt = record {
  get_by_natural_key = λ v. ok (if text_eq v (codes "ann") then some ann else none);
  get_by_id = λ v. ok (if text_eq v (codes "u1") then some ann else none);
  issue = λ id. ok (codes "jwt");
  verify_password = λ p h. text_eq p h;
  hash_password = λ p. p;
  sha256_hex = λ s. s;
  to_lower_case = λ s. s;
  decimal = λ n. [];
  kind_name = λ k. [];
  type_name = codes "auth";
  limits = record { max_per_email = 2; max_global = 9; window_ms = 60_000 };
}

abbrev by_ann : CallerPrincipal
by_ann = record { id = codes "u1"; kind = PrincipalKind.user }

abbrev with_cookie : Text → ℕ → Text → HandlerContext
with_cookie token now random = record {
  cookie = some (codes "stigmer_refresh=" ++ token);
  caller = ok (some by_ann);
  now = now;
  random = random;
}

abbrev start : AuthState
start = record {
  limiter = new_limiter;
  refresh_tokens =
      record { token_hash = codes "t"; user_id = codes "u1"; expires_at = 90_000; consumed = false }
      ∷ [];
  credentials = (codes "u1", codes "old") ∷ [];
  activation_codes =
      record { user_id = codes "u1"; code_hash = codes "act_1"; expires_at = 90_000 } ∷ [];
  set_cookie = none;
}

abbrev at_noon : HandlerContext
at_noon = with_cookie (codes "t") 70_000 (codes "r")

abbrev later_on : HandlerContext
later_on = with_cookie (codes "t") 71_000 (codes "s")

abbrev wrong : LoginRequest
wrong = record { email = codes " ann "; password = codes "guess" }

abbrev right : LoginRequest
right = record { email = codes " ann "; password = codes "old" }

login-uniform_example : login rt at_noon wrong start ≡ (
  throw (connect uniform_login_failure),
  record start {
    limiter =
        record_failure rt.limits 70_000
          (codes "ann")
          (check rt.limits 70_000 (codes "ann") start.limiter).1;
  },
)
unfolding trim_end trim_start is_space check email_window table_get new_limiter text_eq
    get_password_hash
login-uniform_example =
    login-uniform rt at_noon wrong start refl refl refl
      (inr (inr (ann, codes "old", refl, refl, refl)))

login-proved_example :
    ((check rt.limits 70_000 (codes "ann") start.limiter).0 ≡ allowed)
    × (rt.get_by_natural_key (codes "ann") ≡ ok (some ann))
    × ((hash : Text) × (get_password_hash (codes "u1") start.credentials ≡ some hash)
        × (rt.verify_password right.password hash ≡ true))
    × ((login rt at_noon right start).1
        ≡ with_session rt at_noon ann (record start {
          limiter =
              record_success (codes "ann") (check rt.limits 70_000 (codes "ann") start.limiter).1;
        }))
unfolding text_eq trim_end trim_start is_space split join table_get table_has table_set table_delete
    check email_window new_limiter bounded write_back record_success record_failure drop_expired
    retry_after row_of delete_where mark_consumed insert consume revoke_all_for_user
    get_password_hash set_password_hash returned consume_code generate_refresh_token
    hash_refresh_token hash_activation_code refresh_cookie cookie_of_header cookie_of_parts
    set_refresh_cookie clear_refresh_cookie login within_budget issue_session refresh
    change_password redeem_activation_code
login-proved_example =
    login-proved rt at_noon right start
      {out = record { access_token = codes "jwt"; expires_in_seconds = 3600; user = ann }} refl

refresh-once_example :
    (refresh rt later_on (refresh rt at_noon start).1).0
    ≢ ok (record { access_token = codes "jwt"; expires_in_seconds = 3600 })
unfolding text_eq trim_end trim_start is_space split join table_get table_has table_set table_delete
    check email_window new_limiter bounded write_back record_success record_failure drop_expired
    retry_after row_of delete_where mark_consumed insert consume revoke_all_for_user
    get_password_hash set_password_hash returned consume_code generate_refresh_token
    hash_refresh_token hash_activation_code refresh_cookie cookie_of_header cookie_of_parts
    set_refresh_cookie clear_refresh_cookie login within_budget issue_session refresh
    change_password redeem_activation_code serve_all
refresh-once_example =
    refresh-once rt at_noon later_on start (refresh rt at_noon start).1 (refresh rt at_noon start).1
      (codes "t") [] {out = record { access_token = codes "jwt"; expires_in_seconds = 3600 }}
      (refl, tt) refl refl refl tt refl refl

abbrev new_password : ChangePasswordRequest
new_password = record { current_password = codes "old"; new_password = codes "new-secret" }

change_password-IsReset_example :
    (caller : CallerPrincipal) × (at_noon.caller ≡ ok (some caller))
    × (caller.kind ≡ PrincipalKind.user)
    × (8 ≤ length new_password.new_password)
    × ((h : Text) × (get_password_hash caller.id start.credentials ≡ some h)
        × (rt.verify_password new_password.current_password h ≡ true))
    × IsReset rt caller.id new_password.new_password
        (change_password rt at_noon new_password start).1
unfolding text_eq trim_end trim_start is_space split join table_get table_has table_set table_delete
    check email_window new_limiter bounded write_back record_success record_failure drop_expired
    retry_after row_of delete_where mark_consumed insert consume revoke_all_for_user
    get_password_hash set_password_hash returned consume_code generate_refresh_token
    hash_refresh_token hash_activation_code refresh_cookie cookie_of_header cookie_of_parts
    set_refresh_cookie clear_refresh_cookie login within_budget issue_session refresh
    change_password redeem_activation_code
change_password-IsReset_example =
    change_password-IsReset rt at_noon start new_password (refl, tt) refl

abbrev redemption : RedeemActivationCodeRequest
redemption = record { code = codes "act_1"; new_password = codes "new-secret" }

abbrev second_try : RedeemActivationCodeRequest
second_try = record { code = codes "act_1"; new_password = codes "other-secret" }

redeem-once_example :
    ((user : Text) × (returned 70_000
          (hash_activation_code rt.sha256_hex redemption.code)
          start.activation_codes
        ≡ some user)
      × IsReset rt user redemption.new_password
          (redeem_activation_code rt at_noon redemption start).1)
    × ((redeem_activation_code rt later_on second_try
          (redeem_activation_code rt at_noon redemption start).1).0
        ≢ ok tt)
unfolding text_eq trim_end trim_start is_space split join table_get table_has table_set table_delete
    check email_window new_limiter bounded write_back record_success record_failure drop_expired
    retry_after row_of delete_where mark_consumed insert consume revoke_all_for_user
    get_password_hash set_password_hash returned consume_code generate_refresh_token
    hash_refresh_token hash_activation_code refresh_cookie cookie_of_header cookie_of_parts
    set_refresh_cookie clear_refresh_cookie login within_budget issue_session refresh
    change_password redeem_activation_code
redeem-once_example =
    redeem-once rt at_noon later_on redemption second_try start
      (redeem_activation_code rt at_noon redemption start).1 (refl, tt) tt refl refl refl

abbrev users : StorePort (Unit {0}) User
users = record {
  insert = λ kind r w. (ok tt, w);
  save = λ kind r w. (ok tt, w);
  get_by_id = λ kind id w. ok none;
  get_by_natural_key = λ kind value w. ok none;
  list = λ kind query w. ok (record { items = ann ∷ []; total_count = 1 });
}

abbrev wa_id : CallerIdentity
wa_id = record { kind = codes "whatsapp_phone"; value = codes " 91123456 " }

resolve_caller-IsBound_example :
    ((resolve_caller users (λ s. s) wa_id tt).1 ≡ tt)
    × (by_ann ≡ user_principal (id_of ann))
    × IsBound users (λ s. s) tt wa_id ann
unfolding resolve_caller text_eq trim_end trim_start is_space resolve_by_phone is_wa_id
resolve_caller-IsBound_example =
    resolve_caller-IsBound users (λ s. s) tt wa_id {p = by_ann} {user = ann} refl
