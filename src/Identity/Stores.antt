-- ===== src/Identity/Stores.antt =====
-- packages/identity/src: credential-store.ts and activation-code.ts with their adapters in
-- postgres/stores.ts, and the secrets that are made and hashed. The tables are lists of rows; hashing
-- and randomness are parameters.
use stigmer_apps.Common.{
  Text, codes, ◌++◌, text_eq, if◌then◌else◌, leb, not, Bool, Option, none, some, List, [], ◌∷◌, ℕ,
  Table, table_get, table_set, filter, any, ◌&&◌, ◌*◌,
}
use stigmer_apps.ResourceApi.Errors.{bare}
use stigmer_apps.ResourceApi.Effects.{Action, ok, throw}

-- `user_credentials`, under the user's id.
abbrev pub Credentials : Type 0
Credentials = Table Text

unfoldable pub set_password_hash : (user_id password_hash : Text) → Credentials → Credentials
set_password_hash user hash rows = table_set user hash rows

unfoldable pub get_password_hash : (user_id : Text) → Credentials → Option Text
get_password_hash user rows = table_get user rows

pub record CodeRow : Type 0 where
  pub user_id : Text
  pub code_hash : Text
  pub expires_at : ℕ

abbrev pub ActivationCodes : Type 0
ActivationCodes = List CodeRow

abbrev other_with_hash : (user_id code_hash : Text) → CodeRow → Bool
other_with_hash user hash r = not (text_eq r.user_id user) && text_eq r.code_hash hash

-- The upsert: the user's row is replaced. The hash of another user's code is refused, as it is unique.
unfoldable pub issue_code :
    (user_id code_hash : Text) → (expires_at : ℕ) → Action ActivationCodes (Unit {0})
issue_code user hash expires rows =
    if any (other_with_hash user hash) rows
    then (throw (bare (codes "duplicate key value violates unique constraint")), rows)
    else (
      ok tt,
      record { user_id = user; code_hash = hash; expires_at = expires }
          ∷ filter (λ (r : CodeRow). not (text_eq r.user_id user)) rows,
    )

-- `RETURNING user_id, expires_at >= now()` of the deleted row.
unfoldable pub returned : ℕ → Text → ActivationCodes → Option Text
returned now hash [] = none
returned now hash (r ∷ rows) =
    if text_eq r.code_hash hash
    then (if leb now r.expires_at then some r.user_id else none)
    else returned now hash rows

unfoldable pub consume_code : ℕ → Text → ActivationCodes → Option Text × ActivationCodes
consume_code now hash rows =
    (returned now hash rows, filter (λ (r : CodeRow). not (text_eq r.code_hash hash)) rows)

abbrev pub activation_code_prefix : Text
activation_code_prefix = codes "act_"

abbrev pub activation_code_ttl_seconds : ℕ
activation_code_ttl_seconds = 3 * 24 * 60 * 60

abbrev pub refresh_token_prefix : Text
refresh_token_prefix = codes "rft_"

abbrev pub refresh_token_ttl_seconds : ℕ
refresh_token_ttl_seconds = 7 * 24 * 60 * 60

abbrev pub access_token_ttl_seconds : ℕ
access_token_ttl_seconds = 60 * 60

-- A raw secret, shown once, and what the store keeps of it.
pub record Secret : Type 0 where
  pub raw : Text
  pub sha256_hex : Text

module _ (sha256_hex : Text → Text) where
  unfoldable pub hash_activation_code : Text → Text
  hash_activation_code code = sha256_hex code

  unfoldable pub hash_refresh_token : Text → Text
  hash_refresh_token token = sha256_hex token

  -- `random` is what `randomBytes` gave, as base64url.
  unfoldable pub generate_activation_code : (random : Text) → Secret
  generate_activation_code random =
      let code = activation_code_prefix ++ random in
      record { raw = code; sha256_hex = hash_activation_code code }

  unfoldable pub generate_refresh_token : (random : Text) → Secret
  generate_refresh_token random =
      let token = refresh_token_prefix ++ random in
      record { raw = token; sha256_hex = hash_refresh_token token }
