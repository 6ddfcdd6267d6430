-- ===== src/Identity/Sessions.antt =====
-- packages/identity/src/postgres/stores.ts: the refresh token store, with the rows of the table
-- `refresh_tokens` of migrations/0001_users.sql as a list. A transaction with its row lock is one
-- step; the two statements of an insert, which stand in none, are also steps of their own. `now()` of
-- the database is an argument. What a lost connection does is not modelled.
pub mod Rows
pub mod Spec
pub mod Laws
pub mod OneTime
use stigmer_apps.Common.{
  Text, codes, ◌++◌, text_eq, if◌then◌else◌, ltb, not, Bool, true, false, Option, none, some, List,
  [], ◌∷◌, ℕ, filter, map, find, is_some,
}
use stigmer_apps.ResourceApi.Errors.{bare}
use stigmer_apps.ResourceApi.Effects.{Action, Result, ok, throw}

pub record RefreshRow : Type 0 where
  pub token_hash : Text
  pub user_id : Text
  pub expires_at : ℕ
  pub consumed : Bool

pub data RefreshConsumeResult : Type 0 where
  consumed_for : (user_id : Text) → RefreshConsumeResult
  reused : (user_id : Text) → RefreshConsumeResult
  invalid : RefreshConsumeResult

abbrev pub RefreshTokens : Type 0
RefreshTokens = List RefreshRow

abbrev pub has_hash : Text → RefreshRow → Bool
has_hash h r = text_eq r.token_hash h

abbrev pub belongs_to : Text → RefreshRow → Bool
belongs_to u r = text_eq r.user_id u

abbrev pub is_over : ℕ → RefreshRow → Bool
is_over now r = ltb r.expires_at now

-- `SELECT … WHERE token_hash = $1`; the primary key leaves at most one row.
unfoldable pub row_of : Text → RefreshTokens → Option RefreshRow
row_of h [] = none
row_of h (r ∷ rs) = if has_hash h r then some r else row_of h rs

-- `DELETE … WHERE`
unfoldable pub delete_where : (RefreshRow → Bool) → RefreshTokens → RefreshTokens
delete_where p [] = []
delete_where p (r ∷ rs) = if p r then delete_where p rs else r ∷ delete_where p rs

-- `UPDATE … SET consumed_at = now() WHERE token_hash = $1`
unfoldable pub mark_consumed : Text → RefreshTokens → RefreshTokens
mark_consumed h [] = []
mark_consumed h (r ∷ rs) =
    (if has_hash h r then record r { consumed = true } else r) ∷ mark_consumed h rs

-- `DELETE … WHERE expires_at < now()`
abbrev pub purge : ℕ → RefreshTokens → RefreshTokens
purge now = delete_where (is_over now)

-- `INSERT INTO refresh_tokens`
abbrev pub insert_row : (user_id token_hash : Text) → (expires_at : ℕ) → Action RefreshTokens Unit
insert_row user hash expires rows =
    if is_some (row_of hash rows)
    then (throw (bare (codes "duplicate key value violates unique constraint")), rows)
    else (
      ok tt,
      record { token_hash = hash; user_id = user; expires_at = expires; consumed = false } ∷ rows,
    )

-- One statement after the other, so the purge stays when the insert is refused.
unfoldable pub insert :
    ℕ → (user_id token_hash : Text) → (expires_at : ℕ) → Action RefreshTokens Unit
insert now user hash expires rows = insert_row user hash expires (purge now rows)

unfoldable pub revoke_all_for_user : Text → RefreshTokens → RefreshTokens
revoke_all_for_user u = delete_where (belongs_to u)

-- The transaction, from the row that it locked.
abbrev pub consume_found :
    ℕ → Text → RefreshTokens → Option RefreshRow → RefreshConsumeResult × RefreshTokens
consume_found now h rows none = (invalid, rows)
consume_found now h rows (some r) =
    if r.consumed
    then (reused r.user_id, delete_where (belongs_to r.user_id) rows)
    else if is_over now r
    then (invalid, delete_where (has_hash h) rows)
    else (consumed_for r.user_id, mark_consumed h rows)

unfoldable pub consume : ℕ → Text → RefreshTokens → RefreshConsumeResult × RefreshTokens
consume now h rows = consume_found now h rows (row_of h rows)

-- The calls the store receives from any number of requests, in the order the database takes them. An
-- insert that another call comes into the middle of is a `purged` and, later, an `added`.
pub data SessionCall : Type 0 where
  inserted : (now : ℕ) (user_id token_hash : Text) (expires_at : ℕ) → SessionCall
  purged : (now : ℕ) → SessionCall
  added : (user_id token_hash : Text) (expires_at : ℕ) → SessionCall
  presented : (now : ℕ) (token_hash : Text) → SessionCall
  revoked : (user_id : Text) → SessionCall

-- What the caller sees of a call.
pub data Answer : Type 0 where
  done : Answer
  refused : Answer
  answered : RefreshConsumeResult → Answer

abbrev pub answer_of_insert : Result {0} Unit × RefreshTokens → Answer × RefreshTokens
answer_of_insert (ok _, rows) = (done, rows)
answer_of_insert (throw _, rows) = (refused, rows)

unfoldable pub serve : SessionCall → RefreshTokens → Answer × RefreshTokens
serve (inserted now u h x) rows = answer_of_insert (insert now u h x rows)
serve (purged now) rows = (done, purge now rows)
serve (added u h x) rows = answer_of_insert (insert_row u h x rows)
serve (presented now h) rows = (answered (consume now h rows).0, (consume now h rows).1)
serve (revoked u) rows = (done, revoke_all_for_user u rows)

unfoldable pub serve_all : List SessionCall → RefreshTokens → List Answer × RefreshTokens
serve_all [] rows = ([], rows)
serve_all (c ∷ cs) rows =
    let here = serve c rows in let rest = serve_all cs here.1 in (here.0 ∷ rest.0, rest.1)
