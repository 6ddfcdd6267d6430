-- ===== src/Identity/Sessions/Spec.antt =====
-- packages/identity/src/refresh-token.ts: the contract of RefreshTokenStore, stated on what each
-- token hash stands for, with no table.
use stigmer_apps.Common.{
  Text, text_eq, if◌then◌else◌, ltb, Bool, true, false, Option, none, some, List, [], ◌∷◌, ℕ,
}
use stigmer_apps.Identity.Sessions.{
  RefreshRow, RefreshTokens, consumed_for, reused, invalid, row_of, SessionCall, inserted, purged,
  added, presented, revoked, Answer, done, refused, answered,
}

-- A token is unknown, live, or spent: presented once already.
pub data TokenStatus : Type 0 where
  unknown : TokenStatus
  live : (user_id : Text) (expires_at : ℕ) → TokenStatus
  spent : (user_id : Text) (expires_at : ℕ) → TokenStatus

abbrev pub Sessions : Type 0
Sessions = Text → TokenStatus

abbrev pub status_of_row : Option RefreshRow → TokenStatus
status_of_row none = unknown
status_of_row (some r) =
    if r.consumed then spent r.user_id r.expires_at else live r.user_id r.expires_at

-- What a table of rows stands for.
unfoldable pub view : RefreshTokens → Sessions
view rows h = status_of_row (row_of h rows)

abbrev pub without_user : Text → TokenStatus → TokenStatus
without_user u unknown = unknown
without_user u (live v x) = if text_eq v u then unknown else live v x
without_user u (spent v x) = if text_eq v u then unknown else spent v x

abbrev pub without_expired : ℕ → TokenStatus → TokenStatus
without_expired now unknown = unknown
without_expired now (live v x) = if ltb x now then unknown else live v x
without_expired now (spent v x) = if ltb x now then unknown else spent v x

abbrev pub set_status : Text → TokenStatus → Sessions → Sessions
set_status h t s k = if text_eq h k then t else s k

abbrev pub is_unknown : TokenStatus → Bool
is_unknown unknown = true
is_unknown (live _ _) = false
is_unknown (spent _ _) = false

abbrev pub spec_purge : ℕ → Sessions → Sessions
spec_purge now s k = without_expired now (s k)

abbrev pub spec_add : Text → Text → ℕ → Sessions → Answer × Sessions
spec_add u h x s = if is_unknown (s h) then (done, set_status h (live u x) s) else (refused, s)

abbrev pub spec_insert : ℕ → Text → Text → ℕ → Sessions → Answer × Sessions
spec_insert now u h x s = spec_add u h x (spec_purge now s)

abbrev pub spec_consume : ℕ → Text → TokenStatus → Sessions → Answer × Sessions
spec_consume now h unknown s = (answered invalid, s)
spec_consume now h (spent u x) s = (answered (reused u), λ k. without_user u (s k))
spec_consume now h (live u x) s =
    if ltb x now
    then (answered invalid, set_status h unknown s)
    else (answered (consumed_for u), set_status h (spent u x) s)

unfoldable pub spec_serve : SessionCall → Sessions → Answer × Sessions
spec_serve (inserted now u h x) s = spec_insert now u h x s
spec_serve (purged now) s = (done, spec_purge now s)
spec_serve (added u h x) s = spec_add u h x s
spec_serve (presented now h) s = spec_consume now h (s h) s
spec_serve (revoked u) s = (done, λ k. without_user u (s k))

unfoldable pub spec_serve_all : List SessionCall → Sessions → List Answer × Sessions
spec_serve_all [] s = ([], s)
spec_serve_all (c ∷ cs) s =
    let here = spec_serve c s in let rest = spec_serve_all cs here.1 in (here.0 ∷ rest.0, rest.1)
