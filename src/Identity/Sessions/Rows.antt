-- ===== src/Identity/Sessions/Rows.antt =====
-- packages/identity/src/postgres/stores.ts: lookups in the table `refresh_tokens` after each write.
use stigmer_apps.Common.{
  Text, text_eq_iff, if◌then◌else◌, Bool, true, Option, none, some, [], ◌∷◌, ◌≡◌, refl, ℕ, arith,
}
use stigmer_apps.Identity.Sessions.{
  RefreshRow, RefreshTokens, has_hash, row_of, delete_where, mark_consumed, consume, consume_found,
  insert, revoke_all_for_user, is_over, belongs_to, SessionCall, inserted, purged, added, presented,
  revoked, serve,
}

-- The primary key of the table.
abbrev pub HasDistinctHashes : RefreshTokens → Type 0
HasDistinctHashes [] = Unit
HasDistinctHashes (r ∷ rs) = (row_of r.token_hash rs ≡ none) × HasDistinctHashes rs

abbrev pub unless : (RefreshRow → Bool) → Option RefreshRow → Option RefreshRow
unless p none = none
unless p (some r) = if p r then none else some r

abbrev pub marked : Text → Option RefreshRow → Option RefreshRow
marked h none = none
marked h (some r) = some (if has_hash h r then record r { consumed = true } else r)

-- The row that a lookup finds has the hash it was asked for.
pub row_of-some :
    (h : Text) (rows : RefreshTokens) (r : RefreshRow) → row_of h rows ≡ some r → r.token_hash ≡ h
unfolding row_of
row_of-some h [] r e = cc
row_of-some h (q ∷ rows) r e = ground (arith, text_eq_iff q.token_hash h, row_of-some h rows r)

delete_where-none :
    (p : RefreshRow → Bool) (h : Text) (rows : RefreshTokens)
    → row_of h rows ≡ none
    → row_of h (delete_where p rows) ≡ none
unfolding row_of delete_where
delete_where-none p h [] e = refl
delete_where-none p h (r ∷ rows) e = ground (arith, delete_where-none p h rows)

-- A deletion takes away the row a lookup finds if it is one of those that it is for, and no other.
pub row_of-delete_where :
    (p : RefreshRow → Bool) (h : Text) (rows : RefreshTokens)
    → HasDistinctHashes rows
    → row_of h (delete_where p rows) ≡ unless p (row_of h rows)
unfolding row_of delete_where
row_of-delete_where p h [] d = refl
row_of-delete_where p h (r ∷ rows) (n, d) =
    ground (
      arith,
      text_eq_iff r.token_hash h,
      row_of-delete_where p h rows d,
      delete_where-none p h rows,
    )

pub row_of-mark_consumed :
    (g h : Text) (rows : RefreshTokens) → row_of h (mark_consumed g rows) ≡ marked g (row_of h rows)
unfolding row_of mark_consumed
row_of-mark_consumed g h [] = refl
row_of-mark_consumed g h (r ∷ rows) = ground (arith, row_of-mark_consumed g h rows)

delete_where-HasDistinctHashes :
    (p : RefreshRow → Bool) (rows : RefreshTokens)
    → HasDistinctHashes rows
    → HasDistinctHashes (delete_where p rows)
unfolding delete_where
delete_where-HasDistinctHashes p [] d = tt
delete_where-HasDistinctHashes p (r ∷ rows) (n, d) =
    ground (arith, delete_where-none p r.token_hash rows, delete_where-HasDistinctHashes p rows d)

mark_consumed-HasDistinctHashes :
    (h : Text) (rows : RefreshTokens)
    → HasDistinctHashes rows
    → HasDistinctHashes (mark_consumed h rows)
unfolding mark_consumed
mark_consumed-HasDistinctHashes h [] d = tt
mark_consumed-HasDistinctHashes h (r ∷ rows) (n, d) =
    ground
      (arith, row_of-mark_consumed h r.token_hash rows, mark_consumed-HasDistinctHashes h rows d)

pub consume_found-HasDistinctHashes :
    (now : ℕ) (h : Text) (rows : RefreshTokens) (o : Option RefreshRow)
    → HasDistinctHashes rows
    → HasDistinctHashes (consume_found now h rows o).1
consume_found-HasDistinctHashes now h rows none d = d
consume_found-HasDistinctHashes now h rows (some r) d = ground (
  arith,
  mark_consumed-HasDistinctHashes h rows d,
  delete_where-HasDistinctHashes (has_hash h) rows d,
  delete_where-HasDistinctHashes (belongs_to r.user_id) rows d,
)

-- Every call keeps the primary key.
pub serve-HasDistinctHashes :
    (c : SessionCall) (rows : RefreshTokens)
    → HasDistinctHashes rows
    → HasDistinctHashes (serve c rows).1
unfolding serve insert consume revoke_all_for_user
serve-HasDistinctHashes (inserted now u h x) rows d =
    ground (arith, delete_where-HasDistinctHashes (is_over now) rows d)
serve-HasDistinctHashes (purged now) rows d = delete_where-HasDistinctHashes (is_over now) rows d
serve-HasDistinctHashes (added u h x) rows d = ground arith
serve-HasDistinctHashes (presented now h) rows d =
    consume_found-HasDistinctHashes now h rows (row_of h rows) d
serve-HasDistinctHashes (revoked u) rows d = delete_where-HasDistinctHashes (belongs_to u) rows d
