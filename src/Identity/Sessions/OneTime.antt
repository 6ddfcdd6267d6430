-- ===== src/Identity/Sessions/OneTime.antt =====
-- packages/identity/src/refresh-token.ts: one-time use, and what a replay does.
use stigmer_apps.Common.{
  Text, text_eq, text_eq_iff, Bool, true, false, Option, none, some, List, [], ◌∷◌, ◌≡◌, ◌≢◌, refl,
  subst, sym, ℕ, ◌≤◌, All, arith,
}
use stigmer_apps.Identity.Sessions.{
  RefreshRow, RefreshTokens, RefreshConsumeResult, consumed_for, reused, has_hash, row_of,
  delete_where, consume, consume_found, insert, revoke_all_for_user, is_over, belongs_to,
  SessionCall, inserted, purged, added, presented, revoked, serve, serve_all,
}
use stigmer_apps.Identity.Sessions.Rows.{
  HasDistinctHashes, row_of-some, row_of-delete_where, row_of-mark_consumed,
  serve-HasDistinctHashes, consume_found-HasDistinctHashes,
}

-- A hash that no row allows to be presented.
abbrev is_dead : Option RefreshRow → Bool
is_dead none = true
is_dead (some r) = r.consumed

-- A call that does not issue the hash again.
abbrev pub IsNotIssue : Text → SessionCall → Type 0
IsNotIssue h (inserted _ _ g _) = text_eq g h ≡ false
IsNotIssue h (purged _) = Unit
IsNotIssue h (added _ g _) = text_eq g h ≡ false
IsNotIssue h (presented _ _) = Unit
IsNotIssue h (revoked _) = Unit

delete_where-dead :
    (p : RefreshRow → Bool) (h : Text) (rows : RefreshTokens)
    → HasDistinctHashes rows
    → is_dead (row_of h rows) ≡ true
    → is_dead (row_of h (delete_where p rows)) ≡ true
delete_where-dead p h rows d e = ground (arith, row_of-delete_where p h rows d)

consume_found-dead :
    (now : ℕ) (g h : Text) (rows : RefreshTokens) (o : Option RefreshRow)
    → HasDistinctHashes rows
    → is_dead (row_of h rows) ≡ true
    → is_dead (row_of h (consume_found now g rows o).1) ≡ true
consume_found-dead now g h rows none d e = e
consume_found-dead now g h rows (some r) d e = ground (
  arith,
  row_of-mark_consumed g h rows,
  delete_where-dead (has_hash g) h rows d e,
  delete_where-dead (belongs_to r.user_id) h rows d e,
)

serve-dead :
    (c : SessionCall) (h : Text) (rows : RefreshTokens)
    → HasDistinctHashes rows
    → IsNotIssue h c
    → is_dead (row_of h rows) ≡ true
    → is_dead (row_of h (serve c rows).1) ≡ true
unfolding serve consume insert revoke_all_for_user row_of
serve-dead (inserted now u g x) h rows d n e =
    ground (arith, delete_where-dead (is_over now) h rows d e)
serve-dead (purged now) h rows d n e = delete_where-dead (is_over now) h rows d e
serve-dead (added u g x) h rows d n e = ground arith
serve-dead (presented now g) h rows d n e = consume_found-dead now g h rows (row_of g rows) d e
serve-dead (revoked u) h rows d n e = delete_where-dead (belongs_to u) h rows d e

serve_all-dead :
    (cs : List SessionCall) (h : Text) (rows : RefreshTokens)
    → HasDistinctHashes rows
    → All (IsNotIssue h) cs
    → is_dead (row_of h rows) ≡ true
    → is_dead (row_of h (serve_all cs rows).1) ≡ true
unfolding serve_all
serve_all-dead [] h rows d n e = e
serve_all-dead (c ∷ cs) h rows d (n, m) e =
    serve_all-dead cs h (serve c rows).1 (serve-HasDistinctHashes c rows d) m
      (serve-dead c h rows d n e)

-- A consumed token leaves a consumed row.
consume-marks :
    (now : ℕ) (h u : Text) (rows : RefreshTokens) (o : Option RefreshRow)
    → row_of h rows ≡ o
    → (consume_found now h rows o).0 ≡ consumed_for u
    → is_dead (row_of h (consume_found now h rows o).1) ≡ true
consume-marks now h u rows none e c = cc
consume-marks now h u rows (some r) e c =
    ground
      (arith, row_of-mark_consumed h h rows, row_of-some h rows r e, text_eq_iff r.token_hash h)

dead-refused :
    (now : ℕ) (h v : Text) (rows : RefreshTokens) (o : Option RefreshRow)
    → is_dead o ≡ true
    → (consume_found now h rows o).0 ≢ consumed_for v
dead-refused now h v rows none e c = cc
dead-refused now h v rows (some r) e c = ground arith

-- A refresh token works once: after it was accepted, no run of issues of other tokens, presentations
-- and revocations, at whatever times, makes the store accept it again.
pub consume-once :
    (now later : ℕ) (h u v : Text) (rows : RefreshTokens) (cs : List SessionCall)
    → HasDistinctHashes rows
    → All (IsNotIssue h) cs
    → (consume now h rows).0 ≡ consumed_for u
    → (consume later h (serve_all cs (consume now h rows).1).1).0 ≢ consumed_for v
unfolding consume
consume-once now later h u v rows cs d n c =
    let after = (consume_found now h rows (row_of h rows)).1 in
    dead-refused later h v (serve_all cs after).1 (row_of h (serve_all cs after).1) (
      serve_all-dead cs h after (consume_found-HasDistinctHashes now h rows (row_of h rows) d) n
        (consume-marks now h u rows (row_of h rows) refl c))

-- An issue of a token, in one or in two steps, that purges at a time when `x` has not passed.
abbrev pub IsIssueBefore : ℕ → SessionCall → Type 0
IsIssueBefore x (inserted now _ _ _) = now ≤ x
IsIssueBefore x (purged now) = now ≤ x
IsIssueBefore x (added _ _ _) = Unit
IsIssueBefore x (presented _ _) = ⊥
IsIssueBefore x (revoked _) = ⊥

abbrev IsSpentBy : Text → ℕ → Option RefreshRow → Type 0
IsSpentBy u x none = ⊥
IsSpentBy u x (some r) = (r.consumed ≡ true) × (r.user_id ≡ u) × (r.expires_at ≡ x)

-- The evidence outlives the purge of every later issue.
issue-keeps :
    (now : ℕ) (v g : Text) (y : ℕ) (h u : Text) (x : ℕ) (rows : RefreshTokens)
    (o : Option RefreshRow)
    → HasDistinctHashes rows
    → now ≤ x
    → row_of h rows ≡ o
    → IsSpentBy u x o
    → IsSpentBy u x (row_of h (serve (inserted now v g y) rows).1)
unfolding serve insert row_of
issue-keeps now v g y h u x rows none d l e s = absurd s
issue-keeps now v g y h u x rows (some r) d l e s = ground (
  arith,
  text_eq_iff g h,
  row_of-delete_where (is_over now) h rows d,
  row_of-delete_where (is_over now) g rows d,
)

purge-keeps :
    (now : ℕ) (h u : Text) (x : ℕ) (rows : RefreshTokens) (o : Option RefreshRow)
    → HasDistinctHashes rows
    → now ≤ x
    → row_of h rows ≡ o
    → IsSpentBy u x o
    → IsSpentBy u x (row_of h (serve (purged now) rows).1)
unfolding serve
purge-keeps now h u x rows none d l e s = absurd s
purge-keeps now h u x rows (some r) d l e s =
    ground (arith, row_of-delete_where (is_over now) h rows d)

add-keeps :
    (v g : Text) (y : ℕ) (h u : Text) (x : ℕ) (rows : RefreshTokens) (o : Option RefreshRow)
    → row_of h rows ≡ o
    → IsSpentBy u x o
    → IsSpentBy u x (row_of h (serve (added v g y) rows).1)
unfolding serve row_of
add-keeps v g y h u x rows none e s = absurd s
add-keeps v g y h u x rows (some r) e s = ground (arith, text_eq_iff g h)

issues-keep :
    (cs : List SessionCall) (h u : Text) (x : ℕ) (rows : RefreshTokens)
    → HasDistinctHashes rows
    → All (IsIssueBefore x) cs
    → IsSpentBy u x (row_of h rows)
    → IsSpentBy u x (row_of h (serve_all cs rows).1)
unfolding serve_all
issues-keep [] h u x rows d a s = s
issues-keep (inserted now v g y ∷ cs) h u x rows d (a, b) s =
    issues-keep cs h u x (serve (inserted now v g y) rows).1
      (serve-HasDistinctHashes (inserted now v g y) rows d) b
      (issue-keeps now v g y h u x rows (row_of h rows) d a refl s)
issues-keep (purged now ∷ cs) h u x rows d (a, b) s =
    issues-keep cs h u x (serve (purged now) rows).1 (serve-HasDistinctHashes (purged now) rows d) b
      (purge-keeps now h u x rows (row_of h rows) d a refl s)
issues-keep (added v g y ∷ cs) h u x rows d (a, b) s =
    issues-keep cs h u x (serve (added v g y) rows).1 (serve-HasDistinctHashes (added v g y) rows d)
      b (add-keeps v g y h u x rows (row_of h rows) refl s)
issues-keep (presented _ _ ∷ cs) h u x rows d (a, b) s = absurd a
issues-keep (revoked _ ∷ cs) h u x rows d (a, b) s = absurd a

serve_all-HasDistinctHashes :
    (cs : List SessionCall) (rows : RefreshTokens)
    → HasDistinctHashes rows
    → HasDistinctHashes (serve_all cs rows).1
unfolding serve_all
serve_all-HasDistinctHashes [] rows d = d
serve_all-HasDistinctHashes (c ∷ cs) rows d =
    serve_all-HasDistinctHashes cs (serve c rows).1 (serve-HasDistinctHashes c rows d)

-- The first presentation of a live token.
accepted :
    (now : ℕ) (h : Text) (rows : RefreshTokens) (r : RefreshRow)
    → row_of h rows ≡ some r
    → r.consumed ≡ false
    → now ≤ r.expires_at
    → ((consume now h rows).0 ≡ consumed_for r.user_id)
      × IsSpentBy r.user_id r.expires_at (row_of h (consume now h rows).1)
unfolding consume
accepted now h rows r e c l =
    ground
      (arith, row_of-mark_consumed h h rows, row_of-some h rows r e, text_eq_iff r.token_hash h)

-- A user has no row.
abbrev pub HasNoSession : Text → RefreshTokens → Type 0
HasNoSession u rows =
    (k : Text) (q : RefreshRow) → row_of k rows ≡ some q → text_eq q.user_id u ≡ false

pub revoke-HasNoSession :
    (u : Text) (rows : RefreshTokens)
    → HasDistinctHashes rows
    → HasNoSession u (revoke_all_for_user u rows)
unfolding revoke_all_for_user
revoke-HasNoSession u rows d k q e = gone (row_of k rows) refl
  where
    gone : (o : Option RefreshRow) → row_of k rows ≡ o → text_eq q.user_id u ≡ false
    gone none f = ground (arith, row_of-delete_where (belongs_to u) k rows d)
    gone (some r) f = ground (arith, row_of-delete_where (belongs_to u) k rows d)

replay-revoke :
    (now : ℕ) (h u : Text) (rows : RefreshTokens) (r : RefreshRow)
    → r.consumed ≡ true
    → r.user_id ≡ u
    → consume_found now h rows (some r) ≡ (reused u, revoke_all_for_user u rows)
unfolding revoke_all_for_user
replay-revoke now h u rows r c v = simp (c, v)

replayed :
    (now : ℕ) (h u : Text) (x : ℕ) (rows : RefreshTokens) (o : Option RefreshRow)
    → HasDistinctHashes rows
    → IsSpentBy u x o
    → ((consume_found now h rows o).0 ≡ reused u) × HasNoSession u (consume_found now h rows o).1
replayed now h u x rows none d s = absurd s
replayed now h u x rows (some r) d (c, v, _) =
    subst
      (λ (out : RefreshConsumeResult × RefreshTokens). (out.0 ≡ reused u) × HasNoSession u out.1)
      (sym (replay-revoke now h u rows r c v)) (refl, revoke-HasNoSession u rows d)

-- A stolen copy is caught: a live token is accepted once, tokens are issued after that while it would
-- still be valid, and the second presentation of it is answered as a reuse and leaves its user
-- without a single row, the tokens issued meanwhile included.
pub replay-HasNoSession :
    (now later : ℕ) (h : Text) (rows : RefreshTokens) (r : RefreshRow) (cs : List SessionCall)
    → HasDistinctHashes rows
    → row_of h rows ≡ some r
    → r.consumed ≡ false
    → now ≤ r.expires_at
    → All (IsIssueBefore r.expires_at) cs
    → let rows' = (serve_all cs (consume now h rows).1).1 in
      ((consume now h rows).0 ≡ consumed_for r.user_id)
      × ((consume later h rows').0 ≡ reused r.user_id)
      × HasNoSession r.user_id (consume later h rows').1
unfolding consume
replay-HasNoSession now later h rows r cs d e c l a =
    let first = accepted now h rows r e c l in
    let rows1 = (consume_found now h rows (row_of h rows)).1 in
    let d1 = consume_found-HasDistinctHashes now h rows (row_of h rows) d in
    let rows2 = (serve_all cs rows1).1 in
    let second =
      replayed later h r.user_id r.expires_at rows2 (row_of h rows2)
        (serve_all-HasDistinctHashes cs rows1 d1)
        (issues-keep cs h r.user_id r.expires_at rows1 d1 a first.1) in
    (first.0, second.0, second.1)
