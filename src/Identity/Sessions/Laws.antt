-- ===== src/Identity/Sessions/Laws.antt =====
-- packages/identity/src/refresh-token.ts and postgres/stores.ts: one-time use and revocation.
use stigmer_apps.Common.{
  Text, text_eq_iff, Option, none, some, List, [], ◌∷◌, ◌≡◌, refl, subst, ℕ, arith,
}
use stigmer_apps.Identity.Sessions.{
  RefreshRow, RefreshTokens, has_hash, row_of, consume, consume_found, insert, revoke_all_for_user,
  is_over, belongs_to, SessionCall, inserted, purged, added, presented, revoked, serve, serve_all,
}
use stigmer_apps.Identity.Sessions.Spec.{
  Sessions, view, status_of_row, spec_consume, spec_serve, spec_serve_all,
}
use stigmer_apps.Identity.Sessions.Rows.{
  HasDistinctHashes, row_of-some, row_of-delete_where, row_of-mark_consumed,
  serve-HasDistinctHashes,
}

-- One call on the table is one call of the contract, for the answer and for every hash after it.
serve-answer :
    (c : SessionCall) (rows : RefreshTokens)
    → HasDistinctHashes rows
    → (serve c rows).0 ≡ (spec_serve c (view rows)).0
unfolding serve insert consume revoke_all_for_user spec_serve view
serve-answer (inserted now u h x) rows d =
    ground (arith, row_of-delete_where (is_over now) h rows d)
serve-answer (purged now) rows d = refl
serve-answer (added u h x) rows d = ground arith
serve-answer (presented now h) rows d = ground arith
serve-answer (revoked u) rows d = refl

-- The row under `k` after the transaction on the row under `h`.
consume_found-row :
    (now : ℕ) (h k : Text) (rows : RefreshTokens) (r : RefreshRow) (o : Option RefreshRow)
    → HasDistinctHashes rows
    → row_of h rows ≡ some r
    → row_of k rows ≡ o
    → status_of_row (row_of k (consume_found now h rows (some r)).1)
      ≡ (spec_consume now h (status_of_row (some r)) (view rows)).1 k
unfolding view
consume_found-row now h k rows r none d e f = ground (
  arith,
  text_eq_iff h k,
  row_of-mark_consumed h k rows,
  row_of-delete_where (has_hash h) k rows d,
  row_of-delete_where (belongs_to r.user_id) k rows d,
)
consume_found-row now h k rows r (some q) d e f = ground (
  arith,
  text_eq_iff h k,
  text_eq_iff q.token_hash h,
  row_of-some k rows q f,
  row_of-some h rows r e,
  row_of-mark_consumed h k rows,
  row_of-delete_where (has_hash h) k rows d,
  row_of-delete_where (belongs_to r.user_id) k rows d,
)

consume_found-view :
    (now : ℕ) (h k : Text) (rows : RefreshTokens) (o : Option RefreshRow)
    → HasDistinctHashes rows
    → row_of h rows ≡ o
    → view (consume_found now h rows o).1 k ≡ (spec_consume now h (status_of_row o) (view rows)).1 k
unfolding view
consume_found-view now h k rows none d e = refl
consume_found-view now h k rows (some r) d e =
    consume_found-row now h k rows r (row_of k rows) d e refl

serve-view :
    (c : SessionCall) (rows : RefreshTokens) (k : Text)
    → HasDistinctHashes rows
    → view (serve c rows).1 k ≡ (spec_serve c (view rows)).1 k
unfolding row_of serve insert consume revoke_all_for_user spec_serve view
serve-view (inserted now u h x) rows k d = ground (
  arith,
  text_eq_iff h k,
  row_of-delete_where (is_over now) h rows d,
  row_of-delete_where (is_over now) k rows d,
)
serve-view (purged now) rows k d = ground (arith, row_of-delete_where (is_over now) k rows d)
serve-view (added u h x) rows k d = ground (arith, text_eq_iff h k)
serve-view (presented now h) rows k d = consume_found-view now h k rows (row_of h rows) d refl
serve-view (revoked u) rows k d = ground (arith, row_of-delete_where (belongs_to u) k rows d)

-- The table implements the contract: in every run of calls, from every table with its primary key,
-- each caller gets the answer that the contract gives, and the table stands for the contract's state.
pub serve_all-refines :
    (cs : List SessionCall) (rows : RefreshTokens)
    → HasDistinctHashes rows
    → ((serve_all cs rows).0 ≡ (spec_serve_all cs (view rows)).0)
      × (view (serve_all cs rows).1 ≡ (spec_serve_all cs (view rows)).1)
unfolding serve_all spec_serve_all
serve_all-refines [] rows d = (refl, refl)
serve_all-refines (c ∷ cs) rows d =
    let rest = serve_all-refines cs (serve c rows).1 (serve-HasDistinctHashes c rows d) in
    let same : view (serve c rows).1 ≡ (spec_serve c (view rows)).1 =
      λ i k. serve-view c rows k d i in
    let first = serve-answer c rows d in
    let moved =
      subst
        (λ (s : Sessions).
          ((serve_all cs (serve c rows).1).0 ≡ (spec_serve_all cs s).0)
          × (view (serve_all cs (serve c rows).1).1 ≡ (spec_serve_all cs s).1))
        same rest in
    (λ i. first i ∷ moved.0 i, moved.1)
