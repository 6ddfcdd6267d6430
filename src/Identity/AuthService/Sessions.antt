-- ===== src/Identity/AuthService/Sessions.antt =====
-- packages/identity/src/auth-service.ts, refresh, changePassword and redeemActivationCode: how
-- sessions go on and how they end.
use stigmer_apps.Common.{
  Text, text_eq, ◌≡◌, ◌≢◌, refl, ◌∙◌, ap, sym, subst, Option, none, some, List, ◌∷◌, false, All, ℕ,
  arith,
}
use stigmer_apps.ResourceApi.Effects.{ok, proceed-eq-ok, after_query-eq-ok}
use stigmer_apps.ResourceApi.Envelope.{Resource, id_of}
use stigmer_apps.Identity.Sessions.{
  RefreshTokens, RefreshConsumeResult, consumed_for, reused, invalid, consume, SessionCall,
  inserted, serve, serve_all, answer_of_insert,
}
use stigmer_apps.Identity.Sessions.Rows.{HasDistinctHashes}
use stigmer_apps.Identity.Sessions.OneTime.{IsNotIssue, consume-once}
use stigmer_apps.Identity.Stores.{generate_refresh_token, hash_refresh_token}
use stigmer_apps.Identity.Cookies.{refresh_cookie}
use stigmer_apps.Identity.AuthService.Steps.{issue_session-inserts, session_row}
use stigmer_apps.Identity.AuthService.{
  AuthRuntime, HandlerContext, AuthState, RefreshResponse, issue_session, refresh, refresh_with,
  refreshed, rotate,
}

module _ {Spec Status : Type 0} (rt : AuthRuntime Spec Status) (ctx : HandlerContext)
    (w : AuthState) where
  -- What a presented token is looked up as, and what the table is after that.
  abbrev pub after_consume : Text → RefreshConsumeResult × RefreshTokens
  after_consume token = consume ctx.now (hash_refresh_token rt.sha256_hex token) w.refresh_tokens

  abbrev spent_state : Text → AuthState
  spent_state token = record w { refresh_tokens = (after_consume token).1 }

  refresh_with-some :
      (o : Option Text) {out : RefreshResponse} {w' : AuthState}
      → refresh_with rt ctx o w ≡ (ok out, w')
      → (token : Text) × (o ≡ some token)
        × (refreshed rt ctx (after_consume token).0 (spent_state token) ≡ (ok out, w'))
  refresh_with-some none e = cc
  refresh_with-some (some token) e = (token, refl, e)

  rotate-some :
      (o : Option (Resource Spec Status)) (v : AuthState) {out : RefreshResponse} {w' : AuthState}
      → rotate rt ctx o v ≡ (ok out, w')
      → (user : Resource Spec Status) × (o ≡ some user)
        × ((t : Text) × (issue_session rt ctx user v ≡ (ok t, w')))
  rotate-some none v e = cc
  rotate-some (some user) v {out} {w'} e =
      let (t, w2, issued, e1) = proceed-eq-ok (issue_session rt ctx user v) _ e in
      let end : w2 ≡ w' = ground arith in
      (user, refl, (t, subst (λ u. issue_session rt ctx user v ≡ (ok t, u)) end issued))

  refreshed-consumed :
      (r : RefreshConsumeResult) (v : AuthState) {out : RefreshResponse} {w' : AuthState}
      → refreshed rt ctx r v ≡ (ok out, w')
      → (id : Text) × (user : Resource Spec Status) × (r ≡ consumed_for id)
        × (rt.get_by_id id ≡ ok (some user))
        × ((t : Text) × (issue_session rt ctx user v ≡ (ok t, w')))
  refreshed-consumed (reused id) v e = cc
  refreshed-consumed invalid v e = cc
  refreshed-consumed (consumed_for id) v e =
      let (o, found, e1) = after_query-eq-ok (rt.get_by_id id) v (rotate rt ctx) e in
      let (user, is_user, issued) = rotate-some o v e1 in
      (id, user, refl, found ∙ ap ok is_user, issued)

  -- What a refresh that answers has done: the cookie's token was live and is consumed, its user is
  -- there, and a new token was inserted for the user.
  pub refresh-rotated :
      {out : RefreshResponse} {w' : AuthState}
      → refresh rt ctx w ≡ (ok out, w')
      → (token : Text) × (id : Text) × (user : Resource Spec Status) × (refresh_cookie ctx.cookie
          ≡ some token)
        × ((after_consume token).0 ≡ consumed_for id)
        × (rt.get_by_id id ≡ ok (some user))
        × ((t : Text) × (issue_session rt ctx user (spent_state token) ≡ (ok t, w')))
  unfolding refresh
  refresh-rotated e =
      let (token, presented, e1) = refresh_with-some (refresh_cookie ctx.cookie) e in
      let (id, user, was_live, found, issued) =
        refreshed-consumed (after_consume token).0 (spent_state token) e1 in
      (token, id, user, presented, was_live, found, issued)

module _ {Spec Status : Type 0} (rt : AuthRuntime Spec Status) (ctx : HandlerContext)
    (w : AuthState) (token : Text) (presented : refresh_cookie ctx.cookie ≡ some token) where
  -- The two calls of the token store that a refresh makes.
  refresh-calls :
      {out : RefreshResponse} {w' : AuthState}
      → refresh rt ctx w ≡ (ok out, w')
      → (id : Text) × (user : Text) × (expires : ℕ) × ((after_consume rt ctx w token).0
          ≡ consumed_for id)
        × ((serve
              (inserted ctx.now user
                (generate_refresh_token rt.sha256_hex ctx.random).sha256_hex
                expires)
              (after_consume rt ctx w token).1).1
            ≡ w'.refresh_tokens)
  unfolding serve
  refresh-calls {out} {w'} e =
      let (t, id, user, p, live, _, (_, issued)) = refresh-rotated rt ctx w e in
      let is_t : t ≡ token = ground arith in
      (
        id,
        id_of user,
        _,
        ap (λ u. (after_consume rt ctx w u).0) (sym is_t) ∙ live,
        subst
            (λ u.
              (serve
                (inserted ctx.now (id_of user) (session_row rt ctx user).token_hash
                  (session_row rt ctx user).expires_at)
                (after_consume rt ctx w u).1).1
              ≡ w'.refresh_tokens)
            is_t
            (ap (λ o. (answer_of_insert o).1)
              (issue_session-inserts rt ctx user (spent_state rt ctx w t) issued)),
      )

-- A refresh cookie works once. After the refresh that it won, whatever other calls reach the token
-- store without issuing its hash again, no later request with the same cookie gets an access token,
-- if the hash of the token that replaced it is another one.
pub refresh-once :
    {Spec Status : Type 0} (rt : AuthRuntime Spec Status) (ctx ctx' : HandlerContext)
    (w w' v : AuthState) (token : Text) (cs : List SessionCall) {out out' : RefreshResponse}
    → HasDistinctHashes w.refresh_tokens
    → refresh_cookie ctx.cookie ≡ some token
    → ctx'.cookie ≡ ctx.cookie
    → text_eq
        (generate_refresh_token rt.sha256_hex ctx.random).sha256_hex
        (hash_refresh_token rt.sha256_hex token)
      ≡ false
    → All (IsNotIssue (hash_refresh_token rt.sha256_hex token)) cs
    → refresh rt ctx w ≡ (ok out, w')
    → v.refresh_tokens ≡ (serve_all cs w'.refresh_tokens).1
    → (refresh rt ctx' v).0 ≢ ok out'
unfolding serve_all
refresh-once rt ctx ctx' w w' v token cs d presented same other quiet e later again =
    let (id1, user, x, live1, stored) = refresh-calls rt ctx w token presented e in
    let (id2, _, _, live2, _) =
      refresh-calls rt ctx' v token (ap refresh_cookie same ∙ presented)
        {w' = (refresh rt ctx' v).1} (λ i. (again i, (refresh rt ctx' v).1)) in
    consume-once ctx.now ctx'.now (hash_refresh_token rt.sha256_hex token) id1 id2 w.refresh_tokens
      (inserted ctx.now user (generate_refresh_token rt.sha256_hex ctx.random).sha256_hex x ∷ cs) d
      (other, quiet) live1
      (ap (λ rows. (consume ctx'.now (hash_refresh_token rt.sha256_hex token) rows).0)
          (ap (λ rows. (serve_all cs rows).1) stored ∙ sym later)
        ∙ live2)
