-- ===== src/Identity/AuthService/Passwords.antt =====
-- packages/identity/src/auth-service.ts, changePassword and redeemActivationCode: a new password ends
-- the sessions that the old one earned.
use stigmer_apps.Common.{
  Text, codes, ◌++◌, text_eq_refl, ◌≡◌, ◌≢◌, refl, ◌∙◌, ap, sym, subst, Option, none, some, [], ◌∷◌,
  Bool, true, false, table_get-set, length, arith, ◌≤◌, ℕ,
}
use stigmer_apps.ResourceApi.Effects.{Result, ok, after_query-eq-ok}
use stigmer_apps.ResourceApi.Envelope.{PrincipalKind, CallerPrincipal}
use stigmer_apps.Identity.RateLimit.{check}
use stigmer_apps.Identity.Sessions.{revoke_all_for_user}
use stigmer_apps.Identity.Sessions.Rows.{HasDistinctHashes}
use stigmer_apps.Identity.Sessions.OneTime.{HasNoSession, revoke-HasNoSession}
use stigmer_apps.Identity.Stores.{
  Credentials, get_password_hash, set_password_hash, consume_code, returned, ActivationCodes,
  hash_activation_code,
}
use stigmer_apps.Identity.AuthService.{
  AuthRuntime, HandlerContext, AuthState, RedeemActivationCodeRequest, ChangePasswordRequest,
  change_password, redeem_activation_code, within_budget, attempt_change, attempt_redeem,
  of_decision, knows, exchange, redeemed, change_for, as_user,
}

set_password_hash-get :
    (user hash : Text) (rows : Credentials)
    → get_password_hash user (set_password_hash user hash rows) ≡ some hash
unfolding set_password_hash get_password_hash
set_password_hash-get user hash rows =
    ground (arith, table_get-set user user hash rows, text_eq_refl user)

-- The user's password is the new one, and none of the user's sessions is left.
abbrev pub IsReset :
    {Spec Status : Type 0} → AuthRuntime Spec Status → (user password : Text) → AuthState → Type 0
IsReset rt user password w =
    (get_password_hash user w.credentials ≡ some (rt.hash_password password))
    × HasNoSession user w.refresh_tokens

module _ {Spec Status : Type 0} (rt : AuthRuntime Spec Status) where
  replaced-IsReset :
      (w : AuthState) (user password : Text)
      → HasDistinctHashes w.refresh_tokens
      → (get_password_hash user (set_password_hash user (rt.hash_password password) w.credentials)
          ≡ some (rt.hash_password password))
        × HasNoSession user (revoke_all_for_user user w.refresh_tokens)
  replaced-IsReset w user password d = (
    set_password_hash-get user (rt.hash_password password) w.credentials,
    revoke-HasNoSession user w.refresh_tokens d,
  )

module _ {Spec Status : Type 0} (rt : AuthRuntime Spec Status) (ctx : HandlerContext)
    (w : AuthState) where
  knows-true :
      (password : Text) (hash : Option Text)
      → knows rt ctx password hash ≡ true
      → (h : Text) × (hash ≡ some h) × (rt.verify_password password h ≡ true)
  knows-true password none e = cc
  knows-true password (some h) e = (h, refl, ground arith)

  -- The end of the change: only a proved password gets there.
  exchanged :
      (req : ChangePasswordRequest) (user key : Text) (b : Bool) (v : AuthState) {w' : AuthState}
      → HasDistinctHashes v.refresh_tokens
      → exchange rt ctx req user key b v ≡ (ok tt, w')
      → (b ≡ true) × IsReset rt user req.new_password w'
  exchanged req user key false v d e = cc
  exchanged req user key true v {w'} d e =
      let end = ap (λ (o : Result (Unit {0}) × AuthState). o.1) e in
      (
        refl,
        subst (IsReset rt user req.new_password) end
            (replaced-IsReset rt v user req.new_password d),
      )

  -- Who asks for the change, as the handler makes it out.
  as_user-eq-ok :
      (req : ChangePasswordRequest) (o : Option CallerPrincipal) {w' : AuthState}
      → as_user rt ctx req o w ≡ (ok tt, w')
      → (caller : CallerPrincipal) × (o ≡ some caller)
        × (caller.kind ≡ PrincipalKind.user)
        × (change_for rt ctx req caller w ≡ (ok tt, w'))
  as_user-eq-ok req none e = cc
  as_user-eq-ok req (some caller) {w'} e = (caller, refl, ground arith, ground arith)

  -- A change of password that answers was asked by a user who proved the present password, and the
  -- new one has at least eight code units. It leaves the new password and no session of the user.
  pub change_password-IsReset :
      (req : ChangePasswordRequest) {w' : AuthState}
      → HasDistinctHashes w.refresh_tokens
      → change_password rt ctx req w ≡ (ok tt, w')
      → (caller : CallerPrincipal) × (ctx.caller ≡ ok (some caller))
        × (caller.kind ≡ PrincipalKind.user)
        × (8 ≤ length req.new_password)
        × ((h : Text) × (get_password_hash caller.id w.credentials ≡ some h)
            × (rt.verify_password req.current_password h ≡ true))
        × IsReset rt caller.id req.new_password w'
  unfolding change_password within_budget
  change_password-IsReset req {w'} d e =
      let (o, asked, e1) = after_query-eq-ok ctx.caller w (as_user rt ctx req) e in
      let (caller, same, kind, e2) = as_user-eq-ok req o e1 in
      let key = codes "change:" ++ caller.id in
      let e3 : attempt_change rt ctx req caller.id key w ≡ (ok tt, w') = ground arith in
      let (_, room, e4) =
        after_query-eq-ok
          (of_decision rt ctx (codes "Too many attempts.")
            (check rt.limits ctx.now key w.limiter).0)
          _ _ e3 in
      let known =
        exchanged req caller.id key
          (knows rt ctx req.current_password (get_password_hash caller.id w.credentials))
          (record w { limiter = (check rt.limits ctx.now key w.limiter).1 }) d e4 in
      (
        caller,
        asked ∙ ap ok same,
        kind,
        ground arith,
        knows-true req.current_password _ known.0,
        known.1,
      )

-- A deleted code is not found again.
returned-deleted :
    (now later : ℕ) (hash : Text) (rows : ActivationCodes)
    → returned later hash (consume_code now hash rows).1 ≡ none
unfolding returned consume_code
returned-deleted now later hash [] = refl
returned-deleted now later hash (r ∷ rows) = ground (arith, returned-deleted now later hash rows)

module _ {Spec Status : Type 0} (rt : AuthRuntime Spec Status) where
  redeemed-some :
      (ctx : HandlerContext) (req : RedeemActivationCodeRequest) (key : Text) (o : Option Text)
      (v : AuthState) {w' : AuthState}
      → HasDistinctHashes v.refresh_tokens
      → redeemed rt ctx req key o v ≡ (ok tt, w')
      → (user : Text) × (o ≡ some user)
        × IsReset rt user req.new_password w'
        × (w'.activation_codes ≡ v.activation_codes)
  redeemed-some ctx req key none v d e = cc
  redeemed-some ctx req key (some user) v d e =
      let end = ap (λ (o : Result (Unit {0}) × AuthState). o.1) e in
      (
        user,
        refl,
        subst (IsReset rt user req.new_password) end
            (replaced-IsReset rt v user req.new_password d),
        ap (λ (u : AuthState). u.activation_codes) (sym end),
      )

  -- A redemption that answers found a code that is in the table.
  redeem-found :
      (ctx : HandlerContext) (req : RedeemActivationCodeRequest) (w : AuthState) {w' : AuthState}
      → HasDistinctHashes w.refresh_tokens
      → redeem_activation_code rt ctx req w ≡ (ok tt, w')
      → (user : Text) × (returned ctx.now
            (hash_activation_code rt.sha256_hex req.code)
            w.activation_codes
          ≡ some user)
        × IsReset rt user req.new_password w'
        × (w'.activation_codes
            ≡ (consume_code ctx.now
                (hash_activation_code rt.sha256_hex req.code)
                w.activation_codes).1)
  unfolding redeem_activation_code within_budget consume_code
  redeem-found ctx req w {w'} d e =
      let key = codes "redeem:" ++ req.code in
      let hash = hash_activation_code rt.sha256_hex req.code in
      let tried : attempt_redeem rt ctx req key w ≡ (ok tt, w') = ground arith in
      let (_, room, e1) =
        after_query-eq-ok
          (of_decision rt ctx (codes "Too many attempts.")
            (check rt.limits ctx.now key w.limiter).0)
          _ _ tried in
      redeemed-some ctx req key (returned ctx.now hash w.activation_codes)
        (record w {
          limiter = (check rt.limits ctx.now key w.limiter).1;
          activation_codes = (consume_code ctx.now hash w.activation_codes).1;
        })
        d e1

  -- A code sets one password. A redemption that answers found the code live and of some user and
  -- leaves the new password and no session of that user; and no redemption of the same code answers,
  -- whenever it comes and whatever password it carries, where the codes are as the first one left them.
  pub redeem-once :
      (ctx ctx' : HandlerContext) (req req' : RedeemActivationCodeRequest) (w v : AuthState)
      {w' : AuthState}
      → HasDistinctHashes w.refresh_tokens
      → HasDistinctHashes v.refresh_tokens
      → redeem_activation_code rt ctx req w ≡ (ok tt, w')
      → req'.code ≡ req.code
      → v.activation_codes ≡ w'.activation_codes
      → ((user : Text) × (returned ctx.now
              (hash_activation_code rt.sha256_hex req.code)
              w.activation_codes
            ≡ some user)
          × IsReset rt user req.new_password w')
        × ((redeem_activation_code rt ctx' req' v).0 ≢ ok tt)
  redeem-once ctx ctx' req req' w v {w'} d d' e same codes' =
      let (user, found, reset, left) = redeem-found ctx req w d e in
      (
        (user, found, reset),
        λ again.
            let (u2, found2, _, _) =
              redeem-found ctx' req' v {w' = (redeem_activation_code rt ctx' req' v).1} d'
                (λ i. (again i, (redeem_activation_code rt ctx' req' v).1)) in
            let hash = λ (c : Text). hash_activation_code rt.sha256_hex c in
            let gone : returned ctx'.now (hash req'.code) v.activation_codes ≡ none =
              ap (λ c. returned ctx'.now (hash c) v.activation_codes) same
              ∙ ap (returned ctx'.now (hash req.code)) (codes' ∙ left)
              ∙ returned-deleted ctx.now ctx'.now (hash req.code) w.activation_codes in
            cc,
      )
