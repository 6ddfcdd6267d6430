-- ===== src/Identity/AuthService/Login.antt =====
-- packages/identity/src/auth-service.ts, login: what a failed attempt teaches and what a session needs.
use stigmer_apps.Common.{
  Text, codes, is_empty, ◌≡◌, refl, ◌∙◌, ap, sym, ◌⊎◌, Option, none, some, true, false, inl, inr, ℕ,
  arith,
}
use stigmer_apps.ResourceApi.Errors.{connect}
use stigmer_apps.ResourceApi.Effects.{ok, throw, proceed-eq-ok, after_query-eq-ok}
use stigmer_apps.ResourceApi.Envelope.{Resource, id_of}
use stigmer_apps.Identity.RateLimit.{allowed, denied, check, record_failure, record_success}
use stigmer_apps.Identity.Stores.{get_password_hash}
use stigmer_apps.Identity.AuthService.Steps.{issue_session-eq-ok, of_decision-eq-ok, with_session}
use stigmer_apps.Identity.AuthService.{
  AuthRuntime, HandlerContext, AuthState, LoginRequest, LoginResponse, uniform_login_failure,
  verified, stored_hash, login_email, login, within_budget, attempt_login, issue_session, too_many,
  sign_in, of_decision,
}

module _ {Spec Status : Type 0} (rt : AuthRuntime Spec Status) (ctx : HandlerContext)
    (req : LoginRequest) (w : AuthState) (has_email : is_empty (login_email rt ctx req) ≡ false)
    (has_password : is_empty req.password ≡ false) where
  abbrev email : Text
  email = login_email rt ctx req

  attempt-unverified :
      (user : Option (Resource Spec Status))
      → (check rt.limits ctx.now email w.limiter).0 ≡ allowed
      → rt.get_by_natural_key email ≡ ok user
      → verified rt ctx req.password user (stored_hash rt ctx user w.credentials) ≡ none
      → login rt ctx req w ≡ (
        throw (connect uniform_login_failure),
        record w {
          limiter =
              record_failure rt.limits ctx.now email (check rt.limits ctx.now email w.limiter).1;
        },
      )
  unfolding login within_budget
  attempt-unverified user room found bad = simp (has_email, has_password, room, found, bad)

  -- What a sign-in can lack: no user has the email, the user has no password, or it is another one.
  abbrev pub IsUnproved : Type 0
  IsUnproved =
      (rt.get_by_natural_key email ≡ ok none)
      ⊎ ((user : Resource Spec Status) × (rt.get_by_natural_key email ≡ ok (some user))
          × (get_password_hash (id_of user) w.credentials ≡ none))
      ⊎ ((user : Resource Spec Status) × (hash : Text) × (rt.get_by_natural_key email
            ≡ ok (some user))
          × (get_password_hash (id_of user) w.credentials ≡ some hash)
          × (rt.verify_password req.password hash ≡ false))

  -- Whichever of the three it lacks, a sign-in within the budget has the same answer and leaves the
  -- same state: one more failure of the email, and nothing else.
  pub login-uniform :
      (check rt.limits ctx.now email w.limiter).0 ≡ allowed
      → IsUnproved
      → login rt ctx req w ≡ (
        throw (connect uniform_login_failure),
        record w {
          limiter =
              record_failure rt.limits ctx.now email (check rt.limits ctx.now email w.limiter).1;
        },
      )
  login-uniform room (inl nobody) = attempt-unverified none room nobody refl
  login-uniform room (inr (inl (user, found, bare))) =
      attempt-unverified (some user) room found (simp bare)
  login-uniform room (inr (inr (user, hash, found, stored, wrong))) =
      attempt-unverified (some user) room found (ground (arith, stored, wrong))

  -- With the budget spent nothing is looked up: the answer is the limiter's, and so is all that changes.
  pub login-locked :
      (seconds : ℕ)
      → (check rt.limits ctx.now email w.limiter).0 ≡ denied seconds
      → login rt ctx req w ≡ (
        throw (connect (too_many rt ctx (codes "Too many sign-in attempts.") seconds)),
        record w { limiter = (check rt.limits ctx.now email w.limiter).1 },
      )
  unfolding login within_budget
  login-locked seconds spent = simp (has_email, has_password, spent)

-- Whoever is signed in has proved the password of the user with that email.
module _ {Spec Status : Type 0} (rt : AuthRuntime Spec Status) (ctx : HandlerContext)
    (req : LoginRequest) (w : AuthState) where
  verified-eq-some :
      (found : Option (Resource Spec Status)) (hash : Option Text) {user : Resource Spec Status}
      → verified rt ctx req.password found hash ≡ some user
      → (found ≡ some user)
        × ((h : Text) × (hash ≡ some h) × (rt.verify_password req.password h ≡ true))
  verified-eq-some none hash e = cc
  verified-eq-some (some u) none e = cc
  verified-eq-some (some u) (some h) e = (ground arith, (h, refl, ground arith))

  sign_in-eq-ok :
      (email : Text) (o : Option (Resource Spec Status)) (w1 : AuthState)
      → {out : LoginResponse (Resource Spec Status)} {w' : AuthState}
      → sign_in rt ctx email o w1 ≡ (ok out, w')
      → (o ≡ some out.user)
        × (w'
            ≡ with_session rt ctx out.user
                (record w1 { limiter = record_success email w1.limiter }))
  sign_in-eq-ok email none w1 e = cc
  sign_in-eq-ok email (some user) w1 {out} {w'} e =
      let started = record w1 { limiter = record_success email w1.limiter } in
      let (token, w2, issued, e1) = proceed-eq-ok (issue_session rt ctx user started) _ e in
      let (_, now_in) = issue_session-eq-ok rt ctx user started issued in
      let same_user : user ≡ out.user = ground arith in
      let end : w' ≡ w2 = ground arith in
      (ap some same_user, end ∙ now_in ∙ ap (λ u. with_session rt ctx u started) same_user)

  attempted :
      {out : LoginResponse (Resource Spec Status)} {w' : AuthState}
      → login rt ctx req w ≡ (ok out, w')
      → attempt_login rt ctx req (login_email rt ctx req) w ≡ (ok out, w')
  unfolding login
  attempted e = ground arith

  -- A session is only issued to a user whose password was proved, within the budget. It clears the
  -- failures of the email, leaves one new live row with the week-long lifetime next to those that have
  -- not expired, sets the cookie with its token, and leaves credentials and codes.
  pub login-proved :
      {out : LoginResponse (Resource Spec Status)} {w' : AuthState}
      → login rt ctx req w ≡ (ok out, w')
      → let email = login_email rt ctx req in
        ((check rt.limits ctx.now email w.limiter).0 ≡ allowed)
        × (rt.get_by_natural_key email ≡ ok (some out.user))
        × ((hash : Text) × (get_password_hash (id_of out.user) w.credentials ≡ some hash)
            × (rt.verify_password req.password hash ≡ true))
        × (w'
            ≡ with_session rt ctx out.user (record w {
              limiter = record_success email (check rt.limits ctx.now email w.limiter).1;
            }))
  unfolding within_budget
  login-proved {out} {w'} e =
      let email = login_email rt ctx req in
      let (_, room, e1) =
        after_query-eq-ok
          (of_decision rt ctx (codes "Too many sign-in attempts.")
            (check rt.limits ctx.now email w.limiter).0)
          _ _ (attempted e) in
      let (found, looked, e2) = after_query-eq-ok (rt.get_by_natural_key email) _ _ e1 in
      let (is_user, ended) =
        sign_in-eq-ok email
          (verified rt ctx req.password found (stored_hash rt ctx found w.credentials)) _ e2 in
      let (same, (hash, stored, proved)) =
        verified-eq-some found (stored_hash rt ctx found w.credentials) is_user in
      (
        of_decision-eq-ok rt ctx (codes "Too many sign-in attempts.") _ room,
        looked ∙ ap ok same,
        (hash, ap (λ o. stored_hash rt ctx o w.credentials) (sym same) ∙ stored, proved),
        ended,
      )
