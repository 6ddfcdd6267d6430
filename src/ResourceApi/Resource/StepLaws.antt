-- ===== src/ResourceApi/Resource/StepLaws.antt =====
-- The validation and the authorization step, by how they end.
use stigmer_apps.Common.{Text, ◌≡◌, refl, Option, none, some, arith}
use stigmer_apps.ResourceApi.Errors.{connect, permission_denied}
use stigmer_apps.ResourceApi.Effects.{Result, ok, throw, proceed, proceed-eq-ok}
use stigmer_apps.ResourceApi.Pipeline.{PipelineStep}
use stigmer_apps.ResourceApi.Envelope.{CallerPrincipal, Resource}
use stigmer_apps.ResourceApi.Port.{
  Decision, allow, deny, AuthorizationRequest, Verdict, valid, invalid, error, Runtime,
}
use stigmer_apps.ResourceApi.Resource.{
  Subject, decide, validate_message, authorize_or_throw, authorize_step,
}

module _ {W Spec Status : Type 0} (rt : Runtime W Spec Status) (operation : Text) where
  -- What the policy is asked for a caller and a subject.
  abbrev pub request :
      CallerPrincipal → Subject (Resource Spec Status) → AuthorizationRequest (Resource Spec Status)
  request caller subject = record {
    caller = caller;
    kind = rt.kind;
    operation = operation;
    resource = subject.resource;
    input = subject.input;
  }

  pub authorize_or_throw-allow :
      (caller : CallerPrincipal) (subject : Subject (Resource Spec Status)) (w : W)
      → rt.authorize (request caller subject) w ≡ ok allow
      → authorize_or_throw rt operation (some caller) subject w ≡ (ok tt, w)
  unfolding authorize_or_throw
  authorize_or_throw-allow caller subject w h = rw h

  pub authorize_or_throw-deny :
      (caller : CallerPrincipal) (subject : Subject (Resource Spec Status)) (w : W) (reason : Text)
      → rt.authorize (request caller subject) w ≡ ok (deny reason)
      → authorize_or_throw rt operation (some caller) subject w
        ≡ (throw (connect (permission_denied reason)), w)
  unfolding authorize_or_throw
  authorize_or_throw-deny caller subject w reason h = rw h

  decide-eq-ok :
      (o : Result Decision) (w : W) {u : Unit {0}} {w' : W}
      → proceed (o, w) (decide rt) ≡ (ok u, w')
      → (o ≡ ok allow) × (w' ≡ w)
  decide-eq-ok (ok allow) w h = (refl, ground arith)
  decide-eq-ok (ok (deny r)) w h = cc
  decide-eq-ok (throw f) w h = cc

  -- Authorization passes only on the policy's word, for a caller that is known.
  pub authorize_or_throw-eq-ok :
      (caller : Option CallerPrincipal) (subject : Subject (Resource Spec Status)) (w : W)
      {u : Unit {0}} {w' : W}
      → authorize_or_throw rt operation caller subject w ≡ (ok u, w')
      → (c : CallerPrincipal) × (caller ≡ some c)
        × (rt.authorize (request c subject) w ≡ ok allow)
        × (w' ≡ w)
  unfolding authorize_or_throw
  authorize_or_throw-eq-ok none subject w h = cc
  authorize_or_throw-eq-ok (some c) subject w h =
      let (allowed, same) = decide-eq-ok (rt.authorize (request c subject) w) w h in
      (c, refl, allowed, same)

-- The steps of a chain, over the parts of its context.
module _ {W Spec Status C : Type 0} (rt : Runtime W Spec Status) (operation : Text)
    (caller_of : C → Option CallerPrincipal) (subject_of : C → Subject (Resource Spec Status))
    (ctx : C) (w : W) where
  abbrev the_step : PipelineStep W C
  the_step = authorize_step rt operation caller_of subject_of

  pub authorize_step-allow :
      (caller : CallerPrincipal)
      → caller_of ctx ≡ some caller
      → rt.authorize (request rt operation caller (subject_of ctx)) w ≡ ok allow
      → (authorize_step rt operation caller_of subject_of).execute ctx w ≡ (ok ctx, w)
  unfolding authorize_step
  authorize_step-allow caller known h =
      rw (known, authorize_or_throw-allow rt operation caller (subject_of ctx) w h)

  pub authorize_step-deny :
      (caller : CallerPrincipal) (reason : Text)
      → caller_of ctx ≡ some caller
      → rt.authorize (request rt operation caller (subject_of ctx)) w ≡ ok (deny reason)
      → (authorize_step rt operation caller_of subject_of).execute ctx w
        ≡ (throw (connect (permission_denied reason)), w)
  unfolding authorize_step
  authorize_step-deny caller reason known h =
      rw (known, authorize_or_throw-deny rt operation caller (subject_of ctx) w reason h)

  pub authorize_step-eq-ok :
      {ctx' : C} {w' : W}
      → (authorize_step rt operation caller_of subject_of).execute ctx w ≡ (ok ctx', w')
      → (c : CallerPrincipal) × (caller_of ctx ≡ some c)
        × (rt.authorize (request rt operation c (subject_of ctx)) w ≡ ok allow)
        × (ctx' ≡ ctx)
        × (w' ≡ w)
  unfolding authorize_step
  authorize_step-eq-ok {ctx'} {w'} h =
      let (u, v, e, rest) =
        proceed-eq-ok (authorize_or_throw rt operation (caller_of ctx) (subject_of ctx) w)
          (λ _ v. (ok ctx, v)) h in
      let (c, known, allowed, same) =
        authorize_or_throw-eq-ok rt operation (caller_of ctx) (subject_of ctx) w e in
      (c, known, allowed, ground arith, ground (arith, same))

-- The validation of an input.
pub validate_message-eq-ok :
    {W : Type 0} (subject : Text) (v : Verdict) (w : W) {u : Unit {0}} {w' : W}
    → validate_message subject v w ≡ (ok u, w')
    → (v ≡ valid) × (w' ≡ w)
unfolding validate_message
validate_message-eq-ok subject valid w h = (refl, ground arith)
validate_message-eq-ok subject (invalid d) w h = cc
validate_message-eq-ok subject error w h = cc
