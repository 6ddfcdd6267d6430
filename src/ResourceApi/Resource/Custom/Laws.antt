-- ===== src/ResourceApi/Resource/Custom/Laws.antt =====
-- A custom operation fails closed.
use stigmer_apps.Common.{Text, ◌≡◌, refl, Bool, true, false, Option, none, some}
use stigmer_apps.ResourceApi.Effects.{Result, ok, throw, proceed-eq-ok}
use stigmer_apps.ResourceApi.Envelope.{CallerPrincipal, Resource}
use stigmer_apps.ResourceApi.Port.{allow, Verdict, valid, Runtime}
use stigmer_apps.ResourceApi.Resource.{Subject, ResourceRef, validate_message, authorize_or_throw}
use stigmer_apps.ResourceApi.Resource.StepLaws.{
  request, authorize_or_throw-eq-ok, validate_message-eq-ok,
}
use stigmer_apps.ResourceApi.Resource.Update.{load_required}
use stigmer_apps.ResourceApi.Resource.Custom.{
  Handler, finish, fail, load, authorize, save, publish, look, change, load_authorized,
  authorize_scope, save_stamped, raised, run_handler, respond, run_custom,
}

module _ {W Spec Status : Type 0} (rt : Runtime W Spec Status) (operation : Text)
    (caller : Option CallerPrincipal) where
  -- The policy has allowed the operation to the caller, on some resource or on the scope.
  pub record WasAllowed : Type 0 where
    pub asker : CallerPrincipal
    pub known : caller ≡ some asker
    pub subject : Subject (Resource Spec Status)
    pub at : W
    pub allowed : rt.authorize (request rt operation asker subject) at ≡ ok allow

  authorized_by :
      (subject : Subject (Resource Spec Status)) (w : W) {u : Unit {0}} {w' : W}
      → authorize_or_throw rt operation caller subject w ≡ (ok u, w')
      → WasAllowed
  authorized_by subject w h =
      let (c, known, allowed, _) = authorize_or_throw-eq-ok rt operation caller subject w h in
      record { asker = c; known = known; subject = subject; at = w; allowed = allowed }

  -- What holds if the flag is up.
  abbrev Backed : Bool → Type 0
  Backed true = WasAllowed
  Backed false = Unit

  raised-Backed :
      {A : Type 0} (o : Result A × W) (flag : Bool)
      → ((a : A) (w' : W) → o ≡ (ok a, w') → WasAllowed)
      → Backed flag
      → Backed (raised o.0 flag)
  raised-Backed (ok a, w') flag granted h = granted a w' refl
  raised-Backed (throw f, w') flag granted h = h

  load_authorized-WasAllowed :
      (ref : ResourceRef) (w : W) (r : Resource Spec Status) (w' : W)
      → load_authorized rt operation caller ref w ≡ (ok r, w')
      → WasAllowed
  unfolding load_authorized
  load_authorized-WasAllowed ref w r w' h =
      let (row, v, _, rest) = proceed-eq-ok (load_required rt ref w) _ h in
      let subject : Subject (Resource Spec Status) = record { resource = some row; input = none } in
      let (u, v', e, _) = proceed-eq-ok (authorize_or_throw rt operation caller subject v) _ rest in
      authorized_by subject v e

  authorize_scope-WasAllowed :
      (w : W) (u : Unit {0}) (w' : W)
      → authorize_scope rt operation caller w ≡ (ok u, w')
      → WasAllowed
  unfolding authorize_scope
  authorize_scope-WasAllowed w u w' h = authorized_by (record { resource = none; input = none }) w h

  -- The flag goes up only on the policy's word, whatever the handler does.
  run_handler-Backed :
      {O : Type 0} (h : Handler W (Resource Spec Status) O) (flag : Bool) (w : W)
      → Backed flag
      → Backed (run_handler rt operation caller h flag w).1
  unfolding run_handler
  run_handler-Backed (finish o) flag w b = b
  run_handler-Backed (fail f) flag w b = b
  run_handler-Backed (load ref next) flag w b =
      let o : Result (Resource Spec Status) × W = load_authorized rt operation caller ref w in
      run_handler-Backed (next o.0) (raised o.0 flag) o.1
        (raised-Backed o flag (load_authorized-WasAllowed ref w) b)
  run_handler-Backed (authorize next) flag w b =
      let o : Result (Unit {0}) × W = authorize_scope rt operation caller w in
      run_handler-Backed (next o.0) (raised o.0 flag) o.1
        (raised-Backed o flag (authorize_scope-WasAllowed w) b)
  run_handler-Backed (save row next) flag w b =
      let o : Result (Resource Spec Status) × W = save_stamped rt operation caller row w in
      run_handler-Backed (next o.0) flag o.1 b
  run_handler-Backed (publish type row previous next) flag w b = run_handler-Backed next flag _ b
  run_handler-Backed (look next) flag w b = run_handler-Backed (next w) flag w b
  run_handler-Backed (change f next) flag w b = run_handler-Backed next flag (f w) b

  answered :
      {O : Type 0} (t : Result O × Bool × W) {o : O} {w' : W}
      → Backed t.1
      → respond rt operation caller t ≡ (ok o, w')
      → WasAllowed
  answered (ok o, true, w) b h = b
  answered (ok o, false, w) b h = cc
  answered (throw f, flag, w) b h = cc

  -- A custom operation answers only if the request was valid and the policy has allowed the
  -- operation to its caller, whatever its handler does and catches.
  pub run_custom-WasAllowed :
      {O : Type 0} (verdict : Verdict) (h : Handler W (Resource Spec Status) O) (w : W) {o : O}
      {w' : W}
      → run_custom rt operation caller verdict h w ≡ (ok o, w')
      → (verdict ≡ valid) × WasAllowed
  unfolding run_custom
  run_custom-WasAllowed verdict h w e =
      let (u, v, e₁, e₂) = proceed-eq-ok (validate_message _ verdict w) _ e in
      let (is_valid, _) = validate_message-eq-ok _ verdict w e₁ in
      (
        is_valid,
        answered (run_handler rt operation caller h false v) (run_handler-Backed h false v tt) e₂,
      )
