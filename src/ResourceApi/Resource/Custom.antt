-- ===== src/ResourceApi/Resource/Custom.antt =====
-- packages/resource-api/src/resource.ts: the custom operation, whose handler is application code.
pub mod Laws
use stigmer_apps.Common.{Text, codes, ◌++◌, Bool, true, false, Option, none, some}
use stigmer_apps.ResourceApi.Errors.{Failure, connect, internal, not_found}
use stigmer_apps.ResourceApi.Effects.{
  Result, ok, throw, Action, pure, lift, raise_connect, proceed, ◌>>=◌, ◌>>◌,
}
use stigmer_apps.ResourceApi.Envelope.{CallerPrincipal, Resource, stamp_custom_mutation}
use stigmer_apps.ResourceApi.Port.{read, EventType, Verdict, Runtime}
use stigmer_apps.ResourceApi.Resource.{
  ResourceRef, required, validate_message, authorize_or_throw, persist, publish_safely,
}
use stigmer_apps.ResourceApi.Resource.Update.{load_required}

-- Any handler: what it does with the five members of its context, what it reads of the world and
-- how it changes it otherwise. A member's answer is handed over as a result, since a handler may
-- catch what it throws.
pub data Handler (W R O : Type 0) : Type 0 where
  finish : O → Handler W R O
  fail : Failure → Handler W R O
  load : ResourceRef → (Result R → Handler W R O) → Handler W R O
  authorize : (Result (Unit {0}) → Handler W R O) → Handler W R O
  save : R → (Result R → Handler W R O) → Handler W R O
  publish : EventType → R → Option R → Handler W R O → Handler W R O
  look : (W → Handler W R O) → Handler W R O
  change : (W → W) → Handler W R O → Handler W R O

-- The flag after a member that authorizes.
abbrev pub raised : {A : Type 0} → Result A → Bool → Bool
raised (ok _) flag = true
raised (throw _) flag = flag

module _ {W Spec Status : Type 0} (rt : Runtime W Spec Status) (operation : Text)
    (caller : Option CallerPrincipal) where
  -- `ctx.load`, up to the flag.
  unfoldable pub load_authorized : ResourceRef → Action W (Resource Spec Status)
  load_authorized ref = do
    resource ← load_required rt ref
    authorize_or_throw rt operation caller (record { resource = some resource; input = none })
    pure resource

  -- `ctx.authorize`, up to the flag.
  unfoldable pub authorize_scope : Action W (Unit {0})
  authorize_scope =
      authorize_or_throw rt operation caller (record { resource = none; input = none })

  -- `ctx.save`; the state that it answers is the one whose metadata it has stamped in place.
  unfoldable pub save_stamped : Resource Spec Status → Action W (Resource Spec Status)
  save_stamped resource = do
    now ← rt.host.new_date
    stamped ← lift (stamp_custom_mutation rt.identity resource caller now)
    persist rt stamped
    pure stamped

  -- A handler's run, with the variable `authorized`.
  unfoldable pub run_handler :
      {O : Type 0} → Handler W (Resource Spec Status) O → Bool → W → Result O × Bool × W
  run_handler (finish o) flag w = (ok o, flag, w)
  run_handler (fail f) flag w = (throw f, flag, w)
  run_handler (load ref next) flag w =
      let (r, w') = load_authorized ref w in run_handler (next r) (raised r flag) w'
  run_handler (authorize next) flag w =
      let (r, w') = authorize_scope w in run_handler (next r) (raised r flag) w'
  run_handler (save row next) flag w =
      let (r, w') = save_stamped row w in run_handler (next r) flag w'
  run_handler (publish type row previous next) flag w =
      run_handler next flag (publish_safely rt type row previous caller w).1
  run_handler (look next) flag w = run_handler (next w) flag w
  run_handler (change f next) flag w = run_handler next flag (f w)

  unfoldable pub unauthorized_error : Failure
  unauthorized_error = connect (
      internal (
        rt.display_name
        ++ codes " "
        ++ operation
        ++ codes
            ": handler completed without an authorization check (call ctx.load() or ctx.authorize())"))

  -- The answer of a handler that has completed.
  abbrev pub respond : {O : Type 0} → Result O × Bool × W → Result O × W
  respond (ok o, true, w) = (ok o, w)
  respond (ok o, false, w) = (throw unauthorized_error, w)
  respond (throw f, flag, w) = (throw f, w)

  -- `customOperation`; `verdict` is protovalidate on the request.
  unfoldable pub run_custom :
      {O : Type 0} → (verdict : Verdict) → Handler W (Resource Spec Status) O → Action W O
  run_custom verdict handler =
      validate_message (rt.display_name ++ codes " " ++ operation) verdict >> λ w.
      respond (run_handler handler false w)
