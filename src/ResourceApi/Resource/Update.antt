-- ===== src/ResourceApi/Resource/Update.antt =====
-- packages/resource-api/src/resource.ts: the update chain (buildUpdateExecutor).
pub mod Laws
use stigmer_apps.Common.{
  Text, codes, ◌++◌, text_eq, if◌then◌else◌, Bool, or_undefined, List, [], ◌∷◌, Option, none, some,
}
use stigmer_apps.ResourceApi.Errors.{already_exists, not_found}
use stigmer_apps.ResourceApi.Effects.{
  Result, ok, throw, Action, pure, raise_connect, lift, ◌>>=◌, ◌>>◌,
}
use stigmer_apps.ResourceApi.Pipeline.{
  PipelineStep, existence_check, Pipeline, new_pipeline, execute,
}
use stigmer_apps.ResourceApi.Envelope.{CallerPrincipal, Resource, id_of, build_update_state}
use stigmer_apps.ResourceApi.Port.{read, EventType, NaturalKey, Runtime}
use stigmer_apps.ResourceApi.Resource.{
  ResourceRef, WriteContext, required, authorize_step, require_ref, load_by_ref, ref_description,
  persist, publish_safely, derive_one,
}
use stigmer_apps.ResourceApi.Resource.Create.{
  WriteOptions, plain_step, start_context, validate_input_step,
}

module _ {W Spec Status : Type 0} (rt : Runtime W Spec Status) where
  abbrev Ctx : Type 0
  Ctx = WriteContext (Resource Spec Status)

  abbrev key_of : Option (NaturalKey (Resource Spec Status)) → Resource Spec Status → Option Text
  key_of none r = none
  key_of (some k) r = or_undefined (k.get r)

  -- The reference that the input carries.
  abbrev pub input_ref : Resource Spec Status → ResourceRef
  input_ref input = record {
    id = or_undefined (id_of input);
    natural_key = key_of rt.natural_key input;
  }

  abbrev or_not_found : {A : Type 0} → ResourceRef → Option A → Action W A
  or_not_found ref none = raise_connect (not_found rt.display_name (ref_description ref))
  or_not_found ref (some a) = pure a

  -- `requireRef`, `loadByRef`, and NOT_FOUND for a row that is not there.
  unfoldable pub load_required : ResourceRef → Action W (Resource Spec Status)
  load_required ref = do
    require_ref rt ref
    found ← read (load_by_ref rt ref)
    or_not_found ref found

  unfoldable pub load_existing_step : PipelineStep W Ctx
  load_existing_step = record {
    name = codes "load-existing";
    traits = existence_check ∷ [];
    execute = λ ctx. do
      existing ← load_required (input_ref ctx.input)
      pure (record ctx { existing = some existing });
  }

  -- The row under the new key, if it is another one.
  abbrev clash :
      NaturalKey (Resource Spec Status)
      → Ctx
      → (existing : Resource Spec Status) → (next : Text) → Option (Resource Spec Status)
      → Action W Ctx
  clash k ctx existing next none = pure ctx
  clash k ctx existing next (some other) =
      if text_eq (id_of other) (id_of existing)
      then pure ctx
      else raise_connect (already_exists rt.display_name k.label next)

  abbrev check_key :
      NaturalKey (Resource Spec Status)
      → Ctx
      → (existing : Resource Spec Status) → Option Text
      → Action W Ctx
  check_key k ctx existing none = pure ctx
  check_key k ctx existing (some next) =
      let look = read (rt.store.get_by_natural_key rt.kind next) >>= clash k ctx existing next in
      if text_eq next (k.get existing) then pure ctx else look

  unfoldable pub check_changed_key_step : PipelineStep W Ctx
  check_changed_key_step = plain_step (codes "check-duplicate") (λ ctx. elim rt.natural_key [
    | none ↦ pure ctx
    | some k ↦ do
      existing ← required ctx.existing
      check_key k ctx existing (or_undefined (k.get ctx.input))
  ])

  unfoldable pub build_updated_state_step : PipelineStep W Ctx
  build_updated_state_step = plain_step (codes "build-new-state") (λ ctx. do
    existing ← required ctx.existing
    caller ← required ctx.caller
    now ← rt.host.new_date
    state ← lift (build_update_state rt.identity ctx.input existing caller now)
    pure (record ctx { new_state = some state }))

  unfoldable pub save_step : PipelineStep W Ctx
  save_step =
      plain_step (codes "persist")
        (λ ctx. do state ← required ctx.new_state; persist rt state; pure ctx)

  unfoldable pub publish_updated_step : PipelineStep W Ctx
  publish_updated_step = plain_step (codes "publish") (λ ctx. do
    state ← required ctx.new_state
    publish_safely rt EventType.updated state ctx.existing ctx.caller
    pure ctx)

  unfoldable pub update_steps :
      (operation : Text) → WriteOptions W (Resource Spec Status) → List (PipelineStep W Ctx)
  update_steps operation options =
      validate_input_step rt
        ∷ load_existing_step
        ∷ authorize_step rt operation (λ ctx. ctx.caller)
            (λ ctx. record { resource = ctx.existing; input = some ctx.input })
        ∷ check_changed_key_step
        ∷ build_updated_state_step
        ∷ options.before_persist
      ++ (save_step ∷ options.after_persist ++ publish_updated_step ∷ [])

  unfoldable pub run_update :
      Pipeline W Ctx
      → (input : Resource Spec Status) → Option CallerPrincipal
      → Action W (Resource Spec Status)
  run_update pipeline input caller = do
    ctx ← execute pipeline (start_context input caller)
    updated ← required ctx.new_state
    derive_one rt updated

  -- `buildUpdateExecutor`
  unfoldable pub build_update_executor :
      (operation : Text)
      → WriteOptions W (Resource Spec Status)
      → Result (Resource Spec Status → Option CallerPrincipal → Action W (Resource Spec Status))
  build_update_executor operation options =
      elim (new_pipeline (rt.kind ++ codes "-" ++ operation) (update_steps operation options)) [
        | throw f ↦ throw f
        | ok pipeline ↦ ok (run_update pipeline)
      ]
