-- ===== src/ResourceApi/Resource/Create.antt =====
-- packages/resource-api/src/resource.ts: the create chain (insertNew, buildCreateExecutor).
pub mod Laws
pub mod Held
use stigmer_apps.Common.{
  Text, codes, ◌++◌, if◌then◌else◌, Bool, true, false, or_undefined, List, [], ◌∷◌, Option, none,
  some,
}
use stigmer_apps.ResourceApi.Errors.{
  Failure, connect, duplicate_natural_key, duplicate_id, bare, already_exists,
}
use stigmer_apps.ResourceApi.Effects.{
  Result, ok, throw, Action, pure, raise, raise_connect, lift, proceed, ◌>>=◌, ◌>>◌,
}
use stigmer_apps.ResourceApi.Pipeline.{PipelineStep, Pipeline, new_pipeline, execute}
use stigmer_apps.ResourceApi.Envelope.{
  CallerPrincipal, Resource, generate_resource_id, build_create_state,
}
use stigmer_apps.ResourceApi.Port.{read, EventType, NaturalKey, Runtime}
use stigmer_apps.ResourceApi.Resource.{
  WriteContext, required, validate_message, authorize_step, settle_on_holder, publish_safely,
  derive_one,
}

-- `CreateOperationOptions` and `UpdateOperationOptions`
pub record WriteOptions (W R : Type 0) : Type 0 where
  pub before_persist : List (PipelineStep W (WriteContext R))
  pub after_persist : List (PipelineStep W (WriteContext R))

abbrev pub plain_step : {W C : Type 0} → (name : Text) → (C → Action W C) → PipelineStep W C
plain_step name run = record { name = name; traits = []; execute = run }

abbrev pub start_context : {R : Type 0} → R → Option CallerPrincipal → WriteContext R
start_context input caller = record {
  caller = caller;
  input = input;
  existing = none;
  new_state = none;
  holder = none;
  settled = none;
}

module _ {W Spec Status : Type 0} (rt : Runtime W Spec Status) where
  abbrev Ctx : Type 0
  Ctx = WriteContext (Resource Spec Status)

  abbrev is_idempotent : Option (NaturalKey (Resource Spec Status)) → Bool
  is_idempotent none = false
  is_idempotent (some k) = k.idempotent

  -- The race arm: the row that won, if it is still there, or ALREADY_EXISTS.
  abbrev raced :
      NaturalKey (Resource Spec Status)
      → Ctx
      → (value : Text) → Option (Resource Spec Status)
      → Action W Ctx
  raced k ctx value none = raise_connect (already_exists rt.display_name k.label value)
  raced k ctx value (some holder) = settle_on_holder rt ctx holder

  -- The `catch` of `insertNew`.
  insert_failed : Option (NaturalKey (Resource Spec Status)) → Ctx → Failure → Action W Ctx
  insert_failed (some k) ctx (duplicate_natural_key kind value) =
      if k.idempotent
      then read (rt.store.get_by_natural_key rt.kind value) >>= raced k ctx value
      else raise_connect (already_exists rt.display_name k.label value)
  insert_failed _ ctx f = raise f

  -- `try { … } catch (err) { … }`
  abbrev recover : {A : Type 0} → Result (Unit {0}) × W → A → (Failure → Action W A) → Result A × W
  recover (ok _, w) a handler = (ok a, w)
  recover (throw f, w) a handler = handler f w

  unfoldable pub insert_new : Ctx → Action W Ctx
  unfolding insert_failed
  insert_new ctx = do
    state ← required ctx.new_state
    λ w. recover (rt.store.insert rt.kind state w) ctx (insert_failed rt.natural_key ctx)

  unfoldable pub validate_input_step : PipelineStep W Ctx
  validate_input_step =
      plain_step (codes "validate-input")
        (λ ctx. validate_message rt.display_name (rt.validate ctx.input) >> pure ctx)

  -- A key that is held: refused, or left for resolve-duplicate.
  abbrev held :
      NaturalKey (Resource Spec Status)
      → Ctx
      → (value : Text) → Option (Resource Spec Status)
      → Action W Ctx
  held k ctx value none = pure ctx
  held k ctx value (some holder) =
      if k.idempotent
      then pure (record ctx { holder = some holder })
      else raise_connect (already_exists rt.display_name k.label value)

  abbrev look_up : NaturalKey (Resource Spec Status) → Ctx → Option Text → Action W Ctx
  look_up k ctx none = pure ctx
  look_up k ctx (some value) = read (rt.store.get_by_natural_key rt.kind value) >>= held k ctx value

  unfoldable pub check_duplicate_step : PipelineStep W Ctx
  check_duplicate_step = plain_step (codes "check-duplicate") (λ ctx. elim rt.natural_key [
    | none ↦ pure ctx
    | some k ↦ look_up k ctx (or_undefined (k.get ctx.input))
  ])

  unfoldable pub build_new_state_step : PipelineStep W Ctx
  build_new_state_step = plain_step (codes "build-new-state") (λ ctx. do
    caller ← required ctx.caller
    now ← rt.host.new_date
    ulid ← rt.host.ulid
    id ← lift (generate_resource_id rt.identity.id_prefix ulid)
    pure (record ctx { new_state = some (build_create_state rt.identity ctx.input caller now id) }))

  unfoldable pub resolve_duplicate_step : PipelineStep W Ctx
  resolve_duplicate_step =
      plain_step (codes "resolve-duplicate")
        (λ ctx. elim ctx.holder [ none ↦ pure ctx | some holder ↦ settle_on_holder rt ctx holder ])

  unfoldable pub persist_step : PipelineStep W Ctx
  persist_step =
      plain_step (codes "persist")
        (λ ctx. elim ctx.settled [ none ↦ insert_new ctx | some _ ↦ pure ctx ])

  abbrev resolve_steps : Bool → List (PipelineStep W Ctx)
  resolve_steps true = resolve_duplicate_step ∷ []
  resolve_steps false = []

  unfoldable pub write_steps :
      (operation : Text) → List (PipelineStep W Ctx) → List (PipelineStep W Ctx)
  write_steps operation before_persist =
      validate_input_step
        ∷ authorize_step rt operation (λ ctx. ctx.caller)
            (λ ctx. record { resource = none; input = some ctx.input })
        ∷ check_duplicate_step
        ∷ build_new_state_step
        ∷ before_persist
      ++ (resolve_steps (is_idempotent rt.natural_key) ++ persist_step ∷ [])

  unfoldable pub publish_created_step : PipelineStep W Ctx
  publish_created_step = plain_step (codes "publish") (λ ctx. do
    state ← required ctx.new_state
    publish_safely rt EventType.created state none ctx.caller
    pure ctx)

  unfoldable pub announce_steps : List (PipelineStep W Ctx) → List (PipelineStep W Ctx)
  announce_steps after_persist = after_persist ++ publish_created_step ∷ []

  -- What follows the write pipeline.
  unfoldable pub finish_create : Pipeline W Ctx → (ctx : Ctx) → Action W (Resource Spec Status)
  finish_create announce ctx = elim ctx.settled [
    | some holder ↦ derive_one rt holder
    | none ↦ do
      ctx' ← execute announce ctx
      created ← required ctx'.new_state
      derive_one rt created
  ]

  unfoldable pub run_create :
      (write announce : Pipeline W Ctx)
      → (input : Resource Spec Status) → Option CallerPrincipal
      → Action W (Resource Spec Status)
  run_create write announce input caller =
      execute write (start_context input caller) >>= finish_create announce

  -- `buildCreateExecutor`: the two chains are built, and checked, once.
  unfoldable pub build_create_executor :
      (operation : Text)
      → WriteOptions W (Resource Spec Status)
      → Result (Resource Spec Status → Option CallerPrincipal → Action W (Resource Spec Status))
  build_create_executor operation options =
      elim (new_pipeline (rt.kind ++ codes "-" ++ operation)
        (write_steps operation options.before_persist)) [
          | throw f ↦ throw f
          | ok write ↦
              elim (new_pipeline (rt.kind ++ codes "-" ++ operation ++ codes "-announce")
                (announce_steps options.after_persist)) [
                  | throw f ↦ throw f
                  | ok announce ↦ ok (run_create write announce)
                ]
        ]
