-- ===== src/ResourceApi/Resource/Read.antt =====
-- packages/resource-api/src/resource.ts: the get and the list operation.
pub mod Laws
use stigmer_apps.Common.{
  ℕ, ◌≤◌, Text, codes, ◌++◌, ltb, if◌then◌else◌, Bool, List, [], ◌∷◌, Option, none, some, min,
}
use stigmer_apps.ResourceApi.Effects.{
  Result, ok, throw, Action, pure, raise_connect, lift, ◌>>=◌, ◌>>◌,
}
use stigmer_apps.ResourceApi.Pipeline.{
  PipelineStep, existence_check, Pipeline, new_pipeline, execute,
}
use stigmer_apps.ResourceApi.Envelope.{CallerPrincipal, Resource}
use stigmer_apps.ResourceApi.Store.Filter.{FilterValue, OrderBy, ListQuery, ListResult}
use stigmer_apps.ResourceApi.Port.{read, Verdict, Runtime}
use stigmer_apps.ResourceApi.Resource.{
  ResourceRef, ReadContext, Subject, required, validate_message, authorize_step, derive_all,
  derive_one,
}
use stigmer_apps.ResourceApi.Resource.Create.{plain_step}
use stigmer_apps.ResourceApi.Resource.Update.{load_required}

abbrev pub default_page_size : ℕ
default_page_size = 20

abbrev pub max_page_size : ℕ
max_page_size = 100

-- A number that the request leaves out, or sends as something that is not positive, is 0 here.
unfoldable pub page_limit : (page_size : ℕ) → ℕ
page_limit page_size = min (if ltb 0 page_size then page_size else default_page_size) max_page_size

-- What a list operation's `query` answers.
pub record PageRequest : Type 0 where
  pub page_size : ℕ
  pub page_offset : ℕ
  pub filter : List (Text × FilterValue)

abbrev pub list_query : OrderBy → PageRequest → ListQuery
list_query order_by q = record {
  limit = page_limit q.page_size;
  offset = q.page_offset;
  order_by = some order_by;
  filter = q.filter;
}

-- `validate` is protovalidate on the method's input schema.
module _ {W Spec Status I : Type 0} (rt : Runtime W Spec Status) (validate : I → Verdict) where
  abbrev Ctx : Type 0
  Ctx = ReadContext (Resource Spec Status) I

  abbrev pub start_read : I → Option CallerPrincipal → Ctx
  start_read input caller = record { caller = caller; input = input; target = none }

  unfoldable pub validate_request_step : PipelineStep W Ctx
  validate_request_step =
      plain_step (codes "validate-input")
        (λ ctx. validate_message rt.display_name (validate ctx.input) >> pure ctx)

  unfoldable pub load_target_step : (I → ResourceRef) → PipelineStep W Ctx
  load_target_step ref = record {
    name = codes "load-target";
    traits = existence_check ∷ [];
    execute = λ ctx. do
      target ← load_required rt (ref ctx.input)
      pure (record ctx { target = some target });
  }

  unfoldable pub get_steps : (operation : Text) → (I → ResourceRef) → List (PipelineStep W Ctx)
  get_steps operation ref =
      validate_request_step
      ∷ load_target_step ref
      ∷ authorize_step rt operation (λ ctx. ctx.caller)
          (λ ctx. record { resource = ctx.target; input = none })
      ∷ []

  unfoldable pub run_get :
      Pipeline W Ctx → I → Option CallerPrincipal → Action W (Resource Spec Status)
  run_get pipeline input caller = do
    ctx ← execute pipeline (start_read input caller)
    target ← required ctx.target
    derive_one rt target

  -- `getOperation`
  unfoldable pub get_operation :
      (operation : Text)
      → (I → ResourceRef)
      → Result (I → Option CallerPrincipal → Action W (Resource Spec Status))
  get_operation operation ref =
      elim (new_pipeline (rt.kind ++ codes "-" ++ operation) (get_steps operation ref)) [
        | throw f ↦ throw f
        | ok pipeline ↦ ok (run_get pipeline)
      ]

  unfoldable pub list_steps : (operation : Text) → List (PipelineStep W Ctx)
  list_steps operation =
      validate_request_step
      ∷ authorize_step rt operation (λ ctx. ctx.caller)
          (λ _. record { resource = none; input = none })
      ∷ []

  module _ {O : Type 0} (order_by : OrderBy) (query : I → CallerPrincipal → PageRequest)
      (respond : List (Resource Spec Status) → (total_count : ℕ) → O) where
    unfoldable pub run_list : Pipeline W Ctx → I → Option CallerPrincipal → Action W O
    run_list pipeline input caller = do
      ctx ← execute pipeline (start_read input caller)
      c ← required ctx.caller
      page ← read (rt.store.list rt.kind (list_query order_by (query ctx.input c)))
      items ← read (derive_all rt page.items)
      pure (respond items page.total_count)

    -- `listOperation`
    unfoldable pub list_operation :
        (operation : Text) → Result (I → Option CallerPrincipal → Action W O)
    list_operation operation =
        elim (new_pipeline (rt.kind ++ codes "-" ++ operation) (list_steps operation)) [
          | throw f ↦ throw f
          | ok pipeline ↦ ok (run_list pipeline)
        ]
