-- ===== src/ResourceApi/Tests/Others.antt =====
-- Updates, gets, lists and custom operations on notes, and a pipeline that is out of order.
use stigmer_apps.ResourceApi.Store.Memory.{
  sort, sorted_rows, filtered_rows, selected, list, key_taken, assert_natural_key_free, require_id,
  save, get_by_id,
}
use stigmer_apps.ResourceApi.Resource.Create.{validate_input_step}
use stigmer_apps.Common.{
  table_get, Text, codes, text_eq, ℕ, ◌≡◌, ◌↔◌, refl, true, Option, some, none, List, [], ◌∷◌,
}
use stigmer_apps.ResourceApi.Effects.{ok, throw, Action}
use stigmer_apps.ResourceApi.Errors.{Failure, ConnectError, connect, bare, internal}
use stigmer_apps.ResourceApi.Envelope.{CallerPrincipal, Metadata, touched}
use stigmer_apps.ResourceApi.Port.{Runtime, EventType, Verdict, valid}
use stigmer_apps.ResourceApi.Pipeline.{
  guarded, Pipeline, PipelineStep, StepTrait, existence_check, authorization, new_pipeline,
  misplaced_error, execute, checks_existence, authorizes,
}
use stigmer_apps.ResourceApi.Pipeline.Run.{execute-IsTyped}
use stigmer_apps.ResourceApi.Pipeline.Order.{Misplaced, new_pipeline_refuses_iff}
use stigmer_apps.ResourceApi.Store.Filter.{OrderBy, Direction, Nulls}
use stigmer_apps.ResourceApi.Tests.{notes, ann, note, no_steps, used, World, Note, note_store}
use stigmer_apps.ResourceApi.Resource.{
  derive_all, authorize_or_throw, validate_message, load_by_ref, require_ref, authorize_step,
  ResourceRef, derive_one, publish_safely,
}
use stigmer_apps.ResourceApi.Resource.Update.{
  check_changed_key_step, load_existing_step, update_steps, run_update, build_update_executor,
}
use stigmer_apps.ResourceApi.Resource.Update.Laws.{update_pipeline, update_saves}
use stigmer_apps.ResourceApi.Resource.Read.{
  load_target_step, validate_request_step, page_limit, PageRequest, get_steps, run_get,
  get_operation, list_steps, run_list, list_operation,
}
use stigmer_apps.ResourceApi.Resource.Read.Laws.{Listed, list-Listed}
use stigmer_apps.ResourceApi.Resource.Custom.{
  authorize_scope, run_handler, Handler, finish, authorize, run_custom,
}
use stigmer_apps.ResourceApi.Resource.Custom.Laws.{WasAllowed, run_custom-WasAllowed}

abbrev rt : Runtime World Text (Unit {0})
rt = notes true

abbrev plan : Note
plan = note (codes "note_00") (codes "plan")

-- An update of the note that is there, by its id, to a longer text under the same title.
abbrev longer : Note
longer = note (codes "note_00") (codes "plan b")

abbrev update_op : Text
update_op = codes "update"

abbrev update_of : Note → Option CallerPrincipal → Action World Note
update_of input = run_update rt (update_pipeline rt update_op no_steps input) input

update_built :
    (input : Note)
    → build_update_executor rt update_op no_steps
      ≡ ok (run_update rt (update_pipeline rt update_op no_steps input))
unfolding build_update_executor new_pipeline update_steps validate_input_step load_existing_step
    authorize_step
update_built input = refl

abbrev plan_metadata : Metadata
plan_metadata = record {
  id = codes "note_00";
  version = 1;
  created_at = some 7;
  created_by = none;
  updated_at = some 7;
  updated_by = none;
}

abbrev longer_row : Note
longer_row = record {
  api_version = codes "v1";
  kind = codes "Note";
  metadata = some (touched plan_metadata ann 7);
  spec = some (codes "plan b");
  status = none;
}

abbrev saved : World
saved = (note_store.save (codes "Note") longer_row used).1

update_saves_example :
    update_of longer (some ann) used
    ≡ derive_one rt longer_row
        (publish_safely rt EventType.updated longer_row (some plan) (some ann) saved).1
unfolding text_eq require_ref load_by_ref get_by_id table_get check_changed_key_step save require_id
    touched assert_natural_key_free key_taken
update_saves_example =
    update_saves rt update_op no_steps longer used refl refl plan ann refl refl refl plan_metadata
      refl 7 used saved refl refl (update_built longer) refl

abbrev get_op : Text
get_op = codes "get"

abbrev by_text : Text → ResourceRef
by_text id = record { id = some id; natural_key = none }

abbrev accept : Text → Verdict
accept _ = valid

abbrev get_of : Text → Option CallerPrincipal → Action World Note
get_of =
    run_get rt accept
      (record { name = codes "Note-get"; steps = get_steps rt accept get_op by_text })

get_built : get_operation rt accept get_op by_text ≡ ok get_of
unfolding get_operation new_pipeline get_steps validate_request_step load_target_step authorize_step
get_built = refl

abbrev by_title : OrderBy
by_title = record { field = codes "title"; direction = Direction.asc; nulls = Nulls.last }

abbrev first_page : Text → CallerPrincipal → PageRequest
first_page _ _ = record { page_size = 0; page_offset = 0; filter = [] }

abbrev items_of : List Note → ℕ → List Note
items_of items total = items

abbrev list_op : Text
list_op = codes "list"

abbrev list_of : Text → Option CallerPrincipal → Action World (List Note)
list_of =
    run_list rt accept by_title first_page items_of
      (record { name = codes "Note-list"; steps = list_steps rt accept list_op })

list_built : list_operation rt accept by_title first_page items_of list_op ≡ ok list_of
unfolding list_operation new_pipeline list_steps validate_request_step authorize_step
list_built = refl

list_ran : list_of [] (some ann) used ≡ (ok (plan ∷ []), used)
unfolding text_eq run_list execute list_steps guarded validate_request_step validate_message
    authorize_step authorize_or_throw list selected filtered_rows sorted_rows derive_all page_limit
    sort
list_ran = refl

list-Listed_example :
    Listed rt accept list_op [] used by_title first_page items_of (some ann) (plan ∷ []) used
list-Listed_example =
    list-Listed rt accept list_op [] used by_title first_page items_of (some ann) list_built
      list_ran

-- A handler that asks for its scope and ignores the answer.
abbrev count_notes : Handler World Note ℕ
count_notes = authorize (λ _. finish 1)

custom_ran : run_custom rt (codes "count") (some ann) valid count_notes used ≡ (ok 1, used)
unfolding text_eq run_custom validate_message run_handler authorize_scope authorize_or_throw
custom_ran = refl

run_custom-WasAllowed_example : (valid ≡ valid) × WasAllowed rt (codes "count") (some ann)
run_custom-WasAllowed_example =
    run_custom-WasAllowed rt (codes "count") (some ann) valid count_notes used custom_ran

abbrev step : Text → List StepTrait → PipelineStep World ℕ
step name traits = record { name = name; traits = traits; execute = λ n w. (ok n, w) }

abbrev hasty : List (PipelineStep World ℕ)
hasty =
    step (codes "authorize") (authorization ∷ []) ∷ step (codes "load") (existence_check ∷ []) ∷ []

new_pipeline_refuses_iff_example :
    (new_pipeline (codes "hasty") hasty ≡ throw (misplaced_error (codes "hasty")))
    ↔ Misplaced checks_existence authorizes hasty
new_pipeline_refuses_iff_example = new_pipeline_refuses_iff (codes "hasty") hasty

-- The second of its steps throws an error that is not typed.
abbrev failing : Pipeline World ℕ
failing = record {
  name = codes "failing";
  steps =
      step (codes "load") (existence_check ∷ [])
      ∷ record {
        name = codes "break";
        traits = [];
        execute = λ n w. (throw (bare (codes "connection lost")), w);
      }
      ∷ [];
}

-- What leaves the pipeline.
abbrev lost : Failure
lost = connect (internal (codes "Internal error in failing"))

execute-IsTyped_example : (e : ConnectError) × (lost ≡ connect e)
unfolding execute guarded
execute-IsTyped_example = execute-IsTyped failing 3 used lost refl
