-- ===== src/Law/Tasks.antt =====
-- apps/law/backend/src/domain/task: overdue.ts, and the steps and handlers of task-resource.ts. The
-- day in the firm's timezone is a parameter. A filter is a JavaScript object: a table in which a later
-- key of a spread replaces an earlier one.
pub mod Listing
pub mod Overdue
use stigmer_apps.Common.{
  Text, codes, text_eq, text_lt, if◌then◌else◌, ◌&&◌, ◌||◌, not, ltb, is_empty, Bool, true, false,
  Option, none, some, List, [], ◌∷◌, ℕ, min, any, map, Table, table_get, table_set, length,
}
use stigmer_apps.ResourceApi.Errors.{Failure, ConnectError, connect, invalid_argument}
use stigmer_apps.ResourceApi.Effects.{Result, ok, throw, Action, pure, ◌>>=◌}
use stigmer_apps.ResourceApi.Envelope.{CallerPrincipal, Resource}
use stigmer_apps.ResourceApi.Pipeline.{PipelineStep}
use stigmer_apps.ResourceApi.Port.{EventType}
use stigmer_apps.ResourceApi.Resource.{ResourceRef, WriteContext, required}
use stigmer_apps.ResourceApi.Resource.Create.{plain_step}
use stigmer_apps.ResourceApi.Resource.Custom.{Handler, finish, fail, load, save, publish}
use stigmer_apps.ResourceApi.Store.Filter.{
  FilterObject, FilterValue, equals, object, Direction, Nulls, OrderBy, ListQuery,
}

pub data TaskState : Type 0 where
  unspecified open_state in_progress closed : TaskState

pub data TaskPriority : Type 0 where
  unset low medium high : TaskPriority

pub record TaskSpec : Type 0 where
  pub case_id : Text
  pub title : Text
  pub description : Text
  pub assignee_id : Option Text
  pub due_date : Option Text
  pub priority : TaskPriority

pub record TaskStatus : Type 0 where
  pub state : TaskState
  pub overdue : Bool
  pub case_file_number : Text

abbrev pub Task : Type 0
Task = Resource TaskSpec TaskStatus

-- `OPEN_STATES.includes(state)`
abbrev pub is_open : TaskState → Bool
is_open unspecified = false
is_open open_state = true
is_open in_progress = true
is_open closed = false

-- The names of the schema, as proto3 JSON renders a state.
unfoldable pub state_name : TaskState → Text
state_name unspecified = codes "TASK_STATE_UNSPECIFIED"
state_name open_state = codes "TASK_STATE_OPEN"
state_name in_progress = codes "TASK_STATE_IN_PROGRESS"
state_name closed = codes "TASK_STATE_CLOSED"

abbrev pub open_states : List TaskState
open_states = open_state ∷ in_progress ∷ []

unfoldable pub open_state_json_names : List Text
open_state_json_names = map state_name open_states

abbrev is_before : Option Text → Text → Bool
is_before none today = false
is_before (some due) today = text_lt due today

-- `isOverdue`
unfoldable pub is_overdue : (due_date : Option Text) → TaskState → (today : Text) → Bool
is_overdue due state today = is_before due today && is_open state

-- `{ in: values }`, `{ lt: value }` and `{ absent: true }`
abbrev pub in_values : List Text → FilterValue
in_values values = object (record {
  in_values = some values;
  absent = none;
  gte = none;
  gt = none;
  lte = none;
  lt = none;
  keys = 1;
})

abbrev pub less_than : Text → FilterValue
less_than value = object (record {
  in_values = none;
  absent = none;
  gte = none;
  gt = none;
  lte = none;
  lt = some value;
  keys = 1;
})

abbrev pub is_missing : FilterValue
is_missing = object (record {
  in_values = none;
  absent = some true;
  gte = none;
  gt = none;
  lte = none;
  lt = none;
  keys = 1;
})

abbrev pub Filter : Type 0
Filter = Table FilterValue

-- `openStatesFilter`
unfoldable pub open_states_filter : Filter
open_states_filter = (codes "state", in_values open_state_json_names) ∷ []

-- `overdueFilter`
unfoldable pub overdue_filter : (today : Text) → Filter
overdue_filter today =
    (codes "state", in_values open_state_json_names) ∷ (codes "dueDate", less_than today) ∷ []

-- `{ ...first, ...second }`
unfoldable pub spread : Filter → Filter → Filter
spread first [] = first
spread first ((field, value) ∷ second) = spread (table_set field value first) second

-- The steps before a write. A row without a spec is left alone.
abbrev with_default : TaskPriority → TaskPriority
with_default unset = medium
with_default low = low
with_default medium = medium
with_default high = high

abbrev pub default_priority : Task → Task
default_priority t = elim t.spec [
  | none ↦ t
  | some spec ↦ record t { spec = some (record spec { priority = with_default spec.priority }) }
]

abbrev pub initial_status : TaskStatus
initial_status = record { state = open_state; overdue = false; case_file_number = [] }

unfoldable pub priority_default_step : {W : Type 0} → PipelineStep W (WriteContext Task)
priority_default_step = plain_step (codes "default-priority") (λ ctx. do
  task ← required ctx.new_state
  pure (record ctx { new_state = some (default_priority task) }))

unfoldable pub open_on_create_step : {W : Type 0} → PipelineStep W (WriteContext Task)
open_on_create_step = plain_step (codes "initialize-status") (λ ctx. do
  task ← required ctx.new_state
  pure (record ctx { new_state = some (record task { status = some initial_status }) }))

abbrev pub state_of : Task → TaskState
state_of t = elim t.status [ none ↦ unspecified | some status ↦ status.state ]

abbrev pub due_of : Task → Option Text
due_of t = elim t.spec [ none ↦ none | some spec ↦ spec.due_date ]

abbrev case_of : Task → Text
case_of t = elim t.spec [ none ↦ [] | some spec ↦ spec.case_id ]

-- One round of `deriveTaskStatus`; `file_numbers` are those of the cases that were found.
unfoldable pub derive_status : (today : Text) → (file_numbers : Table Text) → Task → Task
derive_status today file_numbers t = record t {
  status = some (record {
    state = state_of t;
    overdue = is_overdue (due_of t) (state_of t) today;
    case_file_number = elim (table_get (case_of t) file_numbers) [
      | none ↦ []
      | some number ↦ number
    ];
  });
}

-- The handler of updateStatus.
abbrev pub moved : TaskState → Task → Task
moved state t = record t {
  status = some (record { state = state; overdue = false; case_file_number = [] });
}

abbrev pub after_save : {W : Type 0} → Task → Result Task → Handler W Task Task
after_save previous (throw f) = fail f
after_save previous (ok saved) = publish EventType.updated saved (some previous) (finish saved)

abbrev pub after_load : {W : Type 0} → TaskState → Result Task → Handler W Task Task
after_load state (throw f) = fail f
after_load state (ok task) = save (moved state task) (after_save task)

unfoldable pub update_status : {W : Type 0} → (id : Text) → TaskState → Handler W Task Task
update_status id state = load (record { id = some id; natural_key = none }) (after_load state)
