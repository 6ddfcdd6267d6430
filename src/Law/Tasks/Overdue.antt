-- ===== src/Law/Tasks/Overdue.antt =====
-- apps/law/backend/src/domain/task/overdue.ts: the derivation and the filter are one rule.
use stigmer_apps.Common.{
  Text, codes, text_eq, is_empty, ◌&&◌, Bool, false, Option, none, some, List, [], ◌∷◌, filter, All,
  ◌≡◌, ◌≢◌, refl, ap, ◌∙◌, arith,
}
use stigmer_apps.ResourceApi.Effects.{ok}
use stigmer_apps.ResourceApi.Store.Filter.{
  FilterValue, NormalizedFilter, normalize_filter_value, one_of, range, Comparison,
}
use stigmer_apps.ResourceApi.Store.Memory.{
  JsonNode, undefined, string, KindConfig, json_value, within_bound, matches_condition,
  filtered_rows,
}
use stigmer_apps.Law.Tasks.{
  Task, TaskState, TaskStatus, unspecified, open_state, in_progress, closed, state_name,
  open_state_json_names, is_open, is_overdue, less_than, in_values, overdue_filter, state_of,
  due_of,
}

-- How proto3 JSON renders a row under the two registered paths: the name of its state, where a status
-- is there and its state is not the zero of the enumeration, and its due date.
abbrev pub state_node : Option TaskStatus → JsonNode
state_node none = undefined
state_node (some status) = elim status.state [
  | unspecified ↦ undefined
  | open_state ↦ string (state_name open_state)
  | in_progress ↦ string (state_name in_progress)
  | closed ↦ string (state_name closed)
]

abbrev pub due_node : Option Text → JsonNode
due_node none = undefined
due_node (some due) = string due

abbrev pub RendersTasks : KindConfig Task → (state_path due_path : Text) → Type 0
RendersTasks config state_path due_path =
    (config.fields (codes "state") ≡ some state_path)
    × (config.fields (codes "dueDate") ≡ some due_path)
    × (is_empty state_path ≡ false)
    × (is_empty due_path ≡ false)
    × ((t : Task) → config.json t state_path ≡ state_node t.status)
    × ((t : Task) → config.json t due_path ≡ due_node (due_of t))

-- A due date that is set is not the empty string, as its pattern wants.
abbrev pub IsDated : Task → Type 0
IsDated t = due_of t ≢ some []

abbrev state_in : Option TaskStatus → TaskState
state_in o = elim o [ none ↦ unspecified | some status ↦ status.state ]

state-matches :
    (o : Option TaskStatus)
    → matches_condition (json_value (state_node o)) (one_of open_state_json_names)
      ≡ is_open (state_in o)
unfolding matches_condition json_value state_name open_state_json_names text_eq
state-matches none = refl
state-matches (some status) =
    elim status.state
      as (λ s.
        matches_condition (json_value (state_node (some (record status { state = s }))))
          (one_of open_state_json_names)
        ≡ is_open s) [ unspecified ↦ refl | open_state ↦ refl | in_progress ↦ refl | closed ↦ refl ]

before : Text → NormalizedFilter
before today = range (record { cmp = Comparison.lt; value = today } ∷ [])

due-matches :
    (o : Option Text) (s : TaskState) (today : Text)
    → o ≢ some []
    → (is_open s && matches_condition (json_value (due_node o)) (before today))
      ≡ is_overdue o s today
unfolding matches_condition json_value within_bound is_overdue before
due-matches none s today d = ground arith
due-matches (some []) s today d = absurd (d refl)
due-matches (some (c ∷ cs)) s today d = ground arith

-- Two filters one after the other are their conjunction.
filter-both :
    (p q r : Task → Bool) (ts : List Task)
    → All (λ t. (p t && q t) ≡ r t) ts
    → filter q (filter p ts) ≡ filter r ts
filter-both p q r [] a = refl
filter-both p q r (t ∷ ts) (h, a) = ground (arith, filter-both p q r ts a)

module _ (config : KindConfig Task) (state_path due_path today : Text)
    (states : (t : Task) → config.json t state_path ≡ state_node t.status)
    (dues : (t : Task) → config.json t due_path ≡ due_node (due_of t)) where
  abbrev is_open_row : Task → Bool
  is_open_row t =
      matches_condition (json_value (config.json t state_path)) (one_of open_state_json_names)

  abbrev is_past_row : Task → Bool
  is_past_row t = matches_condition (json_value (config.json t due_path)) (before today)

  row-agrees :
      (t : Task)
      → IsDated t
      → (is_open_row t && is_past_row t) ≡ is_overdue (due_of t) (state_of t) today
  row-agrees t d =
      rw (states t, dues t, state-matches t.status) (due-matches (due_of t) (state_of t) today d)

  rows-agree :
      (ts : List Task)
      → All IsDated ts
      → All (λ t. (is_open_row t && is_past_row t) ≡ is_overdue (due_of t) (state_of t) today) ts
  rows-agree [] a = tt
  rows-agree (t ∷ ts) (d, a) = (row-agrees t d, rows-agree ts a)

-- One condition of a filter on a registered field.
filtered_rows-step :
    (config : KindConfig Task) (field path : Text) (value : FilterValue)
    (condition : NormalizedFilter) (conditions : List (Text × FilterValue)) (rows : List Task)
    → config.fields field ≡ some path
    → is_empty path ≡ false
    → normalize_filter_value value ≡ ok condition
    → filtered_rows config ((field, value) ∷ conditions) rows
      ≡ filtered_rows config conditions
          (filter (λ t. matches_condition (json_value (config.json t path)) condition) rows)
unfolding filtered_rows
filtered_rows-step config field [] value condition conditions rows h given k = cc
filtered_rows-step config field (c ∷ path) value condition conditions rows h given k =
    ground (arith, h, k)

filtered_rows-none :
    (config : KindConfig Task) (rows : List Task) → filtered_rows config [] rows ≡ ok rows
unfolding filtered_rows
filtered_rows-none config rows = refl

-- The rows that the store's overdue filter keeps are exactly those whose derived overdue is true, rows
-- without a status or with an unspecified state included, where the two registered columns render a
-- task as proto3 JSON does and no due date is the empty string.
pub overdue_filter-is_overdue :
    (config : KindConfig Task) (state_path due_path today : Text) (rows : List Task)
    → RendersTasks config state_path due_path
    → All IsDated rows
    → filtered_rows config (overdue_filter today) rows
      ≡ ok (filter (λ t. is_overdue (due_of t) (state_of t) today) rows)
unfolding overdue_filter normalize_filter_value before
overdue_filter-is_overdue config ps pd today rows
      (has_state, has_due, some_state, some_due, states, dues) dated =
    filtered_rows-step config (codes "state") ps (in_values open_state_json_names)
      (one_of open_state_json_names) ((codes "dueDate", less_than today) ∷ []) rows has_state
      some_state refl
    ∙ filtered_rows-step config (codes "dueDate") pd (less_than today) (before today) [] _ has_due
        some_due refl
    ∙ filtered_rows-none config _
    ∙ ap ok (
        filter-both (is_open_row config ps pd today states dues)
          (is_past_row config ps pd today states dues)
          (λ t. is_overdue (due_of t) (state_of t) today) rows
          (rows-agree config ps pd today states dues rows dated))
