-- ===== src/ResourceApi/Store/Memory.antt =====
-- packages/resource-api/src/store/memory-store.ts: the in-memory store. A kind's rows are a map from
-- id to row; `toJson` of protobuf is the argument `json` of the configuration.
pub mod Unique
pub mod Writes
pub mod Pages
use stigmer_apps.Common.{
  ℕ, ◌+◌, Text, codes, text_eq, text_lt, if◌then◌else◌, length, take, drop, filter, any, all, Bool,
  true, false, not, ◌&&◌, ◌||◌, List, [], ◌∷◌, ◌++◌, Option, none, some, or_undefined, is_some,
  Table, table_get, table_has, table_set,
}
use stigmer_apps.ResourceApi.Errors.{bare, duplicate_id, duplicate_natural_key}
use stigmer_apps.ResourceApi.Effects.{Result, ok, throw, Action}
use stigmer_apps.ResourceApi.Store.Filter.{
  gte, gt, lte, lt, RangeBound, NormalizedFilter, eq, one_of, range, is_absent, FilterValue,
  normalize_filter_value, Direction, asc, desc, Nulls, first, last, OrderBy, ListQuery, ListResult,
}

-- A node of a message's JSON; a number is given as `String` renders it, a structured node as
-- `JSON.stringify` does.
pub data JsonNode : Type 0 where
  undefined null : JsonNode
  string : Text → JsonNode
  boolean : Bool → JsonNode
  number : Text → JsonNode
  structure : Text → JsonNode

-- `MemoryKindConfig`, with how protobuf renders a row of the kind under a path.
pub record KindConfig (R : Type 0) : Type 0 where
  pub natural_key_field : Option Text
  pub natural_key_of : Option (R → Option Text)
  pub fields : Text → Option Text
  pub json : R → (path : Text) → JsonNode

-- `#rows`: each kind's map; a kind that was never written has the empty one.
abbrev pub Rows : Type 0 → Type 0
Rows R = Text → Table R

unfoldable pub set_table : {R : Type 0} → Text → Table R → Rows R → Rows R
set_table kind t s k = if text_eq kind k then t else s k

-- `#jsonValue`, of the node under the path.
unfoldable pub json_value : JsonNode → Option Text
json_value undefined = none
json_value null = none
json_value (string s) = or_undefined s
json_value (boolean true) = some (codes "true")
json_value (boolean false) = some (codes "false")
json_value (number s) = some s
json_value (structure s) = none

-- `#searchValue`
unfoldable pub search_value : JsonNode → Option Text
unfolding json_value
search_value (structure s) = some s
search_value undefined = none
search_value null = none
search_value (string s) = or_undefined s
search_value (boolean b) = json_value (boolean b)
search_value (number s) = some s

-- One bound against a value that is there.
unfoldable pub within_bound : Text → RangeBound → Bool
within_bound actual b = elim b.cmp [
  | gte ↦ not (text_lt actual b.value)
  | gt ↦ text_lt b.value actual
  | lte ↦ not (text_lt b.value actual)
  | lt ↦ text_lt actual b.value
]

-- `matchesCondition`
unfoldable pub matches_condition : Option Text → NormalizedFilter → Bool
unfolding within_bound
matches_condition none is_absent = true
matches_condition none (eq v) = false
matches_condition none (one_of vs) = false
matches_condition none (range bs) = false
matches_condition (some a) is_absent = false
matches_condition (some a) (eq v) = text_eq a v
matches_condition (some a) (one_of vs) = any (text_eq a) vs
matches_condition (some a) (range bs) = all (within_bound a) bs

-- The comparator of `list`: whether the first row may stand before the second.
abbrev id_le : Text → Text → Bool
id_le a b = not (text_lt b a)

-- `primary < 0`, `primary === 0` and `primary > 0` decide, and the ids decide a tie.
unfoldable pub ordered : Direction → Nulls → (a b : Option Text) → (id_a id_b : Text) → Bool
ordered d first none (some b) i j = true
ordered d last none (some b) i j = false
ordered d first (some a) none i j = false
ordered d last (some a) none i j = true
ordered d n none none i j = id_le i j
ordered asc n (some a) (some b) i j = text_lt a b || not (text_lt b a) && id_le i j
ordered desc n (some a) (some b) i j = text_lt b a || not (text_lt a b) && id_le i j

-- `rows.sort` is stable: insertion in front of the first row that may not stand before.
module _ {A : Type 0} (le : A → A → Bool) where
  unfoldable pub insert_sorted : A → List A → List A
  insert_sorted x [] = x ∷ []
  insert_sorted x (y ∷ ys) = if le x y then x ∷ y ∷ ys else y ∷ insert_sorted x ys

  unfoldable pub sort : List A → List A
  unfolding insert_sorted
  sort [] = []
  sort (x ∷ xs) = insert_sorted x (sort xs)

-- `slice(offset, offset + limit)`
abbrev pub page_of : {A : Type 0} → (limit offset : ℕ) → List A → List A
page_of limit offset rows = take limit (drop offset rows)

-- Both have a key, and it is the same.
unfoldable pub same_key : Option Text → Option Text → Bool
same_key none _ = false
same_key (some a) none = false
same_key (some a) (some b) = text_eq a b

abbrev count_of : Option ℕ → ℕ
count_of none = 0
count_of (some n) = n

abbrev count_row : List Text → Option Text → Table ℕ → Table ℕ
count_row wanted none counts = counts
count_row wanted (some v) counts =
    if any (text_eq v) wanted
    then table_set v (count_of (table_get v counts) + 1) counts
    else counts

-- The path of a registered field; an empty one counts as none.
abbrev pub under_path : {A : Type 0} → Option Text → (Text → Result A) → Result A
under_path none f = throw (bare (codes "Field is not registered"))
under_path (some []) f = throw (bare (codes "Field is not registered"))
under_path (some (c ∷ path)) f = f (c ∷ path)

module _ {R : Type 0} where
  abbrev pub values : Table R → List R
  values [] = []
  values ((_, r) ∷ t) = r ∷ values t

  -- The natural key of a row, for a kind that is registered.
  unfoldable pub natural_key : KindConfig R → R → Option Text
  natural_key config row = elim config.natural_key_of [
    | some f ↦ f row
    | none ↦ elim config.natural_key_field [
      | some field ↦ json_value (config.json row (codes "spec." ++ field))
      | none ↦ none
    ]
  ]

  abbrev pub has_natural_key : KindConfig R → Bool
  has_natural_key config = is_some config.natural_key_field || is_some config.natural_key_of

  -- Another row than the one with this id holds the key.
  unfoldable pub key_taken : KindConfig R → (id : Text) → Option Text → Table R → Bool
  key_taken config id key [] = false
  key_taken config id key ((j, row) ∷ t) =
      not (text_eq j id) && same_key key (natural_key config row) || key_taken config id key t

  -- The first row with the key.
  unfoldable pub row_with_key : KindConfig R → Text → Table R → Option R
  row_with_key config value [] = none
  row_with_key config value ((_, row) ∷ t) =
      if same_key (some value) (natural_key config row)
      then some row
      else row_with_key config value t

  -- `#fieldPath`
  abbrev with_path : {A : Type 0} → KindConfig R → Text → (Text → Result A) → Result A
  with_path config field f = under_path (config.fields field) f

  abbrev keep : KindConfig R → Text → List R → Result NormalizedFilter → Result (List R)
  keep config path rows (throw f) = throw f
  keep config path rows (ok condition) =
      ok (filter (λ r. matches_condition (json_value (config.json r path)) condition) rows)

  -- The loop over the conditions of a filter.
  unfoldable pub filtered_rows : KindConfig R → List (Text × FilterValue) → List R → Result (List R)
  filtered_rows config [] rows = ok rows
  filtered_rows config ((field, value) ∷ conditions) rows =
      elim (with_path config field (λ path. keep config path rows (normalize_filter_value value))) [
        | throw f ↦ throw f
        | ok kept ↦ filtered_rows config conditions kept
      ]

  abbrev pub paged : ListQuery → Result (List R) → Result (ListResult R)
  paged q (throw f) = throw f
  paged q (ok rows) =
      ok (record { items = page_of q.limit q.offset rows; total_count = length rows })

  -- `getByIds`: the found rows by id, in the order of the request.
  unfoldable pub found_rows : Table R → List Text → Table R → Table R
  found_rows t [] found = found
  found_rows t (id ∷ ids) found =
      found_rows t ids (elim (table_get id t) [ none ↦ found | some row ↦ table_set id row found ])

  -- The loop of `countBy`.
  unfoldable pub count_rows : KindConfig R → (path : Text) → List Text → List R → Table ℕ → Table ℕ
  count_rows config path wanted [] counts = counts
  count_rows config path wanted (row ∷ rows) counts =
      count_rows config path wanted rows
        (count_row wanted (json_value (config.json row path)) counts)

module _ {R : Type 0} (id_of : R → Text) (kinds : Text → Option (KindConfig R)) where
  abbrev unregistered : {A : Type 0} → Result A
  unregistered = throw (bare (codes "Kind is not registered with this MemoryResourceStore"))

  abbrev with_config : {A : Type 0} → Text → (KindConfig R → Result A) → Result A
  with_config kind f = elim (kinds kind) [ none ↦ unregistered | some config ↦ f config ]

  -- `#requireId`
  unfoldable pub require_id : R → Result Text
  require_id row = elim (or_undefined (id_of row)) [
    | none ↦ throw (bare (codes "Cannot write a resource without metadata.id"))
    | some id ↦ ok id
  ]

  abbrev refuse_taken : Bool → Text → Option Text → Result (Unit {0})
  refuse_taken true kind (some key) = throw (duplicate_natural_key kind key)
  refuse_taken true kind none = ok tt
  refuse_taken false kind key = ok tt

  -- `#assertNaturalKeyFree`
  unfoldable pub assert_natural_key_free : Text → R → Text → Rows R → Result (Unit {0})
  assert_natural_key_free kind row id s = with_config kind (λ config.
      refuse_taken (key_taken config id (natural_key config row) (s kind)) kind
        (natural_key config row))

  -- `#put`
  abbrev pub put : Text → Text → R → Rows R → Rows R
  put kind id row s = set_table kind (table_set id row (s kind)) s

  abbrev written : Result (Unit {0}) → Text → Text → R → Rows R → Result (Unit {0}) × Rows R
  written (throw f) kind id row s = (throw f, s)
  written (ok _) kind id row s = (ok tt, put kind id row s)

  abbrev insert_under : Result Text → Text → R → Action (Rows R) (Unit {0})
  insert_under (throw f) kind row s = (throw f, s)
  insert_under (ok id) kind row s =
      if table_has id (s kind)
      then (throw (duplicate_id kind id), s)
      else written (assert_natural_key_free kind row id s) kind id row s

  unfoldable pub insert : Text → R → Action (Rows R) (Unit {0})
  insert kind row = insert_under (require_id row) kind row

  abbrev save_under : Result Text → Text → R → Action (Rows R) (Unit {0})
  save_under (throw f) kind row s = (throw f, s)
  save_under (ok id) kind row s = written (assert_natural_key_free kind row id s) kind id row s

  unfoldable pub save : Text → R → Action (Rows R) (Unit {0})
  save kind row = save_under (require_id row) kind row

  unfoldable pub get_by_id : Text → Text → Rows R → Result (Option R)
  get_by_id kind id s = with_config kind (λ _. ok (table_get id (s kind)))

  unfoldable pub get_by_natural_key : Text → Text → Rows R → Result (Option R)
  unfolding row_with_key
  get_by_natural_key kind value s =
      with_config kind
        (λ config. ok (if has_natural_key config then row_with_key config value (s kind) else none))

  -- The comparator of an order over a path.
  abbrev pub row_le : KindConfig R → OrderBy → (path : Text) → R → R → Bool
  row_le config o path a b =
      ordered o.direction o.nulls (json_value (config.json a path))
        (json_value (config.json b path)) (id_of a) (id_of b)

  unfoldable pub sorted_rows : KindConfig R → Option OrderBy → List R → Result (List R)
  sorted_rows config none rows = ok rows
  sorted_rows config (some o) rows =
      with_path config o.field (λ path. ok (sort (row_le config o path) rows))

  abbrev sort_kept : KindConfig R → Option OrderBy → Result (List R) → Result (List R)
  sort_kept config o (throw f) = throw f
  sort_kept config o (ok rows) = sorted_rows config o rows

  -- The rows that a query's filter and order select.
  unfoldable pub selected :
      KindConfig R → List (Text × FilterValue) → Option OrderBy → Table R → Result (List R)
  selected config conditions o t = sort_kept config o (filtered_rows config conditions (values t))

  unfoldable pub list : Text → ListQuery → Rows R → Result (ListResult R)
  list kind q s =
      with_config kind (λ config. paged q (selected config q.filter q.order_by (s kind)))

  unfoldable pub get_by_ids : Text → List Text → Rows R → Result (Table R)
  unfolding found_rows
  get_by_ids kind ids s = with_config kind (λ _. ok (found_rows (s kind) ids []))

  unfoldable pub count_by :
      Text → (field : Text) → List Text → List (Text × FilterValue) → Rows R → Result (Table ℕ)
  unfolding count_rows filtered_rows
  count_by kind field wanted conditions s = with_config kind (λ config.
      with_path config field (λ path. elim (filtered_rows config conditions (values (s kind))) [
        | throw f ↦ throw f
        | ok rows ↦ ok (count_rows config path wanted rows [])
      ]))
