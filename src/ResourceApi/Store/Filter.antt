-- ===== src/ResourceApi/Store/Filter.antt =====
-- packages/resource-api/src/store/store.ts: the filters of the store port and their normal form.
use stigmer_apps.Common.{
  ℕ, Text, codes, ◌==◌, if◌then◌else◌, Bool, ◌&&◌, List, [], ◌∷◌, length, Option, none, some,
}
use stigmer_apps.ResourceApi.Errors.{bare}
use stigmer_apps.ResourceApi.Effects.{Result, ok, throw}

pub data Comparison : Type 0 where
  gte gt lte lt : Comparison

-- A filter object as it stands at run time: the values of the keys that are read, and how many
-- keys there are in all. `absent` holds whether the value is `true`.
pub record FilterObject : Type 0 where
  pub in_values : Option (List Text)
  pub absent : Option Bool
  pub gte : Option Text
  pub gt : Option Text
  pub lte : Option Text
  pub lt : Option Text
  pub keys : ℕ

pub data FilterValue : Type 0 where
  equals : Text → FilterValue
  object : FilterObject → FilterValue

pub record RangeBound : Type 0 where
  pub cmp : Comparison
  pub value : Text

pub data NormalizedFilter : Type 0 where
  eq : Text → NormalizedFilter
  one_of : List Text → NormalizedFilter
  range : List RangeBound → NormalizedFilter
  is_absent : NormalizedFilter

abbrev bound : Comparison → Option Text → List RangeBound → List RangeBound
bound c none rest = rest
bound c (some v) rest = record { cmp = c; value = v } ∷ rest

abbrev pub bounds_of : FilterObject → List RangeBound
bounds_of o =
    bound Comparison.gte o.gte
      (bound Comparison.gt o.gt (bound Comparison.lte o.lte (bound Comparison.lt o.lt [])))

abbrev malformed : {A : Type 0} → Result A
malformed = throw (bare (codes "Filter is malformed"))

normalize_range : FilterObject → Result NormalizedFilter
normalize_range o =
    if length (bounds_of o) == 0
    then malformed
    else if length (bounds_of o) == o.keys
    then ok (range (bounds_of o))
    else malformed

normalize_absent : FilterObject → Option Bool → Result NormalizedFilter
unfolding normalize_range
normalize_absent o none = normalize_range o
normalize_absent o (some is_true) = if o.keys == 1 && is_true then ok is_absent else malformed

normalize_object : FilterObject → Option (List Text) → Result NormalizedFilter
unfolding normalize_absent
normalize_object o none = normalize_absent o o.absent
normalize_object o (some values) = if o.keys == 1 then ok (one_of values) else malformed

-- `normalizeFilterValue`; the field's name is only in the text of the error.
unfoldable pub normalize_filter_value : FilterValue → Result NormalizedFilter
unfolding normalize_object
normalize_filter_value (equals v) = ok (eq v)
normalize_filter_value (object o) = normalize_object o o.in_values

pub data Direction : Type 0 where
  asc desc : Direction

pub data Nulls : Type 0 where
  first last : Nulls

pub record OrderBy : Type 0 where
  pub field : Text
  pub direction : Direction
  pub nulls : Nulls

pub record ListQuery : Type 0 where
  pub limit : ℕ
  pub offset : ℕ
  pub order_by : Option OrderBy
  pub filter : List (Text × FilterValue)

pub record ListResult (R : Type 0) : Type 0 where
  pub items : List R
  pub total_count : ℕ
