-- ===== src/ResourceApi/Tests/Stores.antt =====
-- The in-memory store on a few notes.
use stigmer_apps.Common.{
  text_lt, table_has, ℕ, Text, codes, text_eq, ◌≡◌, refl, some, List, [], ◌∷◌,
}
use stigmer_apps.ResourceApi.Effects.{ok}
use stigmer_apps.ResourceApi.Envelope.{id_of}
use stigmer_apps.ResourceApi.Store.Filter.{OrderBy, Direction, Nulls, ListQuery, ListResult}
use stigmer_apps.ResourceApi.Store.Memory.{
  json_value, ordered, sort, sorted_rows, filtered_rows, selected, natural_key, same_key, key_taken,
  assert_natural_key_free, require_id, Rows, insert, save, list,
}
use stigmer_apps.ResourceApi.Store.Memory.Writes.{IsValidStore, writes-IsValidStore}
use stigmer_apps.ResourceApi.Store.Memory.Pages.{Ordered, list-Ordered}
use stigmer_apps.ResourceApi.Tests.{note, fresh, used, Note, note_config, kinds}

abbrev plan : Note
plan = note (codes "note_00") (codes "plan")

abbrev memo : Note
memo = note (codes "note_01") (codes "memo")

-- Two notes, the later title first.
abbrev two : Rows Note
two _ = (codes "note_00", plan) ∷ (codes "note_01", memo) ∷ []

abbrev kind : Text
kind = codes "Note"

fresh-IsValidStore : IsValidStore id_of kinds fresh.rows
unfolding IsValidStore
fresh-IsValidStore k = record { distinct = tt; keyed = tt; unique = tt }

writes-IsValidStore_example :
    IsValidStore id_of kinds (insert id_of kinds kind plan fresh.rows).1
    × IsValidStore id_of kinds (save id_of kinds kind plan fresh.rows).1
writes-IsValidStore_example =
    writes-IsValidStore id_of kinds kind plan fresh.rows fresh-IsValidStore

insert_ran :
    insert id_of kinds kind memo used.rows ≡ (ok tt, (insert id_of kinds kind memo used.rows).1)
unfolding text_eq insert require_id table_has assert_natural_key_free key_taken same_key natural_key
insert_ran = refl

abbrev by_title : OrderBy
by_title = record { field = codes "title"; direction = Direction.asc; nulls = Nulls.last }

abbrev query : (limit offset : ℕ) → ListQuery
query limit offset = record {
  limit = limit;
  offset = offset;
  order_by = some by_title;
  filter = [];
}

abbrev page : List Note → ListResult Note
page items = record { items = items; total_count = 2 }

one_page : list id_of kinds kind (query 1 0) two ≡ ok (page (memo ∷ []))
unfolding text_eq list selected filtered_rows sorted_rows sort ordered json_value text_lt
one_page = refl

next_page : list id_of kinds kind (query 1 1) two ≡ ok (page (plan ∷ []))
unfolding text_eq list selected filtered_rows sorted_rows sort ordered json_value text_lt
next_page = refl

both_pages : list id_of kinds kind (query 2 0) two ≡ ok (page (memo ∷ plan ∷ []))
unfolding text_eq list selected filtered_rows sorted_rows sort ordered json_value text_lt
both_pages = refl

list-Ordered_example :
    Ordered id_of kinds note_config by_title (query 1 0) (two kind) (page (memo ∷ []))
list-Ordered_example =
    list-Ordered id_of kinds kind (query 1 0) by_title two note_config refl refl one_page
