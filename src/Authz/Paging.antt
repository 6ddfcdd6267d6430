-- ===== src/Authz/Paging.antt =====
-- Two loops over pages: listAll of apps/law/backend/src/domain/authz/tuples.ts, which reads every row
-- of a kind, and readAll of packages/authorization/src/engine.ts, which reads every tuple. Each runs on
-- fuel, and answers nothing when it runs out.
pub mod Engine
pub mod Complete
use stigmer_apps.Common.{
  ℕ, zero, suc, ◌+◌, Text, codes, if◌then◌else◌, ltb, List, [], ◌∷◌, ◌++◌, length, Option, none,
  some,
}
use stigmer_apps.ResourceApi.Effects.{Result, ok, throw}
use stigmer_apps.ResourceApi.Port.{StorePort}
use stigmer_apps.ResourceApi.Store.Filter.{Direction, Nulls, OrderBy, ListQuery, ListResult}

abbrev pub page_size : ℕ
page_size = 100

-- The query of one round.
abbrev pub created_page : (limit offset : ℕ) → ListQuery
created_page limit offset = record {
  limit = limit;
  offset = offset;
  order_by =
      some (record { field = codes "createdAt"; direction = Direction.asc; nulls = Nulls.last });
  filter = [];
}

module _ {R : Type 0} (limit : ℕ) (page : (offset : ℕ) → Result (List R)) where
  -- What follows a round: an end when the page is short, or the rest.
  abbrev pub next_round :
      List R → Result (List R) → Option (Result (List R)) → Option (Result (List R))
  next_round all (throw f) rest = some (throw f)
  next_round all (ok items) rest =
      if ltb (length items) limit then some (ok (all ++ items)) else rest

  abbrev pub with_items : List R → Result (List R) → List R
  with_items all (throw f) = all
  with_items all (ok items) = all ++ items

  unfoldable pub list_from : (fuel offset : ℕ) → (all : List R) → Option (Result (List R))
  list_from zero offset all = none
  list_from (suc fuel) offset all =
      next_round all (page offset) (list_from fuel (offset + limit) (with_items all (page offset)))

abbrev pub items_of : {R : Type 0} → Result (ListResult R) → Result (List R)
items_of (throw f) = throw f
items_of (ok found) = ok found.items

-- `listAll`, at one state of the store.
unfoldable pub list_all :
    {W R : Type 0} → (fuel : ℕ) → StorePort W R → (kind : Text) → W → Option (Result (List R))
list_all fuel store kind w =
    list_from page_size (λ offset. items_of (store.list kind (created_page page_size offset) w))
      fuel 0 []
