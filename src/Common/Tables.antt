-- ===== src/Common/Tables.antt =====
-- A JavaScript `Map` with string keys: its entries in the order of insertion. Writing under a key
-- that is there keeps the key's place.
use mathlib.Core.Path.{◌≡◌, refl}
use mathlib.Core.Bool.{Bool, true, false, ◌||◌}
use mathlib.Core.Option.{Option, none, some}
use mathlib.Core.List.{List, [], ◌∷◌}
use native.Mathlib.Omega.{arith}
use stigmer_apps.Common.Tests.{if◌then◌else◌}
use stigmer_apps.Common.Strings.{Text, text_eq, text_eq_iff}

abbrev pub Table {ℓ} : Type ℓ → Type ℓ
Table V = List (Text × V)

module _ {ℓ} {V : Type ℓ} where
  -- `map.get(k)`
  unfoldable pub table_get : Text → Table V → Option V
  table_get k [] = none
  table_get k ((j, v) ∷ t) = if text_eq j k then some v else table_get k t

  -- `map.has(k)`
  unfoldable pub table_has : Text → Table V → Bool
  table_has k [] = false
  table_has k ((j, v) ∷ t) = text_eq j k || table_has k t

  -- `map.set(k, v)`
  unfoldable pub table_set : Text → V → Table V → Table V
  table_set k v [] = (k, v) ∷ []
  table_set k v ((j, u) ∷ t) = if text_eq j k then (j, v) ∷ t else (j, u) ∷ table_set k v t

  -- `map.delete(k)`
  unfoldable pub table_delete : Text → Table V → Table V
  table_delete k [] = []
  table_delete k ((j, u) ∷ t) = if text_eq j k then t else (j, u) ∷ table_delete k t

  pub table_get-set :
      (k j : Text) (v : V) (t : Table V)
      → table_get j (table_set k v t) ≡ (if text_eq k j then some v else table_get j t)
  unfolding table_get table_set
  table_get-set k j v [] = refl
  table_get-set k j v ((i, u) ∷ t) =
      ground (arith, text_eq_iff k j, text_eq_iff i k, text_eq_iff i j, table_get-set k j v t)

  pub table_has-false : (k : Text) (t : Table V) → table_has k t ≡ false → table_get k t ≡ none
  unfolding table_get table_has
  table_has-false k [] h = refl
  table_has-false k ((j, v) ∷ t) h = ground (arith, table_has-false k t)

  pub table_has-true :
      (k : Text) (t : Table V) → table_has k t ≡ true → (v : V) × (table_get k t ≡ some v)
  unfolding table_get table_has
  table_has-true k [] h = cc
  table_has-true k ((j, v) ∷ t) h =
      elim (text_eq j k)
          as (λ b.
            (b || table_has k t) ≡ true
            → (u : V) × ((if b then some v else table_get k t) ≡ some u)) [
              | true ↦ λ _. (v, refl)
              | false ↦ λ e. table_has-true k t e
            ]
        h

  -- No key stands twice.
  abbrev pub HasDistinctKeys : Table V → Type 0
  HasDistinctKeys [] = Unit
  HasDistinctKeys ((k, _) ∷ t) = (table_has k t ≡ false) × HasDistinctKeys t

  pub table_has-set :
      (k j : Text) (v : V) (t : Table V)
      → table_has j (table_set k v t) ≡ (text_eq k j || table_has j t)
  unfolding table_has table_set
  table_has-set k j v [] = refl
  table_has-set k j v ((i, u) ∷ t) =
      ground (arith, text_eq_iff k j, text_eq_iff i k, text_eq_iff i j, table_has-set k j v t)

  pub table_set-HasDistinctKeys :
      (k : Text) (v : V) (t : Table V) → HasDistinctKeys t → HasDistinctKeys (table_set k v t)
  unfolding table_set table_has
  table_set-HasDistinctKeys k v [] h = (refl, tt)
  table_set-HasDistinctKeys k v ((j, u) ∷ t) (fresh, h) = ground (
    arith,
    text_eq_iff j k,
    text_eq_iff k j,
    table_has-set k j v t,
    table_set-HasDistinctKeys k v t h,
  )
