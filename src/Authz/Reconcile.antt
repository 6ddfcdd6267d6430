-- ===== src/Authz/Reconcile.antt =====
-- packages/authorization/src/reconcile.ts and tuples.ts: the set difference that makes the engine's
-- tuples equal to a desired set. The engine is a parameter: a state that is read and written by
-- computations that can throw.
use Prim.Native.Nat.{ℕ}
use stigmer_apps.Common.{
  Text, codes, text_eq, Bool, true, false, not, ◌&&◌, List, [], ◌∷◌, ◌++◌, map, any, filter, length,
  Table, table_has, table_set,
}
use stigmer_apps.ResourceApi.Effects.{Action, pure, ◌>>=◌, ◌>>◌}
pub mod Laws

pub record TupleKey : Type 0 where
  pub user : Text
  pub relation : Text
  pub object : Text

pub record ReconcileResult : Type 0 where
  pub written : ℕ
  pub deleted : ℕ

-- `tupleId`
unfoldable pub tuple_id : TupleKey → Text
tuple_id t = t.user ++ b'|' ∷ t.relation ++ b'|' ∷ t.object

-- `new Set(actual.map(tupleId)).has(id)`
unfoldable pub has_id : Text → List TupleKey → Bool
has_id id ts = any (λ t. text_eq (tuple_id t) id) ts

-- `new Map(desired.map((t) => [tupleId(t), t]))`, onto the entries there are
unfoldable pub by_id : Table TupleKey → (desired : List TupleKey) → Table TupleKey
by_id entries [] = entries
by_id entries (t ∷ desired) = by_id (table_set (tuple_id t) t entries) desired

unfoldable pub writes_of : (actual desired : List TupleKey) → List TupleKey
writes_of actual desired = map (λ e. e.1) (filter (λ e. not (has_id e.0 actual)) (by_id [] desired))

unfoldable pub deletes_of : (actual desired : List TupleKey) → List TupleKey
deletes_of actual desired = filter (λ t. not (table_has (tuple_id t) (by_id [] desired))) actual

abbrev pub counts_of : (writes deletes : List TupleKey) → ReconcileResult
counts_of writes deletes = record { written = length writes; deleted = length deletes }

module _ {S : Type 0} (read_all : Action S (List TupleKey))
    (write : (writes deletes : List TupleKey) → Action S (Unit {0})) where
  -- The run, from what the engine has answered.
  abbrev pub write_difference : (actual desired : List TupleKey) → Action S ReconcileResult
  write_difference actual desired =
      write (writes_of actual desired) (deletes_of actual desired)
      >> pure (counts_of (writes_of actual desired) (deletes_of actual desired))

  -- `reconcileTuples`
  unfoldable pub reconcile_tuples : (desired : List TupleKey) → Action S ReconcileResult
  reconcile_tuples desired = read_all >>= λ actual. write_difference actual desired
