-- ===== src/Authz/Reconcile/Laws.antt =====
-- What a run of packages/authorization/src/reconcile.ts leaves in the engine.
use stigmer_apps.Common.{
  ◌≡◌, refl, ap, sym, subst, ◌∙◌, arith, Text, text_eq_iff, text_eq_refl, Bool, false, not, ◌&&◌,
  ◌||◌, List, [], ◌∷◌, map, filter, Table, table_has, table_set, table_has-set, All,
}
use stigmer_apps.ResourceApi.Errors.{Failure}
use stigmer_apps.ResourceApi.Effects.{Result, ok, throw, Action, pure, proceed, proceed-eq-ok}
use stigmer_apps.Authz.Reconcile.{
  ReconcileResult, TupleKey, tuple_id, has_id, by_id, writes_of, deletes_of, counts_of,
  write_difference, reconcile_tuples,
}

pub has_id-filter :
    (q : Text → Bool) (id : Text) (ts : List TupleKey)
    → has_id id (filter (λ t. q (tuple_id t)) ts) ≡ (has_id id ts && q id)
unfolding has_id
has_id-filter q id [] = refl
has_id-filter q id (t ∷ ts) = ground (arith, text_eq_iff (tuple_id t) id, has_id-filter q id ts)

-- Each entry stands under the identity of its tuple.
abbrev IsKeyed : Table TupleKey → Type 0
IsKeyed entries = All (λ e. tuple_id e.1 ≡ e.0) entries

table_set-IsKeyed :
    (t : TupleKey) (entries : Table TupleKey)
    → IsKeyed entries
    → IsKeyed (table_set (tuple_id t) t entries)
unfolding table_set
table_set-IsKeyed t [] h = (refl, tt)
table_set-IsKeyed t ((j, u) ∷ entries) (e, h) =
    ground (arith, text_eq_iff j (tuple_id t), table_set-IsKeyed t entries h)

by_id-IsKeyed :
    (ts : List TupleKey) (entries : Table TupleKey) → IsKeyed entries → IsKeyed (by_id entries ts)
unfolding by_id
by_id-IsKeyed [] entries h = h
by_id-IsKeyed (t ∷ ts) entries h =
    by_id-IsKeyed ts (table_set (tuple_id t) t entries) (table_set-IsKeyed t entries h)

table_has-by_id :
    (id : Text) (ts : List TupleKey) (entries : Table TupleKey)
    → table_has id (by_id entries ts) ≡ (table_has id entries || has_id id ts)
unfolding by_id has_id
table_has-by_id id [] entries = ground arith
table_has-by_id id (t ∷ ts) entries = ground (
  arith,
  table_has-by_id id ts (table_set (tuple_id t) t entries),
  table_has-set (tuple_id t) id t entries,
)

has_id-values :
    (q : Text → Bool) (id : Text) (entries : Table TupleKey)
    → IsKeyed entries
    → has_id id (map (λ e. e.1) (filter (λ e. q e.0) entries)) ≡ (table_has id entries && q id)
unfolding has_id table_has
has_id-values q id [] h = refl
has_id-values q id ((j, t) ∷ entries) (e, h) =
    ground (arith, e, text_eq_iff j id, has_id-values q id entries h)

pub has_id-writes_of :
    (id : Text) (actual desired : List TupleKey)
    → has_id id (writes_of actual desired) ≡ (has_id id desired && not (has_id id actual))
unfolding writes_of has_id table_has
has_id-writes_of id actual desired =
    has_id-values (λ x. not (has_id x actual)) id (by_id [] desired) (by_id-IsKeyed desired [] tt)
    ∙ ap (λ x. x && not (has_id id actual)) (table_has-by_id id desired [])

pub has_id-deletes_of :
    (id : Text) (actual desired : List TupleKey)
    → has_id id (deletes_of actual desired) ≡ (has_id id actual && not (has_id id desired))
unfolding deletes_of has_id table_has
has_id-deletes_of id actual desired =
    has_id-filter (λ x. not (table_has x (by_id [] desired))) id actual
    ∙ ap (λ x. has_id id actual && not x) (table_has-by_id id desired [])

-- The values a filter leaves are none where no tuple has the identity of one.
no_ids : (ts : List TupleKey) → ((id : Text) → has_id id ts ≡ false) → ts ≡ []
unfolding has_id
no_ids [] h = refl
no_ids (t ∷ ts) h = ground (arith, h (tuple_id t), text_eq_refl (tuple_id t))

settled_when :
    (actual desired : List TupleKey)
    → ((id : Text) → has_id id actual ≡ has_id id desired)
    → (writes_of actual desired ≡ []) × (deletes_of actual desired ≡ [])
settled_when actual desired h = (
  no_ids (writes_of actual desired)
      (λ id. ground (arith, h id, has_id-writes_of id actual desired)),
  no_ids (deletes_of actual desired)
      (λ id. ground (arith, h id, has_id-deletes_of id actual desired)),
)

-- What an engine does to the tuples that it holds, told apart by their identities: a read changes
-- nothing and answers all of them; a write that succeeds adds the ones to write and takes the ones to
-- delete away; one that throws has done some of that and nothing else.
pub record IsEngine {S : Type 0} (read_all : Action S (List TupleKey))
    (write : (writes deletes : List TupleKey) → Action S (Unit {0})) (held : S → List TupleKey)
    : Type 0 where
  pub reads :
      (s s' : S) (ts : List TupleKey) (id : Text)
      → read_all s ≡ (ok ts, s')
      → (has_id id ts ≡ has_id id (held s)) × (s' ≡ s)
  pub unread : (s s' : S) (f : Failure) → read_all s ≡ (throw f, s') → s' ≡ s
  pub applied :
      (ws ds : List TupleKey) (s s' : S) (id : Text)
      → write ws ds s ≡ (ok tt, s')
      → has_id id (held s') ≡ (has_id id ws || (has_id id (held s) && not (has_id id ds)))
  pub adds_only :
      (ws ds : List TupleKey) (s s' : S) (f : Failure) (id : Text)
      → write ws ds s ≡ (throw f, s')
      → (has_id id (held s') && not (has_id id ws || has_id id (held s))) ≡ false
  pub deletes_only :
      (ws ds : List TupleKey) (s s' : S) (f : Failure) (id : Text)
      → write ws ds s ≡ (throw f, s')
      → (has_id id (held s) && not (has_id id ds) && not (has_id id (held s'))) ≡ false

module _ {S : Type 0} (held : S → List TupleKey) (desired : List TupleKey) where
  -- The tuples held after a run, by how it ends.
  abbrev pub After : S → Result ReconcileResult × S → Type 0
  After s (ok _, s') = (id : Text) → has_id id (held s') ≡ has_id id desired
  After s (throw _, s') =
      (id : Text)
      → ((has_id id (held s') && not (has_id id desired || has_id id (held s))) ≡ false)
        × ((has_id id desired && has_id id (held s) && not (has_id id (held s'))) ≡ false)

module _ {S : Type 0} (read_all : Action S (List TupleKey))
    (write : (writes deletes : List TupleKey) → Action S (Unit {0})) (held : S → List TupleKey)
    (engine : IsEngine read_all write held) where
  wrote :
      (desired actual : List TupleKey) (s : S) (counts : ReconcileResult)
      (o : Result (Unit {0}) × S)
      → write (writes_of actual desired) (deletes_of actual desired) s ≡ o
      → ((id : Text) → has_id id actual ≡ has_id id (held s))
      → After held desired s (proceed o (λ _. pure counts))
  wrote desired actual s counts (ok _, s') e known = λ id. ground (
    arith,
    engine.applied (writes_of actual desired) (deletes_of actual desired) s s' id e,
    known id,
    has_id-writes_of id actual desired,
    has_id-deletes_of id actual desired,
  )
  wrote desired actual s counts (throw f, s') e known = λ id.
      let a = engine.adds_only (writes_of actual desired) (deletes_of actual desired) s s' f id e in
      let d =
        engine.deletes_only (writes_of actual desired) (deletes_of actual desired) s s' f id e in
      let w = has_id-writes_of id actual desired in
      let v = has_id-deletes_of id actual desired in
      let k = known id in (ground (arith, a, w, k), ground (arith, d, v, k))

  reconciled :
      (desired : List TupleKey) (s : S) (o : Result (List TupleKey) × S)
      → read_all s ≡ o
      → After held desired s (proceed o (λ actual. write_difference read_all write actual desired))
  reconciled desired s (throw f, s') e = λ id.
      let kept : has_id id (held s') ≡ has_id id (held s) =
        ap (λ x. has_id id (held x)) (engine.unread s s' f e) in
      (ground (arith, kept), ground (arith, kept))
  reconciled desired s (ok actual, s') e =
      subst (λ from. After held desired from (write_difference read_all write actual desired s'))
        (engine.reads s s' actual [] e).1
        (wrote desired actual s' (counts_of (writes_of actual desired) (deletes_of actual desired))
          (write (writes_of actual desired) (deletes_of actual desired) s') refl
          (λ id.
            (engine.reads s s' actual id e).0
            ∙ ap (λ x. has_id id (held x)) (sym (engine.reads s s' actual [] e).1)))

  -- A run of the reconciler that answers leaves exactly the desired tuples in the engine, whatever was
  -- in it before. A run that throws, in the read or in the middle of the write, has left no tuple that
  -- is neither desired nor was there before, and has taken no desired tuple away. Tuples are told apart
  -- by their identities, and the engine reads and writes as its contract says.
  pub reconcile_tuples-exact :
      (desired : List TupleKey) (s : S)
      → After held desired s (reconcile_tuples read_all write desired s)
  unfolding reconcile_tuples
  reconcile_tuples-exact desired s = reconciled desired s (read_all s) refl

  -- A run that answers, right after another that did, has found nothing to write and nothing to delete.
  pub reconcile_tuples-settled :
      (desired : List TupleKey) (s s' s'' : S) (r r' : ReconcileResult)
      → reconcile_tuples read_all write desired s ≡ (ok r, s')
      → reconcile_tuples read_all write desired s' ≡ (ok r', s'')
      → r' ≡ record { written = 0; deleted = 0 }
  unfolding reconcile_tuples
  reconcile_tuples-settled desired s s' s'' r r' first second =
      let exact : (id : Text) → has_id id (held s') ≡ has_id id desired =
        subst (After held desired s) first (reconciled desired s (read_all s) refl) in
      let (actual, w, read, rest) =
        proceed-eq-ok (read_all s') (λ actual. write_difference read_all write actual desired)
          second in
      let (ws, ds) =
        settled_when actual desired (λ id. (engine.reads s' w actual id read).0 ∙ exact id) in
      let (_, v, _, end) =
        proceed-eq-ok (write (writes_of actual desired) (deletes_of actual desired) w)
          (λ _. pure (counts_of (writes_of actual desired) (deletes_of actual desired))) rest in
      let named : counts_of (writes_of actual desired) (deletes_of actual desired) ≡ r' =
        ground arith in
      sym named ∙ ap (λ x. counts_of x (deletes_of actual desired)) ws ∙ ap (counts_of []) ds
