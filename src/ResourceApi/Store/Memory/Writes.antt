-- ===== src/ResourceApi/Store/Memory/Writes.antt =====
-- The two writes of the in-memory store: what they refuse, what they write, and the invariant of
-- every kind's rows.
use stigmer_apps.Common.{
  table_set, Text, text_eq, text_eq_iff, ◌≡◌, refl, Bool, true, false, ◌&&◌, Bool-cases,
  Option-cases, ◌⊎◌, inl, inr, [], ◌∷◌, Option, none, some, or_undefined, Table, table_get,
  table_has, table_get-set, table_has-false, arith, if◌then◌else◌,
}
use stigmer_apps.ResourceApi.Effects.{Result, ok, throw}
use stigmer_apps.ResourceApi.Store.Memory.{
  KindConfig, Rows, set_table, natural_key, key_taken, require_id, assert_natural_key_free,
  refuse_taken, written, put, with_config, insert_under, save_under, insert, save, same_key,
}
use stigmer_apps.ResourceApi.Store.Memory.Unique.{IsValid, table_set-IsValid}

or_undefined-some : (s : Text) {t : Text} → or_undefined s ≡ some t → s ≡ t
or_undefined-some [] h = cc
or_undefined-some (c ∷ s) h = ground arith

module _ {R : Type 0} (id_of : R → Text) (kinds : Text → Option (KindConfig R)) where
  require_id-eq-ok : (row : R) {id : Text} → require_id id_of kinds row ≡ ok id → id_of row ≡ id
  unfolding require_id
  require_id-eq-ok row h = elim (Option-cases (or_undefined (id_of row))) [
    | inl missing ↦ absurd (ground (arith, missing))
    | inr (id', there) ↦ or_undefined-some (id_of row) (ground (arith, there))
  ]

  abbrev with_put : (kind id : Text) → R → Rows R → Rows R
  with_put kind id row s = put id_of kinds kind id row s

  written-eq-ok :
      (r : Result (Unit {0})) (kind id : Text) (row : R) (s : Rows R) {u : Unit {0}} {s' : Rows R}
      → written id_of kinds r kind id row s ≡ (ok u, s')
      → (r ≡ ok tt) × (s' ≡ with_put kind id row s)
  written-eq-ok (ok _) kind id row s h = (refl, ground arith)
  written-eq-ok (throw f) kind id row s h = cc

  insert_under-eq-ok :
      (r : Result Text) (kind : Text) (row : R) (s : Rows R) {u : Unit {0}} {s' : Rows R}
      → insert_under id_of kinds r kind row s ≡ (ok u, s')
      → (id : Text) × (r ≡ ok id)
        × (table_has id (s kind) ≡ false)
        × (assert_natural_key_free id_of kinds kind row id s ≡ ok tt)
        × (s' ≡ with_put kind id row s)
  insert_under-eq-ok (throw f) kind row s h = cc
  insert_under-eq-ok (ok id) kind row s h = elim (Bool-cases (table_has id (s kind))) [
    | inl there ↦ absurd (ground (arith, there))
    | inr free ↦
        let (checked, same) =
          written-eq-ok (assert_natural_key_free id_of kinds kind row id s) kind id row s
            (rw free at h) in
        (id, refl, free, checked, same)
  ]

  save_under-eq-ok :
      (r : Result Text) (kind : Text) (row : R) (s : Rows R) {u : Unit {0}} {s' : Rows R}
      → save_under id_of kinds r kind row s ≡ (ok u, s')
      → (id : Text) × (r ≡ ok id)
        × (assert_natural_key_free id_of kinds kind row id s ≡ ok tt)
        × (s' ≡ with_put kind id row s)
  save_under-eq-ok (throw f) kind row s h = cc
  save_under-eq-ok (ok id) kind row s h =
      let (checked, same) =
        written-eq-ok (assert_natural_key_free id_of kinds kind row id s) kind id row s h in
      (id, refl, checked, same)

  key_taken-none :
      (config : KindConfig R) (id : Text) (t : Table R) → key_taken config id none t ≡ false
  unfolding key_taken same_key
  key_taken-none config id [] = refl
  key_taken-none config id ((j, r) ∷ t) = ground (arith, key_taken-none config id t)

  refuse_taken-eq-ok :
      (b : Bool) (kind : Text) (key : Option Text)
      → refuse_taken id_of kinds b kind key ≡ ok tt
      → (b ≡ false) ⊎ (key ≡ none)
  refuse_taken-eq-ok false kind key h = inl refl
  refuse_taken-eq-ok true kind none h = inr refl
  refuse_taken-eq-ok true kind (some key) h = cc

  -- The check leaves the natural key free in the kind's rows.
  assert_natural_key_free-eq-ok :
      (kind : Text) (row : R) (id : Text) (s : Rows R) (config : KindConfig R)
      → kinds kind ≡ some config
      → assert_natural_key_free id_of kinds kind row id s ≡ ok tt
      → key_taken config id (natural_key config row) (s kind) ≡ false
  unfolding assert_natural_key_free
  assert_natural_key_free-eq-ok kind row id s config known h =
      elim (refuse_taken-eq-ok (key_taken config id (natural_key config row) (s kind)) kind
        (natural_key config row) (rw (known, with_config) at h)) [
          | inl free ↦ free
          | inr keyless ↦ rw keyless (key_taken-none config id (s kind))
        ]

  abbrev pub IsValidFor : Option (KindConfig R) → Table R → Type 0
  IsValidFor none t = Unit
  IsValidFor (some config) t = IsValid id_of config t

  -- The store keeps the invariant in the rows of every registered kind.
  unfoldable pub IsValidStore : Rows R → Type 0
  IsValidStore s = (kind : Text) → IsValidFor (kinds kind) (s kind)

  table_set-IsValidFor :
      (kind : Text) (row : R) (s : Rows R) (config : Option (KindConfig R))
      → kinds kind ≡ config
      → assert_natural_key_free id_of kinds kind row (id_of row) s ≡ ok tt
      → IsValidFor config (s kind)
      → IsValidFor config (table_set (id_of row) row (s kind))
  table_set-IsValidFor kind row s none known h v = tt
  table_set-IsValidFor kind row s (some config) known h v =
      table_set-IsValid id_of config row (s kind) v
        (assert_natural_key_free-eq-ok kind row (id_of row) s config known h)

  put-IsValidStore :
      (kind : Text) (row : R) (s : Rows R)
      → IsValidStore s
      → assert_natural_key_free id_of kinds kind row (id_of row) s ≡ ok tt
      → IsValidStore (with_put kind (id_of row) row s)
  unfolding IsValidStore set_table
  put-IsValidStore kind row s v h other = elim (Bool-cases (text_eq kind other)) [
    | inl same ↦
        let e : kind ≡ other = (text_eq_iff kind other).0 same in
        rw same (rw (← e) (table_set-IsValidFor kind row s (kinds kind) refl h (v kind)))
    | inr apart ↦ rw apart (v other)
  ]

  module _ (kind : Text) (row : R) (s : Rows R) (v : IsValidStore s) where
    written-IsValidStore :
        (r : Result (Unit {0})) (id : Text)
        → (r ≡ ok tt → IsValidStore (with_put kind id row s))
        → IsValidStore (written id_of kinds r kind id row s).1
    written-IsValidStore (ok _) id h = h refl
    written-IsValidStore (throw f) id h = v

    checked-IsValidStore :
        (id : Text)
        → id_of row ≡ id
        → IsValidStore
            (written id_of kinds
              (assert_natural_key_free id_of kinds kind row id s)
              kind
              id
              row
              s).1
    checked-IsValidStore id named =
        written-IsValidStore (assert_natural_key_free id_of kinds kind row id s) id
          (λ h. rw (← named) (put-IsValidStore kind row s v (rw (← named) at h)))

    insert_under-IsValidStore :
        (r : Result Text)
        → ((id : Text) → r ≡ ok id → id_of row ≡ id)
        → IsValidStore (insert_under id_of kinds r kind row s).1
          × IsValidStore (save_under id_of kinds r kind row s).1
    insert_under-IsValidStore (throw f) named = (v, v)
    insert_under-IsValidStore (ok id) named =
        let kept = checked-IsValidStore id (named id refl) in
        elim (Bool-cases (table_has id (s kind))) [
          | inl there ↦ (rw there v, kept)
          | inr free ↦ (rw free kept, kept)
        ]

  -- An insert or a save, whether it succeeds or throws, keeps every kind's rows valid: ids distinct,
  -- each row under its own id, and no natural key twice.
  pub writes-IsValidStore :
      (kind : Text) (row : R) (s : Rows R)
      → IsValidStore s
      → IsValidStore (insert id_of kinds kind row s).1
        × IsValidStore (save id_of kinds kind row s).1
  unfolding insert save
  writes-IsValidStore kind row s v =
      insert_under-IsValidStore kind row s v (require_id id_of kinds row)
        (λ id h. require_id-eq-ok row h)

  -- An insert that succeeds puts its row under an id that was free, and nothing else changes in any
  -- kind.
  pub insert-get_by_id :
      (kind kind' id : Text) (row : R) (s : Rows R) {u : Unit {0}} {s' : Rows R}
      → insert id_of kinds kind row s ≡ (ok u, s')
      → (table_get (id_of row) (s kind) ≡ none)
        × (table_get id (s' kind') ≡ (
            if text_eq kind kind' && text_eq (id_of row) id
            then some row
            else table_get id (s kind')))
  unfolding insert set_table
  insert-get_by_id kind kind' id row s h =
      let (i, named, free, _, same) =
        insert_under-eq-ok (require_id id_of kinds row) kind row s h in
      let e : id_of row ≡ i = require_id-eq-ok row named in
      (
        rw e (table_has-false i (s kind) free),
        rw (same, ← e)
            (ground (arith, text_eq_iff kind kind', table_get-set (id_of row) id row (s kind))),
      )
