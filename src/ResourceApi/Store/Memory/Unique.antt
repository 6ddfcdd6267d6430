-- ===== src/ResourceApi/Store/Memory/Unique.antt =====
-- The invariant of a kind's rows: ids are distinct, every row stands under its own id, and no two
-- rows have the same natural key.
use stigmer_apps.Common.{
  Text, text_eq_iff, text_eq_sym, ◌≡◌, refl, true, false, [], ◌∷◌, Option, none, some, Table,
  table_get, table_has, table_set, HasDistinctKeys, table_set-HasDistinctKeys, All, arith,
}
use stigmer_apps.ResourceApi.Store.Memory.{
  KindConfig, natural_key, same_key, key_taken, row_with_key,
}

same_key_sym : (a b : Option Text) → same_key a b ≡ same_key b a
unfolding same_key
same_key_sym none none = refl
same_key_sym none (some b) = refl
same_key_sym (some a) none = refl
same_key_sym (some a) (some b) = text_eq_sym a b

same_key_refl : (v : Text) → same_key (some v) (some v) ≡ true
unfolding same_key
same_key_refl v = (text_eq_iff v v).1 refl

module _ {R : Type 0} (id_of : R → Text) (config : KindConfig R) where
  -- No row of the table has the key.
  abbrev IsFreeKey : Option Text → Table R → Type 0
  IsFreeKey key t = All (λ e. same_key key (natural_key config e.1) ≡ false) t

  abbrev pub HasUniqueKeys : Table R → Type 0
  HasUniqueKeys [] = Unit
  HasUniqueKeys ((_, row) ∷ t) = IsFreeKey (natural_key config row) t × HasUniqueKeys t

  abbrev pub IsKeyed : Table R → Type 0
  IsKeyed t = All (λ e. e.0 ≡ id_of e.1) t

  pub record IsValid (t : Table R) : Type 0 where
    pub distinct : HasDistinctKeys t
    pub keyed : IsKeyed t
    pub unique : HasUniqueKeys t

  table_set-IsKeyed : (row : R) (t : Table R) → IsKeyed t → IsKeyed (table_set (id_of row) row t)
  unfolding table_set
  table_set-IsKeyed row [] h = (refl, tt)
  table_set-IsKeyed row ((j, u) ∷ t) h =
      ground (arith, text_eq_iff j (id_of row), table_set-IsKeyed row t h.1)

  -- What the check leaves: the key is free beside the row's own entry.
  table_set-IsFreeKey :
      (key : Option Text) (id : Text) (row : R) (t : Table R)
      → IsFreeKey key t
      → same_key key (natural_key config row) ≡ false
      → IsFreeKey key (table_set id row t)
  unfolding table_set
  table_set-IsFreeKey key id row [] h k = (k, tt)
  table_set-IsFreeKey key id row ((j, u) ∷ t) h k =
      ground (arith, table_set-IsFreeKey key id row t h.1 k)

  key_taken-IsFreeKey :
      (id : Text) (key : Option Text) (t : Table R)
      → table_has id t ≡ false
      → key_taken config id key t ≡ false
      → IsFreeKey key t
  unfolding key_taken table_has
  key_taken-IsFreeKey id key [] h k = tt
  key_taken-IsFreeKey id key ((j, u) ∷ t) h k = ground (arith, key_taken-IsFreeKey id key t)

  table_set-HasUniqueKeys :
      (id : Text) (row : R) (t : Table R)
      → HasDistinctKeys t
      → HasUniqueKeys t
      → key_taken config id (natural_key config row) t ≡ false
      → HasUniqueKeys (table_set id row t)
  unfolding table_set key_taken
  table_set-HasUniqueKeys id row [] d u h = (tt, tt)
  table_set-HasUniqueKeys id row ((j, r) ∷ t) d u h = ground (
    arith,
    text_eq_iff j id,
    same_key_sym (natural_key config row) (natural_key config r),
    key_taken-IsFreeKey id (natural_key config row) t,
    table_set-IsFreeKey (natural_key config r) id row t u.0,
    table_set-HasUniqueKeys id row t d.1 u.1,
  )

  -- Writing a row under its id keeps the invariant if no other row holds its natural key.
  pub table_set-IsValid :
      (row : R) (t : Table R)
      → IsValid t
      → key_taken config (id_of row) (natural_key config row) t ≡ false
      → IsValid (table_set (id_of row) row t)
  table_set-IsValid row t v h = record {
    distinct = table_set-HasDistinctKeys (id_of row) row t v.distinct;
    keyed = table_set-IsKeyed row t v.keyed;
    unique = table_set-HasUniqueKeys (id_of row) row t v.distinct v.unique h;
  }

  IsFreeKey-get :
      (key : Option Text) (t : Table R) (id : Text) (row : R)
      → IsFreeKey key t
      → table_get id t ≡ some row
      → same_key key (natural_key config row) ≡ false
  unfolding table_get
  IsFreeKey-get key [] id row h e = cc
  IsFreeKey-get key ((j, u) ∷ t) id row h e = ground (arith, IsFreeKey-get key t id row h.1)

  -- The search by natural key finds the one row that has it.
  pub row_with_key-get :
      (t : Table R) (id value : Text) (row : R)
      → HasUniqueKeys t
      → table_get id t ≡ some row
      → natural_key config row ≡ some value
      → row_with_key config value t ≡ some row
  unfolding table_get row_with_key
  row_with_key-get [] id value row u e k = cc
  row_with_key-get ((j, r) ∷ t) id value row u e k = ground (
    arith,
    same_key_refl value,
    text_eq_iff j id,
    same_key_sym (natural_key config r) (some value),
    IsFreeKey-get (natural_key config r) t id row u.0,
    row_with_key-get t id value row u.1,
  )
