-- ===== src/ResourceApi/Store/Memory/Pages.antt =====
-- Lists of the in-memory store: the rows that match, in the order of the query, page by page.
use mathlib.Core.List.{Perm}
use mathlib.Core.List.Perm
use stigmer_apps.Common.{
  ℕ, zero, suc, ◌+◌, Text, text_lt, text_lt_asymm, text_lt_total, ◌≡◌, refl, ap, Bool, true, false,
  Bool-cases, inl, inr, List, [], ◌∷◌, ◌++◌, length, take, drop, Table, Option, none, some, arith,
}
use stigmer_apps.ResourceApi.Effects.{Result, ok, throw}
use stigmer_apps.ResourceApi.Store.Filter.{
  Direction, asc, desc, Nulls, first, last, OrderBy, ListQuery, ListResult,
}
use stigmer_apps.ResourceApi.Store.Memory.{
  KindConfig, Rows, under_path, values, json_value, ordered, insert_sorted, sort, page_of,
  filtered_rows, sorted_rows, selected, row_le, paged, list, with_config, sort_kept,
}

-- Of two rows one may stand before the other.
ordered_total :
    (d : Direction) (n : Nulls) (a b : Option Text) (i j : Text)
    → ordered d n a b i j ≡ false
    → ordered d n b a j i ≡ true
unfolding ordered
ordered_total d first none (some b) i j h = cc
ordered_total d last none (some b) i j h = refl
ordered_total d first (some a) none i j h = refl
ordered_total d last (some a) none i j h = cc
ordered_total d first none none i j h = ground (arith, text_lt_asymm j i)
ordered_total d last none none i j h = ground (arith, text_lt_asymm j i)
ordered_total asc n (some a) (some b) i j h =
    ground (arith, text_lt_asymm a b, text_lt_asymm b a, text_lt_asymm j i, text_lt_total a b)
ordered_total desc n (some a) (some b) i j h =
    ground (arith, text_lt_asymm a b, text_lt_asymm b a, text_lt_asymm j i, text_lt_total a b)

-- The order that a query means, stated without the comparator: rows without a value stand where
-- `nulls` says, the values ascend or descend, and rows with the same value (or both with none) stand
-- in the order of their ids.
pub data Precedes : Direction → Nulls → (a b : Option Text) → (i j : Text) → Type 0 where
  nulls_first : {d : Direction} {b i j : Text} → Precedes d first none (some b) i j
  nulls_last : {d : Direction} {a i j : Text} → Precedes d last (some a) none i j
  both_none :
      {d : Direction} {n : Nulls} {i j : Text} → text_lt j i ≡ false → Precedes d n none none i j
  ascending :
      {n : Nulls} {a b i j : Text} → text_lt a b ≡ true → Precedes asc n (some a) (some b) i j
  descending :
      {n : Nulls} {a b i j : Text} → text_lt b a ≡ true → Precedes desc n (some a) (some b) i j
  same_value :
      {d : Direction} {n : Nulls} {a b i j : Text}
      → a ≡ b
      → text_lt j i ≡ false
      → Precedes d n (some a) (some b) i j

ordered-Precedes :
    (d : Direction) (n : Nulls) (a b : Option Text) (i j : Text)
    → ordered d n a b i j ≡ true
    → Precedes d n a b i j
unfolding ordered
ordered-Precedes d first none (some b) i j h = nulls_first
ordered-Precedes d last none (some b) i j h = cc
ordered-Precedes d first (some a) none i j h = cc
ordered-Precedes d last (some a) none i j h = nulls_last
ordered-Precedes d first none none i j h = both_none (ground arith)
ordered-Precedes d last none none i j h = both_none (ground arith)
ordered-Precedes asc n (some a) (some b) i j h = elim (Bool-cases (text_lt a b)) [
  | inl less ↦ ascending less
  | inr least ↦ same_value (ground (arith, h, least, text_lt_total a b)) (ground (arith, h, least))
]
ordered-Precedes desc n (some a) (some b) i j h = elim (Bool-cases (text_lt b a)) [
  | inl less ↦ descending less
  | inr least ↦ same_value (ground (arith, h, least, text_lt_total a b)) (ground (arith, h, least))
]

-- Each element is in the relation to the next.
abbrev pub IsChain : {A : Type 0} → (A → A → Type 0) → List A → Type 0
IsChain P [] = Unit
IsChain P (x ∷ []) = Unit
IsChain P (x ∷ y ∷ ys) = P x y × IsChain P (y ∷ ys)

module _ {A : Type 0} (le : A → A → Bool) where
  -- Each element may stand before the next.
  abbrev pub IsSorted : List A → Type 0
  IsSorted [] = Unit
  IsSorted (x ∷ []) = Unit
  IsSorted (x ∷ y ∷ ys) = (le x y ≡ true) × IsSorted (y ∷ ys)

  IsSorted-IsChain :
      (P : A → A → Type 0)
      → ((x y : A) → le x y ≡ true → P x y)
      → (xs : List A) → IsSorted xs
      → IsChain P xs
  IsSorted-IsChain P f [] h = tt
  IsSorted-IsChain P f (x ∷ []) h = tt
  IsSorted-IsChain P f (x ∷ y ∷ ys) (h, k) = (f x y h, IsSorted-IsChain P f (y ∷ ys) k)

  insert_sorted-perm : (x : A) (ys : List A) → Perm (insert_sorted le x ys) (x ∷ ys)
  unfolding insert_sorted
  insert_sorted-perm x [] = Perm.refl _
  insert_sorted-perm x (y ∷ ys) = elim (Bool-cases (le x y)) [
    | inl before ↦ rw before (Perm.refl _)
    | inr behind ↦ rw behind (Perm.trans (Perm.cons y (insert_sorted-perm x ys)) (Perm.swap x y ys))
  ]

  pub sort-perm : (xs : List A) → Perm (sort le xs) xs
  unfolding sort
  sort-perm [] = Perm.refl []
  sort-perm (x ∷ xs) = Perm.trans (insert_sorted-perm x (sort le xs)) (Perm.cons x (sort-perm xs))

  IsSorted-tail : (x : A) (xs : List A) → IsSorted (x ∷ xs) → IsSorted xs
  IsSorted-tail x [] h = tt
  IsSorted-tail x (y ∷ ys) h = h.1

  IsSorted-drop : (n : ℕ) (xs : List A) → IsSorted xs → IsSorted (drop n xs)
  IsSorted-drop zero xs h = h
  IsSorted-drop (suc n) [] h = tt
  IsSorted-drop (suc n) (x ∷ xs) h = IsSorted-drop n xs (IsSorted-tail x xs h)

  IsSorted-take : (n : ℕ) (xs : List A) → IsSorted xs → IsSorted (take n xs)
  IsSorted-take zero xs h = tt
  IsSorted-take (suc n) [] h = tt
  IsSorted-take (suc zero) (x ∷ xs) h = tt
  IsSorted-take (suc (suc n)) (x ∷ []) h = tt
  IsSorted-take (suc (suc n)) (x ∷ y ∷ ys) h = (h.0, IsSorted-take (suc n) (y ∷ ys) h.1)

  module _ (total : (x y : A) → le x y ≡ false → le y x ≡ true) where
    insert_sorted_head :
        (x y : A) (ys : List A)
        → le y x ≡ true
        → IsSorted (y ∷ ys)
        → IsSorted (insert_sorted le x ys)
        → IsSorted (y ∷ insert_sorted le x ys)
    unfolding insert_sorted
    insert_sorted_head x y [] h k l = (h, tt)
    insert_sorted_head x y (z ∷ zs) h k l = elim (Bool-cases (le x z)) [
      | inl before ↦ rw before (h, (before, k.1))
      | inr behind ↦ rw behind (k.0, rw behind at l)
    ]

    insert_sorted-IsSorted : (x : A) (ys : List A) → IsSorted ys → IsSorted (insert_sorted le x ys)
    unfolding insert_sorted
    insert_sorted-IsSorted x [] h = tt
    insert_sorted-IsSorted x (y ∷ ys) h = elim (Bool-cases (le x y)) [
      | inl before ↦ rw before (before, h)
      | inr behind ↦ rw behind (
          insert_sorted_head x y ys (total x y behind) h
            (insert_sorted-IsSorted x ys (IsSorted-tail y ys h)))
    ]

    pub sort-IsSorted : (xs : List A) → IsSorted (sort le xs)
    unfolding sort
    sort-IsSorted [] = tt
    sort-IsSorted (x ∷ xs) = insert_sorted-IsSorted x (sort le xs) (sort-IsSorted xs)

drop_add : {A : Type 0} (o m : ℕ) (xs : List A) → drop (o + m) xs ≡ drop m (drop o xs)
drop_add zero m xs = let e : zero + m ≡ m = omega arith in rw e
drop_add {A = A} (suc o) m [] = let e : suc o + m ≡ suc (o + m) = omega arith in rw e (drop_nil m)
  where
    drop_nil : (k : ℕ) → [] ≡ drop {A = A} k []
    drop_nil zero = refl
    drop_nil (suc k) = refl
drop_add (suc o) m (x ∷ xs) =
    let e : suc o + m ≡ suc (o + m) = omega arith in rw e (drop_add o m xs)

take_add : {A : Type 0} (m n : ℕ) (xs : List A) → take m xs ++ take n (drop m xs) ≡ take (m + n) xs
take_add zero n xs = let e : zero + n ≡ n = omega arith in rw e
take_add (suc m) zero [] = let e : suc m + zero ≡ suc m = omega arith in rw e
take_add (suc m) (suc n) [] = let e : suc m + suc n ≡ suc (m + suc n) = omega arith in rw e
take_add (suc m) n (x ∷ xs) =
    let e : suc m + n ≡ suc (m + n) = omega arith in rw e (ap (◌∷◌ x) (take_add m n xs))

page_of-append :
    {A : Type 0} (m n o : ℕ) (xs : List A)
    → page_of m o xs ++ page_of n (o + m) xs ≡ page_of (m + n) o xs
page_of-append m n o xs = rw (drop_add o m xs) (take_add m n (drop o xs))

module _ {R : Type 0} (id_of : R → Text) (kinds : Text → Option (KindConfig R)) where
  -- A list that answers has the rows that its filter and its order select; the page is cut from
  -- them.
  list-eq-ok :
      (kind : Text) (q : ListQuery) (s : Rows R) (config : KindConfig R) {p : ListResult R}
      → kinds kind ≡ some config
      → list id_of kinds kind q s ≡ ok p
      → (rows : List R) × (selected id_of kinds config q.filter q.order_by (s kind) ≡ ok rows)
        × (p ≡ record { items = page_of q.limit q.offset rows; total_count = length rows })
  unfolding list
  list-eq-ok kind q s config {p} known h =
      cut (selected id_of kinds config q.filter q.order_by (s kind)) (rw (known, with_config) at h)
    where
      cut :
          (r : Result (List R))
          → paged q r ≡ ok p
          → (rows : List R) × (r ≡ ok rows)
            × (p ≡ record { items = page_of q.limit q.offset rows; total_count = length rows })
      cut (ok rows) e = (rows, refl, ground arith)
      cut (throw f) e = cc

  -- Two pages that follow one another are the page of their joint size, and all three know the same
  -- total: paging neither repeats nor leaves out a row of an unchanged store.
  pub list_pages :
      (kind : Text) (q : ListQuery) (m n : ℕ) (s : Rows R) (config : KindConfig R)
      {p₁ p₂ p : ListResult R}
      → kinds kind ≡ some config
      → list id_of kinds kind (record q { limit = m }) s ≡ ok p₁
      → list id_of kinds kind (record q { limit = n; offset = q.offset + m }) s ≡ ok p₂
      → list id_of kinds kind (record q { limit = m + n }) s ≡ ok p
      → (p₁.items ++ p₂.items ≡ p.items)
        × (p₁.total_count ≡ p.total_count)
        × (p₂.total_count ≡ p.total_count)
  list_pages kind q m n s config known h₁ h₂ h =
      let (r₁, e₁, s₁) = list-eq-ok kind (record q { limit = m }) s config known h₁ in
      let (r₂, e₂, s₂) =
        list-eq-ok kind (record q { limit = n; offset = q.offset + m }) s config known h₂ in
      let (r, e, t) = list-eq-ok kind (record q { limit = m + n }) s config known h in
      let same₁ : r₁ ≡ r = cc in
      let same₂ : r₂ ≡ r = cc in
      (
        rw (s₁, s₂, t, same₁, same₂) (page_of-append m n q.offset r),
        rw (s₁, t, same₁),
        rw (s₂, t, same₂),
      )

  sorted_rows-eq-ok :
      (config : KindConfig R) (o : OrderBy) (rows : List R) {sorted : List R}
      → sorted_rows id_of kinds config (some o) rows ≡ ok sorted
      → (path : Text) × (config.fields o.field ≡ some path)
        × (sorted ≡ sort (row_le id_of kinds config o path) rows)
  unfolding sorted_rows
  sorted_rows-eq-ok config o rows {sorted} h = under (config.fields o.field) refl h
    where
      under :
          (registered : Option Text)
          → config.fields o.field ≡ registered
          → under_path registered (λ path. ok (sort (row_le id_of kinds config o path) rows))
            ≡ ok sorted
          → (path : Text) × (config.fields o.field ≡ some path)
            × (sorted ≡ sort (row_le id_of kinds config o path) rows)
      under none e k = cc
      under (some []) e k = cc
      under (some (c ∷ path)) e k = (c ∷ path, e, ground arith)

  sort_kept-eq-ok :
      (config : KindConfig R) (o : OrderBy) (r : Result (List R)) {sorted : List R}
      → sort_kept id_of kinds config (some o) r ≡ ok sorted
      → (rows : List R) × (r ≡ ok rows)
        × ((path : Text) × (config.fields o.field ≡ some path)
            × (sorted ≡ sort (row_le id_of kinds config o path) rows))
  sort_kept-eq-ok config o (throw f) h = cc
  sort_kept-eq-ok config o (ok rows) h = (rows, refl, sorted_rows-eq-ok config o rows h)

  -- Two rows in the order that `o` asks for on the values under a path.
  abbrev pub StandsBefore : KindConfig R → OrderBy → (path : Text) → R → R → Type 0
  StandsBefore config o path x y =
      Precedes o.direction o.nulls (json_value (config.json x path))
        (json_value (config.json y path)) (id_of x) (id_of y)

  -- What a page of a list in an order is.
  pub record Ordered (config : KindConfig R) (o : OrderBy) (q : ListQuery) (t : Table R)
      (p : ListResult R) : Type 0 where
    pub path : Text
    pub registered : config.fields o.field ≡ some path
    pub kept : List R
    pub filtered : filtered_rows config q.filter (values t) ≡ ok kept
    pub all_rows : List R
    pub permuted : Perm all_rows kept
    pub cut : p.items ≡ page_of q.limit q.offset all_rows
    pub counted : p.total_count ≡ length all_rows
    pub sorted : IsChain (StandsBefore config o path) p.items

  -- A list in an order answers a page in which each row stands before the next in the sense of the
  -- query's direction and its placing of missing values, ties in the order of the ids; the page is cut
  -- from a permutation of the rows that the filter keeps, and `total_count` is their number.
  pub list-Ordered :
      (kind : Text) (q : ListQuery) (o : OrderBy) (s : Rows R) (config : KindConfig R)
      {p : ListResult R}
      → kinds kind ≡ some config
      → q.order_by ≡ some o
      → list id_of kinds kind q s ≡ ok p
      → Ordered config o q (s kind) p
  unfolding selected
  list-Ordered kind q o s config {p} known by h =
      let (all, e, cut) = list-eq-ok kind q s config known h in
      let e' : sort_kept id_of kinds config (some o)
            (filtered_rows config q.filter (values (s kind)))
          ≡ ok all =
        rw by at e in
      let (kept, filtered, (path, registered, sorted)) =
        sort_kept-eq-ok config o (filtered_rows config q.filter (values (s kind))) e' in
      let le = row_le id_of kinds config o path in
      record {
        path = path;
        registered = registered;
        kept = kept;
        filtered = filtered;
        all_rows = all;
        permuted = rw sorted (sort-perm le kept);
        cut = ap (λ x. x.items) cut;
        counted = ap (λ x. x.total_count) cut;
        sorted =
            rw (cut, sorted)
              (IsSorted-IsChain le (StandsBefore config o path)
                (λ x y.
                  ordered-Precedes o.direction o.nulls (json_value (config.json x path))
                    (json_value (config.json y path)) (id_of x) (id_of y))
                _
                (IsSorted-take le q.limit _ (
                  IsSorted-drop le q.offset _ (
                    sort-IsSorted le
                      (λ x y.
                        ordered_total o.direction o.nulls (json_value (config.json x path))
                          (json_value (config.json y path)) (id_of x) (id_of y))
                      kept))));
      }
