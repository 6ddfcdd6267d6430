-- ===== src/Authz/Paging/Complete.antt =====
-- apps/law/backend/src/domain/authz/tuples.ts: listAll ends, and has every row.
use stigmer_apps.Common.{
  ℕ, zero, suc, ◌+◌, ◌<◌, ◌≤◌, Text, ltb, List, [], ◌∷◌, ◌++◌, append_assoc, length, take, drop,
  length-take, some, ◌≡◌, refl, ◌∙◌, ap, sym, arith, true, false,
}
use stigmer_apps.ResourceApi.Effects.{Result, ok}
use stigmer_apps.ResourceApi.Port.{StorePort}
use stigmer_apps.ResourceApi.Store.Memory.{page_of}
use stigmer_apps.Authz.Paging.{page_size, created_page, list_from, items_of, list_all}

module _ {R : Type 0} where
  take-drop : (n : ℕ) (xs : List R) → take n xs ++ drop n xs ≡ xs
  take-drop zero xs = refl
  take-drop (suc n) [] = refl
  take-drop (suc n) (x ∷ xs) = ap (◌∷◌ x) (take-drop n xs)

  drop-drop : (a b j : ℕ) (xs : List R) → j ≡ a + b → drop b (drop a xs) ≡ drop j xs
  drop-drop zero b j xs e = let same : b ≡ j = omega arith in ap (λ n. drop n xs) same
  drop-drop (suc a) zero (suc j) [] e = refl
  drop-drop (suc a) (suc b) (suc j) [] e = refl
  drop-drop (suc a) b zero xs e = absurd (omega arith)
  drop-drop (suc a) b (suc j) (x ∷ xs) e = drop-drop a b j xs (omega arith)

  length-drop : (n : ℕ) (xs : List R) → n ≤ length xs → length (drop n xs) + n ≡ length xs
  length-drop zero xs h = omega arith
  length-drop (suc n) [] h = absurd (omega arith)
  length-drop (suc n) (x ∷ xs) h = omega (arith, length-drop n xs)

  short-page : (n : ℕ) (xs : List R) → length (take n xs) < n → take n xs ≡ xs
  short-page zero xs h = absurd (omega arith)
  short-page (suc n) [] h = refl
  short-page (suc n) (x ∷ xs) h = ap (◌∷◌ x) (short-page n xs (omega arith))

  module _ (limit : ℕ) (page : ℕ → Result (List R)) (rows : List R)
      (pages : (offset : ℕ) → page offset ≡ ok (take limit (drop offset rows)))
      (pos : 0 < limit) where
    list_from_complete :
        (fuel offset : ℕ) (all : List R)
        → length (drop offset rows) < fuel
        → list_from limit page fuel offset all ≡ some (ok (all ++ drop offset rows))
    unfolding list_from
    list_from_complete zero offset all l = absurd (omega arith)
    list_from_complete (suc fuel) offset all l =
        let rest = drop offset rows in
        elim (ltb (length (take limit rest)) limit)
            as (λ b.
              ltb (length (take limit rest)) limit ≡ b
              → list_from limit page (suc fuel) offset all ≡ some (ok (all ++ rest))) [
                | true ↦ λ e.
                    simp (pages offset, e)
                      (ap (λ ts. some (ok (all ++ ts))) (short-page limit rest (ground arith)))
                | false ↦ λ e.
                    let long : limit ≤ length rest = ground (arith, length-take limit rest) in
                    let next = drop-drop offset limit (offset + limit) rows (omega arith) in
                    let shorter = ap length next in
                    simp (pages offset, e)
                      (list_from_complete fuel (offset + limit) (all ++ take limit rest)
                          (omega (arith, length-drop limit rest long))
                        ∙ ap (λ ts. some (ok ts))
                            (append_assoc all (take limit rest) (drop (offset + limit) rows)
                              ∙ ap (λ ts. all ++ ts)
                                  (ap (λ ts. take limit rest ++ ts) (sym next)
                                    ∙ take-drop limit rest)))
              ]
          refl

-- listAll ends and answers every row of the kind exactly once, in the order of creation: whenever the
-- store answers each page from one list of rows, as many rounds as there are rows, and one more, are
-- enough.
pub list_all_complete :
    {W R : Type 0} (store : StorePort W R) (kind : Text) (w : W) (rows : List R) (total fuel : ℕ)
    → ((offset : ℕ)
        → store.list kind (created_page page_size offset) w
          ≡ ok (record { items = page_of page_size offset rows; total_count = total }))
    → length rows < fuel
    → list_all fuel store kind w ≡ some (ok rows)
unfolding list_all
list_all_complete store kind w rows total fuel pages l =
    list_from_complete page_size
      (λ offset. items_of (store.list kind (created_page page_size offset) w)) rows
      (λ offset. ap items_of (pages offset)) (omega arith) fuel 0 [] l
