-- ===== src/ResourceApi/Pipeline/Order.antt =====
-- What the constructor's check of the order means, in terms of the chain's steps.
use stigmer_apps.Common.{
  ℕ, suc, ◌≡◌, ◌↔◌, refl, ap, Bool, true, false, Bool-cases, List, [], ◌∷◌, ◌++◌, none, some, any,
  arith, inl, inr, Text, if◌then◌else◌,
}
use stigmer_apps.ResourceApi.Effects.{throw}
use stigmer_apps.ResourceApi.Pipeline.{
  PipelineStep, find_index, checks_existence, authorizes, is_misplaced, new_pipeline,
  misplaced_error, authorizes_first,
}

module _ {A : Type 0} (first second : A → Bool) where
  -- An element that passes `second` stands before the earliest that passes `first`.
  pub record Misplaced (xs : List A) : Type 0 where
    pub front : List A
    pub step : A
    pub back : List A
    pub split : xs ≡ front ++ step ∷ back
    pub unchecked : any first front ≡ false
    pub step_unchecked : first step ≡ false
    pub authorized : second step ≡ true
    pub later : any first back ≡ true

  abbrev misplaced : List A → Bool
  misplaced [] = false
  misplaced (x ∷ xs) = if first x then false else if second x then any first xs else misplaced xs

  find_index-none : (p : A → Bool) (xs : List A) → any p xs ≡ false → find_index p xs ≡ none
  unfolding find_index
  find_index-none p [] h = refl
  find_index-none p (x ∷ xs) h = ground (arith, find_index-none p xs)

  find_index-some :
      (p : A → Bool) (xs : List A) → any p xs ≡ true → (i : ℕ) × (find_index p xs ≡ some i)
  unfolding find_index
  find_index-some p [] h = cc
  find_index-some p (x ∷ xs) h = elim (Bool-cases (p x)) [
    | inl here ↦ (0, ground arith)
    | inr there ↦ let (i, e) = find_index-some p xs (ground arith) in (suc i, ground arith)
  ]

  find_index-misplaced :
      (xs : List A) → authorizes_first (find_index first xs) (find_index second xs) ≡ misplaced xs
  unfolding find_index
  find_index-misplaced [] = refl
  find_index-misplaced (x ∷ xs) =
      let ih = find_index-misplaced xs in
      elim (Bool-cases (any first xs)) [
        | inl later ↦ let (e, found) = find_index-some first xs later in ground (arith, ih, found)
        | inr never ↦ ground (arith, ih, find_index-none first xs never)
      ]

  misplaced_sound : (xs : List A) → misplaced xs ≡ true → Misplaced xs
  misplaced_sound [] h = cc
  misplaced_sound (x ∷ xs) h = elim (Bool-cases (second x)) [
    | inl here ↦ record {
      front = [];
      step = x;
      back = xs;
      split = refl;
      unchecked = refl;
      step_unchecked = ground arith;
      authorized = here;
      later = ground arith;
    }
    | inr there ↦
        let m = misplaced_sound xs (ground arith) in
        record {
          front = x ∷ m.front;
          step = m.step;
          back = m.back;
          split = ap (◌∷◌ x) m.split;
          unchecked = ground (arith, m.unchecked);
          step_unchecked = m.step_unchecked;
          authorized = m.authorized;
          later = m.later;
        }
  ]

  any-split :
      (front back : List A) (y : A) → any first back ≡ true → any first (front ++ y ∷ back) ≡ true
  any-split [] back y h = ground arith
  any-split (x ∷ front) back y h = ground (arith, any-split front back y h)

  misplaced_split :
      (front back : List A) (y : A)
      → any first front ≡ false
      → first y ≡ false
      → second y ≡ true
      → any first back ≡ true
      → misplaced (front ++ y ∷ back) ≡ true
  misplaced_split [] back y h k l m = ground arith
  misplaced_split (x ∷ front) back y h k l m =
      ground (arith, misplaced_split front back y, any-split front back y m)

-- The constructor refuses a chain exactly when a step that authorizes stands before the earliest
-- existence check.
pub new_pipeline_refuses_iff :
    {W C : Type 0} (name : Text) (steps : List (PipelineStep W C))
    → (new_pipeline name steps ≡ throw (misplaced_error name))
      ↔ Misplaced checks_existence authorizes steps
unfolding new_pipeline is_misplaced
new_pipeline_refuses_iff name steps = (
  λ e.
      misplaced_sound checks_existence authorizes steps
        (ground (arith, find_index-misplaced checks_existence authorizes steps)),
  λ m. rw (
    find_index-misplaced checks_existence authorizes steps,
    m.split,
    misplaced_split checks_existence authorizes m.front m.back m.step m.unchecked m.step_unchecked
        m.authorized m.later,
  ),
)
