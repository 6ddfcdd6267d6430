-- ===== src/ResourceApi/References.antt =====
-- packages/resource-api/src/references.ts: the step that checks the references of the state a write
-- would persist.
use stigmer_apps.Common.{
  Text, codes, ◌++◌, ◌≡◌, refl, ◌∙◌, ◌⊎◌, inl, inr, List, [], ◌∷◌, Option, none, some, or_undefined,
  All, arith,
}
use stigmer_apps.ResourceApi.Errors.{failed_precondition}
use stigmer_apps.ResourceApi.Effects.{
  Result, ok, throw, Action, pure, raise_connect, ◌>>=◌, proceed-eq-ok, query-eq-ok,
}
use stigmer_apps.ResourceApi.Port.{Query, read}
use stigmer_apps.ResourceApi.Pipeline.{PipelineStep}
use stigmer_apps.ResourceApi.Resource.{WriteContext, required}

pub record ResourceReference (R : Type 0) : Type 0 where
  pub kind : Text
  pub label : Text
  pub get : R → Text

-- `join(", ")`
unfoldable pub join : List Text → Text
join [] = []
join (x ∷ []) = x
join (x ∷ y ∷ xs) = x ++ codes ", " ++ join (y ∷ xs)

abbrev pub reference_name : (label id : Text) → Text
reference_name label id = label ++ codes " '" ++ id ++ codes "'"

-- What the read of one row adds to the misses of the references behind it.
abbrev pub noted :
    {S : Type 0} → (name : Text) → Result (Option S) → Result (List Text) → Result (List Text)
noted name (throw f) rest = throw f
noted name (ok (some row)) rest = rest
noted name (ok none) (throw f) = throw f
noted name (ok none) (ok missing) = ok (name ∷ missing)

noted-eq-nil :
    {S : Type 0} (name : Text) (row : Result (Option S)) (rest : Result (List Text))
    → noted name row rest ≡ ok []
    → ((s : S) × (row ≡ ok (some s))) × (rest ≡ ok [])
noted-eq-nil name (throw f) rest h = cc
noted-eq-nil name (ok (some s)) rest h = ((s, refl), h)
noted-eq-nil name (ok none) (throw f) h = cc
noted-eq-nil name (ok none) (ok missing) h = cc

-- `get_by_id` is the store's, of rows of any kind.
module _ {W R S : Type 0} (get_by_id : (kind id : Text) → Query W (Option S)) where
  abbrev pub with_reference :
      ResourceReference R → Option Text → Result (List Text) → Query W (List Text)
  with_reference r none rest w = rest
  with_reference r (some id) rest w = noted (reference_name r.label id) (get_by_id r.kind id w) rest

  -- The loop over the references.
  unfoldable pub missing_references : List (ResourceReference R) → R → Query W (List Text)
  missing_references [] state w = ok []
  missing_references (r ∷ references) state w =
      with_reference r (or_undefined (r.get state)) (missing_references references state w) w

  abbrev pub refuse_missing : WriteContext R → List Text → Action W (WriteContext R)
  refuse_missing ctx [] = pure ctx
  refuse_missing ctx (m ∷ missing) =
      raise_connect
        (failed_precondition (codes "Referenced " ++ join (m ∷ missing) ++ codes " not found"))

  -- Without a state the first `get` fails; without references there is none.
  abbrev pub check_references :
      WriteContext R → List (ResourceReference R) → Action W (WriteContext R)
  check_references ctx [] = pure ctx
  check_references ctx (r ∷ references) = required ctx.new_state >>= λ state.
      read (missing_references (r ∷ references) state) >>= refuse_missing ctx

  -- `referencesExistStep`
  unfoldable pub references_exist_step :
      List (ResourceReference R) → PipelineStep W (WriteContext R)
  references_exist_step references = record {
    name = codes "check-references";
    traits = [];
    execute = λ ctx. check_references ctx references;
  }

  -- The reference is not set, or names a row that is there.
  abbrev pub IsFound : R → W → ResourceReference R → Type 0
  IsFound state w r =
      (or_undefined (r.get state) ≡ none)
      ⊎ ((id : Text) × (row : S) × (or_undefined (r.get state) ≡ some id)
          × (get_by_id r.kind id w ≡ ok (some row)))

  with_reference-IsFound :
      (r : ResourceReference R) (state : R) (w : W) (id : Option Text) (rest : Result (List Text))
      → or_undefined (r.get state) ≡ id
      → with_reference r id rest w ≡ ok []
      → IsFound state w r × (rest ≡ ok [])
  with_reference-IsFound r state w none rest e h = (inl e, h)
  with_reference-IsFound r state w (some id) rest e h =
      let ((row, found), none_behind) =
        noted-eq-nil (reference_name r.label id) (get_by_id r.kind id w) rest h in
      (inr (id, row, e, found), none_behind)

  missing_references-IsFound :
      (references : List (ResourceReference R)) (state : R) (w : W)
      → missing_references references state w ≡ ok []
      → All (IsFound state w) references
  unfolding missing_references
  missing_references-IsFound [] state w h = tt
  missing_references-IsFound (r ∷ references) state w h =
      let (here, behind) =
        with_reference-IsFound r state w (or_undefined (r.get state))
          (missing_references references state w) refl h in
      (here, missing_references-IsFound references state w behind)

  accepted :
      (ctx : WriteContext R) (missing : List Text) (v : W) {ctx' : WriteContext R} {w' : W}
      → refuse_missing ctx missing v ≡ (ok ctx', w')
      → (missing ≡ []) × (ctx' ≡ ctx) × (w' ≡ v)
  accepted ctx [] v h = (refl, ground arith, ground arith)
  accepted ctx (m ∷ missing) v h = cc

  required-eq-ok :
      (o : Option R) (w : W) {state : R} {v : W}
      → required o w ≡ (ok state, v)
      → (o ≡ some state) × (v ≡ w)
  required-eq-ok none w h = cc
  required-eq-ok (some s) w h = (ground arith, ground arith)

  -- The same of the state that a write would persist, which is there.
  abbrev pub IsFoundIn : WriteContext R → W → ResourceReference R → Type 0
  IsFoundIn ctx w r = (state : R) × (ctx.new_state ≡ some state) × IsFound state w r

  found_in :
      (ctx : WriteContext R) (state : R) (w : W) (references : List (ResourceReference R))
      → ctx.new_state ≡ some state
      → All (IsFound state w) references
      → All (IsFoundIn ctx w) references
  found_in ctx state w [] e h = tt
  found_in ctx state w (r ∷ references) e (h, k) =
      ((state, e, h), found_in ctx state w references e k)

  -- Where the check of the references lets a write go on, each reference has a state to persist, in
  -- which it is not set or names a row that is there, and the check changes nothing.
  pub references_exist_step-IsFound :
      (references : List (ResourceReference R)) (ctx : WriteContext R) (w : W)
      {ctx' : WriteContext R} {w' : W}
      → (references_exist_step references).execute ctx w ≡ (ok ctx', w')
      → All (IsFoundIn ctx w) references × (ctx' ≡ ctx) × (w' ≡ w)
  unfolding references_exist_step
  references_exist_step-IsFound [] ctx w h = (tt, ground arith, ground arith)
  references_exist_step-IsFound (r ∷ references) ctx w h =
      let (state, v, e, k) = proceed-eq-ok (required ctx.new_state w) _ h in
      let (there, same) = required-eq-ok ctx.new_state w e in
      let (missing, v', e', k') =
        proceed-eq-ok (missing_references (r ∷ references) state v, v) _ k in
      let (asked, same') = query-eq-ok (missing_references (r ∷ references) state v) v e' in
      let (none_missing, same_ctx, same_w) = accepted ctx missing v' k' in
      (
        found_in ctx state w (r ∷ references) there (
            missing_references-IsFound (r ∷ references) state w (rw (none_missing, same) at asked)),
        same_ctx,
        same_w ∙ same' ∙ same,
      )
