-- ===== src/ResourceApi/Pipeline.antt =====
-- packages/resource-api/src/pipeline.ts: the ordered chain of steps over a shared context. A step
-- returns the context that it leaves; a context of the source is mutable and read by nobody after
-- a step has thrown.
pub mod Order
pub mod Run
use stigmer_apps.Common.{
  ℕ, zero, suc, Text, codes, ltb, if◌then◌else◌, Bool, true, false, Option, none, some, List, [],
  ◌∷◌, ◌++◌, any,
}
use stigmer_apps.ResourceApi.Errors.{
  Failure, connect, duplicate_natural_key, duplicate_id, bare, internal,
}
use stigmer_apps.ResourceApi.Effects.{Result, ok, throw, Action, proceed}

pub data StepTrait : Type 0 where
  existence_check authorization : StepTrait

pub record PipelineStep (W C : Type 0) : Type 0 where
  pub name : Text
  pub traits : List StepTrait
  pub execute : C → Action W C

abbrev pub is_existence_check : StepTrait → Bool
is_existence_check existence_check = true
is_existence_check authorization = false

abbrev pub is_authorization : StepTrait → Bool
is_authorization existence_check = false
is_authorization authorization = true

-- `xs.findIndex(p)`; `none` is -1.
unfoldable pub find_index : {A : Type 0} → (A → Bool) → List A → Option ℕ
find_index p [] = none
find_index p (x ∷ xs) =
    if p x then some 0 else elim (find_index p xs) [ none ↦ none | some i ↦ some (suc i) ]

-- Both are found, and the authorization stands first.
abbrev pub authorizes_first : (first_existence first_authorization : Option ℕ) → Bool
authorizes_first none _ = false
authorizes_first (some e) none = false
authorizes_first (some e) (some a) = ltb a e

module _ {W C : Type 0} where
  abbrev pub checks_existence : PipelineStep W C → Bool
  checks_existence s = any is_existence_check s.traits

  abbrev pub authorizes : PipelineStep W C → Bool
  authorizes s = any is_authorization s.traits

  -- The test of `assertExistenceBeforeAuthorization`: whether the chain is misplaced.
  unfoldable pub is_misplaced : List (PipelineStep W C) → Bool
  unfolding find_index
  is_misplaced steps =
      authorizes_first (find_index checks_existence steps) (find_index authorizes steps)

pub record Pipeline (W C : Type 0) : Type 0 where
  pub name : Text
  pub steps : List (PipelineStep W C)

-- The error of a misplaced chain; the names of the two steps in its text are left out.
unfoldable pub misplaced_error : Text → Failure
misplaced_error name = bare (codes "Pipeline '" ++ name ++ codes "': Load must precede authorize")

-- `new Pipeline(name, steps)`
unfoldable pub new_pipeline :
    {W C : Type 0} → Text → List (PipelineStep W C) → Result (Pipeline W C)
unfolding is_misplaced
new_pipeline name steps =
    if is_misplaced steps
    then throw (misplaced_error name)
    else ok (record { name = name; steps = steps })

-- What leaves the pipeline for what a step threw: an untyped error is INTERNAL.
unfoldable pub wire_failure : Text → Failure → Failure
wire_failure name (connect e) = connect e
wire_failure name (duplicate_natural_key k v) =
    connect (internal (codes "Internal error in " ++ name))
wire_failure name (duplicate_id k i) = connect (internal (codes "Internal error in " ++ name))
wire_failure name (bare m) = connect (internal (codes "Internal error in " ++ name))

module _ {W C : Type 0} where
  -- The `try`/`catch` round one step.
  unfoldable pub guarded : Text → Result C × W → Result C × W
  unfolding wire_failure
  guarded name (ok ctx, w) = (ok ctx, w)
  guarded name (throw f, w) = (throw (wire_failure name f), w)

  -- The loop of `Pipeline.execute`.
  unfoldable pub run_steps : Text → List (PipelineStep W C) → C → Action W C
  run_steps name [] ctx w = (ok ctx, w)
  run_steps name (step ∷ steps) ctx w =
      proceed (guarded name (step.execute ctx w)) (run_steps name steps)

  unfoldable pub execute : Pipeline W C → C → Action W C
  unfolding run_steps
  execute p = run_steps p.name p.steps
