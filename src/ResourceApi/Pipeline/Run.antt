-- ===== src/ResourceApi/Pipeline/Run.antt =====
-- Running a chain: only typed errors leave, and a chain runs as its two halves one after the other.
use stigmer_apps.Common.{Text, ◌≡◌, refl, ◌∙◌, sym, ap, List, [], ◌∷◌, ◌++◌, arith}
use stigmer_apps.ResourceApi.Errors.{
  Failure, ConnectError, connect, duplicate_natural_key, duplicate_id, bare,
}
use stigmer_apps.ResourceApi.Effects.{
  Result, ok, throw, proceed, IsTyped, proceed-IsTyped, proceed_assoc, proceed-eq-ok,
}
use stigmer_apps.ResourceApi.Pipeline.{
  PipelineStep, Pipeline, wire_failure, guarded, run_steps, execute, new_pipeline,
}

wire_failure-connect :
    (name : Text) (f : Failure) → (e : ConnectError) × (wire_failure name f ≡ connect e)
unfolding wire_failure
wire_failure-connect name (connect e) = (e, refl)
wire_failure-connect name (duplicate_natural_key k v) = (_, refl)
wire_failure-connect name (duplicate_id k i) = (_, refl)
wire_failure-connect name (bare m) = (_, refl)

thrown-IsTyped :
    {C : Type 0} (o : Result C) (f : Failure)
    → IsTyped o
    → o ≡ throw f
    → (e : ConnectError) × (f ≡ connect e)
thrown-IsTyped (ok c) f typed h = cc
thrown-IsTyped (throw g) f (e, same) h = (e, ground arith)

module _ {W C : Type 0} where
  pub guarded-IsTyped : (name : Text) (o : Result C × W) → IsTyped (guarded name o).0
  unfolding guarded
  guarded-IsTyped name (ok ctx, w) = tt
  guarded-IsTyped name (throw f, w) = wire_failure-connect name f

  pub run_steps-IsTyped :
      (name : Text) (steps : List (PipelineStep W C)) (ctx : C) (w : W)
      → IsTyped (run_steps name steps ctx w).0
  unfolding run_steps
  run_steps-IsTyped name [] ctx w = tt
  run_steps-IsTyped name (step ∷ steps) ctx w =
      proceed-IsTyped (guarded name (step.execute ctx w)) (run_steps name steps)
        (guarded-IsTyped name (step.execute ctx w)) (run_steps-IsTyped name steps)

  -- Whatever its steps throw, a failure that leaves a pipeline is a typed error.
  pub execute-IsTyped :
      (p : Pipeline W C) (ctx : C) (w : W) (f : Failure)
      → (execute p ctx w).0 ≡ throw f
      → (e : ConnectError) × (f ≡ connect e)
  unfolding execute
  execute-IsTyped p ctx w f h =
      thrown-IsTyped (run_steps p.name p.steps ctx w).0 f (run_steps-IsTyped p.name p.steps ctx w) h

  -- A chain is its front part and then its back part.
  pub run_steps-append :
      (name : Text) (front back : List (PipelineStep W C)) (ctx : C) (w : W)
      → run_steps name (front ++ back) ctx w
        ≡ proceed (run_steps name front ctx w) (run_steps name back)
  unfolding run_steps
  run_steps-append name [] back ctx w = refl
  run_steps-append name (step ∷ front) back ctx w =
      ap (proceed (guarded name (step.execute ctx w)))
        (λ i c v. run_steps-append name front back c v i)
      ∙ sym (
          proceed_assoc (guarded name (step.execute ctx w)) (run_steps name front)
            (run_steps name back))

  module _ (name : Text) (step : PipelineStep W C) (steps : List (PipelineStep W C)) (ctx : C)
      (w : W) where
    -- A step that succeeds hands its context on.
    pub run_steps-ok :
        {ctx' : C} {w' : W}
        → step.execute ctx w ≡ (ok ctx', w')
        → run_steps name (step ∷ steps) ctx w ≡ run_steps name steps ctx' w'
    unfolding run_steps guarded
    run_steps-ok h = rw h

    -- A step that throws ends the chain.
    pub run_steps-throw :
        {f : Failure} {w' : W}
        → step.execute ctx w ≡ (throw f, w')
        → run_steps name (step ∷ steps) ctx w ≡ (throw (wire_failure name f), w')
    unfolding run_steps guarded
    run_steps-throw h = rw h

    guarded-eq-ok :
        (o : Result C × W) {ctx' : C} {w' : W} → guarded name o ≡ (ok ctx', w') → o ≡ (ok ctx', w')
    unfolding guarded
    guarded-eq-ok (ok c, v) h = h
    guarded-eq-ok (throw f, v) h = cc

    -- A chain that succeeded ran its first step with success.
    pub run_steps-eq-ok :
        {c : C} {v : W}
        → run_steps name (step ∷ steps) ctx w ≡ (ok c, v)
        → (ctx' : C) × (w' : W) × (step.execute ctx w ≡ (ok ctx', w'))
          × (run_steps name steps ctx' w' ≡ (ok c, v))
    unfolding run_steps
    run_steps-eq-ok h =
        let (ctx', w', e, rest) =
          proceed-eq-ok (guarded name (step.execute ctx w)) (run_steps name steps) h in
        (ctx', w', guarded-eq-ok (step.execute ctx w) e, rest)

-- The wire hears a typed error as it was thrown.
pub wire_failure-typed :
    (name : Text) (e : ConnectError) → wire_failure name (connect e) ≡ connect e
unfolding wire_failure
wire_failure-typed name e = refl

-- A chain that the constructor accepts is the pipeline.
pub new_pipeline-eq-ok :
    {W C : Type 0} (name : Text) (steps : List (PipelineStep W C)) {p : Pipeline W C}
    → new_pipeline name steps ≡ ok p
    → p ≡ record { name = name; steps = steps }
unfolding new_pipeline
new_pipeline-eq-ok name steps h = ground arith

pub execute_lem :
    {W C : Type 0} (p : Pipeline W C) (ctx : C) (w : W)
    → execute p ctx w ≡ run_steps p.name p.steps ctx w
unfolding execute
execute_lem p ctx w = refl
