-- ===== src/ResourceApi/Resource/Create/Laws.antt =====
-- The validation and the authorization of a create: nothing is written without it, and a refusal teaches nothing.
use stigmer_apps.Common.{Text, codes, ◌++◌, ◌≡◌, refl, sym, ◌∙◌, Option, none, some, arith, ap}
use stigmer_apps.ResourceApi.Errors.{Failure, connect, invalid_argument, permission_denied}
use stigmer_apps.ResourceApi.Effects.{ok, throw, Action, proceed-eq-ok}
use stigmer_apps.ResourceApi.Pipeline.{Pipeline, new_pipeline, run_steps, execute}
use stigmer_apps.ResourceApi.Pipeline.Run.{
  run_steps-ok, run_steps-throw, run_steps-eq-ok, execute_lem, wire_failure-typed,
}
use stigmer_apps.ResourceApi.Envelope.{CallerPrincipal, Resource}
use stigmer_apps.ResourceApi.Port.{allow, deny, valid, invalid, Runtime}
use stigmer_apps.ResourceApi.Resource.{Subject, WriteContext, validate_message}
use stigmer_apps.ResourceApi.Resource.StepLaws.{
  request, authorize_step-deny, authorize_step-eq-ok, validate_message-eq-ok,
}
use stigmer_apps.ResourceApi.Resource.Create.{
  WriteOptions, start_context, validate_input_step, write_steps, announce_steps, run_create,
  finish_create, build_create_executor,
}

module _ {W Spec Status : Type 0} (rt : Runtime W Spec Status) (operation : Text)
    (options : WriteOptions W (Resource Spec Status)) where
  abbrev pub write_pipeline : Pipeline W (WriteContext (Resource Spec Status))
  write_pipeline = record {
    name = rt.kind ++ codes "-" ++ operation;
    steps = write_steps rt operation options.before_persist;
  }

  abbrev pub announce_pipeline : Pipeline W (WriteContext (Resource Spec Status))
  announce_pipeline = record {
    name = rt.kind ++ codes "-" ++ operation ++ codes "-announce";
    steps = announce_steps rt options.after_persist;
  }

  -- The executor runs exactly the two chains.
  pub build_create_executor-eq-ok :
      {run : Resource Spec Status → Option CallerPrincipal → Action W (Resource Spec Status)}
      → build_create_executor rt operation options ≡ ok run
      → run ≡ run_create rt write_pipeline announce_pipeline
  unfolding build_create_executor new_pipeline
  build_create_executor-eq-ok h = ground arith

  abbrev pub proposal : Resource Spec Status → Subject (Resource Spec Status)
  proposal input = record { resource = none; input = some input }

  validate_input_step-eq-ok :
      (ctx : WriteContext (Resource Spec Status)) {w : W}
      {ctx' : WriteContext (Resource Spec Status)} {w' : W}
      → (validate_input_step rt).execute ctx w ≡ (ok ctx', w')
      → (rt.validate ctx.input ≡ valid) × (ctx' ≡ ctx) × (w' ≡ w)
  unfolding validate_input_step
  validate_input_step-eq-ok ctx {w} h =
      let (u, v, e, rest) =
        proceed-eq-ok (validate_message rt.display_name (rt.validate ctx.input) w)
          (λ _ v. (ok ctx, v)) h in
      let (valid_input, same) =
        validate_message-eq-ok rt.display_name (rt.validate ctx.input) w e in
      (valid_input, ground arith, ground (arith, same))

  module _ (input : Resource Spec Status) (w : W) where
    pub validated :
        (c : Option CallerPrincipal)
        → rt.validate input ≡ valid
        → (validate_input_step rt).execute (start_context input c) w
          ≡ (ok (start_context input c), w)
    unfolding validate_input_step validate_message
    validated c h = rw h

    write_steps-deny :
        (c : CallerPrincipal) (reason : Text)
        → rt.validate input ≡ valid
        → rt.authorize (request rt operation c (proposal input)) w ≡ ok (deny reason)
        → run_steps write_pipeline.name write_pipeline.steps (start_context input (some c)) w
          ≡ (throw (connect (permission_denied reason)), w)
    unfolding write_steps
    write_steps-deny c reason v h =
        run_steps-ok write_pipeline.name _ _ _ w (validated (some c) v)
        ∙ run_steps-throw write_pipeline.name _ _ _ w
            (authorize_step-deny rt operation _ _ (start_context input (some c)) w c reason refl h)
        ∙ ap (λ f. (throw f, w)) (wire_failure-typed write_pipeline.name _)

    write_steps-eq-ok :
        (caller : Option CallerPrincipal) {ctx : WriteContext (Resource Spec Status)} {w' : W}
        → run_steps write_pipeline.name write_pipeline.steps (start_context input caller) w
          ≡ (ok ctx, w')
        → (rt.validate input ≡ valid)
          × ((c : CallerPrincipal) × (caller ≡ some c)
              × (rt.authorize (request rt operation c (proposal input)) w ≡ ok allow))
    unfolding write_steps
    write_steps-eq-ok caller h =
        let (ctx₁, w₁, e₁, rest₁) = run_steps-eq-ok write_pipeline.name _ _ _ w h in
        let (v, same_c, same_w) = validate_input_step-eq-ok (start_context input caller) e₁ in
        let (ctx₂, w₂, e₂, rest₂) = run_steps-eq-ok write_pipeline.name _ _ _ w₁ rest₁ in
        let (c, known, allowed, _, _) = authorize_step-eq-ok rt operation _ _ ctx₁ w₁ e₂ in
        (v, (c, sym (ap (λ x. x.caller) same_c) ∙ known, rw (same_c, same_w) at allowed))

    -- What a create with an invalid input answers.
    abbrev pub invalid_input : (details : Text) → Failure
    invalid_input details =
        connect (invalid_argument (codes "Invalid " ++ rt.display_name ++ codes ": " ++ details))

    refused_input :
        (c : Option CallerPrincipal) (details : Text)
        → rt.validate input ≡ invalid details
        → (validate_input_step rt).execute (start_context input c) w
          ≡ (throw (invalid_input details), w)
    unfolding validate_input_step validate_message
    refused_input c details h = rw h

    write_steps-invalid :
        (c : Option CallerPrincipal) (details : Text)
        → rt.validate input ≡ invalid details
        → run_steps write_pipeline.name write_pipeline.steps (start_context input c) w
          ≡ (throw (invalid_input details), w)
    unfolding write_steps
    write_steps-invalid c details h =
        run_steps-throw write_pipeline.name _ _ _ w (refused_input c details h)
        ∙ ap (λ f. (throw f, w)) (wire_failure-typed write_pipeline.name _)

    -- A create with an invalid input answers INVALID_ARGUMENT to everyone and leaves the world as it
    -- was.
    pub create_invalid :
        {run : Resource Spec Status → Option CallerPrincipal → Action W (Resource Spec Status)}
        (c : Option CallerPrincipal) (details : Text)
        → build_create_executor rt operation options ≡ ok run
        → rt.validate input ≡ invalid details
        → run input c w ≡ (throw (invalid_input details), w)
    unfolding run_create
    create_invalid c details built h =
        rw (build_create_executor-eq-ok built, execute_lem, write_steps-invalid c details h)

    -- A create with a valid input that the policy denies answers PERMISSION_DENIED with the reason
    -- of the policy and leaves the world as it was, whatever the store holds.
    pub create_refused :
        {run : Resource Spec Status → Option CallerPrincipal → Action W (Resource Spec Status)}
        (c : CallerPrincipal) (reason : Text)
        → build_create_executor rt operation options ≡ ok run
        → rt.validate input ≡ valid
        → rt.authorize (request rt operation c (proposal input)) w ≡ ok (deny reason)
        → run input (some c) w ≡ (throw (connect (permission_denied reason)), w)
    unfolding run_create
    create_refused c reason built v h =
        rw (build_create_executor-eq-ok built, execute_lem, write_steps-deny c reason v h)

    -- A create that succeeds had a valid input, a known caller and the policy's allowance for that
    -- caller and that input, asked before anything else happened.
    pub create-authorized :
        {run : Resource Spec Status → Option CallerPrincipal → Action W (Resource Spec Status)}
        (caller : Option CallerPrincipal) {r : Resource Spec Status} {w' : W}
        → build_create_executor rt operation options ≡ ok run
        → run input caller w ≡ (ok r, w')
        → (rt.validate input ≡ valid)
          × ((c : CallerPrincipal) × (caller ≡ some c)
              × (rt.authorize (request rt operation c (proposal input)) w ≡ ok allow))
    unfolding run_create
    create-authorized caller built h =
        let (ctx, v, ran, _) =
          proceed-eq-ok (execute write_pipeline (start_context input caller) w)
            (finish_create rt announce_pipeline) (rw (build_create_executor-eq-ok built) at h) in
        write_steps-eq-ok caller (rw execute_lem at ran)
