-- ===== src/ResourceApi/Resource/Update/Laws.antt =====
-- An update by how it ends: the row that is not there, the refusal, and the row that is saved.
use stigmer_apps.Common.{
  ℕ, Text, codes, ◌++◌, ◌≡◌, refl, ◌∙◌, ap, Option, none, some, [], ◌∷◌, arith,
}
use stigmer_apps.ResourceApi.Errors.{connect, not_found, permission_denied}
use stigmer_apps.ResourceApi.Effects.{ok, throw, Action}
use stigmer_apps.ResourceApi.Pipeline.{Pipeline, new_pipeline, run_steps, guarded}
use stigmer_apps.ResourceApi.Pipeline.Run.{
  run_steps-ok, run_steps-throw, execute_lem, wire_failure-typed,
}
use stigmer_apps.ResourceApi.Envelope.{
  CallerPrincipal, Metadata, Resource, touched, build_update_state,
}
use stigmer_apps.ResourceApi.Port.{allow, deny, valid, EventType, Runtime}
use stigmer_apps.ResourceApi.Resource.{
  ResourceRef, Subject, WriteContext, validate_message, require_ref, load_by_ref, ref_description,
  persist, publish_safely, derive_one,
}
use stigmer_apps.ResourceApi.Resource.StepLaws.{request, authorize_step-allow, authorize_step-deny}
use stigmer_apps.ResourceApi.Resource.Create.{WriteOptions, start_context, validate_input_step}
use stigmer_apps.ResourceApi.Resource.Update.{
  input_ref, load_required, load_existing_step, check_changed_key_step, build_updated_state_step,
  save_step, publish_updated_step, update_steps, run_update, build_update_executor,
}

module _ {W Spec Status : Type 0} (rt : Runtime W Spec Status) (ref : ResourceRef) (w : W) where
  pub load_required-found :
      (row : Resource Spec Status)
      → require_ref rt ref w ≡ (ok tt, w)
      → load_by_ref rt ref w ≡ ok (some row)
      → load_required rt ref w ≡ (ok row, w)
  unfolding load_required
  load_required-found row given found = rw (given, found)

  pub load_required-missing :
      require_ref rt ref w ≡ (ok tt, w)
      → load_by_ref rt ref w ≡ ok none
      → load_required rt ref w
        ≡ (throw (connect (not_found rt.display_name (ref_description ref))), w)
  unfolding load_required
  load_required-missing given missing = rw (given, missing)

module _ {W Spec Status : Type 0} (rt : Runtime W Spec Status) (operation : Text)
    (options : WriteOptions W (Resource Spec Status)) (input : Resource Spec Status) where
  abbrev pub update_pipeline : Pipeline W (WriteContext (Resource Spec Status))
  update_pipeline = record {
    name = rt.kind ++ codes "-" ++ operation;
    steps = update_steps rt operation options;
  }

  abbrev name : Text
  name = rt.kind ++ codes "-" ++ operation

  pub build_update_executor-eq-ok :
      {run : Resource Spec Status → Option CallerPrincipal → Action W (Resource Spec Status)}
      → build_update_executor rt operation options ≡ ok run
      → run ≡ run_update rt update_pipeline
  unfolding build_update_executor new_pipeline
  build_update_executor-eq-ok h = ground arith

  -- The fact and the proposal, side by side.
  abbrev pub change : Resource Spec Status → Subject (Resource Spec Status)
  change existing = record { resource = some existing; input = some input }

  module _ (w : W) (is_valid : rt.validate input ≡ valid)
      (given : require_ref rt (input_ref rt input) w ≡ (ok tt, w)) where
    abbrev start : Option CallerPrincipal → WriteContext (Resource Spec Status)
    start caller = start_context input caller

    validated :
        (caller : Option CallerPrincipal)
        → (validate_input_step rt).execute (start caller) w ≡ (ok (start caller), w)
    unfolding validate_input_step validate_message
    validated caller = rw is_valid

    missing_chain :
        (caller : Option CallerPrincipal)
        → load_by_ref rt (input_ref rt input) w ≡ ok none
        → run_steps name (update_steps rt operation options) (start caller) w
          ≡ (throw (connect (not_found rt.display_name (ref_description (input_ref rt input)))), w)
    unfolding update_steps load_existing_step
    missing_chain caller missing =
        run_steps-ok name _ _ _ w (validated caller)
        ∙ run_steps-throw name _ _ _ w
            (rw (load_required-missing rt (input_ref rt input) w given missing))
        ∙ ap (λ f. (throw f, w)) (wire_failure-typed name _)

    -- An update with a valid input that carries a reference, whose row is not there, answers
    -- NOT_FOUND to every caller, before the policy is asked; it writes nothing.
    pub update_missing :
        {run : Resource Spec Status → Option CallerPrincipal → Action W (Resource Spec Status)}
        (caller : Option CallerPrincipal)
        → build_update_executor rt operation options ≡ ok run
        → load_by_ref rt (input_ref rt input) w ≡ ok none
        → run input caller w
          ≡ (throw (connect (not_found rt.display_name (ref_description (input_ref rt input)))), w)
    unfolding run_update
    update_missing caller built missing =
        rw (build_update_executor-eq-ok built, execute_lem, missing_chain caller missing)

    module _ (existing : Resource Spec Status) (c : CallerPrincipal)
        (found : load_by_ref rt (input_ref rt input) w ≡ ok (some existing)) where
      abbrev loaded : WriteContext (Resource Spec Status)
      loaded = record (start_context input (some c)) { existing = some existing }

      load_step-found : (load_existing_step rt).execute (start (some c)) w ≡ (ok loaded, w)
      unfolding load_existing_step
      load_step-found = rw (load_required-found rt (input_ref rt input) w existing given found)

      refused_chain :
          (reason : Text)
          → rt.authorize (request rt operation c (change existing)) w ≡ ok (deny reason)
          → run_steps name (update_steps rt operation options) (start (some c)) w
            ≡ (throw (connect (permission_denied reason)), w)
      unfolding update_steps
      refused_chain reason denied =
          run_steps-ok name _ _ _ w (validated (some c))
          ∙ run_steps-ok name _ _ _ w load_step-found
          ∙ run_steps-throw name _ _ _ w
              (authorize_step-deny rt operation _ _ loaded w c reason refl denied)
          ∙ ap (λ f. (throw f, w)) (wire_failure-typed name _)

      -- An update with a valid input, of a row that is there, that the policy denies, answers
      -- PERMISSION_DENIED with the reason of the policy; it writes nothing.
      pub update_refused :
          {run : Resource Spec Status → Option CallerPrincipal → Action W (Resource Spec Status)}
          (reason : Text)
          → build_update_executor rt operation options ≡ ok run
          → rt.authorize (request rt operation c (change existing)) w ≡ ok (deny reason)
          → run input (some c) w ≡ (throw (connect (permission_denied reason)), w)
      unfolding run_update
      update_refused reason built denied =
          rw (build_update_executor-eq-ok built, execute_lem, refused_chain reason denied)

      module _ (allowed : rt.authorize (request rt operation c (change existing)) w ≡ ok allow)
          (key_free : (check_changed_key_step rt).execute loaded w ≡ (ok loaded, w))
          (meta : Metadata) (stored : existing.metadata ≡ some meta) (now : ℕ) (w₁ w₂ : W)
          (date : rt.host.new_date w ≡ (ok now, w₁))
          (plain : options ≡ record { before_persist = []; after_persist = [] }) where
        -- The row that the update writes: the input's spec in the existing row's envelope and status.
        abbrev pub updated_row : Resource Spec Status
        updated_row = record {
          api_version = rt.identity.api_version;
          kind = rt.identity.kind;
          metadata = some (touched meta c now);
          spec = input.spec;
          status = existing.status;
        }

        abbrev built_ctx : WriteContext (Resource Spec Status)
        built_ctx = record loaded { new_state = some updated_row }

        built_state : (build_updated_state_step rt).execute loaded w ≡ (ok built_ctx, w₁)
        unfolding build_updated_state_step build_update_state
        built_state = simp (date, build_update_state, stored)

        saved_state :
            rt.store.save rt.kind updated_row w₁ ≡ (ok tt, w₂)
            → (save_step rt).execute built_ctx w₁ ≡ (ok built_ctx, w₂)
        unfolding save_step persist
        saved_state saved = simp (persist, saved)

        announced : run_steps name (publish_updated_step rt ∷ []) built_ctx w₂ ≡ (
          ok built_ctx,
          (publish_safely rt EventType.updated updated_row (some existing) (some c) w₂).1,
        )
        unfolding publish_updated_step publish_safely run_steps guarded
        announced = refl

        last_steps :
            rt.store.save rt.kind updated_row w₁ ≡ (ok tt, w₂)
            → run_steps name (save_step rt ∷ publish_updated_step rt ∷ []) built_ctx w₁ ≡ (
              ok built_ctx,
              (publish_safely rt EventType.updated updated_row (some existing) (some c) w₂).1,
            )
        last_steps saved = run_steps-ok name _ _ _ w₁ (saved_state saved) ∙ announced

        saved_chain :
            rt.store.save rt.kind updated_row w₁ ≡ (ok tt, w₂)
            → run_steps name (update_steps rt operation options) (start (some c)) w ≡ (
              ok built_ctx,
              (publish_safely rt EventType.updated updated_row (some existing) (some c) w₂).1,
            )
        unfolding update_steps
        saved_chain saved =
            run_steps-ok name _ _ _ w (validated (some c))
            ∙ run_steps-ok name _ _ _ w load_step-found
            ∙ run_steps-ok name _ _ _ w
                (authorize_step-allow rt operation _ _ loaded w c refl allowed)
            ∙ run_steps-ok name _ _ _ w key_free
            ∙ run_steps-ok name _ _ _ w built_state
            ∙ ap
                (λ (o : WriteOptions W (Resource Spec Status)).
                  run_steps name
                    (o.before_persist
                      ++ (save_step rt ∷ o.after_persist ++ publish_updated_step rt ∷ []))
                    built_ctx w₁)
                plain
            ∙ last_steps saved

        -- An update without steps of its application, with a valid input, of a row that is there
        -- and has metadata, that the policy allows and whose key check passes, saves exactly the
        -- input's spec in the envelope and status of that row with its metadata touched, publishes
        -- one updated event with the row that was there, and answers with what it saved.
        pub update_saves :
            {run : Resource Spec Status → Option CallerPrincipal → Action W (Resource Spec Status)}
            → build_update_executor rt operation options ≡ ok run
            → rt.store.save rt.kind updated_row w₁ ≡ (ok tt, w₂)
            → run input (some c) w
              ≡ derive_one rt updated_row
                  (publish_safely rt EventType.updated updated_row (some existing) (some c) w₂).1
        unfolding run_update
        update_saves built saved =
            rw (build_update_executor-eq-ok built, execute_lem, saved_chain saved)
