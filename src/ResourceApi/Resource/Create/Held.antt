-- ===== src/ResourceApi/Resource/Create/Held.antt =====
-- A create that the policy allows, by what the store answers: a new row is inserted and announced
-- once, a held key is refused, and an idempotent kind answers with the row that is there.
use stigmer_apps.Common.{
  ℕ, Text, codes, ◌++◌, ◌≡◌, refl, ◌∙◌, Bool, true, false, Option, none, some, ◌∷◌, [], ap,
  or_undefined,
}
use stigmer_apps.ResourceApi.Errors.{
  connect, already_exists, already_exists_with_different_content, duplicate_natural_key,
}
use stigmer_apps.ResourceApi.Effects.{ok, throw, Action}
use stigmer_apps.ResourceApi.Pipeline.{run_steps, guarded}
use stigmer_apps.ResourceApi.Pipeline.Run.{
  run_steps-ok, run_steps-throw, execute_lem, wire_failure-typed,
}
use stigmer_apps.ResourceApi.Envelope.{
  CallerPrincipal, Resource, generate_resource_id, build_create_state,
}
use stigmer_apps.ResourceApi.Port.{allow, valid, EventType, NaturalKey, Runtime}
use stigmer_apps.ResourceApi.Resource.{
  WriteContext, same_content, settle_on_holder, publish_safely, derive_one,
}
use stigmer_apps.ResourceApi.Resource.StepLaws.{request, authorize_step-allow}
use stigmer_apps.ResourceApi.Resource.Create.{
  WriteOptions, start_context, check_duplicate_step, build_new_state_step, resolve_duplicate_step,
  persist_step, resolve_steps, is_idempotent, write_steps, announce_steps, publish_created_step,
  insert_new, insert_failed, run_create, finish_create, build_create_executor,
}
use stigmer_apps.ResourceApi.Resource.Create.Laws.{build_create_executor-eq-ok, proposal, validated}

module _ {W Spec Status : Type 0} (rt : Runtime W Spec Status) (operation : Text)
    (options : WriteOptions W (Resource Spec Status)) (input : Resource Spec Status) (w : W)
    (c : CallerPrincipal) (is_valid : rt.validate input ≡ valid)
    (allowed : rt.authorize (request rt operation c (proposal rt operation options input)) w
      ≡ ok allow) where
  abbrev name : Text
  name = rt.kind ++ codes "-" ++ operation

  abbrev start : WriteContext (Resource Spec Status)
  start = start_context input (some c)

  -- The chain has come to the duplicate check.
  admitted :
      run_steps name (write_steps rt operation options.before_persist) start w
      ≡ run_steps name
          (check_duplicate_step rt ∷ build_new_state_step rt ∷ options.before_persist
            ++ (resolve_steps rt (is_idempotent rt rt.natural_key) ++ persist_step rt ∷ []))
          start
          w
  unfolding write_steps
  admitted =
      run_steps-ok name _ _ _ w (validated rt operation options input w (some c) is_valid)
      ∙ run_steps-ok name _ _ _ w (authorize_step-allow rt operation _ _ start w c refl allowed)

  module _ (k : NaturalKey (Resource Spec Status)) (keyed : rt.natural_key ≡ some k) (value : Text)
      (present : or_undefined (k.get input) ≡ some value) where
    look_up_held :
        (holder : Resource Spec Status)
        → rt.store.get_by_natural_key rt.kind value w ≡ ok (some holder)
        → k.idempotent ≡ false
        → (check_duplicate_step rt).execute start w
          ≡ (throw (connect (already_exists rt.display_name k.label value)), w)
    unfolding check_duplicate_step
    look_up_held holder found refuses = simp (keyed, present, found, refuses)

    look_up_free :
        rt.store.get_by_natural_key rt.kind value w ≡ ok none
        → (check_duplicate_step rt).execute start w ≡ (ok start, w)
    unfolding check_duplicate_step
    look_up_free free = simp (keyed, present, free)

    look_up_recorded :
        (holder : Resource Spec Status)
        → rt.store.get_by_natural_key rt.kind value w ≡ ok (some holder)
        → k.idempotent ≡ true
        → (check_duplicate_step rt).execute start w
          ≡ (ok (record start { holder = some holder }), w)
    unfolding check_duplicate_step
    look_up_recorded holder found idem = simp (keyed, present, found, idem)

    -- A create of a kind that is not idempotent, with a valid input, an allowance of the policy
    -- and a natural key that a row holds, is refused with ALREADY_EXISTS, and has written and
    -- published nothing.
    pub create_held :
        {run : Resource Spec Status → Option CallerPrincipal → Action W (Resource Spec Status)}
        (holder : Resource Spec Status)
        → build_create_executor rt operation options ≡ ok run
        → rt.store.get_by_natural_key rt.kind value w ≡ ok (some holder)
        → k.idempotent ≡ false
        → run input (some c) w ≡ (throw (connect (already_exists rt.display_name k.label value)), w)
    unfolding run_create
    create_held holder built found refuses = rw (
      build_create_executor-eq-ok rt operation options built,
      execute_lem,
      admitted
          ∙ run_steps-throw name _ _ _ w (look_up_held holder found refuses)
          ∙ ap (λ f. (throw f, w)) (wire_failure-typed name _),
    )

    module _ (now : ℕ) (u id : Text) (w₁ w₂ : W) (date : rt.host.new_date w ≡ (ok now, w₁))
        (random : rt.host.ulid w₁ ≡ (ok u, w₂))
        (minted : generate_resource_id rt.identity.id_prefix u ≡ ok id)
        (plain : options ≡ record { before_persist = []; after_persist = [] }) where
      abbrev state : Resource Spec Status
      state = build_create_state rt.identity input c now id

      built_from :
          (holder : Option (Resource Spec Status))
          → (build_new_state_step rt).execute (record start { holder = holder }) w
            ≡ (ok (record start { holder = holder; new_state = some state }), w₂)
      unfolding build_new_state_step
      built_from holder = simp (date, random, minted)

      -- The chain has come to its last steps.
      prepared :
          (holder : Option (Resource Spec Status))
          → (check_duplicate_step rt).execute start w ≡ (ok (record start { holder = holder }), w)
          → run_steps name (write_steps rt operation options.before_persist) start w
            ≡ run_steps name
                (resolve_steps rt (is_idempotent rt rt.natural_key) ++ persist_step rt ∷ [])
                (record start { holder = holder; new_state = some state })
                w₂
      prepared holder looked =
          admitted
          ∙ run_steps-ok name _ _ _ w looked
          ∙ run_steps-ok name _ _ _ w (built_from holder)
          ∙ ap
              (λ (o : WriteOptions W (Resource Spec Status)).
                run_steps name
                  (o.before_persist
                    ++ (resolve_steps rt (is_idempotent rt rt.natural_key) ++ persist_step rt ∷ []))
                  (record start { holder = holder; new_state = some state }) w₂)
              plain

      resolved_same :
          (holder : Resource Spec Status)
          → same_content rt holder state ≡ true
          → (resolve_duplicate_step rt).execute
              (record start { holder = some holder; new_state = some state })
              w₂
            ≡ (
              ok (record start {
                holder = some holder;
                new_state = some state;
                settled = some holder;
              }),
              w₂,
            )
      unfolding resolve_duplicate_step settle_on_holder
      resolved_same holder same = simp (settle_on_holder, keyed, same)

      abbrev left :
          Option (Resource Spec Status)
          → Option (Resource Spec Status)
          → WriteContext (Resource Spec Status)
      left holder settled = record start {
        holder = holder;
        new_state = some state;
        settled = settled;
      }

      idempotent_kind : k.idempotent ≡ true → is_idempotent rt rt.natural_key ≡ true
      idempotent_kind idem = simp (keyed, idem)

      kept :
          (holder : Resource Spec Status)
          → (persist_step rt).execute (left (some holder) (some holder)) w₂
            ≡ (ok (left (some holder) (some holder)), w₂)
      unfolding persist_step
      kept holder = refl

      ended :
          (ctx : WriteContext (Resource Spec Status)) (v : W)
          → run_steps name [] ctx v ≡ (ok ctx, v)
      unfolding run_steps
      ended ctx v = refl

      settled_chain :
          (holder : Resource Spec Status)
          → rt.store.get_by_natural_key rt.kind value w ≡ ok (some holder)
          → k.idempotent ≡ true
          → same_content rt holder state ≡ true
          → run_steps name (write_steps rt operation options.before_persist) start w
            ≡ (ok (left (some holder) (some holder)), w₂)
      settled_chain holder found idem same =
          prepared (some holder) (look_up_recorded holder found idem)
          ∙ rw (idempotent_kind idem) (
              run_steps-ok name _ _ _ w₂ (resolved_same holder same)
              ∙ run_steps-ok name _ _ _ w₂ (kept holder)
              ∙ ended (left (some holder) (some holder)) w₂)

      -- An idempotent create without steps of its application, with a valid input and an allowance
      -- of the policy, whose natural key is held by a row of the same content, answers with that
      -- row; it writes and publishes nothing after the clock and the id were read.
      pub create_recorded :
          {run : Resource Spec Status → Option CallerPrincipal → Action W (Resource Spec Status)}
          (holder : Resource Spec Status)
          → build_create_executor rt operation options ≡ ok run
          → rt.store.get_by_natural_key rt.kind value w ≡ ok (some holder)
          → k.idempotent ≡ true
          → same_content rt holder state ≡ true
          → run input (some c) w ≡ derive_one rt holder w₂
      unfolding run_create finish_create
      create_recorded holder built found idem same = rw (
        build_create_executor-eq-ok rt operation options built,
        execute_lem,
        settled_chain holder found idem same,
      )

      resolved_other :
          (holder : Resource Spec Status)
          → same_content rt holder state ≡ false
          → (resolve_duplicate_step rt).execute (left (some holder) none) w₂ ≡ (
            throw (
                connect
                  (already_exists_with_different_content rt.display_name k.label (k.get state))),
            w₂,
          )
      unfolding resolve_duplicate_step settle_on_holder
      resolved_other holder other = simp (settle_on_holder, keyed, other)

      conflicting_chain :
          (holder : Resource Spec Status)
          → rt.store.get_by_natural_key rt.kind value w ≡ ok (some holder)
          → k.idempotent ≡ true
          → same_content rt holder state ≡ false
          → run_steps name (write_steps rt operation options.before_persist) start w ≡ (
            throw (
                connect
                  (already_exists_with_different_content rt.display_name k.label (k.get state))),
            w₂,
          )
      conflicting_chain holder found idem other =
          prepared (some holder) (look_up_recorded holder found idem)
          ∙ rw (idempotent_kind idem) (
              run_steps-throw name _ _ _ w₂ (resolved_other holder other)
              ∙ ap (λ f. (throw f, w₂)) (wire_failure-typed name _))

      -- An idempotent create without steps of its application, with a valid input and an allowance
      -- of the policy, whose natural key is held by a row of other content, is refused with
      -- ALREADY_EXISTS with different content; it writes and publishes nothing.
      pub create_conflict :
          {run : Resource Spec Status → Option CallerPrincipal → Action W (Resource Spec Status)}
          (holder : Resource Spec Status)
          → build_create_executor rt operation options ≡ ok run
          → rt.store.get_by_natural_key rt.kind value w ≡ ok (some holder)
          → k.idempotent ≡ true
          → same_content rt holder state ≡ false
          → run input (some c) w ≡ (
            throw (
                connect
                  (already_exists_with_different_content rt.display_name k.label (k.get state))),
            w₂,
          )
      unfolding run_create
      create_conflict holder built found idem other = rw (
        build_create_executor-eq-ok rt operation options built,
        execute_lem,
        conflicting_chain holder found idem other,
      )

      inserted :
          {w₃ : W}
          → rt.store.insert rt.kind state w₂ ≡ (ok tt, w₃)
          → (persist_step rt).execute (left none none) w₂ ≡ (ok (left none none), w₃)
      unfolding persist_step insert_new
      inserted h = simp h

      unresolved :
          (idem : Bool) {w₃ : W}
          → rt.store.insert rt.kind state w₂ ≡ (ok tt, w₃)
          → run_steps name (resolve_steps rt idem ++ persist_step rt ∷ []) (left none none) w₂
            ≡ (ok (left none none), w₃)
      unfolding resolve_duplicate_step
      unresolved true {w₃} h =
          run_steps-ok name (resolve_duplicate_step rt) _ _ w₂ refl
          ∙ run_steps-ok name _ _ _ w₂ (inserted h)
          ∙ ended (left none none) w₃
      unresolved false {w₃} h = run_steps-ok name _ _ _ w₂ (inserted h) ∙ ended (left none none) w₃

      announced :
          (n : Text) (v : W)
          → run_steps n (publish_created_step rt ∷ []) (left none none) v
            ≡ (ok (left none none), (publish_safely rt EventType.created state none (some c) v).1)
      unfolding publish_created_step publish_safely run_steps guarded
      announced n v = refl

      -- A create without steps of its application, with a valid input, an allowance of the policy
      -- and a natural key that nobody holds, whose insert succeeds, inserts exactly the row built
      -- from the input, publishes one created event for it, and answers with it.
      pub create_new :
          {run : Resource Spec Status → Option CallerPrincipal → Action W (Resource Spec Status)}
          {w₃ : W}
          → build_create_executor rt operation options ≡ ok run
          → rt.store.get_by_natural_key rt.kind value w ≡ ok none
          → rt.store.insert rt.kind state w₂ ≡ (ok tt, w₃)
          → run input (some c) w
            ≡ derive_one rt state (publish_safely rt EventType.created state none (some c) w₃).1
      unfolding run_create finish_create announce_steps
      create_new {w₃} built free put =
          rw
            (
              build_create_executor-eq-ok rt operation options built,
              execute_lem,
              prepared none (look_up_free free) ∙ unresolved (is_idempotent rt rt.natural_key) put,
            )
            (rw (plain, execute_lem, announced _ w₃))

      raced_insert :
          (holder : Resource Spec Status) {kd v : Text} {w₃ : W}
          → k.idempotent ≡ true
          → rt.store.insert rt.kind state w₂ ≡ (throw (duplicate_natural_key kd v), w₃)
          → rt.store.get_by_natural_key rt.kind v w₃ ≡ ok (some holder)
          → same_content rt holder state ≡ true
          → (persist_step rt).execute (left none none) w₂ ≡ (ok (left none (some holder)), w₃)
      unfolding persist_step insert_new settle_on_holder
      raced_insert holder idem clash won same =
          simp (clash, insert_failed, keyed, idem, won, settle_on_holder, same)

      raced_chain :
          (holder : Resource Spec Status) (idempotent : Bool) {kd v : Text} {w₃ : W}
          → k.idempotent ≡ true
          → rt.store.insert rt.kind state w₂ ≡ (throw (duplicate_natural_key kd v), w₃)
          → rt.store.get_by_natural_key rt.kind v w₃ ≡ ok (some holder)
          → same_content rt holder state ≡ true
          → run_steps name (resolve_steps rt idempotent ++ persist_step rt ∷ []) (left none none) w₂
            ≡ (ok (left none (some holder)), w₃)
      unfolding resolve_duplicate_step
      raced_chain holder true {w₃} idem clash won same =
          run_steps-ok name (resolve_duplicate_step rt) _ _ w₂ refl
          ∙ run_steps-ok name _ _ _ w₂ (raced_insert holder idem clash won same)
          ∙ ended (left none (some holder)) w₃
      raced_chain holder false {w₃} idem clash won same =
          run_steps-ok name _ _ _ w₂ (raced_insert holder idem clash won same)
          ∙ ended (left none (some holder)) w₃

      -- An idempotent create without steps of its application, with a valid input, an allowance of
      -- the policy and a free natural key, whose insert fails because the key was taken meanwhile,
      -- answers with the row that took it if the content is the same; it publishes nothing.
      pub create_raced :
          {run : Resource Spec Status → Option CallerPrincipal → Action W (Resource Spec Status)}
          (holder : Resource Spec Status) {kd v : Text} {w₃ : W}
          → build_create_executor rt operation options ≡ ok run
          → rt.store.get_by_natural_key rt.kind value w ≡ ok none
          → k.idempotent ≡ true
          → rt.store.insert rt.kind state w₂ ≡ (throw (duplicate_natural_key kd v), w₃)
          → rt.store.get_by_natural_key rt.kind v w₃ ≡ ok (some holder)
          → same_content rt holder state ≡ true
          → run input (some c) w ≡ derive_one rt holder w₃
      unfolding run_create finish_create
      create_raced holder built free idem clash won same = rw (
        build_create_executor-eq-ok rt operation options built,
        execute_lem,
        prepared none (look_up_free free)
            ∙ raced_chain holder (is_idempotent rt rt.natural_key) idem clash won same,
      )
