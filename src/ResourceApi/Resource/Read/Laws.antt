-- ===== src/ResourceApi/Resource/Read/Laws.antt =====
-- A get by how it ends, and what a list asks of the store.
use stigmer_apps.Common.{
  ℕ, ◌≤◌, Text, codes, ◌++◌, ◌≡◌, refl, sym, ◌∙◌, ap, Option, none, some, List, [], arith,
}
use stigmer_apps.ResourceApi.Errors.{connect, not_found, permission_denied}
use stigmer_apps.ResourceApi.Effects.{
  Result, ok, throw, Action, pure, proceed, ◌>>=◌, proceed-eq-ok, query-eq-ok,
}
use stigmer_apps.ResourceApi.Pipeline.{Pipeline, new_pipeline, run_steps, execute}
use stigmer_apps.ResourceApi.Pipeline.Run.{
  run_steps-ok, run_steps-throw, run_steps-eq-ok, execute_lem, wire_failure-typed,
}
use stigmer_apps.ResourceApi.Envelope.{CallerPrincipal, Resource}
use stigmer_apps.ResourceApi.Store.Filter.{OrderBy, ListQuery, ListResult}
use stigmer_apps.ResourceApi.Port.{read, Decision, allow, deny, Verdict, valid, Runtime}
use stigmer_apps.ResourceApi.Resource.{
  ResourceRef, ReadContext, Subject, validate_message, require_ref, load_by_ref, ref_description,
  derive_all, derive_one,
}
use stigmer_apps.ResourceApi.Resource.StepLaws.{
  request, authorize_step-allow, authorize_step-deny, authorize_step-eq-ok, validate_message-eq-ok,
}
use stigmer_apps.ResourceApi.Resource.Update.Laws.{load_required-found, load_required-missing}
use stigmer_apps.ResourceApi.Resource.Read.{
  page_limit, PageRequest, start_read, validate_request_step, load_target_step, get_steps, run_get,
  get_operation, list_steps, list_query, run_list, list_operation,
}

-- Whatever page size a request names, the store is asked for 1 to 100 rows.
pub page_limit_bounds : (n : ℕ) → (1 ≤ page_limit n) × (page_limit n ≤ 100)
unfolding page_limit
page_limit_bounds n = ground arith

page_limit_named : (n : ℕ) → 1 ≤ n → n ≤ 100 → page_limit n ≡ n
unfolding page_limit
page_limit_named n h k = ground arith

module _ {W Spec Status I : Type 0} (rt : Runtime W Spec Status) (validate : I → Verdict)
    (operation : Text) (input : I) (w : W) where
  abbrev name : Text
  name = rt.kind ++ codes "-" ++ operation

  abbrev start : Option CallerPrincipal → ReadContext (Resource Spec Status) I
  start = start_read rt validate input

  validated :
      (caller : Option CallerPrincipal)
      → validate input ≡ valid
      → (validate_request_step rt validate).execute (start caller) w ≡ (ok (start caller), w)
  unfolding validate_request_step validate_message
  validated caller v = rw v

  validate_request_step-eq-ok :
      (ctx : ReadContext (Resource Spec Status) I) {ctx' : ReadContext (Resource Spec Status) I}
      {w' : W}
      → (validate_request_step rt validate).execute ctx w ≡ (ok ctx', w')
      → (ctx' ≡ ctx) × (w' ≡ w)
  unfolding validate_request_step
  validate_request_step-eq-ok ctx h =
      let (u, v, e, rest) =
        proceed-eq-ok (validate_message rt.display_name (validate ctx.input) w) (λ _ v. (ok ctx, v))
          h in
      let (_, same) = validate_message-eq-ok rt.display_name (validate ctx.input) w e in
      (ground arith, ground (arith, same))

  run_steps-nil-eq-ok :
      {ctx ctx' : ReadContext (Resource Spec Status) I} {v v' : W}
      → run_steps name [] ctx v ≡ (ok ctx', v')
      → (ctx' ≡ ctx) × (v' ≡ v)
  unfolding run_steps
  run_steps-nil-eq-ok h = (ground arith, ground arith)

  module _ (ref : I → ResourceRef) where
    get_operation-eq-ok :
        {run : I → Option CallerPrincipal → Action W (Resource Spec Status)}
        → get_operation rt validate operation ref ≡ ok run
        → run
          ≡ run_get rt validate
              (record { name = name; steps = get_steps rt validate operation ref })
    unfolding get_operation new_pipeline
    get_operation-eq-ok h = ground arith

    module _ (is_valid : validate input ≡ valid)
        (given : require_ref rt (ref input) w ≡ (ok tt, w)) where
      missing_chain :
          (caller : Option CallerPrincipal)
          → load_by_ref rt (ref input) w ≡ ok none
          → run_steps name (get_steps rt validate operation ref) (start caller) w
            ≡ (throw (connect (not_found rt.display_name (ref_description (ref input)))), w)
      unfolding get_steps load_target_step
      missing_chain caller missing =
          run_steps-ok name _ _ _ w (validated caller is_valid)
          ∙ run_steps-throw name _ _ _ w (rw (load_required-missing rt (ref input) w given missing))
          ∙ ap (λ f. (throw f, w)) (wire_failure-typed name _)

      -- A get with a valid request that carries a reference, whose row is not there, answers
      -- NOT_FOUND to every caller, also to one whom the policy would refuse.
      pub get_missing :
          {run : I → Option CallerPrincipal → Action W (Resource Spec Status)}
          (caller : Option CallerPrincipal)
          → get_operation rt validate operation ref ≡ ok run
          → load_by_ref rt (ref input) w ≡ ok none
          → run input caller w
            ≡ (throw (connect (not_found rt.display_name (ref_description (ref input)))), w)
      unfolding run_get
      get_missing caller built missing =
          rw (get_operation-eq-ok built, execute_lem, missing_chain caller missing)

      module _ (row : Resource Spec Status) (c : CallerPrincipal)
          (found : load_by_ref rt (ref input) w ≡ ok (some row)) where
        abbrev loaded : ReadContext (Resource Spec Status) I
        loaded = record (start_read rt validate input (some c)) { target = some row }

        abbrev fact : Subject (Resource Spec Status)
        fact = record { resource = some row; input = none }

        load_step-found :
            (load_target_step rt validate ref).execute (start (some c)) w ≡ (ok loaded, w)
        unfolding load_target_step
        load_step-found = rw (load_required-found rt (ref input) w row given found)

        refused_chain :
            (reason : Text)
            → rt.authorize (request rt operation c fact) w ≡ ok (deny reason)
            → run_steps name (get_steps rt validate operation ref) (start (some c)) w
              ≡ (throw (connect (permission_denied reason)), w)
        unfolding get_steps
        refused_chain reason denied =
            run_steps-ok name _ _ _ w (validated (some c) is_valid)
            ∙ run_steps-ok name _ _ _ w load_step-found
            ∙ run_steps-throw name _ _ _ w
                (authorize_step-deny rt operation _ _ loaded w c reason refl denied)
            ∙ ap (λ f. (throw f, w)) (wire_failure-typed name _)

        ended : run_steps name [] loaded w ≡ (ok loaded, w)
        unfolding run_steps
        ended = refl

        allowed_chain :
            rt.authorize (request rt operation c fact) w ≡ ok allow
            → run_steps name (get_steps rt validate operation ref) (start (some c)) w
              ≡ (ok loaded, w)
        unfolding get_steps
        allowed_chain allowed =
            run_steps-ok name _ _ _ w (validated (some c) is_valid)
            ∙ run_steps-ok name _ _ _ w load_step-found
            ∙ run_steps-ok name _ _ _ w
                (authorize_step-allow rt operation _ _ loaded w c refl allowed)
            ∙ ended

        -- What a decision makes of the loaded row.
        abbrev answer : Decision → Result (Resource Spec Status) × W
        answer allow = derive_one rt row w
        answer (deny reason) = (throw (connect (permission_denied reason)), w)

        -- A get with a valid request, of a row that is there, answers the row with its status
        -- derived if the policy allows it, and PERMISSION_DENIED with the reason of the policy if
        -- it does not.
        pub get_found :
            {run : I → Option CallerPrincipal → Action W (Resource Spec Status)} (d : Decision)
            → get_operation rt validate operation ref ≡ ok run
            → rt.authorize (request rt operation c fact) w ≡ ok d
            → run input (some c) w ≡ answer d
        unfolding run_get
        get_found allow built allowed =
            rw (get_operation-eq-ok built, execute_lem, allowed_chain allowed)
        get_found (deny reason) built denied =
            rw (get_operation-eq-ok built, execute_lem, refused_chain reason denied)

  module _ {O : Type 0} (order_by : OrderBy) (query : I → CallerPrincipal → PageRequest)
      (respond : List (Resource Spec Status) → (total_count : ℕ) → O) where
    abbrev list_pipeline : Pipeline W (ReadContext (Resource Spec Status) I)
    list_pipeline = record { name = name; steps = list_steps rt validate operation }

    list_operation-eq-ok :
        {run : I → Option CallerPrincipal → Action W O}
        → list_operation rt validate order_by query respond operation ≡ ok run
        → run
          ≡ run_list rt validate order_by query respond
              (record { name = name; steps = list_steps rt validate operation })
    unfolding list_operation new_pipeline
    list_operation-eq-ok h = ground arith

    abbrev scope : Subject (Resource Spec Status)
    scope = record { resource = none; input = none }

    -- What a list that answered has asked and done.
    pub record Listed (caller : Option CallerPrincipal) (o : O) (w' : W) : Type 0 where
      pub asker : CallerPrincipal
      pub known : caller ≡ some asker
      pub allowed : rt.authorize (request rt operation asker scope) w ≡ ok allow
      pub page : ListResult (Resource Spec Status)
      pub sent : ListQuery
      pub asked : rt.store.list rt.kind sent w ≡ ok page
      pub bounded : (1 ≤ sent.limit) × (sent.limit ≤ 100)
      pub page_size :
          1 ≤ (query input asker).page_size
          → (query input asker).page_size ≤ 100
          → sent.limit ≡ (query input asker).page_size
      pub offset : sent.offset ≡ (query input asker).page_offset
      pub filter : sent.filter ≡ (query input asker).filter
      pub ordered : sent.order_by ≡ some order_by
      pub items : List (Resource Spec Status)
      pub derived : derive_all rt page.items w ≡ ok items
      pub response : o ≡ respond items page.total_count
      pub unchanged : w' ≡ w

    list_steps-eq-ok :
        (caller : Option CallerPrincipal) {ctx : ReadContext (Resource Spec Status) I} {v : W}
        → run_steps name (list_steps rt validate operation) (start caller) w ≡ (ok ctx, v)
        → (c : CallerPrincipal) × (caller ≡ some c)
          × (rt.authorize (request rt operation c scope) w ≡ ok allow)
          × (ctx ≡ start caller)
          × (v ≡ w)
    unfolding list_steps
    list_steps-eq-ok caller h =
        let (ctx₁, w₁, e₁, rest₁) = run_steps-eq-ok name _ _ _ w h in
        let (same_c, same_w) = validate_request_step-eq-ok (start caller) e₁ in
        let (ctx₂, w₂, e₂, rest₂) = run_steps-eq-ok name _ _ _ w₁ rest₁ in
        let (c, known, allowed, same_c', same_w') =
          authorize_step-eq-ok rt operation _ _ ctx₁ w₁ e₂ in
        let (same_c'', same_w'') = run_steps-nil-eq-ok rest₂ in
        (
          c,
          sym (ap (λ x. x.caller) same_c) ∙ known,
          rw same_w at allowed,
          same_c'' ∙ same_c' ∙ same_c,
          same_w'' ∙ same_w' ∙ same_w,
        )

    listed :
        (caller : Option CallerPrincipal) (c : CallerPrincipal) {o : O} {w' : W}
        → caller ≡ some c
        → rt.authorize (request rt operation c scope) w ≡ ok allow
        → proceed (read (rt.store.list rt.kind (list_query order_by (query input c))) w) (λ page.
          read (derive_all rt page.items) >>= λ items. pure (respond items page.total_count))
          ≡ (ok o, w')
        → Listed caller o w'
    listed caller c known allowed h =
        let (page, v, e, rest) =
          proceed-eq-ok (read (rt.store.list rt.kind (list_query order_by (query input c))) w) _
            h in
        let (asked, same) = query-eq-ok _ w e in
        let (items, v', e', rest') = proceed-eq-ok (derive_all rt page.items v, v) _ rest in
        let (derived, same') = query-eq-ok _ v e' in
        record {
          asker = c;
          known = known;
          allowed = allowed;
          page = page;
          sent = list_query order_by (query input c);
          asked = asked;
          bounded = page_limit_bounds (query input c).page_size;
          page_size = page_limit_named (query input c).page_size;
          offset = refl;
          filter = refl;
          ordered = refl;
          items = items;
          derived = rw same at derived;
          response = ground arith;
          unchanged = ground (arith, same, same');
        }

    -- A list that answers was allowed to its caller in the world that the store was then asked in,
    -- asked for 1 to 100 rows (for the number that the request named, where it named one in these
    -- bounds) at the offset, by the filter and in the order of the operation, answers the rows of
    -- that page with their statuses derived and its total, and changes nothing.
    pub list-Listed :
        {run : I → Option CallerPrincipal → Action W O} (caller : Option CallerPrincipal) {o : O}
        {w' : W}
        → list_operation rt validate order_by query respond operation ≡ ok run
        → run input caller w ≡ (ok o, w')
        → Listed caller o w'
    unfolding run_list
    list-Listed caller {o} {w'} built h =
        let (ctx, v, ran, rest) =
          proceed-eq-ok (execute list_pipeline (start caller) w) _
            (rw (list_operation-eq-ok built) at h) in
        let (c, known, allowed, same_c, same_w) = list_steps-eq-ok caller (rw execute_lem at ran) in
        listed caller c known allowed (rw (same_c, same_w, known) at rest)
