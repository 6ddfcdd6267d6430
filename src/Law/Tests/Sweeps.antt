-- ===== src/Law/Tests/Sweeps.antt =====
-- apps/law/backend/src/domain/reminders: a sweep whose notifications are written by the create pipeline
-- of packages/resource-api/src/resource.ts, over a store that keeps the dedup keys unique.
use stigmer_apps.Common.{
  Text, codes, text_eq, text_eq_refl, if◌then◌else◌, not, ◌&&◌, is_empty, any, or_undefined, Bool,
  true, false, none, some, List, [], ◌∷◌, ◌≡◌, refl, arith, Bool-cases, ◌⊎◌, inl, inr, ap, ◌∙◌,
}
use stigmer_apps.ResourceApi.Errors.{
  Failure, connect, duplicate_natural_key, already_exists, invalid_argument,
}
use stigmer_apps.ResourceApi.Effects.{Result, ok, throw, Action}
use stigmer_apps.ResourceApi.Envelope.{
  Resource, system_principal, generate_resource_id, build_create_state,
}
use stigmer_apps.ResourceApi.Port.{Runtime, StorePort, NaturalKey, Verdict, valid, invalid, allow}
use stigmer_apps.ResourceApi.Pipeline.{new_pipeline}
use stigmer_apps.ResourceApi.Resource.{authorize_step, publish_safely, derive_one}
use stigmer_apps.ResourceApi.Resource.Create.{
  WriteOptions, run_create, build_create_executor, write_steps, validate_input_step,
  check_duplicate_step, build_new_state_step, persist_step, announce_steps, publish_created_step,
  resolve_duplicate_step,
}
use stigmer_apps.ResourceApi.Resource.Create.Held.{create_held, create_new}
use stigmer_apps.ResourceApi.Resource.Create.Laws.{
  write_pipeline, announce_pipeline, create_invalid,
}
use stigmer_apps.Law.Reminders.{
  SweepStore, Notification, run_sweep_once, sweep_deadlines, for_each, sweep_window, sweep_deadline,
  user_id_of_member, notify, sweep_unrecorded_outcomes, sweep_hearing_reminders,
}
use stigmer_apps.Law.Reminders.Settled.{HasUniqueKeys, IsMore, run_sweep_once_settled}

abbrev Row : Type 0
Row = Resource Notification (Unit {0})

abbrev row_of : Notification → Row
row_of n = record {
  api_version = [];
  kind = codes "Notification";
  metadata = none;
  spec = some n;
  status = none;
}

-- The stored keys.
stored : Text → List Text → Bool
stored k w = any (text_eq k) w

abbrev key_of : Row → Text
key_of r = elim r.spec [ none ↦ [] | some n ↦ n.dedup_key ]

abbrev holder : Row
holder = record { api_version = []; kind = []; metadata = none; spec = none; status = none }

abbrev store : StorePort (List Text) Row
store = record {
  insert = λ kind r w.
      if stored (key_of r) w
      then (throw (duplicate_natural_key kind (key_of r)), w)
      else (ok tt, key_of r ∷ w);
  save = λ kind r w. (ok tt, w);
  get_by_id = λ kind id w. ok none;
  get_by_natural_key = λ kind k w. ok (if stored k w then some holder else none);
  list = λ kind q w. ok (record { items = []; total_count = 0 });
}

-- The rules of notification.proto; `others` holds those beside the key's.
has_rest : Notification → Bool
has_rest n = not (is_empty n.recipient_id) && not (is_empty n.title)

abbrev is_valid : Notification → Bool
is_valid n = has_rest n && not (is_empty n.dedup_key)

abbrev verdict : Bool → Verdict
verdict true = valid
verdict false = invalid (codes "a value is empty")

abbrev unique_key : NaturalKey Row
unique_key = record { label = codes "dedup key"; get = key_of; idempotent = false }

abbrev notifications : Runtime (List Text) Notification (Unit {0})
notifications = record {
  kind = codes "Notification";
  display_name = codes "Notification";
  identity = record {
    api_version = codes "v1";
    kind = codes "Notification";
    id_prefix = codes "ntf";
  };
  natural_key = some unique_key;
  store = store;
  authorize = λ r w. ok allow;
  publish = λ e w. (ok tt, w);
  derive_status = none;
  spec_equals = λ a b. text_eq a.dedup_key b.dedup_key;
  validate = λ r. verdict (elim r.spec [ none ↦ false | some n ↦ is_valid n ]);
  host = record { new_date = λ w. (ok 7, w); ulid = λ w. (ok (codes "01"), w) };
}

abbrev no_steps : WriteOptions (List Text) Row
no_steps = record { before_persist = []; after_persist = [] }

abbrev dropped : Result Row × List Text → Result (Unit {0}) × List Text
dropped (ok _, w) = (ok tt, w)
dropped (throw f, w) = (throw f, w)

abbrev create_run : Row → Action (List Text) Row
create_run r =
    run_create notifications (write_pipeline notifications (codes "create") no_steps)
      (announce_pipeline notifications (codes "create") no_steps) r (some system_principal)

create : Notification → Action (List Text) (Unit {0})
create n w = dropped (create_run (row_of n) w)

built :
    build_create_executor notifications (codes "create") no_steps
    ≡ ok (
        run_create notifications
          (write_pipeline notifications (codes "create") no_steps)
          (announce_pipeline notifications (codes "create") no_steps))
unfolding build_create_executor new_pipeline write_steps validate_input_step authorize_step
    check_duplicate_step build_new_state_step persist_step announce_steps publish_created_step
    resolve_duplicate_step
built = refl

abbrev key_held : Text → Failure
key_held k = connect (already_exists (codes "Notification") (codes "dedup key") k)

present : (k : Text) → is_empty k ≡ false → or_undefined k ≡ some k
present [] h = cc
present (c ∷ k) h = refl

-- The pipeline on a notification, by its rules and its key.
create-held :
    (n : Notification) (w : List Text)
    → is_valid n ≡ true
    → stored n.dedup_key w ≡ true
    → create n w ≡ (throw (key_held n.dedup_key), w)
unfolding create
create-held n w v h = ap dropped (
    create_held notifications (codes "create") no_steps (row_of n) w system_principal (ap verdict v)
      refl unique_key refl n.dedup_key (present n.dedup_key (ground (arith, v))) holder built
      (ap (λ b. ok (if b then some holder else none)) h) refl)

create-free :
    (n : Notification) (w : List Text)
    → is_valid n ≡ true
    → stored n.dedup_key w ≡ false
    → create n w ≡ (ok tt, n.dedup_key ∷ w)
unfolding create generate_resource_id build_create_state publish_safely derive_one
create-free n w v h = ap dropped (
    create_new notifications (codes "create") no_steps (row_of n) w system_principal (ap verdict v)
      refl unique_key refl n.dedup_key (present n.dedup_key (ground (arith, v))) 7 (codes "01")
      (codes "ntf_01") w w refl refl refl refl {w₃ = n.dedup_key ∷ w} built
      (ap (λ b. ok (if b then some holder else none)) h)
      (ap
        (λ b.
          if b
          then (throw (duplicate_natural_key (codes "Notification") n.dedup_key), w)
          else (ok tt, n.dedup_key ∷ w))
        h))

abbrev broken : Failure
broken = connect (invalid_argument (codes "Invalid Notification: a value is empty"))

create-invalid :
    (n : Notification) (w : List Text) → is_valid n ≡ false → create n w ≡ (throw broken, w)
unfolding create
create-invalid n w v = ap dropped (
    create_invalid notifications (codes "create") no_steps (row_of n) w (some system_principal)
      (codes "a value is empty") built (ap verdict v))

-- How a create ends.
abbrev Ends : Notification → List Text → Type 0
Ends n w =
    (create n w ≡ (throw broken, w))
    ⊎ ((is_valid n ≡ true)
        × (stored n.dedup_key w ≡ true)
        × (create n w ≡ (throw (key_held n.dedup_key), w)))
    ⊎ ((is_valid n ≡ true) × (create n w ≡ (ok tt, n.dedup_key ∷ w)))

create-Ends : (n : Notification) (w : List Text) → Ends n w
create-Ends n w = elim (Bool-cases (is_valid n)) [
  | inr broken_rule ↦ inl (create-invalid n w broken_rule)
  | inl v ↦ elim (Bool-cases (stored n.dedup_key w)) [
    | inl held ↦ inr (inl (v, held, create-held n w v held))
    | inr free ↦ inr (inr (v, create-free n w v free))
  ]
]

create-HasUniqueKeys : HasUniqueKeys is_valid create stored
unfolding already_exists invalid_argument stored
create-HasUniqueKeys = record {
  stores = λ n w w' e. elim (create-Ends n w) [
    | inl broken_rule ↦ absurd (ground (arith, e, broken_rule))
    | inr (inl (v, held, k)) ↦ absurd (ground (arith, e, k))
    | inr (inr (v, k)) ↦ (v, ground (arith, e, k, text_eq_refl n.dedup_key))
  ];
  keeps = λ n w w' key e h. elim (create-Ends n w) [
    | inl broken_rule ↦ absurd (ground (arith, e, broken_rule))
    | inr (inl (v, held, k)) ↦ absurd (ground (arith, e, k))
    | inr (inr (v, k)) ↦ ground (arith, e, k, h)
  ];
  refuses = λ n w v h. (key_held n.dedup_key, create-held n w v h, refl);
  refused = λ n w w' f e h. elim (create-Ends n w) [
    | inl broken_rule ↦ absurd (ground (arith, e, broken_rule, h))
    | inr (inl (v, held, k)) ↦ (v, held, ground (arith, e, k))
    | inr (inr (v, k)) ↦ absurd (ground (arith, e, k))
  ];
}

abbrev sweep_rows : SweepStore
sweep_rows = record {
  deadlines = λ q. ok (
      record {
        id = some (codes "d1");
        owner_id = some (codes "m1");
        title = some (codes "Reply");
        due_date = some (codes "2026-01-03");
      }
      ∷ []);
  hearings = λ q. ok [];
  case_members = λ q. ok [];
  case_by_id = λ id. ok none;
  member_by_id = λ id. ok (some (record { active = some true; user_id = codes "u1" }));
}

-- The same create, without the pipeline.
abbrev brief : Notification → Action (List Text) (Unit {0})
brief n w =
    if is_valid n
    then (if stored n.dedup_key w
        then (throw (key_held n.dedup_key), w)
        else (ok tt, n.dedup_key ∷ w))
    else (throw broken, w)

create-brief : (n : Notification) (w : List Text) → create n w ≡ brief n w
create-brief n w = elim (Bool-cases (is_valid n)) [
  | inr broken_rule ↦ create-invalid n w broken_rule ∙ rw broken_rule refl
  | inl v ↦ elim (Bool-cases (stored n.dedup_key w)) [
    | inl held ↦ create-held n w v held ∙ rw (v, held) refl
    | inr free ↦ create-free n w v free ∙ rw (v, free) refl
  ]
]

abbrev sweep_with : (Notification → Action (List Text) (Unit {0})) → Action (List Text) (Unit {0})
sweep_with c = run_sweep_once c sweep_rows (λ day n. day) (codes "2026-01-01")

abbrev sent : List Text
sent = (sweep_with brief []).1

brief_sweep : sweep_with brief [] ≡ (ok tt, sent)
unfolding run_sweep_once sweep_deadlines for_each sweep_window sweep_deadline user_id_of_member
    notify text_eq sweep_unrecorded_outcomes sweep_hearing_reminders stored has_rest already_exists
brief_sweep = refl

first_sweep : sweep_with create [] ≡ (ok tt, sent)
first_sweep =
    ap (λ (c : Notification → Action (List Text) (Unit {0})). sweep_with c [])
      (λ i n w. create-brief n w i)
    ∙ brief_sweep

run_sweep_once_settled_example : IsMore stored sent [] × (sweep_with create sent ≡ (ok tt, sent))
run_sweep_once_settled_example =
    run_sweep_once_settled is_valid create stored create-HasUniqueKeys sweep_rows (λ day n. day)
      (codes "2026-01-01") [] sent sent first_sweep (λ k h. h)
