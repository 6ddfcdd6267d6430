-- ===== src/ResourceApi/Tests/Creates.antt =====
-- Creates of notes.
use stigmer_apps.ResourceApi.Store.Memory.{
  set_table, key_taken, assert_natural_key_free, require_id, insert, natural_key, same_key,
  get_by_natural_key,
}
use stigmer_apps.ResourceApi.Pipeline.{new_pipeline}
use stigmer_apps.Common.{
  ◌∙◌, table_set, table_has, Text, codes, text_eq, ◌≡◌, refl, Bool, true, false, Option, some, none,
}
use stigmer_apps.ResourceApi.Errors.{connect, permission_denied}
use stigmer_apps.ResourceApi.Effects.{ok, throw, Action}
use stigmer_apps.ResourceApi.Tests.{
  notes, ann, bob, note, draft, no_steps, fresh, used, title_key, World, Note, raced_notes, rival,
  note_store,
}
use stigmer_apps.ResourceApi.Envelope.{generate_resource_id, CallerPrincipal, build_create_state}
use stigmer_apps.ResourceApi.Port.{Runtime, EventType, valid, allow}
use stigmer_apps.ResourceApi.Resource.StepLaws.{request}
use stigmer_apps.ResourceApi.Resource.{same_content, authorize_step, derive_one, publish_safely}
use stigmer_apps.ResourceApi.Resource.Create.{
  resolve_duplicate_step, publish_created_step, announce_steps, persist_step, build_new_state_step,
  check_duplicate_step, validate_input_step, write_steps, run_create, build_create_executor,
}
use stigmer_apps.ResourceApi.Resource.Create.Laws.{
  write_pipeline, announce_pipeline, proposal, create_refused, create-authorized,
}
use stigmer_apps.ResourceApi.Resource.Create.Held.{create_recorded, create_new, create_raced}

abbrev operation : Text
operation = codes "create"

abbrev run_of : Runtime World Text (Unit {0}) → Note → Option CallerPrincipal → Action World Note
run_of rt =
    run_create rt (write_pipeline rt operation no_steps) (announce_pipeline rt operation no_steps)

built :
    (idempotent : Bool)
    → build_create_executor (notes idempotent) operation no_steps ≡ ok (run_of (notes idempotent))
unfolding build_create_executor new_pipeline write_steps validate_input_step authorize_step
    check_duplicate_step build_new_state_step persist_step announce_steps publish_created_step
    resolve_duplicate_step
built true = refl
built false = refl

raced_built : build_create_executor raced_notes operation no_steps ≡ ok (run_of raced_notes)
unfolding build_create_executor new_pipeline write_steps validate_input_step authorize_step
    check_duplicate_step build_new_state_step resolve_duplicate_step persist_step announce_steps
    publish_created_step
raced_built = refl

create_refused_example :
    run_of (notes false) (draft (codes "plan")) (some bob) used
    ≡ (throw (connect (permission_denied (codes "not yours"))), used)
unfolding text_eq
create_refused_example =
    create_refused (notes false) operation no_steps (draft (codes "plan")) used bob
      (codes "not yours") (built false) refl refl

abbrev ann_note : Note
ann_note = build_create_state (notes true).identity (draft (codes "plan")) ann 7 (codes "note_01")

create_new_example :
    run_of (notes true) (draft (codes "plan")) (some ann) fresh
    ≡ derive_one
        (notes true)
        ann_note
        (publish_safely
          (notes true)
          EventType.created
          ann_note
          none
          (some ann)
          (note_store.insert (codes "Note") ann_note fresh).1).1
unfolding text_eq generate_resource_id get_by_natural_key insert require_id build_create_state
    table_has assert_natural_key_free key_taken
create_new_example =
    create_new (notes true) operation no_steps (draft (codes "plan")) fresh ann refl refl
      (title_key true) refl (codes "plan") refl 7 (codes "01") (codes "note_01") fresh fresh refl
      refl refl refl (built true) refl refl

create_raced_example :
    run_of raced_notes (draft (codes "plan")) (some ann) fresh
    ≡ derive_one raced_notes rival (raced_notes.store.insert (codes "Note") ann_note fresh).1
unfolding text_eq generate_resource_id get_by_natural_key insert require_id build_create_state
    table_has assert_natural_key_free key_taken set_table table_set same_key natural_key
    same_content
create_raced_example =
    create_raced raced_notes operation no_steps (draft (codes "plan")) fresh ann refl refl
      (title_key true) refl (codes "plan") refl 7 (codes "01") (codes "note_01") fresh fresh refl
      refl refl refl rival {kd = codes "Note"} {v = codes "plan"} raced_built refl refl refl refl
      refl

answered :
    derive_one (notes true) (note (codes "note_00") (codes "plan")) used
    ≡ (ok (note (codes "note_00") (codes "plan")), used)
unfolding derive_one
answered = refl

ran :
    run_of (notes true) (draft (codes "plan")) (some ann) used
    ≡ (ok (note (codes "note_00") (codes "plan")), used)
unfolding text_eq generate_resource_id get_by_natural_key same_key natural_key same_content
    build_create_state
ran =
    create_recorded (notes true) operation no_steps (draft (codes "plan")) used ann refl refl
      (title_key true) refl (codes "plan") refl 7 (codes "01") (codes "note_01") used used refl refl
      refl refl (note (codes "note_00") (codes "plan")) (built true) refl refl refl
    ∙ answered

create-authorized_example :
    ((notes true).validate (draft (codes "plan")) ≡ valid)
    × ((c : CallerPrincipal) × (◌≡◌ {A = Option CallerPrincipal} (some ann) (some c))
        × ((notes true).authorize
              (request
                (notes true)
                operation
                c
                (proposal (notes true) operation no_steps (draft (codes "plan"))))
              used
            ≡ ok allow))
create-authorized_example =
    create-authorized (notes true) operation no_steps (draft (codes "plan")) used (some ann)
      (built true) ran
