-- ===== src/Law/Tests/Members.antt =====
-- apps/law/backend/src/domain/casemember: a partner removes a member from a case.
use stigmer_apps.ResourceApi.Resource.{
  publish_safely, persist, authorize_or_throw, load_by_ref, require_ref,
}
use stigmer_apps.ResourceApi.Resource.Update.{load_required}
use stigmer_apps.Common.{
  codes, text_eq, Bool, true, false, none, some, List, [], ◌∷◌, ℕ, ◌≡◌, refl, suc,
}
use stigmer_apps.ResourceApi.Effects.{ok}
use stigmer_apps.ResourceApi.Envelope.{
  stamp_custom_mutation, CallerPrincipal, PrincipalKind, Metadata, touched,
}
use stigmer_apps.ResourceApi.Port.{StorePort, Runtime, allow, valid}
use stigmer_apps.ResourceApi.Resource.Custom.{save_stamped, load_authorized, run_handler}
use stigmer_apps.Authz.Reconcile.{TupleKey}
use stigmer_apps.Authz.Projection.{
  resolve_member_user_id, case_member_tuple_delta, FirmRole, MemberRow, case_member_tuple,
}
use stigmer_apps.Law.CaseMembers.{
  apply_tuple_delta_safely, CaseMember, CaseMemberSpec, CaseMemberStatus, Deps, remove,
}
use stigmer_apps.Law.CaseMembers.Removal.{IsRemoval, remove-IsRemoval}

-- The one membership there is, the engine's tuples and the number of events.
record World : Type 0 where
  row : CaseMember
  tuples : List TupleKey
  events : ℕ

abbrev meta : Metadata
meta = record {
  id = codes "cmem_1";
  version = 1;
  created_at = some 7;
  created_by = none;
  updated_at = some 7;
  updated_by = none;
}

abbrev membership : (active : Bool) → Metadata → CaseMember
membership active meta = record {
  api_version = codes "v1";
  kind = codes "CaseMember";
  metadata = some meta;
  spec = some (record { case_id = codes "c1"; member_id = codes "m1" });
  status = some (record { active = some active });
}

abbrev start : World
start = record {
  row = membership true meta;
  tuples = case_member_tuple (codes "u1") (codes "c1") ∷ [];
  events = 0;
}

abbrev store : StorePort World CaseMember
store = record {
  insert = λ kind m w. (ok tt, record w { row = m });
  save = λ kind m w. (ok tt, record w { row = m });
  get_by_id = λ kind id w. ok (some w.row);
  get_by_natural_key = λ kind value w. ok none;
  list = λ kind q w. ok (record { items = w.row ∷ []; total_count = 1 });
}

abbrev members : Runtime World CaseMemberSpec CaseMemberStatus
members = record {
  kind = codes "CaseMember";
  display_name = codes "CaseMember";
  identity = record {
    api_version = codes "v1";
    kind = codes "CaseMember";
    id_prefix = codes "cmem";
  };
  natural_key = none;
  store = store;
  authorize = λ r w. ok allow;
  publish = λ e w. (ok tt, record w { events = suc w.events });
  derive_status = none;
  spec_equals = λ a b. text_eq a.case_id b.case_id;
  validate = λ _. valid;
  host = record { new_date = λ w. (ok 9, w); ulid = λ w. (ok (codes "01"), w) };
}

abbrev person : MemberRow
person = record {
  id = codes "m1";
  spec = some (record { user_id = codes "u1"; active = some true; role = FirmRole.junior });
}

-- The engine here forgets every tuple on a write that only deletes.
abbrev deps : Deps World
deps = record {
  firm_member = λ w id. ok (some person);
  lead_lawyer = λ w id. ok (some (codes "m2"));
  list_members = λ w q. ok (record { items = w.row ∷ []; total_count = 1 });
  assert_case_content = λ w c id. ok tt;
  engine_write = λ writes deletes w. (ok tt, record w { tuples = writes });
  log_drift = λ context f w. w;
}

abbrev partner : CallerPrincipal
partner = record { id = codes "pat"; kind = PrincipalKind.user }

abbrev removed : CaseMember
removed = membership false (touched meta partner 9)

removed_run :
    run_handler members (codes "remove") (some partner) (remove deps (codes "cmem_1")) false start
    ≡ (ok removed, true, record { row = removed; tuples = []; events = 1 })
unfolding run_handler remove load_authorized load_required require_ref load_by_ref
    authorize_or_throw text_eq save_stamped stamp_custom_mutation persist publish_safely
    apply_tuple_delta_safely case_member_tuple_delta resolve_member_user_id
removed_run = refl

remove-IsRemoval_example :
    IsRemoval deps members
      (codes "remove")
      (some partner)
      (codes "cmem_1")
      start
      (record { row = removed; tuples = []; events = 1 })
      removed
remove-IsRemoval_example =
    remove-IsRemoval deps members (codes "remove") (some partner) (codes "cmem_1") start removed
      true (record { row = removed; tuples = []; events = 1 }) removed_run
