-- ===== src/Authz/Tests.antt =====
-- The firm policy and the projection on a small firm: ann is a partner, bob of the office staff, cid
-- was deactivated.
pub mod Reconciler
use stigmer_apps.Common.{
  table_set, Text, codes, text_eq, ◌≡◌, ◌↔◌, refl, ap, if◌then◌else◌, any, is_empty, Bool, true,
  ◌||◌, ◌&&◌, not, Option, some, none, List, [], ◌∷◌, ◌++◌, ◌⊎◌, inl, inr, ◌∙◌, false, filter, All,
  arith,
}
use stigmer_apps.ResourceApi.Errors.{Failure, bare}
use stigmer_apps.ResourceApi.Effects.{Result, ok, throw, Action}
use stigmer_apps.ResourceApi.Envelope.{CallerPrincipal, PrincipalKind, system_principal}
use stigmer_apps.Authz.Vocabulary.{allow, ref, Kind, Operation, Relation, says, deny, case_ref}
use stigmer_apps.Authz.Policy.{
  on_case, LedgerEntryKind, FirmMember, Facts, Backend, stored, proposed, member_of, on_firm,
  case_id_of, can_touch_case_content, truthy,
}
use stigmer_apps.Authz.Policy.Cells.{content_cell, ledger_entry_cell, cell, authorize_user}
use stigmer_apps.Authz.Policy.Decide.{
  authorize_system, authorize, require_member, assert_case_content, assert_partner, refused,
}
use stigmer_apps.Authz.Policy.Access.{IsSystemWritten, inactive_denied, system_written_only}
use stigmer_apps.Authz.Policy.Money.{IsMoney, HasMoneyGrounds, money_only}
use stigmer_apps.Authz.Policy.Content.{
  IsContent, MayWorkRow, MayMoveTo, moved_content, created_content,
}
use stigmer_apps.Authz.Policy.Guards.{authorize_iff_guard}
use stigmer_apps.Authz.Projection.{
  MemberRow, FirmRole, MembershipRow, TupleDelta, project_authorization_tuples,
}
use stigmer_apps.Authz.Projection.Sound.{IsJustified, project_authorization_tuples-IsJustified}
use stigmer_apps.Authz.Paging.Engine.{
  PerTupleResult, write_tuples, assert_settled, answer_of_client,
}
use stigmer_apps.Authz.Reconcile.{
  TupleKey, has_id, reconcile_tuples, tuple_id, writes_of, deletes_of, by_id,
}
use stigmer_apps.Authz.Reconcile.Laws.{has_id-filter, IsEngine, reconcile_tuples-exact}

abbrev member : Text → Bool → FirmMember
member id active = record { id = some id; user_id = id; active = some active }

abbrev row_of : Text → Option FirmMember
row_of id = some (
    if text_eq id (codes "cid")
    then record { id = some id; user_id = id; active = none }
    else member id true)

-- Partners hold every relation; bob is of the office staff, and works the case c1.
abbrev holds : (user : Text) → Relation → Bool
holds user Relation.office_staff = true
holds user Relation.can_work_content = true
holds user Relation.case_workers = true
holds user _ = text_eq user (codes "user:ann")

abbrev firm : Backend
firm = record {
  firm_member = λ id. ok (row_of id);
  task_case = λ id. ok none;
  document_case = λ id. ok none;
  check = λ user relation object. ok (holds user relation);
  list_objects = λ user relation type. ok (case_ref (codes "c1") ∷ []);
}

abbrev caller : Text → CallerPrincipal
caller id = record { id = id; kind = PrincipalKind.user }

abbrev nothing : Facts
nothing = record {
  id = none;
  case_id = none;
  task_id = none;
  document_id = none;
  owner_id = none;
  recipient_id = none;
  entry_kind = none;
}

abbrev in_case : Text → Facts
in_case id = record nothing { case_id = some id }

inactive_denied_example :
    ((kind : Kind) (op : Operation) (r i : Option Facts)
      → authorize firm (some (caller (codes "cid"))) kind op r i
        ≡ ok (deny (says "No active firm membership for this account")))
    × (require_member firm (caller (codes "cid"))
        ≡ refused "No active firm membership for this account")
    × ((id : Text) (clerk : Bool)
        → assert_case_content firm (caller (codes "cid")) id clerk
          ≡ refused "No active firm membership for this account")
    × (assert_partner firm (caller (codes "cid"))
        ≡ refused "No active firm membership for this account")
unfolding text_eq member_of
inactive_denied_example =
    inactive_denied firm (caller (codes "cid")) (row_of (codes "cid")) refl refl (λ e. cc)

system_written_only_example : system_principal.kind ≡ PrincipalKind.system
unfolding text_eq authorize authorize_system
system_written_only_example =
    system_written_only firm system_principal Kind.audit_entry Operation.create none none
      IsSystemWritten.audit_create refl

abbrev receipt : Facts
receipt = record nothing { entry_kind = some LedgerEntryKind.receipt }

money_only_example :
    HasMoneyGrounds firm (caller (codes "bob")) Kind.ledger_entry Operation.create (some receipt)
unfolding text_eq authorize member_of authorize_user case_id_of cell ledger_entry_cell on_firm ref
money_only_example =
    money_only firm (caller (codes "bob")) Kind.ledger_entry Operation.create none (some receipt)
      IsMoney.ledger refl

moved_content_example :
    (current next : Option Text) × (case_id_of firm Kind.hearing
        (some (in_case (codes "c1")))
        stored
      ≡ ok current)
    × (case_id_of firm Kind.hearing (some (in_case (codes "c2"))) proposed ≡ ok next)
    × MayWorkRow firm (member (codes "bob") true) Kind.hearing current
    × MayMoveTo firm (member (codes "bob") true) current (truthy next)
unfolding text_eq authorize_user case_id_of cell content_cell can_touch_case_content on_case
moved_content_example =
    moved_content firm (member (codes "bob") true) Kind.hearing (in_case (codes "c1"))
      (in_case (codes "c2")) IsContent.hearing refl

created_content_example :
    (on_firm firm (member (codes "bob") true) Relation.case_workers ≡ ok true)
    × ((current : Option Text) × (case_id_of firm Kind.task (some (in_case (codes "c1"))) proposed
          ≡ ok current)
        × ((current ≡ none)
            ⊎ (can_touch_case_content firm (member (codes "bob") true) current true ≡ ok true)))
unfolding text_eq authorize_user case_id_of cell content_cell on_firm can_touch_case_content on_case
created_content_example =
    created_content firm (member (codes "bob") true) Kind.task (in_case (codes "c1")) IsContent.task
      refl

authorize_iff_guard_example :
    (authorize firm
        (some (caller (codes "bob")))
        Kind.hearing
        Operation.get
        (some (in_case (codes "c1")))
        none
      ≡ ok allow)
    ↔ ((m : FirmMember) × (assert_case_content firm (caller (codes "bob")) (codes "c1") true
          ≡ ok m))
unfolding text_eq case_id_of
authorize_iff_guard_example =
    authorize_iff_guard firm (caller (codes "bob")) (codes "c1") refl Kind.hearing
      (in_case (codes "c1")) IsContent.hearing refl refl

abbrev ann_row : Bool → MemberRow
ann_row active = record {
  id = codes "m1";
  spec = some (record { user_id = codes "ann"; active = some active; role = FirmRole.partner });
}

abbrev rows : Text → Result (Option MemberRow)
rows id = ok (some (ann_row true))

abbrev working : Bool → MembershipRow
working active = record { active = some active; case_id = codes "c1"; member_id = codes "m1" }

abbrev closing : TupleDelta
closing = record {
  writes = [];
  deletes =
      record { user = codes "user:ann"; relation = codes "member"; object = codes "case:c1" } ∷ [];
}

project_authorization_tuples-IsJustified_example :
    All
      (IsJustified
        (ann_row true ∷ [])
        (record { id = codes "c1"; lead_lawyer_id = codes "m1" } ∷ [])
        (working true ∷ []))
      (project_authorization_tuples
        (ann_row true ∷ [])
        (record { id = codes "c1"; lead_lawyer_id = codes "m1" } ∷ [])
        (working true ∷ []))
project_authorization_tuples-IsJustified_example =
    project_authorization_tuples-IsJustified (ann_row true ∷ [])
      (record { id = codes "c1"; lead_lawyer_id = codes "m1" } ∷ []) (working true ∷ [])
