-- ===== src/Authz/Policy/Decide.antt =====
-- apps/law/backend/src/domain/authz/policy.ts: `authorize` for the four kinds of caller, and the
-- guards that handlers call themselves.
use stigmer_apps.Common.{
  Text, codes, if◌then◌else◌, Bool, true, false, List, map, Option, none, some, String,
}
use stigmer_apps.ResourceApi.Errors.{Failure, permission_denied}
use stigmer_apps.ResourceApi.Effects.{Result, ok, throw}
use stigmer_apps.ResourceApi.Envelope.{CallerPrincipal, PrincipalKind}
use stigmer_apps.Authz.Results.{◌>>=◌}
use stigmer_apps.Authz.Vocabulary.{
  Kind, Operation, Relation, says, system_may_not, Decision, allow, deny, id_of, user_ref,
}
use stigmer_apps.Authz.Policy.{
  FirmMember, Facts, Backend, on_firm, can_touch_case_content, member_of,
}
use stigmer_apps.Authz.Policy.Cells.{authorize_user}

-- `authorizeOperator`
unfoldable pub authorize_operator : Kind → Operation → Decision
authorize_operator Kind.user operation = allow
authorize_operator Kind.firm_member operation = allow
authorize_operator kind operation =
    deny (says "The operator credential administers accounts, not case work")

-- `authorizeSystem`
unfoldable pub authorize_system : Kind → Operation → Decision
authorize_system Kind.notification Operation.create = allow
authorize_system Kind.audit_entry Operation.create = allow
authorize_system Kind.matter Operation.update = allow
authorize_system Kind.case_member Operation.create = allow
authorize_system Kind.document_page Operation.create = allow
authorize_system Kind.document Operation.record_extraction = allow
authorize_system kind operation = deny (system_may_not operation kind)

abbrev pub refused : {A : Type 0} → String → Result A
refused reason = throw (Failure.connect (permission_denied (codes reason)))

-- `guards.requireMember`, once the row is read
abbrev pub present : Option FirmMember → Result FirmMember
present none = refused "No active firm membership for this account"
present (some m) = ok m

abbrev pub content_refusal : (clerk_allowed : Bool) → Result FirmMember
content_refusal true = refused "Only case members and partners may work this matter"
content_refusal false = refused "Only lawyers on this matter (or partners) may do this"

module _ (b : Backend) where
  abbrev pub authorize_member :
      Kind → Operation → (resource input : Option Facts) → Option FirmMember → Result Decision
  authorize_member kind operation resource input none =
      ok (deny (says "No active firm membership for this account"))
  authorize_member kind operation resource input (some m) =
      authorize_user b m kind operation resource input

  abbrev pub authorize_caller :
      CallerPrincipal
      → PrincipalKind
      → Kind
      → Operation
      → (resource input : Option Facts) → Result Decision
  authorize_caller c PrincipalKind.operator kind operation resource input =
      ok (authorize_operator kind operation)
  authorize_caller c PrincipalKind.system kind operation resource input =
      ok (authorize_system kind operation)
  authorize_caller c PrincipalKind.user kind operation resource input =
      member_of b c >>= authorize_member kind operation resource input

  -- `policy.authorize`
  unfoldable pub authorize :
      Option CallerPrincipal → Kind → Operation → (resource input : Option Facts) → Result Decision
  authorize none kind operation resource input = ok (deny (says "Authentication required"))
  authorize (some c) kind operation resource input =
      authorize_caller c c.kind kind operation resource input

  abbrev pub require_kind : CallerPrincipal → PrincipalKind → Result FirmMember
  require_kind c PrincipalKind.user = member_of b c >>= present
  require_kind c _ = refused "Only firm members may perform this action"

  -- `guards.requireMember`
  unfoldable pub require_member : CallerPrincipal → Result FirmMember
  require_member c = require_kind c c.kind

  -- `guards.assertCaseContent`
  unfoldable pub assert_case_content :
      CallerPrincipal → (case_id : Text) → (clerk_allowed : Bool) → Result FirmMember
  assert_case_content c case_id clerk_allowed = do
    m ← require_member c
    touches ← can_touch_case_content b m (some case_id) clerk_allowed
    if touches then ok m else content_refusal clerk_allowed

  -- `guards.assertPartner`
  unfoldable pub assert_partner : CallerPrincipal → Result FirmMember
  assert_partner c = do
    m ← require_member c
    partner ← on_firm b m Relation.partners
    if partner then ok m else refused "This is visible to partners only"

  abbrev pub case_scope : FirmMember → (unscoped : Bool) → Result (Option (List Text))
  case_scope m true = ok none
  case_scope m false =
      b.list_objects (user_ref m.user_id) Relation.can_work_content (codes "case") >>= λ objects.
      ok (some (map id_of objects))

  -- `guards.visibleCaseIds`
  unfoldable pub visible_case_ids : FirmMember → Result (Option (List Text))
  visible_case_ids m = on_firm b m Relation.partners >>= case_scope m

  abbrev pub list_scope : FirmMember → (lawyer : Bool) → Result (Option (List Text))
  list_scope m true = ok none
  list_scope m false = visible_case_ids m

  -- `guards.caseListScope`
  unfoldable pub case_list_scope : FirmMember → Result (Option (List Text))
  case_list_scope m = on_firm b m Relation.lawyers >>= list_scope m
