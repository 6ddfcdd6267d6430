-- ===== src/Authz/Policy/Cells.antt =====
-- apps/law/backend/src/domain/authz/policy.ts: `authorizeUser`, what an active member of the firm
-- may do: one function for each kind's cell of the matrix.
use stigmer_apps.Common.{
  Text, if◌then◌else◌, Bool, true, false, ◌||◌, Option, none, some, is_some, not, String, ◌&&◌,
}
use stigmer_apps.ResourceApi.Effects.{Result, ok, throw}
use stigmer_apps.Authz.Results.{◌>>=◌}
use stigmer_apps.Authz.Vocabulary.{
  Kind, Operation, Relation, says, not_permitted, Decision, allow, deny,
}
use stigmer_apps.Authz.Policy.{
  LedgerEntryKind, FirmMember, Facts, Backend, stored, proposed, truthy, same, permit, on_firm,
  on_case, can_touch_case_content, case_id_of,
}
use Operation.{
  create, update, get, list, search, update_status, remove, issue_activation_code, set_password,
  record_extraction, mark_read,
}

-- The field a cell reads of a subject that may be undefined.
abbrev pub field : (Facts → Option Text) → Option Facts → Option Text
field f none = none
field f (some r) = f r

abbrev pub is_receipt : Option LedgerEntryKind → Bool
is_receipt (some LedgerEntryKind.receipt) = true
is_receipt _ = false

abbrev pub entry_kind_of : Option Facts → Option LedgerEntryKind
entry_kind_of none = none
entry_kind_of (some r) = r.entry_kind

-- `caseId !== undefined ? onCase(member, verb, caseId) : onFirm(member, "partners")`
abbrev on_case_or_partners : Backend → FirmMember → Relation → Option Text → Result Bool
on_case_or_partners b m verb none = on_firm b m Relation.partners
on_case_or_partners b m verb (some id) = on_case b m verb id

-- `kind === "Document" || kind === "DocumentAnnotation"`
abbrev pub has_library : Kind → Bool
has_library Kind.document = true
has_library Kind.document_annotation = true
has_library _ = false

-- `test ? no : …` for a test that asks the engine.
abbrev pub unless : Result Bool → String → Result Decision → Result Decision
unless (throw f) reason rest = throw f
unless (ok true) reason rest = rest
unless (ok false) reason rest = ok (deny (says reason))

module _ (b : Backend) (m : FirmMember) where
  unfoldable pub user_cell : Operation → (resource : Option Facts) → Result Decision
  user_cell get resource =
      if same (field (λ r. r.id) resource) (some m.user_id)
      then ok allow
      else permit (on_firm b m Relation.can_manage_firm_members)
          "Only an operator or the managing partner may view other user accounts"
  user_cell create resource =
      permit (on_firm b m Relation.can_manage_firm_members)
        "Only an operator or the managing partner may manage user accounts"
  user_cell update resource =
      permit (on_firm b m Relation.can_manage_firm_members)
        "Only an operator or the managing partner may manage user accounts"
  user_cell issue_activation_code resource =
      permit (on_firm b m Relation.can_manage_firm_members)
        "Only an operator or the managing partner may manage user accounts"
  user_cell set_password resource = ok (
      deny (says "Only an operator may set a password directly — issue an activation code instead"))
  user_cell operation resource = ok (deny (not_permitted Kind.user operation))

  unfoldable pub firm_member_cell : Operation → Result Decision
  firm_member_cell create =
      permit (on_firm b m Relation.can_manage_firm_members)
        "Only the managing partner may manage firm members"
  firm_member_cell update =
      permit (on_firm b m Relation.can_manage_firm_members)
        "Only the managing partner may manage firm members"
  firm_member_cell _ = ok allow

  unfoldable pub client_cell : Operation → Result Decision
  client_cell create =
      permit (on_firm b m Relation.can_manage_clients)
        "Only partners and associates may manage clients"
  client_cell update =
      permit (on_firm b m Relation.can_manage_clients)
        "Only partners and associates may manage clients"
  client_cell _ =
      permit (on_firm b m Relation.can_view_clients)
        "The client register is visible to lawyers only"

  abbrev pub works_cases : Result Decision
  works_cases = permit (on_firm b m Relation.case_workers) "Office staff do not view case content"

  unfoldable pub case_cell : Operation → (case_id : Option Text) → Result Decision
  case_cell create case_id =
      permit (on_firm b m Relation.can_create_case)
        "Only partners and associates may open new matters"
  case_cell update case_id =
      permit (on_case_or_partners b m Relation.can_edit case_id)
        "Only partners or the matter's lead lawyer may edit a case"
  case_cell update_status case_id =
      permit (on_case_or_partners b m Relation.can_edit case_id)
        "Only partners or the matter's lead lawyer may edit a case"
  case_cell get case_id =
      permit (can_touch_case_content b m case_id true)
        "Only case members and partners may view case content"
  case_cell list case_id =
      permit (on_firm b m Relation.can_list_cases) "Case lists are not visible to office staff"
  case_cell operation case_id = ok (deny (not_permitted Kind.matter operation))

  abbrev pub create_case_member : (case_id : Option Text) → Result Decision
  create_case_member none =
      permit (on_firm b m Relation.lawyers) "Only lawyers may manage case members"
  create_case_member (some id) =
      permit (on_case b m Relation.can_manage_members id)
        "Only partners or the matter's lead lawyer may manage case members"

  unfoldable pub case_member_cell : Operation → (case_id : Option Text) → Result Decision
  case_member_cell create case_id = create_case_member case_id
  case_member_cell remove case_id =
      permit (on_case_or_partners b m Relation.can_manage_members case_id)
        "Only partners or the matter's lead lawyer may remove case members"
  case_member_cell list case_id =
      permit (on_firm b m Relation.case_workers)
        "Only case members and partners may view a case's member set"
  case_member_cell _ case_id =
      permit (can_touch_case_content b m case_id true)
        "Only case members and partners may view a case's member set"

  abbrev pub touch_other : (unchanged : Bool) → (next : Text) → Result Bool
  touch_other true next = ok true
  touch_other false next = can_touch_case_content b m (some next) true

  abbrev pub touch_proposed : (case_id next : Option Text) → Result Bool
  touch_proposed case_id none = ok true
  touch_proposed case_id (some next) = touch_other (same (some next) case_id) next

  -- `canTouchProposedCaseToo`, on an update
  abbrev pub can_touch_proposed_case_too :
      Kind → (case_id : Option Text) → (input : Option Facts) → Result Bool
  can_touch_proposed_case_too kind case_id none = ok true
  can_touch_proposed_case_too kind case_id (some r) =
      case_id_of b kind (some r) proposed >>= λ next. touch_proposed case_id (truthy next)

  abbrev pub create_content : (case_id : Option Text) → Result Decision
  create_content none = ok allow
  create_content (some id) =
      permit (can_touch_case_content b m (some id) true)
        "Only case members and partners may work this matter"

  -- A create of content: the role first, then the case it names.
  abbrev pub content_create : (case_id : Option Text) → Result Decision
  content_create case_id =
      unless (on_firm b m Relation.case_workers) "Office staff do not work case content"
        (create_content case_id)

  abbrev pub row_arm : (library : Bool) → (case_id : Option Text) → Result Decision
  row_arm true case_id = works_cases
  row_arm false case_id =
      permit (can_touch_case_content b m case_id true)
        "Only case members and partners may work this matter"

  -- The operations on one row: the library arm, or the case.
  abbrev pub content_row : Kind → (case_id : Option Text) → Result Decision
  content_row kind case_id = row_arm (has_library kind && not (is_some (truthy case_id))) case_id

  abbrev pub content_operation :
      Kind → Operation → (case_id : Option Text) → (input : Option Facts) → Result Decision
  content_operation kind create case_id input = content_create case_id
  content_operation kind list case_id input = works_cases
  content_operation kind update case_id input =
      unless (can_touch_proposed_case_too kind case_id input)
        "Only case members and partners may work this matter" (content_row kind case_id)
  content_operation kind _ case_id input = content_row kind case_id

  unfoldable pub content_cell :
      Kind → Operation → (case_id : Option Text) → (input : Option Facts) → Result Decision
  content_cell Kind.document record_extraction case_id input =
      ok (deny (says "Extraction status is system-written"))
  content_cell kind operation case_id input = content_operation kind operation case_id input

  unfoldable pub task_comment_cell : Operation → (case_id : Option Text) → Result Decision
  task_comment_cell list case_id = works_cases
  task_comment_cell create case_id =
      unless (on_firm b m Relation.case_workers) "Office staff do not view case content"
        (create_content case_id)
  task_comment_cell _ case_id =
      permit (can_touch_case_content b m case_id true)
        "Only case members and partners may work this matter"

  unfoldable pub document_page_cell : Operation → (case_id : Option Text) → Result Decision
  document_page_cell list case_id = works_cases
  document_page_cell search case_id = works_cases
  document_page_cell get case_id =
      if is_some (truthy case_id)
      then permit (can_touch_case_content b m case_id true)
          "Only case members and partners may view case content"
      else works_cases
  document_page_cell _ case_id = ok (deny (says "Document pages are system-written"))

  abbrev pub create_deadline : (case_id : Option Text) → Result Decision
  create_deadline none = ok allow
  create_deadline (some id) =
      permit (can_touch_case_content b m (some id) false)
        "Only lawyers on this matter (or partners) may do this"

  abbrev pub owns_or_partner : (resource : Option Facts) → Result Decision
  owns_or_partner resource =
      permit
        (on_firm b m Relation.partners >>= λ partner.
          ok (partner || same (field (λ r. r.owner_id) resource) m.id))
        "Only the deadline's owner or a partner may change it"

  unfoldable pub deadline_cell :
      Operation → (case_id : Option Text) → (resource : Option Facts) → Result Decision
  deadline_cell create case_id resource =
      unless (on_firm b m Relation.lawyers) "Only lawyers may enter deadlines"
        (create_deadline case_id)
  deadline_cell update case_id resource = owns_or_partner resource
  deadline_cell update_status case_id resource = owns_or_partner resource
  deadline_cell get case_id resource =
      permit (can_touch_case_content b m case_id true)
        "Only case members and partners may view case content"
  deadline_cell list case_id resource = works_cases
  deadline_cell operation case_id resource = ok (deny (not_permitted Kind.deadline operation))

  abbrev pub staff_ledger : (input : Option Facts) → (staff : Bool) → Result Decision
  staff_ledger input true =
      permit (ok (is_receipt (entry_kind_of input))) "Office staff may record receipts only"
  staff_ledger input false =
      ok (deny (says "Only partners and office staff may record ledger entries"))

  abbrev pub record_ledger : (input : Option Facts) → (partner : Bool) → Result Decision
  record_ledger input true = ok allow
  record_ledger input false = on_firm b m Relation.office_staff >>= staff_ledger input

  unfoldable pub ledger_entry_cell : Operation → (input : Option Facts) → Result Decision
  ledger_entry_cell create input = on_firm b m Relation.partners >>= record_ledger input
  ledger_entry_cell _ input =
      permit (on_firm b m Relation.can_view_money) "The ledger is visible to partners only"

  unfoldable pub notification_cell : Operation → (resource : Option Facts) → Result Decision
  notification_cell create resource = ok (deny (says "Notifications are system-written"))
  notification_cell mark_read resource =
      permit (ok (same (field (λ r. r.recipient_id) resource) (some m.user_id)))
        "Only the recipient may mark a notification read"
  notification_cell _ resource = ok allow

  unfoldable pub audit_entry_cell : Operation → Result Decision
  audit_entry_cell list =
      permit (on_firm b m Relation.can_view_audit) "Change history is visible to partners only"
  audit_entry_cell _ = ok (deny (says "Audit entries are system-written"))

  -- The `switch (kind)`.
  unfoldable pub cell :
      Kind → Operation → (case_id : Option Text) → (resource input : Option Facts) → Result Decision
  cell Kind.user op case_id resource input = user_cell op resource
  cell Kind.firm_member op case_id resource input = firm_member_cell op
  cell Kind.client op case_id resource input = client_cell op
  cell Kind.citation op case_id resource input = works_cases
  cell Kind.matter op case_id resource input = case_cell op case_id
  cell Kind.case_member op case_id resource input = case_member_cell op case_id
  cell Kind.hearing op case_id resource input = content_cell Kind.hearing op case_id input
  cell Kind.case_note op case_id resource input = content_cell Kind.case_note op case_id input
  cell Kind.document op case_id resource input = content_cell Kind.document op case_id input
  cell Kind.document_annotation op case_id resource input =
      content_cell Kind.document_annotation op case_id input
  cell Kind.citation_use op case_id resource input = content_cell Kind.citation_use op case_id input
  cell Kind.task op case_id resource input = content_cell Kind.task op case_id input
  cell Kind.task_comment op case_id resource input = task_comment_cell op case_id
  cell Kind.document_page op case_id resource input = document_page_cell op case_id
  cell Kind.deadline op case_id resource input = deadline_cell op case_id resource
  cell Kind.fee_arrangement op case_id resource input =
      permit (on_firm b m Relation.can_view_money) "Fee arrangements are visible to partners only"
  cell Kind.ledger_entry op case_id resource input = ledger_entry_cell op input
  cell Kind.notification op case_id resource input = notification_cell op resource
  cell Kind.audit_entry op case_id resource input = audit_entry_cell op
  cell (Kind.other k) op case_id resource input = ok (deny (not_permitted (Kind.other k) op))

  -- The case a content rule asks about: the fact when there is one, else the proposal.
  abbrev pub subject_case : Kind → (resource input : Option Facts) → Result (Option Text)
  subject_case kind none input = case_id_of b kind input proposed
  subject_case kind (some r) input = case_id_of b kind (some r) stored

  -- `authorizeUser`
  unfoldable pub authorize_user :
      Kind → Operation → (resource input : Option Facts) → Result Decision
  authorize_user kind op resource input =
      subject_case kind resource input >>= λ case_id. cell kind op case_id resource input
