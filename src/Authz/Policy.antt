-- ===== src/Authz/Policy.antt =====
-- apps/law/backend/src/domain/authz/policy.ts: the firm policy, one function for each kind's cell
-- of the matrix. Every answer is over the store and the engine as they are at the request.
pub mod Cells
pub mod Decide
pub mod Access
pub mod Money
pub mod Content
pub mod Scopes
pub mod Guards
use stigmer_apps.Common.{
  Text, codes, text_eq, if◌then◌else◌, Bool, true, false, ◌&&◌, ◌||◌, List, map, Option, none, some,
  or_undefined, String,
}
use stigmer_apps.ResourceApi.Effects.{Result, ok, throw}
use stigmer_apps.ResourceApi.Envelope.{CallerPrincipal, PrincipalKind}
use stigmer_apps.Authz.Results.{◌>>=◌}
use stigmer_apps.Authz.Vocabulary.{
  Kind, Operation, Relation, Reason, says, not_permitted, system_may_not, Decision, allow, deny,
  id_of, firm_object, user_ref, case_ref,
}

pub data LedgerEntryKind : Type 0 where
  unspecified charge receipt expense : LedgerEntryKind

-- The parts of a FirmMember row that the policy reads; `active` has explicit presence.
pub record FirmMember : Type 0 where
  pub id : Option Text
  pub user_id : Text
  pub active : Option Bool

-- A stored resource or an input as the policy reads it: `undefined` is `none`.
pub record Facts : Type 0 where
  pub id : Option Text
  pub case_id : Option Text
  pub task_id : Option Text
  pub document_id : Option Text
  pub owner_id : Option Text
  pub recipient_id : Option Text
  pub entry_kind : Option LedgerEntryKind

-- The store and the authorization engine. `task_case` and `document_case` are `spec?.caseId` of the
-- row, if there is one.
pub record Backend : Type 0 where
  pub firm_member : (user_id : Text) → Result (Option FirmMember)
  pub task_case : (task_id : Text) → Result (Option Text)
  pub document_case : (document_id : Text) → Result (Option Text)
  pub check : (user : Text) → Relation → (object : Text) → Result Bool
  pub list_objects : (user : Text) → Relation → (type : Text) → Result (List Text)

pub data Provenance : Type 0 where
  stored proposed : Provenance

-- A string that is there and not empty.
abbrev pub truthy : Option Text → Option Text
truthy none = none
truthy (some s) = or_undefined s

-- `a === b` where both may be undefined.
abbrev pub same : Option Text → Option Text → Bool
same none none = true
same none (some _) = false
same (some _) none = false
same (some a) (some b) = text_eq a b

-- `a || b`
abbrev pub or_else : Option Text → Option Text → Option Text
or_else none b = b
or_else (some a) b = some a

-- `allowed ? ALLOW : deny(reason)`
abbrev pub permit : Result Bool → String → Result Decision
permit (throw f) reason = throw f
permit (ok true) reason = ok allow
permit (ok false) reason = ok (deny (says reason))

abbrev pub is_active : FirmMember → Option FirmMember
is_active m = elim m.active [ none ↦ none | some true ↦ some m | some false ↦ none ]

abbrev pub live : Option FirmMember → Option FirmMember
live none = none
live (some m) = is_active m

module _ (b : Backend) where
  -- `memberOf`
  unfoldable pub member_of : CallerPrincipal → Result (Option FirmMember)
  member_of caller = b.firm_member caller.id >>= λ row. ok (live row)

  -- `onFirm`
  unfoldable pub on_firm : FirmMember → Relation → Result Bool
  on_firm m relation = b.check (user_ref m.user_id) relation firm_object

  -- `onCase`
  unfoldable pub on_case : FirmMember → Relation → Text → Result Bool
  on_case m relation case_id = b.check (user_ref m.user_id) relation (case_ref case_id)

  abbrev content_verb : (clerk_allowed : Bool) → Relation
  content_verb true = Relation.can_work_content
  content_verb false = Relation.can_enter_deadline

  -- `canTouchCaseContent`
  unfoldable pub can_touch_case_content :
      FirmMember → Option Text → (clerk_allowed : Bool) → Result Bool
  can_touch_case_content m case_id clerk_allowed = elim (truthy case_id) [
    | none ↦ on_firm m Relation.partners
    | some id ↦ on_case m (content_verb clerk_allowed) id
  ]

  -- `caseIdOfTaskComment`
  case_id_of_task_comment : Facts → Result (Option Text)
  case_id_of_task_comment r = elim (truthy r.task_id) [
    | none ↦ ok none
    | some task_id ↦ b.task_case task_id
  ]

  -- `caseIdOfProposedAnnotation`
  case_id_of_proposed_annotation : Facts → Result (Option Text)
  case_id_of_proposed_annotation r = elim (truthy r.document_id) [
    | none ↦ ok none
    | some document_id ↦
        b.document_case document_id >>= λ c. ok (or_else (truthy c) (truthy r.case_id))
  ]

  -- `CASE_REF`
  abbrev case_ref_of : Kind → Facts → Option Text
  case_ref_of Kind.matter r = r.id
  case_ref_of Kind.case_member r = r.case_id
  case_ref_of Kind.hearing r = r.case_id
  case_ref_of Kind.deadline r = r.case_id
  case_ref_of Kind.fee_arrangement r = r.case_id
  case_ref_of Kind.ledger_entry r = r.case_id
  case_ref_of Kind.task r = r.case_id
  case_ref_of Kind.case_note r = r.case_id
  case_ref_of Kind.document r = r.case_id
  case_ref_of Kind.document_page r = r.case_id
  case_ref_of Kind.document_annotation r = r.case_id
  case_ref_of Kind.citation_use r = r.case_id
  case_ref_of _ r = none

  case_id_of_subject : Kind → Facts → Provenance → Result (Option Text)
  unfolding case_id_of_task_comment case_id_of_proposed_annotation
  case_id_of_subject Kind.task_comment r p = case_id_of_task_comment r
  case_id_of_subject Kind.document_annotation r proposed = case_id_of_proposed_annotation r
  case_id_of_subject kind r p = ok (truthy (case_ref_of kind r))

  -- `caseIdOf`
  unfoldable pub case_id_of : Kind → Option Facts → Provenance → Result (Option Text)
  unfolding case_id_of_subject
  case_id_of kind none p = ok none
  case_id_of kind (some r) p = case_id_of_subject kind r p
