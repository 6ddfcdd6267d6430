-- ===== src/Authz/Vocabulary.antt =====
-- The words of the firm's authorization: resource kinds and operations, which the source spells as
-- strings and compares with literals, the relations of model.ts, and the references of tuples.ts
-- (packages/authorization/src/tuples.ts).
use stigmer_apps.Common.{
  Text, codes, ◌++◌, ◌∷◌, [], Option, none, some, if◌then◌else◌, ◌==◌, String,
}

-- `other` is any string that no branch of the policy names.
pub data Kind : Type 0 where
  user firm_member client citation matter case_member hearing case_note document : Kind
  document_annotation citation_use task task_comment document_page deadline : Kind
  fee_arrangement ledger_entry notification audit_entry : Kind
  other : Text → Kind

pub data Operation : Type 0 where
  create update get list search update_status remove : Operation
  issue_activation_code set_password record_extraction mark_read : Operation
  another : Text → Operation

-- The relation names of the model, on the firm and on a case.
pub data Relation : Type 0 where
  managing_partner partner associate junior clerk office_staff : Relation
  partners lawyers case_workers : Relation
  can_manage_firm_members can_create_case can_manage_clients can_view_clients : Relation
  can_list_cases can_view_money can_record_ledger can_view_audit : Relation
  firm member lead : Relation
  can_work_content can_enter_deadline can_edit can_manage_members : Relation

-- The sentence of a refusal.
pub data Reason : Type 0 where
  says : String → Reason
  not_permitted : Kind → Operation → Reason
  system_may_not : Operation → Kind → Reason

pub data Decision : Type 0 where
  allow : Decision
  deny : Reason → Decision

-- `ref`
unfoldable pub ref : (type id : Text) → Text
ref type id = type ++ b':' ∷ id

-- `idOf`: what stands behind the first colon, or the whole reference.
after_colon : Text → Option Text
after_colon [] = none
after_colon (c ∷ cs) = if c == b':' then some cs else after_colon cs

unfoldable pub id_of : Text → Text
unfolding after_colon
id_of reference = elim (after_colon reference) [ none ↦ reference | some id ↦ id ]

abbrev pub firm_object : Text
firm_object = ref (codes "firm") (codes "firm")

abbrev pub user_ref : Text → Text
user_ref = ref (codes "user")

abbrev pub case_ref : Text → Text
case_ref = ref (codes "case")
