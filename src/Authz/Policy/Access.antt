-- ===== src/Authz/Policy/Access.antt =====
-- Who may act at all under the firm policy of apps/law/backend/src/domain/authz/policy.ts: active
-- members, and the seams of the system; what only the system writes; who sees money.
use stigmer_apps.Common.{
  Text, Bool, true, false, Option, none, some, ◌≡◌, ◌≢◌, refl, ap, String, subst,
}
use stigmer_apps.ResourceApi.Effects.{Result, ok, throw}
use stigmer_apps.ResourceApi.Envelope.{CallerPrincipal, PrincipalKind}
use stigmer_apps.Authz.Results.{>>=-eq-ok}
use stigmer_apps.Authz.Vocabulary.{Kind, Operation, says, allow, deny}
use stigmer_apps.Authz.Policy.{FirmMember, Facts, Backend, permit, is_active, live, member_of}
use stigmer_apps.Authz.Policy.Cells.{
  authorize_user, subject_case, cell, notification_cell, audit_entry_cell, document_page_cell,
  content_cell,
}
use stigmer_apps.Authz.Policy.Decide.{
  authorize, authorize_caller, authorize_member, authorize_operator, require_member,
  assert_case_content, assert_partner, refused,
}

pub permit-eq-allow : (r : Result Bool) (reason : String) → permit r reason ≡ ok allow → r ≡ ok true
permit-eq-allow (ok true) reason h = refl
permit-eq-allow (ok false) reason h = cc
permit-eq-allow (throw f) reason h = cc

-- There is no row for a user, or one that does not say that its member is active.
abbrev pub IsInactive : Option FirmMember → Type 0
IsInactive none = Unit
IsInactive (some m) = m.active ≢ some true

live-IsInactive : (row : Option FirmMember) → IsInactive row → live row ≡ none
live-IsInactive none h = refl
live-IsInactive (some m) h =
    elim m.active as (λ o. m.active ≡ o → is_active m ≡ none) [
      | none ↦ λ e. rw e refl
      | some true ↦ λ e. absurd (h e)
      | some false ↦ λ e. rw e refl
    ]
      refl

member_of-IsInactive :
    (b : Backend) (c : CallerPrincipal) (row : Option FirmMember)
    → b.firm_member c.id ≡ ok row
    → IsInactive row
    → member_of b c ≡ ok none
unfolding member_of
member_of-IsInactive b c row read h = rw read (ap ok (live-IsInactive row h))

-- A user who has no row in the firm, or one whose `active` is false or unset, is denied every
-- operation on every kind, whatever the engine would answer, and the guards that take a caller
-- (requireMember, assertCaseContent, assertPartner) throw PERMISSION_DENIED.
pub inactive_denied :
    (b : Backend) (c : CallerPrincipal) (row : Option FirmMember)
    → c.kind ≡ PrincipalKind.user
    → b.firm_member c.id ≡ ok row
    → IsInactive row
    → ((kind : Kind) (op : Operation) (r i : Option Facts)
        → authorize b (some c) kind op r i
          ≡ ok (deny (says "No active firm membership for this account")))
      × (require_member b c ≡ refused "No active firm membership for this account")
      × ((id : Text) (clerk : Bool)
          → assert_case_content b c id clerk ≡ refused "No active firm membership for this account")
      × (assert_partner b c ≡ refused "No active firm membership for this account")
unfolding authorize require_member assert_case_content assert_partner
inactive_denied b c row user read inactive =
    let absent = member_of-IsInactive b c row read inactive in
    (
      λ kind op r i. simp (user, absent),
      simp (user, absent),
      λ id clerk. simp (user, absent),
      simp (user, absent),
    )

abbrev pub WasAllowed : Backend → Kind → Operation → (r i : Option Facts) → FirmMember → Type 0
WasAllowed b kind op r i m = authorize_user b m kind op r i ≡ ok allow

-- An answer ALLOW to a user comes from the matrix, for an active member.
pub authorize-user-member :
    (b : Backend) (c : CallerPrincipal) (kind : Kind) (op : Operation) (r i : Option Facts)
    → c.kind ≡ PrincipalKind.user
    → authorize b (some c) kind op r i ≡ ok allow
    → (m : FirmMember) × (member_of b c ≡ ok (some m)) × WasAllowed b kind op r i m
unfolding authorize
authorize-user-member b c kind op r i user h =
    let h' = subst (λ k. authorize_caller b c k kind op r i ≡ ok allow) user h in
    let (found, e, k) = >>=-eq-ok (member_of b c) _ h' in under_member found e k
  where
    under_member :
        (found : Option FirmMember)
        → member_of b c ≡ ok found
        → authorize_member b kind op r i found ≡ ok allow
        → (m : FirmMember) × (member_of b c ≡ ok (some m)) × WasAllowed b kind op r i m
    under_member none e k = cc
    under_member (some m) e k = (m, e, k)

pub cell_of_user :
    (b : Backend) (m : FirmMember) (kind : Kind) (op : Operation) (r i : Option Facts)
    → WasAllowed b kind op r i m
    → (case_id : Option Text) × (cell b m kind op case_id r i ≡ ok allow)
unfolding authorize_user
cell_of_user b m kind op r i h =
    let (case_id, _, k) = >>=-eq-ok (subject_case b m kind r i) _ h in (case_id, k)

-- What only the in-process system principal writes.
pub data IsSystemWritten : Kind → Operation → Type 0 where
  notification_create : IsSystemWritten Kind.notification Operation.create
  audit_create : IsSystemWritten Kind.audit_entry Operation.create
  page_create : IsSystemWritten Kind.document_page Operation.create
  page_update : IsSystemWritten Kind.document_page Operation.update
  extraction : IsSystemWritten Kind.document Operation.record_extraction

cell-system-written :
    (b : Backend) (m : FirmMember) {kind : Kind} {op : Operation}
    → IsSystemWritten kind op
    → (case_id : Option Text) (r i : Option Facts) → ¬ (cell b m kind op case_id r i ≡ ok allow)
unfolding cell notification_cell audit_entry_cell document_page_cell content_cell
cell-system-written b m notification_create case_id r i h = cc
cell-system-written b m audit_create case_id r i h = cc
cell-system-written b m page_create case_id r i h = cc
cell-system-written b m page_update case_id r i h = cc
cell-system-written b m extraction case_id r i h = cc

operator-system-written :
    {kind : Kind} {op : Operation}
    → IsSystemWritten kind op
    → ¬ (authorize_operator kind op ≡ allow)
unfolding authorize_operator
operator-system-written notification_create h = cc
operator-system-written audit_create h = cc
operator-system-written page_create h = cc
operator-system-written page_update h = cc
operator-system-written extraction h = cc

pub ok-inj : {A : Type 0} {x y : A} → ◌≡◌ {A = Result A} (ok x) (ok y) → x ≡ y
ok-inj h = cc

system_only_as :
    (b : Backend) (c : CallerPrincipal) (k : PrincipalKind) (kind : Kind) (op : Operation)
    (r i : Option Facts)
    → IsSystemWritten kind op
    → c.kind ≡ k
    → authorize b (some c) kind op r i ≡ ok allow
    → k ≡ PrincipalKind.system
unfolding authorize
system_only_as b c PrincipalKind.system kind op r i w e h = refl
system_only_as b c PrincipalKind.operator kind op r i w e h = absurd (
    operator-system-written w
      (ok-inj (subst (λ k. authorize_caller b c k kind op r i ≡ ok allow) e h)))
system_only_as b c PrincipalKind.user kind op r i w e h =
    let (m, _, allowed) = authorize-user-member b c kind op r i e h in
    let (case_id, k) = cell_of_user b m kind op r i allowed in
    absurd (cell-system-written b m w case_id r i k)

-- Whoever is allowed to create a notification, an audit entry or a document page, to update a page or
-- to record the extraction of a document is the system principal, whatever the engine answers.
pub system_written_only :
    (b : Backend) (c : CallerPrincipal) (kind : Kind) (op : Operation) (r i : Option Facts)
    → IsSystemWritten kind op
    → authorize b (some c) kind op r i ≡ ok allow
    → c.kind ≡ PrincipalKind.system
system_written_only b c kind op r i w h = system_only_as b c c.kind kind op r i w refl h
