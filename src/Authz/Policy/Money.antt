-- ===== src/Authz/Policy/Money.antt =====
-- The money boundary of the firm policy (apps/law/backend/src/domain/authz/policy.ts, FR-AUTHZ-004).
use stigmer_apps.Common.{Text, Bool, true, false, Option, some, ◌≡◌, refl, subst}
use stigmer_apps.ResourceApi.Effects.{ok}
use stigmer_apps.ResourceApi.Envelope.{CallerPrincipal, PrincipalKind}
use stigmer_apps.Authz.Results.{>>=-eq-ok}
use stigmer_apps.Authz.Vocabulary.{Kind, Operation, Relation, allow}
use stigmer_apps.Authz.Policy.{FirmMember, Facts, Backend, on_firm, member_of}
use stigmer_apps.Authz.Policy.Cells.{
  cell, ledger_entry_cell, is_receipt, entry_kind_of, record_ledger, staff_ledger,
}
use stigmer_apps.Authz.Policy.Decide.{
  authorize, authorize_operator, authorize_system, authorize_caller,
}
use stigmer_apps.Authz.Policy.Access.{permit-eq-allow, authorize-user-member, cell_of_user, ok-inj}

-- The two kinds that hold money.
pub data IsMoney : Kind → Type 0 where
  fees : IsMoney Kind.fee_arrangement
  ledger : IsMoney Kind.ledger_entry

-- The grounds on which a member may touch money: the firm's partners, or a receipt that the office
-- staff record.
pub data MayTouchMoney (b : Backend) (m : FirmMember)
    : Kind → Operation → Option Facts → Type 0 where
  views :
      {kind : Kind} {op : Operation} {input : Option Facts}
      → on_firm b m Relation.can_view_money ≡ ok true
      → MayTouchMoney b m kind op input
  records :
      {input : Option Facts}
      → on_firm b m Relation.partners ≡ ok true
      → MayTouchMoney b m Kind.ledger_entry Operation.create input
  receipts :
      {input : Option Facts}
      → on_firm b m Relation.office_staff ≡ ok true
      → is_receipt (entry_kind_of input) ≡ true
      → MayTouchMoney b m Kind.ledger_entry Operation.create input

staff_records :
    (b : Backend) (m : FirmMember) (input : Option Facts) (staff : Bool)
    → on_firm b m Relation.office_staff ≡ ok staff
    → staff_ledger b m input staff ≡ ok allow
    → MayTouchMoney b m Kind.ledger_entry Operation.create input
staff_records b m input false e h = cc
staff_records b m input true e h = MayTouchMoney.receipts e (ok-inj (permit-eq-allow _ _ h))

recorded :
    (b : Backend) (m : FirmMember) (input : Option Facts) (partner : Bool)
    → on_firm b m Relation.partners ≡ ok partner
    → record_ledger b m input partner ≡ ok allow
    → MayTouchMoney b m Kind.ledger_entry Operation.create input
recorded b m input true e h = MayTouchMoney.records e
recorded b m input false e h =
    let (staff, e', k) = >>=-eq-ok (on_firm b m Relation.office_staff) _ h in
    staff_records b m input staff e' k

ledger_grounds :
    (b : Backend) (m : FirmMember) (op : Operation) (input : Option Facts)
    → ledger_entry_cell b m op input ≡ ok allow
    → MayTouchMoney b m Kind.ledger_entry op input
unfolding ledger_entry_cell
ledger_grounds b m Operation.create input h =
    let (partner, e, k) = >>=-eq-ok (on_firm b m Relation.partners) _ h in
    recorded b m input partner e k
ledger_grounds b m Operation.update input h = MayTouchMoney.views (permit-eq-allow _ _ h)
ledger_grounds b m Operation.get input h = MayTouchMoney.views (permit-eq-allow _ _ h)
ledger_grounds b m Operation.list input h = MayTouchMoney.views (permit-eq-allow _ _ h)
ledger_grounds b m Operation.search input h = MayTouchMoney.views (permit-eq-allow _ _ h)
ledger_grounds b m Operation.update_status input h = MayTouchMoney.views (permit-eq-allow _ _ h)
ledger_grounds b m Operation.remove input h = MayTouchMoney.views (permit-eq-allow _ _ h)
ledger_grounds b m Operation.issue_activation_code input h =
    MayTouchMoney.views (permit-eq-allow _ _ h)
ledger_grounds b m Operation.set_password input h = MayTouchMoney.views (permit-eq-allow _ _ h)
ledger_grounds b m Operation.record_extraction input h = MayTouchMoney.views (permit-eq-allow _ _ h)
ledger_grounds b m Operation.mark_read input h = MayTouchMoney.views (permit-eq-allow _ _ h)
ledger_grounds b m (Operation.another o) input h = MayTouchMoney.views (permit-eq-allow _ _ h)

money_grounds :
    (b : Backend) (m : FirmMember) {kind : Kind} (op : Operation) (case_id : Option Text)
    (r i : Option Facts)
    → IsMoney kind
    → cell b m kind op case_id r i ≡ ok allow
    → MayTouchMoney b m kind op i
unfolding cell
money_grounds b m op case_id r i IsMoney.fees h = MayTouchMoney.views (permit-eq-allow _ _ h)
money_grounds b m op case_id r i IsMoney.ledger h = ledger_grounds b m op i h

operator_no_money :
    {kind : Kind} (op : Operation) → IsMoney kind → ¬ (authorize_operator kind op ≡ allow)
unfolding authorize_operator
operator_no_money op IsMoney.fees h = cc
operator_no_money op IsMoney.ledger h = cc

system_no_money :
    {kind : Kind} (op : Operation) → IsMoney kind → ¬ (authorize_system kind op ≡ allow)
unfolding authorize_system
system_no_money op IsMoney.fees h = cc
system_no_money op IsMoney.ledger h = cc

abbrev pub HasMoneyGrounds : Backend → CallerPrincipal → Kind → Operation → Option Facts → Type 0
HasMoneyGrounds b c kind op input =
    (m : FirmMember) × (member_of b c ≡ ok (some m)) × MayTouchMoney b m kind op input

money_only_as :
    (b : Backend) (c : CallerPrincipal) (k : PrincipalKind) (kind : Kind) (op : Operation)
    (r i : Option Facts)
    → IsMoney kind
    → c.kind ≡ k
    → authorize b (some c) kind op r i ≡ ok allow
    → HasMoneyGrounds b c kind op i
unfolding authorize
money_only_as b c PrincipalKind.system kind op r i w e h =
    absurd (
      system_no_money op w
        (ok-inj (subst (λ k. authorize_caller b c k kind op r i ≡ ok allow) e h)))
money_only_as b c PrincipalKind.operator kind op r i w e h = absurd (
    operator_no_money op w
      (ok-inj (subst (λ k. authorize_caller b c k kind op r i ≡ ok allow) e h)))
money_only_as b c PrincipalKind.user kind op r i w e h =
    let (m, found, allowed) = authorize-user-member b c kind op r i e h in
    let (case_id, k) = cell_of_user b m kind op r i allowed in
    (m, found, money_grounds b m op case_id r i w k)

-- Whoever is allowed any operation on a fee arrangement or a ledger entry is an active member whom
-- the engine grants can_view_money, or, on the creation of a ledger entry, who is a partner, or who is
-- of the office staff and records a receipt. Neither the operator nor the system ever is.
pub money_only :
    (b : Backend) (c : CallerPrincipal) (kind : Kind) (op : Operation) (r i : Option Facts)
    → IsMoney kind
    → authorize b (some c) kind op r i ≡ ok allow
    → HasMoneyGrounds b c kind op i
money_only b c kind op r i w h = money_only_as b c c.kind kind op r i w refl h
