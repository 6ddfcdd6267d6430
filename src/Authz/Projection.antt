-- ===== src/Authz/Projection.antt =====
-- apps/law/backend/src/domain/authz/tuples.ts: how the firm's rows become the engine's tuples, in full
-- and as the change that one write makes. The lists of rows are what `listAll` has read. A string that
-- is undefined in the source is empty here: the code treats both alike.
use stigmer_apps.Common.{
  Text, codes, text_eq, if◌then◌else◌, Bool, true, false, ◌&&◌, List, [], ◌∷◌, ◌++◌, Option, none,
  some, or_undefined, Table, table_get, table_set,
}
use stigmer_apps.ResourceApi.Effects.{Result, ok, throw}
use stigmer_apps.Authz.Results.{◌>>=◌}
use stigmer_apps.Authz.Vocabulary.{firm_object, user_ref, case_ref}
use stigmer_apps.Authz.Reconcile.{TupleKey}
pub mod Deltas
pub mod Sound

pub data FirmRole : Type 0 where
  unspecified managing_partner partner associate junior clerk office_staff : FirmRole

pub record MemberSpec : Type 0 where
  pub user_id : Text
  pub active : Option Bool
  pub role : FirmRole

pub record MemberRow : Type 0 where
  pub id : Text
  pub spec : Option MemberSpec

pub record CaseRow : Type 0 where
  pub id : Text
  pub lead_lawyer_id : Text

pub record MembershipRow : Type 0 where
  pub active : Option Bool
  pub case_id : Text
  pub member_id : Text

-- `ROLE_RELATIONS`
abbrev pub role_relation : FirmRole → Option Text
role_relation FirmRole.unspecified = none
role_relation FirmRole.managing_partner = some (codes "managing_partner")
role_relation FirmRole.partner = some (codes "partner")
role_relation FirmRole.associate = some (codes "associate")
role_relation FirmRole.junior = some (codes "junior")
role_relation FirmRole.clerk = some (codes "clerk")
role_relation FirmRole.office_staff = some (codes "office_staff")

-- `x === true` of an explicit-presence bool
abbrev pub is_true : Option Bool → Bool
is_true none = false
is_true (some b) = b

abbrev pub role_tuple : (user relation : Text) → TupleKey
role_tuple user relation = record {
  user = user_ref user;
  relation = relation;
  object = firm_object;
}

abbrev pub role_of : (user relation : Option Text) → Option TupleKey
role_of none relation = none
role_of (some user) none = none
role_of (some user) (some relation) = some (role_tuple user relation)

abbrev pub active_role : MemberSpec → Option TupleKey
active_role s =
    if is_true s.active then role_of (or_undefined s.user_id) (role_relation s.role) else none

-- `firmMemberRoleTuple`
unfoldable pub firm_member_role_tuple : MemberRow → Option TupleKey
firm_member_role_tuple m = elim m.spec [ none ↦ none | some s ↦ active_role s ]

abbrev pub case_firm_tuple : (case_id : Text) → TupleKey
case_firm_tuple case_id = record {
  user = firm_object;
  relation = codes "firm";
  object = case_ref case_id;
}

abbrev pub case_member_tuple : (user case_id : Text) → TupleKey
case_member_tuple user case_id = record {
  user = user_ref user;
  relation = codes "member";
  object = case_ref case_id;
}

abbrev pub case_lead_tuple : (user case_id : Text) → TupleKey
case_lead_tuple user case_id = record {
  user = user_ref user;
  relation = codes "lead";
  object = case_ref case_id;
}

abbrev pub listed : {A : Type 0} → Option A → List A
listed none = []
listed (some a) = a ∷ []

abbrev pub member_user : MemberRow → Option Text
member_user m = elim m.spec [ none ↦ none | some s ↦ or_undefined s.user_id ]

abbrev pub enter : (id user : Option Text) → Table Text → Table Text
enter none user t = t
enter (some id) none t = t
enter (some id) (some user) t = table_set id user t

-- `userOf`, from every row, onto the entries there are
unfoldable pub users_of : Table Text → List MemberRow → Table Text
users_of t [] = t
users_of t (m ∷ members) = users_of (enter (or_undefined m.id) (member_user m) t) members

unfoldable pub role_tuples : List MemberRow → List TupleKey
role_tuples [] = []
role_tuples (m ∷ members) = listed (firm_member_role_tuple m) ++ role_tuples members

-- `if (leadUserId) …`
abbrev pub truthy_user : Option Text → Option Text
truthy_user none = none
truthy_user (some user) = or_undefined user

abbrev pub lead_tuples : (user : Option Text) → (case_id : Text) → List TupleKey
lead_tuples none case_id = []
lead_tuples (some user) case_id = case_lead_tuple user case_id ∷ []

abbrev pub tuples_of_case : Table Text → CaseRow → (id : Option Text) → List TupleKey
tuples_of_case users c none = []
tuples_of_case users c (some id) =
    case_firm_tuple id ∷ lead_tuples (truthy_user (table_get c.lead_lawyer_id users)) id

unfoldable pub case_tuples : Table Text → List CaseRow → List TupleKey
case_tuples users [] = []
case_tuples users (c ∷ cases) =
    tuples_of_case users c (or_undefined c.id) ++ case_tuples users cases

abbrev pub member_tuples : (case_id user : Option Text) → List TupleKey
member_tuples none user = []
member_tuples (some id) none = []
member_tuples (some id) (some user) = case_member_tuple user id ∷ []

abbrev pub tuples_of_membership : Table Text → MembershipRow → (active : Bool) → List TupleKey
tuples_of_membership users s false = []
tuples_of_membership users s true =
    member_tuples (or_undefined s.case_id) (truthy_user (table_get s.member_id users))

unfoldable pub membership_tuples : Table Text → List MembershipRow → List TupleKey
membership_tuples users [] = []
membership_tuples users (s ∷ rows) =
    tuples_of_membership users s (is_true s.active) ++ membership_tuples users rows

-- `projectAuthorizationTuples`
unfoldable pub project_authorization_tuples :
    List MemberRow → List CaseRow → List MembershipRow → List TupleKey
project_authorization_tuples members cases memberships =
    role_tuples members
    ++ (case_tuples (users_of [] members) cases
        ++ membership_tuples (users_of [] members) memberships)

pub record TupleDelta : Type 0 where
  pub writes : List TupleKey
  pub deletes : List TupleKey

abbrev pub no_delta : TupleDelta
no_delta = record { writes = []; deletes = [] }

-- `sameTuple`
unfoldable pub same_tuple : Option TupleKey → Option TupleKey → Bool
same_tuple none none = true
same_tuple none (some b) = false
same_tuple (some a) none = false
same_tuple (some a) (some b) =
    text_eq a.user b.user && text_eq a.relation b.relation && text_eq a.object b.object

abbrev pub role_before : Option MemberRow → Option TupleKey
role_before none = none
role_before (some m) = firm_member_role_tuple m

-- `firmMemberTupleDelta`
unfoldable pub firm_member_tuple_delta : Option MemberRow → MemberRow → TupleDelta
firm_member_tuple_delta previous next =
    if same_tuple (role_before previous) (firm_member_role_tuple next) then no_delta else record {
      writes = listed (firm_member_role_tuple next);
      deletes = listed (role_before previous);
    }

-- `firm_member` is `store.getById("FirmMember", …)`.
module _ (firm_member : Text → Result (Option MemberRow)) where
  abbrev pub user_of_row : Option MemberRow → Option Text
  user_of_row none = none
  user_of_row (some m) = member_user m

  -- `resolveMemberUserId`
  unfoldable pub resolve_member_user_id : (member_id : Text) → Result (Option Text)
  resolve_member_user_id member_id = elim (or_undefined member_id) [
    | none ↦ ok none
    | some id ↦ firm_member id >>= λ row. ok (user_of_row row)
  ]

  abbrev pub lead_delta :
      (case_id : Text)
      → (writes : List TupleKey) → (same : Bool) → (previous next : Text) → Result TupleDelta
  lead_delta case_id writes true previous next = ok (record { writes = writes; deletes = [] })
  lead_delta case_id writes false previous next = resolve_member_user_id previous >>= λ before.
      resolve_member_user_id next >>= λ after. ok (record {
        writes = writes ++ lead_tuples after case_id;
        deletes = lead_tuples before case_id;
      })

  abbrev pub lead_of : Option CaseRow → Text
  lead_of none = []
  lead_of (some c) = c.lead_lawyer_id

  abbrev pub link_of : Option CaseRow → (case_id : Text) → List TupleKey
  link_of none case_id = case_firm_tuple case_id ∷ []
  link_of (some c) case_id = []

  -- `caseTupleDelta`
  unfoldable pub case_tuple_delta : Option CaseRow → CaseRow → Result TupleDelta
  case_tuple_delta previous next = elim (or_undefined next.id) [
    | none ↦ ok no_delta
    | some id ↦
        lead_delta id (link_of previous id) (text_eq (lead_of previous) next.lead_lawyer_id)
          (lead_of previous) next.lead_lawyer_id
  ]

  abbrev pub was_active : Option MembershipRow → Bool
  was_active none = false
  was_active (some s) = is_true s.active

  abbrev pub activation : (is_active : Bool) → List TupleKey → TupleDelta
  activation true ts = record { writes = ts; deletes = [] }
  activation false ts = record { writes = []; deletes = ts }

  abbrev pub changed_membership : (was_active is_active : Bool) → MembershipRow → Result TupleDelta
  changed_membership true true s = ok no_delta
  changed_membership false false s = ok no_delta
  changed_membership _ now s = resolve_member_user_id s.member_id >>= λ user.
      ok (activation now (member_tuples (or_undefined s.case_id) user))

  -- `caseMemberTupleDelta`
  unfoldable pub case_member_tuple_delta : Option MembershipRow → MembershipRow → Result TupleDelta
  case_member_tuple_delta previous next =
      changed_membership (was_active previous) (is_true next.active) next
