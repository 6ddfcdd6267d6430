-- ===== src/Authz/Projection/Deltas.antt =====
-- The change that a write of a row makes in the engine agrees with the projection of the row: what
-- apps/law/backend/src/domain/authz/tuples.ts says in its comment on flip-flopping.
use stigmer_apps.Common.{
  Text, text_eq_iff, if◌then◌else◌, ◌≡◌, refl, Bool, true, false, not, ◌&&◌, ◌||◌, List, [], ◌∷◌,
  Option, none, some, or_undefined, arith, subst,
}
use stigmer_apps.ResourceApi.Effects.{Result, ok}
use stigmer_apps.Authz.Results.{◌>>=◌, >>=-eq-ok}
use stigmer_apps.Authz.Reconcile.{TupleKey, tuple_id, has_id}
use stigmer_apps.Authz.Projection.{
  MemberRow, MembershipRow, TupleDelta, no_delta, listed, firm_member_role_tuple, same_tuple,
  role_before, firm_member_tuple_delta, was_active, is_true, activation, changed_membership,
  case_member_tuple_delta, resolve_member_user_id, member_tuples,
}

-- Whether the engine holds the tuple with an identity once a delta is applied to what it held.
abbrev pub after : TupleDelta → (held : List TupleKey) → (id : Text) → Bool
after d held id = has_id id d.writes || (has_id id held && not (has_id id d.deletes))

same_tuple-id : (a b : TupleKey) → same_tuple (some a) (some b) ≡ true → tuple_id a ≡ tuple_id b
unfolding same_tuple tuple_id
same_tuple-id a b h = ground (
  arith,
  text_eq_iff a.user b.user,
  text_eq_iff a.relation b.relation,
  text_eq_iff a.object b.object,
)

role_delta : (before now : Option TupleKey) → (same : Bool) → TupleDelta
role_delta before now same =
    if same then no_delta else record { writes = listed now; deletes = listed before }

changed-agrees :
    (a b : TupleKey) (same : Bool) (id : Text)
    → same_tuple (some a) (some b) ≡ same
    → after (role_delta (some a) (some b) same) (a ∷ []) id ≡ has_id id (b ∷ [])
unfolding role_delta has_id
changed-agrees a b true id e = ground (arith, same_tuple-id a b e)
changed-agrees a b false id e = ground arith

role_delta-agrees :
    (before now : Option TupleKey) (id : Text)
    → after (role_delta before now (same_tuple before now)) (listed before) id
      ≡ has_id id (listed now)
unfolding role_delta has_id same_tuple
role_delta-agrees none none id = refl
role_delta-agrees none (some b) id = ground arith
role_delta-agrees (some a) none id = ground arith
role_delta-agrees (some a) (some b) id = changed-agrees a b (same_tuple (some a) (some b)) id refl

-- The change that the write of a member's row makes, applied to the role tuple of the row before it,
-- leaves the role tuple of the row after it and no other: none for a member who is not active.
pub firm_member_tuple_delta-agrees :
    (previous : Option MemberRow) (next : MemberRow) (id : Text)
    → after (firm_member_tuple_delta previous next) (listed (role_before previous)) id
      ≡ has_id id (listed (firm_member_role_tuple next))
unfolding firm_member_tuple_delta role_delta
firm_member_tuple_delta-agrees previous next id =
    role_delta-agrees (role_before previous) (firm_member_role_tuple next) id

module _ (fm : Text → Result (Option MemberRow)) where
  activation-agrees :
      (now : Bool) (ts : List TupleKey) (id : Text)
      → after (activation fm now ts) (if now then [] else ts) id
        ≡ has_id id (if now then ts else [])
  unfolding has_id
  activation-agrees true ts id = ground arith
  activation-agrees false ts id = ground arith

  -- The tuples that a membership row stands for.
  abbrev pub stands_for : (active : Bool) → MembershipRow → (user : Option Text) → List TupleKey
  stands_for active s user = if active then member_tuples (or_undefined s.case_id) user else []

  activated :
      (now : Bool) (s : MembershipRow) {user : Option Text} {d : TupleDelta} (id : Text)
      → resolve_member_user_id fm s.member_id ≡ ok user
      → (resolve_member_user_id fm s.member_id >>= λ u.
          ok (activation fm now (member_tuples (or_undefined s.case_id) u)))
        ≡ ok d
      → after d (if now then [] else member_tuples (or_undefined s.case_id) user) id
        ≡ has_id id (stands_for now s user)
  activated now s {user} {d} id known h =
      let (u, e, k) = >>=-eq-ok (resolve_member_user_id fm s.member_id) _ h in
      let same : u ≡ user = cc in
      let built : activation fm now (member_tuples (or_undefined s.case_id) user) ≡ d = cc in
      subst
        (λ x.
          after x (if now then [] else member_tuples (or_undefined s.case_id) user) id
          ≡ has_id id (stands_for now s user))
        built (activation-agrees now (member_tuples (or_undefined s.case_id) user) id)

  unchanged :
      (b : Bool) (s : MembershipRow) (user : Option Text) {d : TupleDelta} (id : Text)
      → ◌≡◌ {A = Result TupleDelta} (ok no_delta) (ok d)
      → after d (stands_for b s user) id ≡ has_id id (stands_for b s user)
  unfolding has_id
  unchanged b s user {d} id h =
      let same : no_delta ≡ d = cc in
      subst (λ x. after x (stands_for b s user) id ≡ has_id id (stands_for b s user)) same
        (ground arith)

  membership-agrees :
      (was now : Bool) (s : MembershipRow) {user : Option Text} {d : TupleDelta} (id : Text)
      → resolve_member_user_id fm s.member_id ≡ ok user
      → changed_membership fm was now s ≡ ok d
      → after d (stands_for was s user) id ≡ has_id id (stands_for now s user)
  membership-agrees true true s {user} id known h = unchanged true s user id h
  membership-agrees false false s {user} id known h = unchanged false s user id h
  membership-agrees true false s id known h = activated false s id known h
  membership-agrees false true s id known h = activated true s id known h

  -- The change that the write of a membership makes, applied to the tuple of the membership as it was
  -- (of the same case and member), leaves its tuple exactly if it is active now, where the member's
  -- user can be resolved.
  pub case_member_tuple_delta-agrees :
      (previous : Option MembershipRow) (next : MembershipRow) (user : Option Text) (d : TupleDelta)
      (id : Text)
      → resolve_member_user_id fm next.member_id ≡ ok user
      → case_member_tuple_delta fm previous next ≡ ok d
      → after d (stands_for (was_active fm previous) next user) id
        ≡ has_id id (stands_for (is_true next.active) next user)
  unfolding case_member_tuple_delta
  case_member_tuple_delta-agrees previous next user d id known h =
      membership-agrees (was_active fm previous) (is_true next.active) next id known h
