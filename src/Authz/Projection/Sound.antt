-- ===== src/Authz/Projection/Sound.antt =====
-- No grant without a row: what apps/law/backend/src/domain/authz/tuples.ts projects.
use mathlib.Core.List.{Memᴰ}
use mathlib.Core.List.Memᴰ.{head, tail}
use stigmer_apps.Common.{
  Text, text_eq, text_eq_iff, if◌then◌else◌, ◌≡◌, refl, sym, ap, subst, ◌∙◌, Bool, true, false, ◌⊎◌,
  inl, inr, List, [], ◌∷◌, ◌++◌, Option, none, some, or_undefined, All, All-append, Table,
  table_get, table_get-set, arith,
}
use stigmer_apps.Authz.Reconcile.{TupleKey}
use stigmer_apps.Authz.Projection.{
  MemberSpec, role_relation, role_tuple, role_of, active_role, MemberRow, CaseRow, MembershipRow,
  listed, firm_member_role_tuple, member_user, enter, users_of, role_tuples, case_firm_tuple,
  case_lead_tuple, case_member_tuple, truthy_user, lead_tuples, tuples_of_case, case_tuples,
  member_tuples, tuples_of_membership, membership_tuples, is_true, project_authorization_tuples,
}

-- The id is that of a member's row, and the user that row's.
abbrev pub IsUserOf : List MemberRow → (member_id user : Text) → Type 0
IsUserOf members member_id user =
    (m : MemberRow) × Memᴰ m members
    × (or_undefined m.id ≡ some member_id)
    × (member_user m ≡ some user)

-- The rows behind a tuple: a member who is explicitly active, with a user and a role; a case and the firm; the user of a case's lead
-- lawyer; the user of the member of an active membership.
pub data IsJustified (members : List MemberRow) (cases : List CaseRow)
    (memberships : List MembershipRow) : TupleKey → Type 0 where
  role :
      (m : MemberRow) (s : MemberSpec) {user relation : Text}
      → Memᴰ m members
      → m.spec ≡ some s
      → s.active ≡ some true
      → or_undefined s.user_id ≡ some user
      → role_relation s.role ≡ some relation
      → IsJustified members cases memberships (role_tuple user relation)
  link :
      (c : CaseRow) {id : Text}
      → Memᴰ c cases
      → or_undefined c.id ≡ some id
      → IsJustified members cases memberships (case_firm_tuple id)
  lead :
      (c : CaseRow) {id user : Text}
      → Memᴰ c cases
      → or_undefined c.id ≡ some id
      → IsUserOf members c.lead_lawyer_id user
      → IsJustified members cases memberships (case_lead_tuple user id)
  works :
      (s : MembershipRow) {id user : Text}
      → Memᴰ s memberships
      → s.active ≡ some true
      → or_undefined s.case_id ≡ some id
      → IsUserOf members s.member_id user
      → IsJustified members cases memberships (case_member_tuple user id)

is_true-some : (o : Option Bool) → is_true o ≡ true → o ≡ some true
is_true-some none h = cc
is_true-some (some b) h = ap some h

some-inj : {A : Type 0} {x y : A} → ◌≡◌ {A = Option A} (some x) (some y) → x ≡ y
some-inj h = cc

entered :
    (id user : Option Text) (t : Table Text) (k u : Text)
    → table_get k (enter id user t) ≡ some u
    → (table_get k t ≡ some u) ⊎ ((id ≡ some k) × (user ≡ some u))
entered none user t k u h = inl h
entered (some id) none t k u h = inl h
entered (some id) (some user) t k u h =
    set_cases (text_eq id k) refl (sym (table_get-set id k user t) ∙ h)
  where
    set_cases :
        (b : Bool)
        → text_eq id k ≡ b
        → (if b then some user else table_get k t) ≡ some u
        → (table_get k t ≡ some u) ⊎ ((some id ≡ some k) × (some user ≡ some u))
    set_cases true e g = inr (ap some ((text_eq_iff id k).0 e), g)
    set_cases false e g = inl g

found :
    (members : List MemberRow) (t : Table Text) (k u : Text)
    → table_get k (users_of t members) ≡ some u
    → (table_get k t ≡ some u) ⊎ IsUserOf members k u
unfolding users_of
found [] t k u h = inl h
found (m ∷ members) t k u h =
    elim (found members (enter (or_undefined m.id) (member_user m) t) k u h) [
      | inr (n, there, named, used) ↦ inr (n, tail there, named, used)
      | inl earlier ↦ elim (entered (or_undefined m.id) (member_user m) t k u earlier) [
        | inl before ↦ inl before
        | inr (named, used) ↦ inr (m, head refl, named, used)
      ]
    ]

users_of-IsUserOf :
    (members : List MemberRow) (k u : Text)
    → truthy_user (table_get k (users_of [] members)) ≡ some u
    → IsUserOf members k u
unfolding table_get
users_of-IsUserOf members k u h =
    elim (found members [] k u (truthy_user-some (table_get k (users_of [] members)) h)) [
      | inl nothing ↦ absurd (ground (arith, nothing))
      | inr there ↦ there
    ]
  where
    or_undefined-some : (s : Text) {v : Text} → or_undefined s ≡ some v → s ≡ v
    or_undefined-some [] e = cc
    or_undefined-some (c ∷ s) e = ground arith

    truthy_user-some : (o : Option Text) {v : Text} → truthy_user o ≡ some v → o ≡ some v
    truthy_user-some none e = cc
    truthy_user-some (some s) e = ap some (or_undefined-some s e)

module _ (members : List MemberRow) (cases : List CaseRow) (memberships : List MembershipRow) where
  abbrev AllJustified : List TupleKey → Type 0
  AllJustified ts = All (IsJustified members cases memberships) ts

  with_role :
      (m : MemberRow) (t : TupleKey)
      → Memᴰ m members
      → firm_member_role_tuple m ≡ some t
      → IsJustified members cases memberships t
  unfolding firm_member_role_tuple
  with_role m t there h = of_spec m.spec refl h
    where
      of_parts :
          (s : MemberSpec) (user relation : Option Text)
          → m.spec ≡ some s
          → s.active ≡ some true
          → or_undefined s.user_id ≡ user
          → role_relation s.role ≡ relation
          → role_of user relation ≡ some t
          → IsJustified members cases memberships t
      of_parts s none relation es a eu er h = cc
      of_parts s (some user) none es a eu er h = cc
      of_parts s (some user) (some relation) es a eu er h =
          subst (IsJustified members cases memberships) (some-inj h)
            (IsJustified.role m s there es a eu er)

      of_active :
          (s : MemberSpec) (active : Bool)
          → m.spec ≡ some s
          → is_true s.active ≡ active
          → (if active then role_of (or_undefined s.user_id) (role_relation s.role) else none)
            ≡ some t
          → IsJustified members cases memberships t
      of_active s false es a h = cc
      of_active s true es a h =
          of_parts s (or_undefined s.user_id) (role_relation s.role) es (is_true-some s.active a)
            refl refl h

      of_spec :
          (o : Option MemberSpec)
          → m.spec ≡ o
          → elim o [ none ↦ none | some s ↦ active_role s ] ≡ some t
          → IsJustified members cases memberships t
      of_spec none es h = cc
      of_spec (some s) es h = of_active s (is_true s.active) es refl h

  roles :
      (rows : List MemberRow)
      → ((m : MemberRow) → Memᴰ m rows → Memᴰ m members)
      → AllJustified (role_tuples rows)
  unfolding role_tuples
  roles [] within = tt
  roles (m ∷ rows) within =
      All-append _ (listed (firm_member_role_tuple m)) (role_tuples rows)
        (own (firm_member_role_tuple m) refl) (roles rows (λ n there. within n (tail there)))
    where
      own : (t : Option TupleKey) → firm_member_role_tuple m ≡ t → AllJustified (listed t)
      own none e = tt
      own (some t) e = (with_role m t (within m (head refl)) e, tt)

  of_case :
      (c : CaseRow)
      → Memᴰ c cases
      → (id : Option Text) → or_undefined c.id ≡ id
      → AllJustified (tuples_of_case (users_of [] members) c id)
  of_case c there none e = tt
  of_case c there (some id) e = (
    IsJustified.link c there e,
    leads (truthy_user (table_get c.lead_lawyer_id (users_of [] members))) refl,
  )
    where
      leads :
          (user : Option Text)
          → truthy_user (table_get c.lead_lawyer_id (users_of [] members)) ≡ user
          → AllJustified (lead_tuples user id)
      leads none _ = tt
      leads (some user) known =
          (IsJustified.lead c there e (users_of-IsUserOf members c.lead_lawyer_id user known), tt)

  all_cases :
      (rows : List CaseRow)
      → ((c : CaseRow) → Memᴰ c rows → Memᴰ c cases)
      → AllJustified (case_tuples (users_of [] members) rows)
  unfolding case_tuples
  all_cases [] within = tt
  all_cases (c ∷ rows) within =
      All-append _ (tuples_of_case (users_of [] members) c (or_undefined c.id))
        (case_tuples (users_of [] members) rows)
        (of_case c (within c (head refl)) (or_undefined c.id) refl)
        (all_cases rows (λ d there. within d (tail there)))

  of_membership :
      (s : MembershipRow)
      → Memᴰ s memberships
      → (active : Bool) → is_true s.active ≡ active
      → AllJustified (tuples_of_membership (users_of [] members) s active)
  of_membership s there false e = tt
  of_membership s there true e =
      joined (or_undefined s.case_id) (truthy_user (table_get s.member_id (users_of [] members)))
        refl refl
    where
      joined :
          (id user : Option Text)
          → or_undefined s.case_id ≡ id
          → truthy_user (table_get s.member_id (users_of [] members)) ≡ user
          → AllJustified (member_tuples id user)
      joined none user _ _ = tt
      joined (some id) none _ _ = tt
      joined (some id) (some user) named known = (
        IsJustified.works s there (is_true-some s.active e) named
            (users_of-IsUserOf members s.member_id user known),
        tt,
      )

  all_memberships :
      (rows : List MembershipRow)
      → ((s : MembershipRow) → Memᴰ s rows → Memᴰ s memberships)
      → AllJustified (membership_tuples (users_of [] members) rows)
  unfolding membership_tuples
  all_memberships [] within = tt
  all_memberships (s ∷ rows) within =
      All-append _ (tuples_of_membership (users_of [] members) s (is_true s.active))
        (membership_tuples (users_of [] members) rows)
        (of_membership s (within s (head refl)) (is_true s.active) refl)
        (all_memberships rows (λ r there. within r (tail there)))

  -- Each tuple of the projection stands on rows: a role on the row of a member whose `active` is true,
  -- with its user and its role; a link to the firm on a case; a lead on a case and the row of its lead
  -- lawyer; a membership on a membership whose `active` is true and the row of its member.
  pub project_authorization_tuples-IsJustified :
      All
        (IsJustified members cases memberships)
        (project_authorization_tuples members cases memberships)
  unfolding project_authorization_tuples
  project_authorization_tuples-IsJustified =
      All-append _ (role_tuples members)
        (case_tuples (users_of [] members) cases
          ++ membership_tuples (users_of [] members) memberships)
        (roles members (λ _ there. there))
        (All-append _ (case_tuples (users_of [] members) cases)
          (membership_tuples (users_of [] members) memberships) (all_cases cases (λ _ there. there))
          (all_memberships memberships (λ _ there. there)))
