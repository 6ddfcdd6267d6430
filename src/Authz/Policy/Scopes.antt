-- ===== src/Authz/Policy/Scopes.antt =====
-- Query scoping under the firm policy (apps/law/backend/src/domain/authz/policy.ts): what a scope
-- lists is what the content gate lets through.
use stigmer_apps.Common.{
  Text, codes, Bool, true, false, List, [], ◌∷◌, All, map, Option, none, some, ◌≡◌, refl, ◌∙◌, ap,
  subst, sym,
}
use stigmer_apps.ResourceApi.Effects.{ok}
use stigmer_apps.Authz.Results.{>>=-eq-ok}
use stigmer_apps.Authz.Vocabulary.{Relation, ref, id_of, user_ref, case_ref}
use stigmer_apps.Authz.Policy.{FirmMember, Backend, on_firm, on_case}
use stigmer_apps.Authz.Policy.Access.{ok-inj}
use stigmer_apps.Authz.Policy.Decide.{visible_case_ids, case_scope}

id_of-case_ref : (id : Text) → id_of (case_ref id) ≡ id
unfolding id_of ref
id_of-case_ref id = refl

-- The promise of the engine's listing: each object it lists is one on which the check succeeds.
abbrev pub IsListed : Backend → FirmMember → Text → Type 0
IsListed b m object =
    (id : Text) × (object ≡ case_ref id)
    × (b.check (user_ref m.user_id) Relation.can_work_content object ≡ ok true)

listed-All :
    (b : Backend) (m : FirmMember) (objects : List Text)
    → All (IsListed b m) objects
    → All (λ id. on_case b m Relation.can_work_content id ≡ ok true) (map id_of objects)
unfolding on_case
listed-All b m [] listed = listed
listed-All b m (o ∷ objects) ((id, e, granted), listed) = (
  ap (λ o. b.check (user_ref m.user_id) Relation.can_work_content (case_ref (id_of o))) e
      ∙ ap (λ x. b.check (user_ref m.user_id) Relation.can_work_content (case_ref x))
          (id_of-case_ref id)
      ∙ ap (b.check (user_ref m.user_id) Relation.can_work_content) (sym e)
      ∙ granted,
  listed-All b m objects listed,
)

-- The scope of a listing, said without the code that computes it: the whole firm to a partner, and to
-- anyone else only cases that the member may work.
abbrev pub IsScope : Backend → FirmMember → Option (List Text) → Type 0
IsScope b m none = on_firm b m Relation.partners ≡ ok true
IsScope b m (some ids) = All (λ id. on_case b m Relation.can_work_content id ≡ ok true) ids

scoped :
    (b : Backend) (m : FirmMember)
    → ((objects : List Text)
        → b.list_objects (user_ref m.user_id) Relation.can_work_content (codes "case") ≡ ok objects
        → All (IsListed b m) objects)
    → (partner : Bool) (scope : Option (List Text)) → on_firm b m Relation.partners ≡ ok partner
    → case_scope b m partner ≡ ok scope
    → IsScope b m scope
scoped b m honest true none e h = e
scoped b m honest true (some ids) e h = cc
scoped b m honest false scope e h =
    let (objects, listed, k) =
      >>=-eq-ok (b.list_objects (user_ref m.user_id) Relation.can_work_content (codes "case")) _
        h in
    subst (IsScope b m) (ok-inj k) (listed-All b m objects (honest objects listed))

-- A query scope that is returned is sound for case content: it is unbounded only for a partner, and
-- otherwise every case in it is one on which the engine grants the member can_work_content; provided
-- that each object the engine lists is a case on which its check succeeds.
pub visible_case_ids-IsScope :
    (b : Backend) (m : FirmMember)
    → ((objects : List Text)
        → b.list_objects (user_ref m.user_id) Relation.can_work_content (codes "case") ≡ ok objects
        → All (IsListed b m) objects)
    → (scope : Option (List Text)) → visible_case_ids b m ≡ ok scope
    → IsScope b m scope
unfolding visible_case_ids
visible_case_ids-IsScope b m honest scope h =
    let (partner, e, k) = >>=-eq-ok (on_firm b m Relation.partners) _ h in
    scoped b m honest partner scope e k
