-- ===== src/Authz/Policy/Content.antt =====
-- Case content under the firm policy (apps/law/backend/src/domain/authz/policy.ts): what a member who
-- moves a row between matters must be able to work.
use native.Mathlib.Omega.{arith}
use stigmer_apps.Common.{
  Text, Bool, true, false, Option, none, some, ◌≡◌, refl, ◌⊎◌, inl, inr, String, ◌&&◌, not, is_some,
}
use stigmer_apps.ResourceApi.Effects.{Result, ok, throw}
use stigmer_apps.Authz.Results.{>>=-eq-ok}
use stigmer_apps.Authz.Vocabulary.{Kind, Operation, Relation, Decision, allow}
use stigmer_apps.Authz.Policy.{
  FirmMember, Facts, Backend, stored, proposed, truthy, same, on_firm, can_touch_case_content,
  case_id_of,
}
use stigmer_apps.Authz.Policy.Cells.{
  cell, content_cell, authorize_user, unless, touch_proposed, content_row, has_library,
  create_content, row_arm, touch_other, can_touch_proposed_case_too,
}
use stigmer_apps.Authz.Policy.Access.{permit-eq-allow}

pub data IsContent : Kind → Type 0 where
  hearing : IsContent Kind.hearing
  case_note : IsContent Kind.case_note
  document : IsContent Kind.document
  document_annotation : IsContent Kind.document_annotation
  citation_use : IsContent Kind.citation_use
  task : IsContent Kind.task

unless-eq-allow :
    (r : Result Bool) (reason : String) (rest : Result Decision)
    → unless r reason rest ≡ ok allow
    → (r ≡ ok true) × (rest ≡ ok allow)
unless-eq-allow (ok true) reason rest h = (refl, h)
unless-eq-allow (ok false) reason rest h = cc
unless-eq-allow (throw f) reason rest h = cc

-- The row a member works: of a matter that they may touch, or of the firm's library.
pub data MayWorkRow (b : Backend) (m : FirmMember) (kind : Kind) (case_id : Option Text)
    : Type 0 where
  touches : can_touch_case_content b m case_id true ≡ ok true → MayWorkRow b m kind case_id
  library :
      has_library kind ≡ true
      → truthy case_id ≡ none
      → on_firm b m Relation.case_workers ≡ ok true
      → MayWorkRow b m kind case_id

arm-grounds :
    (b : Backend) (m : FirmMember) (kind : Kind) (case_id : Option Text) (library : Bool)
    → (has_library kind && not (is_some (truthy case_id))) ≡ library
    → row_arm b m library case_id ≡ ok allow
    → MayWorkRow b m kind case_id
arm-grounds b m kind case_id false e h = MayWorkRow.touches (permit-eq-allow _ _ h)
arm-grounds b m kind case_id true e h =
    MayWorkRow.library (ground (arith, e)) (no_case (truthy case_id) (ground (arith, e)))
      (permit-eq-allow _ _ h)
  where
    no_case : (id : Option Text) → is_some id ≡ false → id ≡ none
    no_case none e = refl
    no_case (some id) e = cc

-- The matter a row moves to: none, the matter it is in, or one that the member may work.
pub data MayMoveTo (b : Backend) (m : FirmMember) (current : Option Text)
    : Option Text → Type 0 where
  nowhere : MayMoveTo b m current none
  stays : (next : Text) → same (some next) current ≡ true → MayMoveTo b m current (some next)
  touches :
      (next : Text)
      → can_touch_case_content b m (some next) true ≡ ok true
      → MayMoveTo b m current (some next)

touch_other-grounds :
    (b : Backend) (m : FirmMember) (current : Option Text) (next : Text) (unchanged : Bool)
    → same (some next) current ≡ unchanged
    → touch_other b m unchanged next ≡ ok true
    → MayMoveTo b m current (some next)
touch_other-grounds b m current next true e h = MayMoveTo.stays next e
touch_other-grounds b m current next false e h = MayMoveTo.touches next h

touch_proposed-grounds :
    (b : Backend) (m : FirmMember) (current next : Option Text)
    → touch_proposed b m current next ≡ ok true
    → MayMoveTo b m current next
touch_proposed-grounds b m current none h = MayMoveTo.nowhere
touch_proposed-grounds b m current (some next) h = touch_other-grounds b m current next _ refl h

content_cell-update :
    (b : Backend) (m : FirmMember) {kind : Kind} (current : Option Text) (r i : Option Facts)
    → IsContent kind
    → cell b m kind Operation.update current r i ≡ ok allow
    → (can_touch_proposed_case_too b m kind current i ≡ ok true)
      × (content_row b m kind current ≡ ok allow)
unfolding cell content_cell
content_cell-update b m current r i hearing h = unless-eq-allow _ _ _ h
content_cell-update b m current r i case_note h = unless-eq-allow _ _ _ h
content_cell-update b m current r i document h = unless-eq-allow _ _ _ h
content_cell-update b m current r i document_annotation h = unless-eq-allow _ _ _ h
content_cell-update b m current r i citation_use h = unless-eq-allow _ _ _ h
content_cell-update b m current r i task h = unless-eq-allow _ _ _ h

content_cell-create :
    (b : Backend) (m : FirmMember) {kind : Kind} (current : Option Text) (r i : Option Facts)
    → IsContent kind
    → cell b m kind Operation.create current r i ≡ ok allow
    → (on_firm b m Relation.case_workers ≡ ok true) × (create_content b m current ≡ ok allow)
unfolding cell content_cell
content_cell-create b m current r i hearing h = unless-eq-allow _ _ _ h
content_cell-create b m current r i case_note h = unless-eq-allow _ _ _ h
content_cell-create b m current r i document h = unless-eq-allow _ _ _ h
content_cell-create b m current r i document_annotation h = unless-eq-allow _ _ _ h
content_cell-create b m current r i citation_use h = unless-eq-allow _ _ _ h
content_cell-create b m current r i task h = unless-eq-allow _ _ _ h

-- A member who is allowed to update a piece of case content may work the row where it stands (its
-- matter, or the firm's library for a document or a mark without a matter), and, where the proposal
-- names another matter, may work that one as well.
pub moved_content :
    (b : Backend) (m : FirmMember) (kind : Kind) (r i : Facts)
    → IsContent kind
    → authorize_user b m kind Operation.update (some r) (some i) ≡ ok allow
    → (current next : Option Text) × (case_id_of b kind (some r) stored ≡ ok current)
      × (case_id_of b kind (some i) proposed ≡ ok next)
      × MayWorkRow b m kind current
      × MayMoveTo b m current (truthy next)
unfolding authorize_user
moved_content b m kind r i content h =
    let (current, e, k) = >>=-eq-ok (case_id_of b kind (some r) stored) _ h in
    let (moves, works) = content_cell-update b m current (some r) (some i) content k in
    let (next, e', k') = >>=-eq-ok (case_id_of b kind (some i) proposed) _ moves in
    (
      current,
      next,
      e,
      e',
      arm-grounds b m kind current _ refl works,
      touch_proposed-grounds b m current (truthy next) k',
    )

created_in :
    (b : Backend) (m : FirmMember) (current : Option Text)
    → create_content b m current ≡ ok allow
    → (current ≡ none) ⊎ (can_touch_case_content b m current true ≡ ok true)
created_in b m none h = inl refl
created_in b m (some id) h = inr (permit-eq-allow _ _ h)

-- A member who is allowed to create a piece of case content is of the case workers, and may work the
-- matter that the proposal belongs to, if it belongs to one.
pub created_content :
    (b : Backend) (m : FirmMember) (kind : Kind) (i : Facts)
    → IsContent kind
    → authorize_user b m kind Operation.create none (some i) ≡ ok allow
    → (on_firm b m Relation.case_workers ≡ ok true)
      × ((current : Option Text) × (case_id_of b kind (some i) proposed ≡ ok current)
          × ((current ≡ none) ⊎ (can_touch_case_content b m current true ≡ ok true)))
unfolding authorize_user
created_content b m kind i content h =
    let (current, e, k) = >>=-eq-ok (case_id_of b kind (some i) proposed) _ h in
    let (works, reaches) = content_cell-create b m current none (some i) content k in
    (works, (current, e, created_in b m current reaches))
