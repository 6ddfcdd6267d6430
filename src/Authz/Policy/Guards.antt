-- ===== src/Authz/Policy/Guards.antt =====
-- The guard that handlers call and the matrix that the pipelines consult, both of
-- apps/law/backend/src/domain/authz/policy.ts, on the content of a case.
use stigmer_apps.Common.{
  Text, if◌then◌else◌, ◌≡◌, refl, sym, ◌∙◌, ◌↔◌, Bool, true, false, Option, none, some,
}
use stigmer_apps.ResourceApi.Effects.{Result, ok, throw}
use stigmer_apps.ResourceApi.Envelope.{CallerPrincipal, PrincipalKind}
use stigmer_apps.Authz.Results.{◌>>=◌}
use stigmer_apps.Authz.Vocabulary.{Kind, Operation, allow}
use stigmer_apps.Authz.Policy.{
  FirmMember, Facts, Backend, stored, truthy, permit, can_touch_case_content, case_id_of, member_of,
}
use stigmer_apps.Authz.Policy.Cells.{authorize_user, cell, content_cell}
use stigmer_apps.Authz.Policy.Decide.{
  authorize, authorize_member, require_member, present, assert_case_content, content_refusal,
}
use stigmer_apps.Authz.Policy.Access.{permit-eq-allow}
use stigmer_apps.Authz.Policy.Content.{
  IsContent, hearing, case_note, document, document_annotation, citation_use, task,
}

module _ (b : Backend) (c : CallerPrincipal) (id : Text) (given : truthy (some id) ≡ some id) where
  content_cell-get :
      (m : FirmMember) {kind : Kind} (r : Facts)
      → IsContent kind
      → cell b m kind Operation.get (some id) (some r) none
        ≡ permit
            (can_touch_case_content b m (some id) true)
            "Only case members and partners may work this matter"
  unfolding cell content_cell
  content_cell-get m r hearing = refl
  content_cell-get m r case_note = refl
  content_cell-get m r document = simp given
  content_cell-get m r document_annotation = simp given
  content_cell-get m r citation_use = refl
  content_cell-get m r task = refl

  module _ (kind : Kind) (r : Facts) (content : IsContent kind)
      (in_case : case_id_of b kind (some r) stored ≡ ok (some id)) where
    authorize_user-get :
        (m : FirmMember)
        → authorize_user b m kind Operation.get (some r) none
          ≡ permit
              (can_touch_case_content b m (some id) true)
              "Only case members and partners may work this matter"
    unfolding authorize_user
    authorize_user-get m = rw in_case (content_cell-get m r content)

    abbrev Passes : Result (Option FirmMember) → Type 0
    Passes found =
        (m : FirmMember) × (found ≡ ok (some m))
        × (can_touch_case_content b m (some id) true ≡ ok true)

    allow-Passes :
        (found : Result (Option FirmMember))
        → (found >>= authorize_member b kind Operation.get (some r) none) ≡ ok allow
        → Passes found
    allow-Passes (throw f) h = cc
    allow-Passes (ok none) h = cc
    allow-Passes (ok (some m)) h = (m, refl, permit-eq-allow _ _ (sym (authorize_user-get m) ∙ h))

    Passes-allow :
        (found : Result (Option FirmMember))
        → Passes found
        → (found >>= authorize_member b kind Operation.get (some r) none) ≡ ok allow
    Passes-allow found (m, e, touches) = rw e (rw (authorize_user-get m, touches) refl)

    abbrev guarded : FirmMember → Result FirmMember
    guarded m = can_touch_case_content b m (some id) true >>= λ touches.
        if touches then ok m else content_refusal true

    guarded-eq-ok :
        (m : FirmMember) (r : Result Bool) {m' : FirmMember}
        → (r >>= λ touches. if touches then ok m else content_refusal true) ≡ ok m'
        → (r ≡ ok true) × (m ≡ m')
    guarded-eq-ok m (throw f) h = cc
    guarded-eq-ok m (ok false) h = cc
    guarded-eq-ok m (ok true) h = (refl, cc)

    guarded-Passes :
        (found : Result (Option FirmMember)) {m : FirmMember}
        → ((found >>= present) >>= guarded) ≡ ok m
        → Passes found
    guarded-Passes (throw f) h = cc
    guarded-Passes (ok none) h = cc
    guarded-Passes (ok (some n)) h =
        (n, refl, (guarded-eq-ok n (can_touch_case_content b n (some id) true) h).0)

    Passes-guard :
        (found : Result (Option FirmMember)) (p : Passes found)
        → ((found >>= present) >>= guarded) ≡ ok p.0
    Passes-guard found (m, e, touches) = rw e (rw touches refl)

    assert_case_content-user :
        c.kind ≡ PrincipalKind.user
        → assert_case_content b c id true ≡ ((member_of b c >>= present) >>= guarded)
    unfolding assert_case_content require_member
    assert_case_content-user user = rw user refl

    -- To a user, the matrix allows the read of a piece of case content exactly if the guard lets the
    -- user through to the case it belongs to, where that case has an id.
    pub authorize_iff_guard :
        c.kind ≡ PrincipalKind.user
        → (authorize b (some c) kind Operation.get (some r) none ≡ ok allow)
          ↔ ((m : FirmMember) × (assert_case_content b c id true ≡ ok m))
    unfolding authorize member_of
    authorize_iff_guard user = (
      λ h.
          let p = allow-Passes (member_of b c) (rw user at h) in
          (p.0, assert_case_content-user user ∙ Passes-guard (member_of b c) p),
      λ k. rw user (
          Passes-allow (member_of b c)
            (guarded-Passes (member_of b c) (sym (assert_case_content-user user) ∙ k.1))),
    )
