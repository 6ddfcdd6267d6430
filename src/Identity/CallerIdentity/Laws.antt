-- ===== src/Identity/CallerIdentity/Laws.antt =====
-- packages/identity/src/caller-identity.ts: when an identity is bound to a user, and what a failing
-- store does.
use stigmer_apps.Common.{
  Text, text_eq, text_eq_iff, includes, true, false, Option, none, some, ◌≡◌, refl, ap, ◌∙◌, ◌⊎◌,
  inl, inr, trim, ◌≤◌, arith,
}
use stigmer_apps.ResourceApi.Effects.{ok, after_query-eq-ok, proceed, pure}
use stigmer_apps.ResourceApi.Envelope.{PrincipalKind, CallerPrincipal, Resource, id_of}
use stigmer_apps.ResourceApi.Store.Filter.{ListResult}
use stigmer_apps.ResourceApi.Port.{StorePort}
use stigmer_apps.Identity.CallerIdentity.{
  CallerIdentity, resolved, user_kind, whatsapp_phone_kind, stigmer_user_kind, is_wa_id, first_item,
  resolution_of, phone_query, of_page, resolve_by_phone, email_of, resolve_by_email, resolve_caller,
}

abbrev pub user_principal : Text → CallerPrincipal
user_principal id = record { id = id; kind = PrincipalKind.user }

module _ {W Spec Status : Type 0} (store : StorePort W (Resource Spec Status))
    (to_lower_case : Text → Text) (w : W) where
  -- The row of a resolution, and its principal: a user with the row's id.
  resolution-some :
      (o : Option (Resource Spec Status)) {p : CallerPrincipal} {user : Resource Spec Status}
      → resolution_of store to_lower_case o ≡ resolved p user
      → (o ≡ some user) × (p ≡ user_principal (id_of user))
  resolution-some none e = cc
  resolution-some (some u) {p} {user} e =
      let same : u ≡ user = ground arith in
      let whose : p ≡ user_principal (id_of u) = ground arith in
      (ap some same, whose ∙ ap (λ (r : Resource Spec Status). user_principal (id_of r)) same)

  page-some :
      (page : ListResult (Resource Spec Status)) {p : CallerPrincipal} {user : Resource Spec Status}
      → of_page store to_lower_case page ≡ resolved p user
      → (page.total_count ≤ 1)
        × (first_item page.items ≡ some user)
        × (p ≡ user_principal (id_of user))
  page-some page {p} {user} e =
      let found : resolution_of store to_lower_case (first_item page.items) ≡ resolved p user =
        ground arith in
      let (row, whose) = resolution-some (first_item page.items) found in (ground arith, row, whose)

  -- The phone of exactly one user, as far as the store counts, or the email of the user that the store
  -- has under it.
  abbrev pub IsBound : CallerIdentity → Resource Spec Status → Type 0
  IsBound identity user =
      ((to_lower_case (trim identity.kind) ≡ whatsapp_phone_kind)
        × (is_wa_id (trim identity.value) ≡ true)
        × ((page : ListResult (Resource Spec Status)) × (store.list user_kind
                (phone_query store to_lower_case (trim identity.value)) w
              ≡ ok page)
            × (page.total_count ≤ 1)
            × (first_item page.items ≡ some user)))
      ⊎ ((to_lower_case (trim identity.kind) ≡ stigmer_user_kind)
          × (includes 64 (email_of store to_lower_case identity.value) ≡ true)
          × (store.get_by_natural_key user_kind (email_of store to_lower_case identity.value) w
              ≡ ok (some user)))

  by_phone-bound :
      (value : Text) {p : CallerPrincipal} {user : Resource Spec Status} {w' : W}
      → resolve_by_phone store to_lower_case value w ≡ (ok (resolved p user), w')
      → (w' ≡ w)
        × (p ≡ user_principal (id_of user))
        × (is_wa_id (trim value) ≡ true)
        × ((page : ListResult (Resource Spec Status)) × (store.list user_kind
                (phone_query store to_lower_case (trim value))
                w
              ≡ ok page)
            × (page.total_count ≤ 1)
            × (first_item page.items ≡ some user))
  unfolding resolve_by_phone
  by_phone-bound value {p} {user} {w'} e =
      let shape : is_wa_id (trim value) ≡ true = ground arith in
      let looked : proceed
            (store.list user_kind (phone_query store to_lower_case (trim value)) w, w)
            (λ page. pure (of_page store to_lower_case page))
          ≡ (ok (resolved p user), w') =
        ground arith in
      let (page, listed, e1) =
        after_query-eq-ok (store.list user_kind (phone_query store to_lower_case (trim value)) w) w
          _ looked in
      let answer : of_page store to_lower_case page ≡ resolved p user = ground arith in
      let (few, row, whose) = page-some page answer in
      (ground arith, whose, shape, (page, listed, few, row))

  by_email-bound :
      (value : Text) {p : CallerPrincipal} {user : Resource Spec Status} {w' : W}
      → resolve_by_email store to_lower_case value w ≡ (ok (resolved p user), w')
      → (w' ≡ w)
        × (p ≡ user_principal (id_of user))
        × (includes 64 (email_of store to_lower_case value) ≡ true)
        × (store.get_by_natural_key user_kind (email_of store to_lower_case value) w
            ≡ ok (some user))
  unfolding resolve_by_email
  by_email-bound value {p} {user} {w'} e =
      let key = email_of store to_lower_case value in
      let shape : includes 64 key ≡ true = ground arith in
      let looked : proceed (store.get_by_natural_key user_kind key w, w)
            (λ o. pure (resolution_of store to_lower_case o))
          ≡ (ok (resolved p user), w') =
        ground arith in
      let (o, found, e1) =
        after_query-eq-ok (store.get_by_natural_key user_kind key w) w _ looked in
      let answer : resolution_of store to_lower_case o ≡ resolved p user = ground arith in
      let (row, whose) = resolution-some o answer in (ground arith, whose, shape, found ∙ ap ok row)

  -- An identity that is resolved is bound to the user it is resolved to, by a full phone number that
  -- the store counts at most once or by an email; the principal is a user, never another kind, with the
  -- id of that row, and nothing is changed.
  pub resolve_caller-IsBound :
      (identity : CallerIdentity) {p : CallerPrincipal} {user : Resource Spec Status} {w' : W}
      → resolve_caller store to_lower_case identity w ≡ (ok (resolved p user), w')
      → (w' ≡ w) × (p ≡ user_principal (id_of user)) × IsBound identity user
  unfolding resolve_caller
  resolve_caller-IsBound identity {p} {user} {w'} e =
      let kind = to_lower_case (trim identity.kind) in
      elim (text_eq kind whatsapp_phone_kind)
          as (λ b.
            text_eq kind whatsapp_phone_kind ≡ b
            → (w' ≡ w) × (p ≡ user_principal (id_of user)) × IsBound identity user) [
              | true ↦ λ k.
                  let (same, whose, shape, page) =
                    by_phone-bound identity.value {p = p} {user = user} {w' = w'} (ground arith) in
                  (same, whose, inl ((text_eq_iff kind whatsapp_phone_kind).0 k, shape, page))
              | false ↦ λ k.
                  let (same, whose, shape, found) =
                    by_email-bound identity.value {p = p} {user = user} {w' = w'} (ground arith) in
                  (
                    same,
                    whose,
                    inr ((text_eq_iff kind stigmer_user_kind).0 (ground arith), shape, found),
                  )
            ]
        refl
