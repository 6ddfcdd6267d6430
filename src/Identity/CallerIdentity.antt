-- ===== src/Identity/CallerIdentity.antt =====
-- packages/identity/src/caller-identity.ts: a caller's identity, as the agent platform asserts it,
-- looked up among the users. The store is the resource store's port; lower-casing is a parameter.
pub mod Laws
use stigmer_apps.Common.{
  Text, codes, text_eq, if◌then◌else◌, is_empty, includes, leb, ltb, ◌&&◌, ◌||◌, not, all, Bool,
  true, false, Option, none, some, List, [], ◌∷◌, ℕ, length, trim,
}
use stigmer_apps.ResourceApi.Effects.{Result, ok, throw, Action, pure, ◌>>=◌}
use stigmer_apps.ResourceApi.Envelope.{PrincipalKind, CallerPrincipal, Resource, id_of}
use stigmer_apps.ResourceApi.Store.Filter.{ListQuery, ListResult, FilterValue}
use stigmer_apps.ResourceApi.Port.{StorePort, read}

pub record CallerIdentity : Type 0 where
  pub kind : Text
  pub value : Text

pub data CallerResolution (User : Type 0) : Type 0 where
  resolved : (principal : CallerPrincipal) (user : User) → CallerResolution User
  unknown : CallerResolution User
  ambiguous : CallerResolution User

abbrev pub user_kind : Text
user_kind = codes "User"

abbrev pub whatsapp_phone_kind : Text
whatsapp_phone_kind = codes "whatsapp_phone"

abbrev pub stigmer_user_kind : Text
stigmer_user_kind = codes "stigmer_user"

abbrev pub is_digit : ℕ → Bool
is_digit c = leb 48 c && leb c 57

-- `WA_ID`: six to fifteen digits, the first not 0.
unfoldable pub is_wa_id : Text → Bool
is_wa_id [] = false
is_wa_id (c ∷ s) = leb 49 c && leb c 57 && all is_digit s && leb 5 (length s) && leb (length s) 14

abbrev pub first_item : {A : Type 0} → List A → Option A
first_item [] = none
first_item (x ∷ xs) = some x

module _ {W Spec Status : Type 0} (store : StorePort W (Resource Spec Status))
    (to_lower_case : Text → Text) where
  abbrev User : Type 0
  User = Resource Spec Status

  -- A row without an id is nobody.
  abbrev pub resolution_of : Option User → CallerResolution User
  resolution_of none = unknown
  resolution_of (some user) =
      if is_empty (id_of user)
      then unknown
      else resolved (record { id = id_of user; kind = PrincipalKind.user }) user

  abbrev pub phone_query : Text → ListQuery
  phone_query value = record {
    limit = 2;
    offset = 0;
    order_by = none;
    filter = (codes "phone", FilterValue.equals (43 ∷ value)) ∷ [];
  }

  abbrev pub of_page : ListResult User → CallerResolution User
  of_page page = if ltb 1 page.total_count then ambiguous else resolution_of (first_item page.items)

  unfoldable pub resolve_by_phone : Text → Action W (CallerResolution User)
  resolve_by_phone raw_value =
      let value = trim raw_value in
      let look = read (store.list user_kind (phone_query value)) >>= λ page. pure (of_page page) in
      if not (is_wa_id value) then pure unknown else look

  abbrev pub email_of : Text → Text
  email_of raw_value = to_lower_case (trim raw_value)

  unfoldable pub resolve_by_email : Text → Action W (CallerResolution User)
  resolve_by_email raw_value =
      let value = email_of raw_value in
      let look =
        read (store.get_by_natural_key user_kind value) >>= λ user. pure (resolution_of user) in
      if is_empty value || not (includes 64 value) then pure unknown else look

  -- The resolver: a kind it does not know is nobody.
  unfoldable pub resolve_caller : CallerIdentity → Action W (CallerResolution User)
  resolve_caller identity =
      let kind = to_lower_case (trim identity.kind) in
      if text_eq kind whatsapp_phone_kind
      then resolve_by_phone identity.value
      else if text_eq kind stigmer_user_kind
      then resolve_by_email identity.value
      else pure unknown
