-- ===== src/ResourceApi/Envelope.antt =====
-- packages/resource-api/src/audit.ts, id.ts and principal.ts: the envelope that every resource
-- shares, and who writes it. A message whose kind has no status field is one whose `Status` type is
-- empty. `clone` is the identity, since nothing here is mutated in place.
use stigmer_apps.Common.{
  ℕ, ◌+◌, Text, codes, ◌++◌, leb, if◌then◌else◌, Bool, false, ◌&&◌, ◌||◌, [], ◌∷◌, all, Option,
  none, some,
}
use stigmer_apps.ResourceApi.Errors.{bare, connect, internal}
use stigmer_apps.ResourceApi.Effects.{Result, ok, throw}

pub data PrincipalKind : Type 0 where
  user operator system : PrincipalKind

pub record CallerPrincipal : Type 0 where
  pub id : Text
  pub kind : PrincipalKind

abbrev pub system_principal : CallerPrincipal
system_principal = record { id = codes "system"; kind = PrincipalKind.system }

-- `Actor`; `actorOf` keeps both fields of the caller.
pub record Actor : Type 0 where
  pub id : Text
  pub kind : PrincipalKind

unfoldable pub actor_of : CallerPrincipal → Actor
actor_of caller = record { id = caller.id; kind = caller.kind }

-- `ResourceMetadata`; a time is in milliseconds.
pub record Metadata : Type 0 where
  pub id : Text
  pub version : ℕ
  pub created_at : Option ℕ
  pub created_by : Option Actor
  pub updated_at : Option ℕ
  pub updated_by : Option Actor

pub record Resource (Spec Status : Type 0) : Type 0 where
  pub api_version : Text
  pub kind : Text
  pub metadata : Option Metadata
  pub spec : Option Spec
  pub status : Option Status

pub record EnvelopeIdentity : Type 0 where
  pub api_version : Text
  pub kind : Text
  pub id_prefix : Text

abbrev is_lower : ℕ → Bool
is_lower c = leb b'a' c && leb c b'z'

abbrev is_digit : ℕ → Bool
is_digit c = leb b'0' c && leb c b'9'

-- `/^[a-z][a-z0-9]*$/`
unfoldable pub is_id_prefix : Text → Bool
is_id_prefix [] = false
is_id_prefix (c ∷ cs) = is_lower c && all (λ d. is_lower d || is_digit d) cs

-- The random part is an argument: the lower-cased `ulid()`.
unfoldable pub generate_resource_id : Text → Text → Result Text
unfolding is_id_prefix
generate_resource_id prefix ulid =
    if is_id_prefix prefix
    then ok (prefix ++ b'_' ∷ ulid)
    else throw (
        bare (
          codes "Resource id prefix must be lowercase alphanumeric starting with a letter, got '"
          ++ prefix
          ++ codes "'"))

-- The metadata that an update or a custom mutation writes over `meta`.
unfoldable pub touched : Metadata → CallerPrincipal → ℕ → Metadata
touched meta caller now = record {
  id = meta.id;
  version = meta.version + 1;
  created_at = meta.created_at;
  created_by = meta.created_by;
  updated_at = some now;
  updated_by = some (actor_of caller);
}

module _ {Spec Status : Type 0} where
  -- `id` is what `generateResourceId` has answered.
  unfoldable pub build_create_state :
      EnvelopeIdentity
      → Resource Spec Status
      → CallerPrincipal
      → (now : ℕ) (id : Text) → Resource Spec Status
  build_create_state identity input caller now id = record {
    api_version = identity.api_version;
    kind = identity.kind;
    metadata = some (record {
      id = id;
      version = 1;
      created_at = some now;
      created_by = some (actor_of caller);
      updated_at = some now;
      updated_by = some (actor_of caller);
    });
    spec = input.spec;
    status = none;
  }

  unfoldable pub build_update_state :
      EnvelopeIdentity
      → (input existing : Resource Spec Status) → CallerPrincipal
      → (now : ℕ) → Result (Resource Spec Status)
  build_update_state identity input existing caller now = elim existing.metadata [
    | none ↦ throw (
        connect (
          internal
            (codes "Stored " ++ identity.kind ++ codes " is missing metadata (data corruption?)")))
    | some meta ↦ ok (record {
      api_version = identity.api_version;
      kind = identity.kind;
      metadata = some (touched meta caller now);
      spec = input.spec;
      status = existing.status;
    })
  ]

  unfoldable pub stamp_custom_mutation :
      EnvelopeIdentity
      → Resource Spec Status
      → Option CallerPrincipal
      → (now : ℕ) → Result (Resource Spec Status)
  stamp_custom_mutation identity state caller now = elim state.metadata [
    | none ↦
        throw
          (connect (internal (identity.kind ++ codes " is missing metadata (data corruption?)")))
    | some meta ↦ elim caller [
      | none ↦ throw (bare (codes "undefined"))
      | some c ↦ ok (record state { metadata = some (touched meta c now) })
    ]
  ]

  -- `resource.metadata?.id`, where proto3's unset string is empty.
  abbrev pub id_of : Resource Spec Status → Text
  id_of r = elim r.metadata [ none ↦ [] | some meta ↦ meta.id ]
