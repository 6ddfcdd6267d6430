-- ===== src/ResourceApi/Port.antt =====
-- packages/resource-api/src: what the pipelines call. `StorePort` is store.ts's interface at one
-- resource type, `Runtime` is `ResourceDefinition` with the defaults of `defineResource`. The
-- operations that only read are queries; `W` is the world that the others change.
use stigmer_apps.Common.{ℕ, Text, Bool, List, Option}
use stigmer_apps.ResourceApi.Effects.{Result, Action}
use stigmer_apps.ResourceApi.Envelope.{CallerPrincipal, EnvelopeIdentity, Resource}
use stigmer_apps.ResourceApi.Store.Filter.{ListQuery, ListResult}

abbrev pub Query : Type 0 → Type 0 → Type 0
Query W A = W → Result A

-- A query inside a computation.
abbrev pub read : {W A : Type 0} → Query W A → Action W A
read q w = (q w, w)

pub record StorePort (W R : Type 0) : Type 0 where
  pub insert : (kind : Text) → R → Action W (Unit {0})
  pub save : (kind : Text) → R → Action W (Unit {0})
  pub get_by_id : (kind id : Text) → Query W (Option R)
  pub get_by_natural_key : (kind value : Text) → Query W (Option R)
  pub list : (kind : Text) → ListQuery → Query W (ListResult R)

pub data Decision : Type 0 where
  allow : Decision
  deny : (reason : Text) → Decision

pub record AuthorizationRequest (R : Type 0) : Type 0 where
  pub caller : CallerPrincipal
  pub kind : Text
  pub operation : Text
  pub resource : Option R
  pub input : Option R

pub data EventType : Type 0 where
  created updated : EventType

pub record ResourceEvent (R : Type 0) : Type 0 where
  pub kind : Text
  pub type : EventType
  pub resource : R
  pub previous : Option R
  pub actor : Option CallerPrincipal

-- `naturalKey`; `idempotent` is `duplicate === "idempotent"`.
pub record NaturalKey (R : Type 0) : Type 0 where
  pub label : Text
  pub get : R → Text
  pub idempotent : Bool

-- `new Date()` and `ulid()`.
pub record Host (W : Type 0) : Type 0 where
  pub new_date : Action W ℕ
  pub ulid : Action W Text

-- What a validator answers: `error` is a rule that cannot be evaluated.
pub data Verdict : Type 0 where
  valid : Verdict
  invalid : (details : Text) → Verdict
  error : Verdict

pub record Runtime (W Spec Status : Type 0) : Type 0 where
  pub kind : Text
  pub display_name : Text
  pub identity : EnvelopeIdentity
  pub natural_key : Option (NaturalKey (Resource Spec Status))
  pub store : StorePort W (Resource Spec Status)
  pub authorize : AuthorizationRequest (Resource Spec Status) → Query W Decision
  pub publish : ResourceEvent (Resource Spec Status) → Action W (Unit {0})
  -- What the derivation for a page does to each of its resources.
  pub derive_status :
      Option (List (Resource Spec Status) → Query W (Resource Spec Status → Resource Spec Status))
  -- `equals` of protobuf on two messages of the spec's schema.
  pub spec_equals : Spec → Spec → Bool
  -- protovalidate on the resource's schema.
  pub validate : Resource Spec Status → Verdict
  pub host : Host W
