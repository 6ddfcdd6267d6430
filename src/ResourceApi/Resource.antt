-- ===== src/ResourceApi/Resource.antt =====
-- packages/resource-api/src/resource.ts: the contexts of the operations and the steps that they
-- share. The five flavours of operation are the modules below.
pub mod StepLaws
pub mod Create
pub mod Update
pub mod Read
pub mod Custom
use stigmer_apps.Common.{
  Text, codes, ◌++◌, text_eq, if◌then◌else◌, Bool, true, false, is_empty, or_undefined, List, [],
  ◌∷◌, Option, none, some, map,
}
use stigmer_apps.ResourceApi.Errors.{
  Failure, connect, duplicate_natural_key, duplicate_id, bare, invalid_argument, already_exists,
  already_exists_with_different_content, unauthenticated, permission_denied, internal,
}
use stigmer_apps.ResourceApi.Effects.{
  Result, ok, throw, Action, pure, raise, raise_connect, ◌>>=◌, ◌>>◌,
}
use stigmer_apps.ResourceApi.Pipeline.{PipelineStep, StepTrait, authorization}
use stigmer_apps.ResourceApi.Envelope.{CallerPrincipal, Resource}
use stigmer_apps.ResourceApi.Port.{
  Query, read, Decision, allow, deny, AuthorizationRequest, EventType, ResourceEvent, NaturalKey,
  Verdict, valid, invalid, error, Runtime,
}

pub record ResourceRef : Type 0 where
  pub id : Option Text
  pub natural_key : Option Text

-- `WriteContext`
pub record WriteContext (R : Type 0) : Type 0 where
  pub caller : Option CallerPrincipal
  pub input : R
  pub existing : Option R
  pub new_state : Option R
  pub holder : Option R
  pub settled : Option R

-- `ReadContext`
pub record ReadContext (R I : Type 0) : Type 0 where
  pub caller : Option CallerPrincipal
  pub input : I
  pub target : Option R

-- `AuthorizationSubject`
pub record Subject (R : Type 0) : Type 0 where
  pub resource : Option R
  pub input : Option R

-- A read of a property of `undefined`, which the casts of the source hide.
abbrev pub required : {W A : Type 0} → Option A → Action W A
required none = raise (bare (codes "undefined"))
required (some a) = pure a

-- `validateMessage`, on what the validator has answered.
unfoldable pub validate_message : {W : Type 0} → (subject : Text) → Verdict → Action W (Unit {0})
validate_message subject valid = pure tt
validate_message subject (invalid details) =
    raise_connect (invalid_argument (codes "Invalid " ++ subject ++ codes ": " ++ details))
validate_message subject error =
    raise_connect (internal (codes "Validation rules failed to evaluate for " ++ subject))

-- `ref.id ?? ref.naturalKey ?? "(no reference)"`
unfoldable pub ref_description : ResourceRef → Text
ref_description ref = elim ref.id [
  | some id ↦ id
  | none ↦ elim ref.natural_key [ some key ↦ key | none ↦ codes "(no reference)" ]
]

-- A part of a reference that is there and not empty.
abbrev pub truthy : Option Text → Option Text
truthy none = none
truthy (some s) = or_undefined s

module _ {W Spec Status : Type 0} (rt : Runtime W Spec Status) where
  -- What `requireRef` says is missing.
  abbrev key_names : Option (NaturalKey (Resource Spec Status)) → Text
  key_names none = codes "id"
  key_names (some k) = codes "id or " ++ k.label

  unfoldable pub require_ref : ResourceRef → Action W (Unit {0})
  require_ref ref = elim (truthy ref.id) [
    | some _ ↦ pure tt
    | none ↦ elim (truthy ref.natural_key) [
      | some _ ↦ pure tt
      | none ↦ raise_connect (
          invalid_argument
            (rt.display_name ++ codes ": " ++ key_names rt.natural_key ++ codes " is required"))
    ]
  ]

  unfoldable pub load_by_ref : ResourceRef → Query W (Option (Resource Spec Status))
  load_by_ref ref = elim (truthy ref.id) [
    | some id ↦ rt.store.get_by_id rt.kind id
    | none ↦ elim (truthy ref.natural_key) [
      | some key ↦ rt.store.get_by_natural_key rt.kind key
      | none ↦ λ _. ok none
    ]
  ]

  abbrev decide : Decision → Action W (Unit {0})
  decide allow = pure tt
  decide (deny reason) = raise_connect (permission_denied reason)

  unfoldable pub authorize_or_throw :
      (operation : Text)
      → Option CallerPrincipal
      → Subject (Resource Spec Status)
      → Action W (Unit {0})
  authorize_or_throw operation none subject = raise_connect unauthenticated
  authorize_or_throw operation (some caller) subject =
      read (
        rt.authorize (record {
          caller = caller;
          kind = rt.kind;
          operation = operation;
          resource = subject.resource;
          input = subject.input;
        }))
      >>= decide

  unfoldable pub authorize_step :
      {C : Type 0}
      → (operation : Text) → (C → Option CallerPrincipal)
      → (C → Subject (Resource Spec Status))
      → PipelineStep W C
  authorize_step operation caller_of subject_of = record {
    name = codes "authorize";
    traits = authorization ∷ [];
    execute = λ ctx. authorize_or_throw operation (caller_of ctx) (subject_of ctx) >> pure ctx;
  }

  -- The answer of `persist` to what `store.save` threw.
  abbrev save_failure : Option (NaturalKey (Resource Spec Status)) → Failure → Failure
  save_failure (some k) (duplicate_natural_key kind value) =
      connect (already_exists rt.display_name k.label value)
  save_failure _ f = f

  abbrev rethrow : {A : Type 0} → (Failure → Failure) → Result A × W → Result A × W
  rethrow f (ok a, w) = (ok a, w)
  rethrow f (throw e, w) = (throw (f e), w)

  unfoldable pub persist : Resource Spec Status → Action W (Unit {0})
  persist row w = rethrow (save_failure rt.natural_key) (rt.store.save rt.kind row w)

  -- `specA === specB` where one is undefined.
  abbrev pub same_spec : Option Spec → Option Spec → Bool
  same_spec none none = true
  same_spec none (some b) = false
  same_spec (some a) none = false
  same_spec (some a) (some b) = rt.spec_equals a b

  unfoldable pub same_content : (a b : Resource Spec Status) → Bool
  same_content a b = same_spec a.spec b.spec

  -- The verdict on a held key, for the row that the create would write.
  abbrev settle :
      NaturalKey (Resource Spec Status)
      → WriteContext (Resource Spec Status)
      → (holder state : Resource Spec Status) → Action W (WriteContext (Resource Spec Status))
  settle k ctx holder state =
      if same_content holder state
      then pure (record ctx { settled = some holder })
      else raise_connect
          (already_exists_with_different_content rt.display_name k.label (k.get state))

  unfoldable pub settle_on_holder :
      WriteContext (Resource Spec Status)
      → (holder : Resource Spec Status) → Action W (WriteContext (Resource Spec Status))
  settle_on_holder ctx holder = elim rt.natural_key [
    | none ↦ pure ctx
    | some k ↦ required ctx.new_state >>= settle k ctx holder
  ]

  abbrev swallow : {A : Type 0} → Result A × W → Result (Unit {0}) × W
  swallow (_, w) = (ok tt, w)

  -- A failure to publish is logged and lost.
  unfoldable pub publish_safely :
      EventType
      → (resource : Resource Spec Status) → (previous : Option (Resource Spec Status))
      → Option CallerPrincipal
      → Action W (Unit {0})
  publish_safely type resource previous actor w = swallow (
      rt.publish
        (record {
          kind = rt.kind;
          type = type;
          resource = resource;
          previous = previous;
          actor = actor;
        })
        w)

  -- A typed error of the derivation passes, any other is INTERNAL.
  abbrev derive_failure : Failure → Failure
  derive_failure (connect e) = connect e
  derive_failure (duplicate_natural_key k v) =
      connect (internal (codes "Internal error deriving " ++ rt.display_name ++ codes " status"))
  derive_failure (duplicate_id k i) =
      connect (internal (codes "Internal error deriving " ++ rt.display_name ++ codes " status"))
  derive_failure (bare m) =
      connect (internal (codes "Internal error deriving " ++ rt.display_name ++ codes " status"))

  abbrev derived :
      List (Resource Spec Status)
      → Result (Resource Spec Status → Resource Spec Status)
      → Result (List (Resource Spec Status))
  derived rows (ok f) = ok (map f rows)
  derived rows (throw e) = throw (derive_failure e)

  abbrev derive_with :
      Option (List (Resource Spec Status) → Query W (Resource Spec Status → Resource Spec Status))
      → List (Resource Spec Status)
      → Query W (List (Resource Spec Status))
  derive_with none rows w = ok rows
  derive_with (some f) [] w = ok []
  derive_with (some f) (r ∷ rows) w = derived (r ∷ rows) (f (r ∷ rows) w)

  unfoldable pub derive_all : List (Resource Spec Status) → Query W (List (Resource Spec Status))
  derive_all = derive_with rt.derive_status

  abbrev only : List (Resource Spec Status) → Resource Spec Status → Resource Spec Status
  only [] r = r
  only (d ∷ _) r = d

  -- `await deriveAll(runtime, [r]); return r;`
  unfoldable pub derive_one : Resource Spec Status → Action W (Resource Spec Status)
  unfolding derive_all
  derive_one r = read (derive_all (r ∷ [])) >>= λ ds. pure (only ds r)
