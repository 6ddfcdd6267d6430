-- ===== src/ResourceApi/Tests.antt =====
-- A small world to run packages/resource-api/src in: notes with a title, kept by the in-memory store.
pub mod Creates
pub mod Others
pub mod Stores
pub mod Events
use Prim.Native.Nat.{ℕ}
use stigmer_apps.Common.{
  Text, codes, text_eq, ◌+◌, if◌then◌else◌, Bool, true, false, List, [], ◌∷◌, Option, none, some,
  take, or_undefined,
}
use stigmer_apps.ResourceApi.Effects.{Result, ok, throw, Action, pure}
use stigmer_apps.ResourceApi.Envelope.{
  CallerPrincipal, PrincipalKind, EnvelopeIdentity, Metadata, Resource, id_of,
}
use stigmer_apps.ResourceApi.Store.Memory.{
  KindConfig, Rows, JsonNode, insert, save, get_by_id, get_by_natural_key, list,
}
use stigmer_apps.ResourceApi.Port.{
  StorePort, Decision, allow, deny, AuthorizationRequest, ResourceEvent, NaturalKey, Host, valid,
  Runtime,
}
use stigmer_apps.ResourceApi.Resource.Create.{WriteOptions}

abbrev pub Note : Type 0
Note = Resource Text (Unit {0})

-- The rows, and how many events have been published.
pub record World : Type 0 where
  pub rows : Rows Note
  pub published : ℕ

-- The first four letters, so that two notes can have one title and other content.
abbrev pub title : Note → Text
title n = elim n.spec [ none ↦ [] | some t ↦ take 4 t ]

abbrev pub note_config : KindConfig Note
note_config = record {
  natural_key_field = none;
  natural_key_of = some (λ n. or_undefined (title n));
  fields = λ _. some (codes "spec.title");
  json = λ n _. JsonNode.string (title n);
}

abbrev pub kinds : Text → Option (KindConfig Note)
kinds k = some note_config

abbrev pub with_rows : {A : Type 0} → World → Result A × Rows Note → Result A × World
with_rows w (r, rows) = (r, record w { rows = rows })

abbrev pub note_store : StorePort World Note
note_store = record {
  insert = λ kind n w. with_rows w (insert id_of kinds kind n w.rows);
  save = λ kind n w. with_rows w (save id_of kinds kind n w.rows);
  get_by_id = λ kind id w. get_by_id id_of kinds kind id w.rows;
  get_by_natural_key = λ kind value w. get_by_natural_key id_of kinds kind value w.rows;
  list = λ kind q w. list id_of kinds kind q w.rows;
}

abbrev pub title_key : Bool → NaturalKey Note
title_key idempotent = record { label = codes "title"; get = title; idempotent = idempotent }

-- Notes that ann may touch and nobody else.
abbrev pub decide : CallerPrincipal → Decision
decide c = if text_eq c.id (codes "ann") then allow else deny (codes "not yours")

abbrev pub notes : Bool → Runtime World Text (Unit {0})
notes idempotent = record {
  kind = codes "Note";
  display_name = codes "Note";
  identity = record { api_version = codes "v1"; kind = codes "Note"; id_prefix = codes "note" };
  natural_key = some (title_key idempotent);
  store = note_store;
  authorize = λ r w. ok (decide r.caller);
  publish = λ e w. (ok tt, record w { published = w.published + 1 });
  derive_status = none;
  spec_equals = text_eq;
  validate = λ _. valid;
  host = record { new_date = λ w. (ok 7, w); ulid = λ w. (ok (codes "01"), w) };
}

abbrev pub ann : CallerPrincipal
ann = record { id = codes "ann"; kind = PrincipalKind.user }

abbrev pub bob : CallerPrincipal
bob = record { id = codes "bob"; kind = PrincipalKind.user }

abbrev pub note : (id t : Text) → Note
note id t = record {
  api_version = codes "v1";
  kind = codes "Note";
  metadata = some (record {
    id = id;
    version = 1;
    created_at = some 7;
    created_by = none;
    updated_at = some 7;
    updated_by = none;
  });
  spec = some t;
  status = none;
}

abbrev pub draft : (t : Text) → Note
draft t = record { api_version = []; kind = []; metadata = none; spec = some t; status = none }

abbrev pub no_steps : WriteOptions World Note
no_steps = record { before_persist = []; after_persist = [] }

abbrev pub fresh : World
fresh = record { rows = λ _. []; published = 0 }

-- A world with one note.
abbrev pub used : World
used = record {
  rows = λ _. (codes "note_00", note (codes "note_00") (codes "plan")) ∷ [];
  published = 0;
}

-- The notes of a deployment in which another request wins the race for a title.
abbrev pub rival : Note
rival = note (codes "note_99") (codes "plan")

abbrev pub raced_notes : Runtime World Text (Unit {0})
raced_notes = record (notes true) {
  store = record note_store {
    insert = λ kind n w.
        with_rows w (insert id_of kinds kind n (insert id_of kinds kind rival w.rows).1);
  };
}
