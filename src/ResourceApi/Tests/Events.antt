-- ===== src/ResourceApi/Tests/Events.antt =====
-- Subscribers to notes, and a note that refers to another.
use stigmer_apps.ResourceApi.Store.Memory.{get_by_id}
use stigmer_apps.Common.{
  Text, codes, text_eq, ◌+◌, ◌≡◌, refl, List, [], ◌∷◌, Option, none, some, Table, table_get, All,
}
use stigmer_apps.ResourceApi.Errors.{bare}
use stigmer_apps.ResourceApi.Effects.{ok, throw}
use stigmer_apps.ResourceApi.Port.{ResourceEvent, EventType}
use stigmer_apps.ResourceApi.Publisher.{
  EventHandler, or_none, subscribe, dispatch, publish, publish-subscribe,
}
use stigmer_apps.ResourceApi.References.{
  missing_references, ResourceReference, IsFoundIn, references_exist_step,
  references_exist_step-IsFound,
}
use stigmer_apps.ResourceApi.Resource.{WriteContext}
use stigmer_apps.ResourceApi.Tests.{World, Note, note, used, ann, note_store}

-- One that counts and then throws.
abbrev counts : EventHandler World Note
counts event w = (throw (bare (codes "down")), record w { published = w.published + 1 })

abbrev doubles : EventHandler World Note
doubles event w = (ok tt, record w { published = w.published + w.published })

abbrev subscribers : Table (List (EventHandler World Note))
subscribers = (codes "*", doubles ∷ []) ∷ (codes "Note", counts ∷ []) ∷ []

abbrev plan : Note
plan = note (codes "note_00") (codes "plan")

abbrev created : ResourceEvent Note
created = record {
  kind = codes "Note";
  type = EventType.created;
  resource = plan;
  previous = none;
  actor = some ann;
}

publish-subscribe_example :
    ((publish (subscribe (codes "Note") counts subscribers) created used).0 ≡ ok tt)
    × ((publish (subscribe (codes "Note") counts subscribers) created used).1
        ≡ (dispatch
            (or_none (table_get (codes "*") subscribers))
            created
            (counts created
              (dispatch (or_none (table_get (codes "Note") subscribers)) created used).1).1).1)
unfolding text_eq
publish-subscribe_example = publish-subscribe subscribers counts created used refl

abbrev text_of : Option Text → Text
text_of none = []
text_of (some t) = t

-- The text of a note is the id of the note that it follows.
abbrev follows : List (ResourceReference Note)
follows =
    record { kind = codes "Note"; label = codes "earlier note"; get = λ n. text_of n.spec } ∷ []

abbrev next : Note
next = note (codes "note_01") (codes "note_00")

abbrev writing : WriteContext Note
writing = record {
  caller = some ann;
  input = next;
  existing = none;
  new_state = some next;
  holder = none;
  settled = none;
}

check_ran :
    (references_exist_step note_store.get_by_id follows).execute writing used ≡ (ok writing, used)
unfolding text_eq references_exist_step missing_references get_by_id table_get
check_ran = refl

references_exist_step-IsFound_example :
    All (IsFoundIn note_store.get_by_id writing used) follows × (writing ≡ writing) × (used ≡ used)
references_exist_step-IsFound_example =
    references_exist_step-IsFound note_store.get_by_id follows writing used check_ran
