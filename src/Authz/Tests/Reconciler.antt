-- ===== src/Authz/Tests/Reconciler.antt =====
-- packages/authorization/src: a run of the reconciler on the engine over a small server.
use stigmer_apps.Common.{
  table_set, Text, codes, text_eq, ◌≡◌, refl, ap, if◌then◌else◌, any, is_empty, Bool, true, ◌||◌,
  ◌&&◌, not, some, List, [], ◌∷◌, ◌++◌, ◌⊎◌, inl, inr, ◌∙◌, false, filter, arith,
}
use stigmer_apps.ResourceApi.Errors.{Failure, bare}
use stigmer_apps.ResourceApi.Effects.{ok, throw, Action}
use stigmer_apps.Authz.Paging.Engine.{
  PerTupleResult, write_tuples, assert_settled, answer_of_client,
}
use stigmer_apps.Authz.Reconcile.{
  TupleKey, has_id, reconcile_tuples, tuple_id, writes_of, deletes_of, by_id,
}
use stigmer_apps.Authz.Reconcile.Laws.{has_id-filter, IsEngine, reconcile_tuples-exact}

-- A server that is a list of tuples, which cannot write a tuple of no user: it has then deleted but not
-- written, and the engine over its client throws.
abbrev read_all : Action (List TupleKey) (List TupleKey)
read_all ts = (ok ts, ts)

abbrev without : (deletes ts : List TupleKey) → List TupleKey
without deletes ts = filter (λ t. not (has_id (tuple_id t) deletes)) ts

abbrev no_user : List TupleKey → Bool
no_user ts = any (λ (t : TupleKey). is_empty t.user) ts

abbrev rejected : PerTupleResult
rejected = record { succeeded = false; err = some (codes "invalid tuple") }

abbrev client :
    (writes deletes : List TupleKey)
    → Action (List TupleKey) (List PerTupleResult × List PerTupleResult)
client writes deletes ts =
    if no_user writes
    then (ok (rejected ∷ [], []), without deletes ts)
    else (ok ([], []), writes ++ without deletes ts)

abbrev write : (writes deletes : List TupleKey) → Action (List TupleKey) (Unit {0})
write = write_tuples (λ message. false) client

abbrev lost : Failure
lost = bare (codes "authorization tuple write failed: invalid tuple")

-- How a write of the engine ends.
abbrev Wrote : (writes deletes ts : List TupleKey) → Type 0
Wrote writes deletes ts =
    ((writes ≡ []) × (deletes ≡ []) × (write writes deletes ts ≡ (ok tt, ts)))
    ⊎ (write writes deletes ts ≡ (throw lost, without deletes ts))
    ⊎ (write writes deletes ts ≡ (ok tt, writes ++ without deletes ts))

answered-Wrote :
    (writes deletes ts : List TupleKey) (b : Bool)
    → no_user writes ≡ b
    → write writes deletes ts ≡ answer_of_client (λ message. false) (client writes deletes ts)
    → Wrote writes deletes ts
unfolding assert_settled
answered-Wrote writes deletes ts true e h = inr (inl (h ∙ rw e refl))
answered-Wrote writes deletes ts false e h = inr (inr (h ∙ rw e refl))

write-Wrote : (writes deletes ts : List TupleKey) → Wrote writes deletes ts
unfolding write_tuples
write-Wrote [] [] ts = inl (refl, refl, refl)
write-Wrote [] (d ∷ deletes) ts = answered-Wrote [] (d ∷ deletes) ts _ refl refl
write-Wrote (t ∷ writes) deletes ts = answered-Wrote (t ∷ writes) deletes ts _ refl refl

has_id-append :
    (id : Text) (ts us : List TupleKey) → has_id id (ts ++ us) ≡ (has_id id ts || has_id id us)
unfolding has_id
has_id-append id [] us = refl
has_id-append id (t ∷ ts) us = ground (arith, has_id-append id ts us)

has_id-without :
    (id : Text) (deletes ts : List TupleKey)
    → has_id id (without deletes ts) ≡ (has_id id ts && not (has_id id deletes))
has_id-without id deletes ts = has_id-filter (λ x. not (has_id x deletes)) id ts

engine : IsEngine read_all write (λ ts. ts)
unfolding has_id
engine = record {
  reads = λ s s' ts id e. (ap (has_id id) (ground arith), ground arith);
  unread = λ s s' f e. cc;
  applied = λ ws ds s s' id e. elim (write-Wrote ws ds s) [
    | inl (none_written, none_deleted, k) ↦ rw (none_written, none_deleted) (ground (arith, e, k))
    | inr (inl k) ↦ absurd (ground (arith, e, k))
    | inr (inr k) ↦ ground (arith, has_id-append id ws (without ds s), has_id-without id ds s, e, k)
  ];
  adds_only = λ ws ds s s' f id e. elim (write-Wrote ws ds s) [
    | inl (_, _, k) ↦ absurd (ground (arith, e, k))
    | inr (inl k) ↦ ground (arith, has_id-without id ds s, e, k)
    | inr (inr k) ↦ absurd (ground (arith, e, k))
  ];
  deletes_only = λ ws ds s s' f id e. elim (write-Wrote ws ds s) [
    | inl (_, _, k) ↦ absurd (ground (arith, e, k))
    | inr (inl k) ↦ ground (arith, has_id-without id ds s, e, k)
    | inr (inr k) ↦ absurd (ground (arith, e, k))
  ];
}

abbrev tuple : Text → TupleKey
tuple user = record { user = user; relation = codes "partner"; object = codes "firm:firm" }

abbrev wanted : List TupleKey
wanted = tuple (codes "user:ann") ∷ tuple (codes "user:bob") ∷ []

abbrev found : List TupleKey
found = tuple (codes "user:bob") ∷ tuple (codes "user:cid") ∷ []

reconcile_tuples-exact_example :
    has_id (codes "user:cid|partner|firm:firm") (reconcile_tuples read_all write wanted found).1
    ≡ has_id (codes "user:cid|partner|firm:firm") wanted
unfolding reconcile_tuples writes_of deletes_of by_id has_id tuple_id text_eq table_set write_tuples
    assert_settled
reconcile_tuples-exact_example =
    reconcile_tuples-exact read_all write (λ ts. ts) engine wanted found
      (codes "user:cid|partner|firm:firm")
