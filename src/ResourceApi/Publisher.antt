-- ===== src/ResourceApi/Publisher.antt =====
-- packages/resource-api/src/publisher.ts: the in-process dispatcher of events. Its subscribers are the
-- state; a handler is application code.
use stigmer_apps.Common.{
  Text, codes, text_eq, text_eq_refl, ◌≡◌, refl, ap, ◌∙◌, false, List, [], ◌∷◌, ◌++◌, Option, none,
  some, Table, table_get, table_set, table_get-set, arith,
}
use stigmer_apps.ResourceApi.Effects.{ok, Action}
use stigmer_apps.ResourceApi.Port.{ResourceEvent}

abbrev pub EventHandler : Type 0 → Type 0 → Type 0
EventHandler W R = ResourceEvent R → Action W (Unit {0})

module _ {W R : Type 0} where
  abbrev pub or_none : Option (List (EventHandler W R)) → List (EventHandler W R)
  or_none none = []
  or_none (some hs) = hs

  -- `subscribe`
  unfoldable pub subscribe :
      Text → EventHandler W R → Table (List (EventHandler W R)) → Table (List (EventHandler W R))
  subscribe kind handler subscribers =
      table_set kind (or_none (table_get kind subscribers) ++ handler ∷ []) subscribers

  -- The loop of `publish`: what a handler throws is logged.
  unfoldable pub dispatch : List (EventHandler W R) → ResourceEvent R → Action W (Unit {0})
  dispatch [] event w = (ok tt, w)
  dispatch (handler ∷ handlers) event w = dispatch handlers event (handler event w).1

  abbrev pub handlers_of : Table (List (EventHandler W R)) → Text → List (EventHandler W R)
  handlers_of subscribers kind =
      or_none (table_get kind subscribers) ++ or_none (table_get (codes "*") subscribers)

  -- `publish`
  unfoldable pub publish : Table (List (EventHandler W R)) → ResourceEvent R → Action W (Unit {0})
  publish subscribers event = dispatch (handlers_of subscribers event.kind) event

  dispatch-append :
      (front back : List (EventHandler W R)) (event : ResourceEvent R) (w : W)
      → dispatch (front ++ back) event w ≡ dispatch back event (dispatch front event w).1
  unfolding dispatch
  dispatch-append [] back event w = refl
  dispatch-append (h ∷ front) back event w = dispatch-append front back event (h event w).1

  dispatch-ok :
      (handlers : List (EventHandler W R)) (event : ResourceEvent R) (w : W)
      → (dispatch handlers event w).0 ≡ ok tt
  unfolding dispatch
  dispatch-ok [] event w = refl
  dispatch-ok (h ∷ handlers) event w = dispatch-ok handlers event (h event w).1

  -- A publish never fails, whatever its handlers throw, and a handler that has subscribed to the
  -- event's kind runs, after the earlier subscribers of the kind and before those of all
  -- kinds, in the world that they left.
  pub publish-subscribe :
      (subscribers : Table (List (EventHandler W R))) (handler : EventHandler W R)
      (event : ResourceEvent R) (w : W)
      → text_eq event.kind (codes "*") ≡ false
      → ((publish (subscribe event.kind handler subscribers) event w).0 ≡ ok tt)
        × ((publish (subscribe event.kind handler subscribers) event w).1
            ≡ (dispatch
                (or_none (table_get (codes "*") subscribers))
                event
                (handler event
                  (dispatch (or_none (table_get event.kind subscribers)) event w).1).1).1)
  unfolding publish subscribe dispatch
  publish-subscribe subscribers handler event w named =
      let star = codes "*" in
      let earlier = or_none (table_get event.kind subscribers) in
      let own : table_get event.kind (table_set event.kind (earlier ++ handler ∷ []) subscribers)
          ≡ some (earlier ++ handler ∷ []) =
        ground (
          arith,
          table_get-set event.kind event.kind (earlier ++ handler ∷ []) subscribers,
          text_eq_refl event.kind,
        ) in
      let others : table_get star (table_set event.kind (earlier ++ handler ∷ []) subscribers)
          ≡ table_get star subscribers =
        ground
          (arith, table_get-set event.kind star (earlier ++ handler ∷ []) subscribers, named) in
      (
        dispatch-ok (handlers_of (subscribe event.kind handler subscribers) event.kind) event w,
        ap
              (λ o.
                (dispatch
                  (or_none o
                    ++ or_none (
                        table_get star
                          (table_set event.kind (earlier ++ handler ∷ []) subscribers)))
                  event w).1)
              own
            ∙ ap (λ o. (dispatch ((earlier ++ handler ∷ []) ++ or_none o) event w).1) others
            ∙ ap (λ o. o.1)
                (dispatch-append (earlier ++ handler ∷ []) (or_none (table_get star subscribers))
                  event w)
            ∙ ap (λ o. (dispatch (or_none (table_get star subscribers)) event o.1).1)
                (dispatch-append earlier (handler ∷ []) event w),
      )
