-- ===== src/Law/Reminders/Settled.antt =====
-- apps/law/backend/src/domain/reminders/sweep.ts: a pass that came to its end has nothing left to do.
use stigmer_apps.Common.{Text, Bool, true, List, [], ◌∷◌, ◌≡◌, refl, ap, ◌∙◌, sym, subst, ℕ, arith}
use stigmer_apps.ResourceApi.Errors.{Failure}
use stigmer_apps.ResourceApi.Effects.{
  Result, ok, throw, Action, pure, lift, proceed, proceed-eq-ok, ◌>>=◌, ◌>>◌,
}
use stigmer_apps.Law.Reminders.{
  SweepStore, Notification, is_already_exists, caught, notify, for_each, to_user, sweep_deadline,
  sweep_window, sweep_deadlines, sweep_outcome, sweep_unrecorded_outcomes, remind_member,
  sweep_reminder, sweep_hearing_reminders, run_sweep_once, deadline_windows, deadline_message,
  outcome_message, reminder_message, user_id_of_member, lead_of, or_blank, team_query,
}

-- What the notification pipeline promises, which validates its input and then asks for its unique
-- key: a create succeeds only on a valid input, stores its key and keeps the others; a create on a
-- valid input answers ALREADY_EXISTS if its key is stored; and a create that answers ALREADY_EXISTS had
-- a valid input and a stored key, and has changed nothing.
pub record HasUniqueKeys {W : Type 0} (is_valid : Notification → Bool)
    (create : Notification → Action W (Unit {0})) (stored : Text → W → Bool) : Type 0 where
  pub stores :
      (n : Notification) (w w' : W)
      → create n w ≡ (ok tt, w')
      → (is_valid n ≡ true) × (stored n.dedup_key w' ≡ true)
  pub keeps :
      (n : Notification) (w w' : W) (k : Text)
      → create n w ≡ (ok tt, w')
      → stored k w ≡ true
      → stored k w' ≡ true
  pub refuses :
      (n : Notification) (w : W)
      → is_valid n ≡ true
      → stored n.dedup_key w ≡ true
      → (f : Failure) × (create n w ≡ (throw f, w)) × (is_already_exists f ≡ true)
  pub refused :
      (n : Notification) (w w' : W) (f : Failure)
      → create n w ≡ (throw f, w')
      → is_already_exists f ≡ true
      → (is_valid n ≡ true) × (stored n.dedup_key w ≡ true) × (w' ≡ w)

module _ {W : Type 0} (stored : Text → W → Bool) where
  abbrev pub IsMore : (v w : W) → Type 0
  IsMore v w = (k : Text) → stored k w ≡ true → stored k v ≡ true

  -- A computation that came to its end took no key away, and does nothing in any world with the keys
  -- that it left.
  abbrev pub Settles : Action W (Unit {0}) → Type 0
  Settles m =
      (w w' : W) → m w ≡ (ok tt, w') → IsMore w' w × ((v : W) → IsMore v w' → m v ≡ (ok tt, v))

  pure-Settles : Settles (pure tt)
  pure-Settles w w' e =
      let same : w ≡ w' = ap (λ (o : Result (Unit {0}) × W). o.1) e in
      (subst (λ u. IsMore u w) same (λ k h. h), λ v more. refl)

  then-Settles : (m n : Action W (Unit {0})) → Settles m → Settles n → Settles (m >> n)
  then-Settles m n sm sn w w' e =
      let (_, w1, first, second) = proceed-eq-ok (m w) (λ _. n) e in
      let (more1, again1) = sm w w1 first in
      let (more2, again2) = sn w1 w' second in
      (
        λ k h. more2 k (more1 k h),
        λ v more.
            ap (λ o. proceed o (λ _. n)) (again1 v (λ k h. more k (more2 k h))) ∙ again2 v more,
      )

  look-Settles :
      {A : Type 0} (r : Result A) (f : A → Action W (Unit {0}))
      → ((a : A) → Settles (f a))
      → Settles (lift r >>= f)
  look-Settles (ok a) f s = s a
  look-Settles (throw failure) f s = λ w w' e. cc

  for_each-Settles :
      {A : Type 0} (f : A → Action W (Unit {0})) (xs : List A)
      → ((a : A) → Settles (f a))
      → Settles (for_each f xs)
  unfolding for_each
  for_each-Settles f [] s = pure-Settles
  for_each-Settles f (x ∷ xs) s = then-Settles (f x) (for_each f xs) (s x) (for_each-Settles f xs s)

module _ {W : Type 0} (is_valid : Notification → Bool) (create : Notification → Action W (Unit {0}))
    (stored : Text → W → Bool) (keys : HasUniqueKeys is_valid create stored) where
  repeated :
      (n : Notification) (v : W)
      → is_valid n ≡ true
      → stored n.dedup_key v ≡ true
      → notify create n v ≡ (ok tt, v)
  unfolding notify
  repeated n v valid h =
      let (f, e, known) = keys.refuses n v valid h in ap (caught create) e ∙ ground (arith, known)

  caught-Settles :
      (n : Notification) (w w' : W) (o : Result (Unit {0}) × W)
      → create n w ≡ o
      → caught create o ≡ (ok tt, w')
      → IsMore stored w' w × (is_valid n ≡ true) × (stored n.dedup_key w' ≡ true)
  caught-Settles n w w' (ok _, w1) e c =
      let same : w1 ≡ w' = ap (λ (o : Result (Unit {0}) × W). o.1) c in
      subst (λ u. IsMore stored u w × (is_valid n ≡ true) × (stored n.dedup_key u ≡ true)) same
        (λ k h. keys.keeps n w w1 k e h, (keys.stores n w w1 e).0, (keys.stores n w w1 e).1)
  caught-Settles n w w' (throw f, w1) e c =
      let known : is_already_exists f ≡ true = ground arith in
      let same : w1 ≡ w' = ground (arith, known) in
      let (valid, there, kept) = keys.refused n w w1 f e known in
      subst (λ u. IsMore stored u w × (is_valid n ≡ true) × (stored n.dedup_key u ≡ true))
        (sym kept ∙ same) (λ k h. h, valid, there)

  notify-Settles : (n : Notification) → Settles stored (notify create n)
  unfolding notify
  notify-Settles n w w' e =
      let (more, valid, there) = caught-Settles n w w' (create n w) refl e in
      (more, λ v above. repeated n v valid (above n.dedup_key there))

  module _ (store : SweepStore) (add_days : Text → ℕ → Text) (today : Text) where
    to_user-Settles :
        (message : Text → Notification) (user : Text)
        → Settles stored (to_user create store add_days today message user)
    to_user-Settles message [] = pure-Settles stored
    to_user-Settles message (c ∷ user) = notify-Settles (message (c ∷ user))

    deadline-Settles : Settles stored (sweep_deadlines create store add_days today)
    unfolding sweep_deadlines sweep_window sweep_deadline
    deadline-Settles =
        for_each-Settles stored (sweep_window create store add_days today) deadline_windows
          (λ window. look-Settles stored _ _ (λ items.
            for_each-Settles stored (sweep_deadline create store add_days today window) items
              (λ item.
                look-Settles stored (user_id_of_member create store add_days today item.owner_id) _
                  (to_user-Settles (deadline_message create store add_days today window item)))))

    outcome-Settles : Settles stored (sweep_unrecorded_outcomes create store add_days today)
    unfolding sweep_unrecorded_outcomes sweep_outcome
    outcome-Settles = look-Settles stored _ _ (λ hearings.
        for_each-Settles stored (sweep_outcome create store add_days today) hearings (λ hearing.
          look-Settles stored (store.case_by_id (or_blank hearing.case_id)) _ (λ matter.
            look-Settles stored
              (user_id_of_member create store add_days today
                (lead_of create store add_days today matter))
              _ (to_user-Settles (outcome_message create store add_days today hearing matter)))))

    reminder-Settles : Settles stored (sweep_hearing_reminders create store add_days today)
    unfolding sweep_hearing_reminders sweep_reminder remind_member
    reminder-Settles = look-Settles stored _ _ (λ hearings.
        for_each-Settles stored (sweep_reminder create store add_days today) hearings (λ hearing.
          look-Settles stored (store.case_by_id (or_blank hearing.case_id)) _ (λ matter.
            look-Settles stored
              (store.case_members (team_query create store add_days today hearing)) _
              (λ team.
                for_each-Settles stored (remind_member create store add_days today hearing matter)
                  team
                  (λ member. look-Settles stored _ _ (
                    to_user-Settles
                      (reminder_message create store add_days today hearing matter member)))))))

    sweep-Settles : Settles stored (run_sweep_once create store add_days today)
    unfolding run_sweep_once
    sweep-Settles =
        then-Settles stored _ _ (then-Settles stored _ _ deadline-Settles outcome-Settles)
          reminder-Settles

    -- A sweep that came to its end took no stored key away and has nothing left to do on the same day
    -- and the same rows: another sweep, in its world or in any with more keys, ends without a failure
    -- and without a change; where creates of notifications keep the keys unique and do not fail
    -- otherwise on a valid notification whose key is stored.
    pub run_sweep_once_settled :
        (w w' v : W)
        → run_sweep_once create store add_days today w ≡ (ok tt, w')
        → IsMore stored v w'
        → IsMore stored w' w × (run_sweep_once create store add_days today v ≡ (ok tt, v))
    run_sweep_once_settled w w' v e more =
        let (kept, again) = sweep-Settles w w' e in (kept, again v more)
