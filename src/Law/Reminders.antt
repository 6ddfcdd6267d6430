-- ===== src/Law/Reminders.antt =====
-- apps/law/backend/src/domain/reminders/sweep.ts: one pass of the reminder sweep. The rows that the
-- sweep reads are a parameter, as they stand during the pass; the world is that of the notifications,
-- which the sweep writes through the create of their pipeline. Calendar arithmetic is a parameter.
pub mod Settled
pub mod Windows
use stigmer_apps.Common.{
  Text, codes, ◌++◌, text_eq, if◌then◌else◌, is_empty, Bool, true, false, Option, none, some, List,
  [], ◌∷◌, ℕ, Table,
}
use stigmer_apps.ResourceApi.Codes.{Code}
use stigmer_apps.ResourceApi.Errors.{Failure, connect, duplicate_natural_key, duplicate_id, bare}
use stigmer_apps.ResourceApi.Effects.{Result, ok, throw, Action, pure, lift, ◌>>=◌, ◌>>◌}
use stigmer_apps.ResourceApi.Store.Filter.{
  FilterValue, FilterObject, equals, object, Direction, Nulls, OrderBy, ListQuery,
}

-- The parts of the rows that the sweep reads; `undefined` is `none`.
pub record Deadline : Type 0 where
  pub id : Option Text
  pub owner_id : Option Text
  pub title : Option Text
  pub due_date : Option Text

pub record Hearing : Type 0 where
  pub id : Option Text
  pub case_id : Option Text
  pub date : Option Text
  pub purpose : Option Text

pub record Matter : Type 0 where
  pub lead_lawyer_id : Option Text
  pub file_number : Option Text

pub record Member : Type 0 where
  pub active : Option Bool
  pub user_id : Text

pub record SweepStore : Type 0 where
  pub deadlines : ListQuery → Result (List Deadline)
  pub hearings : ListQuery → Result (List Hearing)
  pub case_members : ListQuery → Result (List (Option Text))
  pub case_by_id : Text → Result (Option Matter)
  pub member_by_id : Text → Result (Option Member)

pub data NotificationType : Type 0 where
  deadline_approaching unrecorded_outcome hearing_reminder : NotificationType

pub record Notification : Type 0 where
  pub recipient_id : Text
  pub type : NotificationType
  pub title : Text
  pub body : Text
  pub target_kind : Text
  pub target_id : Text
  pub dedup_key : Text

pub record DeadlineWindow : Type 0 where
  pub name : Text
  pub from_days : ℕ
  pub to_days : ℕ

abbrev pub deadline_windows : List DeadlineWindow
deadline_windows =
    record { name = codes "t-7"; from_days = 4; to_days = 7 }
    ∷ record { name = codes "t-3"; from_days = 2; to_days = 3 }
    ∷ record { name = codes "t-1"; from_days = 1; to_days = 1 }
    ∷ record { name = codes "day-of"; from_days = 0; to_days = 0 }
    ∷ []

-- `value ?? ""`, and a value inside a template.
abbrev pub or_blank : Option Text → Text
or_blank none = []
or_blank (some s) = s

abbrev pub shown : Option Text → Text
shown none = codes "undefined"
shown (some s) = s

abbrev no_object : FilterObject
no_object = record {
  in_values = none;
  absent = none;
  gte = none;
  gt = none;
  lte = none;
  lt = none;
  keys = 0;
}

abbrev pub page_query : (field : Text) → List (Text × FilterValue) → ListQuery
page_query field filter = record {
  limit = 100;
  offset = 0;
  order_by = some (record { field = field; direction = Direction.asc; nulls = Nulls.last });
  filter = filter;
}

abbrev pub between : (low high : Text) → FilterValue
between low high = object (record no_object { gte = some low; lte = some high; keys = 2 })

abbrev pub below : Text → FilterValue
below high = object (record no_object { lt = some high; keys = 1 })

abbrev pub no_value : FilterValue
no_value = object (record no_object { absent = some true; keys = 1 })

-- The loop over what a list answered.
unfoldable pub for_each : {W A : Type 0} → (A → Action W (Unit {0})) → List A → Action W (Unit {0})
for_each f [] w = (ok tt, w)
for_each f (x ∷ xs) w = (f x >> for_each f xs) w

-- `ConnectError.from(err).code === Code.AlreadyExists`
abbrev is_already_exists_code : Code → Bool
is_already_exists_code Code.already_exists = true
is_already_exists_code _ = false

abbrev pub is_already_exists : Failure → Bool
is_already_exists (connect e) = is_already_exists_code e.code
is_already_exists _ = false

module _ {W : Type 0} (create : Notification → Action W (Unit {0})) where
  -- What the catch makes of the outcome.
  abbrev pub caught : Result (Unit {0}) × W → Result (Unit {0}) × W
  caught (ok _, w) = (ok tt, w)
  caught (throw f, w) = if is_already_exists f then (ok tt, w) else (throw f, w)

  unfoldable pub notify : Notification → Action W (Unit {0})
  notify n w = caught (create n w)

  module _ (store : SweepStore) (add_days : Text → ℕ → Text) (today : Text) where
    abbrev user_of_row : Option Member → Text
    user_of_row none = []
    user_of_row (some m) = elim m.active [ none ↦ [] | some false ↦ [] | some true ↦ m.user_id ]

    -- `userIdOfMember`, with the empty string for `undefined`: both are falsy.
    unfoldable pub user_id_of_member : Option Text → Result Text
    user_id_of_member none = ok []
    user_id_of_member (some []) = ok []
    user_id_of_member (some (c ∷ id)) = elim (store.member_by_id (c ∷ id)) [
      | throw f ↦ throw f
      | ok row ↦ ok (user_of_row row)
    ]

    -- `if (!userId) continue`
    abbrev pub to_user : (Text → Notification) → Text → Action W (Unit {0})
    to_user message user = if is_empty user then pure tt else notify (message user)

    abbrev deadline_body : Deadline → Text
    deadline_body item =
        codes "\""
        ++ or_blank item.title
        ++ (if text_eq (or_blank item.due_date) today
            then codes "\" is due TODAY (" ++ or_blank item.due_date ++ codes ")."
            else codes "\" is due on " ++ or_blank item.due_date ++ codes ".")

    abbrev pub deadline_message : DeadlineWindow → Deadline → Text → Notification
    deadline_message window item user = record {
      recipient_id = user;
      type = deadline_approaching;
      title =
          if text_eq (or_blank item.due_date) today
          then codes "Deadline due today"
          else codes "Deadline approaching";
      body = deadline_body item;
      target_kind = codes "Deadline";
      target_id = or_blank item.id;
      dedup_key = codes "deadline:" ++ shown item.id ++ codes ":" ++ window.name;
    }

    abbrev pub window_query : DeadlineWindow → ListQuery
    window_query window = page_query (codes "dueDate") (
        (codes "state", equals (codes "DEADLINE_STATE_OPEN"))
        ∷ (
          codes "dueDate",
          between (add_days today window.from_days) (add_days today window.to_days),
        )
        ∷ [])

    unfoldable pub sweep_deadline : DeadlineWindow → Deadline → Action W (Unit {0})
    sweep_deadline window item =
        lift (user_id_of_member item.owner_id) >>= to_user (deadline_message window item)

    unfoldable pub sweep_window : DeadlineWindow → Action W (Unit {0})
    sweep_window window =
        lift (store.deadlines (window_query window)) >>= for_each (sweep_deadline window)

    unfoldable pub sweep_deadlines : Action W (Unit {0})
    sweep_deadlines = for_each sweep_window deadline_windows

    abbrev pub lead_of : Option Matter → Option Text
    lead_of none = none
    lead_of (some c) = c.lead_lawyer_id

    abbrev number_of : Option Matter → Text
    number_of none = []
    number_of (some c) = or_blank c.file_number

    abbrev pub outcome_message : Hearing → Option Matter → Text → Notification
    outcome_message hearing matter user = record {
      recipient_id = user;
      type = unrecorded_outcome;
      title = codes "Hearing outcome not recorded";
      body =
          codes "The hearing on "
          ++ or_blank hearing.date
          ++ codes " ("
          ++ number_of matter
          ++ codes ") has no recorded outcome yet. Please record what happened.";
      target_kind = codes "Hearing";
      target_id = or_blank hearing.id;
      dedup_key = codes "unrecorded_outcome:" ++ shown hearing.id;
    }

    unfoldable pub sweep_outcome : Hearing → Action W (Unit {0})
    sweep_outcome hearing = do
      matter ← lift (store.case_by_id (or_blank hearing.case_id))
      lead ← lift (user_id_of_member (lead_of matter))
      to_user (outcome_message hearing matter) lead

    unfoldable pub sweep_unrecorded_outcomes : Action W (Unit {0})
    sweep_unrecorded_outcomes =
        lift (
          store.hearings (
            page_query (codes "date")
              ((codes "outcomeKind", no_value) ∷ (codes "date", below today) ∷ [])))
        >>= for_each sweep_outcome

    abbrev when_of : Hearing → Text
    when_of hearing =
        if text_eq (or_blank hearing.date) today then codes "today" else codes "tomorrow"

    abbrev purpose_of : Option Text → Text
    purpose_of none = codes "."
    purpose_of (some []) = codes "."
    purpose_of (some (c ∷ s)) = codes " for " ++ (c ∷ s) ++ codes "."

    abbrev pub reminder_message :
        Hearing → Option Matter → (member_id : Option Text) → Text → Notification
    reminder_message hearing matter member_id user = record {
      recipient_id = user;
      type = hearing_reminder;
      title = codes "Hearing " ++ when_of hearing;
      body =
          number_of matter
          ++ codes " is listed "
          ++ when_of hearing
          ++ codes " ("
          ++ or_blank hearing.date
          ++ codes ")"
          ++ purpose_of hearing.purpose;
      target_kind = codes "Hearing";
      target_id = or_blank hearing.id;
      dedup_key =
          codes "hearing_reminder:"
          ++ shown hearing.id
          ++ codes ":"
          ++ shown member_id
          ++ codes ":"
          ++ shown hearing.date;
    }

    abbrev pub team_query : Hearing → ListQuery
    team_query hearing = page_query (codes "createdAt") (
        (codes "caseId", equals (or_blank hearing.case_id))
        ∷ (codes "active", equals (codes "true"))
        ∷ [])

    unfoldable pub remind_member :
        Hearing → Option Matter → (member_id : Option Text) → Action W (Unit {0})
    remind_member hearing matter member_id =
        lift (user_id_of_member member_id) >>= to_user (reminder_message hearing matter member_id)

    unfoldable pub sweep_reminder : Hearing → Action W (Unit {0})
    sweep_reminder hearing = do
      matter ← lift (store.case_by_id (or_blank hearing.case_id))
      team ← lift (store.case_members (team_query hearing))
      for_each (remind_member hearing matter) team

    unfoldable pub sweep_hearing_reminders : Action W (Unit {0})
    sweep_hearing_reminders =
        lift (
          store.hearings (
            page_query (codes "date") (
              (codes "outcomeKind", no_value)
              ∷ (codes "date", between today (add_days today 1))
              ∷ [])))
        >>= for_each sweep_reminder

    -- `runSweepOnce`
    unfoldable pub run_sweep_once : Action W (Unit {0})
    run_sweep_once = sweep_deadlines >> sweep_unrecorded_outcomes >> sweep_hearing_reminders
