-- ===== src/Law/Reminders/Windows.antt =====
-- apps/law/backend/src/domain/reminders/sweep.ts: the escalation ladder.
use stigmer_apps.Common.{ℕ, leb, if◌then◌else◌, ◌&&◌, Bool, filter, length, ◌≡◌, arith}
use stigmer_apps.Law.Reminders.{DeadlineWindow, deadline_windows}

-- A deadline so many days ahead falls into the window.
abbrev pub covers : ℕ → DeadlineWindow → Bool
covers days w = leb w.from_days days && leb days w.to_days

-- Each day of the week before a deadline and the day itself fall into exactly one window, and no other
-- day into any: a deadline is escalated once on each rung, and no day of a down sweep is lost.
pub deadline_windows-covers :
    (days : ℕ) → length (filter (covers days) deadline_windows) ≡ (if leb days 7 then 1 else 0)
deadline_windows-covers days = ground arith
