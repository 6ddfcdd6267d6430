-- ===== src/Identity/RateLimit.antt =====
-- packages/identity/src/rate-limit.ts: the two failure budgets of sign-in. Times are milliseconds of
-- the injected clock, which each call reads once here; the two JavaScript objects that a call
-- changes, the map and the global window, are the limiter's state.
pub mod Tables
pub mod Laws
use stigmer_apps.Common.{
  Text, Table, table_get, table_has, table_set, table_delete, if◌then◌else◌, leb, ltb, ◌==◌, Bool,
  Option, none, some, List, [], ◌∷◌, ℕ, ◌+◌, ◌-◌, ◌*◌, ◌/◌, max, length,
}

pub record Window : Type 0 where
  pub count : ℕ
  pub window_start_ms : ℕ

pub record MemoryRateLimiterOptions : Type 0 where
  pub max_failures_per_email : Option ℕ
  pub max_failures_global : Option ℕ
  pub window_seconds : Option ℕ

-- The three constants of the closure.
pub record Limits : Type 0 where
  pub max_per_email : ℕ
  pub max_global : ℕ
  pub window_ms : ℕ

-- `option ?? fallback`
abbrev or_else : Option ℕ → ℕ → ℕ
or_else none d = d
or_else (some n) d = n

unfoldable pub limits_of : MemoryRateLimiterOptions → Limits
limits_of o = record {
  max_per_email = or_else o.max_failures_per_email 5;
  max_global = or_else o.max_failures_global 50;
  window_ms = or_else o.window_seconds (15 * 60) * 1000;
}

pub record RateLimiter : Type 0 where
  pub per_email : Table Window
  pub global : Window

pub data RateLimitDecision : Type 0 where
  allowed : RateLimitDecision
  denied : (retry_after_seconds : ℕ) → RateLimitDecision

unfoldable pub new_limiter : RateLimiter
new_limiter = record { per_email = []; global = record { count = 0; window_start_ms = 0 } }

module _ (l : Limits) (now : ℕ) where
  -- `now() - window.windowStartMs >= windowMs`
  abbrev pub expired : Window → Bool
  expired w = leb (w.window_start_ms + l.window_ms) now

  abbrev pub fresh : Window
  fresh = record { count = 0; window_start_ms = now }

  abbrev pub current : Window → Window
  current w = if expired w then fresh else w

  -- A write to a window that the map still holds; an object that left the map is written in vain.
  unfoldable pub write_back : Text → Window → Table Window → Table Window
  write_back email w t = if table_has email t then table_set email w t else t

  -- The lazy sweep over the map.
  unfoldable pub drop_expired : Table Window → Table Window
  drop_expired [] = []
  drop_expired ((key, w) ∷ t) = if expired w then drop_expired t else (key, w) ∷ drop_expired t

  unfoldable pub bounded : Table Window → Table Window
  bounded t = if ltb 10000 (length t) then drop_expired t else t

  abbrev settle : Text → Window → Table Window → Window × Table Window
  settle email w t = (current w, write_back email (current w) t)

  -- The window of an email, made when it is missing, and the map after that.
  unfoldable pub email_window : Text → Table Window → Window × Table Window
  email_window email t = elim (table_get email t) [
    | none ↦ settle email fresh (bounded (table_set email fresh t))
    | some w ↦ settle email w t
  ]

  -- Whole seconds, rounded up, and at least one.
  unfoldable pub retry_after : Window → ℕ
  retry_after w = max 1 ((w.window_start_ms + l.window_ms - now + 999) / 1000)

  -- `if (w.count === 0) w.windowStartMs = now(); w.count += 1`
  abbrev pub one_more : Window → Window
  one_more w = record {
    count = w.count + 1;
    window_start_ms = if w.count == 0 then now else w.window_start_ms;
  }

  abbrev pub decide : Window → Window → RateLimitDecision
  decide e g =
      if leb l.max_per_email e.count
      then denied (retry_after e)
      else if leb l.max_global g.count
      then denied (retry_after g)
      else allowed

  -- The global window is brought up to date only when the email's budget is not spent.
  unfoldable pub check : Text → RateLimiter → RateLimitDecision × RateLimiter
  check email s =
      let found = email_window email s.per_email in
      (
        decide found.0 (current s.global),
        record {
          per_email = found.1;
          global = if leb l.max_per_email found.0.count then s.global else current s.global;
        },
      )

  unfoldable pub record_failure : Text → RateLimiter → RateLimiter
  record_failure email s =
      let found = email_window email s.per_email in
      record {
        per_email = write_back email (one_more found.0) found.1;
        global = one_more (current s.global);
      }

-- A success clears the email's window.
unfoldable pub record_success : Text → RateLimiter → RateLimiter
record_success email s = record s { per_email = table_delete email s.per_email }

-- The calls a limiter receives, each at its time.
pub data LimiterCall : Type 0 where
  checked : (at : ℕ) (email : Text) → LimiterCall
  failed : (at : ℕ) (email : Text) → LimiterCall
  succeeded : (email : Text) → LimiterCall

unfoldable pub after_call : Limits → LimiterCall → RateLimiter → RateLimiter
after_call l (checked at email) s = (check l at email s).1
after_call l (failed at email) s = record_failure l at email s
after_call l (succeeded email) s = record_success email s

unfoldable pub after_calls : Limits → List LimiterCall → RateLimiter → RateLimiter
after_calls l [] s = s
after_calls l (c ∷ cs) s = after_calls l cs (after_call l c s)
