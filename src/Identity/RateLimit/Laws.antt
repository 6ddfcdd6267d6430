-- ===== src/Identity/RateLimit/Laws.antt =====
-- packages/identity/src/rate-limit.ts: the budgets over runs of calls.
use stigmer_apps.Common.{
  Text, text_eq, text_eq_iff, Table, table_get, if◌then◌else◌, some, List, [], ◌∷◌, ◌≡◌, refl, true,
  false, ℕ, suc, ◌+◌, ◌*◌, ◌<◌, ◌≤◌, leb, All, arith,
}
use stigmer_apps.Identity.RateLimit.{
  Window, Limits, RateLimiter, allowed, denied, check, record_failure, record_success, LimiterCall,
  checked, failed, succeeded, after_call, after_calls, current, one_more, email_window, decide,
  retry_after,
}
use stigmer_apps.Identity.RateLimit.Tables.{
  window_of, email_window-seen, email_window-held, email_window-other, email_window-live,
  table_delete-other, write_back-same, write_back-other,
}

-- A call that comes before the deadline and does not clear the email's window.
abbrev pub IsBefore : (deadline : ℕ) → Text → LimiterCall → Type 0
IsBefore deadline e (checked at _) = at < deadline
IsBefore deadline e (failed at _) = at < deadline
IsBefore deadline e (succeeded j) = text_eq j e ≡ false

-- The failures of one email among the calls.
abbrev pub failures : Text → List LimiterCall → ℕ
failures e [] = 0
failures e (checked at j ∷ cs) = failures e cs
failures e (failed at j ∷ cs) = if text_eq j e then suc (failures e cs) else failures e cs
failures e (succeeded j ∷ cs) = failures e cs

abbrev plus : ℕ → Window → Window
plus n w = record w { count = w.count + n }

module _ (l : Limits) (now : ℕ) (e j : Text) (s : RateLimiter) (w : Window) where
  abbrev seen : Window × Table Window
  seen = email_window l now j s.per_email

  held :
      table_get e s.per_email ≡ some w
      → now < w.window_start_ms + l.window_ms
      → (table_get e seen.1 ≡ some w) × (text_eq j e ≡ true → seen.0 ≡ w)
  held h k =
      elim (text_eq j e)
          as (λ b.
            text_eq j e ≡ b → (table_get e seen.1 ≡ some w) × (text_eq j e ≡ true → seen.0 ≡ w)) [
              | false ↦
                  λ d. (email_window-other l now e j s.per_email w d h (ground arith), λ t. cc)
              | true ↦
                  λ d. grind (arith, text_eq_iff j e, email_window-live l now e s.per_email w h)
            ]
        refl

  checked-tracked :
      table_get e s.per_email ≡ some w
      → now < w.window_start_ms + l.window_ms
      → table_get e (check l now j s).1.per_email ≡ some w
  unfolding check
  checked-tracked h k = (held h k).0

  failed-tracked :
      table_get e s.per_email ≡ some w
      → 0 < w.count
      → now < w.window_start_ms + l.window_ms
      → table_get e (record_failure l now j s).per_email
        ≡ some (if text_eq j e then plus 1 w else w)
  unfolding record_failure
  failed-tracked h p k =
      elim (text_eq j e)
          as (λ b.
            text_eq j e ≡ b
            → table_get e (record_failure l now j s).per_email ≡ some (if b then plus 1 w else w)) [
              | false ↦ λ d.
                  ground
                    (arith, write_back-other l now e j (one_more l now seen.0) seen.1, held h k)
              | true ↦ λ d. grind (
                arith,
                text_eq_iff j e,
                held h k,
                write_back-same l now e (one_more l now seen.0) seen.1 w,
              )
            ]
        refl

succeeded-tracked :
    (e j : Text) (s : RateLimiter) (w : Window)
    → text_eq j e ≡ false
    → table_get e s.per_email ≡ some w
    → table_get e (record_success j s).per_email ≡ some w
unfolding record_success
succeeded-tracked e j s w d h = ground (arith, table_delete-other e j s.per_email)

-- A run before the deadline of a window counts every failure of its email and nothing else.
pub after_calls-tracked :
    (l : Limits) (e : Text) (deadline : ℕ) (cs : List LimiterCall) (s : RateLimiter) (w : Window)
    → table_get e s.per_email ≡ some w
    → 0 < w.count
    → deadline ≡ w.window_start_ms + l.window_ms
    → All (IsBefore deadline e) cs
    → table_get e (after_calls l cs s).per_email ≡ some (plus (failures e cs) w)
unfolding after_calls after_call
after_calls-tracked l e d [] s w h p k a = ground arith
after_calls-tracked l e d (checked at j ∷ cs) s w h p k (a, r) =
    after_calls-tracked l e d cs (check l at j s).1 w
      (checked-tracked l at e j s w h (ground arith)) p k r
after_calls-tracked l e d (failed at j ∷ cs) s w h p k (a, r) = ground (
  arith,
  failed-tracked l at e j s w h p,
  after_calls-tracked l e d cs (record_failure l at j s) (plus 1 w),
  after_calls-tracked l e d cs (record_failure l at j s) w,
)
after_calls-tracked l e d (succeeded j ∷ cs) s w h p k (a, r) =
    after_calls-tracked l e d cs (record_success j s) w (succeeded-tracked e j s w a h) p k r

-- The denial comes with a number of whole seconds: at least one, and after them the window is over.
check-denied :
    (l : Limits) (now : ℕ) (e : Text) (s : RateLimiter) (w : Window)
    → table_get e s.per_email ≡ some w
    → now < w.window_start_ms + l.window_ms
    → l.max_per_email ≤ w.count
    → (check l now e s).0 ≡ denied (retry_after l now w)
unfolding check
check-denied l now e s w h k m = ground (arith, email_window-live l now e s.per_email w h)

pub retry_after_bounds :
    (l : Limits) (now : ℕ) (w : Window)
    → (1 ≤ retry_after l now w)
      × (w.window_start_ms + l.window_ms ≤ now + retry_after l now w * 1000)
unfolding retry_after
retry_after_bounds l now w = ground arith

-- The window that the first failure opens.
first_failure :
    (l : Limits) (now : ℕ) (e : Text) (s : RateLimiter)
    → 0 < l.window_ms
    → (window_of l now e s.per_email).count ≡ 0
    → table_get e (record_failure l now e s).per_email
      ≡ some (record { count = 1; window_start_ms = now })
unfolding record_failure
first_failure l now e s p z = ground (
  arith,
  email_window-seen l now e s.per_email,
  email_window-held l now e s.per_email p,
  write_back-same l now e (one_more l now (email_window l now e s.per_email).0)
      (email_window l now e s.per_email).1 (window_of l now e s.per_email),
)

-- The budget of an email: once its window has opened at `start`, and however the calls for it and for
-- other emails follow each other, as many failures as the budget allows lock the email out until
-- the window ends. The answer names at least one second, and after that many seconds the window is over.
pub spent_budget-denied :
    (l : Limits) (start now : ℕ) (e : Text) (s : RateLimiter) (cs : List LimiterCall)
    → 0 < l.window_ms
    → (window_of l start e s.per_email).count ≡ 0
    → All (IsBefore (start + l.window_ms) e) cs
    → now < start + l.window_ms
    → l.max_per_email ≤ 1 + failures e cs
    → (seconds : ℕ) × ((check l now e (after_calls l (failed start e ∷ cs) s)).0 ≡ denied seconds)
      × (1 ≤ seconds)
      × (start + l.window_ms ≤ now + seconds * 1000)
unfolding after_calls after_call
spent_budget-denied l start now e s cs p z a k m =
    let first : Window = record { count = 1; window_start_ms = start } in
    let w = plus (failures e cs) first in
    let bounds = retry_after_bounds l now w in
    (
      retry_after l now w,
      check-denied l now e (after_calls l cs (record_failure l start e s)) w
          (after_calls-tracked l e (start + l.window_ms) cs (record_failure l start e s) first
            (first_failure l start e s p z) (omega arith) refl a)
          k m,
      bounds.0,
      bounds.1,
    )

again :
    (l : Limits) (now later : ℕ) (e : Text) (t : Table Window)
    → 0 < l.window_ms
    → (email_window l later e (email_window l now e t).1).0
      ≡ current l later (email_window l now e t).0
again l now later e t p = ground (
  arith,
  email_window-seen l now e t,
  email_window-held l now e t p,
  email_window-seen l later e (email_window l now e t).1,
)

-- Two decisions on the same two windows, with the announced wait between them.
decide-later :
    (l : Limits) (now later seconds : ℕ) (e : Text) (w g v : Window)
    → 0 < l.max_per_email
    → v ≡ current l later w
    → decide l now w (current l now g) ≡ denied seconds
    → now + seconds * 1000 ≤ later
    → (current l later g).count < l.max_global
    → decide l later v
        (current l later (if leb l.max_per_email w.count then g else current l now g))
      ≡ allowed
decide-later l now later seconds e w g v q h d wait room =
    ground (arith, retry_after_bounds l now w, retry_after_bounds l now g)

-- What the denial promises: who waits the announced seconds is let in, if the global budget has
-- room by then.
pub waited-allowed :
    (l : Limits) (now later seconds : ℕ) (e : Text) (s : RateLimiter)
    → 0 < l.window_ms
    → 0 < l.max_per_email
    → (check l now e s).0 ≡ denied seconds
    → now + seconds * 1000 ≤ later
    → (current l later s.global).count < l.max_global
    → (check l later e (check l now e s).1).0 ≡ allowed
unfolding check
waited-allowed l now later seconds e s p q d wait room =
    let seen = email_window l now e s.per_email in
    decide-later l now later seconds e seen.0 s.global _ q (again l now later e s.per_email p) d
      wait room
