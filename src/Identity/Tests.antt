-- ===== src/Identity/Tests.antt =====
-- packages/identity/src: the theorems on the budgets, the token store and the callers at concrete data.
mod Requests
use stigmer_apps.Common.{
  includes, starts_with, is_space, trim_start, trim_end, table_get, Text, codes, text_eq, ◌≡◌, ◌≢◌,
  refl, Option, some, none, List, [], ◌∷◌, Bool, true, false, ◌⊎◌, inl, inr, ◌≤◌, ◌<◌, ℕ, ◌+◌, ◌*◌,
  arith, ◌++◌,
}
use stigmer_apps.ResourceApi.Effects.{ok, throw, Result}
use stigmer_apps.ResourceApi.Envelope.{PrincipalKind, CallerPrincipal}
use stigmer_apps.Identity.RateLimit.{
  retry_after, email_window, Limits, RateLimiter, RateLimitDecision, allowed, denied, check,
  new_limiter, LimiterCall, checked, failed, succeeded, after_calls,
}
use stigmer_apps.Identity.RateLimit.Laws.{spent_budget-denied, waited-allowed}
use stigmer_apps.Identity.Sessions.{
  row_of, RefreshRow, RefreshTokens, consumed_for, reused, consume, SessionCall, inserted, purged,
  added, presented, revoked, serve_all,
}
use stigmer_apps.Identity.Sessions.Spec.{view, spec_serve_all}
use stigmer_apps.Identity.Sessions.Laws.{serve_all-refines}
use stigmer_apps.Identity.Sessions.OneTime.{consume-once, replay-HasNoSession, HasNoSession}
use stigmer_apps.Identity.Cookies.{refresh_cookie}
use stigmer_apps.Identity.Cookies.Laws.{is_clean, cookie_header, held_token, refresh_cookie-held}
use stigmer_apps.Identity.Callers.{
  verify_operator_key, operator_key_authenticator, verify_token, bearer_token_authenticator,
  after_word, compose_authenticators, Crypto, Claims, from_header, first_claim, bearer_credential,
}
use stigmer_apps.Identity.Callers.Laws.{
  Entrance, bearer_token, operator_key, chain, IsEarnedSomewhere, from_header-IsEarned,
}

abbrev two_failures : Limits
two_failures = record { max_per_email = 2; max_global = 9; window_ms = 60_000 }

abbrev ann : Text
ann = codes "ann"

abbrev bob : Text
bob = codes "bob"

-- Another email's calls and a check stand between the two failures.
abbrev mixed_calls : List LimiterCall
mixed_calls = failed 1500 bob ∷ checked 1600 ann ∷ succeeded bob ∷ failed 2000 ann ∷ []

spent_budget-denied_example :
    (seconds : ℕ) × ((check two_failures 3000 ann
        (after_calls two_failures (failed 1000 ann ∷ mixed_calls) new_limiter)).0
      ≡ denied seconds)
    × (1 ≤ seconds)
    × (61_000 ≤ 3000 + seconds * 1000)
unfolding table_get new_limiter text_eq
spent_budget-denied_example =
    spent_budget-denied two_failures 1000 3000 ann new_limiter mixed_calls (ground arith) refl
      (ground arith, (ground arith, (refl, (ground arith, tt)))) (ground arith) (ground arith)

abbrev locked : RateLimiter
locked = record {
  per_email = (ann, record { count = 2; window_start_ms = 1000 }) ∷ [];
  global = record { count = 2; window_start_ms = 1000 };
}

waited-allowed_example :
    (check two_failures 61_000 ann (check two_failures 3000 ann locked).1).0 ≡ allowed
unfolding check email_window table_get text_eq retry_after
waited-allowed_example =
    waited-allowed two_failures 3000 61_000 58 ann locked (ground arith) (ground arith) refl
      (ground arith) (ground arith)

abbrev ann_row : RefreshRow
ann_row = record { token_hash = codes "h1"; user_id = ann; expires_at = 900; consumed = false }

abbrev one_session : RefreshTokens
one_session = ann_row ∷ []

-- A rotation, and a thief's replay of the first token.
abbrev stolen : List SessionCall
stolen =
    presented 10 (codes "h1")
    ∷ inserted 10 ann (codes "h2") 910
    ∷ purged 15
    ∷ presented 20 (codes "h1")
    ∷ added ann (codes "h3") 920
    ∷ presented 30 (codes "h2")
    ∷ []

serve_all-refines_example :
    ((serve_all stolen one_session).0 ≡ (spec_serve_all stolen (view one_session)).0)
    × (view (serve_all stolen one_session).1 ≡ (spec_serve_all stolen (view one_session)).1)
unfolding row_of
serve_all-refines_example = serve_all-refines stolen one_session (refl, tt)

consume-once_example :
    (consume 40
      (codes "h1")
      (serve_all
        (inserted 10 ann (codes "h2") 910 ∷ presented 30 (codes "h2") ∷ [])
        (consume 10 (codes "h1") one_session).1).1).0
    ≢ consumed_for ann
unfolding row_of text_eq consume
consume-once_example =
    consume-once 10 40 (codes "h1") ann ann one_session
      (inserted 10 ann (codes "h2") 910 ∷ presented 30 (codes "h2") ∷ []) (refl, tt)
      (refl, (tt, tt)) refl

replay-HasNoSession_example :
    let rows =
      (serve_all
        (inserted 10 ann (codes "h2") 910 ∷ [])
        (consume 10 (codes "h1") one_session).1).1 in
    ((consume 10 (codes "h1") one_session).0 ≡ consumed_for ann)
    × ((consume 20 (codes "h1") rows).0 ≡ reused ann)
    × HasNoSession ann (consume 20 (codes "h1") rows).1
unfolding row_of text_eq
replay-HasNoSession_example =
    replay-HasNoSession 10 20 (codes "h1") one_session ann_row
      (inserted 10 ann (codes "h2") 910 ∷ []) (refl, tt) refl refl (ground arith) (ground arith, tt)

abbrev cookies : List (Text × Text)
cookies = (codes "theme", codes "dark") ∷ (codes "stigmer_refresh", codes "rft_a=b") ∷ []

refresh_cookie-held_example : refresh_cookie (some (cookie_header cookies)) ≡ held_token cookies
unfolding is_clean is_space includes
refresh_cookie-held_example =
    refresh_cookie-held cookies ((refl, refl, refl), ((refl, refl, refl), tt))

-- A token is its own claims, and a hash its own text.
abbrev plain_crypto : Crypto (Unit {0})
plain_crypto = record {
  jwt_verify = λ get_key issuer algorithms token. none;
  sha256_hex = λ s. s;
  bytes_of_hex = λ s. s;
}

abbrev entrances : List (Entrance (Unit {0}))
entrances = bearer_token (λ kid. none) ∷ operator_key (codes "opk_1") ∷ []

from_header-IsEarned_example :
    (PrincipalKind.operator ≢ PrincipalKind.system)
    × ((credential : Text) × (bearer_credential (some (codes "bearer opk_1")) ≡ some credential)
        × IsEarnedSomewhere plain_crypto credential
            (record { id = codes "operator"; kind = PrincipalKind.operator })
            entrances)
unfolding compose_authenticators from_header bearer_credential after_word trim_end trim_start
    is_space first_claim bearer_token_authenticator verify_token operator_key_authenticator
    starts_with verify_operator_key text_eq
from_header-IsEarned_example =
    from_header-IsEarned plain_crypto entrances (some (codes "bearer opk_1"))
      (first_claim (chain plain_crypto entrances))
      (record { id = codes "operator"; kind = PrincipalKind.operator }) refl refl
