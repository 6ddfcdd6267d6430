-- ===== src/Authz/Results.antt =====
-- Chains of answers of which each can fail: a store or an engine that throws ends the request.
use stigmer_apps.Common.{◌≡◌, refl}
use stigmer_apps.ResourceApi.Effects.{Result, ok, throw}

infixl 5 ◌>>=◌
abbrev pub ◌>>=◌ : {Q V : Type 0} → Result Q → (next : Q → Result V) → Result V
throw failure >>= next = throw failure
ok answer >>= next = next answer

-- What a request that succeeded has asked first.
pub >>=-eq-ok :
    {Q V : Type 0} (first : Result Q) (next : Q → Result V) {result : V}
    → (first >>= next) ≡ ok result
    → (answer : Q) × (first ≡ ok answer) × (next answer ≡ ok result)
>>=-eq-ok (throw failure) next failed = cc
>>=-eq-ok (ok answer) next done = (answer, refl, done)
