-- ===== src/ResourceApi/Effects.antt =====
-- An asynchronous function of the code as a state transformer with exceptions: what it wrote
-- before a `throw` stays written.
use stigmer_apps.Common.{◌≡◌, refl, arith}
use stigmer_apps.ResourceApi.Errors.{Failure, ConnectError, connect}

pub data Result {ℓ} (A : Type ℓ) : Type ℓ where
  ok : A → Result A
  throw : Failure → Result A

-- A computation over the world `W`.
abbrev pub Action : Type 0 → Type 0 → Type 0
Action W A = W → Result A × W

module _ {W A : Type 0} where
  abbrev pub pure : A → Action W A
  pure a w = (ok a, w)

  abbrev pub raise : Failure → Action W A
  raise f w = (throw f, w)

  abbrev pub raise_connect : ConnectError → Action W A
  raise_connect e w = (throw (connect e), w)

  -- A synchronous result inside a computation.
  abbrev pub lift : Result A → Action W A
  lift r w = (r, w)

-- What follows the outcome of a computation: the rest, or nothing after a `throw`.
abbrev pub proceed : {W A B : Type 0} → Result A × W → (A → Action W B) → Result B × W
proceed (ok a, w) f = f a w
proceed (throw e, w) f = (throw e, w)

infixl 5 ◌>>=◌ ◌>>◌
abbrev pub ◌>>=◌ : {W A B : Type 0} → Action W A → (A → Action W B) → Action W B
◌>>=◌ m f w = proceed (m w) f

abbrev pub ◌>>◌ : {W A B : Type 0} → Action W A → Action W B → Action W B
m >> k = m >>= λ _. k

-- Only a typed error leaves.
abbrev pub IsTyped : {A : Type 0} → Result A → Type 0
IsTyped (ok _) = Unit
IsTyped (throw f) = (e : ConnectError) × (f ≡ connect e)

pub proceed-IsTyped :
    {W A B : Type 0} (o : Result A × W) (f : A → Action W B)
    → IsTyped o.0
    → ((a : A) (w : W) → IsTyped (f a w).0)
    → IsTyped (proceed o f).0
proceed-IsTyped (ok a, w) f h k = k a w
proceed-IsTyped (throw e, w) f h k = h

-- The rest of a rest.
pub proceed_assoc :
    {W A B C : Type 0} (o : Result A × W) (f : A → Action W B) (g : B → Action W C)
    → proceed (proceed o f) g ≡ proceed o (λ a w. proceed (f a w) g)
proceed_assoc (ok a, w) f g = refl
proceed_assoc (throw e, w) f g = refl

pub proceed-pure : {W A : Type 0} (o : Result A × W) → proceed o pure ≡ o
proceed-pure (ok a, w) = refl
proceed-pure (throw e, w) = refl

-- A computation that succeeded ran its first part and then its second.
pub proceed-eq-ok :
    {W A B : Type 0} (o : Result A × W) (f : A → Action W B) {b : B} {w' : W}
    → proceed o f ≡ (ok b, w')
    → (a : A) × (w : W) × (o ≡ (ok a, w)) × (f a w ≡ (ok b, w'))
proceed-eq-ok (ok a, w) f h = (a, w, refl, h)
proceed-eq-ok (throw e, w) f h = cc

-- A query inside a computation changes nothing.
pub query-eq-ok :
    {W A : Type 0} (r : Result A) (w : W) {a : A} {w' : W}
    → ◌≡◌ {A = Result A × W} (r, w) (ok a, w')
    → (r ≡ ok a) × (w' ≡ w)
query-eq-ok (ok b) w h = (ground arith, ground arith)
query-eq-ok (throw f) w h = cc

-- The same where the first part is a result beside a world that is known.
pub after_query-eq-ok :
    {W A B : Type 0} (r : Result A) (w : W) (f : A → Action W B) {b : B} {w' : W}
    → proceed (r, w) f ≡ (ok b, w')
    → (a : A) × (r ≡ ok a) × (f a w ≡ (ok b, w'))
after_query-eq-ok (ok a) w f h = (a, refl, h)
after_query-eq-ok (throw e) w f h = cc
