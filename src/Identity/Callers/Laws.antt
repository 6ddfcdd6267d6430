-- ===== src/Identity/Callers/Laws.antt =====
-- packages/identity/src/authenticator.ts and transport.ts: who can come out of a request.
use stigmer_apps.Common.{
  Text, true, Option, none, some, List, [], ◌∷◌, ◌≡◌, ◌≢◌, refl, ap, sym, ◌∙◌, ◌⊎◌, inl, inr,
  starts_with, arith,
}
use stigmer_apps.ResourceApi.Effects.{Result, ok, throw}
use stigmer_apps.ResourceApi.Envelope.{PrincipalKind, CallerPrincipal}
use stigmer_apps.Identity.Callers.{
  Authenticator, Claims, Crypto, operator_key_prefix, operator_principal, verify_operator_key,
  operator_key_authenticator, of_claims, key_for, token_issuer, signing_algorithm, verify_token,
  bearer_token_authenticator, first_claim, next_claim, compose_authenticators, bearer_credential,
  from_header, from_credential,
}

earned_by : {A B C D : Type 0} → (A → C) → (B → D) → A ⊎ B → C ⊎ D
earned_by f g (inl a) = inl (f a)
earned_by f g (inr b) = inr (g b)

next_claim-some :
    (r rest : Result (Option CallerPrincipal)) {p : CallerPrincipal}
    → next_claim r rest ≡ ok (some p)
    → (r ≡ ok (some p)) ⊎ (rest ≡ ok (some p))
next_claim-some (throw f) rest h = inl h
next_claim-some (ok (some q)) rest h = inl h
next_claim-some (ok none) rest h = inr h

from_credential-some :
    (authenticate : Text → Result (Option CallerPrincipal)) (o : Option Text) {p : CallerPrincipal}
    → from_credential authenticate o ≡ ok (some p)
    → (c : Text) × (o ≡ some c) × (authenticate c ≡ ok (some p))
from_credential-some authenticate none h = cc
from_credential-some authenticate (some c) h = (c, refl, h)

-- The two authenticators of the package.
pub data Entrance (Key : Type 0) : Type 0 where
  bearer_token : (verification_keys : Text → Option Key) → Entrance Key
  operator_key : (sha256_hex : Text) → Entrance Key

abbrev pub authenticator_of : {Key : Type 0} → Crypto Key → Entrance Key → Authenticator
authenticator_of crypto (bearer_token keys) = bearer_token_authenticator crypto keys
authenticator_of crypto (operator_key hash) = operator_key_authenticator crypto hash

abbrev pub chain : {Key : Type 0} → Crypto Key → List (Entrance Key) → List Authenticator
chain crypto [] = []
chain crypto (e ∷ es) = authenticator_of crypto e ∷ chain crypto es

module _ {Key : Type 0} (crypto : Crypto Key) (credential : Text) where
  -- How a principal is earned at one authenticator: as a user, by a token that jose verified with the
  -- type of a user token; as the operator, by a key with the prefix and the hash.
  abbrev pub IsEarned : CallerPrincipal → Entrance Key → Type 0
  IsEarned p (bearer_token keys) =
      (p.kind ≡ PrincipalKind.user) × (verify_token crypto keys credential ≡ some p)
  IsEarned p (operator_key hash) =
      (p ≡ operator_principal)
      × (starts_with operator_key_prefix credential ≡ true)
      × (verify_operator_key crypto credential hash ≡ true)

  abbrev pub IsEarnedSomewhere : CallerPrincipal → List (Entrance Key) → Type 0
  IsEarnedSomewhere p [] = ⊥
  IsEarnedSomewhere p (e ∷ es) = IsEarned p e ⊎ IsEarnedSomewhere p es

  claims-user :
      (o : Option Claims) (p : CallerPrincipal)
      → of_claims crypto o ≡ some p
      → p.kind ≡ PrincipalKind.user
  claims-user none p e = cc
  claims-user (some c) p e = ground arith

  token-user :
      (keys : Text → Option Key) (p : CallerPrincipal)
      → verify_token crypto keys credential ≡ some p
      → p.kind ≡ PrincipalKind.user
  unfolding verify_token
  token-user keys p e =
      claims-user
        (crypto.jwt_verify (key_for crypto keys) token_issuer (signing_algorithm ∷ []) credential) p
        e

  entrance-IsEarned :
      (e : Entrance Key) (p : CallerPrincipal)
      → (authenticator_of crypto e).authenticate credential ≡ ok (some p)
      → IsEarned p e
  unfolding bearer_token_authenticator operator_key_authenticator
  entrance-IsEarned (bearer_token keys) p e =
      let verified : verify_token crypto keys credential ≡ some p = ground arith in
      (token-user keys p verified, verified)
  entrance-IsEarned (operator_key hash) p e = (ground arith, ground arith, ground arith)

  first_claim-IsEarned :
      (es : List (Entrance Key)) (p : CallerPrincipal)
      → first_claim (chain crypto es) credential ≡ ok (some p)
      → IsEarnedSomewhere p es
  unfolding first_claim
  first_claim-IsEarned [] p e = cc
  first_claim-IsEarned (e ∷ es) p h =
      earned_by (entrance-IsEarned e p) (first_claim-IsEarned es p)
        (next_claim-some ((authenticator_of crypto e).authenticate credential) _ h)

  earned-not_system :
      (es : List (Entrance Key)) (p : CallerPrincipal)
      → IsEarnedSomewhere p es
      → p.kind ≢ PrincipalKind.system
  earned-not_system [] p e s = e
  earned-not_system (bearer_token keys ∷ es) p (inl (k, _)) s = cc
  earned-not_system (operator_key hash ∷ es) p (inl (k, _, _)) s = ground arith
  earned-not_system (e ∷ es) p (inr h) s = earned-not_system es p h s

-- Whatever header a request carries, the caller that a chain of the two authenticators makes of it is
-- never the system principal. It was earned with the credential of the header at one of the two: a user
-- by a verified token, the operator by the key.
pub from_header-IsEarned :
    {Key : Type 0} (crypto : Crypto Key) (es : List (Entrance Key)) (header : Option Text)
    (authenticate : Text → Result (Option CallerPrincipal)) (p : CallerPrincipal)
    → compose_authenticators (chain crypto es) ≡ ok authenticate
    → from_header authenticate header ≡ ok (some p)
    → (p.kind ≢ PrincipalKind.system)
      × ((credential : Text) × (bearer_credential header ≡ some credential)
          × IsEarnedSomewhere crypto credential p es)
unfolding compose_authenticators from_header
from_header-IsEarned crypto [] header authenticate p built h = cc
from_header-IsEarned crypto (e ∷ es) header authenticate p built h =
    let same : authenticate ≡ first_claim (chain crypto (e ∷ es)) = ground arith in
    let (c, found, won) = from_credential-some authenticate (bearer_credential header) h in
    let earned = first_claim-IsEarned crypto c (e ∷ es) p (ap (λ f. f c) (sym same) ∙ won) in
    (earned-not_system crypto c (e ∷ es) p earned, (c, found, earned))
