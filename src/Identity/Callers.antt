-- ===== src/Identity/Callers.antt =====
-- packages/identity/src: how a request becomes a principal: authenticator.ts, operator-key.ts, the
-- verification in token.ts, and transport.ts. The jose library, SHA-256 and the decoding of
-- hexadecimal are parameters.
pub mod Laws
use stigmer_apps.Common.{
  Text, codes, text_eq, if◌then◌else◌, is_empty, ◌==◌, ◌+◌, ◌&&◌, ◌||◌, not, any, Bool, true, false,
  Option, none, some, List, [], ◌∷◌, ℕ, length, starts_with, is_space, trim, trim_start,
}
use stigmer_apps.ResourceApi.Errors.{bare}
use stigmer_apps.ResourceApi.Effects.{Result, ok, throw}
use stigmer_apps.ResourceApi.Envelope.{PrincipalKind, CallerPrincipal}

-- `undefined` stands for a credential that is not verified.
pub record Authenticator : Type 0 where
  pub name : Text
  pub authenticate : (credential : Text) → Result (Option CallerPrincipal)

abbrev pub operator_key_prefix : Text
operator_key_prefix = codes "opk_"

abbrev pub operator_principal : CallerPrincipal
operator_principal = record { id = codes "operator"; kind = PrincipalKind.operator }

-- The claims that the code reads of a verified token.
pub record Claims : Type 0 where
  pub token_type : Option Text
  pub sub : Option Text

-- The functions of jose and node:crypto. `jwt_verify` is given the look-up of a key by the `kid` of
-- the token's header, the issuer and the algorithms, and answers nothing when it throws.
pub record Crypto (Key : Type 0) : Type 0 where
  pub jwt_verify :
      (get_key : Option Text → Option Key)
      → (issuer : Text) → (algorithms : List Text) → (token : Text) → Option Claims
  pub sha256_hex : Text → Text
  pub bytes_of_hex : Text → List ℕ

abbrev pub token_issuer : Text
token_issuer = codes "stigmer-identity"

abbrev pub user_token_type : Text
user_token_type = codes "user"

abbrev pub signing_algorithm : Text
signing_algorithm = codes "RS256"

module _ {Key : Type 0} (crypto : Crypto Key) where
  -- `hashOperatorKey` and the comparison of two buffers of one length.
  unfoldable pub verify_operator_key : (candidate expected_sha256_hex : Text) → Bool
  verify_operator_key candidate expected =
      let found = crypto.bytes_of_hex (crypto.sha256_hex candidate) in
      let wanted = crypto.bytes_of_hex expected in
      length found == length wanted && text_eq found wanted

  abbrev pub operator_answer : Text → Text → Option CallerPrincipal
  operator_answer expected credential =
      if starts_with operator_key_prefix credential
      then (if verify_operator_key credential expected then some operator_principal else none)
      else none

  unfoldable pub operator_key_authenticator : (operator_key_sha256_hex : Text) → Authenticator
  operator_key_authenticator expected = record {
    name = codes "operator-key";
    authenticate = λ credential. ok (operator_answer expected credential);
  }

  -- `header.kid ? keys.get(header.kid) : undefined`: an empty `kid` is none.
  abbrev pub key_for : (Text → Option Key) → Option Text → Option Key
  key_for keys none = none
  key_for keys (some kid) = if is_empty kid then none else keys kid

  abbrev is_type : Option Text → Bool
  is_type none = false
  is_type (some t) = text_eq t user_token_type

  abbrev of_subject : Option Text → Option CallerPrincipal
  of_subject none = none
  of_subject (some sub) =
      if is_empty sub then none else some (record { id = sub; kind = PrincipalKind.user })

  abbrev pub of_claims : Option Claims → Option CallerPrincipal
  of_claims none = none
  of_claims (some c) = if is_type c.token_type then of_subject c.sub else none

  -- `verify` of the issuer; whatever jose throws is caught.
  unfoldable pub verify_token :
      (verification_keys : Text → Option Key) → Text → Option CallerPrincipal
  verify_token keys token =
      of_claims (crypto.jwt_verify (key_for keys) token_issuer (signing_algorithm ∷ []) token)

  unfoldable pub bearer_token_authenticator :
      (verification_keys : Text → Option Key) → Authenticator
  bearer_token_authenticator keys = record {
    name = codes "bearer-token";
    authenticate = λ credential. ok (verify_token keys credential);
  }

-- One round of the loop: a principal wins, and a throw leaves.
abbrev pub next_claim :
    Result (Option CallerPrincipal)
    → Result (Option CallerPrincipal)
    → Result (Option CallerPrincipal)
next_claim (throw f) rest = throw f
next_claim (ok (some principal)) rest = ok (some principal)
next_claim (ok none) rest = rest

unfoldable pub first_claim : List Authenticator → Text → Result (Option CallerPrincipal)
first_claim [] credential = ok none
first_claim (a ∷ rest) credential =
    next_claim (a.authenticate credential) (first_claim rest credential)

unfoldable pub compose_authenticators :
    List Authenticator → Result (Text → Result (Option CallerPrincipal))
compose_authenticators [] =
    throw (bare (codes "composeAuthenticators: at least one authenticator is required"))
compose_authenticators (a ∷ as') = ok (first_claim (a ∷ as'))

-- A letter of the pattern in either case.
abbrev letter : ℕ → ℕ → Bool
letter small c = c == small || c + 32 == small

-- What follows `Bearer`, in any case.
unfoldable pub after_word : (word s : Text) → Option Text
after_word [] s = some s
after_word (p ∷ ps) [] = none
after_word (p ∷ ps) (c ∷ s) = if letter p c then after_word ps s else none

-- `\s+(\S+)$`
abbrev pub credential_of : Option Text → Option Text
credential_of none = none
credential_of (some []) = none
credential_of (some (c ∷ s)) =
    let rest = trim_start s in
    if is_space c && not (is_empty rest) && not (any is_space rest) then some rest else none

unfoldable pub bearer_credential : Option Text → Option Text
bearer_credential none = none
bearer_credential (some header) =
    if is_empty header then none else credential_of (after_word (codes "bearer") (trim header))

abbrev pub from_credential :
    (Text → Result (Option CallerPrincipal)) → Option Text → Result (Option CallerPrincipal)
from_credential authenticate none = ok none
from_credential authenticate (some credential) = authenticate credential

-- `fromHeader` of the resolver, which both entrances call with their `authorization` header.
unfoldable pub from_header :
    (Text → Result (Option CallerPrincipal)) → Option Text → Result (Option CallerPrincipal)
from_header authenticate header = from_credential authenticate (bearer_credential header)
