-- ===== src/ResourceApi/Errors.antt =====
-- packages/resource-api/src/errors.ts: the error contract. A `ConnectError` crosses the wire with
-- its code; any other exception of the code is one of the further constructors of `Failure`.
use stigmer_apps.Common.{Text, codes, ◌++◌, ◌≡◌, refl}
use stigmer_apps.ResourceApi.Codes.{Code}

pub record ConnectError : Type 0 where
  pub code : Code
  pub message : Text

-- What a `throw` can carry: the typed error, the two errors of store.ts, or a bare `Error`.
pub data Failure : Type 0 where
  connect : ConnectError → Failure
  duplicate_natural_key : (kind value : Text) → Failure
  duplicate_id : (kind id : Text) → Failure
  bare : (message : Text) → Failure

unfoldable pub invalid_argument : Text → ConnectError
invalid_argument m = record { code = Code.invalid_argument; message = m }

-- `resource` 'ref' not found
unfoldable pub not_found : (resource ref : Text) → ConnectError
not_found resource ref = record {
  code = Code.not_found;
  message = resource ++ codes " '" ++ ref ++ codes "' not found";
}

unfoldable pub already_exists : (resource key_label value : Text) → ConnectError
already_exists resource key_label value = record {
  code = Code.already_exists;
  message =
      resource ++ codes " with " ++ key_label ++ codes " '" ++ value ++ codes "' already exists";
}

unfoldable pub already_exists_with_different_content :
    (resource key_label value : Text) → ConnectError
already_exists_with_different_content resource key_label value = record {
  code = Code.already_exists;
  message =
      resource
      ++ codes " with "
      ++ key_label
      ++ codes " '"
      ++ value
      ++ codes "' already exists with different content";
}

unfoldable pub failed_precondition : Text → ConnectError
failed_precondition m = record { code = Code.failed_precondition; message = m }

unfoldable pub unauthenticated : ConnectError
unauthenticated = record { code = Code.unauthenticated; message = codes "Authentication required" }

unfoldable pub permission_denied : Text → ConnectError
permission_denied m = record { code = Code.permission_denied; message = m }

-- The cause goes to the log and never over the wire.
unfoldable pub internal : Text → ConnectError
internal m = record { code = Code.internal; message = m }

-- The code of each error, for proofs that keep the messages shut.
pub not_found-code : (r s : Text) → (not_found r s).code ≡ Code.not_found
unfolding not_found
not_found-code r s = refl

pub already_exists-code : (r l v : Text) → (already_exists r l v).code ≡ Code.already_exists
unfolding already_exists
already_exists-code r l v = refl

pub permission_denied-code : (m : Text) → (permission_denied m).code ≡ Code.permission_denied
unfolding permission_denied
permission_denied-code m = refl

pub unauthenticated-code : unauthenticated.code ≡ Code.unauthenticated
unfolding unauthenticated
unauthenticated-code = refl

pub internal-code : (m : Text) → (internal m).code ≡ Code.internal
unfolding internal
internal-code m = refl
