-- ===== src/Identity/Cookies.antt =====
-- packages/identity/src/auth-service.ts: the refresh cookie, read from the request's header and
-- written to the response's.
pub mod Laws
use stigmer_apps.Common.{
  Text, codes, ◌++◌, text_eq, if◌then◌else◌, is_empty, or_undefined, Option, none, some, List, [],
  ◌∷◌, ℕ, trim, split, join_all,
}
use stigmer_apps.Identity.Stores.{refresh_token_ttl_seconds}

abbrev pub refresh_cookie_name : Text
refresh_cookie_name = codes "stigmer_refresh"

-- The pieces of the header from the left; the first with the cookie's name decides.
unfoldable pub cookie_of_parts : List Text → Option Text
cookie_of_parts [] = none
cookie_of_parts (part ∷ parts) =
    let pieces = split 61 (trim part) in
    if text_eq pieces.0 refresh_cookie_name
    then or_undefined (join_all 61 pieces.1)
    else cookie_of_parts parts

unfoldable pub cookie_of_header : Text → Option Text
cookie_of_header header = let parts = split 59 header in cookie_of_parts (parts.0 ∷ parts.1)

-- `refreshCookie`: the header may be missing or empty.
unfoldable pub refresh_cookie : Option Text → Option Text
refresh_cookie none = none
refresh_cookie (some header) = if is_empty header then none else cookie_of_header header

-- `setRefreshCookie`; `decimal` prints a number.
unfoldable pub set_refresh_cookie : (decimal : ℕ → Text) → (token path : Text) → Text
set_refresh_cookie decimal token path =
    refresh_cookie_name
    ++ codes "="
    ++ token
    ++ codes "; Max-Age="
    ++ decimal refresh_token_ttl_seconds
    ++ codes "; Path="
    ++ path
    ++ codes "; HttpOnly; SameSite=Strict; Secure"

-- `clearRefreshCookie`
unfoldable pub clear_refresh_cookie : (path : Text) → Text
clear_refresh_cookie path =
    refresh_cookie_name
    ++ codes "=; Max-Age=0; Path="
    ++ path
    ++ codes "; HttpOnly; SameSite=Strict; Secure"
