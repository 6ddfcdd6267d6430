-- ===== src/Identity/Cookies/Laws.antt =====
-- packages/identity/src/auth-service.ts: the cookie that a browser holds is the cookie that is read.
use stigmer_apps.Common.{
  Text, ◌++◌, append-nil, text_eq, if◌then◌else◌, is_empty, or_undefined, includes, is_space, trim,
  trim_start, trim_end, split, split-append, split-none, join-split, ◌≡◌, refl, ap, ◌∙◌, Option,
  some, none, List, [], ◌∷◌, true, false, not, ◌&&◌, ◌==◌, All, map, arith, Bool,
}
use stigmer_apps.Identity.Cookies.{
  refresh_cookie_name, cookie_of_parts, cookie_of_header, refresh_cookie,
}

-- `name=value`
abbrev pub pair : Text × Text → Text
pair (name, value) = name ++ (61 ∷ value)

unfoldable pub cookie_header_rest : List (Text × Text) → Text
cookie_header_rest [] = []
cookie_header_rest (c ∷ cs) = 59 ∷ 32 ∷ (pair c ++ cookie_header_rest cs)

-- The header of a browser that holds these cookies, "; " between them.
unfoldable pub cookie_header : List (Text × Text) → Text
cookie_header [] = []
cookie_header (c ∷ cs) = pair c ++ cookie_header_rest cs

-- No white space and no semicolon, as RFC 6265 wants of names and values.
unfoldable pub is_clean : Text → Bool
is_clean [] = true
is_clean (c ∷ s) = not (is_space c) && not (c == 59) && is_clean s

abbrev pub IsCookie : Text × Text → Type 0
IsCookie (name, value) =
    (is_clean name ≡ true) × (is_clean value ≡ true) × (includes 61 name ≡ false)

-- The value of the first refresh cookie that a browser holds.
unfoldable pub held_token : List (Text × Text) → Option Text
held_token [] = none
held_token ((name, value) ∷ cs) =
    if text_eq name refresh_cookie_name then or_undefined value else held_token cs

clean-append : (a b : Text) → is_clean a ≡ true → is_clean b ≡ true → is_clean (a ++ b) ≡ true
unfolding is_clean
clean-append [] b h k = k
clean-append (x ∷ a) b h k = ground (arith, clean-append a b)

clean-pair : (c : Text × Text) → IsCookie c → is_clean (pair c) ≡ true
unfolding is_clean is_space
clean-pair (name, value) (h, k, _) = clean-append name (61 ∷ value) h k

clean-includes : (s : Text) → is_clean s ≡ true → includes 59 s ≡ false
unfolding is_clean includes
clean-includes [] h = refl
clean-includes (c ∷ s) h = ground (arith, clean-includes s)

clean-trim_end : (s : Text) → is_clean s ≡ true → trim_end s ≡ s
unfolding is_clean trim_end
clean-trim_end [] h = refl
clean-trim_end (c ∷ s) h = ground (arith, clean-trim_end s)

clean-trim : (s : Text) → is_clean s ≡ true → trim s ≡ s
unfolding is_clean trim_start
clean-trim [] h = clean-trim_end [] refl
clean-trim (c ∷ s) h = ground (arith, clean-trim_end (c ∷ s) h)

clean-trim-spaced : (s : Text) → is_clean s ≡ true → trim (32 ∷ s) ≡ s
unfolding trim_start is_space
clean-trim-spaced s h = clean-trim s h

spaced : Text × Text → Text
spaced c = 32 ∷ pair c

-- The header falls into the cookies again.
split-header :
    (s : Text) (cs : List (Text × Text))
    → includes 59 s ≡ false
    → All IsCookie cs
    → split 59 (s ++ cookie_header_rest cs) ≡ (s, map spaced cs)
unfolding cookie_header_rest spaced includes
split-header s [] h a = ap (split 59) (append-nil s) ∙ split-none 59 s h
split-header s (c ∷ cs) h (k, a) =
    let rest = split-header (32 ∷ pair c) cs (clean-includes (pair c) (clean-pair c k)) a in
    split-append 59 s (32 ∷ (pair c ++ cookie_header_rest cs)) h
    ∙ ap (λ (p : Text × List Text). (s, p.0 ∷ p.1)) rest

-- One round of the loop.
part-cookie :
    (part : Text) (parts : List Text) (c : Text × Text)
    → IsCookie c
    → trim part ≡ pair c
    → cookie_of_parts (part ∷ parts)
      ≡ (if text_eq c.0 refresh_cookie_name then or_undefined c.1 else cookie_of_parts parts)
unfolding cookie_of_parts
part-cookie part parts (name, value) (_, _, h) e =
    let cut : split 61 (trim part) ≡ (name, (split 61 value).0 ∷ (split 61 value).1) =
      ap (split 61) e ∙ split-append 61 name value h in
    rw (cut, join-split 61 value)

parts-held :
    (cs : List (Text × Text)) → All IsCookie cs → cookie_of_parts (map spaced cs) ≡ held_token cs
unfolding held_token spaced cookie_of_parts
parts-held [] a = refl
parts-held (c ∷ cs) (k, a) =
    part-cookie (spaced c) (map spaced cs) c k (clean-trim-spaced (pair c) (clean-pair c k))
    ∙ ap (λ o. if text_eq c.0 refresh_cookie_name then or_undefined c.1 else o) (parts-held cs a)

header-full : (name value rest : Text) → is_empty (pair (name, value) ++ rest) ≡ false
header-full [] value rest = refl
header-full (x ∷ name) value rest = refl

-- What a browser sends for its cookies, the service reads as the value of the first refresh cookie.
pub refresh_cookie-held :
    (cs : List (Text × Text))
    → All IsCookie cs
    → refresh_cookie (some (cookie_header cs)) ≡ held_token cs
unfolding refresh_cookie cookie_header cookie_of_header held_token
refresh_cookie-held [] a = refl
refresh_cookie-held (c ∷ cs) (k, a) =
    let full : is_empty (pair c ++ cookie_header_rest cs) ≡ false =
      header-full c.0 c.1 (cookie_header_rest cs) in
    let cut = split-header (pair c) cs (clean-includes (pair c) (clean-pair c k)) a in
    let read = part-cookie (pair c) (map spaced cs) c k (clean-trim (pair c) (clean-pair c k)) in
    rw (full, cut, read, parts-held cs a)
