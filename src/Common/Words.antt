-- ===== src/Common/Words.antt =====
-- The JavaScript string methods that the code cuts its inputs with: `trim`, `split` at one code unit,
-- `join`, `startsWith` and `includes` for one code unit.
use stigmer_apps.Common.Tests.{if◌then◌else◌, leb, ◌==◌}
use stigmer_apps.Common.Strings.{Text, is_empty}
use Prim.Native.Nat.{ℕ}
use mathlib.Core.Path.{◌≡◌, refl}
use mathlib.Core.Bool.{Bool, true, false, ◌&&◌, ◌||◌}
use mathlib.Core.List.{List, [], ◌∷◌, ◌++◌}
use native.Mathlib.Omega.{arith}

-- The white space and the line ends of ECMAScript.
unfoldable pub is_space : ℕ → Bool
is_space c =
    leb 9 c && leb c 13
    || c == 32
    || c == 160
    || c == 5760
    || leb 8192 c && leb c 8202
    || c == 8232
    || c == 8233
    || c == 8239
    || c == 8287
    || c == 12288
    || c == 65279

unfoldable pub trim_start : Text → Text
trim_start [] = []
trim_start (c ∷ s) = if is_space c then trim_start s else c ∷ s

unfoldable pub trim_end : Text → Text
trim_end [] = []
trim_end (c ∷ s) = let rest = trim_end s in if is_space c && is_empty rest then [] else c ∷ rest

-- `s.trim()`
abbrev pub trim : Text → Text
trim s = trim_end (trim_start s)

-- `s.split(c)`: the first piece and the others.
unfoldable pub split : ℕ → Text → Text × List Text
split c [] = ([], [])
split c (x ∷ s) =
    let rest = split c s in if x == c then ([], rest.0 ∷ rest.1) else (x ∷ rest.0, rest.1)

-- `[first, ...others].join(c)`
unfoldable pub join : ℕ → Text → List Text → Text
join c first [] = first
join c first (next ∷ others) = first ++ (c ∷ join c next others)

-- `others.join(c)`
abbrev pub join_all : ℕ → List Text → Text
join_all c [] = []
join_all c (first ∷ others) = join c first others

-- `s.startsWith(prefix)`
unfoldable pub starts_with : (prefix s : Text) → Bool
starts_with [] s = true
starts_with (p ∷ ps) [] = false
starts_with (p ∷ ps) (x ∷ s) = p == x && starts_with ps s

-- `s.includes(c)`
unfoldable pub includes : ℕ → Text → Bool
includes c [] = false
includes c (x ∷ s) = x == c || includes c s

join-prepend :
    (c x : ℕ) (first : Text) (others : List Text)
    → join c (x ∷ first) others ≡ x ∷ join c first others
unfolding join
join-prepend c x first [] = refl
join-prepend c x first (next ∷ others) = refl

-- What was cut is what was joined.
pub join-split : (c : ℕ) (s : Text) → join c (split c s).0 (split c s).1 ≡ s
unfolding join split
join-split c [] = refl
join-split c (x ∷ s) = ground (arith, join-split c s, join-prepend c x (split c s).0 (split c s).1)

-- A piece without the separator is cut off whole.
pub split-append :
    (c : ℕ) (p s : Text)
    → includes c p ≡ false
    → split c (p ++ (c ∷ s)) ≡ (p, (split c s).0 ∷ (split c s).1)
unfolding split includes
split-append c [] s h = ground arith
split-append c (x ∷ p) s h = ground (arith, split-append c p s)

pub split-none : (c : ℕ) (p : Text) → includes c p ≡ false → split c p ≡ (p, [])
unfolding split includes
split-none c [] h = refl
split-none c (x ∷ p) h = ground (arith, split-none c p)
