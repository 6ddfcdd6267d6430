-- ===== src/Authz/Paging/Engine.antt =====
-- packages/authorization/src/engine.ts: the engine over the OpenFGA client. The client's answers are
-- parameters; a message is matched without regard to case by a parameter.
use stigmer_apps.Common.{
  ℕ, zero, suc, Text, codes, ◌++◌, is_empty, if◌then◌else◌, Bool, true, false, List, [], ◌∷◌,
  Option, none, some, ◌≡◌, ◌↔◌, any, is_some, ◌≤◌, append_assoc, append-nil, length, ◌∙◌, ap, arith,
}
use stigmer_apps.ResourceApi.Errors.{bare}
use stigmer_apps.ResourceApi.Effects.{Result, ok, throw}
use stigmer_apps.Authz.Results.{◌>>=◌}
use stigmer_apps.Authz.Reconcile.{TupleKey}

-- A tuple as the server sends it: each part may be missing.
pub record ReadKey : Type 0 where
  pub user : Option Text
  pub relation : Option Text
  pub object : Option Text

pub record Page : Type 0 where
  pub tuples : List (Option ReadKey)
  pub continuation_token : Text

-- The key of an item, if it is there and no part of it is missing or empty.
abbrev pub complete : Option Text → Option Text → Option Text → List TupleKey
complete (some (u ∷ us)) (some (r ∷ rs)) (some (o ∷ os)) =
    record { user = u ∷ us; relation = r ∷ rs; object = o ∷ os } ∷ []
complete _ _ _ = []

unfoldable pub key_of_item : Option ReadKey → List TupleKey
key_of_item none = []
key_of_item (some k) = complete k.user k.relation k.object

unfoldable pub keys_of : List (Option ReadKey) → List TupleKey
keys_of [] = []
keys_of (item ∷ items) = key_of_item item ++ keys_of items

module _ (read : (continuation_token : Option Text) → Result Page) where
  abbrev pub with_keys : List TupleKey → Result Page → List TupleKey
  with_keys all (throw f) = all
  with_keys all (ok page) = all ++ keys_of page.tuples

  abbrev pub next_token : Result Page → Option Text
  next_token (throw f) = none
  next_token (ok page) = some page.continuation_token

  -- What follows a page: the end when it names no token, or the rest of the loop.
  abbrev pub after_page :
      List TupleKey
      → Result Page
      → Option (Result (List TupleKey))
      → Option (Result (List TupleKey))
  after_page all (throw f) rest = some (throw f)
  after_page all (ok page) rest =
      if is_empty page.continuation_token then some (ok (all ++ keys_of page.tuples)) else rest

  unfoldable pub read_from :
      (fuel : ℕ) → Option Text → (tuples : List TupleKey) → Option (Result (List TupleKey))
  read_from zero token tuples = none
  read_from (suc fuel) token tuples =
      after_page tuples (read token)
        (read_from fuel (next_token (read token)) (with_keys tuples (read token)))

  -- `readAll`
  unfoldable pub read_all_pages : (fuel : ℕ) → Option (Result (List TupleKey))
  read_all_pages fuel = read_from fuel none []

  -- The pages that a server hands out from a token on: each but the last names the next.
  pub data Chain : Option Text → List Page → Type 0 where
    last_page :
        (token : Option Text) (p : Page)
        → read token ≡ ok p
        → is_empty p.continuation_token ≡ true
        → Chain token (p ∷ [])
    more_pages :
        (token : Option Text) (p : Page) (ps : List Page)
        → read token ≡ ok p
        → is_empty p.continuation_token ≡ false
        → Chain (some p.continuation_token) ps
        → Chain token (p ∷ ps)

  abbrev pub keys_of_pages : List Page → List TupleKey
  keys_of_pages [] = []
  keys_of_pages (p ∷ ps) = keys_of p.tuples ++ keys_of_pages ps

  read_from_complete :
      (fuel : ℕ) (token : Option Text) (ps : List Page) (all : List TupleKey)
      → Chain token ps
      → length ps ≤ fuel
      → read_from fuel token all ≡ some (ok (all ++ keys_of_pages ps))
  unfolding read_from
  read_from_complete zero token [] all chain l = elim chain [ ]
  read_from_complete (suc fuel) token [] all chain l = elim chain [ ]
  read_from_complete zero token (p ∷ ps) all chain l = absurd (omega arith)
  read_from_complete (suc fuel) token (p ∷ []) all (last_page _ _ h e) l =
      simp (h, e, append-nil (keys_of p.tuples))
  read_from_complete (suc fuel) token (p ∷ ps) all (more_pages _ _ _ h e chain) l =
      simp (h, e)
        (read_from_complete fuel (some p.continuation_token) ps (all ++ keys_of p.tuples) chain
            (omega arith)
          ∙ ap (λ ts. some (ok ts)) (append_assoc all (keys_of p.tuples) (keys_of_pages ps)))

  -- readAll ends and answers the complete tuples of all pages in their order, when the server's pages
  -- come to an end: as many rounds as it has pages are enough.
  pub read_all_pages_complete :
      (fuel : ℕ) (ps : List Page)
      → Chain none ps
      → length ps ≤ fuel
      → read_all_pages fuel ≡ some (ok (keys_of_pages ps))
  unfolding read_all_pages
  read_all_pages_complete fuel ps chain l = read_from_complete fuel none ps [] chain l

-- What the client reports for each tuple of a write.
pub record PerTupleResult : Type 0 where
  pub succeeded : Bool
  pub err : Option Text

-- `assertSettled`, with the test of a message, "already exists" or "does not exist" in any case.
module _ (is_already_settled : (message : Text) → Bool) where
  abbrev pub failed_with : PerTupleResult → Option Text
  failed_with r = if r.succeeded then none else r.err

  abbrev pub refused : Option Text → Option Text
  refused none = none
  refused (some message) = if is_already_settled message then none else some message

  abbrev pub settle_next : (action : Text) → Option Text → Result (Unit {0}) → Result (Unit {0})
  settle_next action none rest = rest
  settle_next action (some message) rest =
      throw (bare (codes "authorization tuple " ++ action ++ codes " failed: " ++ message))

  unfoldable pub assert_settled : List PerTupleResult → (action : Text) → Result (Unit {0})
  assert_settled [] action = ok tt
  assert_settled (r ∷ rs) action =
      settle_next action (refused (failed_with r)) (assert_settled rs action)

  abbrev pub nothing : List TupleKey → List TupleKey → Bool
  nothing [] [] = true
  nothing [] (_ ∷ _) = false
  nothing (_ ∷ _) _ = false

  -- What the client answered to the two halves of a write.
  abbrev pub settled : List PerTupleResult × List PerTupleResult → Result (Unit {0})
  settled (writes, deletes) =
      assert_settled writes (codes "write") >>= λ _. assert_settled deletes (codes "delete")

  abbrev pub answer_of_client :
      {S : Type 0} → Result (List PerTupleResult × List PerTupleResult) × S → Result (Unit {0}) × S
  answer_of_client (throw f, s) = (throw f, s)
  answer_of_client (ok results, s) = (settled results, s)

  -- `write`: what the server has applied stays applied when a result is refused.
  unfoldable pub write_tuples :
      {S : Type 0}
      → (client_write : List TupleKey
          → List TupleKey
          → S
          → Result (List PerTupleResult × List PerTupleResult) × S)
      → (writes deletes : List TupleKey) → S
      → Result (Unit {0}) × S
  write_tuples client_write writes deletes s =
      if nothing writes deletes
      then (ok tt, s)
      else answer_of_client (client_write writes deletes s)

  -- A write is refused exactly if one of the results failed with a message that is not settled.
  abbrev pub is_refused : PerTupleResult → Bool
  is_refused r = is_some (refused (failed_with r))

  pub assert_settled_iff :
      (rs : List PerTupleResult) (action : Text)
      → (assert_settled rs action ≡ ok tt) ↔ (any is_refused rs ≡ false)
  unfolding assert_settled
  assert_settled_iff [] action = ground arith
  assert_settled_iff (r ∷ rs) action = ground (arith, assert_settled_iff rs action)
