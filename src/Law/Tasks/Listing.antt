-- ===== src/Law/Tasks/Listing.antt =====
-- apps/law/backend/src/domain/task/task-resource.ts, list: the query a caller's request becomes, and
-- what it lets the caller see.
use stigmer_apps.Common.{
  Text, codes, text_eq, if◌then◌else◌, not, ltb, is_empty, ◌&&◌, ◌||◌, Bool, true, false, Option,
  none, some, List, [], ◌∷◌, ℕ, min, table_get, table_has, table_set, table_get-set, All, ◌≡◌, refl,
  ◌⊎◌, inl, inr, ap, sym, ◌∙◌, subst, arith,
}
use stigmer_apps.ResourceApi.Errors.{connect, invalid_argument}
use stigmer_apps.ResourceApi.Effects.{Result, ok, throw}
use stigmer_apps.ResourceApi.Envelope.{CallerPrincipal}
use stigmer_apps.ResourceApi.Store.Filter.{FilterValue, equals, Direction, Nulls, ListQuery}
use stigmer_apps.Authz.Results.{◌>>=◌, >>=-eq-ok}
use stigmer_apps.Authz.Vocabulary.{Relation, user_ref}
use stigmer_apps.Authz.Policy.{FirmMember, Backend}
use stigmer_apps.Authz.Policy.Scopes.{IsListed, IsScope, visible_case_ids-IsScope}
use stigmer_apps.Authz.Policy.Access.{ok-inj}
use stigmer_apps.Authz.Policy.Decide.{require_member, assert_case_content, visible_case_ids}
use stigmer_apps.Law.Tasks.{
  Filter, in_values, is_missing, spread, open_states_filter, overdue_filter,
}

pub data TaskListFilter : Type 0 where
  any_task open_tasks overdue_tasks : TaskListFilter

pub data TaskListScope : Type 0 where
  default_scope mine whole_firm : TaskListScope

pub record ListTasksRequest : Type 0 where
  pub page_size : ℕ
  pub page_offset : ℕ
  pub case_id : Text
  pub assignee_id : Text
  pub filter : TaskListFilter
  pub scope : TaskListScope
  pub unassigned_only : Bool

abbrev is_firm : TaskListScope → Bool
is_firm default_scope = false
is_firm mine = false
is_firm whole_firm = true

abbrev pub predicate_of : (today : Text) → TaskListFilter → Filter
predicate_of today any_task = []
predicate_of today open_tasks = open_states_filter
predicate_of today overdue_tasks = overdue_filter today

abbrev pub visibility : Option (List Text) → Filter
visibility none = []
visibility (some ids) = (codes "caseId", in_values ids) ∷ []

abbrev assignee_filter : Text → Filter
assignee_filter id = if is_empty id then [] else (codes "assigneeId", equals id) ∷ []

abbrev own_id : FirmMember → Text
own_id m = elim m.id [ none ↦ [] | some id ↦ id ]

-- The scope of a list without a case.
abbrev pub firm_scope : ListTasksRequest → FirmMember → Option (List Text) → Filter
firm_scope req m visible =
    if not (is_empty req.assignee_id)
    then spread (visibility visible) ((codes "assigneeId", equals req.assignee_id) ∷ [])
    else if is_firm req.scope || req.unassigned_only
    then visibility visible
    else spread (visibility visible) ((codes "assigneeId", equals (own_id m)) ∷ [])

abbrev pub with_unassigned : Bool → Filter → Filter
with_unassigned true scope = spread scope ((codes "assigneeId", is_missing) ∷ [])
with_unassigned false scope = scope

module _ (b : Backend) where
  abbrev pub case_scope_of : ListTasksRequest → Filter
  case_scope_of req =
      spread ((codes "caseId", equals req.case_id) ∷ []) (assignee_filter req.assignee_id)

  -- An explicit case is gated on its content; otherwise the visible cases bound the list.
  abbrev pub scope_of : ListTasksRequest → CallerPrincipal → FirmMember → Result Filter
  scope_of req caller m =
      if not (is_empty req.case_id)
      then (assert_case_content b caller req.case_id true >>= λ _. ok (case_scope_of req))
      else (visible_case_ids b m >>= λ visible. ok (firm_scope req m visible))

  abbrev pub task_query : ListTasksRequest → (today : Text) → Filter → ListQuery
  task_query req today scope = record {
    limit = if ltb 0 req.page_size then min req.page_size 100 else 20;
    offset = req.page_offset;
    order_by =
        some (record { field = codes "dueDate"; direction = Direction.asc; nulls = Nulls.last });
    filter = spread (with_unassigned req.unassigned_only scope) (predicate_of today req.filter);
  }

  -- The handler of list, from its authorization to its query.
  unfoldable pub list_tasks_query :
      ListTasksRequest → CallerPrincipal → (today : Text) → Result ListQuery
  list_tasks_query req caller today =
      let scoped =
        λ (m : FirmMember). scope_of req caller m >>= λ scope. ok (task_query req today scope) in
      require_member b caller >>= λ m.
      if req.unassigned_only && not (is_empty req.assignee_id)
      then throw (
          connect (
            invalid_argument
              (codes "unassigned_only and assignee_id contradict each other — ask for one")))
      else scoped m

abbrev pub case_key : Text
case_key = codes "caseId"

-- The condition on the case that a scope of cases asks for.
abbrev pub condition_of : Option (List Text) → Option FilterValue
condition_of none = none
condition_of (some ids) = some (in_values ids)

-- The condition of a listing on the case, and why the caller may see what it lets through: one case
-- whose content the caller may touch; no condition, for a partner; or cases that the caller may work.
abbrev pub IsVisibleScope : Backend → CallerPrincipal → Option FilterValue → Type 0
IsVisibleScope b caller o =
    ((id : Text) × (m : FirmMember) × (o ≡ some (equals id))
      × (assert_case_content b caller id true ≡ ok m))
    ⊎ ((m : FirmMember) × (scope : Option (List Text)) × (require_member b caller ≡ ok m)
        × (o ≡ condition_of scope)
        × IsScope b m scope)

spread-other :
    (k : Text) (first second : Filter)
    → table_has k second ≡ false
    → table_get k (spread first second) ≡ table_get k first
unfolding spread table_has
spread-other k first [] h = refl
spread-other k first ((field, value) ∷ second) h =
    ground (
      arith,
      spread-other k (table_set field value first) second,
      table_get-set field k value first,
    )

visibility-case :
    (visible : Option (List Text)) → table_get case_key (visibility visible) ≡ condition_of visible
unfolding table_get text_eq
visibility-case none = refl
visibility-case (some ids) = refl

assigned-case :
    (first : Filter) (value : FilterValue)
    → table_get case_key (spread first ((codes "assigneeId", value) ∷ []))
      ≡ table_get case_key first
unfolding table_has text_eq
assigned-case first value = spread-other case_key first ((codes "assigneeId", value) ∷ []) refl

firm_scope-case :
    (req : ListTasksRequest) (m : FirmMember) (visible : Option (List Text))
    → table_get case_key (firm_scope req m visible) ≡ condition_of visible
firm_scope-case req m visible = ground (
  arith,
  visibility-case visible,
  assigned-case (visibility visible) (equals req.assignee_id),
  assigned-case (visibility visible) (equals (own_id m)),
)

case_scope_of-case :
    (b : Backend) (req : ListTasksRequest)
    → table_get case_key (case_scope_of b req) ≡ some (equals req.case_id)
unfolding table_get table_has text_eq spread table_set
case_scope_of-case b req = ground arith

predicate-other :
    (today : Text) (f : TaskListFilter) → table_has case_key (predicate_of today f) ≡ false
unfolding open_states_filter overdue_filter table_has text_eq
predicate-other today any_task = refl
predicate-other today open_tasks = refl
predicate-other today overdue_tasks = refl

unassigned-case :
    (u : Bool) (scope : Filter)
    → table_get case_key (with_unassigned u scope) ≡ table_get case_key scope
unassigned-case true scope = assigned-case scope is_missing
unassigned-case false scope = refl

task_query-case :
    (b : Backend) (req : ListTasksRequest) (today : Text) (scope : Filter)
    → table_get case_key (task_query b req today scope).filter ≡ table_get case_key scope
task_query-case b req today scope =
    spread-other case_key (with_unassigned req.unassigned_only scope)
      (predicate_of today req.filter) (predicate-other today req.filter)
    ∙ unassigned-case req.unassigned_only scope

-- The engine lists only what it grants.
abbrev pub IsHonest : Backend → Type 0
IsHonest b =
    (m : FirmMember) (objects : List Text)
    → b.list_objects (user_ref m.user_id) Relation.can_work_content (codes "case") ≡ ok objects
    → All (IsListed b m) objects

module _ (b : Backend) (honest : IsHonest b) (caller : CallerPrincipal) where
  scope_of-IsVisible :
      (req : ListTasksRequest) (m : FirmMember) (scope : Filter)
      → require_member b caller ≡ ok m
      → scope_of b req caller m ≡ ok scope
      → IsVisibleScope b caller (table_get case_key scope)
  scope_of-IsVisible req m scope known h =
      elim (is_empty req.case_id)
          as (λ e. is_empty req.case_id ≡ e → IsVisibleScope b caller (table_get case_key scope)) [
            | false ↦ λ e.
                let (n, gated, end) =
                  >>=-eq-ok (assert_case_content b caller req.case_id true)
                    (λ _. ok (case_scope_of b req)) {result = scope} (ground arith) in
                inl (
                  req.case_id,
                  n,
                  ap (table_get case_key) (sym (ok-inj end)) ∙ case_scope_of-case b req,
                  gated,
                )
            | true ↦ λ e.
                let (visible, seen, end) =
                  >>=-eq-ok (visible_case_ids b m) (λ visible. ok (firm_scope req m visible))
                    {result = scope} (ground arith) in
                inr (
                  m,
                  visible,
                  known,
                  ap (table_get case_key) (sym (ok-inj end)) ∙ firm_scope-case req m visible,
                  visible_case_ids-IsScope b m (honest m) visible seen,
                )
          ]
        refl

  -- The tasks that a list asks the store for are bounded by what its caller may see, whatever filters
  -- the request names: by one case whose content the caller may touch, by the cases on which the engine
  -- lets the caller's membership work, or not at all for a partner.
  pub list_tasks_query-IsVisible :
      (req : ListTasksRequest) (today : Text) (q : ListQuery)
      → list_tasks_query b req caller today ≡ ok q
      → IsVisibleScope b caller (table_get case_key q.filter)
  unfolding list_tasks_query
  list_tasks_query-IsVisible req today q h =
      let (m, known, h1) = >>=-eq-ok (require_member b caller) _ h in
      let h2 : (scope_of b req caller m >>= λ scope. ok (task_query b req today scope)) ≡ ok q =
        ground arith in
      let (scope, scoped, h3) = >>=-eq-ok (scope_of b req caller m) _ h2 in
      subst (IsVisibleScope b caller)
        (sym (
          ap (λ (r : ListQuery). table_get case_key r.filter) (sym (ok-inj h3))
          ∙ task_query-case b req today scope))
        (scope_of-IsVisible req m scope known scoped)
