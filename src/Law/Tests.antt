-- ===== src/Law/Tests.antt =====
-- apps/law/backend/src/domain: the theorems on tasks and paging at concrete data.
pub mod Members
pub mod Sweeps
use stigmer_apps.Authz.Policy.Decide.{visible_case_ids, require_member}
use stigmer_apps.Common.{
  Text, codes, text_eq, text_eq_refl, if◌then◌else◌, not, ◌&&◌, is_empty, Bool, true, false, Option,
  none, some, List, [], ◌∷◌, ℕ, All, any, filter, table_get, ◌≡◌, refl, subst, arith,
}
use stigmer_apps.ResourceApi.Codes.{Code}
use stigmer_apps.ResourceApi.Errors.{Failure, connect, invalid_argument}
use stigmer_apps.ResourceApi.Effects.{Result, ok, throw, Action}
use stigmer_apps.ResourceApi.Envelope.{PrincipalKind, CallerPrincipal}
use stigmer_apps.ResourceApi.Port.{StorePort}
use stigmer_apps.ResourceApi.Store.Filter.{ListQuery}
use stigmer_apps.ResourceApi.Store.Memory.{KindConfig, string, filtered_rows, page_of}
use stigmer_apps.Authz.Vocabulary.{Relation, case_ref}
use stigmer_apps.Authz.Policy.{on_firm, member_of, Backend}
use stigmer_apps.Authz.Policy.Access.{ok-inj}
use stigmer_apps.Authz.Policy.Scopes.{IsListed}
use stigmer_apps.Authz.Paging.{list_all, created_page}
use stigmer_apps.Authz.Paging.Complete.{list_all_complete}
use stigmer_apps.Authz.Paging.Engine.{
  Page, ReadKey, last_page, more_pages, keys_of_pages, read_all_pages, read_all_pages_complete,
}
use stigmer_apps.Law.Tasks.{
  Task, TaskState, unspecified, open_state, closed, medium, state_name, state_of, due_of,
  overdue_filter, is_overdue,
}
use stigmer_apps.Law.Tasks.Overdue.{state_node, due_node, overdue_filter-is_overdue}
use stigmer_apps.Law.Tasks.Listing.{
  ListTasksRequest, mine, overdue_tasks, list_tasks_query, case_key, IsVisibleScope, IsHonest,
  list_tasks_query-IsVisible,
}
use stigmer_apps.Law.Reminders.{
  sweep_hearing_reminders, sweep_unrecorded_outcomes, notify, user_id_of_member, sweep_deadline,
  sweep_window, for_each, sweep_deadlines, SweepStore, Notification, run_sweep_once,
}
use stigmer_apps.Law.Reminders.Settled.{HasUniqueKeys, IsMore, run_sweep_once_settled}

-- A firm whose members may work one matter.
abbrev backend : Backend
backend = record {
  firm_member =
      λ user. ok (some (record { id = some (codes "m1"); user_id = user; active = some true }));
  task_case = λ id. ok none;
  document_case = λ id. ok none;
  check =
      λ user relation object. ok (elim relation [ Relation.can_work_content ↦ true | _ ↦ false ]);
  list_objects = λ user relation type. ok (case_ref (codes "c1") ∷ []);
}

backend-IsHonest : IsHonest backend
backend-IsHonest m objects e =
    subst (All (IsListed backend m)) (ok-inj e) ((codes "c1", refl, refl), tt)

abbrev bob : CallerPrincipal
bob = record { id = codes "bob"; kind = PrincipalKind.user }

abbrev my_overdue : ListTasksRequest
my_overdue = record {
  page_size = 0;
  page_offset = 0;
  case_id = [];
  assignee_id = [];
  filter = overdue_tasks;
  scope = mine;
  unassigned_only = false;
}

abbrev asked : Result ListQuery → ListQuery
asked (ok q) = q
asked (throw f) = created_page 0 0

list_tasks_query-IsVisible_example : IsVisibleScope backend bob (
    table_get case_key
      (asked (list_tasks_query backend my_overdue bob (codes "2026-01-02"))).filter)
unfolding list_tasks_query require_member member_of visible_case_ids on_firm
list_tasks_query-IsVisible_example =
    list_tasks_query-IsVisible backend backend-IsHonest bob my_overdue (codes "2026-01-02")
      (asked (list_tasks_query backend my_overdue bob (codes "2026-01-02"))) refl

abbrev task : TaskState → Option Text → Task
task state due = record {
  api_version = [];
  kind = codes "Task";
  metadata = none;
  spec = some (record {
    case_id = codes "c1";
    title = codes "File";
    description = [];
    assignee_id = none;
    due_date = due;
    priority = medium;
  });
  status = some (record { state = state; overdue = false; case_file_number = [] });
}

abbrev tasks : List Task
tasks =
    task open_state (some (codes "2026-01-01"))
    ∷ task closed (some (codes "2026-01-01"))
    ∷ task open_state none
    ∷ task unspecified (some (codes "2026-01-01"))
    ∷ record (task closed (some (codes "2026-01-01"))) { status = none }
    ∷ []

abbrev task_config : KindConfig Task
task_config = record {
  natural_key_field = none;
  natural_key_of = none;
  fields = λ field.
      if text_eq field (codes "state")
      then some (codes "status.state")
      else if text_eq field (codes "dueDate")
      then some (codes "spec.dueDate")
      else none;
  json = λ t path.
      if text_eq path (codes "status.state") then state_node t.status else due_node (due_of t);
}

overdue_filter-is_overdue_example :
    filtered_rows task_config (overdue_filter (codes "2026-01-02")) tasks
    ≡ ok (filter (λ t. is_overdue (due_of t) (state_of t) (codes "2026-01-02")) tasks)
unfolding text_eq
overdue_filter-is_overdue_example =
    overdue_filter-is_overdue task_config (codes "status.state") (codes "spec.dueDate")
      (codes "2026-01-02") tasks (refl, refl, refl, refl, λ t. refl, λ t. refl)
      (λ e. cc, (λ e. cc, (λ e. cc, (λ e. cc, (λ e. cc, tt)))))

abbrev rows : List ℕ
rows = 7 ∷ 8 ∷ 9 ∷ []

abbrev numbers : StorePort (Unit {0}) ℕ
numbers = record {
  insert = λ kind r w. (ok tt, w);
  save = λ kind r w. (ok tt, w);
  get_by_id = λ kind id w. ok none;
  get_by_natural_key = λ kind value w. ok none;
  list = λ kind q w. ok (record { items = page_of q.limit q.offset rows; total_count = 3 });
}

list_all_complete_example : list_all 4 numbers (codes "Case") tt ≡ some (ok rows)
list_all_complete_example =
    list_all_complete numbers (codes "Case") tt rows 3 4 (λ offset. refl) (ground arith)

abbrev key : Text → Option ReadKey
key user =
    some (record {
      user = some user;
      relation = some (codes "member");
      object = some (codes "case:c1");
    })

abbrev first_page : Page
first_page = record { tuples = key (codes "user:a") ∷ none ∷ []; continuation_token = codes "t" }

abbrev second_page : Page
second_page = record { tuples = key (codes "user:b") ∷ []; continuation_token = [] }

abbrev read : Option Text → Result Page
read none = ok first_page
read (some token) = ok second_page

read_all_pages_complete_example :
    read_all_pages read 2 ≡ some (ok (keys_of_pages read (first_page ∷ second_page ∷ [])))
read_all_pages_complete_example =
    read_all_pages_complete read 2 (first_page ∷ second_page ∷ [])
      (more_pages none first_page (second_page ∷ []) refl refl
        (last_page (some (codes "t")) second_page refl refl))
      (ground arith)
