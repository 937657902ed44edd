-- ===== src/Workflow/Service.antt =====
-- `create`, `update` and `remove` of ApprovalWorkflowService (approval-workflow.service.ts). Names
-- are compared exactly. The plain object that `findOne` answers with is the row of the workflow.
use Prim.Native.String.{◌++◌ as text_append}
use gdl_finance_v.Base.{
  if◌then◌else◌, holds_nat, length, ◌+◌, suc, ◌||◌, ◌&&◌, not, ◌++◌, find_all, ltb, holds_text,
  str_eq, ◌==◌, or_text, update_where, find_one, any, Bool, List, Option, String, ℕ, [], ◌∷◌, none,
  some, true, false,
}
use gdl_finance_v.Flexi.Entity.{
  FlexiApprovalHistory, FlexiRequest, ApprovalWorkflowStep, Admin, ApprovalWorkflow,
  UserAccountStatus, FlexiDb, active,
}
use gdl_finance_v.Base.Action.{
  ◌>>=◌, ◌>>◌, ok, err, pure, throw, throw_if, gets, or_throw, catching, transaction, Action,
}

pub data WorkflowError : Type 0 where
  duplicate_name duplicate_module duplicate_levels level_not_positive : WorkflowError
  admins_not_found workflow_not_found create_failed update_failed : WorkflowError
  database_error type_error : WorkflowError

abbrev pub WorkflowAction : Type 0 → Type 0
WorkflowAction A = Action FlexiDb WorkflowError A

pub record ApprovalWorkflowStepDto : Type 0 where
  pub admin_id : ℕ
  pub level : ℕ
  pub enforce_branch_restriction : Bool

pub record CreateApprovalWorkflowDto : Type 0 where
  pub workflow_name : String
  pub module_name : String
  pub description : Option String
  pub steps : List ApprovalWorkflowStepDto

pub record UpdateApprovalWorkflowDto : Type 0 where
  pub workflow_name : Option String
  pub module_name : Option String
  pub description : Option String
  pub steps : Option (List ApprovalWorkflowStepDto)

abbrev is_account_active : UserAccountStatus → Bool
is_account_active active = true
is_account_active _ = false

-- `new Set(levels).size !== levels.length`
unfoldable pub has_duplicates : List ApprovalWorkflowStepDto → Bool
has_duplicates [] = false
has_duplicates (s ∷ ss) =
    any (λ (t : ApprovalWorkflowStepDto). t.level == s.level) ss || has_duplicates ss

abbrev pub name_taken : String → FlexiDb → Bool
name_taken name db = any (λ (w : ApprovalWorkflow). str_eq w.workflow_name name) db.workflows

-- The look-up among the active workflows, of which soft-deleted ones are left out.
abbrev pub module_active : String → FlexiDb → Bool
module_active module_name db =
    any
      (λ (w : ApprovalWorkflow).
        holds_text w.module_name module_name && (w.is_active && not w.is_deleted))
      db.workflows

-- The unique index on the column `module`.
abbrev pub module_taken : Option String → FlexiDb → Bool
module_taken none db = false
module_taken (some m) db = any (λ (w : ApprovalWorkflow). holds_text w.module_name m) db.workflows

-- The checks on the steps.
unfoldable pub check_steps : List ApprovalWorkflowStepDto → WorkflowAction (Unit {0})
check_steps steps = do
  throw_if (has_duplicates steps) duplicate_levels
  throw_if (any (λ (s : ApprovalWorkflowStepDto). ltb s.level 1) steps) level_not_positive

-- The active admins among those of the steps.
unfoldable pub active_admins : List ApprovalWorkflowStepDto → FlexiDb → List Admin
active_admins steps db =
    find_all
      (λ (a : Admin).
        any (λ (s : ApprovalWorkflowStepDto). s.admin_id == a.staff_id) steps
        && (is_account_active a.account_status && not a.is_deleted))
      db.admins

-- `save` of a new workflow, under the unique indices.
unfoldable pub insert_workflow : ApprovalWorkflow → WorkflowAction ApprovalWorkflow
insert_workflow w db =
    if name_taken w.workflow_name db || module_taken w.module_name db
    then (err database_error, db)
    else (let saved : ApprovalWorkflow = record w { id = db.next_workflow_id } in
        (
          ok saved,
          record db {
            workflows = db.workflows ++ saved ∷ [];
            next_workflow_id = suc db.next_workflow_id;
          },
        ))

abbrev staff_id_of : Option Admin → Option ℕ
staff_id_of none = none
staff_id_of (some a) = some a.staff_id

-- The rows of the steps, with ids from `id` on.
unfoldable pub step_rows :
    ℕ → Option ℕ → List Admin → ℕ → List ApprovalWorkflowStepDto → List ApprovalWorkflowStep
step_rows workflow_id creator admins id [] = []
step_rows workflow_id creator admins id (s ∷ ss) =
    (record {
      id = id;
      workflow_id = workflow_id;
      admin_id = staff_id_of (find_one (λ (a : Admin). a.staff_id == s.admin_id) admins);
      level = s.level;
      created_by = creator;
      enforce_branch_restriction = s.enforce_branch_restriction;
    })
    ∷ step_rows workflow_id creator admins (suc id) ss

unfoldable pub insert_steps :
    ℕ → Option ℕ → List Admin → List ApprovalWorkflowStepDto → WorkflowAction (Unit {0})
insert_steps workflow_id creator admins steps db = (
  ok tt,
  record db {
    steps = db.steps ++ step_rows workflow_id creator admins db.next_step_id steps;
    next_step_id = db.next_step_id + length steps;
  },
)

-- The admins of the steps, all of them active.
unfoldable pub load_admins : List ApprovalWorkflowStepDto → WorkflowAction (List Admin)
load_admins steps = do
  admins ← gets (active_admins steps)
  throw_if (not (length admins == length steps)) admins_not_found
  pure admins

abbrev pub new_workflow : String → Option String → Option String → Option ℕ → ApprovalWorkflow
new_workflow name module_name description creator = record {
  id = 0;
  workflow_name = name;
  module_name = module_name;
  description = description;
  is_active = true;
  created_by = creator;
  updated_by = none;
  is_deleted = false;
}

-- Between `startTransaction` and `commitTransaction` of `create`.
unfoldable pub create_steps : CreateApprovalWorkflowDto → Option ℕ → WorkflowAction ApprovalWorkflow
create_steps dto creator = do
  admins ← load_admins dto.steps
  saved ←
      insert_workflow
        (new_workflow dto.workflow_name (some dto.module_name) dto.description creator)
  insert_steps saved.id creator admins dto.steps
  pure saved

-- The `catch` blocks: exceptions of the service pass, any other one is replaced.
abbrev pub rethrow_as : WorkflowError → WorkflowError → WorkflowError
rethrow_as other database_error = other
rethrow_as other type_error = other
rethrow_as other e = e

unfoldable pub create : CreateApprovalWorkflowDto → Option ℕ → WorkflowAction ApprovalWorkflow
create dto creator = do
  by_name ← gets (name_taken dto.workflow_name)
  throw_if by_name duplicate_name
  by_module ← gets (module_active dto.module_name)
  throw_if by_module duplicate_module
  check_steps dto.steps
  catching (rethrow_as create_failed) (transaction (create_steps dto creator))

unfoldable pub find_workflow : ℕ → FlexiDb → Option ApprovalWorkflow
find_workflow id db =
    find_one (λ (w : ApprovalWorkflow). w.id == id && not w.is_deleted) db.workflows

-- `updateWorkflowDto.steps || workflow.steps.map(…)`: `findOne` has not loaded the relation `steps`,
-- so that `map` of `undefined` throws.
abbrev pub final_steps :
    Option (List ApprovalWorkflowStepDto) → WorkflowAction (List ApprovalWorkflowStepDto)
final_steps none = throw type_error
final_steps (some steps) = pure steps

-- `updatedBy = currentUserId`, which `save` leaves as it is where it is `undefined`.
abbrev pub editor_of : Option ℕ → ApprovalWorkflow → Option ℕ
editor_of none w = w.updated_by
editor_of (some e) w = some e

-- The row archived, under the suffix with the time.
unfoldable pub archived : String → Option ℕ → ApprovalWorkflow → ApprovalWorkflow
archived suffix editor w = record w {
  workflow_name = text_append w.workflow_name suffix;
  module_name = elim w.module_name [
    | none ↦ none
    | some m ↦ (if str_eq m "" then none else some (text_append m suffix))
  ];
  is_active = false;
  updated_by = editor_of editor w;
}

-- `save` of the archived row. Its name and module are new, for the suffix has the time in it; the
-- limits on the lengths of the columns are not modelled.
unfoldable pub archive : String → Option ℕ → ApprovalWorkflow → WorkflowAction (Unit {0})
archive suffix editor w db = (
  ok tt,
  record db {
    workflows =
        update_where (λ (v : ApprovalWorkflow). v.id == w.id) (λ _. archived suffix editor w)
          db.workflows;
  },
)

-- Requests of the old workflow without history move to the new one.
unfoldable pub migrate_requests : ℕ → ℕ → WorkflowAction (Unit {0})
migrate_requests old new db = (
  ok tt,
  record db {
    requests =
        update_where
          (λ (r : FlexiRequest).
            holds_nat r.workflow_id old
            && not (any (λ (h : FlexiApprovalHistory). h.request_id == r.id) db.history))
          (λ r. record r { workflow_id = some new }) db.requests;
  },
)

-- `text || other` of an optional text.
abbrev pub or_option : Option String → Option String → Option String
or_option none other = other
or_option (some s) other = if str_eq s "" then other else some s

abbrev pub or_given : Option String → Option String → Option String
or_given none other = other
or_given (some s) other = some s

-- Between `startTransaction` and `commitTransaction` of `update`.
unfoldable pub update_steps :
    String
    → UpdateApprovalWorkflowDto
    → Option ℕ
    → ApprovalWorkflow
    → WorkflowAction ApprovalWorkflow
update_steps suffix dto editor w = do
  archive suffix editor w
  saved ← insert_workflow (
      new_workflow (or_text dto.workflow_name w.workflow_name)
        (or_option dto.module_name w.module_name) (or_given dto.description w.description) editor)
  steps ← final_steps dto.steps
  admins ← load_admins steps
  insert_steps saved.id editor admins steps
  migrate_requests w.id saved.id
  pure saved

-- A text that is given, is not empty and differs.
abbrev pub changes_text : Option String → Option String → Bool
changes_text none old = false
changes_text (some s) old = not (str_eq s "") && not (holds_text old s)

abbrev pub check_given : Option (List ApprovalWorkflowStepDto) → WorkflowAction (Unit {0})
check_given none = pure tt
check_given (some steps) = check_steps steps

-- The checks of `update` on the names and the steps that it brings.
unfoldable pub check_update :
    UpdateApprovalWorkflowDto → ApprovalWorkflow → WorkflowAction (Unit {0})
check_update dto w = do
  by_name ← gets (name_taken (or_text dto.workflow_name ""))
  throw_if (changes_text dto.workflow_name (some w.workflow_name) && by_name) duplicate_name
  by_module ← gets (module_active (or_text dto.module_name ""))
  throw_if (changes_text dto.module_name w.module_name && by_module) duplicate_module
  check_given dto.steps

unfoldable pub update :
    String → ℕ → UpdateApprovalWorkflowDto → Option ℕ → WorkflowAction ApprovalWorkflow
update suffix id dto editor = do
  found ← gets (find_workflow id)
  w ← or_throw found workflow_not_found
  check_update dto w
  catching (rethrow_as update_failed) (transaction (update_steps suffix dto editor w))

-- `remove`: a soft deletion. `softRemove` writes `deletedAt` alone, as TypeORM documents, so the
-- assignment of `updatedBy` before it is not saved.
unfoldable pub remove : ℕ → Option ℕ → WorkflowAction (Unit {0})
remove id editor = do
  found ← gets (find_workflow id)
  w ← or_throw found workflow_not_found
  λ db. (
    ok tt,
    record db {
      workflows =
          update_where (λ (v : ApprovalWorkflow). v.id == w.id)
            (λ v. record v { is_deleted = true }) db.workflows;
    },
  )
