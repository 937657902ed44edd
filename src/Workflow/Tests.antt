-- ===== src/Workflow/Tests.antt =====
-- Runs of the workflow service on a table with one workflow.
use gdl_finance_v.Workflow.Migration.{update-keeps_started}
use gdl_finance_v.Flexi.Store.{find_request}
use gdl_finance_v.Workflow.Unique.{create_answers, Answered, IsUnique}
use gdl_finance_v.Workflow.Laws.{remove_then_create}
use gdl_finance_v.Base.Action.{err}
use gdl_finance_v.Workflow.Service.{
  migrate_requests, insert_steps, active_admins, load_admins, archived, insert_workflow, archive,
  update_steps, has_duplicates, check_steps, check_update, UpdateApprovalWorkflowDto, update,
  find_workflow, CreateApprovalWorkflowDto, create, WorkflowError, remove,
}
use gdl_finance_v.Base.{refl, ◌≡◌, String, [], ◌∷◌, none, some, true, false}
use gdl_finance_v.Flexi.Entity.{
  FlexiRequest, mf_funding, pending_approval, approval_level, skipped, FlexiDb, ApprovalWorkflow,
  Admin, active,
}

abbrev officer : Admin
officer = record {
  staff_id = 11;
  staff_email = "admin@gdl.test";
  branch_id = some 7;
  account_status = active;
  is_deleted = false;
}

abbrev flow : ApprovalWorkflow
flow = record {
  id = 1;
  workflow_name = "Flexi";
  module_name = some "Flexi Automation";
  description = none;
  is_active = true;
  created_by = none;
  updated_by = none;
  is_deleted = false;
}

abbrev removed_flow : ApprovalWorkflow
removed_flow = record flow { is_deleted = true }

abbrev db_of : ApprovalWorkflow → FlexiDb
db_of w = record {
  admins = officer ∷ [];
  workflows = w ∷ [];
  steps = [];
  marketers = [];
  users = [];
  requests = [];
  history = [];
  audit_log = [];
  sent = [];
  next_workflow_id = 2;
  next_step_id = 1;
  next_request_id = 1;
}

abbrev new_flow : String → CreateApprovalWorkflowDto
new_flow name = record {
  workflow_name = name;
  module_name = "Flexi Automation";
  description = none;
  steps = (record { admin_id = 11; level = 1; enforce_branch_restriction = false }) ∷ [];
}

remove_then_create_example :
    (e : WorkflowError) × (create (new_flow "Flexi 2") (some 11) (db_of removed_flow)
      ≡ (err e, db_of removed_flow))
unfolding remove find_workflow
remove_then_create_example =
    remove_then_create 1 (some 11) (some 11) flow (new_flow "Flexi 2") (db_of flow)
      (db_of removed_flow) refl refl refl

create_answers_example :
    IsUnique (create (new_flow "Flexi") (some 11) (db_of removed_flow)).1
    × Answered
        (new_flow "Flexi")
        (db_of removed_flow)
        (create (new_flow "Flexi") (some 11) (db_of removed_flow))
create_answers_example =
    create_answers (new_flow "Flexi") (some 11) (db_of removed_flow)
      (record { names = (tt, tt); modules = (tt, tt) })

abbrev started : FlexiRequest
started = record {
  id = 5;
  user_id = 9;
  agent_id = none;
  marketer_id = some 4;
  request_type = mf_funding;
  status = pending_approval;
  amount = 100000;
  tenure = some "30 Days";
  current_workflow_stage = approval_level 1;
  approved_by = none;
  approved_at = none;
  rejected_by = none;
  rejection_reason = none;
  disbursed_at = none;
  expiry_date = none;
  workflow_id = some 1;
  current_approval_level = 1;
  extension_tenure = none;
  extension_rate = 0;
  extension_amount = 0;
  extension_payment_confirmed = false;
  is_extension_active = false;
  is_deleted = false;
}

-- One request with a row in the history, and one without.
abbrev running_db : FlexiDb
running_db = record (db_of flow) {
  requests = started ∷ (record started { id = 6 }) ∷ [];
  history =
      (record { request_id = 5; admin_id = some 11; level = 1; status = skipped; comment = "" })
      ∷ [];
}

abbrev new_steps : UpdateApprovalWorkflowDto
new_steps = record {
  workflow_name = none;
  module_name = none;
  description = none;
  steps = some ((new_flow "Flexi").steps);
}

abbrev second_flow : ApprovalWorkflow
second_flow = record flow { id = 2; created_by = some 11 }

update-keeps_started_example :
    find_request 5 (update " (archived 1000)" 1 new_steps (some 11) running_db).1 ≡ some started
unfolding update find_request find_workflow check_update check_steps has_duplicates update_steps
    archive insert_workflow archived load_admins active_admins insert_steps migrate_requests
update-keeps_started_example =
    update-keeps_started " (archived 1000)" 1 new_steps (some 11) second_flow 5 started running_db
      (update " (archived 1000)" 1 new_steps (some 11) running_db).1 refl refl refl
