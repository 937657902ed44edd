-- ===== src/Flexi/Tests.antt =====
-- Runs of the decisions on a request with a workflow of three levels, the second in another branch.
use gdl_finance_v.Flexi.Unpaid.{initiate_extension_unpaid_until, decide_all, DecisionCall}
use gdl_finance_v.Flexi.Tenure.{expiry_date_of}
use gdl_finance_v.Flexi.Approval.{update_status_approve}
use gdl_finance_v.Flexi.Disbursal.{update_status_pays_out}
use gdl_finance_v.Base.Action.{err, ok}
use gdl_finance_v.Flexi.Safety.{update_status_not_authorized}
use gdl_finance_v.Flexi.Skip.{evaluate_and_skip_levels, after_skip, is_mismatch}
use gdl_finance_v.Flexi.Extension.{extended, initiate_extension}
use gdl_finance_v.Flexi.Status.{check_step, check_current, check_workflow, update_status}
use gdl_finance_v.Flexi.Store.{
  save_request, FlexiError, find_admin, payment_not_confirmed, step_admin, step_at, marketer_branch,
  workflow_steps, request_workflow, max_level, find_request, Env,
}
use gdl_finance_v.Flexi.Entity.{
  stage_disbursed, FlexiApprovalHistory, reject, approval_level, mf_funding, active,
  funds_disbursed, rejected, approve, pending_approval, UpdateFlexiRequestStatusDto, FlexiDb,
  FlexiRequestStatus, ApprovalWorkflowStep, Admin, InitiateExtensionDto, Decision, FlexiRequest,
  ApprovalWorkflow,
}
use gdl_finance_v.Base.{
  ◌+◌, arith, ◌-◌, length, ◌==◌, update_where, refl, Bool, ◌≡◌, List, ℕ, [], ◌∷◌, none, some, true,
  false,
}
use gdl_finance_v.Flexi.Checks.{MayDecide}
use gdl_finance_v.Flexi.Levels.{Landed, evaluate_and_skip_levels_lem, Skipped}
use gdl_finance_v.Flexi.SkipLaws.{FirstKept}

abbrev pub admin_of : ℕ → ℕ → Admin
admin_of id branch = record {
  staff_id = id;
  staff_email = "admin@gdl.test";
  branch_id = some branch;
  account_status = active;
  is_deleted = false;
}

abbrev pub step_of : ℕ → ℕ → ApprovalWorkflowStep
step_of level admin = record {
  id = level;
  workflow_id = 1;
  admin_id = some admin;
  level = level;
  created_by = none;
  enforce_branch_restriction = true;
}

abbrev pub flow : ApprovalWorkflow
flow = record {
  id = 1;
  workflow_name = "Flexi";
  module_name = some "Flexi Automation";
  description = none;
  is_active = true;
  created_by = none;
  updated_by = none;
  is_deleted = false;
}

abbrev request_at : ℕ → FlexiRequestStatus → Bool → FlexiRequest
request_at level status extending = record {
  id = 5;
  user_id = 9;
  agent_id = none;
  marketer_id = some 4;
  request_type = mf_funding;
  status = status;
  amount = 100000;
  tenure = some "30 Days";
  current_workflow_stage = approval_level level;
  approved_by = none;
  approved_at = none;
  rejected_by = none;
  rejection_reason = none;
  disbursed_at = none;
  expiry_date = none;
  workflow_id = some 1;
  current_approval_level = level;
  extension_tenure = none;
  extension_rate = 0;
  extension_amount = 0;
  extension_payment_confirmed = false;
  is_extension_active = extending;
  is_deleted = false;
}

abbrev pub db_with : FlexiRequest → FlexiDb
db_with r = record {
  admins = admin_of 11 7 ∷ admin_of 12 8 ∷ admin_of 13 7 ∷ [];
  workflows = flow ∷ [];
  steps = step_of 1 11 ∷ step_of 2 12 ∷ step_of 3 13 ∷ [];
  marketers = (record { id = 4; email = "m@gdl.test"; office_branch_id = some 7 }) ∷ [];
  users = (record { id = 9; email = "u@gdl.test" }) ∷ [];
  requests = r ∷ [];
  history = [];
  audit_log = [];
  sent = [];
  next_workflow_id = 2;
  next_step_id = 4;
  next_request_id = 6;
}

abbrev pub env : Env
env = record { now = 1000; delivers = λ _. true }

abbrev dto_of : Decision → UpdateFlexiRequestStatusDto
dto_of d = record { status = d; rejection_reason = none }

abbrev pub first_level : FlexiRequest
first_level = request_at 1 pending_approval false

abbrev pub steps : List ApprovalWorkflowStep
steps = step_of 2 12 ∷ step_of 3 13 ∷ []

first_level-MayDecide :
    MayDecide 5 11 (dto_of approve) first_level (some (step_of 1 11 ∷ steps)) (db_with first_level)
unfolding find_request check_workflow request_workflow workflow_steps check_current step_at
    check_step step_admin marketer_branch
first_level-MayDecide = record { found = refl; paid = refl; checked = refl }

update_status_approve_example :
    (stop : ℕ) × (db' : FlexiDb) × FirstKept
      (is_mismatch (marketer_branch first_level (db_with first_level)) (db_with first_level))
      (step_of 1 11 ∷ steps)
      2
      stop
    × (update_status env 5 11 (dto_of approve) (db_with first_level)
        ≡ (ok (after_skip 1000 3 stop first_level), db'))
    × (db'.requests
        ≡ update_where
            (λ x. x.id == 5)
            (λ _. after_skip 1000 3 stop first_level)
            (first_level ∷ []))
    × (length db'.history ≡ 0 + (stop - 1))
    × Landed 1000 3 stop first_level (after_skip 1000 3 stop first_level)
unfolding max_level
update_status_approve_example =
    update_status_approve env 5 11 (dto_of approve) first_level (step_of 1 11) steps
      (db_with first_level) first_level-MayDecide refl (omega arith)

evaluate_and_skip_levels_lem_example :
    (stop : ℕ) × (q : FlexiRequest) × (db' : FlexiDb) × (evaluate_and_skip_levels env 5 none
        (db_with (request_at 2 pending_approval false))
      ≡ (ok (some q), db'))
    × FirstKept
        (is_mismatch (some 7) (db_with (request_at 2 pending_approval false)))
        (step_of 1 11 ∷ steps)
        2
        stop
    × Skipped 1000 3 stop
        (request_at 2 pending_approval false)
        q
        (db_with (request_at 2 pending_approval false))
        db'
unfolding find_request request_workflow workflow_steps max_level marketer_branch
evaluate_and_skip_levels_lem_example =
    evaluate_and_skip_levels_lem env 5 none (request_at 2 pending_approval false) flow
      (step_of 1 11) steps (db_with (request_at 2 pending_approval false)) refl refl refl

update_status_not_authorized_example :
    (e : FlexiError) × (update_status env 5 13 (dto_of reject) (db_with first_level)
      ≡ (err e, db_with first_level))
unfolding find_request request_workflow workflow_steps step_at step_admin find_admin
update_status_not_authorized_example =
    update_status_not_authorized env 5 13 (dto_of reject) first_level flow (step_of 1 11)
      (step_of 1 11) steps (admin_of 11 7) (db_with first_level) refl refl refl refl refl
      (λ e. absurd (omega arith))

abbrev last_level_rejected : FlexiRequest
last_level_rejected = request_at 3 rejected false

abbrev longer : InitiateExtensionDto
longer = record { extension_tenure = "60 Days"; extension_rate = 250 }

update_status_pays_out_example :
    (q x : FlexiRequest) × (h : FlexiApprovalHistory) × (db' db'' : FlexiDb) × (update_status env 5
        13
        (dto_of approve)
        (db_with last_level_rejected)
      ≡ (ok q, db'))
    × (find_request 5 db' ≡ some q)
    × (q ≡ record last_level_rejected {
      status = funds_disbursed;
      current_workflow_stage = stage_disbursed;
      disbursed_at = some 1000;
      expiry_date = expiry_date_of 1000 last_level_rejected.tenure last_level_rejected.expiry_date;
      approved_by = some 13;
      approved_at = some 1000;
    })
    × (db'.requests ≡ update_where (λ x. x.id == 5) (λ _. q) (last_level_rejected ∷ []))
    × (db'.history ≡ h ∷ [])
    × (h.request_id ≡ 5)
    × (h.admin_id ≡ some 13)
    × (initiate_extension 5 longer db' ≡ (ok x, db''))
unfolding find_request check_workflow max_level request_workflow workflow_steps check_current
    step_at check_step step_admin marketer_branch
update_status_pays_out_example =
    update_status_pays_out env 5 13 (dto_of approve) last_level_rejected
      (some (step_of 1 11 ∷ steps)) (db_with last_level_rejected) longer
      (record { found = refl; paid = refl; checked = refl }) refl (omega arith)

abbrev unpaid_extension : FlexiRequest
unpaid_extension = request_at 1 pending_approval true

abbrev paid_out : FlexiRequest
paid_out = request_at 3 funds_disbursed false

abbrev turned_down : DecisionCall
turned_down = record { env = env; admin_id = 13; dto = dto_of reject }

initiate_extension_unpaid_until_example :
    update_status env 5 11
      (dto_of approve)
      (decide_all 5 (turned_down ∷ []) (db_with (extended longer paid_out)))
    ≡ (
      err payment_not_confirmed,
      decide_all 5 (turned_down ∷ []) (db_with (extended longer paid_out)),
    )
unfolding initiate_extension find_request save_request extended
initiate_extension_unpaid_until_example =
    initiate_extension_unpaid_until env 5 11 longer (dto_of approve) (extended longer paid_out)
      (db_with paid_out) (db_with (extended longer paid_out)) (turned_down ∷ []) refl refl
