-- ===== src/Flexi/Status.antt =====
-- `updateStatus` (flexi.service.ts): the decision of an approver on a Flexi request.
use Prim.Native.Nat.{zero}
use gdl_finance_v.Flexi.Tenure.{expiry_date_of}
use gdl_finance_v.Flexi.Skip.{evaluate_and_skip_levels}
use gdl_finance_v.Flexi.Store.{
  type_error, no_steps, branch_restricted, find_admin, max_level, marketer_branch, not_authorized,
  payment_not_confirmed, insert_audit, user_email, attempt, request_not_found, save_history,
  step_at, workflow_steps, no_admin_assigned, find_request, save_request,
  send_approval_notification, request_workflow, step_admin, FlexiAction, Env,
}
use gdl_finance_v.Base.{
  [], ◌∷◌, ◌+◌, ltb, if◌then◌else◌, suc, ◌&&◌, ◌==◌, or_text, not, none, String, ◌-◌, false, true,
  List, some, Bool, Option, ℕ,
}
use gdl_finance_v.Flexi.Entity.{
  stage_rejected, pending_approval, approval_level, status_decided, notify_rejected, disburse,
  notify_disbursed, reject, approve, next_approver, rejected, FlexiDb, FlexiApprovalHistory,
  approved, stage_disbursed, UpdateFlexiRequestStatusDto, funds_disbursed, ApprovalWorkflowStep,
  Admin, FlexiRequest, FlexiRequestStatus, Decision,
}
use gdl_finance_v.Base.Action.{ok, err, pure, gets, throw_if, or_throw, ◌>>=◌, ◌>>◌}

abbrev pub is_approve : Decision → Bool
is_approve approve = true
is_approve reject = false
is_approve disburse = false

abbrev pub is_disbursed : FlexiRequestStatus → Bool
is_disbursed funds_disbursed = true
is_disbursed _ = false

-- `request.current_approval_level || 1`
abbrev pub level_or_one : ℕ → ℕ
level_or_one zero = 1
level_or_one (suc n) = suc n

-- The branch of the marketer and the branch of the admin are known and differ.
abbrev pub branches_differ : Option ℕ → Option ℕ → Bool
branches_differ none other = false
branches_differ (some b) none = false
branches_differ (some b) (some c) = not (b == c)

abbrev pub admin_branch : Option Admin → Option ℕ
admin_branch none = none
admin_branch (some a) = a.branch_id

-- The checks on the step of the current level.
unfoldable pub check_step : FlexiRequest → ℕ → ApprovalWorkflowStep → FlexiAction (Unit {0})
check_step r admin_id s db = elim (step_admin s db) [
  | none ↦ (err no_admin_assigned, db)
  | some a ↦
      if not (a.staff_id == admin_id)
      then (err not_authorized, db)
      else (if s.enforce_branch_restriction
            && branches_differ (marketer_branch r db) (admin_branch (find_admin admin_id db))
          then (err branch_restricted, db)
          else (ok tt, db))
]

-- The checks on the steps of a workflow, which are not empty.
unfoldable pub check_current :
    FlexiRequest → ℕ → List ApprovalWorkflowStep → FlexiAction (Option (List ApprovalWorkflowStep))
check_current r admin_id steps db = elim (step_at (level_or_one r.current_approval_level) steps) [
  | none ↦ (ok (some steps), db)
  | some current ↦ (check_step r admin_id current >> pure (some steps)) db
]

-- The validation of the workflow: the steps that the rest of the method works with, or `none`
-- where the request has no workflow.
unfoldable pub check_workflow : FlexiRequest → ℕ → FlexiAction (Option (List ApprovalWorkflowStep))
check_workflow r admin_id db = elim (request_workflow r db) [
  | none ↦ (ok none, db)
  | some w ↦ elim (workflow_steps w db) [
    | [] ↦ (err no_steps, db)
    | s ∷ ss ↦ check_current r admin_id (s ∷ ss) db
  ]
]

-- The request with its funds disbursed.
unfoldable pub disbursed : ℕ → FlexiRequest → FlexiRequest
disbursed now r = record r {
  status = funds_disbursed;
  current_workflow_stage = stage_disbursed;
  disbursed_at = some now;
  expiry_date = expiry_date_of now r.tenure r.expiry_date;
}

abbrev pub approved_finally : ℕ → ℕ → FlexiRequest → FlexiRequest
approved_finally now admin_id r = record (disbursed now r) {
  approved_by = some admin_id;
  approved_at = some now;
}

-- The request at the next level.
abbrev pub raised : FlexiRequest → FlexiRequest
raised r = record r {
  current_approval_level = r.current_approval_level + 1;
  current_workflow_stage = approval_level (r.current_approval_level + 1);
  status = pending_approval;
}

-- The decision applied to the request, and `isFinalApproval`.
unfoldable pub decide :
    ℕ
    → ℕ
    → UpdateFlexiRequestStatusDto
    → Option (List ApprovalWorkflowStep)
    → FlexiRequest
    → FlexiRequest × Bool
unfolding disbursed
decide now admin_id dto steps r = elim dto.status [
  | approve ↦ elim steps [
    | none ↦ (approved_finally now admin_id r, true)
    | some ss ↦
        if ltb r.current_approval_level (max_level ss)
        then (raised r, false)
        else (approved_finally now admin_id r, true)
  ]
  | reject ↦ (
    record r {
      status = rejected;
      current_workflow_stage = stage_rejected;
      rejected_by = some admin_id;
      rejection_reason = dto.rejection_reason;
    },
    false,
  )
  | disburse ↦ (disbursed now r, false)
]

-- The level of the row for the history.
abbrev history_level : Decision → Bool → Option (List ApprovalWorkflowStep) → FlexiRequest → ℕ
history_level status final none r = 1
history_level approve true (some ss) r = r.current_approval_level
history_level approve false (some ss) r = r.current_approval_level - 1
history_level reject final (some ss) r = r.current_approval_level
history_level disburse final (some ss) r = r.current_approval_level

abbrev history_status : Decision → Bool → FlexiRequestStatus
history_status approve true = funds_disbursed
history_status approve false = approved
history_status reject final = rejected
history_status disburse final = funds_disbursed

abbrev history_comment : Decision → Bool → String
history_comment approve true = "Approved & Disbursed"
history_comment approve false = "Approved"
history_comment reject final = "Rejected"
history_comment disburse final = "Funds Disbursed"

-- The row for the history, on the request as it was saved.
unfoldable pub decision_history :
    ℕ
    → UpdateFlexiRequestStatusDto
    → Bool
    → Option (List ApprovalWorkflowStep)
    → FlexiRequest
    → FlexiApprovalHistory
decision_history admin_id dto final steps r = record {
  request_id = r.id;
  admin_id = some admin_id;
  level = history_level dto.status final steps r;
  status = history_status dto.status final;
  comment = or_text dto.rejection_reason (history_comment dto.status final);
}

-- The address of the approver of the level that the request has moved to.
unfoldable pub next_approver_email :
    Option (List ApprovalWorkflowStep) → FlexiRequest → FlexiDb → Option String
next_approver_email none r db = none
next_approver_email (some ss) r db = elim (step_at r.current_approval_level ss) [
  | none ↦ none
  | some s ↦ elim (step_admin s db) [ none ↦ none | some a ↦ some a.staff_email ]
]

-- The e-mail about the decision.
unfoldable pub notify_decision :
    Env
    → Decision
    → Bool
    → Option (List ApprovalWorkflowStep)
    → FlexiRequest
    → FlexiAction (Unit {0})
notify_decision env approve false steps r db =
    send_approval_notification env next_approver r (next_approver_email steps r db) db
notify_decision env approve true steps r db =
    send_approval_notification env notify_disbursed r (user_email r db) db
notify_decision env reject final steps r db =
    send_approval_notification env notify_rejected r (user_email r db) db
notify_decision env disburse final steps r db =
    send_approval_notification env notify_disbursed r (user_email r db) db

-- What follows the first save: the levels to skip after an approval that was not the last one. The
-- request that `evaluateAndSkipLevels` loads has no relation `user`, so the last e-mail has no
-- address; a request that is not found there has no `status` to read.
unfoldable pub after_decision : Env → ℕ → Decision → Bool → FlexiRequest → FlexiAction FlexiRequest
after_decision env admin_id approve false saved = do
  final ← evaluate_and_skip_levels env saved.id (some admin_id)
  elim final [
    | none ↦ λ db. (err type_error, db)
    | some q ↦
        (if is_disbursed q.status && not (is_disbursed saved.status)
          then send_approval_notification env notify_disbursed q none
          else pure tt)
        >> pure q
  ]
after_decision env admin_id approve true saved = pure saved
after_decision env admin_id reject final saved = pure saved
after_decision env admin_id disburse final saved = pure saved

-- From the loaded request on, its workflow checked.
unfoldable pub apply_decision :
    Env
    → ℕ
    → UpdateFlexiRequestStatusDto
    → Option (List ApprovalWorkflowStep)
    → FlexiRequest
    → FlexiAction FlexiRequest
unfolding decision_history
apply_decision env admin_id dto steps r =
    let (q, final) = decide env.now admin_id dto steps r in
    do
      saved ← save_request q
      let row = decision_history admin_id dto final steps saved
      save_history row
      attempt (notify_decision env dto.status final steps saved)
      insert_audit (record {
        user_id = admin_id;
        action_performed = status_decided dto.status row.level;
        request_id = r.id;
      })
      after_decision env admin_id dto.status final saved

unfoldable pub update_status : Env → ℕ → ℕ → UpdateFlexiRequestStatusDto → FlexiAction FlexiRequest
update_status env id admin_id dto = do
  found ← gets (find_request id)
  r ← or_throw found request_not_found
  throw_if (r.is_extension_active && not r.extension_payment_confirmed && is_approve dto.status)
      payment_not_confirmed
  steps ← check_workflow r admin_id
  apply_decision env admin_id dto steps r
