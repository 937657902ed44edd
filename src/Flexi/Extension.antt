-- ===== src/Flexi/Extension.antt =====
-- `initiateExtension` and `confirmExtensionPayment` (flexi.service.ts).
use gdl_finance_v.Base.Action.{pure, throw_if, or_throw, gets, ◌>>=◌, ◌>>◌, err}
use gdl_finance_v.Base.{◌&&◌, refl, not, ◌==◌, ◌≡◌}
use gdl_finance_v.Flexi.Status.{is_approve, is_disbursed, update_status}
use gdl_finance_v.Flexi.Store.{
  not_level_one_admin, no_level_one_admin, no_workflow, no_extension, not_disbursed,
  payment_not_confirmed, request_not_found, insert_audit, Env, find_request, save_request,
  step_admin, step_at, workflow_steps, request_workflow, FlexiAction,
}
use gdl_finance_v.Base.{◌/◌, Option, false, ◌+◌, List, true, ◌*◌, ℕ, none, some}
use gdl_finance_v.Flexi.Entity.{
  extension_payment_confirmed, UpdateFlexiRequestStatusDto, approval_level, Admin, pending_approval,
  ApprovalWorkflowStep, FlexiDb, FlexiRequest, InitiateExtensionDto, approve,
}

-- `Number(amount) * (Number(rate) / 100)` as a column DECIMAL(18,2) keeps it, rounded half up: amounts
-- and rates are hundredths.
unfoldable pub extension_amount_of : ℕ → ℕ → ℕ
extension_amount_of amount rate = (amount * rate + 5000) / 10000

-- The request with an extension that waits for its payment.
unfoldable pub extended : InitiateExtensionDto → FlexiRequest → FlexiRequest
unfolding extension_amount_of
extended dto r = record r {
  extension_tenure = some dto.extension_tenure;
  extension_rate = dto.extension_rate;
  extension_amount = extension_amount_of r.amount dto.extension_rate;
  is_extension_active = true;
  extension_payment_confirmed = false;
  current_approval_level = 1;
  status = pending_approval;
  current_workflow_stage = approval_level 1;
}

unfoldable pub initiate_extension : ℕ → InitiateExtensionDto → FlexiAction FlexiRequest
initiate_extension id dto = do
  found ← gets (find_request id)
  r ← or_throw found request_not_found
  throw_if (not (is_disbursed r.status)) not_disbursed
  save_request (extended dto r)

-- The steps of the workflow of the request.
unfoldable pub request_steps : FlexiRequest → FlexiDb → Option (List ApprovalWorkflowStep)
request_steps r db = elim (request_workflow r db) [
  | none ↦ none
  | some w ↦ some (workflow_steps w db)
]

-- The admin of the step of a level.
unfoldable pub level_admin : ℕ → List ApprovalWorkflowStep → FlexiDb → Option Admin
level_admin level steps db = elim (step_at level steps) [ none ↦ none | some s ↦ step_admin s db ]

abbrev pub confirmed : FlexiRequest → FlexiRequest
confirmed r = record r { extension_payment_confirmed = true }

-- The check of the approver of level 1, and what follows it.
unfoldable pub confirm_with :
    ℕ → ℕ → FlexiRequest → List ApprovalWorkflowStep → FlexiAction FlexiRequest
confirm_with id admin_id r steps = do
  first ← gets (level_admin 1 steps)
  a ← or_throw first no_level_one_admin
  throw_if (not (a.staff_id == admin_id)) not_level_one_admin
  saved ← save_request (confirmed r)
  insert_audit (record {
    user_id = admin_id;
    action_performed = extension_payment_confirmed;
    request_id = id;
  })
  pure saved

unfoldable pub confirm_extension_payment : ℕ → ℕ → FlexiAction FlexiRequest
confirm_extension_payment id admin_id = do
  found ← gets (find_request id)
  r ← or_throw found request_not_found
  throw_if (not r.is_extension_active) no_extension
  loaded ← gets (request_steps r)
  steps ← or_throw loaded no_workflow
  confirm_with id admin_id r steps

-- Without the payment, an approval is refused.
pub unpaid_refused :
    (env : Env) (id admin_id : ℕ) (decision : UpdateFlexiRequestStatusDto) (r : FlexiRequest)
    (db : FlexiDb)
    → find_request id db ≡ some r
    → r.is_extension_active ≡ true
    → r.extension_payment_confirmed ≡ false
    → decision.status ≡ approve
    → update_status env id admin_id decision db ≡ (err payment_not_confirmed, db)
unfolding update_status
unpaid_refused env id admin_id decision r db found active unpaid e =
    let gate : (r.is_extension_active
          && not r.extension_payment_confirmed
          && is_approve decision.status)
        ≡ true =
      rw (active, unpaid, e) refl in
    rw (update_status, found, gate) refl
