-- ===== src/Flexi/Disbursal.antt =====
-- The decisions that disburse the funds of a request at once.
use gdl_finance_v.Flexi.Tenure.{expiry_date_of}
use gdl_finance_v.Flexi.Extension.{extended, initiate_extension}
use gdl_finance_v.Flexi.Saved.{find_request-save_request, after_writes, apply_decision_lem}
use gdl_finance_v.Base.Action.{ok}
use gdl_finance_v.Flexi.Store.{save_request, find_request, max_level, Env}
use gdl_finance_v.Flexi.Status.{
  decision_history, check_workflow, update_status, approved_finally, disbursed, after_decision,
  decide,
}
use gdl_finance_v.Base.{
  ◌++◌, length-append, ap, ◌∙◌, ◌+◌, length, ◌==◌, update_where, arith, true, refl, false, ◌≤◌, ◌≡◌,
  ℕ, List, Option, [], ◌∷◌, none, some,
}
use gdl_finance_v.Flexi.Entity.{
  stage_disbursed, funds_disbursed, FlexiApprovalHistory, InitiateExtensionDto, FlexiDb,
  FlexiRequest, UpdateFlexiRequestStatusDto, ApprovalWorkflowStep, approve, disburse,
}
use gdl_finance_v.Flexi.Checks.{update_status-eq, MayDecide}

-- The last level of the workflow, if any.
abbrev last_level : Option (List ApprovalWorkflowStep) → ℕ
last_level none = 0
last_level (some ss) = max_level ss

final-eq :
    (now admin_id : ℕ) (dto : UpdateFlexiRequestStatusDto)
    (steps : Option (List ApprovalWorkflowStep)) (r : FlexiRequest)
    → dto.status ≡ approve
    → last_level steps ≤ r.current_approval_level
    → decide now admin_id dto steps r ≡ (approved_finally now admin_id r, true)
unfolding decide
final-eq now admin_id dto none r e h = rw e refl
final-eq now admin_id dto (some ss) r e h = rw e (ground arith)

disburse-eq :
    (now admin_id : ℕ) (dto : UpdateFlexiRequestStatusDto)
    (steps : Option (List ApprovalWorkflowStep)) (r : FlexiRequest)
    → dto.status ≡ disburse
    → decide now admin_id dto steps r ≡ (disbursed now r, false)
unfolding decide
disburse-eq now admin_id dto steps r e = rw e refl

-- The run of a final approval, and what it writes.
pub update_status_final :
    (env : Env) (id admin_id : ℕ) (dto : UpdateFlexiRequestStatusDto) (r : FlexiRequest)
    (steps : Option (List ApprovalWorkflowStep)) (db : FlexiDb)
    → MayDecide id admin_id dto r steps db
    → dto.status ≡ approve
    → last_level steps ≤ r.current_approval_level
    → (db' : FlexiDb) × (update_status env id admin_id dto db
        ≡ (ok (approved_finally env.now admin_id r), db'))
      × (db'.requests
          ≡ update_where (λ x. x.id == r.id) (λ _. approved_finally env.now admin_id r) db.requests)
      × (length db'.history ≡ length db.history + 1)
unfolding after_decision disbursed
update_status_final env id admin_id dto r steps db m is_approval last =
    let q = approved_finally env.now admin_id r in
    let (mails, run) =
      apply_decision_lem env admin_id dto steps r db q true
        (final-eq env.now admin_id dto steps r is_approval last) in
    let db1 = after_writes admin_id r.id dto true steps q mails db in
    (
      db1,
      update_status-eq env id admin_id dto r steps db m
          ∙ run
          ∙ ap (λ d. after_decision env admin_id d true q db1) is_approval,
      refl,
      length-append db.history (decision_history admin_id dto true steps q ∷ []),
    )

-- An approval by an admin who passes the checks, of a request without a workflow or at or beyond
-- the last level of its workflow, succeeds, whatever the status of the request was. The request is
-- found again as FUNDS_DISBURSED, disbursed now, expiring after its tenure, and approved now by the
-- admin, with nothing else changed; no request with another id changes. The history grows by one row,
-- of this admin and this request, and an extension of the request can then be initiated.
pub update_status_pays_out :
    (env : Env) (id admin_id : ℕ) (dto : UpdateFlexiRequestStatusDto) (r : FlexiRequest)
    (steps : Option (List ApprovalWorkflowStep)) (db : FlexiDb) (longer : InitiateExtensionDto)
    → MayDecide id admin_id dto r steps db
    → dto.status ≡ approve
    → last_level steps ≤ r.current_approval_level
    → (q x : FlexiRequest) × (h : FlexiApprovalHistory) × (db' db'' : FlexiDb) × (update_status env
          id admin_id dto db
        ≡ (ok q, db'))
      × (find_request id db' ≡ some q)
      × (q ≡ record r {
        status = funds_disbursed;
        current_workflow_stage = stage_disbursed;
        disbursed_at = some env.now;
        expiry_date = expiry_date_of env.now r.tenure r.expiry_date;
        approved_by = some admin_id;
        approved_at = some env.now;
      })
      × (db'.requests ≡ update_where (λ x. x.id == r.id) (λ _. q) db.requests)
      × (db'.history ≡ db.history ++ h ∷ [])
      × (h.request_id ≡ r.id)
      × (h.admin_id ≡ some admin_id)
      × (initiate_extension id longer db' ≡ (ok x, db''))
unfolding after_decision disbursed decision_history save_request initiate_extension find_request
update_status_pays_out env id admin_id dto r steps db longer m is_approval last =
    let q = approved_finally env.now admin_id r in
    let (mails, run) =
      apply_decision_lem env admin_id dto steps r db q true
        (final-eq env.now admin_id dto steps r is_approval last) in
    let db1 = after_writes admin_id r.id dto true steps q mails db in
    let again : find_request id db1 ≡ some q =
      find_request-save_request id r q db m.found refl refl in
    (
      q,
      extended longer q,
      decision_history admin_id dto true steps q,
      db1,
      (save_request (extended longer q) db1).1,
      update_status-eq env id admin_id dto r steps db m
          ∙ run
          ∙ ap (λ d. after_decision env admin_id d true q db1) is_approval,
      again,
      refl,
      refl,
      refl,
      refl,
      refl,
      rw (initiate_extension, again) refl,
    )

-- A direct disbursement by an admin who passes the checks on the workflow succeeds at any level of
-- the workflow, in any status, and also if the payment for an extension is missing: the request,
-- and no other one, is saved as disbursed now, with no approver.
pub update_status_disburse :
    (env : Env) (id admin_id : ℕ) (dto : UpdateFlexiRequestStatusDto) (r : FlexiRequest)
    (steps : Option (List ApprovalWorkflowStep)) (db : FlexiDb)
    → find_request id db ≡ some r
    → check_workflow r admin_id db ≡ (ok steps, db)
    → dto.status ≡ disburse
    → (db' : FlexiDb) × (update_status env id admin_id dto db ≡ (ok (disbursed env.now r), db'))
      × (db'.requests ≡ update_where (λ x. x.id == r.id) (λ _. disbursed env.now r) db.requests)
      × (length db'.history ≡ length db.history + 1)
unfolding after_decision disbursed
update_status_disburse env id admin_id dto r steps db found checked is_payout =
    let q = disbursed env.now r in
    let (mails, run) =
      apply_decision_lem env admin_id dto steps r db q false
        (disburse-eq env.now admin_id dto steps r is_payout) in
    let db1 = after_writes admin_id r.id dto false steps q mails db in
    let m : MayDecide id admin_id dto r steps db = record {
      found = found;
      paid = rw is_payout (ground arith);
      checked = checked;
    } in
    (
      db1,
      update_status-eq env id admin_id dto r steps db m
          ∙ run
          ∙ ap (λ d. after_decision env admin_id d false q db1) is_payout,
      refl,
      length-append db.history (decision_history admin_id dto false steps q ∷ []),
    )
