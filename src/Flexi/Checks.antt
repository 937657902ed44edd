-- ===== src/Flexi/Checks.antt =====
-- The checks that `updateStatus` makes before a decision.
use gdl_finance_v.Base.Action.{pure, resume-eq-ok, ok}
use gdl_finance_v.Flexi.Store.{workflow_steps, request_workflow, step_at, find_request, Env}
use gdl_finance_v.Flexi.Entity.{
  ApprovalWorkflow, FlexiDb, ApprovalWorkflowStep, FlexiRequest, UpdateFlexiRequestStatusDto,
}
use gdl_finance_v.Flexi.Status.{
  check_step, level_or_one, is_approve, apply_decision, check_workflow, check_current,
  update_status,
}
use gdl_finance_v.Base.{
  List-cases, inr, inl, refl, false, not, Option-cases, ◌&&◌, some, ◌≡◌, List, Option, ℕ, ◌∷◌,
}

-- The request is there, no unconfirmed extension stands in the way of the decision, and the admin
-- passes the checks on the workflow, which has the given steps.
pub record MayDecide (id admin_id : ℕ) (dto : UpdateFlexiRequestStatusDto) (r : FlexiRequest)
    (steps : Option (List ApprovalWorkflowStep)) (db : FlexiDb) : Type 0 where
  pub found : find_request id db ≡ some r
  pub paid :
      (r.is_extension_active && not r.extension_payment_confirmed && is_approve dto.status) ≡ false
  pub checked : check_workflow r admin_id db ≡ (ok steps, db)

pub update_status-eq :
    (env : Env) (id admin_id : ℕ) (dto : UpdateFlexiRequestStatusDto) (r : FlexiRequest)
    (steps : Option (List ApprovalWorkflowStep)) (db : FlexiDb)
    → MayDecide id admin_id dto r steps db
    → update_status env id admin_id dto db ≡ apply_decision env admin_id dto steps r db
unfolding update_status
update_status-eq env id admin_id dto r steps db m = rw m.found (rw m.paid (rw m.checked refl))

check_current-eq-ok :
    (r : FlexiRequest) (admin_id : ℕ) (current steps : List ApprovalWorkflowStep) (db db' : FlexiDb)
    → check_current r admin_id current db ≡ (ok (some steps), db')
    → current ≡ steps
unfolding check_current
check_current-eq-ok r admin_id current steps db db' h =
    elim (Option-cases (step_at (level_or_one r.current_approval_level) current)) [
      | inl missing ↦ let same = rw (check_current, missing) at h in cc
      | inr (s, found) ↦
          let (a, db1, run, same) =
            resume-eq-ok (λ _. pure (some current)) (check_step r admin_id s db) (some steps) db'
              (rw (check_current, found) at h) in
          cc
    ]

-- The checks pass only with the steps of the workflow of the request, of which there are some.
pub check_workflow-eq-ok :
    (r : FlexiRequest) (admin_id : ℕ) (steps : List ApprovalWorkflowStep) (db db' : FlexiDb)
    → check_workflow r admin_id db ≡ (ok (some steps), db')
    → (w : ApprovalWorkflow) × (s : ApprovalWorkflowStep) × (ss : List ApprovalWorkflowStep)
      × (request_workflow r db ≡ some w)
      × (workflow_steps w db ≡ s ∷ ss)
      × (s ∷ ss ≡ steps)
unfolding check_workflow
check_workflow-eq-ok r admin_id steps db db' h = elim (Option-cases (request_workflow r db)) [
  | inl missing ↦ let none_left = rw (check_workflow, missing) at h in cc
  | inr (w, found) ↦ elim (List-cases (workflow_steps w db)) [
    | inl empty ↦ let failed = rw (check_workflow, found, empty) at h in cc
    | inr (s, ss, stored) ↦ (
      w,
      s,
      ss,
      found,
      stored,
      check_current-eq-ok r admin_id (s ∷ ss) steps db db'
          (rw (check_workflow, found, stored) at h),
    )
  ]
]
