-- ===== src/Flexi/Safety.antt =====
-- Who may decide on a request, and what a refused decision leaves.
use gdl_finance_v.Flexi.Skip.{evaluate_and_skip_levels}
use gdl_finance_v.Base.Action.{Reads, ok, err}
use gdl_finance_v.Flexi.Store.{
  config, branch_restricted, find_admin, marketer_branch, no_steps, save_request, no_admin_assigned,
  payment_not_confirmed, FlexiError, step_at, workflow_steps, not_authorized, request_workflow,
  find_request, step_admin, Env,
}
use gdl_finance_v.Flexi.Entity.{
  Decision, ApprovalWorkflow, UpdateFlexiRequestStatusDto, Admin, FlexiDb, ApprovalWorkflowStep,
  FlexiRequest,
}
use gdl_finance_v.Flexi.Status.{
  admin_branch, decide, apply_decision, branches_differ, after_decision, is_approve, level_or_one,
  check_current, check_workflow, update_status, check_step,
}
use gdl_finance_v.Base.{
  ◌∙◌, sym, subst, true, Bool, Option, none, inl, inr, List-cases, Option-cases, Bool-cases, inr,
  inl, not, ◌&&◌, refl, Bool-cases, arith, false, ◌==◌, ◌≢◌, List, some, Option-cases, ◌≡◌, ℕ, ◌∷◌,
}
use gdl_finance_v.Flexi.Saved.{
  find_request-save_request, find_request-id, after_writes, apply_decision_lem, decide-same,
}
use gdl_finance_v.Flexi.Approval.{after_decision-eq}
use gdl_finance_v.Flexi.Entity.{approve, reject, disburse}
use gdl_finance_v.Flexi.Checks.{update_status-eq}
use gdl_finance_v.Flexi.Levels.{evaluate_and_skip_levels_lem}

-- A step assigned to someone else refuses.
check_step-refuses :
    (r : FlexiRequest) (admin_id : ℕ) (s : ApprovalWorkflowStep) (a : Admin) (db : FlexiDb)
    → step_admin s db ≡ some a
    → a.staff_id ≢ admin_id
    → check_step r admin_id s db ≡ (err not_authorized, db)
unfolding check_step
check_step-refuses r admin_id s a db assigned other =
    let apart : (a.staff_id == admin_id) ≡ false = ground arith in
    rw (check_step, assigned, apart) refl

-- Where the current level of a request has a step with an admin, a decision of anyone else is
-- refused, whatever it is, and nothing changes.
pub update_status_not_authorized :
    (env : Env) (id admin_id : ℕ) (dto : UpdateFlexiRequestStatusDto) (r : FlexiRequest)
    (w : ApprovalWorkflow) (s t : ApprovalWorkflowStep) (ss : List ApprovalWorkflowStep) (a : Admin)
    (db : FlexiDb)
    → find_request id db ≡ some r
    → request_workflow r db ≡ some w
    → workflow_steps w db ≡ t ∷ ss
    → step_at (level_or_one r.current_approval_level) (t ∷ ss) ≡ some s
    → step_admin s db ≡ some a
    → a.staff_id ≢ admin_id
    → (e : FlexiError) × (update_status env id admin_id dto db ≡ (err e, db))
unfolding update_status check_workflow check_current
update_status_not_authorized env id admin_id dto r w s t ss a db found has stored at_level assigned
      other =
    let refused = check_step-refuses r admin_id s a db assigned other in
    elim (Bool-cases
      (r.is_extension_active && not r.extension_payment_confirmed && is_approve dto.status)) [
        | inl unpaid ↦ (payment_not_confirmed, rw (update_status, found, unpaid) refl)
        | inr paid ↦ (
          not_authorized,
          rw
              (
                update_status, found, paid, check_workflow, has, stored, check_current, at_level,
                refused,
              )
              refl,
        )
      ]

check_step-Reads :
    (r : FlexiRequest) (admin_id : ℕ) (s : ApprovalWorkflowStep) (db : FlexiDb)
    → Reads (check_step r admin_id s) db
unfolding check_step
check_step-Reads r admin_id s db = elim (Option-cases (step_admin s db)) [
  | inl missing ↦ inl (no_admin_assigned, rw (check_step, missing) refl)
  | inr (a, assigned) ↦ elim (Bool-cases (a.staff_id == admin_id)) [
    | inr other ↦ inl (not_authorized, rw (check_step, assigned, other) refl)
    | inl same ↦
        elim (Bool-cases (
          s.enforce_branch_restriction
          && branches_differ (marketer_branch r db) (admin_branch (find_admin admin_id db)))) [
            | inl elsewhere ↦
                inl (branch_restricted, rw (check_step, assigned, same, elsewhere) refl)
            | inr here ↦ inr (tt, rw (check_step, assigned, same, here) refl)
          ]
  ]
]

check_current-Reads :
    (r : FlexiRequest) (admin_id : ℕ) (steps : List ApprovalWorkflowStep) (db : FlexiDb)
    → Reads (check_current r admin_id steps) db
unfolding check_current
check_current-Reads r admin_id steps db =
    elim (Option-cases (step_at (level_or_one r.current_approval_level) steps)) [
      | inl missing ↦ inr (some steps, rw (check_current, missing) refl)
      | inr (s, found) ↦ elim (check_step-Reads r admin_id s db) [
        | inl (e, failed) ↦ inl (e, rw (check_current, found, failed) refl)
        | inr (a, passed) ↦ inr (some steps, rw (check_current, found, passed) refl)
      ]
    ]

pub check_workflow-Reads :
    (r : FlexiRequest) (admin_id : ℕ) (db : FlexiDb) → Reads (check_workflow r admin_id) db
unfolding check_workflow
check_workflow-Reads r admin_id db = elim (Option-cases (request_workflow r db)) [
  | inl missing ↦ inr (none, rw (check_workflow, missing) refl)
  | inr (w, has) ↦ elim (List-cases (workflow_steps w db)) [
    | inl empty ↦ inl (no_steps, rw (check_workflow, has, empty) refl)
    | inr (s, ss, stored) ↦
        rw (check_workflow, has, stored) (check_current-Reads r admin_id (s ∷ ss) db)
  ]
]

evaluate_and_skip_levels-succeeds :
    (env : Env) (id : ℕ) (initiator : Option ℕ) (r : FlexiRequest) (db : FlexiDb)
    → find_request id db ≡ some r
    → (q : FlexiRequest) × (db' : FlexiDb) × (evaluate_and_skip_levels env id initiator db
        ≡ (ok (some q), db'))
      × (config db' ≡ config db)
unfolding evaluate_and_skip_levels
evaluate_and_skip_levels-succeeds env id initiator r db found =
    elim (Option-cases (request_workflow r db)) [
      | inl missing ↦ (r, db, rw (evaluate_and_skip_levels, found, missing) refl, refl)
      | inr (w, has) ↦ elim (List-cases (workflow_steps w db)) [
        | inl empty ↦ (r, db, rw (evaluate_and_skip_levels, found, has, empty) refl, refl)
        | inr (s, ss, stored) ↦
            let (stop, q, db', run, first, skips) =
              evaluate_and_skip_levels_lem env id initiator r w s ss db found has stored in
            (q, db', run, skips.kept)
      ]
    ]

after_decision-succeeds :
    (env : Env) (admin_id : ℕ) (d : Decision) (final : Bool) (q : FlexiRequest) (db : FlexiDb)
    → find_request q.id db ≡ some q
    → (q' : FlexiRequest) × (db' : FlexiDb) × (after_decision env admin_id d final q db
        ≡ (ok q', db'))
      × (config db' ≡ config db)
unfolding after_decision
after_decision-succeeds env admin_id approve false q db found =
    let (q', db', run, kept) =
      evaluate_and_skip_levels-succeeds env q.id (some admin_id) q db found in
    (q', db', after_decision-eq env admin_id q q' db db' run, kept)
after_decision-succeeds env admin_id approve true q db found = (q, db, refl, refl)
after_decision-succeeds env admin_id reject final q db found = (q, db, refl, refl)
after_decision-succeeds env admin_id disburse final q db found = (q, db, refl, refl)

-- A decision that passes the checks succeeds, whatever becomes of the e-mails.
pub apply_decision-succeeds :
    (env : Env) (id admin_id : ℕ) (dto : UpdateFlexiRequestStatusDto)
    (steps : Option (List ApprovalWorkflowStep)) (r : FlexiRequest) (db : FlexiDb)
    → find_request id db ≡ some r
    → (q : FlexiRequest) × (db' : FlexiDb) × (apply_decision env admin_id dto steps r db
        ≡ (ok q, db'))
      × (config db' ≡ config db)
unfolding find_request save_request
apply_decision-succeeds env id admin_id dto steps r db found =
    let (q, final) = decide env.now admin_id dto steps r in
    let (same_id, same_deleted) = decide-same env.now admin_id dto steps r q final refl in
    let (mails, run) = apply_decision_lem env admin_id dto steps r db q final refl in
    let written = after_writes admin_id r.id dto final steps q mails db in
    let (r_id, live) = find_request-id id r db found in
    let again : find_request q.id written ≡ some q =
      subst (λ k. find_request k written ≡ some q) (sym (same_id ∙ r_id))
        (find_request-save_request id r q db found same_id same_deleted) in
    let (q', db', rest, kept) =
      after_decision-succeeds env admin_id dto.status final q written again in
    (q', db', run ∙ rest, kept)

-- A decision that ends in an error changes nothing.
pub update_status-unchanged :
    (env : Env) (id admin_id : ℕ) (dto : UpdateFlexiRequestStatusDto) (e : FlexiError)
    (db db' : FlexiDb)
    → update_status env id admin_id dto db ≡ (err e, db')
    → db' ≡ db
unfolding update_status
update_status-unchanged env id admin_id dto e db db' h = elim (Option-cases (find_request id db)) [
  | inl missing ↦ let failed = rw (update_status, missing) at h in cc
  | inr (r, found) ↦
      elim (Bool-cases
        (r.is_extension_active && not r.extension_payment_confirmed && is_approve dto.status)) [
          | inl unpaid ↦ let failed = rw (update_status, found, unpaid) at h in cc
          | inr paid ↦ elim (check_workflow-Reads r admin_id db) [
            | inl (x, refused) ↦ let failed = rw (update_status, found, paid, refused) at h in cc
            | inr (steps, checked) ↦
                let (q, db1, run, kept) =
                  apply_decision-succeeds env id admin_id dto steps r db found in
                let same =
                  update_status-eq env id admin_id dto r steps db
                    (record { found = found; paid = paid; checked = checked }) in
                cc
          ]
        ]
]
