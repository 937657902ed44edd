-- ===== src/Flexi/Progress.antt =====
-- A request that is pending at a level reaches the disbursement of its funds.
use gdl_finance_v.Flexi.Checks.{MayDecide, update_status-eq}
use gdl_finance_v.Flexi.SkipLaws.{IsSkipped}
use gdl_finance_v.Flexi.Safety.{apply_decision-succeeds, check_workflow-Reads}
use gdl_finance_v.Base.Action.{Result, ok}
use gdl_finance_v.Flexi.Store.{
  find_admin, step_at, Env, FlexiError, workflow_steps, request_workflow, marketer_branch,
  step_admin, find_request, config,
}
use gdl_finance_v.Flexi.Skip.{is_mismatch}
use gdl_finance_v.Flexi.Entity.{
  Admin, ApprovalWorkflow, ApprovalWorkflowStep, FlexiDb, FlexiRequest, approve,
  UpdateFlexiRequestStatusDto,
}
use gdl_finance_v.Flexi.Status.{
  level_or_one, is_approve, check_current, check_workflow, check_step, update_status,
}
use gdl_finance_v.Base.{
  ◌==◌, All-find_one, find_one_holds, ==_self, ◌∙◌, ap, All, false, not, ◌&&◌, List, ℕ,
  Option-cases, Bool-cases, inl, inr, refl, ◌≡◌, arith, ◌∷◌, none, some,
}

-- A decision leaves the admins, the workflows, their steps and the marketers as they are.
pub update_status-config :
    (env : Env) (id admin_id : ℕ) (dto : UpdateFlexiRequestStatusDto) (db : FlexiDb)
    → config (update_status env id admin_id dto db).1 ≡ config db
unfolding update_status
update_status-config env id admin_id dto db = elim (Option-cases (find_request id db)) [
  | inl missing ↦ rw (update_status, missing) refl
  | inr (r, found) ↦
      elim (Bool-cases
        (r.is_extension_active && not r.extension_payment_confirmed && is_approve dto.status)) [
          | inl unpaid ↦ rw (update_status, found, unpaid) refl
          | inr paid ↦ elim (check_workflow-Reads r admin_id db) [
            | inl (x, refused) ↦ rw (update_status, found, paid, refused) refl
            | inr (steps, checked) ↦
                let (q, db1, run, kept) =
                  apply_decision-succeeds env id admin_id dto steps r db found in
                let same =
                  update_status-eq env id admin_id dto r steps db
                    (record { found = found; paid = paid; checked = checked }) in
                ap (λ (x : Result FlexiError FlexiRequest × FlexiDb). config x.1) (same ∙ run)
                ∙ kept
          ]
        ]
]

-- The admin of a step is found by the staff id.
step_admin-find :
    (s : ApprovalWorkflowStep) (a : Admin) (db : FlexiDb)
    → step_admin s db ≡ some a
    → find_admin a.staff_id db ≡ some a
unfolding step_admin find_admin
step_admin-find s a db assigned = elim (Option-cases s.admin_id) [
  | inl missing ↦ let e = rw (step_admin, missing) at assigned in cc
  | inr (k, has) ↦
      let found = rw (step_admin, has) at assigned in
      let holds =
        find_one_holds (λ (b : Admin). b.staff_id == k && not b.is_deleted) a db.admins found in
      let same : k ≡ a.staff_id = ground arith in rw same at found
]

-- The admin of a step that is not skipped passes its checks.
step_admin-passes :
    (r : FlexiRequest) (s : ApprovalWorkflowStep) (a : Admin) (db : FlexiDb)
    → step_admin s db ≡ some a
    → is_mismatch (marketer_branch r db) db s ≡ false
    → check_step r a.staff_id s db ≡ (ok tt, db)
unfolding check_step is_mismatch
step_admin-passes r s a db assigned here =
    let known = step_admin-find s a db assigned in
    let self = ==_self a.staff_id in
    let there = rw (is_mismatch, assigned) at here in
    elim (Option-cases a.branch_id) [
      | inl unknown ↦ elim (Option-cases (marketer_branch r db)) [
        | inl nowhere ↦ rw (check_step, assigned, known, self, nowhere) (ground arith)
        | inr (c, branch) ↦ rw (check_step, assigned, known, self, branch, unknown) (ground arith)
      ]
      | inr (d, own) ↦ elim (Option-cases (marketer_branch r db)) [
        | inl nowhere ↦ rw (check_step, assigned, known, self, nowhere) (ground arith)
        | inr (c, branch) ↦
            let near = rw (own, branch) at there in
            rw (check_step, assigned, known, self, branch, own) (ground arith)
      ]
    ]

-- A level without a step to be skipped has someone who may approve there.
abbrev pub approval : UpdateFlexiRequestStatusDto
approval = record { status = approve; rejection_reason = none }

pub may_approve :
    (id : ℕ) (r : FlexiRequest) (w : ApprovalWorkflow) (s : ApprovalWorkflowStep)
    (ss : List ApprovalWorkflowStep) (db : FlexiDb)
    → find_request id db ≡ some r
    → request_workflow r db ≡ some w
    → workflow_steps w db ≡ s ∷ ss
    → All (λ t. (a : Admin) × (step_admin t db ≡ some a)) (s ∷ ss)
    → (r.is_extension_active && not r.extension_payment_confirmed) ≡ false
    → ¬ IsSkipped
        (is_mismatch (marketer_branch r db) db)
        (s ∷ ss)
        (level_or_one r.current_approval_level)
    → (admin_id : ℕ) × MayDecide id admin_id approval r (some (s ∷ ss)) db
unfolding check_workflow check_current step_at
may_approve id r w s ss db found has stored staffed unextended kept =
    let steps = s ∷ ss in
    let level = level_or_one r.current_approval_level in
    let paid : (r.is_extension_active
          && not r.extension_payment_confirmed
          && is_approve approval.status)
        ≡ false =
      ground arith in
    elim (Option-cases (step_at level steps)) [
      | inl missing ↦
          let checked : check_workflow r 0 db ≡ (ok (some steps), db) =
            rw (check_workflow, has, stored, check_current, missing) refl in
          (0, record { found = found; paid = paid; checked = checked })
      | inr (t, at_level) ↦
          let (a, assigned) =
            All-find_one (λ u. (b : Admin) × (step_admin u db ≡ some b)) (λ u. u.level == level) t
              steps staffed at_level in
          elim (Bool-cases (is_mismatch (marketer_branch r db) db t)) [
            | inl skipped ↦ absurd (kept (t, at_level, skipped))
            | inr here ↦
                let passed = step_admin-passes r t a db assigned here in
                let checked : check_workflow r a.staff_id db ≡ (ok (some steps), db) =
                  rw (check_workflow, has, stored, check_current, at_level, passed) refl in
                (a.staff_id, record { found = found; paid = paid; checked = checked })
          ]
    ]
