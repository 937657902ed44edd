-- ===== src/Flexi/Pending.antt =====
-- Requests that wait for an approval at their level, from one decision to the next.
use gdl_finance_v.Flexi.SkipLaws.{IsSkipped}
use gdl_finance_v.Flexi.Skip.{is_mismatch}
use gdl_finance_v.Base.{
  sym, All-map, ◌∙◌, ◌≤◌, false, ◌==◌, not, update_where, ap, ◌&&◌, All, ℕ, List, find_all,
  find_one, Option, Bool, refl, ◌≡◌, arith, none, some,
}
use gdl_finance_v.Flexi.Entity.{
  Admin, FlexiDb, ApprovalWorkflow, FlexiRequest, ApprovalWorkflowStep, GdlMarketer,
  pending_approval, approval_level,
}
use gdl_finance_v.Flexi.Store.{
  save_request, find_request, find_admin, step_admin, marketer_branch, request_workflow,
  workflow_steps, config,
}
use gdl_finance_v.Flexi.Saved.{find_request-save_request}

abbrev pub Staffed : List ApprovalWorkflowStep → FlexiDb → Type 0
Staffed steps db = All (λ t. (a : Admin) × (step_admin t db ≡ some a)) steps

-- The request is there, at a level from 1 on that is not to be skipped; its workflow has the given
-- steps, each with an admin; and no extension waits for its payment.
pub record Pending (id : ℕ) (r : FlexiRequest) (w : ApprovalWorkflow)
    (steps : List ApprovalWorkflowStep) (db : FlexiDb) : Type 0 where
  pub found : find_request id db ≡ some r
  pub has : request_workflow r db ≡ some w
  pub stored : workflow_steps w db ≡ steps
  pub staffed : Staffed steps db
  pub unextended : (r.is_extension_active && not r.extension_payment_confirmed) ≡ false
  pub started : 1 ≤ r.current_approval_level
  pub kept : ¬ IsSkipped (is_mismatch (marketer_branch r db) db) steps r.current_approval_level

abbrev pub pending_at : ℕ → FlexiRequest → FlexiRequest
pending_at stop r = record r {
  current_approval_level = stop;
  current_workflow_stage = approval_level stop;
  status = pending_approval;
}

pub step_admin-config :
    (s : ApprovalWorkflowStep) (db db' : FlexiDb)
    → config db' ≡ config db
    → step_admin s db' ≡ step_admin s db
unfolding step_admin find_admin
step_admin-config s db db' same =
    ap
      (λ (admins : List Admin). elim s.admin_id [
        | none ↦ none
        | some k ↦ find_one (λ a. a.staff_id == k && not a.is_deleted) admins
      ])
      (ap (λ c. c.0) same)

marketer_branch-config :
    (r : FlexiRequest) (stop : ℕ) (db db' : FlexiDb)
    → config db' ≡ config db
    → marketer_branch (pending_at stop r) db' ≡ marketer_branch r db
unfolding marketer_branch
marketer_branch-config r stop db db' same =
    ap
      (λ (marketers : List GdlMarketer). elim r.marketer_id [
        | none ↦ none
        | some k ↦ elim (find_one (λ (m : GdlMarketer). m.id == k) marketers) [
          | none ↦ none
          | some m ↦ m.office_branch_id
        ]
      ])
      (ap (λ c. c.3) same)

pub request_workflow-config :
    (r : FlexiRequest) (stop : ℕ) (db db' : FlexiDb)
    → config db' ≡ config db
    → request_workflow (pending_at stop r) db' ≡ request_workflow r db
unfolding request_workflow
request_workflow-config r stop db db' same =
    ap
      (λ (workflows : List ApprovalWorkflow). elim r.workflow_id [
        | none ↦ none
        | some k ↦ find_one (λ w. w.id == k && not w.is_deleted) workflows
      ])
      (ap (λ c. c.1) same)

pub workflow_steps-config :
    (w : ApprovalWorkflow) (db db' : FlexiDb)
    → config db' ≡ config db
    → workflow_steps w db' ≡ workflow_steps w db
unfolding workflow_steps
workflow_steps-config w db db' same =
    ap (λ (steps : List ApprovalWorkflowStep). find_all (λ s. s.workflow_id == w.id) steps)
      (ap (λ c. c.2) same)

pub is_mismatch-config :
    (r : FlexiRequest) (stop : ℕ) (s : ApprovalWorkflowStep) (db db' : FlexiDb)
    → config db' ≡ config db
    → is_mismatch (marketer_branch (pending_at stop r) db') db' s
      ≡ is_mismatch (marketer_branch r db) db s
unfolding is_mismatch
is_mismatch-config r stop s db db' same =
    let test : Option Admin → Option ℕ → Bool = λ admin branch.
      s.enforce_branch_restriction && (elim admin [
        | none ↦ false
        | some a ↦ elim a.branch_id [
          | none ↦ false
          | some b ↦ elim branch [ none ↦ false | some c ↦ not (b == c) ]
        ]
      ]) in
    ap (λ admin. test admin (marketer_branch (pending_at stop r) db'))
      (step_admin-config s db db' same)
    ∙ ap (λ branch. test (step_admin s db) branch) (marketer_branch-config r stop db db' same)

pub saved-found :
    (id : ℕ) (r q : FlexiRequest) (db db' : FlexiDb)
    → find_request id db ≡ some r
    → q.id ≡ r.id
    → q.is_deleted ≡ r.is_deleted
    → db'.requests ≡ update_where (λ x. x.id == r.id) (λ _. q) db.requests
    → find_request id db' ≡ some q
unfolding find_request save_request
saved-found id r q db db' found e d rows =
    ap (λ rs. find_one (λ (x : FlexiRequest). x.id == id && not x.is_deleted) rs) (rows ∙ rw e refl)
    ∙ find_request-save_request id r q db found e d

pub Pending-at :
    (id stop : ℕ) (r : FlexiRequest) (w : ApprovalWorkflow) (steps : List ApprovalWorkflowStep)
    (db db' : FlexiDb)
    → config db' ≡ config db
    → find_request id db' ≡ some (pending_at stop r)
    → request_workflow r db ≡ some w
    → workflow_steps w db ≡ steps
    → Staffed steps db
    → (r.is_extension_active && not r.extension_payment_confirmed) ≡ false
    → 1 ≤ stop
    → ¬ IsSkipped (is_mismatch (marketer_branch r db) db) steps stop
    → Pending id (pending_at stop r) w steps db'
Pending-at id stop r w steps db db' same found has stored staffed unextended started kept = record {
  found = found;
  has = request_workflow-config r stop db db' same ∙ has;
  stored = workflow_steps-config w db db' same ∙ stored;
  staffed =
      All-map (λ t. (a : Admin) × (step_admin t db ≡ some a)) steps
        (λ t k. (k.0, step_admin-config t db db' same ∙ k.1)) staffed;
  unextended = unextended;
  started = started;
  kept = λ k. kept (k.0, k.1, sym (is_mismatch-config r stop k.0 db db' same) ∙ k.2);
}

pub Pending-next :
    (id stop : ℕ) (r : FlexiRequest) (w : ApprovalWorkflow) (steps : List ApprovalWorkflowStep)
    (db db' : FlexiDb)
    → Pending id r w steps db
    → config db' ≡ config db
    → db'.requests ≡ update_where (λ x. x.id == r.id) (λ _. pending_at stop r) db.requests
    → r.current_approval_level ≤ stop
    → ¬ IsSkipped (is_mismatch (marketer_branch r db) db) steps stop
    → Pending id (pending_at stop r) w steps db'
Pending-next id stop r w steps db db' p same rows later kept =
    let from = p.started in
    Pending-at id stop r w steps db db' same
      (saved-found id r (pending_at stop r) db db' p.found refl refl rows) p.has p.stored p.staffed
      p.unextended (omega arith) kept
