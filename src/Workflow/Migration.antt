-- ===== src/Workflow/Migration.antt =====
-- Which requests an update of their workflow leaves on the old version.
use gdl_finance_v.Flexi.Store.{find_request}
use gdl_finance_v.Flexi.Entity.{FlexiDb, FlexiRequest, ApprovalWorkflow, FlexiApprovalHistory}
use gdl_finance_v.Workflow.Service.{
  update_failed, rethrow_as, or_given, or_option, find_workflow, new_workflow,
  ApprovalWorkflowStepDto, migrate_requests, UpdateApprovalWorkflowDto, insert_steps, archive,
  update, update_steps, WorkflowError, module_taken, name_taken, insert_workflow,
}
use gdl_finance_v.Base.{
  or_text, Option-cases, Option, String, arith, subst, ap, some-injective, sym, holds_nat,
  update_where, ◌||◌, not, ◌&&◌, Bool-cases, ◌==◌, any, ◌≡◌, find_one, Bool, ℕ, List, [], ◌∷◌, some,
  inl, inr, true, false,
}
use gdl_finance_v.Base.Action.{Result, ok, transaction-eq-ok}
use gdl_finance_v.Workflow.Laws.{
  check_update-Reads, update_without_steps, load_admins-Reads, insert_workflow-cases,
}

-- The request has a row in the history.
abbrev pub is_started : List FlexiApprovalHistory → FlexiRequest → Bool
is_started history r = any (λ (h : FlexiApprovalHistory). h.request_id == r.id) history

find_one-migrated :
    (k old new : ℕ) (history : List FlexiApprovalHistory) (r : FlexiRequest)
    (rows : List FlexiRequest)
    → find_one (λ (x : FlexiRequest). x.id == k && not x.is_deleted) rows ≡ some r
    → is_started history r ≡ true
    → find_one
        (λ (x : FlexiRequest). x.id == k && not x.is_deleted)
        (update_where
          (λ (x : FlexiRequest). holds_nat x.workflow_id old && not (is_started history x))
          (λ x. record x { workflow_id = some new })
          rows)
      ≡ some r
find_one-migrated k old new history r [] found started = cc
find_one-migrated k old new history r (x ∷ rows) found started =
    let moves = holds_nat x.workflow_id old && not (is_started history x) in
    elim (Bool-cases (x.id == k && not x.is_deleted)) [
      | inl hit ↦
          let same : x ≡ r = some-injective x r (rw hit at found) in
          let begun : is_started history x ≡ true =
            subst (λ y. is_started history y ≡ true) (sym same) started in
          let stays : moves ≡ false = ground arith in rw (stays, hit) (ap some same)
      | inr miss ↦
          let rest = find_one-migrated k old new history r rows (rw miss at found) started in
          elim (Bool-cases moves) [
            | inl goes ↦ rw (goes, miss) rest
            | inr stays ↦ rw (stays, miss) rest
          ]
    ]

-- What an inserted workflow leaves as it is.
insert_workflow-keeps :
    (w saved : ApprovalWorkflow) (db db' : FlexiDb)
    → insert_workflow w db ≡ (ok saved, db')
    → (db'.requests ≡ db.requests) × (db'.history ≡ db.history)
unfolding insert_workflow
insert_workflow-keeps w saved db db' h =
    elim (Bool-cases (name_taken w.workflow_name db || module_taken w.module_name db)) [
      | inl clash ↦ let failed = rw (insert_workflow, clash) at h in cc
      | inr free ↦
          let done = rw (insert_workflow, free) at h in
          (
            sym (ap (λ (x : Result WorkflowError ApprovalWorkflow × FlexiDb). x.1.requests) done),
            sym (ap (λ (x : Result WorkflowError ApprovalWorkflow × FlexiDb). x.1.history) done),
          )
    ]

update_steps-keeps :
    (suffix : String) (dto : UpdateApprovalWorkflowDto) (editor : Option ℕ)
    (w w' : ApprovalWorkflow) (steps : List ApprovalWorkflowStepDto) (k : ℕ) (r : FlexiRequest)
    (db db' : FlexiDb)
    → dto.steps ≡ some steps
    → find_request k db ≡ some r
    → is_started db.history r ≡ true
    → update_steps suffix dto editor w db ≡ (ok w', db')
    → find_request k db' ≡ some r
unfolding update_steps archive insert_steps migrate_requests find_request
update_steps-keeps suffix dto editor w w' steps k r db db' given found started h =
    let next =
      new_workflow (or_text dto.workflow_name w.workflow_name)
        (or_option dto.module_name w.module_name) (or_given dto.description w.description) editor in
    let db1 = (archive suffix editor w db).1 in
    elim (insert_workflow-cases next db1) [
      | inl clash ↦ let failed = rw (update_steps, clash) at h in cc
      | inr (saved, db2, inserted) ↦
          let (rows, log) = insert_workflow-keeps next saved db1 db2 inserted in
          elim (load_admins-Reads steps db2) [
            | inl (e, refused) ↦ let failed = rw (update_steps, inserted, given, refused) at h in cc
            | inr (admins, loaded) ↦
                let done = rw (update_steps, inserted, given, loaded) at h in
                let found2 : find_one (λ (x : FlexiRequest). x.id == k && not x.is_deleted)
                      db2.requests
                    ≡ some r =
                  subst
                    (λ q. find_one (λ (x : FlexiRequest). x.id == k && not x.is_deleted) q ≡ some r)
                    (sym rows) found in
                let started2 : is_started db2.history r ≡ true =
                  subst (λ q. is_started q r ≡ true) (sym log) started in
                subst
                  (λ q. find_one (λ (x : FlexiRequest). x.id == k && not x.is_deleted) q ≡ some r)
                  (ap (λ (x : Result WorkflowError ApprovalWorkflow × FlexiDb). x.1.requests) done)
                  (find_one-migrated k w.id saved.id db2.history r db2.requests found2 started2)
          ]
    ]

update-eq-ok :
    (suffix : String) (id : ℕ) (dto : UpdateApprovalWorkflowDto) (editor : Option ℕ)
    (w' : ApprovalWorkflow) (db db' : FlexiDb)
    → update suffix id dto editor db ≡ (ok w', db')
    → (w : ApprovalWorkflow) × (update_steps suffix dto editor w db ≡ (ok w', db'))
unfolding update
update-eq-ok suffix id dto editor w' db db' h = elim (Option-cases (find_workflow id db)) [
  | inl missing ↦ let failed = rw (update, missing) at h in cc
  | inr (w, found) ↦ elim (check_update-Reads dto w db) [
    | inl (e, refused) ↦ let failed = rw (update, found, refused) at h in cc
    | inr (a, passed) ↦ (
      w,
      transaction-eq-ok (rethrow_as update_failed) (update_steps suffix dto editor w) w' db db'
          (rw (update, found, passed) at h),
    )
  ]
]

-- An update of a workflow that succeeds leaves every request with a row in the history as it was,
-- on the version of the workflow that it had.
pub update-keeps_started :
    (suffix : String) (id : ℕ) (dto : UpdateApprovalWorkflowDto) (editor : Option ℕ)
    (w' : ApprovalWorkflow) (k : ℕ) (r : FlexiRequest) (db db' : FlexiDb)
    → find_request k db ≡ some r
    → is_started db.history r ≡ true
    → update suffix id dto editor db ≡ (ok w', db')
    → find_request k db' ≡ some r
unfolding update
update-keeps_started suffix id dto editor w' k r db db' found started h =
    elim (Option-cases dto.steps) [
      | inl without ↦ let (e, failed) = update_without_steps suffix id dto editor db without in cc
      | inr (steps, given) ↦
          let (w, run) = update-eq-ok suffix id dto editor w' db db' h in
          update_steps-keeps suffix dto editor w w' steps k r db db' given found started run
    ]
