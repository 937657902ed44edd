-- ===== src/Workflow/Laws.antt =====
-- What the creation and the update of workflows refuse, and what they leave then.
use gdl_finance_v.Flexi.Entity.{FlexiDb, ApprovalWorkflow}
use gdl_finance_v.Workflow.Service.{
  check_update, check_given, type_error, or_given, update_failed, or_option, changes_text,
  new_workflow, workflow_not_found, archive, update_steps, create_failed, level_not_positive,
  rethrow_as, duplicate_module, database_error, admins_not_found, module_active, duplicate_name,
  active_admins, duplicate_levels, update, name_taken, has_duplicates, module_taken, WorkflowError,
  ApprovalWorkflowStepDto, UpdateApprovalWorkflowDto, find_workflow, CreateApprovalWorkflowDto,
  insert_workflow, remove, create, create_steps, load_admins, check_steps,
}
use gdl_finance_v.Base.{
  suc, ◌++◌, or_text, ap, Option-cases, ◌⊎◌, subst, refl, arith, update_where, ltb, any, ◌||◌,
  holds_text, not, length, ◌≡◌, ◌&&◌, Bool-cases, ◌==◌, find_one, Option, List, String, ℕ, [], ◌∷◌,
  none, some, inl, inr, true,
}
use gdl_finance_v.Base.Action.{Result, Reads, ok, err, transaction-unchanged}

pub check_steps-Reads :
    (steps : List ApprovalWorkflowStepDto) (db : FlexiDb) → Reads (check_steps steps) db
unfolding check_steps
check_steps-Reads steps db = elim (Bool-cases (has_duplicates steps)) [
  | inl twice ↦ inl (duplicate_levels, rw (check_steps, twice) refl)
  | inr once ↦ elim (Bool-cases (any (λ (s : ApprovalWorkflowStepDto). ltb s.level 1) steps)) [
    | inl low ↦ inl (level_not_positive, rw (check_steps, once, low) refl)
    | inr high ↦ inr (tt, rw (check_steps, once, high) refl)
  ]
]

pub load_admins-Reads :
    (steps : List ApprovalWorkflowStepDto) (db : FlexiDb) → Reads (load_admins steps) db
unfolding load_admins
load_admins-Reads steps db = elim (Bool-cases (length (active_admins steps db) == length steps)) [
  | inl all ↦ inr (active_admins steps db, rw (load_admins, all) refl)
  | inr some_missing ↦ inl (admins_not_found, rw (load_admins, some_missing) refl)
]

-- The row of a module that is taken cannot be inserted.
create_steps-taken :
    (dto : CreateApprovalWorkflowDto) (creator : Option ℕ) (db : FlexiDb)
    → module_taken (some dto.module_name) db ≡ true
    → (e : WorkflowError) × (create_steps dto creator db ≡ (err e, db))
unfolding create_steps insert_workflow
create_steps-taken dto creator db taken = elim (load_admins-Reads dto.steps db) [
  | inl (e, failed) ↦ (e, rw (create_steps, failed) refl)
  | inr (admins, loaded) ↦
      let clash : (name_taken dto.workflow_name db || module_taken (some dto.module_name) db)
          ≡ true =
        ground arith in
      (database_error, rw (create_steps, loaded, insert_workflow, clash) refl)
]

-- The check that the creation passes, or fails, before its database transaction.
create-taken :
    (dto : CreateApprovalWorkflowDto) (creator : Option ℕ) (db : FlexiDb)
    → module_taken (some dto.module_name) db ≡ true
    → (e : WorkflowError) × (create dto creator db ≡ (err e, db))
unfolding create
create-taken dto creator db taken = elim (Bool-cases (name_taken dto.workflow_name db)) [
  | inl named ↦ (duplicate_name, rw (create, named) refl)
  | inr fresh ↦ elim (Bool-cases (module_active dto.module_name db)) [
    | inl in_use ↦ (duplicate_module, rw (create, fresh, in_use) refl)
    | inr unused ↦ elim (check_steps-Reads dto.steps db) [
      | inl (e, refused) ↦ (e, rw (create, fresh, unused, refused) refl)
      | inr (a, passed) ↦
          let (e, failed) = create_steps-taken dto creator db taken in
          (rethrow_as create_failed e, rw (create, fresh, unused, passed, failed) refl)
    ]
  ]
]

any-removed :
    (id : ℕ) (m : String) (w : ApprovalWorkflow) (rows : List ApprovalWorkflow)
    → find_one (λ (v : ApprovalWorkflow). v.id == id && not v.is_deleted) rows ≡ some w
    → holds_text w.module_name m ≡ true
    → any
        (λ (v : ApprovalWorkflow). holds_text v.module_name m)
        (update_where
          (λ (v : ApprovalWorkflow). v.id == w.id)
          (λ v. record v { is_deleted = true })
          rows)
      ≡ true
any-removed id m w [] found h = cc
any-removed id m w (v ∷ rows) found h = ground (arith, any-removed id m w rows)

-- Once a workflow has been removed, the creation of another one for its module fails, and changes
-- nothing.
pub remove_then_create :
    (id : ℕ) (editor creator : Option ℕ) (w : ApprovalWorkflow) (dto : CreateApprovalWorkflowDto)
    (db db' : FlexiDb)
    → find_workflow id db ≡ some w
    → holds_text w.module_name dto.module_name ≡ true
    → remove id editor db ≡ (ok tt, db')
    → (e : WorkflowError) × (create dto creator db' ≡ (err e, db'))
unfolding remove find_workflow
remove_then_create id editor creator w dto db db' found same h =
    let done = rw (remove, found) at h in
    let taken = any-removed id dto.module_name w db.workflows found same in
    create-taken dto creator db' (
      subst
        (λ rows.
          any (λ (v : ApprovalWorkflow). holds_text v.module_name dto.module_name) rows ≡ true)
        (ap (λ (x : Result WorkflowError (Unit {0}) × FlexiDb). x.1.workflows) done) taken)

pub insert_workflow-cases :
    (w : ApprovalWorkflow) (db : FlexiDb)
    → (insert_workflow w db ≡ (err database_error, db))
      ⊎ ((saved : ApprovalWorkflow) × (db' : FlexiDb) × (insert_workflow w db ≡ (ok saved, db')))
unfolding insert_workflow
insert_workflow-cases w db =
    elim (Bool-cases (name_taken w.workflow_name db || module_taken w.module_name db)) [
      | inl clash ↦ inl (rw (insert_workflow, clash) refl)
      | inr free ↦
          let saved : ApprovalWorkflow = record w { id = db.next_workflow_id } in
          inr (
            saved,
            record db {
              workflows = db.workflows ++ saved ∷ [];
              next_workflow_id = suc db.next_workflow_id;
            },
            rw (insert_workflow, free) refl,
          )
    ]

-- The body of the update, without new steps.
update_steps-fails :
    (suffix : String) (dto : UpdateApprovalWorkflowDto) (editor : Option ℕ) (w : ApprovalWorkflow)
    (db : FlexiDb)
    → dto.steps ≡ none
    → (e : WorkflowError) × (db' : FlexiDb) × (update_steps suffix dto editor w db ≡ (err e, db'))
unfolding update_steps archive
update_steps-fails suffix dto editor w db without =
    let next =
      new_workflow (or_text dto.workflow_name w.workflow_name)
        (or_option dto.module_name w.module_name) (or_given dto.description w.description) editor in
    let db1 = (archive suffix editor w db).1 in
    elim (insert_workflow-cases next db1) [
      | inl clash ↦ (database_error, db1, rw (update_steps, clash) refl)
      | inr (saved, db2, inserted) ↦ (type_error, db2, rw (update_steps, inserted, without) refl)
    ]

check_given-Reads :
    (steps : Option (List ApprovalWorkflowStepDto)) (db : FlexiDb) → Reads (check_given steps) db
check_given-Reads none db = inr (tt, refl)
check_given-Reads (some steps) db = check_steps-Reads steps db

pub check_update-Reads :
    (dto : UpdateApprovalWorkflowDto) (w : ApprovalWorkflow) (db : FlexiDb)
    → Reads (check_update dto w) db
unfolding check_update
check_update-Reads dto w db =
    elim (Bool-cases (
      changes_text dto.workflow_name (some w.workflow_name)
      && name_taken (or_text dto.workflow_name "") db)) [
        | inl named ↦ inl (duplicate_name, rw (check_update, named) refl)
        | inr fresh ↦
            elim (Bool-cases (
              changes_text dto.module_name w.module_name
              && module_active (or_text dto.module_name "") db)) [
                | inl in_use ↦ inl (duplicate_module, rw (check_update, fresh, in_use) refl)
                | inr unused ↦ rw (check_update, fresh, unused) (check_given-Reads dto.steps db)
              ]
      ]

-- An update of a workflow that brings no new steps fails and changes nothing.
pub update_without_steps :
    (suffix : String) (id : ℕ) (dto : UpdateApprovalWorkflowDto) (editor : Option ℕ) (db : FlexiDb)
    → dto.steps ≡ none
    → (e : WorkflowError) × (update suffix id dto editor db ≡ (err e, db))
unfolding update
update_without_steps suffix id dto editor db without = elim (Option-cases (find_workflow id db)) [
  | inl missing ↦ (workflow_not_found, rw (update, missing) refl)
  | inr (w, found) ↦ elim (check_update-Reads dto w db) [
    | inl (e, refused) ↦ (e, rw (update, found, refused) refl)
    | inr (a, passed) ↦
        let (e, db1, failed) = update_steps-fails suffix dto editor w db without in
        (rethrow_as update_failed e, rw (update, found, passed, failed) refl)
  ]
]

-- A creation that fails changes nothing.
pub create-unchanged :
    (dto : CreateApprovalWorkflowDto) (creator : Option ℕ) (e : WorkflowError) (db db' : FlexiDb)
    → create dto creator db ≡ (err e, db')
    → db' ≡ db
unfolding create
create-unchanged dto creator e db db' h = elim (Bool-cases (name_taken dto.workflow_name db)) [
  | inl named ↦ let failed = rw (create, named) at h in cc
  | inr fresh ↦ elim (Bool-cases (module_active dto.module_name db)) [
    | inl in_use ↦ let failed = rw (create, fresh, in_use) at h in cc
    | inr unused ↦ elim (check_steps-Reads dto.steps db) [
      | inl (x, refused) ↦ let failed = rw (create, fresh, unused, refused) at h in cc
      | inr (a, passed) ↦
          transaction-unchanged (rethrow_as create_failed) (create_steps dto creator) e db db'
            (rw (create, fresh, unused, passed) at h)
    ]
  ]
]
