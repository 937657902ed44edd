-- ===== src/Workflow/Unique.antt =====
-- The names and the modules of the workflows stay unique.
use gdl_finance_v.Workflow.Service.{
  type_error, database_error, update_failed, workflow_not_found, admins_not_found,
  level_not_positive, duplicate_levels, duplicate_module, duplicate_name, ApprovalWorkflowStepDto,
  load_admins, check_steps, WorkflowError, create_failed, new_workflow, rethrow_as, module_taken,
  module_active, name_taken, insert_steps, CreateApprovalWorkflowDto, insert_workflow, create,
  create_steps,
}
use gdl_finance_v.Flexi.Entity.{Admin, FlexiDb, ApprovalWorkflow}
use gdl_finance_v.Base.{
  ◌⊎◌, refl, not, ◌&&◌, true, String, subst, ap, All-append, ◌||◌, arith, ◌++◌, Bool-cases, ◌≡◌, ℕ,
  any, All, Option, holds_text, str_eq, List, Bool, [], ◌∷◌, none, some, inl, inr, false,
}
use gdl_finance_v.Base.Action.{transaction, err, catching, Result, ok, transaction-keeps}
use gdl_finance_v.Workflow.Laws.{check_steps-Reads, load_admins-Reads}

-- No row clashes with a later one.
abbrev IsPairwise : (ApprovalWorkflow → ApprovalWorkflow → Bool) → List ApprovalWorkflow → Type 0
IsPairwise clash [] = Unit
IsPairwise clash (v ∷ vs) = All (λ w. clash v w ≡ false) vs × IsPairwise clash vs

IsPairwise-append :
    (clash : ApprovalWorkflow → ApprovalWorkflow → Bool) (vs : List ApprovalWorkflow)
    (w : ApprovalWorkflow)
    → IsPairwise clash vs
    → any (λ v. clash v w) vs ≡ false
    → IsPairwise clash (vs ++ w ∷ [])
IsPairwise-append clash [] w p free = (tt, tt)
IsPairwise-append clash (v ∷ vs) w p free =
    let here : clash v w ≡ false = ground arith in
    let rest : any (λ x. clash x w) vs ≡ false = ground arith in
    (
      All-append (λ x. clash v x ≡ false) vs (w ∷ []) p.0 (here, tt),
      IsPairwise-append clash vs w p.1 rest,
    )

abbrev same_name : ApprovalWorkflow → ApprovalWorkflow → Bool
same_name v w = str_eq v.workflow_name w.workflow_name

abbrev same_module : ApprovalWorkflow → ApprovalWorkflow → Bool
same_module v w = elim w.module_name [ none ↦ false | some m ↦ holds_text v.module_name m ]

-- The unique indices on the columns `workflow_name` and `module` hold, soft-deleted rows included.
pub record IsUnique (db : FlexiDb) : Type 0 where
  pub names : IsPairwise same_name db.workflows
  pub modules : IsPairwise same_module db.workflows

create_steps-IsUnique :
    (dto : CreateApprovalWorkflowDto) (creator : Option ℕ) (w : ApprovalWorkflow) (db db' : FlexiDb)
    → IsUnique db
    → create_steps dto creator db ≡ (ok w, db')
    → IsUnique db'
unfolding create_steps insert_workflow insert_steps
create_steps-IsUnique dto creator w db db' u h = elim (load_admins-Reads dto.steps db) [
  | inl (e, failed) ↦ let refused = rw (create_steps, failed) at h in cc
  | inr (admins, loaded) ↦
      elim (Bool-cases
        (name_taken dto.workflow_name db || module_taken (some dto.module_name) db)) [
          | inl clash ↦ let refused = rw (create_steps, loaded, insert_workflow, clash) at h in cc
          | inr free ↦
              let saved : ApprovalWorkflow =
                record (new_workflow dto.workflow_name (some dto.module_name) dto.description
                  creator) { id = db.next_workflow_id } in
              let done = rw (create_steps, loaded, insert_workflow, free) at h in
              let named : name_taken dto.workflow_name db ≡ false = ground arith in
              let placed : module_taken (some dto.module_name) db ≡ false = ground arith in
              let rows : db.workflows ++ saved ∷ [] ≡ db'.workflows =
                ap (λ (x : Result WorkflowError ApprovalWorkflow × FlexiDb). x.1.workflows) done in
              record {
                names =
                    subst (IsPairwise same_name) rows
                      (IsPairwise-append same_name db.workflows saved u.names named);
                modules =
                    subst (IsPairwise same_module) rows
                      (IsPairwise-append same_module db.workflows saved u.modules placed);
              }
        ]
]

create-IsUnique :
    (dto : CreateApprovalWorkflowDto) (creator : Option ℕ) (db : FlexiDb)
    → IsUnique db
    → IsUnique (create dto creator db).1
unfolding create
create-IsUnique dto creator db u = elim (Bool-cases (name_taken dto.workflow_name db)) [
  | inl named ↦ rw (create, named) u
  | inr fresh ↦ elim (Bool-cases (module_active dto.module_name db)) [
    | inl in_use ↦ rw (create, fresh, in_use) u
    | inr unused ↦ elim (check_steps-Reads dto.steps db) [
      | inl (e, refused) ↦ rw (create, fresh, unused, refused) u
      | inr (a, passed) ↦
          rw (create, fresh, unused, passed)
            (transaction-keeps IsUnique (rethrow_as create_failed) (create_steps dto creator) db u
              (λ w s' h. create_steps-IsUnique dto creator w db s' u h))
    ]
  ]
]

-- An answer that names a duplicate.
abbrev pub is_duplicate : {A : Type 0} → Result WorkflowError A → Bool
is_duplicate (err duplicate_name) = true
is_duplicate (err duplicate_module) = true
is_duplicate _ = false

-- Some row has the name, a soft-deleted one as well.
abbrev pub has_name : String → FlexiDb → Bool
has_name name db = any (λ (w : ApprovalWorkflow). str_eq w.workflow_name name) db.workflows

-- Some row that is active and not soft-deleted has the module.
abbrev pub has_module : String → FlexiDb → Bool
has_module module_name db =
    any
      (λ (w : ApprovalWorkflow).
        holds_text w.module_name module_name && (w.is_active && not w.is_deleted))
      db.workflows

-- What a creation answers, by the clash that there is.
abbrev pub Answered :
    CreateApprovalWorkflowDto → FlexiDb → Result WorkflowError ApprovalWorkflow × FlexiDb → Type 0
Answered dto db x =
    ((has_name dto.workflow_name db ≡ true) × (x ≡ (err duplicate_name, db)))
    ⊎ (((has_name dto.workflow_name db ≡ false)
          × (has_module dto.module_name db ≡ true)
          × (x ≡ (err duplicate_module, db)))
        ⊎ ((has_name dto.workflow_name db ≡ false)
            × (has_module dto.module_name db ≡ false)
            × (is_duplicate x.0 ≡ false)))

check_steps-is_duplicate :
    (steps : List ApprovalWorkflowStepDto) (db : FlexiDb)
    → is_duplicate (check_steps steps db).0 ≡ false
unfolding check_steps
check_steps-is_duplicate steps db = ground arith

load_admins-is_duplicate :
    (steps : List ApprovalWorkflowStepDto) (db : FlexiDb)
    → is_duplicate (load_admins steps db).0 ≡ false
unfolding load_admins
load_admins-is_duplicate steps db = ground arith

rethrow_as-is_duplicate :
    (e : WorkflowError)
    → is_duplicate {A = List Admin} (err e) ≡ false
    → is_duplicate {A = ApprovalWorkflow} (err (rethrow_as create_failed e)) ≡ false
rethrow_as-is_duplicate duplicate_name h = h
rethrow_as-is_duplicate duplicate_module h = h
rethrow_as-is_duplicate duplicate_levels h = refl
rethrow_as-is_duplicate level_not_positive h = refl
rethrow_as-is_duplicate admins_not_found h = refl
rethrow_as-is_duplicate workflow_not_found h = refl
rethrow_as-is_duplicate create_failed h = refl
rethrow_as-is_duplicate update_failed h = refl
rethrow_as-is_duplicate database_error h = refl
rethrow_as-is_duplicate type_error h = refl

create_steps-is_duplicate :
    (dto : CreateApprovalWorkflowDto) (creator : Option ℕ) (db : FlexiDb)
    → is_duplicate
        (catching (rethrow_as create_failed) (transaction (create_steps dto creator)) db).0
      ≡ false
unfolding create_steps insert_workflow insert_steps
create_steps-is_duplicate dto creator db = elim (load_admins-Reads dto.steps db) [
  | inl (e, failed) ↦
      let plain = rw failed at (load_admins-is_duplicate dto.steps db) in
      rw (create_steps, failed) (rethrow_as-is_duplicate e plain)
  | inr (admins, loaded) ↦
      elim (Bool-cases
        (name_taken dto.workflow_name db || module_taken (some dto.module_name) db)) [
          | inl clash ↦ rw (create_steps, loaded, insert_workflow, clash) refl
          | inr free ↦ rw (create_steps, loaded, insert_workflow, free) refl
        ]
]

-- The creation of a workflow, however it ends, keeps the names and the modules of the workflows
-- unique, soft-deleted ones included. A name that some workflow has, a soft-deleted one as well, is
-- refused as a duplicate name, otherwise a module that an active workflow has as a duplicate module,
-- and both change nothing; without such a clash no duplicate is answered.
pub create_answers :
    (dto : CreateApprovalWorkflowDto) (creator : Option ℕ) (db : FlexiDb)
    → IsUnique db
    → IsUnique (create dto creator db).1 × Answered dto db (create dto creator db)
unfolding create
create_answers dto creator db u = (
  create-IsUnique dto creator db u,
  elim (Bool-cases (name_taken dto.workflow_name db)) [
    | inl named ↦ inl (named, rw (create, named) refl)
    | inr fresh ↦ elim (Bool-cases (module_active dto.module_name db)) [
      | inl in_use ↦ inr (inl (fresh, in_use, rw (create, fresh, in_use) refl))
      | inr unused ↦ elim (check_steps-Reads dto.steps db) [
        | inl (e, refused) ↦
            let plain = rw refused at (check_steps-is_duplicate dto.steps db) in
            inr (inr (fresh, unused, rw (create, fresh, unused, refused) plain))
        | inr (a, passed) ↦
            let plain = create_steps-is_duplicate dto creator db in
            inr (inr (fresh, unused, rw (create, fresh, unused, passed) plain))
      ]
    ]
  ],
)
