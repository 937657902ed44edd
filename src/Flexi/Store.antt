-- ===== src/Flexi/Store.antt =====
-- How FlexiService reads and writes its tables (flexi.service.ts): the relations that `findOne`
-- loads, `save`, the approval history, the audit log and `sendApprovalNotification`.
-- A relation to a row with `deletedAt` set is not loaded, as TypeORM documents of soft deletion.
use gdl_finance_v.Base.{
  none, str_eq, not, if◌then◌else◌, ◌&&◌, [], max, some, ◌++◌, ◌∷◌, ◌==◌, String, find_one, Bool,
  update_where, find_all, Option, List, ℕ,
}
use gdl_finance_v.Flexi.Entity.{
  GdlMarketer, UserAccount, Admin, Notification, NotificationType, AuditEntry, FlexiApprovalHistory,
  ApprovalWorkflowStep, ApprovalWorkflow, FlexiRequest, FlexiDb,
}
use gdl_finance_v.Base.Action.{Action, ok, err}

-- The exceptions of the service, and `notification_failed` for an e-mail that cannot be handed
-- over, `type_error` for a property of `undefined`, `out_of_fuel` for a loop that the model cuts off,
-- `client_refused` and `request_refused` for a row that the database refuses.
pub data FlexiError : Type 0 where
  request_not_found client_required payment_not_confirmed no_steps no_admin_assigned : FlexiError
  not_authorized branch_restricted not_disbursed no_extension no_workflow : FlexiError
  no_level_one_admin not_level_one_admin notification_failed type_error out_of_fuel : FlexiError
  client_refused request_refused : FlexiError

abbrev pub FlexiAction : Type 0 → Type 0
FlexiAction A = Action FlexiDb FlexiError A

-- What the surroundings decide: the clock, and whether the notification service takes an e-mail.
pub record Env : Type 0 where
  pub now : ℕ
  pub delivers : Notification → Bool

-- The tables that say who decides at which level.
abbrev pub config :
    FlexiDb → List Admin × List ApprovalWorkflow × List ApprovalWorkflowStep × List GdlMarketer
config db = (db.admins, db.workflows, db.steps, db.marketers)

unfoldable pub find_request : ℕ → FlexiDb → Option FlexiRequest
find_request id db = find_one (λ r. r.id == id && not r.is_deleted) db.requests

unfoldable pub find_admin : ℕ → FlexiDb → Option Admin
find_admin staff_id db = find_one (λ a. a.staff_id == staff_id && not a.is_deleted) db.admins

-- The relation `workflow`.
unfoldable pub request_workflow : FlexiRequest → FlexiDb → Option ApprovalWorkflow
request_workflow r db = elim r.workflow_id [
  | none ↦ none
  | some k ↦ find_one (λ w. w.id == k && not w.is_deleted) db.workflows
]

-- The relation `workflow.steps`.
unfoldable pub workflow_steps : ApprovalWorkflow → FlexiDb → List ApprovalWorkflowStep
workflow_steps w db = find_all (λ s. s.workflow_id == w.id) db.steps

-- The relation `admin` of a step.
unfoldable pub step_admin : ApprovalWorkflowStep → FlexiDb → Option Admin
unfolding find_admin
step_admin s db = elim s.admin_id [ none ↦ none | some k ↦ find_admin k db ]

-- `request.marketer?.office_branch_id`, which is also the id of the branch that is joined.
unfoldable pub marketer_branch : FlexiRequest → FlexiDb → Option ℕ
marketer_branch r db = elim r.marketer_id [
  | none ↦ none
  | some k ↦ elim (find_one (λ (m : GdlMarketer). m.id == k) db.marketers) [
    | none ↦ none
    | some m ↦ m.office_branch_id
  ]
]

-- `steps.find((s) => s.level === level)`. The sort before it is stable, so that it does not change
-- which step of a level is found.
unfoldable pub step_at : ℕ → List ApprovalWorkflowStep → Option ApprovalWorkflowStep
step_at level = find_one (λ s. s.level == level)

-- `Math.max(...steps.map((s) => s.level))` of a list that is not empty.
unfoldable pub max_level : List ApprovalWorkflowStep → ℕ
max_level [] = 0
max_level (s ∷ ss) = max s.level (max_level ss)

-- `save` of a request: the row with its id.
unfoldable pub save_request : FlexiRequest → FlexiAction FlexiRequest
save_request r db =
    (ok r, record db { requests = update_where (λ q. q.id == r.id) (λ _. r) db.requests })

unfoldable pub save_history : FlexiApprovalHistory → FlexiAction (Unit {0})
save_history h db = (ok tt, record db { history = db.history ++ h ∷ [] })

unfoldable pub insert_audit : AuditEntry → FlexiAction (Unit {0})
insert_audit e db = (ok tt, record db { audit_log = db.audit_log ++ e ∷ [] })

-- `sendApprovalNotification` to an address. It returns at once where the address is missing, as
-- that of `request.user` is where the relation has not been loaded.
unfoldable pub send_approval_notification :
    Env → NotificationType → FlexiRequest → Option String → FlexiAction (Unit {0})
send_approval_notification env type r none db = (ok tt, db)
send_approval_notification env type r (some email) db =
    let mail : Notification = record { type = type; recipients_email = email; request_id = r.id } in
    if str_eq email ""
    then (ok tt, db)
    else (if env.delivers mail
        then (ok tt, record db { sent = db.sent ++ mail ∷ [] })
        else (err notification_failed, db))

-- The address of `request.user`, where the relation `user` is loaded.
unfoldable pub user_email : FlexiRequest → FlexiDb → Option String
user_email r db = elim (find_one (λ (u : UserAccount). u.id == r.user_id) db.users) [
  | none ↦ none
  | some u ↦ some u.email
]

-- `try { … } catch (error) { log }`: what was written before the error stays.
abbrev pub attempt : FlexiAction (Unit {0}) → FlexiAction (Unit {0})
attempt m db = (ok tt, (m db).1)
