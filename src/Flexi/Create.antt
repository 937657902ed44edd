-- ===== src/Flexi/Create.antt =====
-- `createRequest` (flexi.service.ts): a new Flexi request, of a user or of an agent for a client. The
-- documents are left out, and so are the columns that no modelled operation looks at.
use gdl_finance_v.Flexi.Skip.{evaluate_and_skip_levels}
use gdl_finance_v.Base.Action.{◌>>=◌, ◌>>◌, ok, err, pure, throw, gets}
use gdl_finance_v.Base.{
  any, if◌then◌else◌, ◌==◌, str_eq, ◌+◌, not, List, find_one, holds_text, Bool, String, Option, ℕ,
  none, some, [], ◌∷◌, true, false, suc, ◌&&◌, ◌++◌,
}
use gdl_finance_v.Flexi.Store.{
  request_refused, workflow_steps, step_at, send_approval_notification, client_refused, attempt,
  insert_audit, request_workflow, client_required, FlexiAction, Env, find_request, step_admin,
}
use gdl_finance_v.Flexi.Entity.{
  GdlMarketer, UserAccount, WorkflowStage, FlexiRequestStatus, FlexiRequest, FlexiDb,
  ApprovalWorkflow, FlexiRequestType, pending_approval, approval_level, document_upload,
  next_approver, notify_marketer, request_created,
}
use Prim.Native.Nat.{zero}

-- Who asks: `userPayload`.
pub data Initiator : Type 0 where
  by_user by_agent : ℕ → Initiator

pub record CreateFlexiRequestDto : Type 0 where
  pub request_type : FlexiRequestType
  pub amount : ℕ
  pub tenure : Option String
  pub client_email : Option String
  pub marketer_id : Option ℕ

-- `dto.marketer_id || null`
abbrev pub id_or_null : Option ℕ → Option ℕ
id_or_null none = none
id_or_null (some zero) = none
id_or_null (some (suc n)) = some (suc n)

abbrev agent_of : Initiator → Option ℕ
agent_of (by_user id) = none
agent_of (by_agent id) = some id

-- The client of an agent, found by the address or created. `created` is the id of the row that
-- `userService.create` inserts, or `none` where the database refuses it.
unfoldable pub client_of : Option ℕ → String → FlexiAction ℕ
client_of created email db = elim (find_one (λ (u : UserAccount). str_eq u.email email) db.users) [
  | some u ↦ (ok u.id, db)
  | none ↦ elim created [
    | none ↦ (err client_refused, db)
    | some id ↦ (ok id, record db { users = db.users ++ (record { id = id; email = email }) ∷ [] })
  ]
]

unfoldable pub target_user : Option ℕ → Initiator → CreateFlexiRequestDto → FlexiAction ℕ
unfolding client_of
target_user created (by_user id) dto = pure id
target_user created (by_agent id) dto = elim dto.client_email [
  | none ↦ throw client_required
  | some email ↦ (if str_eq email "" then throw client_required else client_of created email)
]

-- `findOne` with the greatest id first, on rows in the order of their ids.
unfoldable pub find_last :
    (ApprovalWorkflow → Bool) → List ApprovalWorkflow → Option ApprovalWorkflow
find_last p [] = none
find_last p (w ∷ ws) = elim (find_last p ws) [
  | some v ↦ some v
  | none ↦ (if p w then some w else none)
]

-- The workflow `Flexi Automation`.
unfoldable pub flexi_workflow : FlexiDb → Option ApprovalWorkflow
unfolding find_last
flexi_workflow db =
    find_last (λ w. holds_text w.module_name "Flexi Automation" && w.is_active && not w.is_deleted)
      db.workflows

abbrev id_of : Option ApprovalWorkflow → Option ℕ
id_of none = none
id_of (some w) = some w.id

abbrev first_stage : Option ApprovalWorkflow → WorkflowStage
first_stage none = document_upload
first_stage (some w) = approval_level 1

unfoldable pub new_request :
    ℕ → Initiator → ℕ → CreateFlexiRequestDto → Option ApprovalWorkflow → FlexiRequest
new_request id initiator user_id dto workflow = record {
  id = id;
  user_id = user_id;
  agent_id = agent_of initiator;
  marketer_id = id_or_null dto.marketer_id;
  request_type = dto.request_type;
  status = pending_approval;
  amount = dto.amount;
  tenure = dto.tenure;
  current_workflow_stage = first_stage workflow;
  approved_by = none;
  approved_at = none;
  rejected_by = none;
  rejection_reason = none;
  disbursed_at = none;
  expiry_date = none;
  workflow_id = id_of workflow;
  current_approval_level = 1;
  extension_tenure = none;
  extension_rate = 0;
  extension_amount = 0;
  extension_payment_confirmed = false;
  is_extension_active = false;
  is_deleted = false;
}

-- The foreign key `marketer_id` of migration CreateFlexiEntities: the marketer is one of the table.
abbrev pub knows_marketer : Option ℕ → FlexiDb → Bool
knows_marketer none db = true
knows_marketer (some k) db = any (λ (m : GdlMarketer). m.id == k) db.marketers

-- `save`, under the foreign keys to the user and the marketer. The agent is the one of the token,
-- whose row is there.
unfoldable pub insert_request :
    Initiator → ℕ → CreateFlexiRequestDto → Option ApprovalWorkflow → FlexiAction FlexiRequest
unfolding new_request
insert_request initiator user_id dto workflow db =
    let r = new_request db.next_request_id initiator user_id dto workflow in
    if any (λ (u : UserAccount). u.id == user_id) db.users && knows_marketer r.marketer_id db
    then (
      ok r,
      record db { requests = db.requests ++ r ∷ []; next_request_id = db.next_request_id + 1 },
    )
    else (err request_refused, db)

-- The e-mail to the marketer.
unfoldable pub notify_marketer_of : Env → FlexiRequest → FlexiAction (Unit {0})
notify_marketer_of env r db = elim r.marketer_id [
  | none ↦ (ok tt, db)
  | some k ↦ elim (find_one (λ (m : GdlMarketer). m.id == k) db.marketers) [
    | none ↦ (ok tt, db)
    | some m ↦ send_approval_notification env notify_marketer r (some m.email) db
  ]
]

abbrev pub is_pending_approval : FlexiRequestStatus → Bool
is_pending_approval pending_approval = true
is_pending_approval _ = false

-- The e-mail to the first approver.
unfoldable pub notify_approver_of : Env → FlexiRequest → FlexiAction (Unit {0})
notify_approver_of env r db = elim (request_workflow r db) [
  | none ↦ (ok tt, db)
  | some w ↦
      if is_pending_approval r.status
      then (elim (step_at r.current_approval_level (workflow_steps w db)) [
        | none ↦ (ok tt, db)
        | some s ↦ elim (step_admin s db) [
          | none ↦ (ok tt, db)
          | some a ↦ send_approval_notification env next_approver r (some a.staff_email) db
        ]
      ])
      else (ok tt, db)
]

unfoldable pub notify_created : Env → FlexiRequest → FlexiAction (Unit {0})
unfolding notify_marketer_of notify_approver_of
notify_created env saved db = elim (find_request saved.id db) [
  | none ↦ (ok tt, db)
  | some r ↦ (notify_marketer_of env r >> notify_approver_of env r) db
]

-- What follows the skipping of levels, whose errors are logged only.
unfoldable pub announce : Env → ℕ → Option FlexiRequest → FlexiAction (Unit {0})
unfolding notify_created
announce env user_id none = pure tt
announce env user_id (some saved) =
    insert_audit
      (record { user_id = user_id; action_performed = request_created; request_id = saved.id })
    >> attempt (notify_created env saved)

-- `none` is the `undefined` that a request which is not found gives.
unfoldable pub create_request :
    Env → Option ℕ → Initiator → CreateFlexiRequestDto → FlexiAction (Option FlexiRequest)
unfolding target_user flexi_workflow insert_request announce
create_request env created initiator dto = do
  user_id ← target_user created initiator dto
  workflow ← gets flexi_workflow
  r ← insert_request initiator user_id dto workflow
  saved ← evaluate_and_skip_levels env r.id none
  announce env user_id saved
  pure saved
