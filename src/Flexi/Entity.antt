-- ===== src/Flexi/Entity.antt =====
-- The rows that the approval of Flexi requests works on: services/typescript/user-service/src, files
-- flexi/entities/*.ts, flexi/dto/flexi-request.dto.ts, admin/approval-workflow/entities/*.ts and
-- admin/admin/entities/admin.entity.ts. Names, addresses and bank details, which no modelled
-- operation looks at, are left out. A time is a number of milliseconds; `is_deleted` stands for a
-- `deletedAt` that is set. Amounts and rates are hundredths.
use gdl_finance_v.Base.{ℕ, String, Option, Bool, List}
use gdl_finance_v.Base.Int.{ℤ}

pub data UserAccountStatus : Type 0 where
  inactive active locked banned blocked : UserAccountStatus

pub record Admin : Type 0 where
  pub staff_id : ℕ
  pub staff_email : String
  pub branch_id : Option ℕ
  pub account_status : UserAccountStatus
  pub is_deleted : Bool

pub record ApprovalWorkflow : Type 0 where
  pub id : ℕ
  pub workflow_name : String
  pub module_name : Option String
  pub description : Option String
  pub is_active : Bool
  pub created_by : Option ℕ
  pub updated_by : Option ℕ
  pub is_deleted : Bool

pub record ApprovalWorkflowStep : Type 0 where
  pub id : ℕ
  pub workflow_id : ℕ
  pub admin_id : Option ℕ
  pub level : ℕ
  pub created_by : Option ℕ
  pub enforce_branch_restriction : Bool

pub record GdlMarketer : Type 0 where
  pub id : ℕ
  pub email : String
  pub office_branch_id : Option ℕ

pub record UserAccount : Type 0 where
  pub id : ℕ
  pub email : String

pub data FlexiRequestStatus : Type 0 where
  pending_docs pending_submission pending_approval approved rejected : FlexiRequestStatus
  funds_disbursed recalled skipped : FlexiRequestStatus

pub data FlexiRequestType : Type 0 where
  mf_funding pof_recall general_request : FlexiRequestType

-- The texts of `current_workflow_stage`; `approval_level n` is "Approval Level n".
pub data WorkflowStage : Type 0 where
  document_upload stage_rejected stage_disbursed : WorkflowStage
  approval_level : ℕ → WorkflowStage

pub record FlexiRequest : Type 0 where
  pub id : ℕ
  pub user_id : ℕ
  pub agent_id : Option ℕ
  pub marketer_id : Option ℕ
  pub request_type : FlexiRequestType
  pub status : FlexiRequestStatus
  pub amount : ℕ
  pub tenure : Option String
  pub current_workflow_stage : WorkflowStage
  pub approved_by : Option ℕ
  pub approved_at : Option ℕ
  pub rejected_by : Option ℕ
  pub rejection_reason : Option String
  pub disbursed_at : Option ℕ
  pub expiry_date : Option ℤ
  pub workflow_id : Option ℕ
  pub current_approval_level : ℕ
  pub extension_tenure : Option String
  pub extension_rate : ℕ
  pub extension_amount : ℕ
  pub extension_payment_confirmed : Bool
  pub is_extension_active : Bool
  pub is_deleted : Bool

pub record FlexiApprovalHistory : Type 0 where
  pub request_id : ℕ
  pub admin_id : Option ℕ
  pub level : ℕ
  pub status : FlexiRequestStatus
  pub comment : String

-- The decision of `UpdateFlexiRequestStatusDto`.
pub data Decision : Type 0 where
  approve reject disburse : Decision

pub record UpdateFlexiRequestStatusDto : Type 0 where
  pub status : Decision
  pub rejection_reason : Option String

pub record InitiateExtensionDto : Type 0 where
  pub extension_tenure : String
  pub extension_rate : ℕ

-- An e-mail that `sendApprovalNotification` hands to the notification service.
pub data NotificationType : Type 0 where
  next_approver notify_rejected notify_disbursed notify_marketer : NotificationType

pub record Notification : Type 0 where
  pub type : NotificationType
  pub recipients_email : String
  pub request_id : ℕ

-- The rows of the audit log that the service writes.
pub data AuditAction : Type 0 where
  status_decided : Decision → ℕ → AuditAction
  extension_payment_confirmed : AuditAction
  request_created : AuditAction

pub record AuditEntry : Type 0 where
  pub user_id : ℕ
  pub action_performed : AuditAction
  pub request_id : ℕ

pub record FlexiDb : Type 0 where
  pub admins : List Admin
  pub workflows : List ApprovalWorkflow
  pub steps : List ApprovalWorkflowStep
  pub marketers : List GdlMarketer
  pub users : List UserAccount
  pub requests : List FlexiRequest
  pub history : List FlexiApprovalHistory
  pub audit_log : List AuditEntry
  pub sent : List Notification
  pub next_workflow_id : ℕ
  pub next_step_id : ℕ
  pub next_request_id : ℕ
