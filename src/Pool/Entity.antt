-- ===== src/Pool/Entity.antt =====
-- services/typescript/user-service/src/user/investment-pull/entities: the rows of the pools, of
-- their daily accruals and of the audit of transactions. Amounts are hundredths, `yield_rate` and
-- `nav` ten-thousandths. The times of rows are left out.
use gdl_finance_v.Base.{ℕ, String, Option, Bool, List}
use gdl_finance_v.Base.Int.{ℤ}
use gdl_finance_v.Flexi.Entity.{Admin}
use gdl_finance_v.Wallet.Service.{InvestmentPoolType}

pub data InvestmentPoolStatus : Type 0 where
  active inactive closed : InvestmentPoolStatus

pub record UserInvestmentPool : Type 0 where
  pub id : ℕ
  pub user_id : ℕ
  pub type : InvestmentPoolType
  pub total_invested : ℤ
  pub total_redeemed : ℤ
  pub current_balance : ℤ
  pub status : InvestmentPoolStatus
  pub is_visible : Bool
  pub accrued_gain : ℤ
  pub accrued_loss : ℤ
  pub balance_with_gain_or_loss : ℤ
  pub yield_rate : ℕ
  pub nav : ℕ
  pub description : Option String

pub data TransactionAuditType : Type 0 where
  redemption deduction investment : TransactionAuditType

pub data TransactionAuditStatus : Type 0 where
  success failed pending : TransactionAuditStatus

pub record TransactionAudit : Type 0 where
  pub user_id : ℕ
  pub reference : String
  pub type : TransactionAuditType
  pub amount : ℤ
  pub balance_before : ℤ
  pub balance_after : ℤ
  pub related_entity : Option String
  pub status : TransactionAuditStatus
  pub meta : Option String

pub record DailyAccrualLog : Type 0 where
  pub pool_id : ℕ
  pub investment_type : InvestmentPoolType
  pub accrued_gain : ℤ
  pub accrued_loss : ℤ
  pub balance_with_gain_or_loss : ℤ
  pub admin_id : ℕ

-- The fields that `create` reads; a `pool_type` of `none` is a missing one.
pub record CreateInvestmentPool2Dto : Type 0 where
  pub pool_type : Option InvestmentPoolType
  pub description : Option String
  pub total_invested : ℤ
  pub yield_rate : ℕ
  pub nav : ℕ
  pub is_visible : Option Bool

pub record PoolDb : Type 0 where
  pub admins : List Admin
  pub pools : List UserInvestmentPool
  pub audits : List TransactionAudit
  pub accruals : List DailyAccrualLog
  pub next_pool_id : ℕ
