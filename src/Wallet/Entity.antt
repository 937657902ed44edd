-- ===== src/Wallet/Entity.antt =====
-- services/typescript/user-service/src/user/virtual-account/entities: the rows of the wallet
-- tables, and the request of `processTransaction`. Columns that no modelled operation reads or
-- writes (callback_url, extra_data, the symplus_ columns) are left out. A time is a number of
-- milliseconds.
use gdl_finance_v.Base.{ℕ, String, Option, Bool, List}
use gdl_finance_v.Base.Int.{ℤ}

pub data VirtualWalletStatus : Type 0 where
  active inactive suspended closed : VirtualWalletStatus

pub data VirtualWalletTransactionType : Type 0 where
  credit debit reversal : VirtualWalletTransactionType

pub data TransactionStatus : Type 0 where
  pending successful failed reversed : TransactionStatus

pub record VirtualWallet : Type 0 where
  pub id : ℕ
  pub user_id : ℕ
  pub virtual_account_number : Option String
  pub virtual_account_name : String
  pub bank_code : String
  pub amount_control : String
  pub current_balance : ℤ
  pub total_credited : ℤ
  pub total_debited : ℤ
  pub status : VirtualWalletStatus
  pub response_code : String
  pub response_message : Option String
  pub last_transaction_date : Option ℕ
  pub is_primary : Bool
  pub encrypted_symplus_customer_id : Option String
  pub encrypted_infoware_customer_id : Option String
  pub fund_account_no : Option String
  pub cash_account_no : Option String
  pub updated_at : ℕ

pub record VirtualWalletTransaction : Type 0 where
  pub id : ℕ
  pub virtual_wallet_id : ℕ
  pub user_id : ℕ
  pub transaction_reference : String
  pub external_reference : Option String
  pub transaction_type : VirtualWalletTransactionType
  pub amount : ℤ
  pub balance_before : ℤ
  pub balance_after : ℤ
  pub description : Option String
  pub sender_name : Option String
  pub sender_account : Option String
  pub sender_bank_code : Option String
  pub receiver_name : Option String
  pub receiver_account : Option String
  pub receiver_bank_code : Option String
  pub status : TransactionStatus
  pub response_code : String
  pub response_message : Option String
  pub metadata : Option String
  pub processed_at : ℕ

pub record VirtualWalletTransactionDto : Type 0 where
  pub transaction_reference : String
  pub external_reference : Option String
  pub transaction_type : VirtualWalletTransactionType
  pub amount : ℤ
  pub description : Option String
  pub sender_name : Option String
  pub sender_account : Option String
  pub sender_bank_code : Option String
  pub receiver_name : Option String
  pub receiver_account : Option String
  pub receiver_bank_code : Option String
  pub status : Option TransactionStatus
  pub response_code : Option String
  pub response_message : Option String
  pub metadata : Option String

-- The fields that `updateVirtualWallet` may assign.
pub record UpdateVirtualWalletDto : Type 0 where
  pub current_balance : Option ℤ
  pub total_credited : Option ℤ
  pub total_debited : Option ℤ
  pub status : Option VirtualWalletStatus
  pub response_message : Option String
  pub is_primary : Option Bool

-- A row of the audit table that the trigger `audit_wallet_changes` fills.
pub record VirtualWalletAudit : Type 0 where
  pub wallet_id : ℕ
  pub user_id : ℕ
  pub old_balance : ℤ
  pub new_balance : ℤ
  pub old_total_credited : ℤ
  pub new_total_credited : ℤ
  pub old_total_debited : ℤ
  pub new_total_debited : ℤ

-- The events on the transaction table that a trigger refuses.
pub data HistoryEvent : Type 0 where
  before_update before_delete : HistoryEvent

-- The two named triggers that protect the transaction table, each with the event that it refuses
-- if it is installed.
pub record HistoryTriggers : Type 0 where
  pub protect_transaction_history_update : Option HistoryEvent
  pub protect_transaction_history_delete : Option HistoryEvent

pub record WalletDb : Type 0 where
  pub wallets : List VirtualWallet
  pub transactions : List VirtualWalletTransaction
  pub audits : List VirtualWalletAudit
  pub triggers : HistoryTriggers
  pub next_wallet_id : ℕ
  pub next_transaction_id : ℕ
