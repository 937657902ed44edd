-- ===== src/Wallet/Service.antt =====
-- VirtualWalletService (virtual-wallet.service.ts): the operations that read and change balances.
-- Amounts are hundredths, as the DECIMAL(20,2) columns hold them; `now` is `new Date()`.
use gdl_finance_v.Base.{
  ℕ, String, Option, none, some, Bool, true, false, not, ◌&&◌, List, [], ◌∷◌, if◌then◌else◌, ◌==◌,
  str_eq, holds_text, or_else, or_text, find_one, find_all, any,
}
use gdl_finance_v.Base.Int.{ℤ, pos, ltb_ℤ, ◌+ℤ◌, ◌-ℤ◌}
use gdl_finance_v.Wallet.Entity.{
  VirtualWalletStatus, active, VirtualWalletTransactionType, credit, debit, reversal,
  TransactionStatus, successful, VirtualWallet, VirtualWalletTransaction,
  VirtualWalletTransactionDto, UpdateVirtualWalletDto, before_delete, HistoryTriggers, WalletDb,
}
use gdl_finance_v.Wallet.Database.{
  WalletAction, wallet_not_found, not_active, insufficient_balance, database_error, process_failed,
  WalletError, update_wallet, insert_transaction,
}
use gdl_finance_v.Base.Action.{
  catching, ok, ◌>>=◌, ◌>>◌, pure, throw_if, gets, or_throw, transaction,
}

abbrev pub is_active : VirtualWalletStatus → Bool
is_active active = true
is_active _ = false

abbrev pub is_successful : TransactionStatus → Bool
is_successful successful = true
is_successful _ = false

-- The first wallet of the user with the account number.
unfoldable pub find_wallet : ℕ → String → WalletDb → Option VirtualWallet
find_wallet user_id account_number db =
    find_one (λ w. w.user_id == user_id && holds_text w.virtual_account_number account_number)
      db.wallets

-- An `increment`, which also sets `updated_at`.
abbrev pub credit_wallet : ℕ → ℤ → VirtualWallet → VirtualWallet
credit_wallet now amount w = record w {
  total_credited = w.total_credited +ℤ amount;
  updated_at = now;
}

abbrev pub debit_wallet : ℕ → ℤ → VirtualWallet → VirtualWallet
debit_wallet now amount w = record w { total_debited = w.total_debited +ℤ amount; updated_at = now }

-- Step 4 of `processTransaction`: the increment of a total, and the balance afterwards.
unfoldable pub apply_impact : ℕ → VirtualWalletTransactionType → ℤ → ℕ → ℤ → WalletAction ℤ
apply_impact now credit amount wallet_id balance_before = do
  update_wallet wallet_id (credit_wallet now amount)
  pure (balance_before +ℤ amount)
apply_impact now debit amount wallet_id balance_before = do
  throw_if (ltb_ℤ balance_before amount) insufficient_balance
  update_wallet wallet_id (debit_wallet now amount)
  pure (balance_before -ℤ amount)
apply_impact now reversal amount wallet_id balance_before = pure balance_before

-- Step 5: the row for the history. Its id is given by the INSERT.
unfoldable pub transaction_record :
    ℕ → ℕ → ℕ → VirtualWalletTransactionDto → ℤ → ℤ → VirtualWalletTransaction
transaction_record now wallet_id user_id dto balance_before balance_after = record {
  id = 0;
  virtual_wallet_id = wallet_id;
  user_id = user_id;
  transaction_reference = dto.transaction_reference;
  external_reference = dto.external_reference;
  transaction_type = dto.transaction_type;
  amount = dto.amount;
  balance_before = balance_before;
  balance_after = balance_after;
  description = dto.description;
  sender_name = dto.sender_name;
  sender_account = dto.sender_account;
  sender_bank_code = dto.sender_bank_code;
  receiver_name = dto.receiver_name;
  receiver_account = dto.receiver_account;
  receiver_bank_code = dto.receiver_bank_code;
  status = or_else dto.status successful;
  response_code = or_text dto.response_code "00";
  response_message = dto.response_message;
  metadata = dto.metadata;
  processed_at = now;
}

-- Steps 1 and 2: the wallet is looked up, and its row is read again under the lock.
unfoldable pub lock_wallet : ℕ → String → WalletAction VirtualWallet
unfolding find_wallet
lock_wallet user_id account_number = do
  found ← gets (find_wallet user_id account_number)
  initial_wallet ← or_throw found wallet_not_found
  locked ← gets (λ db. find_one (λ w. w.id == initial_wallet.id) db.wallets)
  wallet ← or_throw locked database_error
  throw_if (not (is_active wallet.status)) not_active
  pure wallet

abbrev pub touch : ℕ → VirtualWallet → VirtualWallet
touch now w = record w { last_transaction_date = some now; updated_at = now }

-- Steps 5 to 7: the row of the history is saved, and the wallet is touched.
unfoldable pub record_transaction :
    ℕ → ℕ → VirtualWalletTransactionDto → VirtualWallet → ℤ → WalletAction VirtualWalletTransaction
unfolding transaction_record
record_transaction now user_id dto wallet balance_after = do
  saved ←
      insert_transaction
        (transaction_record now wallet.id user_id dto wallet.current_balance balance_after)
  update_wallet wallet.id (touch now)
  pure saved

-- The body of the database transaction of `processTransaction`.
unfoldable pub process_steps :
    ℕ → ℕ → String → VirtualWalletTransactionDto → WalletAction VirtualWalletTransaction
process_steps now user_id account_number dto = do
  wallet ← lock_wallet user_id account_number
  balance_after ← apply_impact now dto.transaction_type dto.amount wallet.id wallet.current_balance
  record_transaction now user_id dto wallet balance_after

-- The `catch` of `processTransaction`.
abbrev pub rethrow : WalletError → WalletError
rethrow database_error = process_failed
rethrow e = e

unfoldable pub process_transaction :
    ℕ → ℕ → String → VirtualWalletTransactionDto → WalletAction VirtualWalletTransaction
process_transaction now user_id account_number dto =
    catching rethrow (transaction (process_steps now user_id account_number dto))

-- The term of one row in the SUM of `calculateCurrentBalance`.
unfoldable pub signed_amount : VirtualWalletTransaction → ℤ
signed_amount t = elim t.transaction_type [
  | credit ↦ t.amount
  | debit ↦ pos 0 -ℤ t.amount
  | reversal ↦ pos 0
]

unfoldable pub contribution : ℕ → VirtualWalletTransaction → ℤ
unfolding signed_amount
contribution wallet_id t =
    if t.virtual_wallet_id == wallet_id && is_successful t.status then signed_amount t else pos 0

unfoldable pub balance_of : ℕ → List VirtualWalletTransaction → ℤ
balance_of wallet_id [] = pos 0
balance_of wallet_id (t ∷ ts) = contribution wallet_id t +ℤ balance_of wallet_id ts

unfoldable pub calculate_current_balance : ℕ → WalletDb → ℤ
unfolding balance_of
calculate_current_balance wallet_id db = balance_of wallet_id db.transactions

-- `Object.assign(wallet, updateData)` and the new `updated_at`.
unfoldable pub assign : ℕ → UpdateVirtualWalletDto → VirtualWallet → VirtualWallet
assign now dto w = record w {
  current_balance = or_else dto.current_balance w.current_balance;
  total_credited = or_else dto.total_credited w.total_credited;
  total_debited = or_else dto.total_debited w.total_debited;
  status = or_else dto.status w.status;
  response_message = elim dto.response_message [ none ↦ w.response_message | some m ↦ some m ];
  is_primary = or_else dto.is_primary w.is_primary;
  updated_at = now;
}

-- `updateVirtualWallet`. The wallet that it returns is the object in memory, which `save` does not
-- read back from the row that the trigger has changed.
unfoldable pub update_virtual_wallet : ℕ → ℕ → UpdateVirtualWalletDto → WalletAction VirtualWallet
update_virtual_wallet now user_id dto = catching rethrow (do
  found ← gets (λ db. find_one (λ w. w.user_id == user_id) db.wallets)
  wallet ← or_throw found wallet_not_found
  update_wallet wallet.id (assign now dto)
  pure (assign now dto wallet))

-- The investment pools, of investment-pull.entity.ts.
pub data InvestmentPoolType : Type 0 where
  mmf canary income : InvestmentPoolType

unfoldable pub find_wallet_for_investment : ℕ → InvestmentPoolType → WalletDb → Option VirtualWallet
find_wallet_for_investment user_id mmf db =
    find_one (λ w. w.user_id == user_id && str_eq w.bank_code "033") db.wallets
find_wallet_for_investment user_id canary db =
    find_one (λ w. w.user_id == user_id && w.is_primary) db.wallets
find_wallet_for_investment user_id income db =
    find_one (λ w. w.user_id == user_id && w.is_primary) db.wallets

-- `w.bank_code && …` is false for an absent and for an empty code.
abbrev is_rmb_code : Option String → Bool
is_rmb_code none = false
is_rmb_code (some code) = not (str_eq code "") && not (str_eq code "033")

-- `checkWalletProviders`, on the bank codes: (hasRmbWallet, hasUbaWallet).
unfoldable pub check_wallet_providers : List (Option String) → Bool × Bool
check_wallet_providers codes = (any is_rmb_code codes, any (λ c. holds_text c "033") codes)

-- The restored triggers of `localResetVirtualWallet`: `CREATE TRIGGER IF NOT EXISTS`, both of them
-- BEFORE DELETE.
unfoldable pub restore_triggers : HistoryTriggers → HistoryTriggers
restore_triggers t = record {
  protect_transaction_history_update =
      some (or_else t.protect_transaction_history_update before_delete);
  protect_transaction_history_delete =
      some (or_else t.protect_transaction_history_delete before_delete);
}

abbrev dropped_triggers : HistoryTriggers
dropped_triggers = record {
  protect_transaction_history_update = none;
  protect_transaction_history_delete = none;
}

-- `localResetVirtualWallet`. With the triggers dropped the deletions are not refused.
unfoldable pub local_reset_virtual_wallet : ℕ → WalletAction (Unit {0})
unfolding restore_triggers
local_reset_virtual_wallet wallet_id = do
  found ← gets (λ db. find_one (λ w. w.id == wallet_id) db.wallets)
  or_throw found wallet_not_found
  λ db. (
    ok tt,
    record db {
      transactions = find_all (λ t. not (t.virtual_wallet_id == wallet_id)) db.transactions;
      wallets = find_all (λ w. not (w.id == wallet_id)) db.wallets;
      triggers = restore_triggers dropped_triggers;
    },
  )
