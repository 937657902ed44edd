-- ===== src/Wallet/Tests.antt =====
-- Runs of the wallet service, and its theorems at concrete inputs.
use gdl_finance_v.Wallet.Outcome.{process_transaction-succeeds, settle}
use gdl_finance_v.Wallet.Reference.{process_all, TransactionCall, process_transaction_once}
use gdl_finance_v.Wallet.Admin.{local_reset-triggers, update_transaction-refused, Balanced}
use gdl_finance_v.Wallet.Safety.{
  process_transaction_negative, process_transaction-IsSolvent, IsSolvent,
}
use gdl_finance_v.Wallet.Balance.{process_transaction-IsReconciled, IsReconciled}
use gdl_finance_v.Wallet.Database.{
  is_protected, update_transaction, installed_triggers, audit_wallet_changes,
  prevent_balance_reduction, update_row, update_rows, update_wallet, insert_transaction,
  WalletError,
}
use gdl_finance_v.Wallet.Service.{
  transaction_record, local_reset_virtual_wallet, assign, update_virtual_wallet, find_wallet,
  balance_of, apply_impact, record_transaction, lock_wallet, process_steps, process_transaction,
}
use gdl_finance_v.Base.Action.{err, ok, Result}
use gdl_finance_v.Base.{
  ◌++◌, ◌≢◌, ◌==◌, update_where, arith, All, DistinctBy, refl, [], ◌≡◌, ◌∷◌, map, true, List, false,
  none, some, String,
}
use gdl_finance_v.Base.Int.{negsuc, ◌-ℤ◌, ◌+ℤ◌, ℤ, pos}
use gdl_finance_v.Wallet.Entity.{
  UpdateVirtualWalletDto, VirtualWalletTransaction, debit, before_delete, before_update,
  VirtualWalletTransactionDto, VirtualWalletTransactionType, WalletDb, VirtualWallet, credit,
  active,
}

abbrev primary : VirtualWallet
primary = record {
  id = 1;
  user_id = 7;
  virtual_account_number = some "0012345678";
  virtual_account_name = "Ada Obi";
  bank_code = "035";
  amount_control = "VARIABLEAMOUNT";
  current_balance = pos 0;
  total_credited = pos 0;
  total_debited = pos 0;
  status = active;
  response_code = "00";
  response_message = none;
  last_transaction_date = none;
  is_primary = true;
  encrypted_symplus_customer_id = none;
  encrypted_infoware_customer_id = none;
  fund_account_no = none;
  cash_account_no = none;
  updated_at = 0;
}

abbrev uba : VirtualWallet
uba = record primary {
  id = 2;
  virtual_account_number = some "2098765432";
  bank_code = "033";
  is_primary = false;
}

abbrev start : WalletDb
start = record {
  wallets = primary ∷ uba ∷ [];
  transactions = [];
  audits = [];
  triggers = record {
    protect_transaction_history_update = some before_update;
    protect_transaction_history_delete = some before_delete;
  };
  next_wallet_id = 3;
  next_transaction_id = 1;
}

abbrev order : String → VirtualWalletTransactionType → ℤ → VirtualWalletTransactionDto
order reference type amount = record {
  transaction_reference = reference;
  external_reference = none;
  transaction_type = type;
  amount = amount;
  description = none;
  sender_name = none;
  sender_account = none;
  sender_bank_code = none;
  receiver_name = none;
  receiver_account = none;
  receiver_bank_code = none;
  status = none;
  response_code = none;
  response_message = none;
  metadata = none;
}

-- The wallets and the result of a call.
abbrev balances : {A : Type 0} → Result WalletError A × WalletDb → List ℤ
balances (r, db) = map (λ (w : VirtualWallet). w.current_balance) db.wallets

abbrev funded : WalletDb
funded = (process_transaction 100 7 "0012345678" (order "T1" credit (pos 5000)) start).1

credit_run :
    balances (process_transaction 100 7 "0012345678" (order "T1" credit (pos 5000)) start)
    ≡ pos 5000 ∷ pos 0 ∷ []
unfolding process_transaction process_steps lock_wallet record_transaction insert_transaction
    update_wallet update_rows update_row prevent_balance_reduction apply_impact audit_wallet_changes
    ◌+ℤ◌ ◌-ℤ◌
credit_run = refl

start-IsReconciled : IsReconciled start
unfolding balance_of ◌-ℤ◌
start-IsReconciled = ((refl, refl), ((refl, refl), tt))

process_transaction-IsReconciled_example :
    IsReconciled (process_transaction 100 7 "0012345678" (order "T1" credit (pos 5000)) start).1
process_transaction-IsReconciled_example =
    process_transaction-IsReconciled 100 7 "0012345678" (order "T1" credit (pos 5000)) start refl
      start-IsReconciled

start-ids : DistinctBy (λ (w : VirtualWallet). w.id) start.wallets
start-ids = omega arith

start-IsSolvent : IsSolvent start
unfolding ◌-ℤ◌
start-IsSolvent = ((omega arith, refl), ((omega arith, refl), tt))

process_transaction-IsSolvent_example :
    IsSolvent (process_transaction 100 7 "0012345678" (order "T1" debit (pos 1)) start).1
process_transaction-IsSolvent_example =
    process_transaction-IsSolvent 100 7 "0012345678" (order "T1" debit (pos 1)) start start-ids
      start-IsSolvent

negative_debit :
    (e : WalletError) × (process_transaction 100 7 "0012345678" (order "T1" debit (negsuc 49)) start
      ≡ (err e, start))
negative_debit =
    process_transaction_negative 100 7 "0012345678" (order "T1" debit (negsuc 49)) start (λ e. cc)
      (omega arith)

abbrev first_credit : VirtualWalletTransactionDto
first_credit = order "T1" credit (pos 5000)

first_row : VirtualWalletTransaction
first_row = record (transaction_record 100 1 7 first_credit (pos 0) (pos 5000)) { id = 1 }

funded_run : process_transaction 100 7 "0012345678" first_credit start ≡ (ok first_row, funded)
unfolding process_transaction process_steps lock_wallet record_transaction insert_transaction
    update_wallet update_rows update_row prevent_balance_reduction apply_impact audit_wallet_changes
    ◌+ℤ◌ ◌-ℤ◌ first_row
funded_run = refl

abbrev spending : TransactionCall
spending = record {
  now = 150;
  user_id = 7;
  account_number = "0012345678";
  dto = order "T2" debit (pos 100);
}

process_transaction_once_example :
    (e : WalletError) × (process_transaction 200 9 "2098765432"
        (order "T1" debit (pos 1))
        (process_all (spending ∷ []) funded)
      ≡ (err e, process_all (spending ∷ []) funded))
process_transaction_once_example =
    process_transaction_once 100 7 "0012345678" first_credit first_row start funded 200 9
      "2098765432" (order "T1" debit (pos 1)) (spending ∷ []) funded_run refl

process_transaction-succeeds_example :
    (t : VirtualWalletTransaction) × (db' : WalletDb) × (process_transaction 100 7 "0012345678"
        first_credit start
      ≡ (ok t, db'))
    × (db'.wallets ≡ update_where (λ v. v.id == 1) (settle credit (pos 5000) 100) start.wallets)
    × (db'.transactions ≡ [] ++ t ∷ [])
    × (t.amount ≡ pos 5000)
    × (t.balance_before ≡ pos 0)
    × (t.balance_after ≡ pos 0 +ℤ pos 5000)
unfolding find_wallet
process_transaction-succeeds_example =
    process_transaction-succeeds 100 7 "0012345678" first_credit primary start refl refl refl
      (omega arith) refl

abbrev correction : UpdateVirtualWalletDto
correction = record {
  current_balance = some (pos 900);
  total_credited = none;
  total_debited = none;
  status = none;
  response_message = none;
  is_primary = none;
}

start-Balanced : All Balanced start.wallets
unfolding ◌-ℤ◌
start-Balanced = (refl, (refl, tt))

corrected : WalletDb
corrected = (update_virtual_wallet 50 7 correction start).1

correction_run :
    update_virtual_wallet 50 7 correction start ≡ (ok (assign 50 correction primary), corrected)
unfolding update_virtual_wallet assign update_wallet update_rows update_row
    prevent_balance_reduction audit_wallet_changes ◌-ℤ◌ corrected
correction_run = refl

local_reset-triggers_example :
    let db' = (local_reset_virtual_wallet 2 start).1 in
    All (λ (t : VirtualWalletTransaction). t.virtual_wallet_id ≢ 2) db'.transactions
    × (is_protected before_delete db'.triggers ≡ true)
    × ((update_transaction 1 (λ t. t) db').0 ≡ ok tt)
local_reset-triggers_example = local_reset-triggers 2 uba start 1 (λ t. t) refl

refused_update : (update_transaction 1 (λ t. t) start).1 ≡ start
unfolding installed_triggers
refused_update = update_transaction-refused 1 (λ t. t) start refl
