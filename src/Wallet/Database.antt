-- ===== src/Wallet/Database.antt =====
-- services/typescript/user-service/src/migrations/1767021896000-ProtectBalance.ts: what the
-- database does on an UPDATE of a wallet and on a change of the transaction history, and the unique
-- keys of virtual-wallet-transaction.entity.ts.
use gdl_finance_v.Base.{
  map, ℕ, ◌+◌, Option, none, some, Bool, true, false, ◌&&◌, ◌||◌, List, [], ◌∷◌, ◌++◌,
  if◌then◌else◌, ◌==◌, str_eq, any, update_where,
}
use gdl_finance_v.Base.Action.{Action, ok, err}
use gdl_finance_v.Base.Int.{pos, ltb_ℤ, ◌-ℤ◌}
use gdl_finance_v.Wallet.Entity.{
  VirtualWallet, VirtualWalletTransaction, VirtualWalletAudit, HistoryEvent, before_update,
  before_delete, HistoryTriggers, WalletDb,
}

-- The errors of the service. The first three stand for the exceptions that it throws itself,
-- `database_error` for a statement that the database refuses or a TypeError, and `process_failed`
-- for the InternalServerErrorException in which the service wraps the last.
pub data WalletError : Type 0 where
  wallet_not_found not_active insufficient_balance database_error process_failed : WalletError

-- A method of the service on this database.
abbrev pub WalletAction : Type 0 → Type 0
WalletAction A = Action WalletDb WalletError A

-- The trigger `prevent_balance_reduction`; `none` is its SIGNAL.
unfoldable pub prevent_balance_reduction : VirtualWallet → VirtualWallet → Option VirtualWallet
prevent_balance_reduction old new =
    if ltb_ℤ new.total_credited old.total_credited
    then none
    else (if ltb_ℤ new.total_debited old.total_debited
        then none
        else some (record new { current_balance = new.total_credited -ℤ new.total_debited }))

-- The trigger `audit_wallet_changes`.
unfoldable pub audit_wallet_changes : VirtualWallet → VirtualWallet → VirtualWalletAudit
audit_wallet_changes old new = record {
  wallet_id = old.id;
  user_id = old.user_id;
  old_balance = old.current_balance;
  new_balance = new.current_balance;
  old_total_credited = old.total_credited;
  new_total_credited = new.total_credited;
  old_total_debited = old.total_debited;
  new_total_debited = new.total_debited;
}

-- One row of an UPDATE of the wallets whose id is `k`: what the triggers make of it, with the
-- rows for the audit table.
unfoldable pub update_row :
    ℕ
    → (VirtualWallet → VirtualWallet)
    → VirtualWallet
    → Option (VirtualWallet × List VirtualWalletAudit)
update_row k f w =
    if w.id == k
    then (elim (prevent_balance_reduction w (f w)) [
      | none ↦ none
      | some w' ↦ some (w', audit_wallet_changes w w' ∷ [])
    ])
    else some (w, [])

unfoldable pub update_rows :
    ℕ
    → (VirtualWallet → VirtualWallet)
    → List VirtualWallet
    → Option (List VirtualWallet × List VirtualWalletAudit)
update_rows k f [] = some ([], [])
update_rows k f (w ∷ ws) = elim (update_row k f w) [
  | none ↦ none
  | some (w', as') ↦ elim (update_rows k f ws) [
    | none ↦ none
    | some (ws', bs') ↦ some (w' ∷ ws', as' ++ bs')
  ]
]

unfoldable pub update_wallet : ℕ → (VirtualWallet → VirtualWallet) → WalletAction (Unit {0})
update_wallet k f db = elim (update_rows k f db.wallets) [
  | none ↦ (err database_error, db)
  | some (ws, as') ↦ (ok tt, record db { wallets = ws; audits = db.audits ++ as' })
]

-- An INSERT of a transaction: `transaction_reference` is a unique column.
unfoldable pub insert_transaction : VirtualWalletTransaction → WalletAction VirtualWalletTransaction
insert_transaction t db =
    if any (λ u. str_eq u.transaction_reference t.transaction_reference) db.transactions
    then (err database_error, db)
    else (let saved = record t { id = db.next_transaction_id } in
        (
          ok saved,
          record db {
            transactions = db.transactions ++ saved ∷ [];
            next_transaction_id = db.next_transaction_id + 1;
          },
        ))

abbrev is_event : HistoryEvent → HistoryEvent → Bool
is_event before_update before_update = true
is_event before_delete before_delete = true
is_event _ _ = false

abbrev fires : HistoryEvent → Option HistoryEvent → Bool
fires e none = false
fires e (some d) = is_event e d

-- Whether a trigger refuses the event.
unfoldable pub is_protected : HistoryEvent → HistoryTriggers → Bool
is_protected e t =
    fires e t.protect_transaction_history_update || fires e t.protect_transaction_history_delete

-- The triggers as the migration installs them.
unfoldable pub installed_triggers : HistoryTriggers
installed_triggers = record {
  protect_transaction_history_update = some before_update;
  protect_transaction_history_delete = some before_delete;
}

-- `up` of the migration: the history is deleted and the balances are reset before the triggers are
-- created.
unfoldable pub protect_balance_up : WalletDb → WalletDb
unfolding installed_triggers
protect_balance_up db = record db {
  transactions = [];
  wallets =
      map
        (λ (w : VirtualWallet). record w {
          current_balance = pos 0;
          total_credited = pos 0;
          total_debited = pos 0;
        })
        db.wallets;
  triggers = installed_triggers;
}

-- An UPDATE of the transaction whose id is `k`.
unfoldable pub update_transaction :
    ℕ → (VirtualWalletTransaction → VirtualWalletTransaction) → WalletAction (Unit {0})
update_transaction k f db =
    if any (λ t. t.id == k) db.transactions && is_protected before_update db.triggers
    then (err database_error, db)
    else (ok tt, record db { transactions = update_where (λ t. t.id == k) f db.transactions })
