-- ===== src/Wallet/Reference.antt =====
-- A transaction reference is used once (`transaction_reference` is a unique column).
use gdl_finance_v.Wallet.Process.{process_steps-Processed, apply_impact_ok, lock_wallet_ok}
use gdl_finance_v.Wallet.Service.{
  apply_impact, lock_wallet, rethrow, transaction_record, process_steps, process_transaction,
  record_transaction,
}
use gdl_finance_v.Wallet.Database.{database_error, WalletError, insert_transaction}
use gdl_finance_v.Base.Action.{
  transaction-keeps, transaction-eq-ok, resume-eq-ok, transaction-fails, ok, err,
}
use gdl_finance_v.Base.{
  arith, [], ◌∷◌, ◌++◌, eq_iff, sym, subst, List, ap, ◌∙◌, true, ◌≡◌, str_eq, any, Bool, ℕ, String,
}
use gdl_finance_v.Base.Int.{ℤ}
use gdl_finance_v.Wallet.Entity.{
  VirtualWallet, VirtualWalletTransactionDto, VirtualWalletTransaction, WalletDb,
}

-- The reference already stands in the history.
abbrev pub is_used : String → WalletDb → Bool
is_used reference db = any (λ u. str_eq u.transaction_reference reference) db.transactions

insert_transaction_used :
    (t : VirtualWalletTransaction) (db : WalletDb)
    → is_used t.transaction_reference db ≡ true
    → insert_transaction t db ≡ (err database_error, db)
unfolding insert_transaction
insert_transaction_used t db h = rw h

record_transaction_used :
    (now user_id : ℕ) (dto : VirtualWalletTransactionDto) (wallet : VirtualWallet) (after : ℤ)
    (t : VirtualWalletTransaction) (db db' : WalletDb)
    → is_used dto.transaction_reference db ≡ true
    → record_transaction now user_id dto wallet after db ≡ (ok t, db')
    → ⊥
unfolding record_transaction
record_transaction_used now user_id dto wallet after t db db' used h =
    let row = transaction_record now wallet.id user_id dto wallet.current_balance after in
    let (saved, db1, e, _) = resume-eq-ok _ (insert_transaction row db) t db' h in
    let refused = insert_transaction_used row db used in cc

-- A transaction whose reference stands in the history fails and changes nothing.
pub process_transaction_used :
    (now user_id : ℕ) (account_number : String) (dto : VirtualWalletTransactionDto) (db : WalletDb)
    → is_used dto.transaction_reference db ≡ true
    → (e : WalletError) × (process_transaction now user_id account_number dto db ≡ (err e, db))
unfolding process_transaction process_steps
process_transaction_used now user_id account_number dto db used =
    transaction-fails rethrow (process_steps now user_id account_number dto) db (λ t db' h.
      let (w, db1, e1, h1) = resume-eq-ok _ (lock_wallet user_id account_number db) t db' h in
      let (same, _, _) = lock_wallet_ok user_id account_number w db db1 e1 in
      let (after, db2, e2, h2) =
        resume-eq-ok _ (apply_impact now dto.transaction_type dto.amount w.id w.current_balance db1)
          t db' h1 in
      let (_, kept) =
        apply_impact_ok now dto.transaction_type dto.amount w.id w.current_balance after db1 db2
          e2 in
      let history : db2.transactions ≡ db.transactions =
        kept ∙ ap (λ (d : WalletDb). d.transactions) same in
      record_transaction_used now user_id dto w after t db2 db'
        (ap (any (λ u. str_eq u.transaction_reference dto.transaction_reference)) history ∙ used)
        h2)

any-append_last {ℓ} :
    {A : Type ℓ} (p : A → Bool) (xs : List A) (x : A) → p x ≡ true → any p (xs ++ x ∷ []) ≡ true
any-append_last p [] x h = rw h
any-append_last p (y ∷ xs) x h = ground (arith, any-append_last p xs x h)

process_steps-is_used :
    (now user_id : ℕ) (account_number : String) (dto : VirtualWalletTransactionDto)
    (t : VirtualWalletTransaction) (db db' : WalletDb)
    → process_steps now user_id account_number dto db ≡ (ok t, db')
    → is_used dto.transaction_reference db' ≡ true
unfolding transaction_record
process_steps-is_used now user_id account_number dto t db db' h =
    let p = process_steps-Processed now user_id account_number dto t db db' h in
    let reference = ap (λ (r : VirtualWalletTransaction). r.transaction_reference) p.row in
    subst (λ ts. any (λ u. str_eq u.transaction_reference dto.transaction_reference) ts ≡ true)
      (sym p.appended)
      (any-append_last (λ u. str_eq u.transaction_reference dto.transaction_reference)
        db.transactions t ((eq_iff t.transaction_reference dto.transaction_reference).1 reference))

any-append {ℓ} :
    {A : Type ℓ} (p : A → Bool) (xs ys : List A) → any p xs ≡ true → any p (xs ++ ys) ≡ true
any-append p [] ys h = cc
any-append p (x ∷ xs) ys h = ground (arith, any-append p xs ys)

-- A transaction, however it ends, leaves the references that are used used.
process_transaction-is_used :
    (reference : String) (now user_id : ℕ) (account_number : String)
    (dto : VirtualWalletTransactionDto) (db : WalletDb)
    → is_used reference db ≡ true
    → is_used reference (process_transaction now user_id account_number dto db).1 ≡ true
unfolding process_transaction
process_transaction-is_used reference now user_id account_number dto db used =
    transaction-keeps (λ d. is_used reference d ≡ true) rethrow
      (process_steps now user_id account_number dto) db used
      (λ t db' e.
        let p = process_steps-Processed now user_id account_number dto t db db' e in
        subst (λ ts. any (λ u. str_eq u.transaction_reference reference) ts ≡ true) (sym p.appended)
          (any-append (λ u. str_eq u.transaction_reference reference) db.transactions (t ∷ [])
            used))

-- A call of `processTransaction`.
pub record TransactionCall : Type 0 where
  pub now : ℕ
  pub user_id : ℕ
  pub account_number : String
  pub dto : VirtualWalletTransactionDto

-- The database after some calls, one after the other, however they end.
unfoldable pub process_all : List TransactionCall → WalletDb → WalletDb
process_all [] db = db
process_all (c ∷ cs) db =
    process_all cs (process_transaction c.now c.user_id c.account_number c.dto db).1

process_all-is_used :
    (reference : String) (calls : List TransactionCall) (db : WalletDb)
    → is_used reference db ≡ true
    → is_used reference (process_all calls db) ≡ true
unfolding process_all
process_all-is_used reference [] db used = used
process_all-is_used reference (c ∷ cs) db used =
    process_all-is_used reference cs
      (process_transaction c.now c.user_id c.account_number c.dto db).1
      (process_transaction-is_used reference c.now c.user_id c.account_number c.dto db used)

-- A reference is used once: after a transaction has succeeded, and after any calls of
-- processTransaction that follow it, however they end, one with its reference, of any user and for
-- any account, fails and changes nothing. The history is not deleted in between, as a local reset
-- does.
pub process_transaction_once :
    (now user_id : ℕ) (account_number : String) (dto : VirtualWalletTransactionDto)
    (t : VirtualWalletTransaction) (db db' : WalletDb) (later other_user : ℕ)
    (other_account : String) (other : VirtualWalletTransactionDto) (calls : List TransactionCall)
    → process_transaction now user_id account_number dto db ≡ (ok t, db')
    → other.transaction_reference ≡ dto.transaction_reference
    → (e : WalletError) × (process_transaction later other_user other_account other
          (process_all calls db')
        ≡ (err e, process_all calls db'))
unfolding process_transaction
process_transaction_once now user_id account_number dto t db db' later other_user other_account
      other calls done same =
    process_transaction_used later other_user other_account other (process_all calls db') (
      process_all-is_used other.transaction_reference calls db' (
        subst (λ r. is_used r db' ≡ true) (sym same)
          (process_steps-is_used now user_id account_number dto t db db' (
            transaction-eq-ok rethrow (process_steps now user_id account_number dto) t db db'
              done))))
