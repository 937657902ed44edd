-- ===== src/Wallet/Columns.antt =====
-- An UPDATE of columns of a wallet that hold no money, and the primary key of the table.
use gdl_finance_v.Base.{
  none, some, Option, ◌++◌, ℕ, String, ◌≡◌, ◌≢◌, refl, sym, ap, ◌∙◌, subst, inl, inr, some, List,
  [], ◌∷◌, All, DistinctBy,
}
use gdl_finance_v.Base.Int.{ℤ, int_laws}
use gdl_finance_v.Base.Action.{Result, ok, err, transaction-keeps}
use gdl_finance_v.Wallet.Entity.{
  VirtualWalletAudit, VirtualWallet, VirtualWalletTransaction, VirtualWalletTransactionDto,
  VirtualWalletTransactionType, credit, debit, reversal, WalletDb,
}
use gdl_finance_v.Wallet.Database.{
  WalletError, database_error, prevent_balance_reduction, update_rows, update_wallet,
}
use gdl_finance_v.Wallet.Service.{
  credit_wallet, debit_wallet, touch, process_steps, rethrow, process_transaction,
}
use gdl_finance_v.Wallet.Rows.{
  Updated, RowUpdated, All-Updated, prevent_balance_reduction_lem, update_rows-Updated,
}
use gdl_finance_v.Wallet.Balance.{Reconciled, IsReconciled}
use gdl_finance_v.Wallet.Safety.{Solvent, IsSolvent}
use gdl_finance_v.Wallet.Process.{process_steps-Processed, Impact}

-- The primary key of the table of wallets.
abbrev pub HasKeys : List VirtualWallet → Type 0
HasKeys = DistinctBy (λ (w : VirtualWallet). w.id)

-- A change of columns that hold no money.
abbrev pub MoneyFree : (VirtualWallet → VirtualWallet) → Type 0
MoneyFree f =
    (w : VirtualWallet)
    → ((f w).id ≡ w.id)
      × ((f w).total_credited ≡ w.total_credited)
      × ((f w).total_debited ≡ w.total_debited)

module _ (k : ℕ) (f : VirtualWallet → VirtualWallet)
    (same : (w : VirtualWallet) → (f w).id ≡ w.id) where
  through-id : (w w' : VirtualWallet) → prevent_balance_reduction w (f w) ≡ some w' → w'.id ≡ w.id
  through-id w w' h =
      let (e, _, _) = prevent_balance_reduction_lem w (f w) w' h in
      ap (λ (v : VirtualWallet). v.id) e ∙ same w

  row-id : (w w' : VirtualWallet) → RowUpdated k f w w' → w'.id ≡ w.id
  row-id w w' (inl (_, through)) = through-id w w' through
  row-id w w' (inr (_, kept)) = ap (λ (v : VirtualWallet). v.id) kept

  apart-Updated :
      (n : ℕ) (ws ws' : List VirtualWallet)
      → Updated k f ws ws'
      → All (λ (v : VirtualWallet). n ≢ v.id) ws
      → All (λ (v : VirtualWallet). n ≢ v.id) ws'
  apart-Updated n ws ws' u h =
      All-Updated (λ v. n ≢ v.id) (λ v. n ≢ v.id) k f ws ws' (λ w ne a. a)
        (λ w w' hit a through e. a (e ∙ through-id w w' through)) u h

  -- An UPDATE that leaves the ids alone keeps the primary key.
  pub HasKeys-Updated :
      (ws ws' : List VirtualWallet) → Updated k f ws ws' → HasKeys ws → HasKeys ws'
  HasKeys-Updated [] [] u h = tt
  HasKeys-Updated [] (w' ∷ ws') u h = absurd u
  HasKeys-Updated (w ∷ ws) [] u h = absurd u
  HasKeys-Updated (w ∷ ws) (w' ∷ ws') (row, rows) (apart, rest) = (
    apart-Updated w'.id ws ws' rows
        (subst (λ n. All (λ (v : VirtualWallet). n ≢ v.id) ws) (sym (row-id w w' row)) apart),
    HasKeys-Updated ws ws' rows rest,
  )

mid-HasKeys :
    (now : ℕ) (type : VirtualWalletTransactionType) (amount before after : ℤ) (k : ℕ)
    (ws mid : List VirtualWallet)
    → Impact now type amount k before after ws mid
    → HasKeys ws
    → HasKeys mid
mid-HasKeys now credit amount before after k ws mid (rows, _) h =
    HasKeys-Updated k (credit_wallet now amount) (λ w. refl) ws mid rows h
mid-HasKeys now debit amount before after k ws mid (rows, _, _) h =
    HasKeys-Updated k (debit_wallet now amount) (λ w. refl) ws mid rows h
mid-HasKeys now reversal amount before after k ws mid (same, _) h = subst HasKeys (sym same) h

-- A transaction keeps the primary key of the wallets.
pub process_transaction-HasKeys :
    (now user_id : ℕ) (account_number : String) (dto : VirtualWalletTransactionDto) (db : WalletDb)
    → HasKeys db.wallets
    → HasKeys (process_transaction now user_id account_number dto db).1.wallets
unfolding process_transaction
process_transaction-HasKeys now user_id account_number dto db h =
    transaction-keeps (λ d. HasKeys d.wallets) rethrow
      (process_steps now user_id account_number dto) db h
      (λ t db' e.
        let p = process_steps-Processed now user_id account_number dto t db db' e in
        HasKeys-Updated p.wallet.id (touch now) (λ w. refl) p.mid db'.wallets p.touched
          (mid-HasKeys now dto.transaction_type dto.amount p.wallet.current_balance p.after
            p.wallet.id db.wallets p.mid p.impact h))

-- What holds before an UPDATE, and of the rows that the trigger lets through, holds after it.
update_wallet-keeps :
    (Q : WalletDb → Type 0) (k : ℕ) (f : VirtualWallet → VirtualWallet) (db : WalletDb)
    → Q db
    → ((ws : List VirtualWallet) (as' : List VirtualWalletAudit)
        → Updated k f db.wallets ws
        → Q (record db { wallets = ws; audits = db.audits ++ as' }))
    → Q (update_wallet k f db).1
unfolding update_wallet
update_wallet-keeps Q k f db before after = by_rows (update_rows k f db.wallets) refl
  where
    applied :
        Option (List VirtualWallet × List VirtualWalletAudit)
        → Result WalletError (Unit {0}) × WalletDb
    applied o = elim o [
      | none ↦ (err database_error, db)
      | some (ws, as') ↦ (ok tt, record db { wallets = ws; audits = db.audits ++ as' })
    ]

    by_rows :
        (o : Option (List VirtualWallet × List VirtualWalletAudit))
        → update_rows k f db.wallets ≡ o
        → Q (applied o).1
    by_rows none e = before
    by_rows (some (ws, as')) e = after ws as' (update_rows-Updated k f db.wallets ws as' e)

free-Reconciled :
    (f : VirtualWallet → VirtualWallet) (ts : List VirtualWalletTransaction) (w w' : VirtualWallet)
    → MoneyFree f
    → Reconciled ts w
    → prevent_balance_reduction w (f w) ≡ some w'
    → Reconciled ts w'
free-Reconciled f ts w w' free h through =
    let (e, _, _) = prevent_balance_reduction_lem w (f w) w' through in grind (int_laws, free w)

pub update_wallet-IsReconciled :
    (k : ℕ) (f : VirtualWallet → VirtualWallet) (db : WalletDb)
    → MoneyFree f
    → IsReconciled db
    → IsReconciled (update_wallet k f db).1
update_wallet-IsReconciled k f db free h = update_wallet-keeps IsReconciled k f db h λ ws as' rows.
    All-Updated (Reconciled db.transactions) (Reconciled db.transactions) k f db.wallets ws
      (λ w ne r. r) (λ w w' hit r. free-Reconciled f db.transactions w w' free r) rows h

free-Solvent :
    (f : VirtualWallet → VirtualWallet) (w w' : VirtualWallet)
    → MoneyFree f
    → Solvent w
    → prevent_balance_reduction w (f w) ≡ some w'
    → Solvent w'
free-Solvent f w w' free h through =
    let (e, _, _) = prevent_balance_reduction_lem w (f w) w' through in grind (int_laws, free w)

pub update_wallet-IsSolvent :
    (k : ℕ) (f : VirtualWallet → VirtualWallet) (db : WalletDb)
    → MoneyFree f
    → IsSolvent db
    → IsSolvent (update_wallet k f db).1
update_wallet-IsSolvent k f db free h = update_wallet-keeps IsSolvent k f db h λ ws as' rows.
    All-Updated Solvent Solvent k f db.wallets ws (λ w ne r. r)
      (λ w w' hit r. free-Solvent f w w' free r) rows h

pub update_wallet-HasKeys :
    (k : ℕ) (f : VirtualWallet → VirtualWallet) (db : WalletDb)
    → MoneyFree f
    → HasKeys db.wallets
    → HasKeys (update_wallet k f db).1.wallets
update_wallet-HasKeys k f db free h =
    update_wallet-keeps (λ d. HasKeys d.wallets) k f db h
      λ ws as' rows. HasKeys-Updated k f (λ w. (free w).0) db.wallets ws rows h
