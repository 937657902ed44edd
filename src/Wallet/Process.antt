-- ===== src/Wallet/Process.antt =====
-- What a successful `process_transaction` has done, step by step.
use gdl_finance_v.Base.Int.{ltb_ℤ, ◌≤ℤ◌, ◌-ℤ◌, ◌+ℤ◌, ℤ}
use gdl_finance_v.Base.{
  ◌∙◌, sym, Bool-cases, List, ap, find_one_holds, subst, Option-cases, ℕ, String, ◌≡◌, inl, inr,
  some, [], ◌∷◌, ◌++◌, arith, ◌==◌, find_one,
}
use gdl_finance_v.Wallet.Entity.{
  VirtualWalletTransactionDto, reversal, debit, credit, VirtualWalletTransactionType, active,
  VirtualWallet, VirtualWalletTransaction, WalletDb,
}
use gdl_finance_v.Wallet.Database.{update_rows, update_wallet, insert_transaction}
use gdl_finance_v.Base.Action.{pure, ◌>>◌, resume-eq-ok, ok}
use gdl_finance_v.Wallet.Service.{
  process_steps, touch, transaction_record, record_transaction, debit_wallet, credit_wallet,
  apply_impact, find_wallet, lock_wallet,
}
use gdl_finance_v.Wallet.Rows.{Updated, update_rows-Updated}

pub update_wallet_ok :
    (k : ℕ) (f : VirtualWallet → VirtualWallet) (db db' : WalletDb)
    → update_wallet k f db ≡ (ok tt, db')
    → Updated k f db.wallets db'.wallets
      × (db'.transactions ≡ db.transactions)
      × (db'.triggers ≡ db.triggers)
unfolding update_wallet
update_wallet_ok k f db db' h = elim (Option-cases (update_rows k f db.wallets)) [
  | inl refused ↦ absurd (ground arith)
  | inr ((ws, as'), rows) ↦
      let e : ws ≡ db'.wallets = ground arith in
      (
        subst (Updated k f db.wallets) e (update_rows-Updated k f db.wallets ws as' rows),
        ground arith,
        ground arith,
      )
]

pub insert_transaction_ok :
    (t saved : VirtualWalletTransaction) (db db' : WalletDb)
    → insert_transaction t db ≡ (ok saved, db')
    → (db'.transactions ≡ db.transactions ++ saved ∷ [])
      × (db'.wallets ≡ db.wallets)
      × (saved ≡ record t { id = db.next_transaction_id })
unfolding insert_transaction
insert_transaction_ok t saved db db' h = ground arith

pub lock_wallet_ok :
    (user_id : ℕ) (account_number : String) (w : VirtualWallet) (db db' : WalletDb)
    → lock_wallet user_id account_number db ≡ (ok w, db')
    → (db' ≡ db) × (w.status ≡ active) × (find_one (λ v. v.id == w.id) db.wallets ≡ some w)
unfolding lock_wallet
lock_wallet_ok user_id account_number w db db' h =
    elim (Option-cases (find_wallet user_id account_number db)) [
      | inl missing ↦ absurd (ground arith)
      | inr (v, found) ↦ ground (
        arith,
        find_one_holds (λ u. u.id == v.id) w db.wallets,
        ap (λ (n : ℕ). find_one (λ u. u.id == n) db.wallets),
      )
    ]

-- What step 4 does to the table of wallets and to the balance, by the type of the transaction.
abbrev pub Impact :
    ℕ
    → VirtualWalletTransactionType
    → ℤ
    → ℕ
    → ℤ
    → ℤ
    → List VirtualWallet
    → List VirtualWallet
    → Type 0
Impact now credit amount k before after ws ws' =
    Updated k (credit_wallet now amount) ws ws' × (after ≡ before +ℤ amount)
Impact now debit amount k before after ws ws' =
    Updated k (debit_wallet now amount) ws ws' × (after ≡ before -ℤ amount) × (amount ≤ℤ before)
Impact now reversal amount k before after ws ws' = (ws' ≡ ws) × (after ≡ before)

-- An UPDATE of a wallet that is followed by the answer.
pub update_answer_ok :
    {B : Type 0} (k : ℕ) (f : VirtualWallet → VirtualWallet) (b after : B) (db db' : WalletDb)
    → (update_wallet k f >> pure b) db ≡ (ok after, db')
    → Updated k f db.wallets db'.wallets × (after ≡ b) × (db'.transactions ≡ db.transactions)
update_answer_ok k f b after db db' h =
    let (u, db1, e, h') = resume-eq-ok _ (update_wallet k f db) after db' h in
    let (rows, kept, _) = update_wallet_ok k f db db1 e in
    let same : db1 ≡ db' = ground arith in
    (subst (λ d. Updated k f db.wallets d.wallets) same rows, ground arith, ground arith)

pub apply_impact_ok :
    (now : ℕ) (type : VirtualWalletTransactionType) (amount : ℤ) (k : ℕ) (before after : ℤ)
    (db db' : WalletDb)
    → apply_impact now type amount k before db ≡ (ok after, db')
    → Impact now type amount k before after db.wallets db'.wallets
      × (db'.transactions ≡ db.transactions)
unfolding apply_impact
apply_impact_ok now credit amount k before after db db' h =
    let (rows, e, kept) =
      update_answer_ok k (credit_wallet now amount) (before +ℤ amount) after db db' h in
    ((rows, e), kept)
apply_impact_ok now debit amount k before after db db' h = elim (Bool-cases (ltb_ℤ before amount)) [
  | inl short ↦ absurd (ground arith)
  | inr enough ↦
      let (rows, e, kept) =
        update_answer_ok k (debit_wallet now amount) (before -ℤ amount) after db db'
          (rw enough at h) in
      ((rows, e, ground arith), kept)
]
apply_impact_ok now reversal amount k before after db db' h = ground arith

-- Steps 5 to 7: the row is appended with the next id, and the wallet is touched.
pub record_transaction_ok :
    (now user_id : ℕ) (dto : VirtualWalletTransactionDto) (wallet : VirtualWallet) (after : ℤ)
    (t : VirtualWalletTransaction) (db db' : WalletDb)
    → record_transaction now user_id dto wallet after db ≡ (ok t, db')
    → (db'.transactions ≡ db.transactions ++ t ∷ [])
      × (t ≡ record (transaction_record now wallet.id user_id dto wallet.current_balance after) {
        id = db.next_transaction_id;
      })
      × Updated wallet.id (touch now) db.wallets db'.wallets
unfolding record_transaction
record_transaction_ok now user_id dto wallet after t db db' h =
    let row = transaction_record now wallet.id user_id dto wallet.current_balance after in
    let (saved, db1, e, h') = resume-eq-ok _ (insert_transaction row db) t db' h in
    let (u, db2, e', h'') = resume-eq-ok _ (update_wallet wallet.id (touch now) db1) t db' h' in
    let (appended, kept, saved_row) = insert_transaction_ok row saved db db1 e in
    let (rows, kept', _) = update_wallet_ok wallet.id (touch now) db1 db2 e' in
    let same_row : saved ≡ t = ground arith in
    let same : db2 ≡ db' = ground arith in
    (
      ap (λ (d : WalletDb). d.transactions) (sym same)
          ∙ (kept' ∙ (appended ∙ ap (λ r. db.transactions ++ r ∷ []) same_row)),
      sym same_row ∙ saved_row,
      subst (λ d. Updated wallet.id (touch now) db.wallets d.wallets) same
          (subst (λ ws. Updated wallet.id (touch now) ws db2.wallets) kept rows),
    )

-- All that a successful run of the database transaction has done.
pub record Processed (now user_id : ℕ) (dto : VirtualWalletTransactionDto) (db db' : WalletDb)
    (t : VirtualWalletTransaction) : Type 0 where
  pub wallet : VirtualWallet
  pub found : find_one (λ v. v.id == wallet.id) db.wallets ≡ some wallet
  pub is_open : wallet.status ≡ active
  pub after : ℤ
  pub mid : List VirtualWallet
  pub impact :
      Impact now dto.transaction_type dto.amount wallet.id wallet.current_balance after db.wallets
        mid
  pub touched : Updated wallet.id (touch now) mid db'.wallets
  pub appended : db'.transactions ≡ db.transactions ++ t ∷ []
  pub row : t ≡ record (transaction_record now wallet.id user_id dto wallet.current_balance after) {
    id = t.id;
  }

pub process_steps-Processed :
    (now user_id : ℕ) (account_number : String) (dto : VirtualWalletTransactionDto)
    (t : VirtualWalletTransaction) (db db' : WalletDb)
    → process_steps now user_id account_number dto db ≡ (ok t, db')
    → Processed now user_id dto db db' t
unfolding process_steps
process_steps-Processed now user_id account_number dto t db db' h =
    let (w, db1, e1, h1) = resume-eq-ok _ (lock_wallet user_id account_number db) t db' h in
    let (same, open_, there) = lock_wallet_ok user_id account_number w db db1 e1 in
    let (after, db2, e2, h2) =
      resume-eq-ok _ (apply_impact now dto.transaction_type dto.amount w.id w.current_balance db1) t
        db' h1 in
    let (impact, kept) =
      apply_impact_ok now dto.transaction_type dto.amount w.id w.current_balance after db1 db2 e2 in
    let (appended, row, touched) = record_transaction_ok now user_id dto w after t db2 db' h2 in
    record {
      wallet = w;
      found = there;
      is_open = open_;
      after = after;
      mid = db2.wallets;
      impact =
          subst
            (λ (d : WalletDb).
              Impact now dto.transaction_type dto.amount w.id w.current_balance after d.wallets
                db2.wallets)
            same impact;
      touched = touched;
      appended =
          appended ∙ ap (λ l. l ++ t ∷ []) (kept ∙ ap (λ (d : WalletDb). d.transactions) same);
      row =
          subst
            (λ n.
              t
              ≡ record (transaction_record now w.id user_id dto w.current_balance after) { id = n })
            (sym (ap (λ (r : VirtualWalletTransaction). r.id) row)) row;
    }
