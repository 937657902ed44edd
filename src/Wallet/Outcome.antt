-- ===== src/Wallet/Outcome.antt =====
-- `process_transaction` succeeds when its conditions are met, and what it has then done.
use gdl_finance_v.Wallet.Reference.{is_used}
use gdl_finance_v.Wallet.Service.{
  find_wallet, touch, debit_wallet, credit_wallet, apply_impact, lock_wallet, rethrow,
  transaction_record, process_steps, process_transaction, record_transaction,
}
use gdl_finance_v.Wallet.Database.{
  audit_wallet_changes, update_wallet, prevent_balance_reduction, update_row, update_rows,
  insert_transaction,
}
use gdl_finance_v.Base.Action.{◌>>=◌, resume, rollback, handle, ok}
use gdl_finance_v.Base.{
  fun_ext, ◌+◌, find_one, false, inr, inl, Bool-cases, refl, arith, [], ◌∷◌, ◌==◌, ◌++◌,
  update_where, some, sym, List, ap, ◌∙◌, ◌≡◌, str_eq, any, ℕ, String,
}
use gdl_finance_v.Base.Int.{int_laws, ◌-ℤ◌, ◌+ℤ◌, ◌≤ℤ◌, pos, ℤ}
use gdl_finance_v.Wallet.Entity.{
  active, reversal, debit, credit, VirtualWalletAudit, VirtualWalletTransactionType, VirtualWallet,
  VirtualWalletTransactionDto, VirtualWalletTransaction, WalletDb,
}

-- What step 4 adds to the two totals.
abbrev pub added_credit : VirtualWalletTransactionType → ℤ → ℤ → ℤ
added_credit credit amount total = total +ℤ amount
added_credit debit amount total = total
added_credit reversal amount total = total

abbrev pub added_debit : VirtualWalletTransactionType → ℤ → ℤ → ℤ
added_debit credit amount total = total
added_debit debit amount total = total +ℤ amount
added_debit reversal amount total = total

-- A wallet whose balance is computed afresh.
abbrev rebalance : VirtualWallet → VirtualWallet
rebalance w = record w { current_balance = w.total_credited -ℤ w.total_debited }

-- The row of the wallet after a transaction that succeeds.
abbrev pub settle : VirtualWalletTransactionType → ℤ → ℕ → VirtualWallet → VirtualWallet
settle type amount now w = record w {
  total_credited = added_credit type amount w.total_credited;
  total_debited = added_debit type amount w.total_debited;
  current_balance =
      added_credit type amount w.total_credited -ℤ added_debit type amount w.total_debited;
  last_transaction_date = some now;
  updated_at = now;
}

-- The balance that the history states.
abbrev pub balance_after : VirtualWalletTransactionType → ℤ → ℤ → ℤ
balance_after credit amount balance = balance +ℤ amount
balance_after debit amount balance = balance -ℤ amount
balance_after reversal amount balance = balance

-- The condition on the amount.
abbrev pub Admissible : VirtualWalletTransactionType → ℤ → ℤ → Type 0
Admissible credit amount balance = pos 0 ≤ℤ amount
Admissible debit amount balance = (pos 0 ≤ℤ amount) × (amount ≤ℤ balance)
Admissible reversal amount balance = Unit

update_rows_total :
    (k : ℕ) (f g : VirtualWallet → VirtualWallet) (ws : List VirtualWallet)
    → ((w : VirtualWallet) → prevent_balance_reduction w (f w) ≡ some (g w))
    → (as' : List VirtualWalletAudit) × (update_rows k f ws
        ≡ some (update_where (λ w. w.id == k) g ws, as'))
unfolding update_rows update_row
update_rows_total k f g [] through = ([], refl)
update_rows_total k f g (w ∷ ws) through =
    let (bs, rest) = update_rows_total k f g ws through in
    elim (Bool-cases (w.id == k)) [
      | inl hit ↦ (audit_wallet_changes w (g w) ∷ bs, ground (arith, through w, rest))
      | inr miss ↦ (bs, ground (arith, rest))
    ]

update_wallet_total :
    (k : ℕ) (f g : VirtualWallet → VirtualWallet) (db : WalletDb)
    → ((w : VirtualWallet) → prevent_balance_reduction w (f w) ≡ some (g w))
    → (db1 : WalletDb) × (update_wallet k f db ≡ (ok tt, db1))
      × (db1.wallets ≡ update_where (λ w. w.id == k) g db.wallets)
      × (db1.transactions ≡ db.transactions)
unfolding update_wallet
update_wallet_total k f g db through =
    let (as', rows) = update_rows_total k f g db.wallets through in
    (
      record db { wallets = update_where (λ w. w.id == k) g db.wallets; audits = db.audits ++ as' },
      ground (arith, rows),
      refl,
      refl,
    )

credit_through :
    (now : ℕ) (amount : ℤ) (w : VirtualWallet)
    → pos 0 ≤ℤ amount
    → prevent_balance_reduction w (credit_wallet now amount w)
      ≡ some (rebalance (credit_wallet now amount w))
unfolding prevent_balance_reduction
credit_through now amount w h = grind (int_laws)

debit_through :
    (now : ℕ) (amount : ℤ) (w : VirtualWallet)
    → pos 0 ≤ℤ amount
    → prevent_balance_reduction w (debit_wallet now amount w)
      ≡ some (rebalance (debit_wallet now amount w))
unfolding prevent_balance_reduction
debit_through now amount w h = grind (int_laws)

touch_through :
    (now : ℕ) (w : VirtualWallet)
    → prevent_balance_reduction w (touch now w) ≡ some (rebalance (touch now w))
unfolding prevent_balance_reduction
touch_through now w = grind (int_laws)

-- Updates of the same row follow one another.
update_where_twice :
    (k : ℕ) (f g : VirtualWallet → VirtualWallet) (ws : List VirtualWallet)
    → ((w : VirtualWallet) → (f w).id ≡ w.id)
    → update_where (λ w. w.id == k) g (update_where (λ w. w.id == k) f ws)
      ≡ update_where (λ w. w.id == k) (λ w. g (f w)) ws
update_where_twice k f g [] same = refl
update_where_twice k f g (w ∷ ws) same = elim (Bool-cases (w.id == k)) [
  | inl hit ↦ rw hit (rw (same w) (rw hit (rw (update_where_twice k f g ws same))))
  | inr miss ↦ rw miss (rw miss (rw (update_where_twice k f g ws same)))
]

update_where_self :
    (k : ℕ) (ws : List VirtualWallet) → update_where (λ w. w.id == k) (λ w. w) ws ≡ ws
update_where_self k [] = refl
update_where_self k (w ∷ ws) = ground (arith, update_where_self k ws)

-- The row of the wallet after step 4.
abbrev impact_row : ℕ → VirtualWalletTransactionType → ℤ → VirtualWallet → VirtualWallet
impact_row now credit amount w = rebalance (credit_wallet now amount w)
impact_row now debit amount w = rebalance (debit_wallet now amount w)
impact_row now reversal amount w = w

impact_row-id :
    (now : ℕ) (type : VirtualWalletTransactionType) (amount : ℤ) (w : VirtualWallet)
    → (impact_row now type amount w).id ≡ w.id
impact_row-id now credit amount w = refl
impact_row-id now debit amount w = refl
impact_row-id now reversal amount w = refl

touch-impact_row :
    (type : VirtualWalletTransactionType) (amount : ℤ) (now : ℕ) (w : VirtualWallet)
    → rebalance (touch now (impact_row now type amount w)) ≡ settle type amount now w
touch-impact_row credit amount now w = refl
touch-impact_row debit amount now w = refl
touch-impact_row reversal amount now w = refl

-- Step 4 succeeds on an admissible amount.
apply_impact_total :
    (now : ℕ) (type : VirtualWalletTransactionType) (amount : ℤ) (k : ℕ) (balance : ℤ)
    (db : WalletDb)
    → Admissible type amount balance
    → (db1 : WalletDb) × (apply_impact now type amount k balance db
        ≡ (ok (balance_after type amount balance), db1))
      × (db1.wallets ≡ update_where (λ w. w.id == k) (impact_row now type amount) db.wallets)
      × (db1.transactions ≡ db.transactions)
unfolding apply_impact
apply_impact_total now credit amount k balance db h =
    let (db1, e, rows, kept) =
      update_wallet_total k (credit_wallet now amount) (λ w. rebalance (credit_wallet now amount w))
        db (λ w. credit_through now amount w h) in
    (db1, ground (arith, e), rows, kept)
apply_impact_total now debit amount k balance db h =
    let (db1, e, rows, kept) =
      update_wallet_total k (debit_wallet now amount) (λ w. rebalance (debit_wallet now amount w))
        db (λ w. debit_through now amount w h.0) in
    (db1, ground (arith, e), rows, kept)
apply_impact_total now reversal amount k balance db h =
    (db, refl, sym (update_where_self k db.wallets), refl)

record_transaction_total :
    (now user_id : ℕ) (dto : VirtualWalletTransactionDto) (w : VirtualWallet) (after : ℤ)
    (db : WalletDb)
    → is_used dto.transaction_reference db ≡ false
    → (t : VirtualWalletTransaction) × (db' : WalletDb) × (record_transaction now user_id dto w
          after db
        ≡ (ok t, db'))
      × (db'.wallets ≡ update_where (λ v. v.id == w.id) (λ v. rebalance (touch now v)) db.wallets)
      × (db'.transactions ≡ db.transactions ++ t ∷ [])
      × (t.amount ≡ dto.amount)
      × (t.balance_before ≡ w.current_balance)
      × (t.balance_after ≡ after)
unfolding record_transaction insert_transaction
record_transaction_total now user_id dto w after db fresh =
    let row = transaction_record now w.id user_id dto w.current_balance after in
    let saved : VirtualWalletTransaction = record row { id = db.next_transaction_id } in
    let db1 : WalletDb = record db {
      transactions = db.transactions ++ saved ∷ [];
      next_transaction_id = db.next_transaction_id + 1;
    } in
    let (db', e, rows, kept) =
      update_wallet_total w.id (touch now) (λ v. rebalance (touch now v)) db1 (touch_through now) in
    (saved, db', ground (arith, e), rows, kept, refl, refl, refl)

lock_wallet_total :
    (user_id : ℕ) (account_number : String) (w : VirtualWallet) (db : WalletDb)
    → find_wallet user_id account_number db ≡ some w
    → find_one (λ v. v.id == w.id) db.wallets ≡ some w
    → w.status ≡ active
    → lock_wallet user_id account_number db ≡ (ok w, db)
unfolding lock_wallet
lock_wallet_total user_id account_number w db found there open_ = ground arith

-- A transaction on an active wallet, with an admissible amount and a new reference, succeeds: the
-- row of the wallet is settled, with the times of its last transaction and update, the other wallets
-- are as before, and one row is appended to the history, with the amount and the balances before and
-- after it.
pub process_transaction-succeeds :
    (now user_id : ℕ) (account_number : String) (dto : VirtualWalletTransactionDto)
    (w : VirtualWallet) (db : WalletDb)
    → find_wallet user_id account_number db ≡ some w
    → find_one (λ v. v.id == w.id) db.wallets ≡ some w
    → w.status ≡ active
    → Admissible dto.transaction_type dto.amount w.current_balance
    → is_used dto.transaction_reference db ≡ false
    → (t : VirtualWalletTransaction) × (db' : WalletDb) × (process_transaction now user_id
          account_number dto db
        ≡ (ok t, db'))
      × (db'.wallets
          ≡ update_where
              (λ v. v.id == w.id)
              (settle dto.transaction_type dto.amount now)
              db.wallets)
      × (db'.transactions ≡ db.transactions ++ t ∷ [])
      × (t.amount ≡ dto.amount)
      × (t.balance_before ≡ w.current_balance)
      × (t.balance_after ≡ balance_after dto.transaction_type dto.amount w.current_balance)
unfolding process_transaction process_steps
process_transaction-succeeds now user_id account_number dto w db found there open_ admissible
      fresh =
    let type = dto.transaction_type in
    let locked = lock_wallet_total user_id account_number w db found there open_ in
    let (db1, impact, rows1, history1) =
      apply_impact_total now type dto.amount w.id w.current_balance db admissible in
    let fresh1 =
      ap (any (λ u. str_eq u.transaction_reference dto.transaction_reference)) history1 ∙ fresh in
    let (t, db', recorded, rows2, history2, amount, before, after) =
      record_transaction_total now user_id dto w (balance_after type dto.amount w.current_balance)
        db1 fresh1 in
    let k = w.id in
    let finish = λ (v : VirtualWallet) (b : ℤ). record_transaction now user_id dto v b in
    (
      t,
      db',
      ap (λ r. handle rethrow (rollback db r))
          (ap (resume (λ v. apply_impact now type dto.amount v.id v.current_balance >>= finish v))
              locked
            ∙ (ap (resume (finish w)) impact ∙ recorded)),
      rows2
          ∙ (ap (update_where (λ v. v.id == k) (λ v. rebalance (touch now v))) rows1
              ∙ (update_where_twice k (impact_row now type dto.amount)
                    (λ v. rebalance (touch now v)) db.wallets (impact_row-id now type dto.amount)
                  ∙ ap (λ g. update_where (λ v. v.id == k) g db.wallets)
                      (fun_ext (touch-impact_row type dto.amount now)))),
      history2 ∙ ap (λ l. l ++ t ∷ []) history1,
      amount,
      before,
      after,
    )
