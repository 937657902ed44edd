-- ===== src/Wallet/Balance.antt =====
-- The balance of a wallet, the totals and the history of transactions agree, and stay so.
use gdl_finance_v.Wallet.Process.{process_steps-Processed, Processed, Impact}
use gdl_finance_v.Wallet.Rows.{All-Updated, prevent_balance_reduction_lem}
use gdl_finance_v.Wallet.Database.{protect_balance_up, prevent_balance_reduction}
use gdl_finance_v.Base.Action.{transaction-keeps}
use gdl_finance_v.Wallet.Service.{
  process_steps, rethrow, transaction_record, process_transaction, debit_wallet, credit_wallet,
  is_successful, touch, contribution, balance_of,
}
use gdl_finance_v.Wallet.Entity.{
  successful, VirtualWalletTransactionDto, VirtualWalletTransactionType, reversal, debit, credit,
  VirtualWallet, VirtualWalletTransaction, WalletDb,
}
use gdl_finance_v.Base.{
  refl, map, ◌∙◌, subst₂, ap, All-map, sym, subst, String, or_else, [], ◌∷◌, true, some, arith, ◌≢◌,
  ◌++◌, ◌≡◌, All, ℕ, List,
}
use gdl_finance_v.Base.Int.{◌+ℤ◌, ◌-ℤ◌, ℤ, pos, int_laws}

-- The balance that a wallet shows is its credits less its debits, and is the sum over its history.
abbrev pub Reconciled : List VirtualWalletTransaction → VirtualWallet → Type 0
Reconciled ts w =
    (w.current_balance ≡ w.total_credited -ℤ w.total_debited)
    × (balance_of w.id ts ≡ w.current_balance)

abbrev pub IsReconciled : WalletDb → Type 0
IsReconciled db = All (Reconciled db.transactions) db.wallets

balance_of-append :
    (k : ℕ) (ts : List VirtualWalletTransaction) (t : VirtualWalletTransaction)
    → balance_of k (ts ++ t ∷ []) ≡ balance_of k ts +ℤ contribution k t
unfolding balance_of
balance_of-append k [] t = omega int_laws
balance_of-append k (u ∷ ts) t = grind (int_laws, balance_of-append k ts t)

contribution-ne :
    (k : ℕ) (t : VirtualWalletTransaction) → k ≢ t.virtual_wallet_id → contribution k t ≡ pos 0
unfolding contribution
contribution-ne k t h = ground arith

-- A new row of the history leaves the other wallets in agreement.
other-Reconciled :
    (t : VirtualWalletTransaction) (ts : List VirtualWalletTransaction) (w : VirtualWallet)
    → w.id ≢ t.virtual_wallet_id
    → Reconciled ts w
    → Reconciled (ts ++ t ∷ []) w
other-Reconciled t ts w apart h =
    grind (int_laws, balance_of-append w.id ts t, contribution-ne w.id t apart)

credit-Reconciled :
    (now : ℕ) (t : VirtualWalletTransaction) (ts : List VirtualWalletTransaction)
    (w w' : VirtualWallet)
    → w.id ≡ t.virtual_wallet_id
    → t.transaction_type ≡ credit
    → is_successful t.status ≡ true
    → Reconciled ts w
    → prevent_balance_reduction w (credit_wallet now t.amount w) ≡ some w'
    → Reconciled (ts ++ t ∷ []) w'
unfolding contribution
credit-Reconciled now t ts w w' same type counts h through =
    let (e, _, _) = prevent_balance_reduction_lem w (credit_wallet now t.amount w) w' through in
    grind (int_laws, balance_of-append w.id ts t)

debit-Reconciled :
    (now : ℕ) (t : VirtualWalletTransaction) (ts : List VirtualWalletTransaction)
    (w w' : VirtualWallet)
    → w.id ≡ t.virtual_wallet_id
    → t.transaction_type ≡ debit
    → is_successful t.status ≡ true
    → Reconciled ts w
    → prevent_balance_reduction w (debit_wallet now t.amount w) ≡ some w'
    → Reconciled (ts ++ t ∷ []) w'
unfolding contribution
debit-Reconciled now t ts w w' same type counts h through =
    let (e, _, _) = prevent_balance_reduction_lem w (debit_wallet now t.amount w) w' through in
    grind (int_laws, balance_of-append w.id ts t)

touch-Reconciled :
    (now : ℕ) (ts : List VirtualWalletTransaction) (w w' : VirtualWallet)
    → Reconciled ts w
    → prevent_balance_reduction w (touch now w) ≡ some w'
    → Reconciled ts w'
touch-Reconciled now ts w w' h through =
    let (e, _, _) = prevent_balance_reduction_lem w (touch now w) w' through in grind (int_laws)

-- A reversal is recorded and moves nothing.
reversal-Reconciled :
    (t : VirtualWalletTransaction) (ts : List VirtualWalletTransaction) (w : VirtualWallet)
    → t.transaction_type ≡ reversal
    → Reconciled ts w
    → Reconciled (ts ++ t ∷ []) w
unfolding contribution
reversal-Reconciled t ts w type h = grind (int_laws, balance_of-append w.id ts t)

-- Step 4 with the row of the history that steps 5 and 6 append.
mid-Reconciled :
    (now : ℕ) (t : VirtualWalletTransaction) (ts : List VirtualWalletTransaction)
    (type : VirtualWalletTransactionType) (before after : ℤ) (ws mid : List VirtualWallet)
    → t.transaction_type ≡ type
    → is_successful t.status ≡ true
    → Impact now type t.amount t.virtual_wallet_id before after ws mid
    → All (Reconciled ts) ws
    → All (Reconciled (ts ++ t ∷ [])) mid
mid-Reconciled now t ts credit before after ws mid e counts (rows, _) h =
    All-Updated (Reconciled ts) (Reconciled (ts ++ t ∷ [])) t.virtual_wallet_id
      (credit_wallet now t.amount) ws mid (λ w ne. other-Reconciled t ts w ne)
      (λ w w' same. credit-Reconciled now t ts w w' same e counts) rows h
mid-Reconciled now t ts debit before after ws mid e counts (rows, _, _) h =
    All-Updated (Reconciled ts) (Reconciled (ts ++ t ∷ [])) t.virtual_wallet_id
      (debit_wallet now t.amount) ws mid (λ w ne. other-Reconciled t ts w ne)
      (λ w w' same. debit-Reconciled now t ts w w' same e counts) rows h
mid-Reconciled now t ts reversal before after ws mid e counts (same, _) h =
    subst (All (Reconciled (ts ++ t ∷ []))) (sym same)
      (All-map (Reconciled ts) ws (λ w. reversal-Reconciled t ts w e) h)

Processed-IsReconciled :
    (now user_id : ℕ) (dto : VirtualWalletTransactionDto) (db db' : WalletDb)
    (t : VirtualWalletTransaction)
    → is_successful (or_else dto.status successful) ≡ true
    → Processed now user_id dto db db' t
    → IsReconciled db
    → IsReconciled db'
unfolding transaction_record
Processed-IsReconciled now user_id dto db db' t counts p h =
    let type = ap (λ (r : VirtualWalletTransaction). r.transaction_type) p.row in
    let amount = ap (λ (r : VirtualWalletTransaction). r.amount) p.row in
    let wallet_id = ap (λ (r : VirtualWalletTransaction). r.virtual_wallet_id) p.row in
    let status = ap (λ (r : VirtualWalletTransaction). is_successful r.status) p.row in
    let impact =
      subst₂
        (λ a k.
          Impact now dto.transaction_type a k p.wallet.current_balance p.after db.wallets p.mid)
        (sym amount) (sym wallet_id) p.impact in
    let mid =
      mid-Reconciled now t db.transactions dto.transaction_type p.wallet.current_balance p.after
        db.wallets p.mid type (status ∙ counts) impact h in
    subst (λ ts. All (Reconciled ts) db'.wallets) (sym p.appended)
      (All-Updated (Reconciled (db.transactions ++ t ∷ [])) (Reconciled (db.transactions ++ t ∷ []))
        p.wallet.id (touch now) p.mid db'.wallets (λ w ne r. r)
        (λ w w' same. touch-Reconciled now (db.transactions ++ t ∷ []) w w') p.touched mid)

-- A transaction whose status is absent or SUCCESSFUL keeps every wallet in agreement with its
-- totals and with the sum over its history, whether it succeeds or fails.
pub process_transaction-IsReconciled :
    (now user_id : ℕ) (account_number : String) (dto : VirtualWalletTransactionDto) (db : WalletDb)
    → is_successful (or_else dto.status successful) ≡ true
    → IsReconciled db
    → IsReconciled (process_transaction now user_id account_number dto db).1
unfolding process_transaction
process_transaction-IsReconciled now user_id account_number dto db counts h =
    transaction-keeps IsReconciled rethrow (process_steps now user_id account_number dto) db h
      (λ t db' e.
        Processed-IsReconciled now user_id dto db db' t counts
          (process_steps-Processed now user_id account_number dto t db db' e) h)

up_rows-Reconciled :
    (ws : List VirtualWallet)
    → All (Reconciled []) (
        map
          (λ (w : VirtualWallet). record w {
            current_balance = pos 0;
            total_credited = pos 0;
            total_debited = pos 0;
          })
          ws)
unfolding balance_of ◌-ℤ◌
up_rows-Reconciled [] = tt
up_rows-Reconciled (w ∷ ws) = ((refl, refl), up_rows-Reconciled ws)

-- The migration brings every wallet into agreement with its totals and its history, from any state
-- of the tables.
pub protect_balance_up-IsReconciled : (db : WalletDb) → IsReconciled (protect_balance_up db)
unfolding protect_balance_up
protect_balance_up-IsReconciled db = up_rows-Reconciled db.wallets
