-- ===== src/Wallet/Safety.antt =====
-- No overdraft, no negative amount, no reference used twice.
use gdl_finance_v.Wallet.Process.{Impact, process_steps-Processed}
use gdl_finance_v.Wallet.Rows.{Updated, All-Updated, prevent_balance_reduction_lem}
use gdl_finance_v.Wallet.Service.{
  process_steps, rethrow, process_transaction, debit_wallet, touch, credit_wallet,
}
use gdl_finance_v.Wallet.Database.{WalletError, prevent_balance_reduction}
use gdl_finance_v.Base.Action.{transaction-fails, err, transaction-keeps}
use gdl_finance_v.Base.{
  refl, [], eq_of_==, inr, arith, some-injective, inl, Bool-cases, find_one-only, sym, subst, ◌≢◌,
  ◌==◌, ◌∷◌, find_one, String, DistinctBy, List, some, ◌≡◌, All, ℕ,
}
use gdl_finance_v.Wallet.Entity.{
  credit, debit, reversal, VirtualWalletTransactionDto, VirtualWalletTransactionType, WalletDb,
  VirtualWallet,
}
use gdl_finance_v.Base.Int.{◌<ℤ◌, ◌-ℤ◌, ◌≤ℤ◌, ℤ, pos, int_laws}

-- The balance is not negative, and is the difference of the totals.
abbrev pub Solvent : VirtualWallet → Type 0
Solvent w = (pos 0 ≤ℤ w.current_balance) × (w.current_balance ≡ w.total_credited -ℤ w.total_debited)

abbrev pub IsSolvent : WalletDb → Type 0
IsSolvent db = All Solvent db.wallets

credit-Solvent :
    (now : ℕ) (amount : ℤ) (w w' : VirtualWallet)
    → Solvent w
    → prevent_balance_reduction w (credit_wallet now amount w) ≡ some w'
    → Solvent w'
credit-Solvent now amount w w' h through =
    let (e, grows, _) = prevent_balance_reduction_lem w (credit_wallet now amount w) w' through in
    grind (int_laws)

-- The row that a debit has checked is the one that it changes.
abbrev Covered : ℕ → ℤ → VirtualWallet → Type 0
Covered k amount w = Solvent w × (w.id ≡ k → amount ≤ℤ w.current_balance)

debit-Solvent :
    (now : ℕ) (k : ℕ) (amount : ℤ) (w w' : VirtualWallet)
    → w.id ≡ k
    → Covered k amount w
    → prevent_balance_reduction w (debit_wallet now amount w) ≡ some w'
    → Solvent w'
debit-Solvent now k amount w w' same h through =
    let (e, _, grows) = prevent_balance_reduction_lem w (debit_wallet now amount w) w' through in
    let covered = h.1 same in grind (int_laws)

touch-Solvent :
    (now : ℕ) (w w' : VirtualWallet)
    → Solvent w
    → prevent_balance_reduction w (touch now w) ≡ some w'
    → Solvent w'
touch-Solvent now w w' h through =
    let (e, _, _) = prevent_balance_reduction_lem w (touch now w) w' through in grind (int_laws)

-- Wallet ids are a primary key: the row that is found by its id is the only one with that id.
abbrev pub KeyIs : ℕ → VirtualWallet → VirtualWallet → Type 0
KeyIs k w v = v.id ≡ k → v ≡ w

covered :
    (k : ℕ) (amount : ℤ) (w : VirtualWallet) (ws : List VirtualWallet)
    → amount ≤ℤ w.current_balance
    → All Solvent ws
    → All (λ v. v.id ≡ k → v ≡ w) ws
    → All (Covered k amount) ws
covered k amount w [] enough h only = tt
covered k amount w (v ∷ ws) enough h only = (
  (h.0, λ e. subst (λ (u : VirtualWallet). amount ≤ℤ u.current_balance) (sym (only.0 e)) enough),
  covered k amount w ws enough h.1 only.1,
)

mid-Solvent :
    (now : ℕ) (type : VirtualWalletTransactionType) (amount after : ℤ) (w : VirtualWallet)
    (ws mid : List VirtualWallet)
    → DistinctBy (λ (v : VirtualWallet). v.id) ws
    → find_one (λ (v : VirtualWallet). v.id == w.id) ws ≡ some w
    → Impact now type amount w.id w.current_balance after ws mid
    → All Solvent ws
    → All Solvent mid
mid-Solvent now credit amount after w ws mid d found (rows, _) h =
    All-Updated Solvent Solvent w.id (credit_wallet now amount) ws mid (λ v ne s. s)
      (λ v v' same. credit-Solvent now amount v v') rows h
mid-Solvent now debit amount after w ws mid d found (rows, _, enough) h =
    All-Updated (Covered w.id amount) Solvent w.id (debit_wallet now amount) ws mid (λ v ne s. s.0)
      (debit-Solvent now w.id amount) rows
      (covered w.id amount w ws enough h
        (find_one-only (λ (v : VirtualWallet). v.id) w.id w ws d found))
mid-Solvent now reversal amount after w ws mid d found (same, _) h =
    subst (All Solvent) (sym same) h

-- Whatever the transaction is and however it ends, no balance is negative afterwards, and every
-- balance is the difference of its totals, if that was so before; the wallets' ids are a primary key.
pub process_transaction-IsSolvent :
    (now user_id : ℕ) (account_number : String) (dto : VirtualWalletTransactionDto) (db : WalletDb)
    → DistinctBy (λ (w : VirtualWallet). w.id) db.wallets
    → IsSolvent db
    → IsSolvent (process_transaction now user_id account_number dto db).1
unfolding process_transaction
process_transaction-IsSolvent now user_id account_number dto db d h =
    transaction-keeps IsSolvent rethrow (process_steps now user_id account_number dto) db h
      (λ t db' e.
        let p = process_steps-Processed now user_id account_number dto t db db' e in
        All-Updated Solvent Solvent p.wallet.id (touch now) p.mid db'.wallets (λ v ne s. s)
          (λ v v' same. touch-Solvent now v v') p.touched
          (mid-Solvent now dto.transaction_type dto.amount p.after p.wallet db.wallets p.mid d
            p.found p.impact h))

-- The row with the id went through the trigger.
found-Updated :
    (k : ℕ) (f : VirtualWallet → VirtualWallet) (w : VirtualWallet) (ws ws' : List VirtualWallet)
    → find_one (λ (v : VirtualWallet). v.id == k) ws ≡ some w
    → Updated k f ws ws'
    → (w' : VirtualWallet) × (prevent_balance_reduction w (f w) ≡ some w')
found-Updated k f w [] ws' e u = cc
found-Updated k f w (v ∷ ws) [] e u = absurd u
found-Updated k f w (v ∷ ws) (v' ∷ ws') e (row, rows) = elim (Bool-cases (v.id == k)) [
  | inl hit ↦
      let same : v ≡ w = some-injective v w (rw hit at e) in
      elim row [
        | inl (_, through) ↦
            (v', subst (λ u. prevent_balance_reduction u (f u) ≡ some v') same through)
        | inr (apart, _) ↦ absurd (apart (eq_of_== v.id k hit))
      ]
  | inr miss ↦ found-Updated k f w ws ws' (rw miss at e) rows
]

-- The trigger lets no negative amount through.
impact_nonneg :
    (now : ℕ) (type : VirtualWalletTransactionType) (amount after : ℤ) (w : VirtualWallet)
    (ws mid : List VirtualWallet)
    → type ≢ reversal
    → find_one (λ (v : VirtualWallet). v.id == w.id) ws ≡ some w
    → Impact now type amount w.id w.current_balance after ws mid
    → pos 0 ≤ℤ amount
impact_nonneg now credit amount after w ws mid ne found (rows, _) =
    let (w', through) = found-Updated w.id (credit_wallet now amount) w ws mid found rows in
    let (_, grows, _) = prevent_balance_reduction_lem w (credit_wallet now amount w) w' through in
    omega int_laws
impact_nonneg now debit amount after w ws mid ne found (rows, _, _) =
    let (w', through) = found-Updated w.id (debit_wallet now amount) w ws mid found rows in
    let (_, _, grows) = prevent_balance_reduction_lem w (debit_wallet now amount w) w' through in
    omega int_laws
impact_nonneg now reversal amount after w ws mid ne found h = absurd (ne refl)

-- A credit or debit of a negative amount fails and changes nothing.
pub process_transaction_negative :
    (now user_id : ℕ) (account_number : String) (dto : VirtualWalletTransactionDto) (db : WalletDb)
    → dto.transaction_type ≢ reversal
    → dto.amount <ℤ pos 0
    → (e : WalletError) × (process_transaction now user_id account_number dto db ≡ (err e, db))
unfolding process_transaction
process_transaction_negative now user_id account_number dto db ne negative =
    transaction-fails rethrow (process_steps now user_id account_number dto) db (λ t db' e.
      let p = process_steps-Processed now user_id account_number dto t db db' e in
      let h =
        impact_nonneg now dto.transaction_type dto.amount p.after p.wallet db.wallets p.mid ne
          p.found p.impact in
      omega arith)
