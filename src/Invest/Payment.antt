-- ===== src/Invest/Payment.antt =====
-- What the debit and the reversal of a request do to the wallet.
use gdl_finance_v.Base.{
  ℕ, String, some, false, [], ◌∷◌, ◌++◌, ◌≡◌, refl, ap, ◌∙◌, arith, ◌==◌, find_one, update_where,
  find_one-update, ◌&&◌, str_eq, holds_text,
}
use gdl_finance_v.Base.Int.{ℤ, pos, ◌≤ℤ◌}
use gdl_finance_v.Base.Action.{ok, transaction-eq-ok}
use gdl_finance_v.Wallet.Entity.{
  VirtualWallet, VirtualWalletTransaction, VirtualWalletTransactionDto,
  VirtualWalletTransactionType, credit, debit, active, WalletDb,
}
use gdl_finance_v.Wallet.Service.{
  InvestmentPoolType, mmf, canary, income, find_wallet, find_wallet_for_investment,
  process_transaction, process_steps, rethrow, transaction_record,
}
use gdl_finance_v.Wallet.Process.{process_steps-Processed}
use gdl_finance_v.Wallet.Reference.{is_used}
use gdl_finance_v.Wallet.Outcome.{settle, Admissible, process_transaction-succeeds}
use gdl_finance_v.Invest.Entity.{InvestDb, Env}
use gdl_finance_v.Invest.Funding.{
  wallet_and_account, debit_user_wallet, credit_user_wallet, debit_data, credit_data,
  debit_reference, credit_reference,
}

-- The wallet of the user for the fund is active, and its account number and its id lead to it.
pub record Payable (fund : InvestmentPoolType) (user_id : ℕ) (wallet : VirtualWallet)
    (account : String) (w : WalletDb) : Type 0 where
  pub for_fund : find_wallet_for_investment user_id fund w ≡ some wallet
  pub has_account : wallet.virtual_account_number ≡ some account
  pub by_account : find_wallet user_id account w ≡ some wallet
  pub by_id : find_one (λ v. v.id == wallet.id) w.wallets ≡ some wallet
  pub is_open : wallet.status ≡ active

fund-settled :
    (fund : InvestmentPoolType) (user_id : ℕ) (type : VirtualWalletTransactionType) (amount : ℤ)
    (now : ℕ) (wallet : VirtualWallet) (w w' : WalletDb)
    → find_wallet_for_investment user_id fund w ≡ some wallet
    → w'.wallets ≡ update_where (λ v. v.id == wallet.id) (settle type amount now) w.wallets
    → find_wallet_for_investment user_id fund w' ≡ some (settle type amount now wallet)
unfolding find_wallet_for_investment
fund-settled mmf user_id type amount now wallet w w' found rows =
    ap (find_one (λ v. v.user_id == user_id && str_eq v.bank_code "033")) rows
    ∙ find_one-update _ (λ v. v.id == wallet.id) (settle type amount now) wallet w.wallets
        (λ v. refl) found (ground arith)
fund-settled canary user_id type amount now wallet w w' found rows =
    ap (find_one (λ v. v.user_id == user_id && v.is_primary)) rows
    ∙ find_one-update _ (λ v. v.id == wallet.id) (settle type amount now) wallet w.wallets
        (λ v. refl) found (ground arith)
fund-settled income user_id type amount now wallet w w' found rows =
    ap (find_one (λ v. v.user_id == user_id && v.is_primary)) rows
    ∙ find_one-update _ (λ v. v.id == wallet.id) (settle type amount now) wallet w.wallets
        (λ v. refl) found (ground arith)

-- A wallet that was settled can be used as before.
pub Payable-settled :
    (fund : InvestmentPoolType) (user_id : ℕ) (type : VirtualWalletTransactionType) (amount : ℤ)
    (now : ℕ) (wallet : VirtualWallet) (account : String) (w w' : WalletDb)
    → Payable fund user_id wallet account w
    → w'.wallets ≡ update_where (λ v. v.id == wallet.id) (settle type amount now) w.wallets
    → Payable fund user_id (settle type amount now wallet) account w'
unfolding find_wallet
Payable-settled fund user_id type amount now wallet account w w' p rows = record {
  for_fund = fund-settled fund user_id type amount now wallet w w' p.for_fund rows;
  has_account = p.has_account;
  by_account =
      ap (find_one (λ v. v.user_id == user_id && holds_text v.virtual_account_number account)) rows
      ∙ find_one-update _ (λ v. v.id == wallet.id) (settle type amount now) wallet w.wallets
          (λ v. refl) p.by_account (ground arith);
  by_id =
      ap (find_one (λ v. v.id == wallet.id)) rows
      ∙ find_one-update _ (λ v. v.id == wallet.id) (settle type amount now) wallet w.wallets
          (λ v. refl) p.by_id (ground arith);
  is_open = p.is_open;
}

-- How the wallets come out of a payment: the row is settled, and a row with the reference is
-- appended to the history.
pub record Paid (type : VirtualWalletTransactionType) (amount : ℤ) (now : ℕ) (reference : String)
    (wallet : VirtualWallet) (w w' : WalletDb) : Type 0 where
  pub row : VirtualWalletTransaction
  pub settled :
      w'.wallets ≡ update_where (λ v. v.id == wallet.id) (settle type amount now) w.wallets
  pub appended : w'.transactions ≡ w.transactions ++ row ∷ []
  pub known_by : row.transaction_reference ≡ reference
  pub of_amount : row.amount ≡ amount

pub process_transaction-Paid :
    (now : ℕ) (fund : InvestmentPoolType) (user_id : ℕ) (account : String)
    (dto : VirtualWalletTransactionDto) (wallet : VirtualWallet) (w : WalletDb)
    → Payable fund user_id wallet account w
    → Admissible dto.transaction_type dto.amount wallet.current_balance
    → is_used dto.transaction_reference w ≡ false
    → (t : VirtualWalletTransaction) × (w' : WalletDb) × (process_transaction now user_id account
          dto w
        ≡ (ok t, w'))
      × Paid dto.transaction_type dto.amount now dto.transaction_reference wallet w w'
unfolding process_transaction transaction_record
process_transaction-Paid now fund user_id account dto wallet w p admissible fresh =
    let (t, w', e, rows, history, amount, _, _) =
      process_transaction-succeeds now user_id account dto wallet w p.by_account p.by_id p.is_open
        admissible fresh in
    let q =
      process_steps-Processed now user_id account dto t w w'
        (transaction-eq-ok rethrow (process_steps now user_id account dto) t w w' e) in
    (
      t,
      w',
      e,
      record {
        row = t;
        settled = rows;
        appended = history;
        known_by = ap (λ (r : VirtualWalletTransaction). r.transaction_reference) q.row;
        of_amount = amount;
      },
    )

wallet_and_account_ok :
    (fund : InvestmentPoolType) (user_id : ℕ) (wallet : VirtualWallet) (account missing : String)
    (db : InvestDb)
    → Payable fund user_id wallet account db.wallets
    → wallet_and_account user_id fund missing db ≡ (ok (wallet, account), db)
unfolding wallet_and_account
wallet_and_account_ok fund user_id wallet account missing db p =
    let found = p.for_fund in let number = p.has_account in ground arith

module _ (env : Env) (fund : InvestmentPoolType) (user_id : ℕ) (amount : ℤ) (ref : String)
    (wallet : VirtualWallet) (account : String) (db : InvestDb)
    (p : Payable fund user_id wallet account db.wallets) where
  -- A debit of an amount that the wallet holds, under a new reference, succeeds.
  pub debit_user_wallet-Paid :
      pos 0 ≤ℤ amount
      → amount ≤ℤ wallet.current_balance
      → is_used (debit_reference env fund ref) db.wallets ≡ false
      → (w' : WalletDb) × (debit_user_wallet env fund user_id amount ref db
          ≡ (ok tt, record db { wallets = w' }))
        × Paid debit amount env.now (debit_reference env fund ref) wallet db.wallets w'
  unfolding debit_user_wallet debit_data
  debit_user_wallet-Paid positive enough fresh =
      let dto = debit_data env fund amount ref wallet in
      let (t, w', e, paid) =
        process_transaction-Paid env.now fund user_id account dto wallet db.wallets p
          (positive, enough) fresh in
      let start =
        wallet_and_account_ok fund user_id wallet account "User wallet not found for debit" db p in
      (w', rw start (rw e refl), paid)

  -- So does a reversal.
  pub credit_user_wallet-Paid :
      pos 0 ≤ℤ amount
      → is_used (credit_reference env fund ref) db.wallets ≡ false
      → (w' : WalletDb) × (credit_user_wallet env fund user_id amount ref db
          ≡ (ok tt, record db { wallets = w' }))
        × Paid credit amount env.now (credit_reference env fund ref) wallet db.wallets w'
  unfolding credit_user_wallet credit_data
  credit_user_wallet-Paid positive fresh =
      let dto = credit_data env fund amount ref wallet in
      let (t, w', e, paid) =
        process_transaction-Paid env.now fund user_id account dto wallet db.wallets p positive
          fresh in
      let start =
        wallet_and_account_ok fund user_id wallet account
          "User wallet not found for reversal credit" db p in
      (w', rw start (rw e refl), paid)
