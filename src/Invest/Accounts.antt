-- ===== src/Invest/Accounts.antt =====
-- What a change of the other columns of a wallet keeps, the creation of customers and accounts keeps.
use gdl_finance_v.Base.{ℕ, Option, none, some, arith}
use gdl_finance_v.Wallet.Entity.{VirtualWallet}
use gdl_finance_v.Wallet.Database.{update_wallet}
use gdl_finance_v.Wallet.Columns.{MoneyFree}
use gdl_finance_v.Wallet.Service.{mmf, find_wallet_for_investment}
use gdl_finance_v.Invest.Entity.{InvestDb, Env}
use gdl_finance_v.Invest.Store.{on_wallets}
use gdl_finance_v.Invest.Create.{
  ensure_symplus_customer_exists, ensure_fund_accounts_exist, ensure_infoware_customer_exists,
  create_accounts, prepare_accounts,
}
use gdl_finance_v.Invest.Keeps.{
  Keeps, Keeps-bind, Keeps-pure, Keeps-ignoring_errors, Keeps-on_wallets,
}

module _ (P : InvestDb → Type 0)
    (changed : (id : ℕ) (f : VirtualWallet → VirtualWallet) (db : InvestDb)
      → MoneyFree f
      → P db
      → P (record db { wallets = (update_wallet id f db.wallets).1 })) where
  columns-Keeps :
      (id : ℕ) (f : VirtualWallet → VirtualWallet)
      → MoneyFree f
      → Keeps P (λ db. on_wallets (update_wallet id f) db)
  columns-Keeps id f free = Keeps-on_wallets P _ (λ db. changed id f db free)

  symplus-Keeps :
      (env : Env) (user_id : ℕ) (w : VirtualWallet)
      → Keeps P (ensure_symplus_customer_exists env user_id w)
  unfolding ensure_symplus_customer_exists
  symplus-Keeps env user_id w = record { keep = λ db h. grind (arith, columns-Keeps) }

  accounts-Keeps :
      (env : Env) (user_id : ℕ) (w : VirtualWallet)
      → Keeps P (ensure_fund_accounts_exist env user_id w)
  unfolding ensure_fund_accounts_exist
  accounts-Keeps env user_id w = record { keep = λ db h. grind (arith, columns-Keeps) }

  pub infoware-Keeps :
      (env : Env) (user_id : ℕ) (w : VirtualWallet)
      → Keeps P (ensure_infoware_customer_exists env user_id w)
  unfolding ensure_infoware_customer_exists
  infoware-Keeps env user_id w = record { keep = λ db h. grind (arith, columns-Keeps) }

  create_accounts-Keeps :
      (env : Env) (user_id : ℕ) (w : Option VirtualWallet) → Keeps P (create_accounts env user_id w)
  create_accounts-Keeps env user_id none = Keeps-pure P tt
  create_accounts-Keeps env user_id (some w) =
      Keeps-bind P (symplus-Keeps env user_id w) λ customer. accounts-Keeps env user_id customer

  pub prepare-Keeps : (env : Env) (user_id : ℕ) → Keeps P (prepare_accounts env user_id)
  unfolding prepare_accounts
  prepare-Keeps env user_id = record {
    keep = λ db h.
        (Keeps-ignoring_errors P (
            create_accounts-Keeps env user_id
              (find_wallet_for_investment user_id mmf db.wallets))).keep
          db h;
  }
