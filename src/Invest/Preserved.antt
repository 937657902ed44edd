-- ===== src/Invest/Preserved.antt =====
-- What transactions and changes of the other columns keep of the wallets, every operation on
-- investment requests keeps.
use gdl_finance_v.Invest.Approve.{
  fail_debit, approve_steps, approve_fund_request, fund_infoware, approve_investment_request,
  fail_approval, fund_mmf, check_approval, after_call, reverse,
}
use gdl_finance_v.Base.{refl, none, some, arith, ℕ, String, Option, ◌≡◌}
use gdl_finance_v.Base.Int.{ℤ}
use gdl_finance_v.Wallet.Entity.{VirtualWallet, VirtualWalletTransactionDto, WalletDb}
use gdl_finance_v.Wallet.Database.{update_wallet}
use gdl_finance_v.Wallet.Service.{InvestmentPoolType, mmf, canary, income, process_transaction}
use gdl_finance_v.Invest.Entity.{InvestDb, UserAccount, InvestmentRequest, Env}
use gdl_finance_v.Invest.Store.{RequestError, save_request, insert_investment, with_requests}
use gdl_finance_v.Invest.Funding.{
  validate_user_balance, wallet_and_account, debit_user_wallet, credit_user_wallet, debit_data,
  credit_data,
}
use gdl_finance_v.Wallet.Columns.{MoneyFree}
use gdl_finance_v.Invest.Keeps.{
  Keeps-try_catch, Keeps, Keeps-bind, Keeps-pure, Keeps-throw, Keeps-ignoring_errors,
  Keeps-on_wallets,
}

module _ (P : WalletDb → Type 0)
    (paid : (now user_id : ℕ) (account : String) (dto : VirtualWalletTransactionDto) (w : WalletDb)
      → dto.status ≡ none
      → P w
      → P (process_transaction now user_id account dto w).1)
    (changed : (id : ℕ) (f : VirtualWallet → VirtualWallet) (w : WalletDb)
      → MoneyFree f
      → P w
      → P (update_wallet id f w).1) where
  abbrev WalletsAre : InvestDb → Type 0
  WalletsAre db = P db.wallets

  pub save-Keeps :
      (fund : InvestmentPoolType) (r : InvestmentRequest) → Keeps WalletsAre (save_request fund r)
  unfolding save_request with_requests
  save-Keeps mmf r = record { keep = λ db h. h }
  save-Keeps canary r = record { keep = λ db h. h }
  save-Keeps income r = record { keep = λ db h. h }

  pub insert-Keeps :
      (fund : InvestmentPoolType) (r : InvestmentRequest)
      → Keeps WalletsAre (insert_investment fund r)
  unfolding insert_investment with_requests
  insert-Keeps mmf r = record { keep = λ db h. h }
  insert-Keeps canary r = record { keep = λ db h. h }
  insert-Keeps income r = record { keep = λ db h. h }

  pub validate-Keeps :
      (env : Env) (fund : InvestmentPoolType) (user_id : ℕ) (amount : ℤ) (exclude : Option ℕ)
      → Keeps WalletsAre (validate_user_balance env fund user_id amount exclude)
  unfolding validate_user_balance
  validate-Keeps env fund user_id amount exclude = record { keep = λ db h. ground arith }

  wallet-Keeps :
      (user_id : ℕ) (fund : InvestmentPoolType) (missing : String)
      → Keeps WalletsAre (wallet_and_account user_id fund missing)
  unfolding wallet_and_account
  wallet-Keeps user_id fund missing = record { keep = λ db h. ground arith }

  debit-Keeps :
      (env : Env) (fund : InvestmentPoolType) (user_id : ℕ) (amount : ℤ) (ref : String)
      → Keeps WalletsAre (debit_user_wallet env fund user_id amount ref)
  unfolding debit_user_wallet debit_data
  debit-Keeps env fund user_id amount ref = Keeps-bind WalletsAre (wallet-Keeps user_id fund _) λ w.
      Keeps-bind WalletsAre
        (Keeps-on_wallets WalletsAre _
          (λ d. paid env.now user_id w.1 (debit_data env fund amount ref w.0) d.wallets refl))
        λ t. Keeps-pure WalletsAre _

  credit-Keeps :
      (env : Env) (fund : InvestmentPoolType) (user_id : ℕ) (amount : ℤ) (ref : String)
      → Keeps WalletsAre (credit_user_wallet env fund user_id amount ref)
  unfolding credit_user_wallet credit_data
  credit-Keeps env fund user_id amount ref = Keeps-ignoring_errors WalletsAre (
      Keeps-bind WalletsAre (wallet-Keeps user_id fund _) λ w.
        Keeps-on_wallets WalletsAre _
          (λ d. paid env.now user_id w.1 (credit_data env fund amount ref w.0) d.wallets refl))

  reverse-Keeps :
      (env : Env) (fund : InvestmentPoolType) (user_id : ℕ) (r : InvestmentRequest)
      (what where_ error : String)
      → Keeps WalletsAre (reverse env fund user_id r what where_ error)
  unfolding reverse
  reverse-Keeps env fund user_id r what where_ error =
      Keeps-bind WalletsAre (credit-Keeps env fund user_id r.price r.reference)
        λ u. Keeps-bind WalletsAre (save-Keeps fund _) λ v. Keeps-throw WalletsAre _

  after_call-Keeps :
      (env : Env) (fund : InvestmentPoolType) (user_id : ℕ) (r : InvestmentRequest)
      (what where_ : String) (answer : Option String)
      → Keeps WalletsAre (after_call env fund user_id r what where_ answer)
  unfolding after_call
  after_call-Keeps env fund user_id r what where_ none = Keeps-pure WalletsAre tt
  after_call-Keeps env fund user_id r what where_ (some error) =
      reverse-Keeps env fund user_id r what where_ error

  check-Keeps :
      (env : Env) (fund : InvestmentPoolType) (request_id : ℕ)
      → Keeps WalletsAre (check_approval env fund request_id)
  unfolding check_approval
  check-Keeps env fund request_id = record { keep = λ db h. grind (arith, validate-Keeps) }

  fund_mmf-Keeps :
      (env : Env) (r : InvestmentRequest) (user : UserAccount) (w : VirtualWallet)
      → Keeps WalletsAre (fund_mmf env r user w)
  unfolding fund_mmf
  fund_mmf-Keeps env r user w = Keeps-bind WalletsAre (save-Keeps mmf r) λ u0.
      Keeps-bind WalletsAre (debit-Keeps env mmf user.id r.price r.reference) λ u1.
        Keeps-bind WalletsAre (after_call-Keeps env mmf user.id r _ _ _) λ u2.
          Keeps-bind WalletsAre (after_call-Keeps env mmf user.id r _ _ _)
            λ u3. Keeps-bind WalletsAre (save-Keeps mmf _) λ u4. Keeps-pure WalletsAre _

  fail_approval-Keeps :
      (request_id : ℕ) (e : RequestError) → Keeps WalletsAre (fail_approval request_id e)
  unfolding fail_approval save_request with_requests
  fail_approval-Keeps request_id e = record { keep = λ db h. ground arith }

  pub approve-Keeps :
      (env : Env) (request_id admin_id : ℕ) (notes : Option String)
      → Keeps WalletsAre (approve_investment_request env request_id admin_id notes)
  unfolding approve_investment_request approve_steps
  approve-Keeps env request_id admin_id notes =
      Keeps-try_catch WalletsAre
        (Keeps-bind WalletsAre (check-Keeps env mmf request_id) λ c. fund_mmf-Keeps env _ c.1 c.2)
        (fail_approval-Keeps request_id)

  fund_infoware-Keeps :
      (env : Env) (fund : InvestmentPoolType) (r : InvestmentRequest) (user : UserAccount)
      → Keeps WalletsAre (fund_infoware env fund r user)
  unfolding fund_infoware fail_debit
  fund_infoware-Keeps env fund r user = Keeps-bind WalletsAre (save-Keeps fund r) λ u0.
      Keeps-bind WalletsAre
        (Keeps-try_catch WalletsAre (debit-Keeps env fund user.id r.price _)
          λ e. Keeps-bind WalletsAre (save-Keeps fund _) λ u. Keeps-throw WalletsAre e)
        λ u1. Keeps-bind WalletsAre (after_call-Keeps env fund user.id r _ _ _) λ u2.
          Keeps-bind WalletsAre (after_call-Keeps env fund user.id r _ _ _)
            λ u3. Keeps-bind WalletsAre (save-Keeps fund _) λ u4. Keeps-pure WalletsAre _

  pub approve_fund-Keeps :
      (env : Env) (fund : InvestmentPoolType) (request_id admin_id : ℕ) (notes : Option String)
      → Keeps WalletsAre (approve_fund_request env fund request_id admin_id notes)
  unfolding approve_fund_request
  approve_fund-Keeps env fund request_id admin_id notes =
      Keeps-bind WalletsAre (check-Keeps env fund request_id)
        λ c. fund_infoware-Keeps env fund _ c.1
