-- ===== src/Invest/PreservedRest.antt =====
-- What transactions and changes of the other columns keep of the wallets, the creation, change and
-- rejection of requests and the redemptions keep.
use gdl_finance_v.Invest.Withdraw.{withdraw_steps, called, withdraw}
use gdl_finance_v.Base.Action.{err, ok, Result}
use gdl_finance_v.Invest.Create.{create_fund_request, create_investment_request, check_new}
use gdl_finance_v.Base.{none, ◌≡◌, ℕ, String, Option, arith}
use gdl_finance_v.Base.Int.{ℤ}
use gdl_finance_v.Wallet.Entity.{VirtualWallet, VirtualWalletTransactionDto, WalletDb}
use gdl_finance_v.Wallet.Database.{update_wallet}
use gdl_finance_v.Wallet.Service.{InvestmentPoolType, mmf, canary, income, process_transaction}
use gdl_finance_v.Invest.Entity.{
  InvestDb, InvestmentRequest, UpdateInvestmentRequestDto, FundRedemption, Env,
}
use gdl_finance_v.Invest.Store.{with_redemptions}
use gdl_finance_v.Invest.Manage.{reject_fund_request, update_fund_request, check_amount}
use gdl_finance_v.Invest.Redemption.{
  fund_redemption_steps, save_redemption, insert_redemption, approve_redemption, reject_redemption,
  fund_redemption,
}
use gdl_finance_v.Invest.Accounts.{prepare-Keeps, infoware-Keeps}
use gdl_finance_v.Invest.Keeps.{Keeps-or_throw, Keeps-bind, Keeps-catching, Keeps}
use gdl_finance_v.Invest.Preserved.{insert-Keeps, save-Keeps, validate-Keeps}
use gdl_finance_v.Wallet.Columns.{MoneyFree}

module _ (P : WalletDb → Type 0)
    (paid : (now user_id : ℕ) (account : String) (dto : VirtualWalletTransactionDto) (w : WalletDb)
      → dto.status ≡ none
      → P w
      → P (process_transaction now user_id account dto w).1)
    (changed : (id : ℕ) (f : VirtualWallet → VirtualWallet) (w : WalletDb)
      → MoneyFree f
      → P w
      → P (update_wallet id f w).1) where
  abbrev WalletsAre : InvestDb → Type 0
  WalletsAre db = P db.wallets

  pub reject-Keeps :
      (env : Env) (fund : InvestmentPoolType) (request_id admin_id : ℕ) (notes : String)
      → Keeps WalletsAre (reject_fund_request env fund request_id admin_id notes)
  unfolding reject_fund_request
  reject-Keeps env fund request_id admin_id notes = record {
    keep = λ db h. grind (arith, save-Keeps P paid changed);
  }

  check_amount-Keeps :
      (env : Env) (fund : InvestmentPoolType) (user_id : ℕ) (dto : UpdateInvestmentRequestDto)
      (r : InvestmentRequest)
      → Keeps WalletsAre (check_amount env fund user_id dto r)
  unfolding check_amount
  check_amount-Keeps env fund user_id dto r = record {
    keep = λ db h. grind (arith, validate-Keeps P paid changed);
  }

  pub update-Keeps :
      (env : Env) (fund : InvestmentPoolType) (user_id request_id : ℕ)
      (dto : UpdateInvestmentRequestDto)
      → Keeps WalletsAre (update_fund_request env fund user_id request_id dto)
  unfolding update_fund_request
  update-Keeps env fund user_id request_id dto = record {
    keep = λ db h. grind (arith, check_amount-Keeps, save-Keeps P paid changed);
  }

  columns :
      (id : ℕ) (f : VirtualWallet → VirtualWallet) (db : InvestDb)
      → MoneyFree f
      → WalletsAre db
      → WalletsAre (record db { wallets = (update_wallet id f db.wallets).1 })
  columns id f db = changed id f db.wallets

  save_redemption-Keeps :
      (fund : InvestmentPoolType) (r : FundRedemption) → Keeps WalletsAre (save_redemption fund r)
  unfolding save_redemption with_redemptions
  save_redemption-Keeps mmf r = record { keep = λ db h. h }
  save_redemption-Keeps canary r = record { keep = λ db h. h }
  save_redemption-Keeps income r = record { keep = λ db h. h }

  insert_redemption-Keeps :
      (fund : InvestmentPoolType) (r : FundRedemption) → Keeps WalletsAre (insert_redemption fund r)
  unfolding insert_redemption with_redemptions
  insert_redemption-Keeps mmf r = record { keep = λ db h. ground arith }
  insert_redemption-Keeps canary r = record { keep = λ db h. ground arith }
  insert_redemption-Keeps income r = record { keep = λ db h. ground arith }

  pub fund_redemption-Keeps :
      (env : Env) (user_id : ℕ) (amount : ℤ) → Keeps WalletsAre (fund_redemption env user_id amount)
  unfolding fund_redemption fund_redemption_steps
  fund_redemption-Keeps env user_id amount = record {
    keep = λ db h. grind (arith, insert_redemption-Keeps);
  }

  called-Keeps : {A : Type 0} (answer : Result String A) → Keeps WalletsAre (called answer)
  called-Keeps (ok a) = record { keep = λ db h. h }
  called-Keeps (err m) = record { keep = λ db h. h }

  pub withdraw-Keeps :
      (env : Env) (fund : InvestmentPoolType) (user_id : ℕ) (amount : ℤ)
      → Keeps WalletsAre (withdraw env fund user_id amount)
  unfolding withdraw withdraw_steps
  withdraw-Keeps env fund user_id amount = record {
    keep = λ db h. grind (arith, insert_redemption-Keeps, called-Keeps);
  }

  pub approve_redemption-Keeps :
      (env : Env) (fund : InvestmentPoolType) (redemption_id admin_id : ℕ)
      → Keeps WalletsAre (approve_redemption env fund redemption_id admin_id)
  unfolding approve_redemption
  approve_redemption-Keeps env fund redemption_id admin_id = record {
    keep = λ db h. grind (arith, save_redemption-Keeps);
  }

  pub reject_redemption-Keeps :
      (env : Env) (fund : InvestmentPoolType) (redemption_id admin_id : ℕ) (reason : Option String)
      → Keeps WalletsAre (reject_redemption env fund redemption_id admin_id reason)
  unfolding reject_redemption
  reject_redemption-Keeps env fund redemption_id admin_id reason = record {
    keep = λ db h. grind (arith, save_redemption-Keeps);
  }

  check_new-Keeps :
      (fund : InvestmentPoolType) (reference : String) (price : ℤ)
      → Keeps WalletsAre (check_new fund reference price)
  unfolding check_new
  check_new-Keeps fund reference price = record { keep = λ db h. ground arith }

  pub create-Keeps :
      (env : Env) (user_id : ℕ) (price : ℤ)
      → Keeps WalletsAre (create_investment_request env user_id price)
  unfolding create_investment_request
  create-Keeps env user_id price = Keeps-catching WalletsAre _ (
      Keeps-bind WalletsAre (check_new-Keeps mmf _ price) λ u0.
        Keeps-bind WalletsAre (Keeps-or_throw WalletsAre (env.users user_id) _) λ user.
          Keeps-bind WalletsAre (validate-Keeps P paid changed env mmf user_id price none) λ u1.
            Keeps-bind WalletsAre (prepare-Keeps WalletsAre columns env user_id)
              λ u2. insert-Keeps P paid changed mmf _)

  pub create_fund-Keeps :
      (env : Env) (fund : InvestmentPoolType) (user_id : ℕ) (price quantity : ℤ)
      → Keeps WalletsAre (create_fund_request env fund user_id price quantity)
  unfolding create_fund_request
  create_fund-Keeps env fund user_id price quantity = Keeps-catching WalletsAre _ (
      Keeps-bind WalletsAre (check_new-Keeps fund _ price) λ u.
        Keeps-bind WalletsAre (validate-Keeps P paid changed env fund user_id price none) λ v.
          record {
            keep = λ db h.
                grind (arith, infoware-Keeps WalletsAre columns, insert-Keeps P paid changed);
          })
