-- ===== src/Invest/Ready.antt =====
-- A request that can be approved: what the guards of the approval find, and that they let it pass.
use gdl_finance_v.Base.{ℕ, String, Option, some, false, ◌≡◌, arith}
use gdl_finance_v.Base.Int.{ℤ, pos, ◌≤ℤ◌, ◌<ℤ◌, ◌+ℤ◌}
use gdl_finance_v.Base.Action.{ok}
use gdl_finance_v.Wallet.Entity.{VirtualWallet}
use gdl_finance_v.Wallet.Service.{InvestmentPoolType, find_wallet_for_investment}
use gdl_finance_v.Wallet.Reference.{is_used}
use gdl_finance_v.Invest.Entity.{pending, InvestmentRequest, UserAccount, InvestDb, Env}
use gdl_finance_v.Invest.Store.{find_investment}
use gdl_finance_v.Invest.Funding.{validate_user_balance, pending_liabilities, debit_reference}
use gdl_finance_v.Invest.Approve.{check_approval}
use gdl_finance_v.Invest.Payment.{Payable}

pub record IsReady (env : Env) (fund : InvestmentPoolType) (request_id : ℕ) (text : String)
    (request : InvestmentRequest) (user : UserAccount) (wallet : VirtualWallet) (account : String)
    (db : InvestDb) : Type 0 where
  pub found : find_investment fund request_id db ≡ some request
  pub waiting : request.status ≡ pending
  pub known : env.users request.user_id ≡ some user
  pub payable : Payable fund user.id wallet account db.wallets
  pub positive : pos 0 <ℤ request.price
  pub affordable : request.price ≤ℤ wallet.current_balance
  pub covered :
      pending_liabilities fund user.id (some request_id) db +ℤ request.price
      ≤ℤ wallet.current_balance
  pub fresh : is_used (debit_reference env fund text) db.wallets ≡ false

validate_ok :
    (env : Env) (fund : InvestmentPoolType) (user_id : ℕ) (amount : ℤ) (exclude : Option ℕ)
    (wallet : VirtualWallet) (db : InvestDb)
    → find_wallet_for_investment user_id fund db.wallets ≡ some wallet
    → pending_liabilities fund user_id exclude db +ℤ amount ≤ℤ wallet.current_balance
    → validate_user_balance env fund user_id amount exclude db ≡ (ok tt, db)
unfolding validate_user_balance
validate_ok env fund user_id amount exclude wallet db found enough = ground arith

pub check_approval_ok :
    (env : Env) (fund : InvestmentPoolType) (request_id : ℕ) (text : String)
    (request : InvestmentRequest) (user : UserAccount) (wallet : VirtualWallet) (account : String)
    (db : InvestDb)
    → IsReady env fund request_id text request user wallet account db
    → check_approval env fund request_id db ≡ (ok (request, user, wallet), db)
unfolding check_approval
check_approval_ok env fund request_id text request user wallet account db r =
    let found = r.found in
    let waiting = r.waiting in
    let known = r.known in
    let found_wallet = r.payable.for_fund in
    let positive = r.positive in
    let valid =
      validate_ok env fund user.id request.price (some request_id) wallet db r.payable.for_fund
        r.covered in
    ground arith
