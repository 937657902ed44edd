-- ===== src/Invest/History.antt =====
-- The calls of the three services one after another, in any order and of any user or admin. Each
-- call is one step: the requests are not interleaved.
use gdl_finance_v.Invest.Withdraw.{withdraw}
use gdl_finance_v.Wallet.Database.{update_wallet}
use gdl_finance_v.Base.{none, ℕ, String, Option, List, [], ◌∷◌, ◌≡◌, refl}
use gdl_finance_v.Base.Int.{ℤ}
use gdl_finance_v.Wallet.Entity.{WalletDb, VirtualWallet, VirtualWalletTransactionDto}
use gdl_finance_v.Wallet.Service.{process_transaction, InvestmentPoolType}
use gdl_finance_v.Wallet.Balance.{IsReconciled, process_transaction-IsReconciled}
use gdl_finance_v.Wallet.Safety.{IsSolvent, process_transaction-IsSolvent}
use gdl_finance_v.Wallet.Columns.{
  MoneyFree, HasKeys, process_transaction-HasKeys, update_wallet-IsReconciled,
  update_wallet-IsSolvent, update_wallet-HasKeys,
}
use gdl_finance_v.Invest.Entity.{UpdateInvestmentRequestDto, InvestDb, Env}
use gdl_finance_v.Invest.Approve.{approve_investment_request, approve_fund_request}
use gdl_finance_v.Invest.Manage.{reject_fund_request, update_fund_request}
use gdl_finance_v.Invest.Create.{create_investment_request, create_fund_request}
use gdl_finance_v.Invest.Redemption.{fund_redemption, approve_redemption, reject_redemption}
use gdl_finance_v.Invest.Preserved.{approve-Keeps, approve_fund-Keeps}
use gdl_finance_v.Invest.PreservedRest.{
  withdraw-Keeps, reject-Keeps, update-Keeps, create-Keeps, create_fund-Keeps,
  fund_redemption-Keeps, approve_redemption-Keeps, reject_redemption-Keeps,
}

-- A call. The MMF service has its own creation and approval; the fund of `create_fund`,
-- `approve_fund` and `redeem_fund` is Canary or Income.
pub data Call : Type 0 where
  create_mmf : (user_id : ℕ) (price : ℤ) → Call
  create_fund : (fund : InvestmentPoolType) (user_id : ℕ) (price quantity : ℤ) → Call
  update :
      (fund : InvestmentPoolType) (user_id request_id : ℕ) (dto : UpdateInvestmentRequestDto) → Call
  approve_mmf : (request_id admin_id : ℕ) (notes : Option String) → Call
  approve_fund :
      (fund : InvestmentPoolType) (request_id admin_id : ℕ) (notes : Option String) → Call
  reject : (fund : InvestmentPoolType) (request_id admin_id : ℕ) (notes : String) → Call
  redeem : (user_id : ℕ) (amount : ℤ) → Call
  redeem_fund : (fund : InvestmentPoolType) (user_id : ℕ) (amount : ℤ) → Call
  approve_redeem : (fund : InvestmentPoolType) (redemption_id admin_id : ℕ) → Call
  reject_redeem :
      (fund : InvestmentPoolType) (redemption_id admin_id : ℕ) (reason : Option String) → Call

-- The database after a call.
unfoldable pub perform : Env → Call → InvestDb → InvestDb
perform env (create_mmf user_id price) db = (create_investment_request env user_id price db).1
perform env (create_fund fund user_id price quantity) db =
    (create_fund_request env fund user_id price quantity db).1
perform env (update fund user_id request_id dto) db =
    (update_fund_request env fund user_id request_id dto db).1
perform env (approve_mmf request_id admin_id notes) db =
    (approve_investment_request env request_id admin_id notes db).1
perform env (approve_fund fund request_id admin_id notes) db =
    (approve_fund_request env fund request_id admin_id notes db).1
perform env (reject fund request_id admin_id notes) db =
    (reject_fund_request env fund request_id admin_id notes db).1
perform env (redeem user_id amount) db = (fund_redemption env user_id amount db).1
perform env (redeem_fund fund user_id amount) db = (withdraw env fund user_id amount db).1
perform env (approve_redeem fund redemption_id admin_id) db =
    (approve_redemption env fund redemption_id admin_id db).1
perform env (reject_redeem fund redemption_id admin_id reason) db =
    (reject_redemption env fund redemption_id admin_id reason db).1

-- Each call has its own clock, and its own answers from outside.
unfoldable pub perform_all : List (Env × Call) → InvestDb → InvestDb
perform_all [] db = db
perform_all ((env, c) ∷ calls) db = perform_all calls (perform env c db)

-- The money of the wallets: they agree with their history, none is overdrawn, and the ids are keys.
pub record IsSound (w : WalletDb) : Type 0 where
  pub reconciled : IsReconciled w
  pub solvent : IsSolvent w
  pub keys : HasKeys w.wallets

paid :
    (now user_id : ℕ) (account : String) (dto : VirtualWalletTransactionDto) (w : WalletDb)
    → dto.status ≡ none
    → IsSound w
    → IsSound (process_transaction now user_id account dto w).1
paid now user_id account dto w default s = record {
  reconciled =
      process_transaction-IsReconciled now user_id account dto w (rw default refl) s.reconciled;
  solvent = process_transaction-IsSolvent now user_id account dto w s.keys s.solvent;
  keys = process_transaction-HasKeys now user_id account dto w s.keys;
}

changed :
    (id : ℕ) (f : VirtualWallet → VirtualWallet) (w : WalletDb)
    → MoneyFree f
    → IsSound w
    → IsSound (update_wallet id f w).1
changed id f w free s = record {
  reconciled = update_wallet-IsReconciled id f w free s.reconciled;
  solvent = update_wallet-IsSolvent id f w free s.solvent;
  keys = update_wallet-HasKeys id f w free s.keys;
}

perform-Keeps :
    (env : Env) (c : Call) (db : InvestDb) → IsSound db.wallets → IsSound (perform env c db).wallets
unfolding perform
perform-Keeps env (create_mmf user_id price) db =
    (create-Keeps IsSound paid changed env user_id price).keep db
perform-Keeps env (create_fund fund user_id price quantity) db =
    (create_fund-Keeps IsSound paid changed env fund user_id price quantity).keep db
perform-Keeps env (update fund user_id request_id dto) db =
    (update-Keeps IsSound paid changed env fund user_id request_id dto).keep db
perform-Keeps env (approve_mmf request_id admin_id notes) db =
    (approve-Keeps IsSound paid changed env request_id admin_id notes).keep db
perform-Keeps env (approve_fund fund request_id admin_id notes) db =
    (approve_fund-Keeps IsSound paid changed env fund request_id admin_id notes).keep db
perform-Keeps env (reject fund request_id admin_id notes) db =
    (reject-Keeps IsSound paid changed env fund request_id admin_id notes).keep db
perform-Keeps env (redeem user_id amount) db =
    (fund_redemption-Keeps IsSound paid changed env user_id amount).keep db
perform-Keeps env (redeem_fund fund user_id amount) db =
    (withdraw-Keeps IsSound paid changed env fund user_id amount).keep db
perform-Keeps env (approve_redeem fund redemption_id admin_id) db =
    (approve_redemption-Keeps IsSound paid changed env fund redemption_id admin_id).keep db
perform-Keeps env (reject_redeem fund redemption_id admin_id reason) db =
    (reject_redemption-Keeps IsSound paid changed env fund redemption_id admin_id reason).keep db

-- After any sequence of calls, whatever Symplus and Infoware answer and however each call ends, every
-- wallet's balance is the difference of its totals and the sum over its history, no balance is
-- negative, and the ids are keys, if that was so before.
pub perform_all-IsSound :
    (calls : List (Env × Call)) (db : InvestDb)
    → IsSound db.wallets
    → IsSound (perform_all calls db).wallets
unfolding perform_all
perform_all-IsSound [] db s = s
perform_all-IsSound ((env, c) ∷ calls) db s =
    perform_all-IsSound calls (perform env c db) (perform-Keeps env c db s)
