-- ===== src/Invest/Outcome.antt =====
-- How the approval of a request ends, by the answers of Symplus and Infoware.
use gdl_finance_v.Base.{ℕ, String, Option, none, ◌≡◌, refl, sym, subst, arith}
use gdl_finance_v.Base.Action.{ok}
use gdl_finance_v.Wallet.Entity.{VirtualWallet, debit}
use gdl_finance_v.Wallet.Service.{InvestmentPoolType, mmf}
use gdl_finance_v.Invest.Entity.{InvestmentRequest, UserAccount, InvestDb, Env}
use gdl_finance_v.Invest.Store.{requests_of}
use gdl_finance_v.Invest.Funding.{debit_reference}
use gdl_finance_v.Invest.Approve.{
  mark_processing, approve_row, cash_deposit_answer, fund_subscription_answer, fund_mmf,
  approve_steps, approve_investment_request, after_call,
}
use gdl_finance_v.Invest.Payment.{Paid}
use gdl_finance_v.Invest.Ready.{IsReady, check_approval_ok}
use gdl_finance_v.Invest.Settlement.{debit_saved}
use gdl_finance_v.Invest.Tables.{
  saved, save_request_lem, rows_with, rows_saved_twice, with_requests-wallets,
}

-- How the database comes out of an approval that succeeds.
pub record IsApproved (env : Env) (fund : InvestmentPoolType) (admin_id : ℕ) (notes : Option String)
    (text : String) (request : InvestmentRequest) (wallet : VirtualWallet) (db db' : InvestDb)
    : Type 0 where
  pub rows :
      requests_of fund db'
      ≡ rows_with (approve_row (mark_processing env admin_id notes request)) (requests_of fund db)
  pub paid :
      Paid debit request.price env.now (debit_reference env fund text) wallet db.wallets db'.wallets

module _ (env : Env) (request_id admin_id : ℕ) (notes : Option String) (request : InvestmentRequest)
    (user : UserAccount) (wallet : VirtualWallet) (account : String) (db : InvestDb) where
  abbrev marked : InvestmentRequest
  marked = mark_processing env admin_id notes request

  -- An MMF request that can be approved, and that Symplus does not refuse, is approved: the request
  -- alone changes, to APPROVED, and its price is debited once.
  pub approve_investment_request-succeeds :
      IsReady env mmf request_id request.reference request user wallet account db
      → cash_deposit_answer env wallet marked ≡ none
      → fund_subscription_answer env wallet marked ≡ none
      → (db' : InvestDb) × (approve_investment_request env request_id admin_id notes db
          ≡ (ok (approve_row marked), db'))
        × IsApproved env mmf admin_id notes request.reference request wallet db db'
  unfolding approve_investment_request approve_steps fund_mmf after_call mark_processing
  approve_investment_request-succeeds r deposited subscribed =
      let checked =
        check_approval_ok env mmf request_id request.reference request user wallet account db r in
      let (w', e, paid) =
        debit_saved env mmf user.id marked request.reference wallet account db r.payable
          (omega (arith, r.positive)) r.affordable r.fresh in
      let mid : InvestDb = record (saved mmf marked db) { wallets = w' } in
      (
        saved mmf (approve_row marked) mid,
        rw checked
            (rw save_request_lem (rw e (rw deposited (rw subscribed (rw save_request_lem refl))))),
        record {
          rows = rows_saved_twice mmf marked (approve_row marked) db w' refl;
          paid =
              subst
                (Paid debit request.price env.now (debit_reference env mmf request.reference) wallet
                  db.wallets)
                (sym (with_requests-wallets mmf _ mid)) paid;
        },
      )
