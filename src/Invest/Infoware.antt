-- ===== src/Invest/Infoware.antt =====
-- How the approval of a Canary or Income request ends, by the answers of Infoware.
use gdl_finance_v.Base.{
  ℕ, String, Option, none, some, false, ◌≡◌, ◌⊎◌, inl, inr, refl, sym, subst, arith,
}
use gdl_finance_v.Base.Int.{◌-ℤ◌}
use gdl_finance_v.Base.Action.{ok, err}
use gdl_finance_v.Wallet.Entity.{VirtualWallet, debit, WalletDb}
use gdl_finance_v.Wallet.Service.{InvestmentPoolType}
use gdl_finance_v.Wallet.Reference.{is_used}
use gdl_finance_v.Invest.Entity.{pending, InvestmentRequest, UserAccount, InvestDb, Env}
use gdl_finance_v.Invest.Store.{internal, find_investment}
use gdl_finance_v.Invest.Funding.{debit_reference, credit_reference}
use gdl_finance_v.Invest.Approve.{
  mark_processing, approve_row, back_to_pending, reversed_note, sync_failure, fund_infoware,
  approve_fund_request, after_call, debit_text,
}
use gdl_finance_v.Invest.Outcome.{IsApproved}
use gdl_finance_v.Invest.Payment.{Paid}
use gdl_finance_v.Invest.Ready.{IsReady, check_approval_ok}
use gdl_finance_v.Invest.Settlement.{Restored, debit_saved, reverse_debited}
use gdl_finance_v.Invest.Tables.{
  saved-wallets, saved, save_request_lem, rows_saved_twice, find_investment-saved,
  with_requests-wallets,
}

module _ (env : Env) (fund : InvestmentPoolType) (request_id admin_id : ℕ) (notes : Option String)
    (request : InvestmentRequest) (user : UserAccount) (wallet : VirtualWallet) (account : String)
    (db : InvestDb) where
  abbrev marked : InvestmentRequest
  marked = mark_processing env admin_id notes request

  abbrev text : String
  text = debit_text env fund request.id

  -- A Canary or Income request that can be approved, and that Infoware does not refuse, is approved:
  -- the request alone changes, to APPROVED, and its price is debited once.
  pub approve_fund_request-succeeds :
      IsReady env fund request_id text request user wallet account db
      → env.fund_account marked ≡ none
      → env.subscribe_and_approve marked ≡ none
      → (db' : InvestDb) × (approve_fund_request env fund request_id admin_id notes db
          ≡ (ok (approve_row marked), db'))
        × IsApproved env fund admin_id notes text request wallet db db'
  unfolding approve_fund_request fund_infoware after_call mark_processing
  approve_fund_request-succeeds r funded subscribed =
      let checked = check_approval_ok env fund request_id text request user wallet account db r in
      let (w', e, paid) =
        debit_saved env fund user.id marked text wallet account db r.payable
          (omega (arith, r.positive)) r.affordable r.fresh in
      let mid : InvestDb = record (saved fund marked db) { wallets = w' } in
      (
        saved fund (approve_row marked) mid,
        rw checked
            (rw save_request_lem (rw e (rw funded (rw subscribed (rw save_request_lem refl))))),
        record {
          rows = rows_saved_twice fund marked (approve_row marked) db w' refl;
          paid =
              subst
                (Paid debit request.price env.now (debit_reference env fund text) wallet db.wallets)
                (sym (with_requests-wallets fund _ mid)) paid;
        },
      )

  -- Infoware refuses the account, or it takes the account and refuses the subscription.
  abbrev pub IsRefused : Type 0
  IsRefused =
      ((m : String) × (env.fund_account marked ≡ some m))
      ⊎ ((m : String) × (env.fund_account marked ≡ none)
          × (env.subscribe_and_approve marked ≡ some m))

  -- If Infoware refuses, the approval fails, the debit is reversed, the balance is what it was, and
  -- the request is pending again. The wallet's balance is the difference of its totals, and the
  -- reversal's reference new.
  pub approve_fund_request-refused :
      IsReady env fund request_id text request user wallet account db
      → wallet.current_balance ≡ wallet.total_credited -ℤ wallet.total_debited
      → is_used (credit_reference env fund request.reference) db.wallets ≡ false
      → IsRefused
      → (m : String) × (row : InvestmentRequest) × (db' : InvestDb) × (approve_fund_request env fund
            request_id admin_id notes db
          ≡ (err (internal m), db'))
        × (find_investment fund request_id db' ≡ some row)
        × (row.status ≡ pending)
        × Restored request.price wallet db.wallets db'.wallets
  unfolding approve_fund_request fund_infoware after_call mark_processing
  approve_fund_request-refused r balanced fresh refused =
      let checked = check_approval_ok env fund request_id text request user wallet account db r in
      let (w1, e, paid) =
        debit_saved env fund user.id marked text wallet account db r.payable
          (omega (arith, r.positive)) r.affordable r.fresh in
      let db1 : InvestDb = record (saved fund marked db) { wallets = w1 } in
      let undo = λ (what where_ m : String).
        reverse_debited env fund user.id marked text wallet account what where_ m db.wallets db1
          r.payable paid balanced (omega (arith, r.positive)) fresh in
      let found = λ (note : String) (w2 : WalletDb).
        find_investment-saved fund request_id request (back_to_pending note marked) db
          (saved fund (back_to_pending note marked) (record db1 { wallets = w2 })) r.found refl
          (rows_saved_twice fund marked (back_to_pending note marked) db w2 refl) in
      let end =
        λ (w2 : WalletDb) (note : String) (back : Restored request.price wallet db.wallets w2).
          subst (Restored request.price wallet db.wallets)
            (sym (saved-wallets fund (back_to_pending note marked) (record db1 { wallets = w2 })))
            back in
      elim refused [
        | inl (m, refuses) ↦
            let (w2, e2, back) = undo "Infoware fund-account" " (Fund Account)" m in
            let note = reversed_note "Infoware fund-account" m in
            (
              sync_failure " (Fund Account)" m,
              back_to_pending note marked,
              saved fund (back_to_pending note marked) (record db1 { wallets = w2 }),
              rw checked (rw save_request_lem (rw e (rw refuses (rw e2 refl)))),
              found note w2,
              refl,
              end w2 note back,
            )
        | inr (m, funded, refuses) ↦
            let (w2, e2, back) = undo "Subscribe and Approve" " (Subscribe)" m in
            let note = reversed_note "Subscribe and Approve" m in
            (
              sync_failure " (Subscribe)" m,
              back_to_pending note marked,
              saved fund (back_to_pending note marked) (record db1 { wallets = w2 }),
              rw checked (rw save_request_lem (rw e (rw funded (rw refuses (rw e2 refl))))),
              found note w2,
              refl,
              end w2 note back,
            )
      ]
