-- ===== src/Invest/Refused.antt =====
-- How the approval of an MMF request ends that does not succeed.
use gdl_finance_v.Base.{
  ◌∙◌, sym, subst, ℕ, String, Option, none, some, false, ◌≡◌, ◌≢◌, ◌⊎◌, inl, inr, refl, arith,
}
use gdl_finance_v.Base.Int.{◌-ℤ◌}
use gdl_finance_v.Base.Action.{err}
use gdl_finance_v.Wallet.Entity.{VirtualWallet, WalletDb}
use gdl_finance_v.Wallet.Service.{mmf}
use gdl_finance_v.Wallet.Reference.{is_used}
use gdl_finance_v.Invest.Entity.{
  RequestStatus, pending, approved, rejected, processing, completed, failed, InvestmentRequest,
  UserAccount, InvestDb, Env,
}
use gdl_finance_v.Invest.Store.{RequestError, bad_request, internal, is_awaiting, find_investment}
use gdl_finance_v.Invest.Funding.{credit_reference}
use gdl_finance_v.Invest.Approve.{
  reversed_note, sync_failure, mark_processing, back_to_pending, cash_deposit_answer,
  fund_subscription_answer, fund_mmf, check_approval, approve_steps, approve_investment_request,
  after_call, fail_approval, fail_row, pass_on,
}
use gdl_finance_v.Invest.Ready.{check_approval_ok, IsReady}
use gdl_finance_v.Invest.Settlement.{Restored, debit_saved, reverse_debited}
use gdl_finance_v.Invest.Tables.{
  saved, save_request_lem, rows_saved_twice, find_investment-saved, requests_of-with_requests,
  with_requests-wallets,
}

-- The `catch` of the approval, for a request that is there.
fail_approval_lem :
    (request_id : ℕ) (e : RequestError) (request : InvestmentRequest) (db : InvestDb)
    → find_investment mmf request_id db ≡ some request
    → fail_approval request_id e db
      ≡ (err (pass_on "Failed to approve investment request" e), saved mmf (fail_row e request) db)
unfolding fail_approval
fail_approval_lem request_id e request db found = rw found (rw save_request_lem refl)

failed_row :
    (request_id : ℕ) (e : RequestError) (request : InvestmentRequest) (db : InvestDb)
    → find_investment mmf request_id db ≡ some request
    → find_investment mmf request_id (saved mmf (fail_row e request) db) ≡ some (fail_row e request)
failed_row request_id e request db found =
    find_investment-saved mmf request_id request (fail_row e request) db
      (saved mmf (fail_row e request) db) found refl (requests_of-with_requests mmf _ db)

not_pending : (s : RequestStatus) → s ≢ pending → is_awaiting s ≡ false
not_pending pending h = absurd (h refl)
not_pending approved h = refl
not_pending rejected h = refl
not_pending processing h = refl
not_pending completed h = refl
not_pending failed h = refl

-- An MMF request that is not pending is not approved, and the attempt makes it FAILED, whatever it
-- was: APPROVED, REJECTED or COMPLETED as well. The wallets are as before.
pub approve_investment_request-not_pending :
    (env : Env) (request_id admin_id : ℕ) (notes : Option String) (request : InvestmentRequest)
    (db : InvestDb)
    → find_investment mmf request_id db ≡ some request
    → request.status ≢ pending
    → (row : InvestmentRequest) × (db' : InvestDb) × (approve_investment_request env request_id
          admin_id notes db
        ≡ (err (bad_request "Only pending requests can be approved"), db'))
      × (find_investment mmf request_id db' ≡ some row)
      × (row.status ≡ failed)
      × (row.price ≡ request.price)
      × (db'.wallets ≡ db.wallets)
unfolding approve_investment_request approve_steps check_approval
approve_investment_request-not_pending env request_id admin_id notes request db found closed =
    let e : RequestError = bad_request "Only pending requests can be approved" in
    let shut = not_pending request.status closed in
    (
      fail_row e request,
      saved mmf (fail_row e request) db,
      rw found (rw shut (fail_approval_lem request_id e request db found)),
      failed_row request_id e request db found,
      refl,
      refl,
      with_requests-wallets mmf _ db,
    )

module _ (env : Env) (request_id admin_id : ℕ) (notes : Option String) (request : InvestmentRequest)
    (user : UserAccount) (wallet : VirtualWallet) (account : String) (db : InvestDb) where
  abbrev marked : InvestmentRequest
  marked = mark_processing env admin_id notes request

  -- Symplus refuses the deposit, or it takes the deposit and refuses the subscription.
  abbrev pub IsRefused : Type 0
  IsRefused =
      ((m : String) × (cash_deposit_answer env wallet marked ≡ some m))
      ⊎ ((m : String) × (cash_deposit_answer env wallet marked ≡ none)
          × (fund_subscription_answer env wallet marked ≡ some m))

  reversed :
      IsReady env mmf request_id request.reference request user wallet account db
      → wallet.current_balance ≡ wallet.total_credited -ℤ wallet.total_debited
      → is_used (credit_reference env mmf request.reference) db.wallets ≡ false
      → IsRefused
      → (m note : String) × (w' : WalletDb) × (mid : InvestDb) × (fund_mmf env marked user wallet db
          ≡ (err (internal m), mid))
        × (find_investment mmf request_id mid ≡ some (back_to_pending note marked))
        × (mid.wallets ≡ w')
        × Restored request.price wallet db.wallets w'
  unfolding fund_mmf after_call mark_processing
  reversed r balanced fresh refused =
      let (w1, e, paid) =
        debit_saved env mmf user.id marked request.reference wallet account db r.payable
          (omega (arith, r.positive)) r.affordable r.fresh in
      let db1 : InvestDb = record (saved mmf marked db) { wallets = w1 } in
      let undo = λ (what where_ m : String).
        reverse_debited env mmf user.id marked request.reference wallet account what where_ m
          db.wallets db1 r.payable paid balanced (omega (arith, r.positive)) fresh in
      let found = λ (note : String) (w2 : WalletDb).
        find_investment-saved mmf request_id request (back_to_pending note marked) db
          (saved mmf (back_to_pending note marked) (record db1 { wallets = w2 })) r.found refl
          (rows_saved_twice mmf marked (back_to_pending note marked) db w2 refl) in
      elim refused [
        | inl (m, no_deposit) ↦
            let (w2, e2, back) = undo "Cash deposit" "" m in
            (
              sync_failure "" m,
              reversed_note "Cash deposit" m,
              w2,
              saved mmf (back_to_pending (reversed_note "Cash deposit" m) marked)
                  (record db1 { wallets = w2 }),
              rw save_request_lem (rw e (rw no_deposit (rw e2 refl))),
              found _ w2,
              with_requests-wallets mmf _ (record db1 { wallets = w2 }),
              back,
            )
        | inr (m, deposit, no_subscription) ↦
            let (w2, e2, back) = undo "Fund subscription" "" m in
            (
              sync_failure "" m,
              reversed_note "Fund subscription" m,
              w2,
              saved mmf (back_to_pending (reversed_note "Fund subscription" m) marked)
                  (record db1 { wallets = w2 }),
              rw save_request_lem (rw e (rw deposit (rw no_subscription (rw e2 refl)))),
              found _ w2,
              with_requests-wallets mmf _ (record db1 { wallets = w2 }),
              back,
            )
      ]

  -- If Symplus refuses an MMF request that could be approved, the approval fails, the debit is
  -- reversed and the balance is what it was; but the request ends as FAILED, and not as pending
  -- again. The wallet's balance is the difference of its totals, and the reversal's reference new.
  pub approve_investment_request-refused :
      IsReady env mmf request_id request.reference request user wallet account db
      → wallet.current_balance ≡ wallet.total_credited -ℤ wallet.total_debited
      → is_used (credit_reference env mmf request.reference) db.wallets ≡ false
      → IsRefused
      → (row : InvestmentRequest) × (db' : InvestDb) × (approve_investment_request env request_id
            admin_id notes db
          ≡ (err (internal "Failed to approve investment request"), db'))
        × (find_investment mmf request_id db' ≡ some row)
        × (row.status ≡ failed)
        × Restored request.price wallet db.wallets db'.wallets
  unfolding approve_investment_request approve_steps
  approve_investment_request-refused r balanced fresh refused =
      let (m, note, w', mid, e, found, same, back) = reversed r balanced fresh refused in
      let checked =
        check_approval_ok env mmf request_id request.reference request user wallet account db r in
      let row = back_to_pending note marked in
      (
        fail_row (internal m) row,
        saved mmf (fail_row (internal m) row) mid,
        rw checked (rw e (fail_approval_lem request_id (internal m) row mid found)),
        failed_row request_id (internal m) row mid found,
        refl,
        subst (Restored request.price wallet db.wallets)
            (sym (with_requests-wallets mmf _ mid ∙ same)) back,
      )
