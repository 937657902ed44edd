-- ===== src/Invest/Tests/Approvals.antt =====
-- The approval of a request and a history of calls at concrete inputs.
use gdl_finance_v.Invest.Infoware.{approve_fund_request-refused, approve_fund_request-succeeds}
use gdl_finance_v.Invest.Refused.{
  approve_investment_request-refused, approve_investment_request-not_pending,
}
use gdl_finance_v.Invest.Settlement.{Restored}
use gdl_finance_v.Invest.Outcome.{approve_investment_request-succeeds, IsApproved}
use gdl_finance_v.Invest.History.{
  perform_all-IsSound, create_mmf, approve_fund, approve_mmf, perform_all, IsSound,
}
use gdl_finance_v.Wallet.Reference.{is_used}
use gdl_finance_v.Wallet.Database.{update_rows, update_wallet, insert_transaction}
use gdl_finance_v.Invest.Ready.{IsReady}
use gdl_finance_v.Invest.Funding.{
  debit_reference, debit_data, wallet_and_account, debit_user_wallet, validate_user_balance,
  pending_liabilities,
}
use gdl_finance_v.Invest.Approve.{
  debit_text, approve_fund_request, mark_processing, approve_row, after_call, fund_mmf,
  check_approval, approve_steps, approve_investment_request,
}
use gdl_finance_v.Invest.Store.{
  internal, bad_request, with_requests, pending_sum, requests_of, find_investment, save_request,
}
use gdl_finance_v.Base.{String, none, some, false, [], ◌∷◌, ◌≡◌, refl, inr, arith}
use gdl_finance_v.Base.Int.{pos, ◌+ℤ◌, ◌-ℤ◌}
use gdl_finance_v.Wallet.Database.{
  update_rows, update_row, prevent_balance_reduction, audit_wallet_changes, update_wallet,
  insert_transaction,
}
use gdl_finance_v.Base.Action.{ok, err}
use gdl_finance_v.Wallet.Service.{
  signed_amount, contribution, transaction_record, record_transaction, apply_impact, lock_wallet,
  process_steps, process_transaction, mmf, canary, find_wallet, find_wallet_for_investment,
  balance_of,
}
use gdl_finance_v.Invest.Entity.{pending, approved, failed, InvestmentRequest, InvestDb, Env}
use gdl_finance_v.Invest.Tests.{
  ada, uba, wallet_db, wish, start, willing, unwilling, payable, willing-IsReady, unwilling-IsReady,
  settled,
}

-- `check.approved`: the whole approval runs.
approve_runs :
    (approve_investment_request willing 1 9 none start).0
    ≡ ok (approve_row (mark_processing willing 9 none wish))
unfolding approve_investment_request approve_steps check_approval fund_mmf after_call requests_of
    with_requests save_request validate_user_balance pending_liabilities pending_sum
    find_wallet_for_investment debit_user_wallet wallet_and_account debit_data process_transaction
    process_steps find_wallet lock_wallet apply_impact record_transaction transaction_record
    insert_transaction update_wallet update_rows update_row prevent_balance_reduction
    audit_wallet_changes ◌+ℤ◌ ◌-ℤ◌ mark_processing
approve_runs = refl

approve_investment_request-succeeds_example :
    (db' : InvestDb) × (approve_investment_request willing 1 9 none start
      ≡ (ok (approve_row (mark_processing willing 9 none wish)), db'))
    × IsApproved willing mmf 9 none wish.reference wish uba start db'
unfolding mark_processing
approve_investment_request-succeeds_example =
    approve_investment_request-succeeds willing 1 9 none wish ada uba "2098765432" start
      willing-IsReady refl refl

approve_investment_request-refused_example :
    (row : InvestmentRequest) × (db' : InvestDb) × (approve_investment_request unwilling 1 9 none
        start
      ≡ (err (internal "Failed to approve investment request"), db'))
    × (find_investment mmf 1 db' ≡ some row)
    × (row.status ≡ failed)
    × Restored (pos 50000) uba wallet_db db'.wallets
unfolding ◌-ℤ◌ mark_processing
approve_investment_request-refused_example =
    approve_investment_request-refused unwilling 1 9 none wish ada uba "2098765432" start
      unwilling-IsReady refl refl (inr ("closed", refl, refl))

approve_investment_request-not_pending_example :
    (row : InvestmentRequest) × (db' : InvestDb) × (approve_investment_request willing 1 9 none
        settled
      ≡ (err (bad_request "Only pending requests can be approved"), db'))
    × (find_investment mmf 1 db' ≡ some row)
    × (row.status ≡ failed)
    × (row.price ≡ pos 50000)
    × (db'.wallets ≡ wallet_db)
unfolding requests_of
approve_investment_request-not_pending_example =
    approve_investment_request-not_pending willing 1 9 none (record wish { status = approved })
      settled refl (λ e. cc)

abbrev canary_wish : InvestmentRequest
canary_wish = record wish { price = pos 30000 }

canary_wish-IsReady :
    (env : Env)
    → env.users 7 ≡ some ada
    → is_used (debit_reference env canary (debit_text env canary 1)) wallet_db ≡ false
    → IsReady env canary 1 (debit_text env canary 1) canary_wish ada uba "2098765432" start
unfolding requests_of pending_liabilities pending_sum ◌+ℤ◌
canary_wish-IsReady env known fresh = record {
  found = refl;
  waiting = refl;
  known = known;
  payable = payable canary;
  positive = omega arith;
  affordable = omega arith;
  covered = omega arith;
  fresh = fresh;
}

approve_fund_request-succeeds_example :
    (db' : InvestDb) × (approve_fund_request willing canary 1 9 none start
      ≡ (ok (approve_row (mark_processing willing 9 none canary_wish)), db'))
    × IsApproved willing canary 9 none (debit_text willing canary 1) canary_wish uba start db'
unfolding mark_processing
approve_fund_request-succeeds_example =
    approve_fund_request-succeeds willing canary 1 9 none canary_wish ada uba "2098765432" start
      (canary_wish-IsReady willing refl refl) refl refl

approve_fund_request-refused_example :
    (m : String) × (row : InvestmentRequest) × (db' : InvestDb) × (approve_fund_request unwilling
        canary 1 9 none start
      ≡ (err (internal m), db'))
    × (find_investment canary 1 db' ≡ some row)
    × (row.status ≡ pending)
    × Restored (pos 30000) uba wallet_db db'.wallets
unfolding ◌-ℤ◌ mark_processing
approve_fund_request-refused_example =
    approve_fund_request-refused unwilling canary 1 9 none canary_wish ada uba "2098765432" start
      (canary_wish-IsReady unwilling refl refl) refl refl (inr ("closed", refl, refl))

sound : IsSound wallet_db
unfolding balance_of contribution signed_amount ◌+ℤ◌ ◌-ℤ◌
sound = record {
  reconciled = ((refl, refl), tt);
  solvent = ((omega arith, refl), tt);
  keys = (tt, tt);
}

perform_all-IsSound_example :
    IsSound
      (perform_all
        ((willing, approve_mmf 1 9 none)
          ∷ (unwilling, approve_fund canary 1 9 none)
          ∷ (willing, create_mmf 7 (pos 10000))
          ∷ [])
        start).wallets
perform_all-IsSound_example =
    perform_all-IsSound
      ((willing, approve_mmf 1 9 none)
        ∷ (unwilling, approve_fund canary 1 9 none)
        ∷ (willing, create_mmf 7 (pos 10000))
        ∷ [])
      start sound
