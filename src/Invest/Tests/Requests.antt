-- ===== src/Invest/Tests/Requests.antt =====
-- The creation, the closing and the redemption at concrete inputs.
use gdl_finance_v.Invest.Closed.{closed_request-unchanged}
use gdl_finance_v.Invest.Manage.{update_fund_request, reject_fund_request}
use gdl_finance_v.Invest.Redeemed.{
  accept, decide_redemption-once, decline, fund_redemption-within, decide_redemption,
}
use gdl_finance_v.Invest.Covered.{create_investment_request-covered}
use gdl_finance_v.Invest.Create.{
  ensure_fund_accounts_exist, ensure_symplus_customer_exists, prepare_accounts, check_new,
  create_investment_request,
}
use gdl_finance_v.Invest.Redemption.{
  complete_row, save_redemption, new_redemption, insert_redemption, approve_redemption,
  fund_redemption_steps, find_redemption, processing_sum, fund_redemption,
}
use gdl_finance_v.Invest.Funding.{validate_user_balance, pending_liabilities}
use gdl_finance_v.Invest.Approve.{approve_fund_request}
use gdl_finance_v.Invest.Store.{
  with_redemptions, redemptions_of, RequestError, bad_request, with_requests, pending_sum,
  requests_of, insert_investment,
}
use gdl_finance_v.Base.{some-injective, sym, ap, String, none, some, [], ◌∷◌, ◌++◌, ◌≡◌, refl}
use gdl_finance_v.Base.Int.{pos, ◌+ℤ◌, ◌≤ℤ◌, ◌<ℤ◌}
use gdl_finance_v.Base.Action.{ok, err}
use gdl_finance_v.Wallet.Entity.{VirtualWallet}
use gdl_finance_v.Wallet.Service.{mmf, find_wallet_for_investment}
use gdl_finance_v.Invest.Entity.{
  RedemptionStatus, UpdateInvestmentRequestDto, FundRedemption, pending, approved,
  InvestmentRequest, UserAccount, InvestDb,
}
use gdl_finance_v.Invest.Tests.{start, willing, unwilling, ada, find_ada, wish, settled, wallet_db}

abbrev redemption : FundRedemption
redemption = record {
  id = 1;
  user_identity = 7;
  first_name = "Ada";
  last_name = "Obi";
  account = "TEST-ACCOUNT";
  redemption_date = 1000;
  amount = pos 15000;
  quantity = pos 0;
  reference = "RDM-1000";
  status = RedemptionStatus.processing;
  approved_by = none;
  approved_at = none;
  completed_at = none;
  rejected_by = none;
  rejected_at = none;
  failed_at = none;
  admin_notes = none;
  fund_account_no = "Manual";
  cash_account_no = "Manual";
}

abbrev redeeming : InvestDb
redeeming = record start { mmf_redemptions = redemption ∷ []; next_redemption_id = 2 }

find_ada-id : (user : UserAccount) → find_ada 7 ≡ some user → user.id ≡ 7
find_ada-id user h = ap (λ (u : UserAccount). u.id) (sym (some-injective ada user h))

redeem_runs : fund_redemption willing 7 (pos 15000) start ≡ (ok redemption, redeeming)
unfolding fund_redemption fund_redemption_steps insert_redemption new_redemption redemptions_of
    with_redemptions processing_sum ◌+ℤ◌
redeem_runs = refl

fund_redemption-within_example :
    (redemption.amount ≡ pos 15000)
    × (pos 0 <ℤ pos 15000)
    × (redeeming.mmf_redemptions ≡ start.mmf_redemptions ++ redemption ∷ [])
    × (processing_sum 7 redeeming.mmf_redemptions ≤ℤ pos 20000)
    × (redeeming.wallets ≡ start.wallets)
fund_redemption-within_example =
    fund_redemption-within willing 7 (pos 15000) redemption start redeeming find_ada-id redeem_runs

abbrev completed_redemption : FundRedemption
completed_redemption = record redemption {
  status = RedemptionStatus.completed;
  approved_by = some 9;
  approved_at = some 1000;
  completed_at = some 1000;
}

abbrev redeemed : InvestDb
redeemed = record redeeming { mmf_redemptions = completed_redemption ∷ [] }

decide_redemption_runs :
    decide_redemption accept willing mmf 1 9 redeeming ≡ (ok completed_redemption, redeemed)
unfolding decide_redemption approve_redemption redemptions_of with_redemptions save_redemption
    complete_row
decide_redemption_runs = refl

decide_redemption-once_example :
    (find_redemption mmf 1 redeemed ≡ some completed_redemption)
    × (m : String) × (decide_redemption (decline none) unwilling mmf 1 8 redeemed
        ≡ (err (bad_request m), redeemed))
decide_redemption-once_example =
    decide_redemption-once accept (decline none) willing unwilling mmf 1 9 8 completed_redemption
      redeeming redeemed decide_redemption_runs

abbrev change : UpdateInvestmentRequestDto
change = record {
  first_name = none;
  last_name = none;
  account = none;
  date = none;
  price = some (pos 100);
  quantity = none;
  reference = none;
}

closed_request-unchanged_example :
    ((e : RequestError) × (reject_fund_request willing mmf 1 9 "late" settled ≡ (err e, settled)))
    × ((e : RequestError) × (update_fund_request willing mmf 7 1 change settled ≡ (err e, settled)))
    × (approve_fund_request willing mmf 1 9 none settled
        ≡ (err (bad_request "Only pending requests can be approved"), settled))
unfolding requests_of
closed_request-unchanged_example =
    closed_request-unchanged willing mmf 1 9 7 "late" none change
      (record wish { status = approved }) settled (tt, tt) refl (refl, refl)

abbrev wished : InvestmentRequest
wished = record {
  id = 2;
  user_id = 7;
  first_name = "Ada";
  last_name = "Obi";
  account = "Test Account";
  date = 1000;
  price = pos 10000;
  quantity = pos 1000;
  reference = "GDL - 10001000 ";
  status = pending;
  admin_notes = none;
  approved_by = none;
  approved_at = none;
  rejected_by = none;
  rejected_at = none;
}

abbrev wishing : InvestDb
wishing = record start { mmf_requests = wish ∷ wished ∷ []; next_request_id = 3 }

create_runs : create_investment_request willing 7 (pos 10000) start ≡ (ok wished, wishing)
unfolding create_investment_request check_new validate_user_balance pending_liabilities pending_sum
    find_wallet_for_investment prepare_accounts ensure_symplus_customer_exists
    ensure_fund_accounts_exist insert_investment with_requests requests_of ◌+ℤ◌
create_runs = refl

create_investment_request-covered_example :
    (wished.user_id ≡ 7)
    × (wished.price ≡ pos 10000)
    × (wished.status ≡ pending)
    × (pos 0 <ℤ pos 10000)
    × (wishing.mmf_requests ≡ start.mmf_requests ++ wished ∷ [])
    × (wallet : VirtualWallet) × (find_wallet_for_investment 7 mmf wallet_db ≡ some wallet)
    × (pending_liabilities mmf 7 none wishing ≤ℤ wallet.current_balance)
create_investment_request-covered_example =
    create_investment_request-covered willing 7 (pos 10000) wished start wishing create_runs
