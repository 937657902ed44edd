-- ===== src/Invest/Tests.antt =====
-- The users, wallets and environments the tests of the investment services stand on.
use gdl_finance_v.Pool.Portfolio.{PortfolioRow, PortfolioPositionResponse}
mod Approvals
mod Requests
mod Withdrawals
use gdl_finance_v.Invest.Closed.{closed_request-unchanged}
use gdl_finance_v.Invest.Infoware.{approve_fund_request-refused, approve_fund_request-succeeds}
use gdl_finance_v.Invest.Refused.{
  approve_investment_request-refused, approve_investment_request-not_pending,
}
use gdl_finance_v.Invest.Settlement.{Restored}
use gdl_finance_v.Invest.Manage.{update_fund_request, reject_fund_request}
use gdl_finance_v.Invest.Redeemed.{
  accept, decide_redemption-once, decline, fund_redemption-within, decide_redemption,
}
use gdl_finance_v.Invest.Outcome.{approve_investment_request-succeeds, IsApproved}
use gdl_finance_v.Invest.Covered.{create_investment_request-covered}
use gdl_finance_v.Invest.Create.{
  ensure_fund_accounts_exist, ensure_symplus_customer_exists, prepare_accounts, check_new,
  create_investment_request,
}
use gdl_finance_v.Invest.Redemption.{
  complete_row, save_redemption, new_redemption, insert_redemption, approve_redemption,
  fund_redemption_steps, find_redemption, processing_sum, fund_redemption,
}
use gdl_finance_v.Invest.History.{
  perform_all-IsSound, create_mmf, approve_fund, approve_mmf, perform_all, IsSound,
}
use gdl_finance_v.Wallet.Reference.{is_used}
use gdl_finance_v.Wallet.Database.{update_rows, update_wallet, insert_transaction}
use gdl_finance_v.Invest.Ready.{IsReady}
use gdl_finance_v.Invest.Funding.{
  debit_reference, debit_data, wallet_and_account, debit_user_wallet, validate_user_balance,
  pending_liabilities,
}
use gdl_finance_v.Invest.Approve.{
  debit_text, approve_fund_request, mark_processing, approve_row, after_call, fund_mmf,
  check_approval, approve_steps, approve_investment_request,
}
use gdl_finance_v.Invest.Store.{
  with_redemptions, redemptions_of, internal, RequestError, bad_request, with_requests, pending_sum,
  requests_of, find_investment, save_request, insert_investment,
}
use gdl_finance_v.Invest.Payment.{Payable}
use gdl_finance_v.Base.{
  some-injective, sym, ap, if◌then◌else◌, ℕ, String, Option, none, some, true, false, [], ◌∷◌, ◌++◌,
  ◌≡◌, refl, inr, arith, ◌==◌,
}
use gdl_finance_v.Base.Int.{ℤ, pos, ◌+ℤ◌, ◌-ℤ◌, ◌≤ℤ◌, ◌<ℤ◌}
use gdl_finance_v.Wallet.Database.{
  update_rows, update_row, prevent_balance_reduction, audit_wallet_changes, update_wallet,
  insert_transaction,
}
use gdl_finance_v.Base.Action.{ok, err}
use gdl_finance_v.Wallet.Entity.{
  VirtualWallet, active, VirtualWalletTransaction, credit, successful, before_update, before_delete,
  WalletDb,
}
use gdl_finance_v.Wallet.Service.{
  signed_amount, contribution, transaction_record, record_transaction, apply_impact, lock_wallet,
  process_steps, process_transaction, InvestmentPoolType, mmf, canary, income, find_wallet,
  find_wallet_for_investment, balance_of,
}
use gdl_finance_v.Invest.Entity.{
  RedemptionStatus, UpdateInvestmentRequestDto, FundRedemption, pending, approved, failed,
  InvestmentRequest, UserAccount, InvestDb, Env,
}

abbrev ada : UserAccount
ada = record { id = 7; first_name = "Ada"; last_name = "Obi" }

abbrev uba : VirtualWallet
uba = record {
  id = 2;
  user_id = 7;
  virtual_account_number = some "2098765432";
  virtual_account_name = "Ada Obi";
  bank_code = "033";
  amount_control = "VARIABLEAMOUNT";
  current_balance = pos 90000;
  total_credited = pos 90000;
  total_debited = pos 0;
  status = active;
  response_code = "00";
  response_message = none;
  last_transaction_date = none;
  is_primary = true;
  encrypted_symplus_customer_id = some "C-1";
  encrypted_infoware_customer_id = some "I-1";
  fund_account_no = some "F-1";
  cash_account_no = some "D-1";
  updated_at = 0;
}

abbrev deposit : VirtualWalletTransaction
deposit = record {
  id = 1;
  virtual_wallet_id = 2;
  user_id = 7;
  transaction_reference = "DEP-1";
  external_reference = none;
  transaction_type = credit;
  amount = pos 90000;
  balance_before = pos 0;
  balance_after = pos 90000;
  description = none;
  sender_name = none;
  sender_account = none;
  sender_bank_code = none;
  receiver_name = none;
  receiver_account = none;
  receiver_bank_code = none;
  status = successful;
  response_code = "00";
  response_message = none;
  metadata = none;
  processed_at = 0;
}

abbrev wallet_db : WalletDb
wallet_db = record {
  wallets = uba ∷ [];
  transactions = deposit ∷ [];
  audits = [];
  triggers = record {
    protect_transaction_history_update = some before_update;
    protect_transaction_history_delete = some before_delete;
  };
  next_wallet_id = 3;
  next_transaction_id = 2;
}

abbrev wish : InvestmentRequest
wish = record {
  id = 1;
  user_id = 7;
  first_name = "Ada";
  last_name = "Obi";
  account = "2098765432";
  date = 0;
  price = pos 50000;
  quantity = pos 5000;
  reference = "GDL - 1007 ";
  status = pending;
  admin_notes = none;
  approved_by = none;
  approved_at = none;
  rejected_by = none;
  rejected_at = none;
}

abbrev start : InvestDb
start = record {
  wallets = wallet_db;
  mmf_requests = wish ∷ [];
  canary_requests = record wish { price = pos 30000 } ∷ [];
  income_requests = [];
  mmf_redemptions = [];
  canary_redemptions = [];
  income_redemptions = [];
  next_request_id = 2;
  next_redemption_id = 1;
}

abbrev find_ada : ℕ → Option UserAccount
find_ada id = if id == 7 then some ada else none

abbrev fund_row : String → ℤ → PortfolioRow
fund_row code value = record {
  date = "2025-01-01";
  fund_code = code;
  fund_name = code;
  customer_id = "I-1";
  units = none;
  principal = none;
  market_price = none;
  market_value = some value;
  accrued_interest = none;
  accrued_interest_percent = none;
}

abbrev positions : PortfolioPositionResponse
positions = record {
  status_id = 0;
  rows = fund_row "AIF" (pos 9000) ∷ fund_row "CGF" (pos 80000) ∷ fund_row "AIF" (pos 20000) ∷ [];
}

-- Symplus and Infoware take everything.
abbrev willing : Env
willing = record {
  now = 1000;
  show = λ n. "1000";
  show_amount = λ z. "0";
  trim = λ s. s;
  users = find_ada;
  nubans = λ id. none;
  symplus_customer = λ id. none;
  existing_fund_account = λ id. none;
  new_fund_accounts = λ id. none;
  infoware_customer = λ id. none;
  cash_deposit = λ r. none;
  fund_subscription = λ r. none;
  fund_account = λ r. none;
  subscribe_and_approve = λ r. none;
  market_value = λ id. pos 20000;
  secure_digits = "77";
  portfolio = λ id. some positions;
  redeem = λ id code amount. ok (record { fund_account_no = some "F-1"; cash_account_no = none });
}

-- Symplus and Infoware refuse the last call.
abbrev unwilling : Env
unwilling = record willing {
  fund_subscription = λ r. some "closed";
  subscribe_and_approve = λ r. some "closed";
}

payable : (fund : InvestmentPoolType) → Payable fund 7 uba "2098765432" wallet_db
unfolding find_wallet_for_investment find_wallet
payable mmf = record {
  for_fund = refl;
  has_account = refl;
  by_account = refl;
  by_id = refl;
  is_open = refl;
}
payable canary = record {
  for_fund = refl;
  has_account = refl;
  by_account = refl;
  by_id = refl;
  is_open = refl;
}
payable income = record {
  for_fund = refl;
  has_account = refl;
  by_account = refl;
  by_id = refl;
  is_open = refl;
}

willing-IsReady : IsReady willing mmf 1 wish.reference wish ada uba "2098765432" start
unfolding requests_of pending_liabilities pending_sum ◌+ℤ◌
willing-IsReady = record {
  found = refl;
  waiting = refl;
  known = refl;
  payable = payable mmf;
  positive = omega arith;
  affordable = omega arith;
  covered = omega arith;
  fresh = refl;
}

unwilling-IsReady : IsReady unwilling mmf 1 wish.reference wish ada uba "2098765432" start
unfolding requests_of pending_liabilities pending_sum ◌+ℤ◌
unwilling-IsReady = record {
  found = refl;
  waiting = refl;
  known = refl;
  payable = payable mmf;
  positive = omega arith;
  affordable = omega arith;
  covered = omega arith;
  fresh = refl;
}

abbrev settled : InvestDb
settled = record start { mmf_requests = record wish { status = approved } ∷ [] }
