-- ===== src/Invest/Withdraw.antt =====
-- `fundRedemption` of the Canary and Income services, where Infoware carries the redemption out
-- before it is saved, and `getUserTotalActiveInvestmentAmount`. The e-mails are left out.
use gdl_finance_v.Invest.Redemption.{insert_redemption, exceeds_message, processing_sum}
use gdl_finance_v.Invest.Approve.{is_present}
use gdl_finance_v.Base.Int.{◌+ℤ◌, ltb_ℤ, pos, ℤ}
use gdl_finance_v.Invest.Funding.{template}
use gdl_finance_v.Invest.Store.{
  redemptions_of, plain_error, message, internal, bad_request, not_found, InvestAction,
  RequestError,
}
use gdl_finance_v.Invest.Entity.{
  processing, FundRedemption, RedemptionAnswer, InvestDb, NubanDetails, Env, UserAccount,
}
use gdl_finance_v.Wallet.Entity.{VirtualWallet}
use gdl_finance_v.Base.Action.{
  ◌>>=◌, ◌>>◌, gets, or_throw, throw_if, throw, err, pure, ok, catching, Result,
}
use gdl_finance_v.Wallet.Service.{find_wallet_for_investment, canary, income, InvestmentPoolType}
use gdl_finance_v.Base.{
  str_eq, if◌then◌else◌, false, [], ◌==◌, ◌∷◌, not, find_one, or_text, Bool, none, some, ℕ, String,
  Option, List,
}
use gdl_finance_v.Pool.Portfolio.{Position, PoolsByType, PortfolioPositionResponse, pool_by_type}

-- What `getUserTotalActiveInvestmentAmount` answers: its `status`, with the investment.
pub data ActiveInvestment : Type 0 where
  no_customer_id no_active_investment fetch_error : ActiveInvestment
  active : (investment : Position) → ActiveInvestment

-- The `reduce`: a later position replaces an earlier one if its market value is higher.
unfoldable pub best_of : Position → List Position → Position
best_of a [] = a
best_of a (b ∷ rest) = best_of (if ltb_ℤ a.market_value b.market_value then b else a) rest

abbrev pub active_among : List Position → ActiveInvestment
active_among [] = no_active_investment
active_among (p ∷ rest) = active (best_of p rest)

abbrev pub active_in : Option PoolsByType → ActiveInvestment
active_in none = fetch_error
active_in (some pools) = active_among pools.investments

abbrev pub active_for : InvestmentPoolType → Option PortfolioPositionResponse → ActiveInvestment
active_for fund none = fetch_error
active_for fund (some response) = active_in (pool_by_type fund response)

-- `wallet?.encrypted_infoware_customer_id`, of the first wallet of the user.
abbrev pub customer_of : Option VirtualWallet → Option String
customer_of none = none
customer_of (some w) = w.encrypted_infoware_customer_id

abbrev pub active_of_customer : Env → InvestmentPoolType → Option String → ActiveInvestment
active_of_customer env fund none = no_customer_id
active_of_customer env fund (some id) =
    if str_eq id "" then no_customer_id else active_for fund (env.portfolio id)

abbrev pub first_customer : ℕ → InvestDb → Option String
first_customer user_id db = customer_of (find_one (λ w. w.user_id == user_id) db.wallets.wallets)

unfoldable pub get_user_total_active_investment_amount :
    Env → InvestmentPoolType → ℕ → InvestDb → ActiveInvestment
get_user_total_active_investment_amount env fund user_id db =
    active_of_customer env fund (first_customer user_id db)

-- `activeInvestment.status !== 'ACTIVE' || !activeInvestment.investment`
abbrev pub investment_of : ActiveInvestment → Option Position
investment_of (active p) = some p
investment_of _ = none

-- The Income service does not ask for a customer id.
abbrev pub not_profiled : InvestmentPoolType → Option String → Bool
not_profiled canary id = not (is_present id)
not_profiled _ id = false

abbrev no_wallet : InvestmentPoolType → String
no_wallet income = "User virtual wallet not found"
no_wallet _ = "User virtual wallet not found."

abbrev pub fund_code_of : InvestmentPoolType → String
fund_code_of income = "AIF"
fund_code_of _ = "CGF"

abbrev reference_of : Env → InvestmentPoolType → String
reference_of env income = template ("RDM-" ∷ env.show env.now ∷ "-" ∷ env.secure_digits ∷ [])
reference_of env _ = template ("RDM-" ∷ env.show env.now ∷ [])

abbrev account_for : InvestmentPoolType → Option NubanDetails → String
account_for income none = "N/A"
account_for income (some n) = or_text n.nuban_account "N/A"
account_for _ none = "TEST-ACCOUNT"
account_for _ (some n) = or_text n.nuban_account "TEST-ACCOUNT"

-- The Canary service does not look at the answer of Infoware.
abbrev answered : InvestmentPoolType → Option String → String
answered income account = or_text account "Manual"
answered _ account = "Manual"

unfoldable pub new_withdrawal :
    Env → InvestmentPoolType → UserAccount → RedemptionAnswer → ℤ → FundRedemption
new_withdrawal env fund user answer amount = record {
  id = 0;
  user_identity = user.id;
  first_name = user.first_name;
  last_name = user.last_name;
  account = account_for fund (env.nubans user.id);
  redemption_date = env.now;
  amount = amount;
  quantity = pos 0;
  reference = reference_of env fund;
  status = processing;
  approved_by = none;
  approved_at = none;
  completed_at = none;
  rejected_by = none;
  rejected_at = none;
  failed_at = none;
  admin_notes = none;
  fund_account_no = answered fund answer.fund_account_no;
  cash_account_no = answered fund answer.cash_account_no;
}

abbrev initiate_message : InvestmentPoolType → String → String
initiate_message income m = "Failed to initiate fund redemption"
initiate_message _ m = template ("Failed to initiate fund redemption: " ∷ m ∷ [])

abbrev pub withdrawal_failure : InvestmentPoolType → RequestError → RequestError
withdrawal_failure fund (not_found m) = not_found m
withdrawal_failure fund (bad_request m) = bad_request m
withdrawal_failure fund e = internal (initiate_message fund (message e))

-- A call of Infoware, whose error is thrown.
abbrev pub called : {A : Type 0} → Result String A → InvestAction A
called (ok a) = pure a
called (err m) = throw (plain_error m)

unfoldable pub withdraw_steps : Env → InvestmentPoolType → ℕ → ℤ → InvestAction FundRedemption
withdraw_steps env fund user_id amount = do
  user ← or_throw (env.users user_id) (not_found "User not found")
  found ← gets (λ (db : InvestDb). find_wallet_for_investment user_id fund db.wallets)
  wallet ← or_throw found (not_found (no_wallet fund))
  throw_if (not_profiled fund wallet.encrypted_infoware_customer_id)
      (bad_request "Customer has not been profiled for investment.")
  standing ← gets (get_user_total_active_investment_amount env fund user_id)
  investment ← or_throw (investment_of standing) (
      bad_request
        "You do not have any active investments available for redemption. Please ensure you have an active investment before requesting a redemption.")
  pending ← gets (λ (db : InvestDb). processing_sum user_id (redemptions_of fund db))
  throw_if (ltb_ℤ investment.market_value (pending +ℤ amount))
      (bad_request (exceeds_message env pending investment.market_value))
  answer ← called (env.redeem wallet.encrypted_infoware_customer_id (fund_code_of fund) amount)
  insert_redemption fund (new_withdrawal env fund user answer amount)

-- The fund is Canary or Income.
unfoldable pub withdraw : Env → InvestmentPoolType → ℕ → ℤ → InvestAction FundRedemption
withdraw env fund user_id amount =
    catching (withdrawal_failure fund) (withdraw_steps env fund user_id amount)

unfoldable pub withdraw_canary : Env → ℕ → ℤ → InvestAction FundRedemption
withdraw_canary env = withdraw env canary

unfoldable pub withdraw_income : Env → ℕ → ℤ → InvestAction FundRedemption
withdraw_income env = withdraw env income
