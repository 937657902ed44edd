-- ===== src/Invest/Entity.antt =====
-- services/typescript/user-service/src/user/investment-request, investment-request-canary and
-- investment-request-income, entities and dto: the rows of the request and redemption tables, which
-- have the same columns for the three funds. Amounts are hundredths, a time is a number of
-- milliseconds. The columns that no modelled operation reads or writes are left out.
use gdl_finance_v.Base.{ℕ, String, Option, List}
use gdl_finance_v.Base.Int.{ℤ}
use gdl_finance_v.Base.Action.{Result}
use gdl_finance_v.Pool.Portfolio.{PortfolioPositionResponse}
use gdl_finance_v.Wallet.Entity.{WalletDb}

-- The status of a request: the three funds have the same enum.
pub data RequestStatus : Type 0 where
  pending approved rejected processing completed failed : RequestStatus

pub record InvestmentRequest : Type 0 where
  pub id : ℕ
  pub user_id : ℕ
  pub first_name : String
  pub last_name : String
  pub account : String
  pub date : ℕ
  pub price : ℤ
  pub quantity : ℤ
  pub reference : String
  pub status : RequestStatus
  pub admin_notes : Option String
  pub approved_by : Option ℕ
  pub approved_at : Option ℕ
  pub rejected_by : Option ℕ
  pub rejected_at : Option ℕ

pub data RedemptionStatus : Type 0 where
  processing completed failed : RedemptionStatus

pub record FundRedemption : Type 0 where
  pub id : ℕ
  pub user_identity : ℕ
  pub first_name : String
  pub last_name : String
  pub account : String
  pub redemption_date : ℕ
  pub amount : ℤ
  pub quantity : ℤ
  pub reference : String
  pub status : RedemptionStatus
  pub approved_by : Option ℕ
  pub approved_at : Option ℕ
  pub completed_at : Option ℕ
  pub rejected_by : Option ℕ
  pub rejected_at : Option ℕ
  pub failed_at : Option ℕ
  pub admin_notes : Option String
  pub fund_account_no : String
  pub cash_account_no : String

-- What `updateInvestmentRequest` may assign; a date as its time.
pub record UpdateInvestmentRequestDto : Type 0 where
  pub first_name : Option String
  pub last_name : Option String
  pub account : Option String
  pub date : Option ℕ
  pub price : Option ℤ
  pub quantity : Option ℤ
  pub reference : Option String

-- The columns of a user that the services read.
pub record UserAccount : Type 0 where
  pub id : ℕ
  pub first_name : String
  pub last_name : String

-- What `fetchUserNubanWitheDetails` answers.
pub record NubanDetails : Type 0 where
  pub nuban_account : Option String
  pub fund_account_no : Option String
  pub cash_account_no : Option String

pub record InvestDb : Type 0 where
  pub wallets : WalletDb
  pub mmf_requests : List InvestmentRequest
  pub canary_requests : List InvestmentRequest
  pub income_requests : List InvestmentRequest
  pub mmf_redemptions : List FundRedemption
  pub canary_redemptions : List FundRedemption
  pub income_redemptions : List FundRedemption
  pub next_request_id : ℕ
  pub next_redemption_id : ℕ

-- What `redeemInvestment` answers, which hands on the answer of Infoware.
pub record RedemptionAnswer : Type 0 where
  pub fund_account_no : Option String
  pub cash_account_no : Option String

-- What the services take from outside: the clock, JavaScript's text functions, the tables of users
-- and of their bank accounts, and the answers of Symplus and Infoware. A call that fails answers the
-- message of its error, except that `portfolio` answers `none`.
pub record Env : Type 0 where
  pub now : ℕ
  pub show : ℕ → String
  pub show_amount : ℤ → String
  pub trim : String → String
  pub users : ℕ → Option UserAccount
  pub nubans : ℕ → Option NubanDetails
  pub symplus_customer : ℕ → Option String
  pub existing_fund_account : String → Option String
  pub new_fund_accounts : ℕ → Option (String × String)
  pub infoware_customer : ℕ → Option String
  pub cash_deposit : InvestmentRequest → Option String
  pub fund_subscription : InvestmentRequest → Option String
  pub fund_account : InvestmentRequest → Option String
  pub subscribe_and_approve : InvestmentRequest → Option String
  pub market_value : ℕ → ℤ
  pub secure_digits : String
  pub portfolio : String → Option PortfolioPositionResponse
  pub redeem : Option String → String → ℤ → Result String RedemptionAnswer
