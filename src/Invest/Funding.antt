-- ===== src/Invest/Funding.antt =====
-- How the three investment services use the wallet: `validateUserBalance`, `debitUserWallet` and
-- `creditUserWallet` of services/typescript/user-service/src/user/investment-request,
-- investment-request-canary and investment-request-income, investment-request.service.ts. A wallet
-- without an account number is treated as one that the look-up does not find.
use gdl_finance_v.Base.{ℕ, String, Option, none, some, List, [], ◌∷◌, str_append}
use gdl_finance_v.Base.Action.{◌>>=◌, ◌>>◌, pure, throw_if, gets, or_throw}
use gdl_finance_v.Base.Int.{ℤ, ltb_ℤ, ◌+ℤ◌, ◌-ℤ◌}
use gdl_finance_v.Wallet.Entity.{
  VirtualWallet, VirtualWalletTransactionType, credit, debit, VirtualWalletTransactionDto,
}
use gdl_finance_v.Wallet.Service.{
  InvestmentPoolType, mmf, canary, income, find_wallet_for_investment, process_transaction,
}
use gdl_finance_v.Invest.Entity.{InvestDb, Env}
use gdl_finance_v.Invest.Store.{
  RequestError, bad_request, not_acceptable, internal, plain_error, InvestAction, on_wallets,
  ignoring_errors, pending_sum,
}

-- A template literal, from its parts.
abbrev pub template : List String → String
template [] = ""
template (s ∷ ss) = str_append s (template ss)

-- Only the service's own table is searched without the request that is being changed.
abbrev pub exclude_in : InvestmentPoolType → InvestmentPoolType → Option ℕ → Option ℕ
exclude_in mmf mmf exclude = exclude
exclude_in canary canary exclude = exclude
exclude_in income income exclude = exclude
exclude_in _ _ exclude = none

-- `totalPendingLiabilities`: the pending requests of the user in all three funds.
unfoldable pub pending_liabilities : InvestmentPoolType → ℕ → Option ℕ → InvestDb → ℤ
pending_liabilities fund user_id exclude db =
    pending_sum user_id (exclude_in fund mmf exclude) db.mmf_requests
    +ℤ pending_sum user_id (exclude_in fund canary exclude) db.canary_requests
    +ℤ pending_sum user_id (exclude_in fund income exclude) db.income_requests

abbrev wallet_missing : InvestmentPoolType → String
wallet_missing mmf =
    "No specific virtual wallet found for this investment type. Please ensure your UBA virtual account is created."
wallet_missing _ = "No virtual wallet found. Please create a virtual wallet first."

abbrev insufficient_message : Env → ℤ → ℤ → String
insufficient_message env required balance = template (
    "Insufficient Wallet Balance. Total pending investments across all funds plus new request is ₦"
    ∷ env.show_amount required
    ∷ ". Available Balance: ₦"
    ∷ env.show_amount balance
    ∷ ". Kindly fund your wallet with this amount ₦"
    ∷ env.show_amount (required -ℤ balance)
    ∷ " or above to proceed with this investment request."
    ∷ [])

-- What leaves `validateUserBalance` when the balance is short: the `catch` of the Income service
-- lets its NotAcceptableException not through.
abbrev pub short_of_balance : InvestmentPoolType → String → RequestError
short_of_balance mmf m = not_acceptable m
short_of_balance canary m = bad_request m
short_of_balance income m = internal "Failed to validate user balance"

unfoldable pub validate_user_balance :
    Env → InvestmentPoolType → ℕ → ℤ → Option ℕ → InvestAction (Unit {0})
validate_user_balance env fund user_id amount exclude = do
  liabilities ← gets (pending_liabilities fund user_id exclude)
  found ← gets (λ db. find_wallet_for_investment user_id fund db.wallets)
  wallet ← or_throw found (bad_request (wallet_missing fund))
  throw_if (ltb_ℤ wallet.current_balance (liabilities +ℤ amount)) (
      short_of_balance fund
        (insufficient_message env (liabilities +ℤ amount) wallet.current_balance))

abbrev pub debit_reference : Env → InvestmentPoolType → String → String
debit_reference env mmf ref = template ("INV - " ∷ ref ∷ " " ∷ [])
debit_reference env _ ref = template ("INV-" ∷ ref ∷ env.show env.now ∷ [])

abbrev pub credit_reference : Env → InvestmentPoolType → String → String
credit_reference env mmf ref = template ("REV-INV-" ∷ ref ∷ [])
credit_reference env _ ref = template ("REV-" ∷ ref ∷ env.show env.now ∷ [])

abbrev external_reference : InvestmentPoolType → String → String → String
external_reference canary prefix ref = template (prefix ∷ ref ∷ [])
external_reference _ prefix ref = ref

-- The parameter `investmentRequestType`.
abbrev type_name : InvestmentPoolType → String
type_name mmf = "MMF"
type_name canary = "Canary"
type_name income = "Income"

abbrev credit_description : InvestmentPoolType → String
credit_description mmf = "Investment reversal credit for MMF purchase failure"
credit_description fund = template ("Investment reversal for " ∷ type_name fund ∷ " failure" ∷ [])

abbrev credit_receiver : InvestmentPoolType → String
credit_receiver mmf = "MMF Investment"
credit_receiver _ = "GDL Reversal"

-- The fields that both payloads fill; the others are left out there.
abbrev transaction_data :
    VirtualWallet
    → VirtualWalletTransactionType
    → ℤ
    → (reference external description receiver : String) → VirtualWalletTransactionDto
transaction_data wallet type amount reference external description receiver = record {
  transaction_reference = reference;
  external_reference = some external;
  transaction_type = type;
  amount = amount;
  description = some description;
  sender_name = none;
  sender_account = none;
  sender_bank_code = none;
  receiver_name = some receiver;
  receiver_account = wallet.virtual_account_number;
  receiver_bank_code = some wallet.bank_code;
  status = none;
  response_code = none;
  response_message = none;
  metadata = none;
}

unfoldable pub debit_data :
    Env → InvestmentPoolType → ℤ → String → VirtualWallet → VirtualWalletTransactionDto
debit_data env fund amount ref wallet =
    transaction_data wallet debit amount (debit_reference env fund ref)
      (external_reference fund "Inv-" ref)
      (template ("Investment debit for " ∷ type_name fund ∷ " purchase" ∷ []))
      (template (type_name fund ∷ " Investment" ∷ []))

unfoldable pub credit_data :
    Env → InvestmentPoolType → ℤ → String → VirtualWallet → VirtualWalletTransactionDto
credit_data env fund amount ref wallet =
    transaction_data wallet credit amount (credit_reference env fund ref)
      (external_reference fund "Rev-" ref) (credit_description fund) (credit_receiver fund)

-- The wallet of the fund and its account number, or the error of the caller.
unfoldable pub wallet_and_account :
    ℕ → InvestmentPoolType → String → InvestAction (VirtualWallet × String)
wallet_and_account user_id fund missing = do
  found ← gets (λ db. find_wallet_for_investment user_id fund db.wallets)
  wallet ← or_throw found (plain_error missing)
  account ← or_throw wallet.virtual_account_number (plain_error missing)
  pure (wallet, account)

unfoldable pub debit_user_wallet :
    Env → InvestmentPoolType → ℕ → ℤ → String → InvestAction (Unit {0})
debit_user_wallet env fund user_id amount ref = do
  (wallet, account) ← wallet_and_account user_id fund "User wallet not found for debit"
  on_wallets (process_transaction env.now user_id account (debit_data env fund amount ref wallet))
  pure tt

-- A reversal that fails is only logged.
unfoldable pub credit_user_wallet :
    Env → InvestmentPoolType → ℕ → ℤ → String → InvestAction (Unit {0})
credit_user_wallet env fund user_id amount ref = ignoring_errors (do
  (wallet, account) ← wallet_and_account user_id fund "User wallet not found for reversal credit"
  on_wallets (process_transaction env.now user_id account (credit_data env fund amount ref wallet)))
