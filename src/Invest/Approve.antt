-- ===== src/Invest/Approve.antt =====
-- `approveInvestmentRequest` of the three funds. The e-mails, whose errors are only logged, are left
-- out. An answer `some m` of a call to Symplus or Infoware is its error, with the message `m`.
use gdl_finance_v.Base.{
  ℕ, String, Option, none, some, Bool, false, not, ◌&&◌, [], ◌∷◌, if◌then◌else◌, str_eq, or_text,
}
use gdl_finance_v.Base.Action.{◌>>=◌, ◌>>◌, pure, throw, throw_if, gets, or_throw}
use gdl_finance_v.Base.Int.{pos, ltb_ℤ}
use gdl_finance_v.Wallet.Entity.{VirtualWallet}
use gdl_finance_v.Wallet.Service.{
  InvestmentPoolType, mmf, canary, income, find_wallet_for_investment,
}
use gdl_finance_v.Invest.Entity.{
  pending, approved, processing, failed, InvestmentRequest, UserAccount, Env,
}
use gdl_finance_v.Invest.Store.{
  RequestError, not_found, bad_request, internal, message, InvestAction, try_catch, is_awaiting,
  find_investment, save_request,
}
use gdl_finance_v.Invest.Funding.{
  template, validate_user_balance, debit_user_wallet, credit_user_wallet,
}

-- A text that counts as true in a condition.
abbrev pub is_present : Option String → Bool
is_present none = false
is_present (some s) = not (str_eq s "")

-- Steps 1 to 3: the guards, up to the check of the balance.
unfoldable pub check_approval :
    Env → InvestmentPoolType → ℕ → InvestAction (InvestmentRequest × UserAccount × VirtualWallet)
check_approval env fund request_id = do
  found ← gets (find_investment fund request_id)
  request ← or_throw found (not_found "Investment request not found")
  throw_if (not (is_awaiting request.status)) (bad_request "Only pending requests can be approved")
  user ← or_throw (env.users request.user_id) (bad_request "Associated user not found")
  found_wallet ← gets (λ db. find_wallet_for_investment user.id fund db.wallets)
  wallet ← or_throw found_wallet (bad_request "User wallet not found")
  throw_if (not (ltb_ℤ (pos 0) request.price)) (bad_request "Invalid investment amount")
  validate_user_balance env fund user.id request.price (some request_id)
  pure (request, user, wallet)

unfoldable pub mark_processing : Env → ℕ → Option String → InvestmentRequest → InvestmentRequest
mark_processing env admin_id notes request = record request {
  status = processing;
  approved_by = some admin_id;
  approved_at = some env.now;
  admin_notes = some (env.trim (or_text notes ""));
}

abbrev pub back_to_pending : String → InvestmentRequest → InvestmentRequest
back_to_pending note request = record request { status = pending; admin_notes = some note }

abbrev pub reversed_note : (what error : String) → String
reversed_note what error = template ("[AUTO-REVERSED] " ∷ what ∷ " failed: " ∷ error ∷ [])

abbrev pub sync_failure : (where_ error : String) → String
sync_failure where_ error =
    template ("Sync failure" ∷ where_ ∷ ": " ∷ error ∷ ". User wallet has been reversed." ∷ [])

-- The `catch` after an outside call: the debit is reversed, and the request is pending again.
unfoldable pub reverse :
    Env
    → InvestmentPoolType
    → ℕ
    → InvestmentRequest
    → (what where_ : String) → String
    → InvestAction (Unit {0})
reverse env fund user_id request what where_ error = do
  credit_user_wallet env fund user_id request.price request.reference
  save_request fund (back_to_pending (reversed_note what error) request)
  throw (internal (sync_failure where_ error))

-- What follows an outside call.
unfoldable pub after_call :
    Env
    → InvestmentPoolType
    → ℕ
    → InvestmentRequest
    → (what where_ : String) → Option String
    → InvestAction (Unit {0})
after_call env fund user_id request what where_ none = pure tt
after_call env fund user_id request what where_ (some error) =
    reverse env fund user_id request what where_ error

-- The answers of the calls to Symplus, which are skipped where the wallet has no account for them.
abbrev pub cash_deposit_answer : Env → VirtualWallet → InvestmentRequest → Option String
cash_deposit_answer env wallet request =
    if is_present wallet.cash_account_no && is_present wallet.encrypted_symplus_customer_id
    then env.cash_deposit request
    else none

abbrev pub fund_subscription_answer : Env → VirtualWallet → InvestmentRequest → Option String
fund_subscription_answer env wallet request =
    if is_present wallet.fund_account_no then env.fund_subscription request else none

abbrev pub approve_row : InvestmentRequest → InvestmentRequest
approve_row request = record request { status = approved }

-- From step 4 to the end of the `try` of the MMF service.
unfoldable pub fund_mmf :
    Env → InvestmentRequest → UserAccount → VirtualWallet → InvestAction InvestmentRequest
fund_mmf env request user wallet = do
  save_request mmf request
  debit_user_wallet env mmf user.id request.price request.reference
  after_call env mmf user.id request "Cash deposit" "" (cash_deposit_answer env wallet request)
  after_call env mmf user.id request "Fund subscription" ""
      (fund_subscription_answer env wallet request)
  save_request mmf (approve_row request)
  pure (approve_row request)

abbrev pub fail_row : RequestError → InvestmentRequest → InvestmentRequest
fail_row error request = record request {
  status = failed;
  admin_notes =
      some (template (or_text request.admin_notes "" ∷ " | Error: " ∷ message error ∷ " " ∷ []));
}

abbrev pub mark_found : RequestError → Option InvestmentRequest → InvestAction (Unit {0})
mark_found error none = pure tt
mark_found error (some request) = save_request mmf (fail_row error request)

-- The last lines of each service's `catch`.
abbrev pub pass_on : String → RequestError → RequestError
pass_on failure (not_found m) = not_found m
pass_on failure (bad_request m) = bad_request m
pass_on failure _ = internal failure

-- The `catch` around the whole of the MMF approval.
unfoldable pub fail_approval : ℕ → RequestError → InvestAction InvestmentRequest
fail_approval request_id error = do
  found ← gets (find_investment mmf request_id)
  mark_found error found
  throw (pass_on "Failed to approve investment request" error)

unfoldable pub approve_steps : Env → ℕ → ℕ → Option String → InvestAction InvestmentRequest
approve_steps env request_id admin_id notes = do
  (request, user, wallet) ← check_approval env mmf request_id
  fund_mmf env (mark_processing env admin_id notes request) user wallet

-- `approveInvestmentRequest` of the MMF service.
unfoldable pub approve_investment_request :
    Env → ℕ → ℕ → Option String → InvestAction InvestmentRequest
approve_investment_request env request_id admin_id notes =
    try_catch (approve_steps env request_id admin_id notes) (fail_approval request_id)

-- The text that the debit of a Canary or Income request is known by.
abbrev pub debit_text : Env → InvestmentPoolType → ℕ → String
debit_text env income request_id = template ("Inc-Inv-" ∷ env.show request_id ∷ [])
debit_text env _ request_id = template ("Can-Inv-" ∷ env.show request_id ∷ [])

-- The `catch` of the debit in the Canary and Income services.
unfoldable pub fail_debit :
    InvestmentPoolType → InvestmentRequest → RequestError → InvestAction (Unit {0})
fail_debit fund request error = do
  save_request fund
      (back_to_pending (template ("[FAILED] Wallet debit failed: " ∷ message error ∷ [])) request)
  throw error

unfoldable pub fund_infoware :
    Env → InvestmentPoolType → InvestmentRequest → UserAccount → InvestAction InvestmentRequest
fund_infoware env fund request user = do
  save_request fund request
  try_catch (debit_user_wallet env fund user.id request.price (debit_text env fund request.id))
      (fail_debit fund request)
  after_call env fund user.id request "Infoware fund-account" " (Fund Account)"
      (env.fund_account request)
  after_call env fund user.id request "Subscribe and Approve" " (Subscribe)"
      (env.subscribe_and_approve request)
  save_request fund (approve_row request)
  pure (approve_row request)

-- `approveInvestmentRequest` of the Canary and Income services, which differ in the fund alone.
unfoldable pub approve_fund_request :
    Env → InvestmentPoolType → ℕ → ℕ → Option String → InvestAction InvestmentRequest
approve_fund_request env fund request_id admin_id notes = do
  (request, user, wallet) ← check_approval env fund request_id
  fund_infoware env fund (mark_processing env admin_id notes request) user

unfoldable pub approve_canary_request : Env → ℕ → ℕ → Option String → InvestAction InvestmentRequest
approve_canary_request env = approve_fund_request env canary

unfoldable pub approve_income_request : Env → ℕ → ℕ → Option String → InvestAction InvestmentRequest
approve_income_request env = approve_fund_request env income
