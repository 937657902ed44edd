-- ===== src/Invest/Create.antt =====
-- `createInvestmentRequest` of the three funds, with the creation of the customers and accounts at
-- Symplus and Infoware that it may start. The e-mails, whose errors are only logged, are left out.
use gdl_finance_v.Base.{
  ℕ, suc, ◌+◌, ◌/◌, String, Option, none, some, Bool, not, ◌&&◌, ◌||◌, [], ◌∷◌, if◌then◌else◌,
  str_eq, or_text, find_one, is_some,
}
use gdl_finance_v.Base.Action.{catching, ◌>>=◌, ◌>>◌, pure, throw_if, gets, or_throw}
use gdl_finance_v.Base.Int.{ℤ, pos, negsuc, ltb_ℤ}
use gdl_finance_v.Wallet.Entity.{VirtualWallet}
use gdl_finance_v.Wallet.Database.{update_wallet}
use gdl_finance_v.Wallet.Service.{
  InvestmentPoolType, mmf, canary, income, find_wallet_for_investment,
}
use gdl_finance_v.Invest.Entity.{
  pending, InvestmentRequest, UserAccount, NubanDetails, InvestDb, Env,
}
use gdl_finance_v.Invest.Store.{
  RequestError, not_found, bad_request, internal, plain_error, InvestAction, on_wallets,
  ignoring_errors, requests_of, insert_investment,
}
use gdl_finance_v.Invest.Funding.{template, validate_user_balance}
use gdl_finance_v.Invest.Approve.{is_present}

-- `price / 10`, in hundredths, as the column rounds it.
abbrev pub units : ℤ → ℤ
units (pos n) = pos ((n + 5) / 10)
units (negsuc n) = negsuc ((suc n + 5) / 10)

abbrev set_symplus_customer : String → VirtualWallet → VirtualWallet
set_symplus_customer id w = record w { encrypted_symplus_customer_id = some id }

abbrev set_fund_account : String → VirtualWallet → VirtualWallet
set_fund_account account w = record w { fund_account_no = some account }

abbrev set_accounts : String → String → VirtualWallet → VirtualWallet
set_accounts account cash w = record w {
  fund_account_no = some account;
  cash_account_no = some cash;
}

abbrev set_infoware_customer : String → VirtualWallet → VirtualWallet
set_infoware_customer id w = record w { encrypted_infoware_customer_id = some id }

-- An UPDATE of columns of a wallet that hold no money, which also sets `updated_at`.
abbrev save_columns : Env → ℕ → (VirtualWallet → VirtualWallet) → InvestAction (Unit {0})
save_columns env id f = on_wallets (update_wallet id (λ w. record (f w) { updated_at = env.now }))

unfoldable pub ensure_symplus_customer_exists : Env → ℕ → VirtualWallet → InvestAction VirtualWallet
ensure_symplus_customer_exists env user_id wallet =
    if is_present wallet.encrypted_symplus_customer_id then pure wallet else (do
      id ← or_throw (env.symplus_customer user_id) (internal "Symplus customer")
      save_columns env wallet.id (set_symplus_customer id)
      found ← gets (λ db. find_wallet_for_investment user_id mmf db.wallets)
      reloaded ← or_throw found (internal "Failed to auto-create and save Symplus ID")
      throw_if (not (is_present reloaded.encrypted_symplus_customer_id))
          (internal "Failed to auto-create and save Symplus ID")
      pure reloaded)

-- The account of the default fund is taken from Symplus, or else created there.
abbrev fetch_or_create : Env → ℕ → VirtualWallet → Option String → InvestAction (Unit {0})
fetch_or_create env user_id wallet (some account) =
    save_columns env wallet.id (set_fund_account account)
fetch_or_create env user_id wallet none = elim (env.new_fund_accounts user_id) [
  | none ↦ pure tt
  | some (account, cash) ↦
      if is_present (some account) && is_present (some cash)
      then save_columns env wallet.id (set_accounts account cash)
      else pure tt
]

unfoldable pub ensure_fund_accounts_exist : Env → ℕ → VirtualWallet → InvestAction (Unit {0})
ensure_fund_accounts_exist env user_id wallet =
    if not (is_present wallet.encrypted_symplus_customer_id)
      || (is_present wallet.fund_account_no && is_present wallet.cash_account_no)
    then pure tt
    else ignoring_errors (
        fetch_or_create env user_id wallet
          (env.existing_fund_account (or_text wallet.encrypted_symplus_customer_id "")))

abbrev pub create_accounts : Env → ℕ → Option VirtualWallet → InvestAction (Unit {0})
create_accounts env user_id none = pure tt
create_accounts env user_id (some wallet) = do
  customer ← ensure_symplus_customer_exists env user_id wallet
  ensure_fund_accounts_exist env user_id customer

-- The accounts of the user's wallet, whose errors are only logged.
unfoldable pub prepare_accounts : Env → ℕ → InvestAction (Unit {0})
prepare_accounts env user_id = do
  found ← gets (λ db. find_wallet_for_investment user_id mmf db.wallets)
  ignoring_errors (create_accounts env user_id found)

abbrev pub new_investment :
    Env
    → UserAccount
    → ℕ
    → (account : String) → (price quantity : ℤ) → (reference : String) → InvestmentRequest
new_investment env user user_id account price quantity reference = record {
  id = 0;
  user_id = user_id;
  first_name = user.first_name;
  last_name = user.last_name;
  account = account;
  date = env.now;
  price = price;
  quantity = quantity;
  reference = reference;
  status = pending;
  admin_notes = none;
  approved_by = none;
  approved_at = none;
  rejected_by = none;
  rejected_at = none;
}

abbrev has_reference : InvestmentPoolType → String → InvestDb → Bool
has_reference fund reference db =
    is_some (find_one (λ r. str_eq r.reference reference) (requests_of fund db))

abbrev pub nuban_account : Option NubanDetails → String
nuban_account none = "Test Account"
nuban_account (some n) = or_text n.nuban_account "Test Account"

-- The `catch` of the MMF service, and of the other two.
abbrev pub create_failure : RequestError → RequestError
create_failure (plain_error m) = internal "Failed to create investment request"
create_failure (internal m) = internal "Failed to create investment request"
create_failure e = e

abbrev pub create_fund_failure : InvestmentPoolType → RequestError → RequestError
create_fund_failure fund (bad_request m) = bad_request m
create_fund_failure canary _ = internal "Failed to create Canary investment request"
create_fund_failure _ _ = internal "Failed to create investment request"

-- The checks that the three services share.
unfoldable pub check_new : InvestmentPoolType → String → ℤ → InvestAction (Unit {0})
check_new fund reference price = do
  existing ← gets (has_reference fund reference)
  throw_if existing (bad_request "Investment request with this reference already exists")
  throw_if (not (ltb_ℤ (pos 0) price))
      (bad_request "Invalid price or quantity resulting in non-positive amount")

unfoldable pub create_investment_request : Env → ℕ → ℤ → InvestAction InvestmentRequest
create_investment_request env user_id price =
    let reference = template ("GDL - " ∷ env.show env.now ∷ env.show user_id ∷ " " ∷ []) in
    catching create_failure (do
      check_new mmf reference price
      user ← or_throw (env.users user_id) (not_found "User not found")
      validate_user_balance env mmf user_id price none
      prepare_accounts env user_id
      insert_investment mmf (
          new_investment env user user_id (nuban_account (env.nubans user.id)) price (units price)
            reference))

-- The account number of the wallet does not change here, so the wallet that is returned is the one
-- that was given.
unfoldable pub ensure_infoware_customer_exists :
    Env → ℕ → VirtualWallet → InvestAction VirtualWallet
ensure_infoware_customer_exists env user_id wallet =
    if is_present wallet.encrypted_infoware_customer_id || not (is_some (env.nubans user_id))
    then pure wallet
    else elim (env.infoware_customer user_id) [
      | none ↦ pure wallet
      | some id ↦ (do
        ignoring_errors (save_columns env wallet.id (set_infoware_customer id))
        pure wallet)
    ]

-- The Canary and Income services, which differ in the fund alone. They read the names of the user
-- without a check, and the column `account` is not nullable.
unfoldable pub create_fund_request :
    Env → InvestmentPoolType → ℕ → ℤ → ℤ → InvestAction InvestmentRequest
create_fund_request env fund user_id price quantity =
    let reference = template ("GDL-" ∷ env.show env.now ∷ "-" ∷ env.show user_id ∷ []) in
    catching (create_fund_failure fund) (do
      check_new fund reference price
      validate_user_balance env fund user_id price none
      found ← gets (λ db. find_wallet_for_investment user_id fund db.wallets)
      wallet ← or_throw found (plain_error "No wallet")
      user ← or_throw (env.users user_id) (plain_error "No user")
      updated ← ensure_infoware_customer_exists env user_id wallet
      account ← or_throw updated.virtual_account_number (plain_error "No account")
      insert_investment fund (new_investment env user user_id account price quantity reference))

unfoldable pub create_canary_request : Env → ℕ → ℤ → ℤ → InvestAction InvestmentRequest
create_canary_request env = create_fund_request env canary

unfoldable pub create_income_request : Env → ℕ → ℤ → ℤ → InvestAction InvestmentRequest
create_income_request env = create_fund_request env income
