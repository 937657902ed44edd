-- ===== src/Invest/Store.antt =====
-- The request tables of the three funds, the exceptions of their services, and the wallets of
-- virtual-wallet.service.ts as the services reach them.
use gdl_finance_v.Base.{
  ℕ, String, Option, none, some, Bool, true, false, not, List, [], ◌∷◌, ◌++◌, ◌+◌, ◌&&◌, ◌==◌,
  if◌then◌else◌, find_one, update_where,
}
use gdl_finance_v.Base.Action.{Action, Result, ok, err}
use gdl_finance_v.Base.Int.{ℤ, pos, ◌+ℤ◌}
use gdl_finance_v.Wallet.Entity.{WalletDb}
use gdl_finance_v.Wallet.Database.{
  WalletAction, WalletError, wallet_not_found, not_active, insufficient_balance, database_error,
  process_failed,
}
use gdl_finance_v.Wallet.Service.{InvestmentPoolType, mmf, canary, income}
use gdl_finance_v.Invest.Entity.{
  RequestStatus, pending, processing, InvestmentRequest, FundRedemption, InvestDb,
}

-- The exceptions, with their messages; `plain_error` is an `Error`.
pub data RequestError : Type 0 where
  not_found bad_request not_acceptable internal plain_error : String → RequestError

-- `error.message`
abbrev pub message : RequestError → String
message (not_found m) = m
message (bad_request m) = m
message (not_acceptable m) = m
message (internal m) = m
message (plain_error m) = m

abbrev pub InvestAction : Type 0 → Type 0
InvestAction A = Action InvestDb RequestError A

-- The exceptions of the wallet service.
abbrev pub wallet_error : WalletError → RequestError
wallet_error wallet_not_found = not_found "Virtual wallet not found"
wallet_error not_active = bad_request "Virtual wallet is not active"
wallet_error insufficient_balance = bad_request "Insufficient balance"
wallet_error database_error = plain_error "Database error"
wallet_error process_failed = internal "Failed to process transaction"

abbrev pub lift_result :
    {A : Type 0} → InvestDb → Result WalletError A × WalletDb → Result RequestError A × InvestDb
lift_result db (ok a, w) = (ok a, record db { wallets = w })
lift_result db (err e, w) = (err (wallet_error e), record db { wallets = w })

-- A method of the wallet service.
abbrev pub on_wallets : {A : Type 0} → WalletAction A → InvestAction A
on_wallets m db = lift_result db (m db.wallets)

-- `try { … } catch (error) { … }`: the handler starts from what the body has saved.
abbrev pub handle_with :
    {A : Type 0}
    → (RequestError → InvestAction A)
    → Result RequestError A × InvestDb
    → Result RequestError A × InvestDb
handle_with handler (ok a, db) = (ok a, db)
handle_with handler (err e, db) = handler e db

abbrev pub try_catch :
    {A : Type 0} → InvestAction A → (RequestError → InvestAction A) → InvestAction A
try_catch m handler db = handle_with handler (m db)

-- An error is logged and no more.
abbrev pub drop_result :
    {A : Type 0} → Result RequestError A × InvestDb → Result RequestError (Unit {0}) × InvestDb
drop_result (r, db) = (ok tt, db)

abbrev pub ignoring_errors : {A : Type 0} → InvestAction A → InvestAction (Unit {0})
ignoring_errors m db = drop_result (m db)

abbrev pub is_awaiting : RequestStatus → Bool
is_awaiting pending = true
is_awaiting _ = false

abbrev pub is_processing : RequestStatus → Bool
is_processing processing = true
is_processing _ = false

-- The request table of a fund's repository.
unfoldable pub requests_of : InvestmentPoolType → InvestDb → List InvestmentRequest
requests_of mmf db = db.mmf_requests
requests_of canary db = db.canary_requests
requests_of income db = db.income_requests

unfoldable pub with_requests : InvestmentPoolType → List InvestmentRequest → InvestDb → InvestDb
with_requests mmf rows db = record db { mmf_requests = rows }
with_requests canary rows db = record db { canary_requests = rows }
with_requests income rows db = record db { income_requests = rows }

unfoldable pub redemptions_of : InvestmentPoolType → InvestDb → List FundRedemption
redemptions_of mmf db = db.mmf_redemptions
redemptions_of canary db = db.canary_redemptions
redemptions_of income db = db.income_redemptions

unfoldable pub with_redemptions : InvestmentPoolType → List FundRedemption → InvestDb → InvestDb
with_redemptions mmf rows db = record db { mmf_redemptions = rows }
with_redemptions canary rows db = record db { canary_redemptions = rows }
with_redemptions income rows db = record db { income_redemptions = rows }

abbrev pub find_investment : InvestmentPoolType → ℕ → InvestDb → Option InvestmentRequest
find_investment fund id db = find_one (λ r. r.id == id) (requests_of fund db)

-- `save` of a request that was read: an UPDATE by its id. The reference, which is a unique column,
-- is the one that it had.
unfoldable pub save_request : InvestmentPoolType → InvestmentRequest → InvestAction (Unit {0})
save_request fund r db =
    (ok tt, with_requests fund (update_where (λ x. x.id == r.id) (λ _. r) (requests_of fund db)) db)

-- `save` of a new request: an INSERT, which gives the id. That its reference is new was checked.
unfoldable pub insert_investment :
    InvestmentPoolType → InvestmentRequest → InvestAction InvestmentRequest
insert_investment fund r db =
    let saved = record r { id = db.next_request_id } in
    (
      ok saved,
      record (with_requests fund (requests_of fund db ++ saved ∷ []) db) {
        next_request_id = db.next_request_id + 1;
      },
    )

abbrev pub is_excluded : Option ℕ → ℕ → Bool
is_excluded none id = false
is_excluded (some k) id = id == k

-- The term of one row in the `SUM(req.price)` of the pending requests of the user, without the
-- excluded one.
abbrev pub pending_price : ℕ → Option ℕ → InvestmentRequest → ℤ
pending_price user_id exclude r =
    if r.user_id == user_id && is_awaiting r.status && not (is_excluded exclude r.id)
    then r.price
    else pos 0

unfoldable pub pending_sum : ℕ → Option ℕ → List InvestmentRequest → ℤ
pending_sum user_id exclude [] = pos 0
pending_sum user_id exclude (r ∷ rows) =
    pending_price user_id exclude r +ℤ pending_sum user_id exclude rows
