-- ===== src/Invest/Manage.antt =====
-- `updateInvestmentRequest` and `rejectInvestmentRequest` of the three funds.
use gdl_finance_v.Invest.Funding.{validate_user_balance}
use gdl_finance_v.Base.Int.{ℤ, pos, negsuc, ltb_ℤ}
use gdl_finance_v.Base.{
  suc, zero, ◌/◌, none, ◌+◌, ◌*◌, true, if◌then◌else◌, str_eq, ◌&&◌, ◌==◌, find_one, any, or_else,
  false, Option, ℕ, String, some, Bool, not, ◌||◌,
}
use gdl_finance_v.Base.Action.{catching, ◌>>=◌, ◌>>◌, pure, throw_if, gets, or_throw}
use gdl_finance_v.Wallet.Service.{InvestmentPoolType, mmf, canary, income}
use gdl_finance_v.Invest.Entity.{
  InvestDb, UpdateInvestmentRequestDto, rejected, InvestmentRequest, Env, RequestStatus,
}
use gdl_finance_v.Invest.Store.{
  plain_error, not_found, bad_request, not_acceptable, RequestError, InvestAction, is_awaiting,
  is_processing, requests_of, find_investment, save_request,
}
use gdl_finance_v.Invest.Approve.{pass_on}

-- Which statuses can be rejected, and the error for the others.
abbrev pub may_reject : InvestmentPoolType → RequestStatus → Bool
may_reject mmf s = is_awaiting s || is_processing s
may_reject _ s = is_awaiting s

abbrev pub refusal : InvestmentPoolType → RequestError
refusal mmf =
    not_acceptable "Investment request must be in PENDING or PROCESSING status to be rejected"
refusal _ = bad_request "Investment request is not pending approval"

unfoldable pub reject_row : Env → ℕ → String → InvestmentRequest → InvestmentRequest
reject_row env admin_id notes request = record request {
  status = rejected;
  rejected_by = some admin_id;
  rejected_at = some env.now;
  admin_notes = some notes;
}

unfoldable pub reject_fund_request :
    Env → InvestmentPoolType → ℕ → ℕ → String → InvestAction InvestmentRequest
reject_fund_request env fund request_id admin_id notes =
    catching (pass_on "Failed to reject investment request") (do
      found ← gets (find_investment fund request_id)
      request ← or_throw found (not_found "Investment request not found")
      throw_if (not (may_reject fund request.status)) (refusal fund)
      save_request fund (reject_row env admin_id notes request)
      pure (reject_row env admin_id notes request))

unfoldable pub reject_investment_request : Env → ℕ → ℕ → String → InvestAction InvestmentRequest
reject_investment_request env = reject_fund_request env mmf

unfoldable pub reject_canary_request : Env → ℕ → ℕ → String → InvestAction InvestmentRequest
reject_canary_request env = reject_fund_request env canary

unfoldable pub reject_income_request : Env → ℕ → ℕ → String → InvestAction InvestmentRequest
reject_income_request env = reject_fund_request env income

abbrev is_nonzero : Option ℤ → Bool
is_nonzero none = false
is_nonzero (some (pos zero)) = false
is_nonzero _ = true

-- `Number(newPrice) * Number(newQuantity)`, in hundredths, rounded up: since the balance and the
-- pending prices are whole hundredths, it exceeds what is left exactly if the product does. A
-- product below 0 counts as 0.
unfoldable pub new_amount : ℤ → ℤ → ℤ
new_amount (pos a) (pos b) = pos ((a * b + 99) / 100)
new_amount (negsuc a) (negsuc b) = pos ((suc a * suc b + 99) / 100)
new_amount _ _ = pos 0

-- `Object.assign(request, updateData)`
unfoldable pub assign_request : UpdateInvestmentRequestDto → InvestmentRequest → InvestmentRequest
assign_request dto request = record request {
  first_name = or_else dto.first_name request.first_name;
  last_name = or_else dto.last_name request.last_name;
  account = or_else dto.account request.account;
  date = or_else dto.date request.date;
  price = or_else dto.price request.price;
  quantity = or_else dto.quantity request.quantity;
  reference = or_else dto.reference request.reference;
}

-- The reference, which is a unique column, belongs to another request.
abbrev reference_taken : InvestmentPoolType → InvestmentRequest → InvestDb → Bool
reference_taken fund r db =
    any (λ x. not (x.id == r.id) && str_eq x.reference r.reference) (requests_of fund db)

unfoldable pub check_amount :
    Env
    → InvestmentPoolType
    → ℕ
    → UpdateInvestmentRequestDto
    → InvestmentRequest
    → InvestAction (Unit {0})
check_amount env fund user_id dto request =
    let amount =
      new_amount (or_else dto.price request.price) (or_else dto.quantity request.quantity) in
    if is_nonzero dto.price || is_nonzero dto.quantity
    then (do
      throw_if (not (ltb_ℤ (pos 0) amount))
          (bad_request "Invalid price or quantity resulting in non-positive amount")
      validate_user_balance env fund user_id amount (some request.id))
    else pure tt

unfoldable pub update_fund_request :
    Env → InvestmentPoolType → ℕ → ℕ → UpdateInvestmentRequestDto → InvestAction InvestmentRequest
update_fund_request env fund user_id request_id dto =
    catching (pass_on "Failed to update investment request") (do
      found ←
          gets
            (λ db. find_one (λ r. r.id == request_id && r.user_id == user_id) (requests_of fund db))
      request ← or_throw found (not_found "Investment request not found")
      throw_if (not (is_awaiting request.status))
          (bad_request "Cannot update investment request that is not pending")
      check_amount env fund user_id dto request
      taken ← gets (reference_taken fund (assign_request dto request))
      throw_if taken (plain_error "Duplicate entry")
      save_request fund (assign_request dto request)
      pure (assign_request dto request))

unfoldable pub update_investment_request :
    Env → ℕ → ℕ → UpdateInvestmentRequestDto → InvestAction InvestmentRequest
update_investment_request env = update_fund_request env mmf

unfoldable pub update_canary_request :
    Env → ℕ → ℕ → UpdateInvestmentRequestDto → InvestAction InvestmentRequest
update_canary_request env = update_fund_request env canary

unfoldable pub update_income_request :
    Env → ℕ → ℕ → UpdateInvestmentRequestDto → InvestAction InvestmentRequest
update_income_request env = update_fund_request env income
