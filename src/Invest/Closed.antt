-- ===== src/Invest/Closed.antt =====
-- A request that was decided: what can still be done to it.
use gdl_finance_v.Invest.Approve.{check_approval, approve_fund_request, pass_on}
use gdl_finance_v.Base.{
  ◌∙◌, ap, inr, inl, arith, All-find_one, find_one_holds, find_one-only, ◌&&◌, ◌==◌, Option-cases,
  find_one, Option, DistinctBy, ℕ, String, some, false, ◌≡◌, refl,
}
use gdl_finance_v.Base.Action.{err}
use gdl_finance_v.Wallet.Service.{income, canary, mmf, InvestmentPoolType}
use gdl_finance_v.Invest.Entity.{
  UpdateInvestmentRequestDto, RequestStatus, InvestmentRequest, InvestDb, Env,
}
use gdl_finance_v.Invest.Store.{
  not_found, bad_request, requests_of, RequestError, is_awaiting, is_processing, find_investment,
}
use gdl_finance_v.Invest.Manage.{refusal, update_fund_request, reject_fund_request, may_reject}

-- The request is neither pending nor being processed.
abbrev pub IsClosed : RequestStatus → Type 0
IsClosed s = (is_awaiting s ≡ false) × (is_processing s ≡ false)

closed_may_reject :
    (fund : InvestmentPoolType) (s : RequestStatus) → IsClosed s → may_reject fund s ≡ false
closed_may_reject mmf s (waiting, working) = rw (waiting, working) refl
closed_may_reject canary s (waiting, working) = waiting
closed_may_reject income s (waiting, working) = waiting

reject_closed :
    (env : Env) (fund : InvestmentPoolType) (request_id admin_id : ℕ) (notes : String)
    (r : InvestmentRequest) (db : InvestDb)
    → find_investment fund request_id db ≡ some r
    → IsClosed r.status
    → (e : RequestError) × (reject_fund_request env fund request_id admin_id notes db ≡ (err e, db))
unfolding reject_fund_request
reject_closed env fund request_id admin_id notes r db found closed =
    let shut = closed_may_reject fund r.status closed in
    (pass_on "Failed to reject investment request" (refusal fund), rw (found, shut) refl)

approve_closed :
    (env : Env) (fund : InvestmentPoolType) (request_id admin_id : ℕ) (notes : Option String)
    (r : InvestmentRequest) (db : InvestDb)
    → find_investment fund request_id db ≡ some r
    → is_awaiting r.status ≡ false
    → approve_fund_request env fund request_id admin_id notes db
      ≡ (err (bad_request "Only pending requests can be approved"), db)
unfolding approve_fund_request check_approval
approve_closed env fund request_id admin_id notes r db found shut = rw (found, shut) refl

-- A search that also asks for the user finds nothing, or the only row with the id.
find_own :
    (fund : InvestmentPoolType) (user_id request_id : ℕ) (r : InvestmentRequest) (db : InvestDb)
    → DistinctBy (λ (x : InvestmentRequest). x.id) (requests_of fund db)
    → find_investment fund request_id db ≡ some r
    → (x : InvestmentRequest)
    → find_one (λ v. v.id == request_id && v.user_id == user_id) (requests_of fund db) ≡ some x
    → x ≡ r
find_own fund user_id request_id r db keys found x own =
    let only =
      find_one-only (λ (v : InvestmentRequest). v.id) request_id r (requests_of fund db) keys
        found in
    let hit =
      find_one_holds (λ v. v.id == request_id && v.user_id == user_id) x (requests_of fund db)
        own in
    All-find_one (λ v. v.id ≡ request_id → v ≡ r) (λ v. v.id == request_id && v.user_id == user_id)
      x (requests_of fund db) only own (ground arith)

update_closed :
    (env : Env) (fund : InvestmentPoolType) (user_id request_id : ℕ)
    (dto : UpdateInvestmentRequestDto) (r : InvestmentRequest) (db : InvestDb)
    → DistinctBy (λ (x : InvestmentRequest). x.id) (requests_of fund db)
    → find_investment fund request_id db ≡ some r
    → is_awaiting r.status ≡ false
    → (e : RequestError) × (update_fund_request env fund user_id request_id dto db ≡ (err e, db))
unfolding update_fund_request
update_closed env fund user_id request_id dto r db keys found shut =
    elim (Option-cases
      (find_one (λ v. v.id == request_id && v.user_id == user_id) (requests_of fund db))) [
        | inl missing ↦ (not_found "Investment request not found", rw missing refl)
        | inr (x, own) ↦
            let shut' =
              ap (λ (v : InvestmentRequest). is_awaiting v.status)
                (find_own fund user_id request_id r db keys found x own)
              ∙ shut in
            (
              bad_request "Cannot update investment request that is not pending",
              rw (own, shut') refl,
            )
      ]

-- In the Canary and Income services a decision is final, and in the MMF service it can be neither
-- rejected nor changed: for a request that is approved, rejected, failed or completed, a later
-- rejection, change by any user, or approval as in the Canary and Income services fails and changes
-- nothing. The ids of the requests are a primary key.
pub closed_request-unchanged :
    (env : Env) (fund : InvestmentPoolType) (request_id admin_id user_id : ℕ) (notes : String)
    (remarks : Option String) (dto : UpdateInvestmentRequestDto) (r : InvestmentRequest)
    (db : InvestDb)
    → DistinctBy (λ (x : InvestmentRequest). x.id) (requests_of fund db)
    → find_investment fund request_id db ≡ some r
    → IsClosed r.status
    → ((e : RequestError) × (reject_fund_request env fund request_id admin_id notes db
          ≡ (err e, db)))
      × ((e : RequestError) × (update_fund_request env fund user_id request_id dto db
            ≡ (err e, db)))
      × (approve_fund_request env fund request_id admin_id remarks db
          ≡ (err (bad_request "Only pending requests can be approved"), db))
closed_request-unchanged env fund request_id admin_id user_id notes remarks dto r db keys found
      closed =
    (
      reject_closed env fund request_id admin_id notes r db found closed,
      update_closed env fund user_id request_id dto r db keys found closed.0,
      approve_closed env fund request_id admin_id remarks r db found closed.0,
    )
