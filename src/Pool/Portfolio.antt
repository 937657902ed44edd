-- ===== src/Pool/Portfolio.antt =====
-- The two views of the portfolio that Infoware answers with: `getUserPools` and
-- `getUserInvestmentPoolByType` (investment-pull.service.ts). A figure that is missing is `none`;
-- texts that are no numbers are left out. The MMF investment that `getUserPools` adds is left out.
use gdl_finance_v.Pool.Service.{same_type}
use gdl_finance_v.Base.{
  true, length, ◌==◌, not, str_eq, if◌then◌else◌, refl, ap, eq_iff, find_all, false, arith, All,
  ◌⊎◌, Bool, map, ◌≢◌, ◌≡◌, List, Option, ℕ, String, [], ◌∷◌, none, some, inl, inr,
}
use gdl_finance_v.Base.Int.{pos, ℤ}
use gdl_finance_v.Wallet.Service.{mmf, canary, income, InvestmentPoolType}

pub record PortfolioRow : Type 0 where
  pub date : String
  pub fund_code : String
  pub fund_name : String
  pub customer_id : String
  pub units : Option ℤ
  pub principal : Option ℤ
  pub market_price : Option ℤ
  pub market_value : Option ℤ
  pub accrued_interest : Option ℤ
  pub accrued_interest_percent : Option ℤ

pub record PortfolioPositionResponse : Type 0 where
  pub status_id : ℕ
  pub rows : List PortfolioRow

-- One entry of either view.
pub record Position : Type 0 where
  pub type : InvestmentPoolType
  pub fund_code : String
  pub fund_name : String
  pub units : ℤ
  pub principal : ℤ
  pub market_price : ℤ
  pub market_value : ℤ
  pub accrued_interest : ℤ
  pub accrued_interest_percent : ℤ

-- `Number(value ?? 0)`, and `toNum`.
abbrev pub to_num : Option ℤ → ℤ
to_num none = pos 0
to_num (some n) = n

abbrev pub position_of : InvestmentPoolType → PortfolioRow → Position
position_of type r = record {
  type = type;
  fund_code = r.fund_code;
  fund_name = r.fund_name;
  units = to_num r.units;
  principal = to_num r.principal;
  market_price = to_num r.market_price;
  market_value = to_num r.market_value;
  accrued_interest = to_num r.accrued_interest;
  accrued_interest_percent = to_num r.accrued_interest_percent;
}

-- `getUserPools`: any code but AIF counts as CANARY.
abbrev pub listed_type : String → InvestmentPoolType
listed_type code = if str_eq code "AIF" then income else canary

unfoldable pub portfolio_pools : PortfolioPositionResponse → List Position
portfolio_pools response =
    map (λ (r : PortfolioRow). position_of (listed_type r.fund_code) r) response.rows

unfoldable pub resolve_pool_type : String → Option InvestmentPoolType
resolve_pool_type code =
    if str_eq code "CGF" then some canary else (if str_eq code "AIF" then some income else none)

-- `inv.type === type`
abbrev pub is_type : InvestmentPoolType → Option InvestmentPoolType → Bool
is_type type none = false
is_type type (some t) = same_type t type

-- The rows of the requested type, mapped.
unfoldable pub investments_of : InvestmentPoolType → List PortfolioRow → List Position
investments_of type [] = []
investments_of type (r ∷ rs) =
    let rest = investments_of type rs in
    if is_type type (resolve_pool_type r.fund_code) then position_of type r ∷ rest else rest

pub record PoolsByType : Type 0 where
  pub total_pools : ℕ
  pub investments : List Position
  pub main : Option Position

abbrev first_of : List Position → Option Position
first_of [] = none
first_of (p ∷ ps) = some p

-- `getUserInvestmentPoolByType`; `none` is its NotFoundException.
unfoldable pub pool_by_type : InvestmentPoolType → PortfolioPositionResponse → Option PoolsByType
pool_by_type type response =
    if not (response.status_id == 0)
    then none
    else (let found = investments_of type response.rows in
        some (record { total_pools = length found; investments = found; main = first_of found }))

-- The code is one of those that `resolvePoolType` knows.
abbrev pub KnownCode : PortfolioRow → Type 0
KnownCode r = (r.fund_code ≡ "AIF") ⊎ (r.fund_code ≡ "CGF")

investments_of-known :
    (type : InvestmentPoolType) (rs : List PortfolioRow)
    → All KnownCode rs
    → investments_of type rs
      ≡ find_all
          (λ (p : Position). same_type p.type type)
          (map (λ (r : PortfolioRow). position_of (listed_type r.fund_code) r) rs)
unfolding investments_of resolve_pool_type
investments_of-known type [] h = refl
investments_of-known mmf (r ∷ rs) (h, hs) =
    let ih = investments_of-known mmf rs hs in
    elim h [
      | inl aif ↦
          let is_aif : str_eq r.fund_code "AIF" ≡ true = rw aif refl in
          let no_cgf : str_eq r.fund_code "CGF" ≡ false = rw aif refl in rw (no_cgf, is_aif) ih
      | inr cgf ↦
          let no_aif : str_eq r.fund_code "AIF" ≡ false = rw cgf refl in
          let is_cgf : str_eq r.fund_code "CGF" ≡ true = rw cgf refl in rw (is_cgf, no_aif) ih
    ]
investments_of-known canary (r ∷ rs) (h, hs) =
    let ih = investments_of-known canary rs hs in
    elim h [
      | inl aif ↦
          let is_aif : str_eq r.fund_code "AIF" ≡ true = rw aif refl in
          let no_cgf : str_eq r.fund_code "CGF" ≡ false = rw aif refl in rw (no_cgf, is_aif) ih
      | inr cgf ↦
          let no_aif : str_eq r.fund_code "AIF" ≡ false = rw cgf refl in
          let is_cgf : str_eq r.fund_code "CGF" ≡ true = rw cgf refl in
          rw (is_cgf, no_aif) (ap (λ ps. position_of canary r ∷ ps) ih)
    ]
investments_of-known income (r ∷ rs) (h, hs) =
    let ih = investments_of-known income rs hs in
    elim h [
      | inl aif ↦
          let is_aif : str_eq r.fund_code "AIF" ≡ true = rw aif refl in
          let no_cgf : str_eq r.fund_code "CGF" ≡ false = rw aif refl in
          rw (no_cgf, is_aif) (ap (λ ps. position_of income r ∷ ps) ih)
      | inr cgf ↦
          let no_aif : str_eq r.fund_code "AIF" ≡ false = rw cgf refl in
          let is_cgf : str_eq r.fund_code "CGF" ≡ true = rw cgf refl in rw (is_cgf, no_aif) ih
    ]

-- Where Infoware answers with status 0 and knows only the funds AIF and CGF, the view by type is
-- the list of all pools, filtered by the type.
pub pool_by_type-filter :
    (type : InvestmentPoolType) (response : PortfolioPositionResponse)
    → response.status_id ≡ 0
    → All KnownCode response.rows
    → (v : PoolsByType) × (pool_by_type type response ≡ some v)
      × (v.investments
          ≡ find_all (λ (p : Position). same_type p.type type) (portfolio_pools response))
unfolding pool_by_type portfolio_pools
pool_by_type-filter type response fine known =
    let found = investments_of type response.rows in
    (
      record { total_pools = length found; investments = found; main = first_of found },
      rw fine refl,
      investments_of-known type response.rows known,
    )

-- A row of any other fund is listed as CANARY among all pools, and is in no view by type.
pub pool_by_type-unknown :
    (r : PortfolioRow) (type : InvestmentPoolType)
    → r.fund_code ≢ "AIF"
    → r.fund_code ≢ "CGF"
    → (portfolio_pools (record { status_id = 0; rows = r ∷ [] }) ≡ position_of canary r ∷ [])
      × (investments_of type (r ∷ []) ≡ [])
unfolding portfolio_pools investments_of resolve_pool_type
pool_by_type-unknown r type not_aif not_cgf =
    ground (arith, eq_iff r.fund_code "AIF", eq_iff r.fund_code "CGF")
