-- ===== src/Invest/Positions.antt =====
-- The investment of a user in a fund, and the positions that Infoware answers with.
use gdl_finance_v.Base.Int.{ltb_ℤ, ◌≤ℤ◌, ℤ}
use gdl_finance_v.Pool.Portfolio.{
  to_num, resolve_pool_type, is_type, PortfolioPositionResponse, Position, PortfolioRow,
  pool_by_type, investments_of,
}
use gdl_finance_v.Invest.Withdraw.{
  active_of_customer, active_for, active_among, investment_of, best_of,
}
use gdl_finance_v.Wallet.Service.{InvestmentPoolType}
use gdl_finance_v.Base.{
  some-injective, refl, sym, str_eq, ◌==◌, subst, none, inr, [], Bool-cases, inl, true, ◌⊎◌, some,
  ◌∷◌, ◌≡◌, Option, String, List,
}
use gdl_finance_v.Invest.Entity.{Env}

-- Some entry of a list has a property.
abbrev pub Any : {A : Type 0} → (A → Type 0) → List A → Type 0
Any P [] = ⊥
Any P (x ∷ xs) = P x ⊎ Any P xs

-- A row of the fund whose market value is an amount or more.
abbrev pub Holds : InvestmentPoolType → ℤ → PortfolioRow → Type 0
Holds fund z r =
    (is_type fund (resolve_pool_type r.fund_code) ≡ true) × (z ≤ℤ to_num r.market_value)

no_position : {A : Type 0} {a : A} → none ≡ some a → ⊥
no_position h = cc

best_of-reached :
    (z : ℤ) (a : Position) (rest : List Position)
    → z ≤ℤ (best_of a rest).market_value
    → Any (λ (p : Position). z ≤ℤ p.market_value) (a ∷ rest)
unfolding best_of
best_of-reached z a [] h = inl h
best_of-reached z a (b ∷ rest) h = elim (Bool-cases (ltb_ℤ a.market_value b.market_value)) [
  | inl higher ↦ inr (best_of-reached z b rest (rw (best_of, higher) at h))
  | inr lower ↦ elim (best_of-reached z a rest (rw (best_of, lower) at h)) [
    | inl first ↦ inl first
    | inr later ↦ inr (inr later)
  ]
]

investments_of-reached :
    (fund : InvestmentPoolType) (z : ℤ) (rows : List PortfolioRow)
    → Any (λ (p : Position). z ≤ℤ p.market_value) (investments_of fund rows)
    → Any (Holds fund z) rows
unfolding investments_of
investments_of-reached fund z [] h = h
investments_of-reached fund z (r ∷ rows) h =
    elim (Bool-cases (is_type fund (resolve_pool_type r.fund_code))) [
      | inl listed ↦ elim (rw listed at h) [
        | inl first ↦ inl (listed, first)
        | inr later ↦ inr (investments_of-reached fund z rows later)
      ]
      | inr other ↦ inr (investments_of-reached fund z rows (rw other at h))
    ]

-- The positions that Infoware reports for a customer hold an amount in one row of the fund.
pub record IsReported (env : Env) (holder : Option String) (fund : InvestmentPoolType) (z : ℤ)
    : Type 0 where
  pub customer : String
  pub response : PortfolioPositionResponse
  pub held_by : holder ≡ some customer
  pub answers : env.portfolio customer ≡ some response
  pub row : Any (Holds fund z) response.rows

active_among-reached :
    (fund : InvestmentPoolType) (z : ℤ) (rows : List PortfolioRow) (ps : List Position)
    (p : Position)
    → investments_of fund rows ≡ ps
    → investment_of (active_among ps) ≡ some p
    → z ≤ℤ p.market_value
    → Any (Holds fund z) rows
active_among-reached fund z rows [] p listed found enough = absurd (no_position found)
active_among-reached fund z rows (q ∷ ps) p listed found enough =
    investments_of-reached fund z rows (
      subst (λ xs. Any (λ (x : Position). z ≤ℤ x.market_value) xs) (sym listed)
        (best_of-reached z q ps (
          subst (λ (x : Position). z ≤ℤ x.market_value)
            (sym (some-injective (best_of q ps) p found)) enough)))

active_for-reached :
    (env : Env) (fund : InvestmentPoolType) (id : String) (z : ℤ) (p : Position)
    (answer : Option PortfolioPositionResponse)
    → env.portfolio id ≡ answer
    → investment_of (active_for fund answer) ≡ some p
    → z ≤ℤ p.market_value
    → IsReported env (some id) fund z
unfolding pool_by_type
active_for-reached env fund id z p none answers found enough = absurd (no_position found)
active_for-reached env fund id z p (some response) answers found enough =
    elim (Bool-cases (response.status_id == 0)) [
      | inl fine ↦ record {
        customer = id;
        held_by = refl;
        response = response;
        answers = answers;
        row =
            active_among-reached fund z response.rows (investments_of fund response.rows) p refl
              (rw fine at found) enough;
      }
      | inr refused ↦ absurd (no_position (rw refused at found))
    ]

pub active_of_customer-reached :
    (env : Env) (fund : InvestmentPoolType) (id : Option String) (z : ℤ) (p : Position)
    → investment_of (active_of_customer env fund id) ≡ some p
    → z ≤ℤ p.market_value
    → IsReported env id fund z
active_of_customer-reached env fund none z p found enough = absurd (no_position found)
active_of_customer-reached env fund (some id) z p found enough = elim (Bool-cases (str_eq id "")) [
  | inl empty ↦ absurd (no_position (rw empty at found))
  | inr given ↦
      active_for-reached env fund id z p (env.portfolio id) refl (rw given at found) enough
]
