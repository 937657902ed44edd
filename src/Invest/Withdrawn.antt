-- ===== src/Invest/Withdrawn.antt =====
-- What one may ask for of the Canary and Income funds, against the positions that Infoware answers.
use gdl_finance_v.Invest.Redeemed.{processing_sum-append, insert_redemption-ok}
use gdl_finance_v.Invest.Store.{redemptions_of}
use gdl_finance_v.Invest.Redemption.{insert_redemption, processing_sum}
use gdl_finance_v.Base.Action.{Result-cases, handle-eq-ok, err, ok}
use gdl_finance_v.Wallet.Entity.{VirtualWallet}
use gdl_finance_v.Base.Int.{◌+ℤ◌, ◌≤ℤ◌, ℤ}
use gdl_finance_v.Pool.Portfolio.{Position}
use gdl_finance_v.Invest.Withdraw.{
  withdrawal_failure, withdraw, first_customer, new_withdrawal, fund_code_of,
  get_user_total_active_investment_amount, withdraw_steps, investment_of,
}
use gdl_finance_v.Wallet.Service.{find_wallet_for_investment, InvestmentPoolType}
use gdl_finance_v.Base.{
  Option-cases, ◌∙◌, ap, ◌++◌, arith, ℕ, sym, subst, none, inr, [], inl, some, ◌∷◌, ◌≡◌, String,
}
use gdl_finance_v.Invest.Entity.{UserAccount, InvestDb, FundRedemption, RedemptionAnswer, Env}
use gdl_finance_v.Invest.Positions.{IsReported, active_of_customer-reached}

module _ (env : Env) (fund : InvestmentPoolType) (user_id : ℕ) (amount : ℤ) (r : FundRedemption)
    (db db' : InvestDb) where
  no_user : env.users user_id ≡ none → withdraw_steps env fund user_id amount db ≡ (ok r, db') → ⊥
  unfolding withdraw_steps
  no_user missing h = ground arith

  no_wallet :
      (user : UserAccount)
      → env.users user_id ≡ some user
      → find_wallet_for_investment user_id fund db.wallets ≡ none
      → withdraw_steps env fund user_id amount db ≡ (ok r, db')
      → ⊥
  unfolding withdraw_steps
  no_wallet user known missing h = ground arith

  no_investment :
      (user : UserAccount) (wallet : VirtualWallet)
      → env.users user_id ≡ some user
      → find_wallet_for_investment user_id fund db.wallets ≡ some wallet
      → investment_of (get_user_total_active_investment_amount env fund user_id db) ≡ none
      → withdraw_steps env fund user_id amount db ≡ (ok r, db')
      → ⊥
  unfolding withdraw_steps
  no_investment user wallet known owned missing h = ground arith

  -- Where Infoware refuses, nothing is accepted.
  no_answer :
      (user : UserAccount) (wallet : VirtualWallet) (p : Position) (m : String)
      → env.users user_id ≡ some user
      → find_wallet_for_investment user_id fund db.wallets ≡ some wallet
      → investment_of (get_user_total_active_investment_amount env fund user_id db) ≡ some p
      → env.redeem wallet.encrypted_infoware_customer_id (fund_code_of fund) amount ≡ err m
      → withdraw_steps env fund user_id amount db ≡ (ok r, db')
      → ⊥
  unfolding withdraw_steps
  no_answer user wallet p m known owned held refused h = ground arith

  -- The guards of `fundRedemption`, where the user, the wallet and the investment are found and
  -- Infoware answers.
  accepted :
      (user : UserAccount) (wallet : VirtualWallet) (p : Position) (answer : RedemptionAnswer)
      → env.users user_id ≡ some user
      → find_wallet_for_investment user_id fund db.wallets ≡ some wallet
      → investment_of (get_user_total_active_investment_amount env fund user_id db) ≡ some p
      → env.redeem wallet.encrypted_infoware_customer_id (fund_code_of fund) amount ≡ ok answer
      → withdraw_steps env fund user_id amount db ≡ (ok r, db')
      → (processing_sum user_id (redemptions_of fund db) +ℤ amount ≤ℤ p.market_value)
        × (insert_redemption fund (new_withdrawal env fund user answer amount) db ≡ (ok r, db'))
  unfolding withdraw_steps
  accepted user wallet p answer known owned held answers h = ground arith

-- What a redemption that is accepted has gone through, and what it leaves.
pub record IsWithdrawn (env : Env) (fund : InvestmentPoolType) (user_id : ℕ) (amount : ℤ)
    (r : FundRedemption) (db db' : InvestDb) : Type 0 where
  pub wallet : VirtualWallet
  pub answer : RedemptionAnswer
  pub owned : find_wallet_for_investment user_id fund db.wallets ≡ some wallet
  pub redeemed :
      env.redeem wallet.encrypted_infoware_customer_id (fund_code_of fund) amount ≡ ok answer
  pub same : r.amount ≡ amount
  pub rows : redemptions_of fund db' ≡ redemptions_of fund db ++ r ∷ []
  pub within :
      IsReported env
        (first_customer user_id db)
        fund
        (processing_sum user_id (redemptions_of fund db'))
  pub kept : db'.wallets ≡ db.wallets

sum_after :
    (env : Env) (fund : InvestmentPoolType) (user_id : ℕ) (amount : ℤ) (user : UserAccount)
    (answer : RedemptionAnswer) (r : FundRedemption) (db db' : InvestDb)
    → user.id ≡ user_id
    → insert_redemption fund (new_withdrawal env fund user answer amount) db ≡ (ok r, db')
    → (r.amount ≡ amount)
      × (redemptions_of fund db' ≡ redemptions_of fund db ++ r ∷ [])
      × (processing_sum user_id (redemptions_of fund db')
          ≡ processing_sum user_id (redemptions_of fund db) +ℤ amount)
      × (db'.wallets ≡ db.wallets)
unfolding new_withdrawal
sum_after env fund user_id amount user answer r db db' keyed stored =
    let (own, same, opened, rows, kept) =
      insert_redemption-ok fund (new_withdrawal env fund user answer amount) r db db' stored in
    (
      same,
      rows,
      ap (processing_sum user_id) rows
          ∙ (processing_sum-append user_id (redemptions_of fund db) r (own ∙ keyed) opened
              ∙ ap (λ a. processing_sum user_id (redemptions_of fund db) +ℤ a) same),
      kept,
    )

stored :
    (env : Env) (fund : InvestmentPoolType) (user_id : ℕ) (amount : ℤ) (r : FundRedemption)
    (db db' : InvestDb) (user : UserAccount) (wallet : VirtualWallet) (p : Position)
    (answer : RedemptionAnswer)
    → user.id ≡ user_id
    → env.users user_id ≡ some user
    → find_wallet_for_investment user_id fund db.wallets ≡ some wallet
    → investment_of (get_user_total_active_investment_amount env fund user_id db) ≡ some p
    → env.redeem wallet.encrypted_infoware_customer_id (fund_code_of fund) amount ≡ ok answer
    → withdraw_steps env fund user_id amount db ≡ (ok r, db')
    → IsWithdrawn env fund user_id amount r db db'
unfolding get_user_total_active_investment_amount
stored env fund user_id amount r db db' user wallet p answer keyed known owned held answers h =
    let (enough, saved) =
      accepted env fund user_id amount r db db' user wallet p answer known owned held answers h in
    let (same, rows, total, kept) =
      sum_after env fund user_id amount user answer r db db' keyed saved in
    record {
      wallet = wallet;
      answer = answer;
      owned = owned;
      redeemed = answers;
      same = same;
      rows = rows;
      within =
          active_of_customer-reached env fund (first_customer user_id db)
            (processing_sum user_id (redemptions_of fund db')) p held
            (subst (λ z. z ≤ℤ p.market_value) (sym total) enough);
      kept = kept;
    }

-- A redemption of the Canary or the Income fund that is accepted has been carried out by Infoware,
-- for the customer of the wallet for the fund, and is the only change of its table; with it the
-- redemptions of the user that are being processed do not exceed the market value of one row of the
-- fund that Infoware reports for the customer of the user's first wallet. The wallets are as before.
-- A user is found under its own id.
pub withdraw-within :
    (env : Env) (fund : InvestmentPoolType) (user_id : ℕ) (amount : ℤ) (r : FundRedemption)
    (db db' : InvestDb)
    → ((user : UserAccount) → env.users user_id ≡ some user → user.id ≡ user_id)
    → withdraw env fund user_id amount db ≡ (ok r, db')
    → IsWithdrawn env fund user_id amount r db db'
unfolding withdraw
withdraw-within env fund user_id amount r db db' keyed done =
    let h =
      handle-eq-ok (withdrawal_failure fund) (withdraw_steps env fund user_id amount db) r db'
        done in
    elim (Option-cases (env.users user_id)) [
      | inl missing ↦ absurd (no_user env fund user_id amount r db db' missing h)
      | inr (user, known) ↦
          elim (Option-cases (find_wallet_for_investment user_id fund db.wallets)) [
            | inl missing ↦ absurd (no_wallet env fund user_id amount r db db' user known missing h)
            | inr (wallet, owned) ↦
                elim (Option-cases
                  (investment_of (get_user_total_active_investment_amount env fund user_id db))) [
                    | inl missing ↦ absurd (
                        no_investment env fund user_id amount r db db' user wallet known owned
                          missing h)
                    | inr (p, held) ↦
                        elim (Result-cases (
                          env.redeem wallet.encrypted_infoware_customer_id (fund_code_of fund)
                            amount)) [
                              | inl (m, refused) ↦ absurd (
                                  no_answer env fund user_id amount r db db' user wallet p m known
                                    owned held refused h)
                              | inr (answer, answers) ↦
                                  stored env fund user_id amount r db db' user wallet p answer
                                    (keyed user known) known owned held answers h
                            ]
                  ]
          ]
    ]
