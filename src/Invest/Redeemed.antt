-- ===== src/Invest/Redeemed.antt =====
-- Redemptions: what one may ask for, and that each is decided once.
use gdl_finance_v.Base.{
  find_one_holds, find_one-saved, ◌==◌, find_one, inr, inl, Option-cases, ℕ, String, Option, none,
  some, true, false, List, [], ◌∷◌, ◌++◌, ◌≡◌, refl, sym, ap, ◌∙◌, subst, arith, ==_self,
}
use gdl_finance_v.Base.Int.{+ℤ_assoc, +ℤ_comm, ℤ, pos, ◌+ℤ◌, ◌≤ℤ◌, ◌<ℤ◌}
use gdl_finance_v.Base.Action.{ok, err, handle-eq-ok}
use gdl_finance_v.Wallet.Service.{InvestmentPoolType, mmf, canary, income}
use gdl_finance_v.Invest.Entity.{processing, FundRedemption, UserAccount, InvestDb, Env}
use gdl_finance_v.Invest.Store.{InvestAction, bad_request, redemptions_of, with_redemptions}
use gdl_finance_v.Invest.Redemption.{
  is_open, find_redemption, save_redemption, insert_redemption, processing_sum, new_redemption,
  approve_redemption, reject_redemption, fund_redemption, complete_row, fail_row,
  redemption_failure, fund_redemption_steps, processing_amount,
}

own_amount :
    (user_id : ℕ) (r : FundRedemption)
    → r.user_identity ≡ user_id
    → r.status ≡ processing
    → processing_amount user_id r ≡ r.amount
own_amount user_id r own opened = rw (own, opened) (rw (==_self user_id) refl)

pub processing_sum-append :
    (user_id : ℕ) (rows : List FundRedemption) (r : FundRedemption)
    → r.user_identity ≡ user_id
    → r.status ≡ processing
    → processing_sum user_id (rows ++ r ∷ []) ≡ processing_sum user_id rows +ℤ r.amount
unfolding processing_sum
processing_sum-append user_id [] r own opened =
    ap (λ p. p +ℤ pos 0) (own_amount user_id r own opened) ∙ +ℤ_comm r.amount (pos 0)
processing_sum-append user_id (x ∷ rows) r own opened =
    ap (λ s. processing_amount user_id x +ℤ s) (processing_sum-append user_id rows r own opened)
    ∙ +ℤ_assoc (processing_amount user_id x) (processing_sum user_id rows) r.amount

pub insert_redemption-ok :
    (fund : InvestmentPoolType) (x r : FundRedemption) (db db' : InvestDb)
    → insert_redemption fund x db ≡ (ok r, db')
    → (r.user_identity ≡ x.user_identity)
      × (r.amount ≡ x.amount)
      × (r.status ≡ x.status)
      × (redemptions_of fund db' ≡ redemptions_of fund db ++ r ∷ [])
      × (db'.wallets ≡ db.wallets)
unfolding insert_redemption with_redemptions redemptions_of
insert_redemption-ok mmf x r db db' h = ground arith
insert_redemption-ok canary x r db db' h = ground arith
insert_redemption-ok income x r db db' h = ground arith

-- The guards of `fundRedemption`, for a user that is found.
accepted :
    (env : Env) (user_id : ℕ) (amount : ℤ) (user : UserAccount) (r : FundRedemption)
    (db db' : InvestDb)
    → env.users user_id ≡ some user
    → fund_redemption_steps env user_id amount db ≡ (ok r, db')
    → (pos 0 <ℤ amount)
      × (processing_sum user_id db.mmf_redemptions +ℤ amount ≤ℤ env.market_value user_id)
      × (insert_redemption mmf (new_redemption env user amount) db ≡ (ok r, db'))
unfolding fund_redemption_steps
accepted env user_id amount user r db db' known h = ground arith

unknown :
    (env : Env) (user_id : ℕ) (amount : ℤ) (r : FundRedemption) (db db' : InvestDb)
    → env.users user_id ≡ none
    → fund_redemption_steps env user_id amount db ≡ (ok r, db')
    → ⊥
unfolding fund_redemption_steps
unknown env user_id amount r db db' missing h = ground arith

-- A redemption that is accepted is for a positive amount and is the only change of the table; with
-- it the redemptions of the user that are being processed do not exceed the market value of the
-- investment, and the wallets are as before. A user is found under its own id.
pub fund_redemption-within :
    (env : Env) (user_id : ℕ) (amount : ℤ) (r : FundRedemption) (db db' : InvestDb)
    → ((user : UserAccount) → env.users user_id ≡ some user → user.id ≡ user_id)
    → fund_redemption env user_id amount db ≡ (ok r, db')
    → (r.amount ≡ amount)
      × (pos 0 <ℤ amount)
      × (db'.mmf_redemptions ≡ db.mmf_redemptions ++ r ∷ [])
      × (processing_sum user_id db'.mmf_redemptions ≤ℤ env.market_value user_id)
      × (db'.wallets ≡ db.wallets)
unfolding fund_redemption new_redemption redemptions_of
fund_redemption-within env user_id amount r db db' keyed h =
    let body =
      handle-eq-ok redemption_failure (fund_redemption_steps env user_id amount db) r db' h in
    elim (Option-cases (env.users user_id)) [
      | inl missing ↦ absurd (unknown env user_id amount r db db' missing body)
      | inr (user, known) ↦
          let (positive, enough, stored) = accepted env user_id amount user r db db' known body in
          let (own, same, opened, rows, kept) =
            insert_redemption-ok mmf (new_redemption env user amount) r db db' stored in
          (
            same,
            positive,
            rows,
            subst (λ z. z ≤ℤ env.market_value user_id)
                (sym (
                  ap (processing_sum user_id) rows
                  ∙ (processing_sum-append user_id db.mmf_redemptions r (own ∙ keyed user known)
                        opened
                      ∙ ap (λ a. processing_sum user_id db.mmf_redemptions +ℤ a) same)))
                enough,
            kept,
          )
    ]

-- The decisions of an admin on a redemption.
pub data RedemptionDecision : Type 0 where
  accept : RedemptionDecision
  decline : (reason : Option String) → RedemptionDecision

unfoldable pub decide_redemption :
    RedemptionDecision → Env → InvestmentPoolType → ℕ → ℕ → InvestAction FundRedemption
decide_redemption accept env fund redemption_id admin_id =
    approve_redemption env fund redemption_id admin_id
decide_redemption (decline reason) env fund redemption_id admin_id =
    reject_redemption env fund redemption_id admin_id reason

redemptions_of-with_redemptions :
    (fund : InvestmentPoolType) (rows : List FundRedemption) (db : InvestDb)
    → redemptions_of fund (with_redemptions fund rows db) ≡ rows
unfolding with_redemptions redemptions_of
redemptions_of-with_redemptions mmf rows db = refl
redemptions_of-with_redemptions canary rows db = refl
redemptions_of-with_redemptions income rows db = refl

-- A redemption that is not being processed cannot be decided.
decided_closed :
    (d : RedemptionDecision) (env : Env) (fund : InvestmentPoolType) (redemption_id admin_id : ℕ)
    (r : FundRedemption) (db : InvestDb)
    → find_redemption fund redemption_id db ≡ some r
    → is_open r.status ≡ false
    → (m : String) × (decide_redemption d env fund redemption_id admin_id db
        ≡ (err (bad_request m), db))
unfolding decide_redemption approve_redemption reject_redemption
decided_closed accept env fund redemption_id admin_id r db found closed =
    ("Only processing redemptions can be approved", ground arith)
decided_closed (decline reason) env fund redemption_id admin_id r db found closed =
    ("Only processing redemptions can be rejected", ground arith)

-- What a decision that succeeds has saved.
decide_redemption-saved :
    (d : RedemptionDecision) (env : Env) (fund : InvestmentPoolType) (redemption_id admin_id : ℕ)
    (r : FundRedemption) (db db' : InvestDb)
    → decide_redemption d env fund redemption_id admin_id db ≡ (ok r, db')
    → (a : FundRedemption) × (find_redemption fund redemption_id db ≡ some a)
      × (r.id ≡ a.id)
      × (is_open a.status ≡ true)
      × (is_open r.status ≡ false)
      × (db' ≡ (save_redemption fund r db).1)
unfolding decide_redemption approve_redemption reject_redemption save_redemption complete_row
    fail_row
decide_redemption-saved accept env fund redemption_id admin_id r db db' h =
    elim (Option-cases (find_redemption fund redemption_id db)) [
      | inl missing ↦ absurd (ground arith)
      | inr (a, found) ↦ (a, found, ground arith, ground arith, ground arith, ground arith)
    ]
decide_redemption-saved (decline reason) env fund redemption_id admin_id r db db' h =
    elim (Option-cases (find_redemption fund redemption_id db)) [
      | inl missing ↦ absurd (ground arith)
      | inr (a, found) ↦ (a, found, ground arith, ground arith, ground arith, ground arith)
    ]

-- A redemption of any fund is decided once: after an approval or a rejection that succeeded, every
-- later one of the same redemption, by any admin, fails and changes nothing.
pub decide_redemption-once :
    (d later : RedemptionDecision) (env env' : Env) (fund : InvestmentPoolType)
    (redemption_id admin_id other_admin : ℕ) (r : FundRedemption) (db db' : InvestDb)
    → decide_redemption d env fund redemption_id admin_id db ≡ (ok r, db')
    → (find_redemption fund redemption_id db' ≡ some r)
      × (m : String) × (decide_redemption later env' fund redemption_id other_admin db'
          ≡ (err (bad_request m), db'))
unfolding save_redemption
decide_redemption-once d later env env' fund redemption_id admin_id other_admin r db db' h =
    let (a, found, same, was, closed, e) =
      decide_redemption-saved d env fund redemption_id admin_id r db db' h in
    let rows = ap (redemptions_of fund) e ∙ redemptions_of-with_redemptions fund _ db in
    let again =
      ap (find_one (λ x. x.id == redemption_id)) rows
      ∙ find_one-saved (λ (x : FundRedemption). x.id) (λ x. x.id == redemption_id) a r
          (redemptions_of fund db) found same
          (ap (λ n. n == redemption_id) same
            ∙ find_one_holds (λ x. x.id == redemption_id) a (redemptions_of fund db) found) in
    let (m, fails) = decided_closed later env' fund redemption_id other_admin r db' again closed in
    (again, m, fails)
