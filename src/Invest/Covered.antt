-- ===== src/Invest/Covered.antt =====
-- What a request that was created leaves of the balance.
use gdl_finance_v.Base.{
  inr, inl, Option-cases, ℕ, String, Option, none, some, List, [], ◌∷◌, ◌++◌, ◌≡◌, refl, sym, ap,
  ◌∙◌, subst, arith, ==_self,
}
use gdl_finance_v.Base.Int.{+ℤ_assoc, +ℤ_comm, ◌<ℤ◌, ℤ, pos, ◌+ℤ◌, ◌≤ℤ◌, int_laws}
use gdl_finance_v.Base.Action.{or_throw, ok, handle-eq-ok, resume-eq-ok}
use gdl_finance_v.Wallet.Entity.{VirtualWallet}
use gdl_finance_v.Wallet.Service.{InvestmentPoolType, mmf, find_wallet_for_investment}
use gdl_finance_v.Invest.Entity.{pending, InvestmentRequest, InvestDb, Env}
use gdl_finance_v.Invest.Store.{
  not_found, RequestError, pending_price, pending_sum, requests_of, with_requests,
  insert_investment,
}
use gdl_finance_v.Invest.Funding.{pending_liabilities, validate_user_balance}
use gdl_finance_v.Invest.Create.{
  check_new, prepare_accounts, create_failure, create_investment_request,
}
use gdl_finance_v.Invest.Accounts.{prepare-Keeps}

own_price :
    (user_id : ℕ) (r : InvestmentRequest)
    → r.user_id ≡ user_id
    → r.status ≡ pending
    → pending_price user_id none r ≡ r.price
own_price user_id r own waiting = rw (own, waiting) (rw (==_self user_id) refl)

pending_sum-append :
    (user_id : ℕ) (rows : List InvestmentRequest) (r : InvestmentRequest)
    → r.user_id ≡ user_id
    → r.status ≡ pending
    → pending_sum user_id none (rows ++ r ∷ []) ≡ pending_sum user_id none rows +ℤ r.price
unfolding pending_sum
pending_sum-append user_id [] r own waiting =
    ap (λ p. p +ℤ pos 0) (own_price user_id r own waiting) ∙ +ℤ_comm r.price (pos 0)
pending_sum-append user_id (x ∷ rows) r own waiting =
    ap (λ s. pending_price user_id none x +ℤ s) (pending_sum-append user_id rows r own waiting)
    ∙ +ℤ_assoc (pending_price user_id none x) (pending_sum user_id none rows) r.price

-- The check of the balance only reads.
pub validate_user_balance-ok :
    (env : Env) (fund : InvestmentPoolType) (user_id : ℕ) (amount : ℤ) (exclude : Option ℕ)
    (u : Unit {0}) (db db' : InvestDb)
    → validate_user_balance env fund user_id amount exclude db ≡ (ok u, db')
    → (db' ≡ db)
      × (wallet : VirtualWallet) × (find_wallet_for_investment user_id fund db.wallets
          ≡ some wallet)
      × (pending_liabilities fund user_id exclude db +ℤ amount ≤ℤ wallet.current_balance)
unfolding validate_user_balance
validate_user_balance-ok env fund user_id amount exclude u db db' h =
    elim (Option-cases (find_wallet_for_investment user_id fund db.wallets)) [
      | inl missing ↦ absurd (ground arith)
      | inr (wallet, found) ↦ (ground arith, wallet, found, ground arith)
    ]

-- The request tables are those of another database.
abbrev SameTables : InvestDb → InvestDb → Type 0
SameTables db d =
    (d.mmf_requests ≡ db.mmf_requests)
    × (d.canary_requests ≡ db.canary_requests)
    × (d.income_requests ≡ db.income_requests)

prepare_accounts-SameTables :
    (env : Env) (user_id : ℕ) (db : InvestDb) → SameTables db (prepare_accounts env user_id db).1
prepare_accounts-SameTables env user_id db =
    (prepare-Keeps (SameTables db) (λ id f d free h. h) env user_id).keep db (refl, refl, refl)

check_new-ok :
    (fund : InvestmentPoolType) (reference : String) (price : ℤ) (u : Unit {0}) (db db' : InvestDb)
    → check_new fund reference price db ≡ (ok u, db')
    → (db' ≡ db) × (pos 0 <ℤ price)
unfolding check_new
check_new-ok fund reference price u db db' h = ground arith

or_throw-ok :
    {A : Type 0} (o : Option A) (e : RequestError) (a : A) (db db' : InvestDb)
    → or_throw o e db ≡ (ok a, db')
    → db' ≡ db
or_throw-ok none e a db db' h = cc
or_throw-ok (some b) e a db db' h = cc

liabilities-append :
    (user_id : ℕ) (r : InvestmentRequest) (db db' : InvestDb)
    → r.user_id ≡ user_id
    → r.status ≡ pending
    → db'.mmf_requests ≡ db.mmf_requests ++ r ∷ []
    → db'.canary_requests ≡ db.canary_requests
    → db'.income_requests ≡ db.income_requests
    → pending_liabilities mmf user_id none db' ≡ pending_liabilities mmf user_id none db +ℤ r.price
unfolding pending_liabilities
liabilities-append user_id r db db' own waiting mmf_rows canary_rows income_rows =
    let first =
      ap (pending_sum user_id none) mmf_rows
      ∙ pending_sum-append user_id db.mmf_requests r own waiting in
    let second = ap (pending_sum user_id none) canary_rows in
    let third = ap (pending_sum user_id none) income_rows in
    rw (first, second, third) (regroup _ _ _ _)
  where
    regroup : (a b c d : ℤ) → a +ℤ d +ℤ b +ℤ c ≡ a +ℤ b +ℤ c +ℤ d
    regroup a b c d = omega int_laws

insert_mmf-ok :
    (x r : InvestmentRequest) (db db' : InvestDb)
    → insert_investment mmf x db ≡ (ok r, db')
    → (r.user_id ≡ x.user_id)
      × (r.price ≡ x.price)
      × (r.status ≡ x.status)
      × (db'.mmf_requests ≡ db.mmf_requests ++ r ∷ [])
      × (db'.canary_requests ≡ db.canary_requests)
      × (db'.income_requests ≡ db.income_requests)
unfolding insert_investment with_requests requests_of
insert_mmf-ok x r db db' h = ground arith

-- The request is inserted after its check, when only the accounts were prepared in between.
inserted :
    (user_id : ℕ) (price balance : ℤ) (x r : InvestmentRequest) (db d d' db' : InvestDb)
    → d ≡ db
    → SameTables d d'
    → pending_liabilities mmf user_id none db +ℤ price ≤ℤ balance
    → x.user_id ≡ user_id
    → x.price ≡ price
    → x.status ≡ pending
    → insert_investment mmf x d' ≡ (ok r, db')
    → (r.user_id ≡ user_id)
      × (r.price ≡ price)
      × (r.status ≡ pending)
      × (db'.mmf_requests ≡ db.mmf_requests ++ r ∷ [])
      × (pending_liabilities mmf user_id none db' ≤ℤ balance)
inserted user_id price balance x r db d d' db' same tables enough own cost waiting h =
    let (own', cost', waiting', first, second, third) = insert_mmf-ok x r d' db' h in
    let (t1, t2, t3) = subst (λ b. SameTables b d') same tables in
    let rows = first ∙ ap (λ l. l ++ r ∷ []) t1 in
    let total =
      liabilities-append user_id r db db' (own' ∙ own) (waiting' ∙ waiting) rows (second ∙ t2)
        (third ∙ t3) in
    (
      own' ∙ own,
      cost' ∙ cost,
      waiting' ∙ waiting,
      rows,
      subst (λ z. z ≤ℤ balance)
          (sym (total ∙ ap (λ p. pending_liabilities mmf user_id none db +ℤ p) (cost' ∙ cost)))
          enough,
    )

-- A request that is created is pending, for the price that was asked, and is the only change of the
-- request tables; the price is positive, and with it the pending requests of the user in all three
-- funds do not exceed the balance of the user's wallet for the MMF.
pub create_investment_request-covered :
    (env : Env) (user_id : ℕ) (price : ℤ) (r : InvestmentRequest) (db db' : InvestDb)
    → create_investment_request env user_id price db ≡ (ok r, db')
    → (r.user_id ≡ user_id)
      × (r.price ≡ price)
      × (r.status ≡ pending)
      × (pos 0 <ℤ price)
      × (db'.mmf_requests ≡ db.mmf_requests ++ r ∷ [])
      × (wallet : VirtualWallet) × (find_wallet_for_investment user_id mmf db.wallets ≡ some wallet)
      × (pending_liabilities mmf user_id none db' ≤ℤ wallet.current_balance)
unfolding create_investment_request
create_investment_request-covered env user_id price r db db' h =
    let body = handle-eq-ok create_failure _ r db' h in
    let (u0, d1, e1, h1) = resume-eq-ok _ (check_new mmf _ price db) r db' body in
    let (s1, positive) = check_new-ok mmf _ price u0 db d1 e1 in
    let (user, d2, e2, h2) =
      resume-eq-ok _ (or_throw (env.users user_id) (not_found "User not found") d1) r db' h1 in
    let s2 = or_throw-ok (env.users user_id) (not_found "User not found") user d1 d2 e2 in
    let (u1, d3, e3, h3) =
      resume-eq-ok _ (validate_user_balance env mmf user_id price none d2) r db' h2 in
    let (s3, wallet, found, enough) =
      validate_user_balance-ok env mmf user_id price none u1 d2 d3 e3 in
    let (u2, d4, e4, h4) = resume-eq-ok _ (prepare_accounts env user_id d3) r db' h3 in
    let before = s2 ∙ s1 in
    let (own, cost, waiting, rows, total) =
      inserted user_id price wallet.current_balance _ r db d3 d4 db' (s3 ∙ before)
        (subst (SameTables d3) (ap (λ p. p.1) e4) (prepare_accounts-SameTables env user_id d3))
        (subst (λ d. pending_liabilities mmf user_id none d +ℤ price ≤ℤ wallet.current_balance)
          before enough)
        refl refl refl h4 in
    (
      own,
      cost,
      waiting,
      positive,
      rows,
      wallet,
      ap (λ (d : InvestDb). find_wallet_for_investment user_id mmf d.wallets) (sym before) ∙ found,
      total,
    )
