-- ===== src/Pool/Deduction.antt =====
-- What a deduction from a pool does.
use gdl_finance_v.Pool.Entity.{TransactionAudit, UserInvestmentPool, PoolDb}
use gdl_finance_v.Wallet.Service.{InvestmentPoolType}
use gdl_finance_v.Pool.Service.{
  same_type, insufficient_balance, deduction_audit, record_success, save_pool, deducted,
  deduct_steps, find_pool, deduct, PoolError, Env,
}
use gdl_finance_v.Base.{
  find_one-saved, find_one_holds, ◌&&◌, refl, arith, false, true, ◌++◌, ◌==◌, not, update_where,
  Bool-cases, Option, ◌≡◌, String, ℕ, [], ◌∷◌, some, inl, inr,
}
use gdl_finance_v.Base.Int.{int_laws, ◌+ℤ◌, ◌≤ℤ◌, ◌<ℤ◌, pos, ltb_ℤ, ℤ}
use gdl_finance_v.Base.Action.{rollback, ok, err, Result}

-- The tables after a deduction from the pool `p`.
abbrev pub after_deduction :
    ℕ → ℤ → String → Option String → Option String → UserInvestmentPool → PoolDb → PoolDb
after_deduction user_id amount reference related meta p db = record db {
  pools = update_where (λ (q : UserInvestmentPool). q.id == p.id) (λ _. deducted amount p) db.pools;
  audits = db.audits ++ deduction_audit user_id reference amount related meta p ∷ [];
}

module _ (env : Env) (user_id : ℕ) (type : InvestmentPoolType) (amount : ℤ) (reference : String)
    (related meta : Option String) (p : UserInvestmentPool) (db : PoolDb)
    (found : find_pool user_id type db ≡ some p) where
  -- The run of a deduction of a positive amount, at most the balance, of which the audit table takes
  -- the row.
  pub deduct-succeeds :
      pos 0 <ℤ amount
      → amount ≤ℤ p.current_balance
      → env.audit_accepts (deduction_audit user_id reference amount related meta p) ≡ true
      → deduct env user_id type amount reference related meta db
        ≡ (ok (deducted amount p), after_deduction user_id amount reference related meta p db)
  unfolding deduct deduct_steps save_pool record_success deducted
  deduct-succeeds positive covered taken =
      let valid : not (ltb_ℤ (pos 0) amount) ≡ false = ground arith in
      let enough : ltb_ℤ p.current_balance amount ≡ false = ground arith in
      rw (deduct, valid, deduct_steps, found, enough, record_success, taken) refl

  -- A deduction of more than the balance is refused.
  pub deduct-insufficient :
      pos 0 <ℤ amount
      → p.current_balance <ℤ amount
      → deduct env user_id type amount reference related meta db ≡ (err insufficient_balance, db)
  unfolding deduct deduct_steps
  deduct-insufficient positive short =
      let valid : not (ltb_ℤ (pos 0) amount) ≡ false = ground arith in
      let low : ltb_ℤ p.current_balance amount ≡ true = ground arith in
      rw (deduct, valid, deduct_steps, found, low) refl

-- A pool that is saved with its user and type is found again.
find_pool-save_pool :
    (user_id : ℕ) (type : InvestmentPoolType) (p q : UserInvestmentPool) (db : PoolDb)
    → find_pool user_id type db ≡ some p
    → q.id ≡ p.id
    → q.user_id ≡ p.user_id
    → q.type ≡ p.type
    → find_pool user_id type (save_pool q db).1 ≡ some q
unfolding find_pool save_pool
find_pool-save_pool user_id type p q db found same owner kind =
    let fit = λ (x : UserInvestmentPool). x.user_id == user_id && same_type x.type type in
    let fits : fit q ≡ true = rw (owner, kind) (find_one_holds fit p db.pools found) in
    find_one-saved (λ (x : UserInvestmentPool). x.id) fit p q db.pools found same fits

-- A deduction of a positive amount, at most the balance, of which the audit table takes the row,
-- succeeds. The first pool of the user and the type is found again with the amount taken off its
-- balance, which is not negative, and added to what was redeemed, and with nothing else changed; no
-- row with another id changes. The audit has one more row, with the user, the reference and the
-- amount, the balance that the pool had and the one that it has.
pub deduct_settles :
    (env : Env) (user_id : ℕ) (type : InvestmentPoolType) (amount : ℤ) (reference : String)
    (related meta : Option String) (p : UserInvestmentPool) (db : PoolDb)
    → find_pool user_id type db ≡ some p
    → pos 0 <ℤ amount
    → amount ≤ℤ p.current_balance
    → env.audit_accepts (deduction_audit user_id reference amount related meta p) ≡ true
    → (q : UserInvestmentPool) × (a : TransactionAudit) × (db' : PoolDb) × (deduct env user_id type
          amount reference related meta db
        ≡ (ok q, db'))
      × (find_pool user_id type db' ≡ some q)
      × (q.current_balance +ℤ amount ≡ p.current_balance)
      × (pos 0 ≤ℤ q.current_balance)
      × (q ≡ record p {
        current_balance = q.current_balance;
        total_redeemed = p.total_redeemed +ℤ amount;
      })
      × (db'.pools ≡ update_where (λ (x : UserInvestmentPool). x.id == p.id) (λ _. q) db.pools)
      × (db'.audits ≡ db.audits ++ a ∷ [])
      × (a.user_id ≡ user_id)
      × (a.reference ≡ reference)
      × (a.amount ≡ amount)
      × (a.balance_before ≡ p.current_balance)
      × (a.balance_after ≡ q.current_balance)
unfolding deducted deduction_audit save_pool find_pool
deduct_settles env user_id type amount reference related meta p db found positive covered taken =
    let q = deducted amount p in
    let back : q.current_balance +ℤ amount ≡ p.current_balance = omega int_laws in
    (
      q,
      deduction_audit user_id reference amount related meta p,
      after_deduction user_id amount reference related meta p db,
      deduct-succeeds env user_id type amount reference related meta p db found positive covered
          taken,
      find_pool-save_pool user_id type p q db found refl refl refl,
      back,
      omega int_laws,
      refl,
      refl,
      refl,
      refl,
      refl,
      refl,
      refl,
      refl,
    )

-- A database transaction that fails leaves the tables as they were.
rollback-unchanged :
    {A : Type 0} (e : PoolError) (db db' : PoolDb) (r : Result PoolError A × PoolDb)
    → rollback db r ≡ (err e, db')
    → db' ≡ db
rollback-unchanged e db db' (ok a, s) h = cc
rollback-unchanged e db db' (err x, s) h = cc

-- A deduction that ends in an error, also one whose audit fails after the pool was saved, changes
-- nothing.
pub deduct-unchanged :
    (env : Env) (user_id : ℕ) (type : InvestmentPoolType) (amount : ℤ) (reference : String)
    (related meta : Option String) (e : PoolError) (db db' : PoolDb)
    → deduct env user_id type amount reference related meta db ≡ (err e, db')
    → db' ≡ db
unfolding deduct
deduct-unchanged env user_id type amount reference related meta e db db' h =
    elim (Bool-cases (not (ltb_ℤ (pos 0) amount))) [
      | inl invalid ↦ let failed = rw (deduct, invalid) at h in cc
      | inr valid ↦
          rollback-unchanged e db db'
            (deduct_steps env user_id type amount reference related meta db)
            (rw (deduct, valid) at h)
    ]
