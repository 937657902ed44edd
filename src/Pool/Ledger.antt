-- ===== src/Pool/Ledger.antt =====
-- The figures of a pool agree with each other, and stay so.
use gdl_finance_v.Wallet.Service.{InvestmentPoolType}
use gdl_finance_v.Pool.Service.{
  same_type, find_admin, deduction_audit, insert_accrual, update_write, PoolError, insert_pool,
  find_pool_by_id, update_read, deduct_steps, record_success, find_or_insert, find_pool, save_pool,
  add_daily_accrual, update, deduct, create, new_pool, accrued, topped_up, deducted, Env,
}
use gdl_finance_v.Pool.Entity.{
  TransactionAudit, CreateInvestmentPool2Dto, PoolDb, UserInvestmentPool,
}
use gdl_finance_v.Base.{
  ◌||◌, All-append, ◌&&◌, All-find_one, ◌==◌, not, Option-cases, Bool-cases, Option, update_where,
  String, Bool, List, All, ◌≡◌, ℕ, [], ◌∷◌, some, inl, inr,
}
use gdl_finance_v.Base.Int.{pos, ltb_ℤ, ◌+ℤ◌, ◌-ℤ◌, ℤ, int_laws}
use gdl_finance_v.Base.Action.{pure, resume, Result, rollback-keeps, ok, err}

-- The balance is what was invested, less what was redeemed, and the gains less the losses.
abbrev pub Reconciled : UserInvestmentPool → Type 0
Reconciled p =
    p.current_balance ≡ (p.total_invested -ℤ p.total_redeemed) +ℤ (p.accrued_gain -ℤ p.accrued_loss)

abbrev pub IsReconciled : PoolDb → Type 0
IsReconciled db = All Reconciled db.pools

-- One call of a client. The interleaving of two calls is the subject of `Pool/Race`.
pub data Call : Type 0 where
  call_create : ℕ → CreateInvestmentPool2Dto → Call
  call_deduct : ℕ → InvestmentPoolType → ℤ → String → Option String → Option String → Call
  call_update : ℕ → InvestmentPoolType → ℤ → Call
  call_accrue : ℕ → ℕ → InvestmentPoolType → ℤ → ℤ → Call

unfoldable pub perform : Env → Call → PoolDb → PoolDb
perform env (call_create user_id dto) db = (create user_id dto db).1
perform env (call_deduct user_id type amount reference related meta) db =
    (deduct env user_id type amount reference related meta db).1
perform env (call_update user_id type amount) db = (update user_id type amount db).1
perform env (call_accrue pool_id admin_id type gain loss) db =
    (add_daily_accrual pool_id admin_id type gain loss db).1

unfoldable pub run : Env → List Call → PoolDb → PoolDb
run env [] db = db
run env (c ∷ cs) db = run env cs (perform env c db)

All-update_where :
    (P : UserInvestmentPool → Type 0) (test : UserInvestmentPool → Bool) (p : UserInvestmentPool)
    (ps : List UserInvestmentPool)
    → P p
    → All P ps
    → All P (update_where test (λ _. p) ps)
All-update_where P test p [] h hs = tt
All-update_where P test p (q ∷ ps) h hs = elim (Bool-cases (test q)) [
  | inl hit ↦ rw hit (h, All-update_where P test p ps h hs.1)
  | inr miss ↦ rw miss (hs.0, All-update_where P test p ps h hs.1)
]

deducted-Reconciled :
    (amount : ℤ) (p : UserInvestmentPool) → Reconciled p → Reconciled (deducted amount p)
unfolding deducted
deducted-Reconciled amount p h = grind (int_laws)

topped_up-Reconciled :
    (amount : ℤ) (p : UserInvestmentPool) → Reconciled p → Reconciled (topped_up amount p)
unfolding topped_up
topped_up-Reconciled amount p h = grind (int_laws)

accrued-Reconciled :
    (gain loss : ℤ) (p : UserInvestmentPool) → Reconciled p → Reconciled (accrued gain loss p)
unfolding accrued
accrued-Reconciled gain loss p h = grind (int_laws)

new_pool-Reconciled :
    (id user_id : ℕ) (type : InvestmentPoolType) (dto : CreateInvestmentPool2Dto)
    → Reconciled (new_pool id user_id type dto)
unfolding new_pool
new_pool-Reconciled id user_id type dto = grind (int_laws)

-- A row that is saved.
save_pool-IsReconciled :
    (p : UserInvestmentPool) (db : PoolDb)
    → Reconciled p
    → IsReconciled db
    → IsReconciled (save_pool p db).1
unfolding save_pool
save_pool-IsReconciled p db h hs =
    All-update_where Reconciled (λ (q : UserInvestmentPool). q.id == p.id) p db.pools h hs

found-Reconciled :
    (user_id : ℕ) (type : InvestmentPoolType) (p : UserInvestmentPool) (db : PoolDb)
    → find_pool user_id type db ≡ some p
    → IsReconciled db
    → Reconciled p
unfolding find_pool
found-Reconciled user_id type p db found hs =
    All-find_one Reconciled
      (λ (q : UserInvestmentPool). q.user_id == user_id && same_type q.type type) p db.pools hs
      found

find_or_insert-IsReconciled :
    (user_id : ℕ) (type : InvestmentPoolType) (dto : CreateInvestmentPool2Dto) (db : PoolDb)
    → IsReconciled db
    → IsReconciled (find_or_insert user_id type dto db).1
unfolding find_or_insert insert_pool
find_or_insert-IsReconciled user_id type dto db hs =
    elim (Option-cases (find_pool user_id type db)) [
      | inl missing ↦
          let p = new_pool db.next_pool_id user_id type dto in
          rw (find_or_insert, missing)
            (All-append Reconciled db.pools (p ∷ []) hs
              (new_pool-Reconciled db.next_pool_id user_id type dto, tt))
      | inr (p, found) ↦ rw (find_or_insert, found) hs
    ]

create-IsReconciled :
    (user_id : ℕ) (dto : CreateInvestmentPool2Dto) (db : PoolDb)
    → IsReconciled db
    → IsReconciled (create user_id dto db).1
unfolding create find_or_insert new_pool
create-IsReconciled user_id dto db hs = elim (Option-cases dto.pool_type) [
  | inl missing ↦ rw (create, missing) hs
  | inr (type, given) ↦ elim (Bool-cases (user_id == 0)) [
    | inl nobody ↦ rw (create, given, nobody) hs
    | inr known ↦
        rw (create, given, known)
          (rollback-keeps IsReconciled db (find_or_insert user_id type dto db) hs
            (find_or_insert-IsReconciled user_id type dto db hs))
  ]
]

record_success-IsReconciled :
    (env : Env) (audit : TransactionAudit) (db : PoolDb)
    → IsReconciled db
    → IsReconciled (record_success env audit db).1
unfolding record_success
record_success-IsReconciled env audit db hs = elim (Bool-cases (env.audit_accepts audit)) [
  | inl taken ↦ rw (record_success, taken) hs
  | inr refused ↦ rw (record_success, refused) hs
]

-- A method that ends with the audit.
resume-IsReconciled :
    (p : UserInvestmentPool) (r : Result PoolError (Unit {0}) × PoolDb)
    → IsReconciled r.1
    → IsReconciled (resume (λ _. pure p) r).1
resume-IsReconciled p (ok a, db) hs = hs
resume-IsReconciled p (err e, db) hs = hs

deduct_steps-IsReconciled :
    (env : Env) (user_id : ℕ) (type : InvestmentPoolType) (amount : ℤ) (reference : String)
    (related meta : Option String) (db : PoolDb)
    → IsReconciled db
    → IsReconciled (deduct_steps env user_id type amount reference related meta db).1
unfolding deduct_steps save_pool record_success
deduct_steps-IsReconciled env user_id type amount reference related meta db hs =
    elim (Option-cases (find_pool user_id type db)) [
      | inl missing ↦ rw (deduct_steps, missing) hs
      | inr (p, found) ↦ elim (Bool-cases (ltb_ℤ p.current_balance amount)) [
        | inl short ↦ rw (deduct_steps, found, short) hs
        | inr enough ↦
            let q = deducted amount p in
            let saved =
              save_pool-IsReconciled q db
                (deducted-Reconciled amount p (found-Reconciled user_id type p db found hs)) hs in
            let audit = deduction_audit user_id reference amount related meta p in
            rw (deduct_steps, found, enough)
              (resume-IsReconciled q (record_success env audit (save_pool q db).1)
                (record_success-IsReconciled env audit (save_pool q db).1 saved))
      ]
    ]

deduct-IsReconciled :
    (env : Env) (user_id : ℕ) (type : InvestmentPoolType) (amount : ℤ) (reference : String)
    (related meta : Option String) (db : PoolDb)
    → IsReconciled db
    → IsReconciled (deduct env user_id type amount reference related meta db).1
unfolding deduct
deduct-IsReconciled env user_id type amount reference related meta db hs =
    elim (Bool-cases (not (ltb_ℤ (pos 0) amount))) [
      | inl invalid ↦ rw (deduct, invalid) hs
      | inr valid ↦
          rw (deduct, valid)
            (rollback-keeps IsReconciled db
              (deduct_steps env user_id type amount reference related meta db) hs
              (deduct_steps-IsReconciled env user_id type amount reference related meta db hs))
    ]

update-IsReconciled :
    (user_id : ℕ) (type : InvestmentPoolType) (amount : ℤ) (db : PoolDb)
    → IsReconciled db
    → IsReconciled (update user_id type amount db).1
unfolding update update_read update_write
update-IsReconciled user_id type amount db hs = elim (Option-cases (find_pool user_id type db)) [
  | inl missing ↦ rw (update, update_read, missing) hs
  | inr (p, found) ↦
      rw (update, update_read, found)
        (save_pool-IsReconciled (topped_up amount p) db
          (topped_up-Reconciled amount p (found-Reconciled user_id type p db found hs)) hs)
]

accrue-IsReconciled :
    (pool_id admin_id : ℕ) (type : InvestmentPoolType) (gain loss : ℤ) (db : PoolDb)
    → IsReconciled db
    → IsReconciled (add_daily_accrual pool_id admin_id type gain loss db).1
unfolding add_daily_accrual find_pool_by_id insert_accrual save_pool
accrue-IsReconciled pool_id admin_id type gain loss db hs =
    elim (Option-cases (find_pool_by_id pool_id db)) [
      | inl missing ↦ rw (add_daily_accrual, missing) hs
      | inr (p, found) ↦ elim (Option-cases (find_admin admin_id db)) [
        | inl missing ↦ rw (add_daily_accrual, found, missing) hs
        | inr (a, known) ↦ elim (Bool-cases (ltb_ℤ gain (pos 0) || ltb_ℤ loss (pos 0))) [
          | inl negative ↦ rw (add_daily_accrual, found, known, negative) hs
          | inr positive ↦
              let before =
                All-find_one Reconciled (λ (q : UserInvestmentPool). q.id == pool_id) p db.pools hs
                  found in
              rw (add_daily_accrual, found, known, positive)
                (save_pool-IsReconciled (accrued gain loss p) db
                  (accrued-Reconciled gain loss p before) hs)
        ]
      ]
    ]

-- Any sequence of calls, whether they succeed or fail, keeps the balance of every pool equal to
-- what was invested less what was redeemed, and the gains less the losses.
pub run-IsReconciled :
    (env : Env) (calls : List Call) (db : PoolDb)
    → IsReconciled db
    → IsReconciled (run env calls db)
unfolding run perform
run-IsReconciled env [] db hs = hs
run-IsReconciled env (call_create user_id dto ∷ cs) db hs =
    run-IsReconciled env cs (create user_id dto db).1 (create-IsReconciled user_id dto db hs)
run-IsReconciled env (call_deduct user_id type amount reference related meta ∷ cs) db hs =
    run-IsReconciled env cs (deduct env user_id type amount reference related meta db).1
      (deduct-IsReconciled env user_id type amount reference related meta db hs)
run-IsReconciled env (call_update user_id type amount ∷ cs) db hs =
    run-IsReconciled env cs (update user_id type amount db).1
      (update-IsReconciled user_id type amount db hs)
run-IsReconciled env (call_accrue pool_id admin_id type gain loss ∷ cs) db hs =
    run-IsReconciled env cs (add_daily_accrual pool_id admin_id type gain loss db).1
      (accrue-IsReconciled pool_id admin_id type gain loss db hs)
