-- ===== src/Pool/Race.antt =====
-- Two requests on one pool at a time: the read of `update`, a whole deduction, the write of `update`.
use gdl_finance_v.Pool.Entity.{PoolDb, UserInvestmentPool}
use gdl_finance_v.Wallet.Service.{InvestmentPoolType}
use gdl_finance_v.Pool.Service.{
  deduct, deduction_audit, find_pool, deducted, PoolAction, topped_up, save_pool, update_write,
  update_read, update, Env,
}
use gdl_finance_v.Base.Action.{◌>>=◌, ◌>>◌}
use gdl_finance_v.Base.{
  refl, update_where-twice, update_where-twice, ◌==◌, update_where, ◌++◌, true, ◌≡◌, String, ℕ, [],
  ◌∷◌, none, some,
}
use gdl_finance_v.Base.Int.{◌≤ℤ◌, ◌<ℤ◌, pos, ℤ}
use gdl_finance_v.Pool.Deduction.{deduct-succeeds, after_deduction}
use gdl_finance_v.Base.Action.{ok}

-- The schedule of an update with a deduction between its two accesses.
unfoldable pub interleaved :
    Env → ℕ → InvestmentPoolType → ℤ → ℤ → String → PoolAction UserInvestmentPool
interleaved env user_id type top_up amount reference = do
  p ← update_read user_id type
  deduct env user_id type amount reference none none
  update_write top_up p

-- If a deduction that would succeed runs between the read and the write of an update of the same
-- pool, both succeed, but the row of the pool is the one that the update alone would have left,
-- while the audit of the deduction stays: the money deducted is back in the pool.
pub interleaved-loses :
    (env : Env) (user_id : ℕ) (type : InvestmentPoolType) (top_up amount : ℤ) (reference : String)
    (p : UserInvestmentPool) (db : PoolDb)
    → find_pool user_id type db ≡ some p
    → pos 0 <ℤ amount
    → amount ≤ℤ p.current_balance
    → env.audit_accepts (deduction_audit user_id reference amount none none p) ≡ true
    → (db' : PoolDb) × (interleaved env user_id type top_up amount reference db
        ≡ (ok (topped_up top_up p), db'))
      × (db'.pools ≡ (update user_id type top_up db).1.pools)
      × (db'.audits ≡ db.audits ++ deduction_audit user_id reference amount none none p ∷ [])
unfolding interleaved update update_read update_write save_pool topped_up deducted
interleaved-loses env user_id type top_up amount reference p db found positive covered taken =
    let run =
      deduct-succeeds env user_id type amount reference none none p db found positive covered
        taken in
    (
      record (after_deduction user_id amount reference none none p db) {
        pools =
            update_where (λ (q : UserInvestmentPool). q.id == p.id) (λ _. topped_up top_up p)
              (after_deduction user_id amount reference none none p db).pools;
      },
      rw (interleaved, update_read, found, run) refl,
      rw (update, update_read, found)
          (update_where-twice (λ (q : UserInvestmentPool). q.id) p.id (deducted amount p)
            (topped_up top_up p) db.pools refl refl),
      refl,
    )
