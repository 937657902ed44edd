-- ===== src/Pool/Accrual.antt =====
-- What a daily accrual does to a pool.
use gdl_finance_v.Flexi.Entity.{Admin}
use gdl_finance_v.Pool.Entity.{PoolDb, UserInvestmentPool}
use gdl_finance_v.Wallet.Service.{InvestmentPoolType}
use gdl_finance_v.Pool.Service.{
  accrual_log, find_admin, accrued, insert_accrual, save_pool, find_pool_by_id, add_daily_accrual,
}
use gdl_finance_v.Base.{
  [], ◌∷◌, ◌++◌, update_where, refl, find_one-saved, ◌==◌, find_one_holds, arith, false, ◌||◌, ◌||◌,
  ◌≡◌, ℕ, some,
}
use gdl_finance_v.Base.Int.{ltb_ℤ, ◌<ℤ◌, ◌+ℤ◌, ◌≤ℤ◌, pos, ℤ, int_laws}
use gdl_finance_v.Base.Action.{ok}

-- An accrual by a known admin with a loss above the balance and the gain succeeds, and the pool is
-- saved with a negative balance; its column `balance_with_gain_or_loss` stays as it was.
pub add_daily_accrual-overdraws :
    (pool_id admin_id : ℕ) (type : InvestmentPoolType) (gain loss : ℤ) (p : UserInvestmentPool)
    (a : Admin) (db : PoolDb)
    → find_pool_by_id pool_id db ≡ some p
    → find_admin admin_id db ≡ some a
    → pos 0 ≤ℤ gain
    → p.current_balance +ℤ gain <ℤ loss
    → pos 0 ≤ℤ loss
    → (q : UserInvestmentPool) × (db' : PoolDb) × (add_daily_accrual pool_id admin_id type gain loss
          db
        ≡ (ok (accrual_log a.staff_id type gain loss p), db'))
      × (find_pool_by_id pool_id db' ≡ some q)
      × (q.current_balance <ℤ pos 0)
      × (q.balance_with_gain_or_loss ≡ p.balance_with_gain_or_loss)
unfolding add_daily_accrual find_pool_by_id save_pool insert_accrual accrued
add_daily_accrual-overdraws pool_id admin_id type gain loss p a db found known gains over losses =
    let q = accrued gain loss p in
    let fine : (ltb_ℤ gain (pos 0) || ltb_ℤ loss (pos 0)) ≡ false = ground arith in
    let held = find_one_holds (λ (x : UserInvestmentPool). x.id == pool_id) p db.pools found in
    (
      q,
      record db {
        pools = update_where (λ (x : UserInvestmentPool). x.id == p.id) (λ _. q) db.pools;
        accruals = db.accruals ++ accrual_log a.staff_id type gain loss p ∷ [];
      },
      rw (add_daily_accrual, found, known, fine) refl,
      find_one-saved (λ (x : UserInvestmentPool). x.id)
          (λ (x : UserInvestmentPool). x.id == pool_id) p q db.pools found refl held,
      grind (int_laws),
      refl,
    )
