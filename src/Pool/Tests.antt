-- ===== src/Pool/Tests.antt =====
-- Runs of the pool operations on a table with one pool.
use gdl_finance_v.Pool.Deduction.{deduct_settles}
use gdl_finance_v.Pool.Race.{interleaved-loses, interleaved}
use gdl_finance_v.Pool.Portfolio.{
  pool_by_type-unknown, investments_of, position_of, PortfolioRow, portfolio_pools,
  PortfolioPositionResponse,
}
use gdl_finance_v.Base.Int.{◌≤ℤ◌, negsuc, ◌-ℤ◌, pos, ◌+ℤ◌}
use gdl_finance_v.Pool.Service.{deduction_audit, update, topped_up, deduct, find_pool, Env}
use gdl_finance_v.Flexi.Entity.{Admin}
use gdl_finance_v.Base.{
  ◌==◌, update_where, arith, refl, ◌≡◌, String, List, [], ◌∷◌, none, some, true, false,
}
use gdl_finance_v.Base.Action.{ok}
use gdl_finance_v.Wallet.Service.{canary}
use gdl_finance_v.Flexi.Entity.{UserAccountStatus}
use gdl_finance_v.Base.{eq_iff, str_eq}
use gdl_finance_v.Pool.Entity.{TransactionAudit, PoolDb, UserInvestmentPool, active}
use gdl_finance_v.Pool.Account.{move_all-Shows, move_all, Shows, replay, draw, add}
use gdl_finance_v.Pool.Ledger.{
  run-IsReconciled, run, IsReconciled, Call, call_deduct, call_update, call_accrue,
}

abbrev officer : Admin
officer = record {
  staff_id = 11;
  staff_email = "admin@gdl.test";
  branch_id = none;
  account_status = UserAccountStatus.active;
  is_deleted = false;
}

abbrev pool : UserInvestmentPool
pool = record {
  id = 1;
  user_id = 9;
  type = canary;
  total_invested = pos 1000;
  total_redeemed = pos 0;
  current_balance = pos 1000;
  status = active;
  is_visible = true;
  accrued_gain = pos 0;
  accrued_loss = pos 0;
  balance_with_gain_or_loss = pos 1000;
  yield_rate = 0;
  nav = 0;
  description = none;
}

abbrev start : PoolDb
start = record {
  admins = officer ∷ [];
  pools = pool ∷ [];
  audits = [];
  accruals = [];
  next_pool_id = 2;
}

abbrev env : Env
env = record { audit_accepts = λ _. true }

abbrev calls : List Call
calls =
    call_deduct 9 canary (pos 400) "ref-1" none none
    ∷ call_update 9 canary (pos 50)
    ∷ call_accrue 1 11 canary (pos 5) (pos 700)
    ∷ []

run-IsReconciled_example : IsReconciled (run env calls start)
unfolding ◌+ℤ◌ ◌-ℤ◌
run-IsReconciled_example = run-IsReconciled env calls start (refl, tt)

move_all-Shows_example :
    Shows env 9 canary
      (move_all env 9 canary
        (draw (pos 400) "ref-1" ∷ draw (pos 700) "ref-2" ∷ add (pos 50) ∷ [])
        start)
      (pos 650)
unfolding find_pool replay ◌+ℤ◌ ◌-ℤ◌
move_all-Shows_example =
    move_all-Shows env 9 canary (λ t. refl)
      (draw (pos 400) "ref-1" ∷ draw (pos 700) "ref-2" ∷ add (pos 50) ∷ []) pool start refl

deduct_settles_example :
    (q : UserInvestmentPool) × (a : TransactionAudit) × (db' : PoolDb) × (deduct env 9 canary
        (pos 400)
        "ref-1"
        none
        none
        start
      ≡ (ok q, db'))
    × (find_pool 9 canary db' ≡ some q)
    × (q.current_balance +ℤ pos 400 ≡ pos 1000)
    × (pos 0 ≤ℤ q.current_balance)
    × (q ≡ record pool {
      current_balance = q.current_balance;
      total_redeemed = pool.total_redeemed +ℤ pos 400;
    })
    × (db'.pools ≡ update_where (λ (x : UserInvestmentPool). x.id == 1) (λ _. q) start.pools)
    × (db'.audits ≡ a ∷ [])
    × (a.user_id ≡ 9)
    × (a.reference ≡ "ref-1")
    × (a.amount ≡ pos 400)
    × (a.balance_before ≡ pos 1000)
    × (a.balance_after ≡ q.current_balance)
unfolding find_pool
deduct_settles_example =
    deduct_settles env 9 canary (pos 400) "ref-1" none none pool start refl (omega arith)
      (omega arith) refl

interleaved-loses_example :
    (db' : PoolDb) × (interleaved env 9 canary (pos 50) (pos 400) "ref-1" start
      ≡ (ok (topped_up (pos 50) pool), db'))
    × (db'.pools ≡ (update 9 canary (pos 50) start).1.pools)
    × (db'.audits ≡ deduction_audit 9 "ref-1" (pos 400) none none pool ∷ [])
unfolding find_pool
interleaved-loses_example =
    interleaved-loses env 9 canary (pos 50) (pos 400) "ref-1" pool start refl (omega arith)
      (omega arith) refl

abbrev row_of : String → PortfolioRow
row_of code = record {
  date = "2026-01-05";
  fund_code = code;
  fund_name = "Fund";
  customer_id = "C1";
  units = some (pos 10);
  principal = some (pos 1000);
  market_price = some (pos 100);
  market_value = none;
  accrued_interest = some (negsuc 4);
  accrued_interest_percent = none;
}

abbrev answer : PortfolioPositionResponse
answer = record { status_id = 0; rows = row_of "CGF" ∷ row_of "AIF" ∷ [] }

pool_by_type-unknown_example :
    (portfolio_pools (record { status_id = 0; rows = row_of "XYZ" ∷ [] })
      ≡ position_of canary (row_of "XYZ") ∷ [])
    × (investments_of canary (row_of "XYZ" ∷ []) ≡ [])
pool_by_type-unknown_example =
    pool_by_type-unknown (row_of "XYZ") canary
      (λ e. let same : str_eq "XYZ" "AIF" ≡ true = (eq_iff "XYZ" "AIF").1 e in cc)
      (λ e. let same : str_eq "XYZ" "CGF" ≡ true = (eq_iff "XYZ" "CGF").1 e in cc)
