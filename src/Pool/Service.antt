-- ===== src/Pool/Service.antt =====
-- The operations on investment pools: pool-create.service.ts, pool-deduction.service.ts,
-- pool-update.service.ts, audit.service.ts and `addDailyAccrual` of investment-pull.service.ts.
-- Numbers that are not finite are left out.
use gdl_finance_v.Flexi.Entity.{Admin}
use gdl_finance_v.Base.Int.{ltb_ℤ, ◌-ℤ◌, pos, ◌+ℤ◌, ℤ}
use gdl_finance_v.Base.{
  none, if◌then◌else◌, some, ◌||◌, not, or_else, ◌&&◌, suc, ◌==◌, find_one, false, String, ◌++◌,
  update_where, Option, true, Bool, ℕ, [], ◌∷◌,
}
use gdl_finance_v.Base.Action.{
  pure, throw_if, or_throw, transaction, gets, Action, ok, err, ◌>>=◌, ◌>>◌,
}
use gdl_finance_v.Wallet.Service.{mmf, canary, income, InvestmentPoolType}
use gdl_finance_v.Pool.Entity.{
  CreateInvestmentPool2Dto, DailyAccrualLog, TransactionAudit, UserInvestmentPool, PoolDb, active,
  success, deduction,
}

pub data PoolError : Type 0 where
  pool_type_required user_id_required invalid_amount pool_not_found : PoolError
  insufficient_balance audit_failed admin_not_found negative_accrual : PoolError

abbrev pub PoolAction : Type 0 → Type 0
PoolAction A = Action PoolDb PoolError A

-- What the surroundings decide: whether the audit table takes a row.
pub record Env : Type 0 where
  pub audit_accepts : TransactionAudit → Bool

abbrev pub same_type : InvestmentPoolType → InvestmentPoolType → Bool
same_type mmf mmf = true
same_type canary canary = true
same_type income income = true
same_type _ _ = false

-- `findOne` by user and type.
unfoldable pub find_pool : ℕ → InvestmentPoolType → PoolDb → Option UserInvestmentPool
find_pool user_id type db =
    find_one (λ (p : UserInvestmentPool). p.user_id == user_id && same_type p.type type) db.pools

unfoldable pub find_pool_by_id : ℕ → PoolDb → Option UserInvestmentPool
find_pool_by_id id db = find_one (λ (p : UserInvestmentPool). p.id == id) db.pools

-- `save` of a pool that was loaded: it writes every column that differs, so the whole row.
unfoldable pub save_pool : UserInvestmentPool → PoolAction UserInvestmentPool
save_pool p db = (
  ok p,
  record db { pools = update_where (λ (q : UserInvestmentPool). q.id == p.id) (λ _. p) db.pools },
)

unfoldable pub new_pool : ℕ → ℕ → InvestmentPoolType → CreateInvestmentPool2Dto → UserInvestmentPool
new_pool id user_id type dto = record {
  id = id;
  user_id = user_id;
  type = type;
  total_invested = dto.total_invested;
  total_redeemed = pos 0;
  current_balance = dto.total_invested;
  status = active;
  is_visible = or_else dto.is_visible true;
  accrued_gain = pos 0;
  accrued_loss = pos 0;
  balance_with_gain_or_loss = dto.total_invested;
  yield_rate = dto.yield_rate;
  nav = dto.nav;
  description = dto.description;
}

unfoldable pub insert_pool : UserInvestmentPool → PoolAction UserInvestmentPool
insert_pool p db =
    (ok p, record db { pools = db.pools ++ p ∷ []; next_pool_id = suc db.next_pool_id })

-- The pool of the user and the type, inserted if there is none.
unfoldable pub find_or_insert :
    ℕ → InvestmentPoolType → CreateInvestmentPool2Dto → PoolAction UserInvestmentPool
find_or_insert user_id type dto db = elim (find_pool user_id type db) [
  | some existing ↦ (ok existing, db)
  | none ↦ insert_pool (new_pool db.next_pool_id user_id type dto) db
]

unfoldable pub create : ℕ → CreateInvestmentPool2Dto → PoolAction UserInvestmentPool
create user_id dto = transaction (do
  type ← or_throw dto.pool_type pool_type_required
  throw_if (user_id == 0) user_id_required
  find_or_insert user_id type dto)

-- `recordSuccess` of AuditService: on a connection of its own, outside of the transaction.
unfoldable pub record_success : Env → TransactionAudit → PoolAction (Unit {0})
record_success env audit db =
    if env.audit_accepts audit
    then (ok tt, record db { audits = db.audits ++ audit ∷ [] })
    else (err audit_failed, db)

unfoldable pub deducted : ℤ → UserInvestmentPool → UserInvestmentPool
deducted amount p = record p {
  total_redeemed = p.total_redeemed +ℤ amount;
  current_balance = p.current_balance -ℤ amount;
}

unfoldable pub deduction_audit :
    ℕ → String → ℤ → Option String → Option String → UserInvestmentPool → TransactionAudit
deduction_audit user_id reference amount related meta p = record {
  user_id = user_id;
  reference = reference;
  type = deduction;
  amount = amount;
  balance_before = p.current_balance;
  balance_after = p.current_balance -ℤ amount;
  related_entity = related;
  status = success;
  meta = meta;
}

-- The transaction of `deduct`.
unfoldable pub deduct_steps :
    Env
    → ℕ
    → InvestmentPoolType
    → ℤ
    → String
    → Option String
    → Option String
    → PoolAction UserInvestmentPool
deduct_steps env user_id type amount reference related meta = do
  found ← gets (find_pool user_id type)
  p ← or_throw found pool_not_found
  throw_if (ltb_ℤ p.current_balance amount) insufficient_balance
  saved ← save_pool (deducted amount p)
  record_success env (deduction_audit user_id reference amount related meta p)
  pure saved

-- `reference` is the one of the request, or a generated one.
unfoldable pub deduct :
    Env
    → ℕ
    → InvestmentPoolType
    → ℤ
    → String
    → Option String
    → Option String
    → PoolAction UserInvestmentPool
deduct env user_id type amount reference related meta = do
  throw_if (not (ltb_ℤ (pos 0) amount)) invalid_amount
  transaction (deduct_steps env user_id type amount reference related meta)

unfoldable pub topped_up : ℤ → UserInvestmentPool → UserInvestmentPool
topped_up amount p = record p {
  total_invested = p.total_invested +ℤ amount;
  current_balance = p.current_balance +ℤ amount;
}

-- The two database accesses of `update`, between which other requests may run.
unfoldable pub update_read : ℕ → InvestmentPoolType → PoolAction UserInvestmentPool
update_read user_id type = do found ← gets (find_pool user_id type); or_throw found pool_not_found

unfoldable pub update_write : ℤ → UserInvestmentPool → PoolAction UserInvestmentPool
update_write amount p = save_pool (topped_up amount p)

unfoldable pub update : ℕ → InvestmentPoolType → ℤ → PoolAction UserInvestmentPool
update user_id type amount = do p ← update_read user_id type; update_write amount p

unfoldable pub accrued : ℤ → ℤ → UserInvestmentPool → UserInvestmentPool
accrued gain loss p = record p {
  current_balance = (p.current_balance +ℤ gain) -ℤ loss;
  accrued_gain = p.accrued_gain +ℤ gain;
  accrued_loss = p.accrued_loss +ℤ loss;
}

unfoldable pub find_admin : ℕ → PoolDb → Option Admin
find_admin staff_id db =
    find_one (λ (a : Admin). a.staff_id == staff_id && not a.is_deleted) db.admins

unfoldable pub insert_accrual : DailyAccrualLog → PoolAction DailyAccrualLog
insert_accrual log db = (ok log, record db { accruals = db.accruals ++ log ∷ [] })

unfoldable pub accrual_log : ℕ → InvestmentPoolType → ℤ → ℤ → UserInvestmentPool → DailyAccrualLog
accrual_log admin_id type gain loss p = record {
  pool_id = p.id;
  investment_type = type;
  accrued_gain = gain;
  accrued_loss = loss;
  balance_with_gain_or_loss = (p.current_balance +ℤ gain) -ℤ loss;
  admin_id = admin_id;
}

unfoldable pub add_daily_accrual : ℕ → ℕ → InvestmentPoolType → ℤ → ℤ → PoolAction DailyAccrualLog
add_daily_accrual pool_id admin_id type gain loss = do
  found ← gets (find_pool_by_id pool_id)
  p ← or_throw found pool_not_found
  admin ← gets (find_admin admin_id)
  a ← or_throw admin admin_not_found
  throw_if (ltb_ℤ gain (pos 0) || ltb_ℤ loss (pos 0)) negative_accrual
  save_pool (accrued gain loss p)
  insert_accrual (accrual_log a.staff_id type gain loss p)
