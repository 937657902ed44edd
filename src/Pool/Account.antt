-- ===== src/Pool/Account.antt =====
-- The balance of one pool as an account: what a sequence of deductions and updates comes to.
use gdl_finance_v.Pool.Entity.{UserInvestmentPool, TransactionAudit, PoolDb}
use gdl_finance_v.Wallet.Service.{InvestmentPoolType}
use gdl_finance_v.Pool.Service.{
  PoolError, deduction_audit, topped_up, deducted, update_write, update_read, same_type, update,
  save_pool, deduct, find_pool, Env,
}
use gdl_finance_v.Base.{
  arith, Bool-cases, ap, sym, refl, ◌∙◌, subst, not, if◌then◌else◌, find_one_holds, ◌&&◌, true,
  ◌==◌, ◌≡◌, ℕ, String, List, [], ◌∷◌, none, some, inl, inr, find_one-saved,
}
use gdl_finance_v.Base.Int.{◌+ℤ◌, ◌-ℤ◌, pos, ltb_ℤ, ℤ}
use gdl_finance_v.Base.Action.{Result}
use gdl_finance_v.Pool.Deduction.{deduct-succeeds, deduct-insufficient}

-- What a client asks of one pool: to draw an amount under a reference, or to add one.
pub data Movement : Type 0 where
  draw : ℤ → String → Movement
  add : ℤ → Movement

-- The abstract account: a draw that is not positive, or that the balance does not cover, is refused.
unfoldable pub replay : List Movement → ℤ → ℤ
replay [] balance = balance
replay (draw amount reference ∷ ms) balance =
    replay ms
      (if ltb_ℤ (pos 0) amount && not (ltb_ℤ balance amount) then balance -ℤ amount else balance)
replay (add amount ∷ ms) balance = replay ms (balance +ℤ amount)

replay-cons :
    (m : Movement) (ms : List Movement) (balance : ℤ)
    → replay (m ∷ ms) balance ≡ replay ms (replay (m ∷ []) balance)
unfolding replay
replay-cons (draw amount reference) ms balance = refl
replay-cons (add amount) ms balance = refl

module _ (env : Env) (user_id : ℕ) (type : InvestmentPoolType) where
  unfoldable pub move : Movement → PoolDb → PoolDb
  move (draw amount reference) db = (deduct env user_id type amount reference none none db).1
  move (add amount) db = (update user_id type amount db).1

  unfoldable pub move_all : List Movement → PoolDb → PoolDb
  move_all [] db = db
  move_all (m ∷ ms) db = move_all ms (move m db)

  -- The pool is there, with the balance.
  abbrev pub Shows : PoolDb → ℤ → Type 0
  Shows db balance =
      (p : UserInvestmentPool) × (find_pool user_id type db ≡ some p)
      × (p.current_balance ≡ balance)

  find_pool-saved :
      (p q : UserInvestmentPool) (db : PoolDb)
      → find_pool user_id type db ≡ some p
      → q.id ≡ p.id
      → q.user_id ≡ p.user_id
      → q.type ≡ p.type
      → find_pool user_id type (save_pool q db).1 ≡ some q
  unfolding find_pool save_pool
  find_pool-saved p q db found same_id same_user same_type' =
      let test = λ (x : UserInvestmentPool). x.user_id == user_id && same_type x.type type in
      let held = find_one_holds test p db.pools found in
      find_one-saved (λ (x : UserInvestmentPool). x.id) test p q db.pools found same_id
        (rw (same_user, same_type') held)

  -- A method that leaves the tables as they were.
  unmoved-Shows :
      (p : UserInvestmentPool) (db db' : PoolDb)
      → find_pool user_id type db ≡ some p
      → db' ≡ db
      → Shows db' p.current_balance
  unmoved-Shows p db db' found e =
      (p, subst (λ (d : PoolDb). find_pool user_id type d ≡ some p) (sym e) found, refl)

  move-Shows :
      ((t : TransactionAudit) → env.audit_accepts t ≡ true)
      → (m : Movement) (p : UserInvestmentPool) (db : PoolDb) → find_pool user_id type db ≡ some p
      → Shows (move m db) (replay (m ∷ []) p.current_balance)
  unfolding move replay deduct update update_read update_write deducted topped_up find_pool
      save_pool
  move-Shows takes (add amount) p db found =
      let q = topped_up amount p in
      let run : (update user_id type amount db).1 ≡ (save_pool q db).1 =
        rw (update, update_read, found) refl in
      (q, rw run (find_pool-saved p q db found refl refl refl), refl)
  move-Shows takes (draw amount reference) p db found =
      let audit = deduction_audit user_id reference amount none none p in
      elim (Bool-cases (ltb_ℤ (pos 0) amount)) [
        | inr bad ↦
            let run : (deduct env user_id type amount reference none none db).1 ≡ db =
              rw (deduct, bad) refl in
            rw bad (
              unmoved-Shows p db (deduct env user_id type amount reference none none db).1 found
                run)
        | inl good ↦ elim (Bool-cases (ltb_ℤ p.current_balance amount)) [
          | inl short ↦
              let run =
                ap (λ (x : Result PoolError UserInvestmentPool × PoolDb). x.1)
                  (deduct-insufficient env user_id type amount reference none none p db found
                    (ground arith) (ground arith)) in
              rw (good, short)
                (unmoved-Shows p db (deduct env user_id type amount reference none none db).1 found
                  run)
          | inr enough ↦
              let q = deducted amount p in
              let run =
                ap (λ (x : Result PoolError UserInvestmentPool × PoolDb). x.1)
                  (deduct-succeeds env user_id type amount reference none none p db found
                    (ground arith) (ground arith) (takes audit)) in
              rw (good, enough) (q, rw run (find_pool-saved p q db found refl refl refl), refl)
        ]
      ]

  -- Whatever a client draws from a pool and adds to it, one request after the other, the balance of
  -- the pool is that of the abstract account, if the audit table takes every row.
  pub move_all-Shows :
      ((t : TransactionAudit) → env.audit_accepts t ≡ true)
      → (ms : List Movement) (p : UserInvestmentPool) (db : PoolDb)
      → find_pool user_id type db ≡ some p
      → Shows (move_all ms db) (replay ms p.current_balance)
  unfolding move_all replay
  move_all-Shows takes [] p db found = (p, found, refl)
  move_all-Shows takes (m ∷ ms) p db found =
      let (q, again, same) = move-Shows takes m p db found in
      let (s, last, total) = move_all-Shows takes ms q (move m db) again in
      (s, last, total ∙ ap (replay ms) same ∙ sym (replay-cons m ms p.current_balance))
