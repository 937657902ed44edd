-- ===== src/Invest/Tests/Withdrawals.antt =====
-- Redemptions of the Canary and Income funds at concrete inputs.
use gdl_finance_v.Base.Action.{err, ok}
use gdl_finance_v.Pool.Portfolio.{resolve_pool_type, investments_of, pool_by_type}
use gdl_finance_v.Invest.Store.{internal, with_redemptions, redemptions_of}
use gdl_finance_v.Invest.Redemption.{processing_sum, insert_redemption}
use gdl_finance_v.Wallet.Service.{canary, find_wallet_for_investment, income}
use gdl_finance_v.Invest.Withdrawn.{withdraw-within, IsWithdrawn}
use gdl_finance_v.Invest.Withdraw.{
  best_of, get_user_total_active_investment_amount, new_withdrawal, withdraw_steps, withdraw,
}
use gdl_finance_v.Base.{refl, some-injective, sym, ap, some, [], none, ◌≡◌, ◌∷◌}
use gdl_finance_v.Base.Int.{negsuc, ◌+ℤ◌, pos}
use gdl_finance_v.Invest.Entity.{RedemptionStatus, FundRedemption, InvestDb, UserAccount}
use gdl_finance_v.Invest.Tests.{start, willing, ada, find_ada}

abbrev withdrawal : FundRedemption
withdrawal = record {
  id = 1;
  user_identity = 7;
  first_name = "Ada";
  last_name = "Obi";
  account = "N/A";
  redemption_date = 1000;
  amount = pos 15000;
  quantity = pos 0;
  reference = "RDM-1000-77";
  status = RedemptionStatus.processing;
  approved_by = none;
  approved_at = none;
  completed_at = none;
  rejected_by = none;
  rejected_at = none;
  failed_at = none;
  admin_notes = none;
  fund_account_no = "F-1";
  cash_account_no = "Manual";
}

abbrev withdrawing : InvestDb
withdrawing = record start { income_redemptions = withdrawal ∷ []; next_redemption_id = 2 }

user_of : (user : UserAccount) → find_ada 7 ≡ some user → user.id ≡ 7
user_of user h = ap (λ (u : UserAccount). u.id) (sym (some-injective ada user h))

withdraw_runs : withdraw willing income 7 (pos 15000) start ≡ (ok withdrawal, withdrawing)
unfolding withdraw withdraw_steps insert_redemption new_withdrawal redemptions_of with_redemptions
    processing_sum get_user_total_active_investment_amount find_wallet_for_investment pool_by_type
    investments_of resolve_pool_type best_of ◌+ℤ◌
withdraw_runs = refl

withdraw-within_example : IsWithdrawn willing income 7 (pos 15000) withdrawal start withdrawing
withdraw-within_example =
    withdraw-within willing income 7 (pos 15000) withdrawal start withdrawing user_of withdraw_runs

-- A redemption beyond the positions is refused, before Infoware is asked.
withdraw_beyond : (withdraw willing income 7 (pos 20001) start).1 ≡ start
unfolding withdraw withdraw_steps insert_redemption new_withdrawal redemptions_of with_redemptions
    processing_sum get_user_total_active_investment_amount find_wallet_for_investment pool_by_type
    investments_of resolve_pool_type best_of ◌+ℤ◌
withdraw_beyond = refl

-- Infoware carries a redemption of the Canary fund out, and then its row is refused, since another
-- one was made in the same millisecond.
withdraw_unsaved :
    (withdraw willing canary 7
      (pos 100)
      (record start { canary_redemptions = record withdrawal { reference = "RDM-1000" } ∷ [] })).0
    ≡ err (internal "Failed to initiate fund redemption: Duplicate entry")
unfolding withdraw withdraw_steps insert_redemption new_withdrawal redemptions_of with_redemptions
    processing_sum get_user_total_active_investment_amount find_wallet_for_investment pool_by_type
    investments_of resolve_pool_type best_of ◌+ℤ◌
withdraw_unsaved = refl

-- The Canary service does not refuse an amount below zero.
withdraw_negative :
    (r : FundRedemption) × (db : InvestDb) × (withdraw willing canary 7 (negsuc 99) start
      ≡ (ok r, db))
unfolding withdraw withdraw_steps insert_redemption new_withdrawal redemptions_of with_redemptions
    processing_sum get_user_total_active_investment_amount find_wallet_for_investment pool_by_type
    investments_of resolve_pool_type best_of ◌+ℤ◌
withdraw_negative = (_, _, refl)
