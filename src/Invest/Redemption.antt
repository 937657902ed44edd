-- ===== src/Invest/Redemption.antt =====
-- The redemption of a fund: `fundRedemption` of the MMF service, and
-- `approveFundRedemptionRequest` and `rejectFundRedemptionRequest` of the three funds. The calls to
-- Symplus after the request is saved, whose errors are only logged, and the e-mails are left out. The messages of
-- the three services differ in the name of the fund; those of the MMF service stand here.
use gdl_finance_v.Base.{
  ℕ, ◌+◌, String, Option, none, some, Bool, true, false, not, ◌&&◌, List, [], ◌∷◌, ◌++◌,
  if◌then◌else◌, ◌==◌, str_eq, or_text, find_one, any, update_where,
}
use gdl_finance_v.Base.Action.{
  catching, transaction, ok, err, ◌>>=◌, ◌>>◌, pure, throw_if, gets, or_throw,
}
use gdl_finance_v.Base.Int.{ℤ, pos, ltb_ℤ, ◌+ℤ◌, ◌-ℤ◌}
use gdl_finance_v.Wallet.Service.{InvestmentPoolType, mmf, canary, income}
use gdl_finance_v.Invest.Entity.{
  RedemptionStatus, processing, completed, failed, FundRedemption, NubanDetails, UserAccount,
  InvestDb, Env,
}
use gdl_finance_v.Invest.Store.{
  not_found, bad_request, not_acceptable, internal, plain_error, message, RequestError,
  InvestAction, redemptions_of, with_redemptions,
}
use gdl_finance_v.Invest.Funding.{template}
use gdl_finance_v.Invest.Approve.{pass_on}

abbrev pub is_open : RedemptionStatus → Bool
is_open processing = true
is_open _ = false

abbrev pub find_redemption : InvestmentPoolType → ℕ → InvestDb → Option FundRedemption
find_redemption fund id db = find_one (λ r. r.id == id) (redemptions_of fund db)

unfoldable pub save_redemption : InvestmentPoolType → FundRedemption → InvestAction (Unit {0})
save_redemption fund r db = (
  ok tt,
  with_redemptions fund (update_where (λ x. x.id == r.id) (λ _. r) (redemptions_of fund db)) db,
)

-- The INSERT: `reference` is a unique column.
unfoldable pub insert_redemption : InvestmentPoolType → FundRedemption → InvestAction FundRedemption
insert_redemption fund r db =
    let saved = record r { id = db.next_redemption_id } in
    if any (λ x. str_eq x.reference r.reference) (redemptions_of fund db)
    then (err (plain_error "Duplicate entry"), db)
    else (
      ok saved,
      record (with_redemptions fund (redemptions_of fund db ++ saved ∷ []) db) {
        next_redemption_id = db.next_redemption_id + 1;
      },
    )

-- The term of one row in `SUM(redemption.amount)` of the user's redemptions that are being processed.
abbrev pub processing_amount : ℕ → FundRedemption → ℤ
processing_amount user_id r =
    if r.user_identity == user_id && is_open r.status then r.amount else pos 0

unfoldable pub processing_sum : ℕ → List FundRedemption → ℤ
processing_sum user_id [] = pos 0
processing_sum user_id (r ∷ rows) = processing_amount user_id r +ℤ processing_sum user_id rows

-- The Canary service does not look at the amount again.
abbrev pub amount_refused : InvestmentPoolType → ℤ → Bool
amount_refused canary amount = false
amount_refused _ amount = not (ltb_ℤ (pos 0) amount)

unfoldable pub complete_row : Env → ℕ → FundRedemption → FundRedemption
complete_row env admin_id r = record r {
  status = completed;
  approved_by = some admin_id;
  approved_at = some env.now;
  completed_at = some env.now;
}

unfoldable pub approve_redemption : Env → InvestmentPoolType → ℕ → ℕ → InvestAction FundRedemption
approve_redemption env fund redemption_id admin_id =
    catching (pass_on "Unexpected error during fund redemption approval") (
      transaction (do
        found ← gets (find_redemption fund redemption_id)
        redemption ← or_throw found (not_found "Fund redemption request not found")
        throw_if (not (is_open redemption.status))
            (bad_request "Only processing redemptions can be approved")
        throw_if (amount_refused fund redemption.amount) (bad_request "Invalid redemption amount.")
        save_redemption fund (complete_row env admin_id redemption)
        pure (complete_row env admin_id redemption)))

-- Only the Canary and Income services fill `failed_at`.
abbrev failing_time : Env → InvestmentPoolType → Option ℕ → Option ℕ
failing_time env mmf old = old
failing_time env _ old = some env.now

unfoldable pub fail_row :
    Env → InvestmentPoolType → ℕ → Option String → FundRedemption → FundRedemption
fail_row env fund admin_id reason r = record r {
  status = failed;
  rejected_by = some admin_id;
  rejected_at = some env.now;
  failed_at = failing_time env fund r.failed_at;
  admin_notes = some (or_text reason "Redemption request rejected by admin");
}

unfoldable pub reject_redemption :
    Env → InvestmentPoolType → ℕ → ℕ → Option String → InvestAction FundRedemption
reject_redemption env fund redemption_id admin_id reason =
    catching (pass_on "Unexpected error during redemption rejection") (
      transaction (do
        found ← gets (find_redemption fund redemption_id)
        redemption ← or_throw found (not_found "Fund redemption request not found")
        throw_if (not (is_open redemption.status))
            (bad_request "Only processing redemptions can be rejected")
        save_redemption fund (fail_row env fund admin_id reason redemption)
        pure (fail_row env fund admin_id reason redemption)))

abbrev account_of : Option NubanDetails → String
account_of none = "TEST-ACCOUNT"
account_of (some n) = or_text n.nuban_account "TEST-ACCOUNT"

abbrev fund_account_of : Option NubanDetails → String
fund_account_of none = "Manual"
fund_account_of (some n) = or_text n.fund_account_no "Manual"

abbrev cash_account_of : Option NubanDetails → String
cash_account_of none = "Manual"
cash_account_of (some n) = or_text n.cash_account_no "Manual"

unfoldable pub new_redemption : Env → UserAccount → ℤ → FundRedemption
new_redemption env user amount =
    let nuban = env.nubans user.id in
    record {
      id = 0;
      user_identity = user.id;
      first_name = user.first_name;
      last_name = user.last_name;
      account = account_of nuban;
      redemption_date = env.now;
      amount = amount;
      quantity = pos 0;
      reference = template ("RDM-" ∷ env.show env.now ∷ []);
      status = processing;
      approved_by = none;
      approved_at = none;
      completed_at = none;
      rejected_by = none;
      rejected_at = none;
      failed_at = none;
      admin_notes = none;
      fund_account_no = fund_account_of nuban;
      cash_account_no = cash_account_of nuban;
    }

-- The `catch`: the other exceptions become an InternalServerErrorException with their message.
abbrev pub redemption_failure : RequestError → RequestError
redemption_failure (not_found m) = not_found m
redemption_failure (bad_request m) = bad_request m
redemption_failure e = internal (message e)

abbrev pub exceeds_message : Env → ℤ → ℤ → String
exceeds_message env pending balance = template (
    "Redemption Request Exceeds Balance. You have ₦"
    ∷ env.show_amount pending
    ∷ " in pending redemptions. Your current investment balance is ₦"
    ∷ env.show_amount balance
    ∷ ". You can only redeem up to ₦"
    ∷ env.show_amount (if ltb_ℤ balance pending then pos 0 else balance -ℤ pending)
    ∷ " more."
    ∷ [])

unfoldable pub fund_redemption_steps : Env → ℕ → ℤ → InvestAction FundRedemption
fund_redemption_steps env user_id amount = do
  user ← or_throw (env.users user_id) (not_found "User not found")
  pending ← gets (λ (db : InvestDb). processing_sum user_id db.mmf_redemptions)
  throw_if (not (ltb_ℤ (pos 0) amount)) (bad_request "Invalid redemption amount.")
  throw_if (ltb_ℤ (env.market_value user_id) (pending +ℤ amount))
      (not_acceptable (exceeds_message env pending (env.market_value user_id)))
  insert_redemption mmf (new_redemption env user amount)

unfoldable pub fund_redemption : Env → ℕ → ℤ → InvestAction FundRedemption
fund_redemption env user_id amount =
    catching redemption_failure (fund_redemption_steps env user_id amount)

unfoldable pub approve_fund_redemption_request : Env → ℕ → ℕ → InvestAction FundRedemption
approve_fund_redemption_request env = approve_redemption env mmf

unfoldable pub approve_canary_redemption : Env → ℕ → ℕ → InvestAction FundRedemption
approve_canary_redemption env = approve_redemption env canary

unfoldable pub approve_income_redemption : Env → ℕ → ℕ → InvestAction FundRedemption
approve_income_redemption env = approve_redemption env income

unfoldable pub reject_fund_redemption_request :
    Env → ℕ → ℕ → Option String → InvestAction FundRedemption
reject_fund_redemption_request env = reject_redemption env mmf

unfoldable pub reject_canary_redemption : Env → ℕ → ℕ → Option String → InvestAction FundRedemption
reject_canary_redemption env = reject_redemption env canary

unfoldable pub reject_income_redemption : Env → ℕ → ℕ → Option String → InvestAction FundRedemption
reject_income_redemption env = reject_redemption env income
