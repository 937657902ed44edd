-- ===== src/Invest/Settlement.antt =====
-- The debit of a request that is being approved, and its reversal.
use gdl_finance_v.Base.{
  str_eq, ℕ, String, some, false, ◌≡◌, refl, sym, ap, ◌∙◌, subst, ◌==◌, find_one,
}
use gdl_finance_v.Base.Int.{◌+ℤ◌, ℤ, pos, ◌≤ℤ◌, ◌-ℤ◌, int_laws}
use gdl_finance_v.Base.Action.{ok, err}
use gdl_finance_v.Wallet.Entity.{VirtualWallet, credit, debit, WalletDb}
use gdl_finance_v.Wallet.Service.{InvestmentPoolType}
use gdl_finance_v.Wallet.Reference.{is_used}
use gdl_finance_v.Wallet.Outcome.{settle}
use gdl_finance_v.Invest.Entity.{InvestmentRequest, InvestDb, Env}
use gdl_finance_v.Invest.Store.{internal}
use gdl_finance_v.Invest.Funding.{debit_user_wallet, debit_reference, credit_reference}
use gdl_finance_v.Invest.Approve.{reversed_note, sync_failure, reverse, back_to_pending}
use gdl_finance_v.Invest.Payment.{
  Payable, Payable-settled, Paid, debit_user_wallet-Paid, credit_user_wallet-Paid,
}
use gdl_finance_v.Invest.References.{debit_reference-credit_reference, is_used-appended}
use gdl_finance_v.Invest.Tables.{saved, save_request_lem, with_requests-wallets}

-- How the wallets come out of a debit and its reversal: both stand in the history, and the balance
-- is what it was.
pub record Restored (amount : ℤ) (wallet : VirtualWallet) (w w' : WalletDb) : Type 0 where
  pub mid : WalletDb
  pub now : ℕ
  pub debited_by : String
  pub credited_by : String
  pub debited : Paid debit amount now debited_by wallet w mid
  pub credited : Paid credit amount now credited_by (settle debit amount now wallet) mid w'
  pub back : VirtualWallet
  pub by_id : find_one (λ v. v.id == wallet.id) w'.wallets ≡ some back
  pub same_balance : back.current_balance ≡ wallet.current_balance

cancel : (c d a : ℤ) → (c +ℤ a) -ℤ (d +ℤ a) ≡ c -ℤ d
cancel c d a = omega int_laws

settle-balance :
    (amount : ℤ) (now : ℕ) (wallet : VirtualWallet)
    → wallet.current_balance ≡ wallet.total_credited -ℤ wallet.total_debited
    → (settle credit amount now (settle debit amount now wallet)).current_balance
      ≡ wallet.current_balance
settle-balance amount now wallet h =
    cancel wallet.total_credited wallet.total_debited amount ∙ sym h

module _ (env : Env) (fund : InvestmentPoolType) (user_id : ℕ) (request : InvestmentRequest)
    (text : String) (wallet : VirtualWallet) (account : String) where
  -- The request is saved, and the wallet is debited.
  pub debit_saved :
      (db : InvestDb)
      → Payable fund user_id wallet account db.wallets
      → pos 0 ≤ℤ request.price
      → request.price ≤ℤ wallet.current_balance
      → is_used (debit_reference env fund text) db.wallets ≡ false
      → (w' : WalletDb) × (debit_user_wallet env fund user_id request.price text
            (saved fund request db)
          ≡ (ok tt, record (saved fund request db) { wallets = w' }))
        × Paid debit request.price env.now (debit_reference env fund text) wallet db.wallets w'
  debit_saved db p positive enough fresh =
      let same = with_requests-wallets fund _ db in
      let (w', e, paid) =
        debit_user_wallet-Paid env fund user_id request.price text wallet account
          (saved fund request db) (subst (Payable fund user_id wallet account) (sym same) p)
          positive enough (ap (is_used (debit_reference env fund text)) same ∙ fresh) in
      (
        w',
        e,
        subst (λ w. Paid debit request.price env.now (debit_reference env fund text) wallet w w')
            same paid,
      )

  -- The debit is reversed, and the request is pending again.
  pub reverse_debited :
      (what where_ error : String) (w : WalletDb) (db : InvestDb)
      → Payable fund user_id wallet account w
      → Paid debit request.price env.now (debit_reference env fund text) wallet w db.wallets
      → wallet.current_balance ≡ wallet.total_credited -ℤ wallet.total_debited
      → pos 0 ≤ℤ request.price
      → is_used (credit_reference env fund request.reference) w ≡ false
      → (w' : WalletDb) × (reverse env fund user_id request what where_ error db ≡ (
        err (internal (sync_failure where_ error)),
        saved fund
            (back_to_pending (reversed_note what error) request)
            (record db { wallets = w' }),
      ))
        × Restored request.price wallet w w'
  unfolding reverse
  reverse_debited what where_ error w db p paid balanced positive fresh =
      let again =
        Payable-settled fund user_id debit request.price env.now wallet account w db.wallets p
          paid.settled in
      let new =
        is_used-appended (credit_reference env fund request.reference) paid.row w db.wallets
          paid.appended
          (ap (λ r. str_eq r (credit_reference env fund request.reference)) paid.known_by
            ∙ debit_reference-credit_reference env fund text request.reference)
          fresh in
      let (w', e, credited) =
        credit_user_wallet-Paid env fund user_id request.price request.reference
          (settle debit request.price env.now wallet) account db again positive new in
      (
        w',
        rw e (rw save_request_lem refl),
        record {
          mid = db.wallets;
          now = env.now;
          debited_by = debit_reference env fund text;
          credited_by = credit_reference env fund request.reference;
          debited = paid;
          credited = credited;
          back = settle credit request.price env.now (settle debit request.price env.now wallet);
          by_id =
              (Payable-settled fund user_id credit request.price env.now
                (settle debit request.price env.now wallet) account db.wallets w' again
                credited.settled).by_id;
          same_balance = settle-balance request.price env.now wallet balanced;
        },
      )
