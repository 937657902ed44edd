-- ===== src/Wallet/Admin.antt =====
-- The administrative operations: `updateVirtualWallet` and `localResetVirtualWallet`.
use gdl_finance_v.Wallet.Process.{update_answer_ok}
use gdl_finance_v.Wallet.Rows.{All-Updated, prevent_balance_reduction_lem}
use gdl_finance_v.Wallet.Database.{
  wallet_not_found, update_wallet, installed_triggers, prevent_balance_reduction, is_protected,
  update_transaction,
}
use gdl_finance_v.Base.Action.{or_throw, pure, ◌>>◌, resume-eq-ok, handle-eq-ok, ok}
use gdl_finance_v.Wallet.Service.{
  rethrow, assign, local_reset_virtual_wallet, update_virtual_wallet,
}
use gdl_finance_v.Base.{
  sym, subst, or_else, ◌∙◌, ap, update_where_none, inr, inl, refl, arith, any, not, Bool-cases,
  All-find_all, true, ◌≢◌, All, some, ◌==◌, ◌≡◌, find_one, ℕ,
}
use gdl_finance_v.Wallet.Entity.{
  before_delete, VirtualWalletTransaction, WalletDb, UpdateVirtualWalletDto, VirtualWallet,
}
use gdl_finance_v.Base.Int.{◌-ℤ◌, ℤ, int_laws}

-- The balance that a row shows is the difference of its totals.
abbrev pub Balanced : VirtualWallet → Type 0
Balanced w = w.current_balance ≡ w.total_credited -ℤ w.total_debited

assign-Balanced :
    (now : ℕ) (dto : UpdateVirtualWalletDto) (w w' : VirtualWallet)
    → prevent_balance_reduction w (assign now dto w) ≡ some w'
    → Balanced w'
assign-Balanced now dto w w' through =
    let (e, _, _) = prevent_balance_reduction_lem w (assign now dto w) w' through in
    grind (int_laws)

-- An update that names no total answers with the balance that the request gave, and leaves in every
-- row the difference of its totals, if that is what stood there before: the answer is not what is
-- stored.
pub update_virtual_wallet-answer :
    (now user_id : ℕ) (dto : UpdateVirtualWalletDto) (w w' : VirtualWallet) (asked : ℤ)
    (db db' : WalletDb)
    → dto.current_balance ≡ some asked
    → All Balanced db.wallets
    → update_virtual_wallet now user_id dto db ≡ (ok w', db')
    → (w'.current_balance ≡ asked) × All Balanced db'.wallets
unfolding update_virtual_wallet assign
update_virtual_wallet-answer now user_id dto w w' asked db db' e h done =
    let body = handle-eq-ok rethrow _ w' db' done in
    let (v, db1, found, rest) =
      resume-eq-ok (λ w. update_wallet w.id (assign now dto) >> pure (assign now dto w))
        (or_throw (find_one (λ w. w.user_id == user_id) db.wallets) wallet_not_found db) w' db'
        body in
    let same : db1 ≡ db = ground arith in
    let (rows, answer, _) =
      update_answer_ok v.id (assign now dto) (assign now dto v) w' db1 db' rest in
    (
      ap (λ (w : VirtualWallet). w.current_balance) answer
          ∙ ap (λ o. or_else o v.current_balance) e,
      All-Updated Balanced Balanced v.id (assign now dto) db1.wallets db'.wallets (λ u ne b. b)
          (λ u u' hit b. assign-Balanced now dto u u') rows
          (subst (λ (d : WalletDb). All Balanced d.wallets) (sym same) h),
    )

-- After a local reset of a wallet its transactions and itself are gone, the deletion of a
-- transaction is refused again, and the update of any transaction that is left is let through.
pub local_reset-triggers :
    (wallet_id : ℕ) (w : VirtualWallet) (db : WalletDb) (k : ℕ)
    (f : VirtualWalletTransaction → VirtualWalletTransaction)
    → find_one (λ (v : VirtualWallet). v.id == wallet_id) db.wallets ≡ some w
    → let db' = (local_reset_virtual_wallet wallet_id db).1 in
      All (λ (t : VirtualWalletTransaction). t.virtual_wallet_id ≢ wallet_id) db'.transactions
      × (is_protected before_delete db'.triggers ≡ true)
      × ((update_transaction k f db').0 ≡ ok tt)
unfolding local_reset_virtual_wallet update_transaction is_protected
local_reset-triggers wallet_id w db k f found = rw found (
  All-find_all (λ t. t.virtual_wallet_id ≢ wallet_id) (λ t. not (t.virtual_wallet_id == wallet_id))
      db.transactions (λ t kept. ground arith),
  refl,
  ground arith,
)

-- Under the triggers of the migration no transaction of the history can be changed.
pub update_transaction-refused :
    (k : ℕ) (f : VirtualWalletTransaction → VirtualWalletTransaction) (db : WalletDb)
    → db.triggers ≡ installed_triggers
    → (update_transaction k f db).1 ≡ db
unfolding update_transaction is_protected installed_triggers
update_transaction-refused k f db h = elim (Bool-cases (any (λ t. t.id == k) db.transactions)) [
  | inl there ↦ ground arith
  | inr absent ↦ ground (arith, update_where_none (λ t. t.id == k) f db.transactions)
]
