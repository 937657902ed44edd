-- ===== src/Wallet/Rows.antt =====
-- What an UPDATE through the triggers does to the table of wallets.
use gdl_finance_v.Base.{
  sym, subst, ℕ, ◌≡◌, ◌≢◌, ◌⊎◌, inl, inr, some, List, [], ◌∷◌, arith, All, Option-cases,
}
use gdl_finance_v.Base.Int.{◌≤ℤ◌, ◌-ℤ◌}
use gdl_finance_v.Wallet.Entity.{VirtualWallet, VirtualWalletAudit}
use gdl_finance_v.Wallet.Database.{prevent_balance_reduction, update_row, update_rows}

-- A row that the trigger lets through is the new row with its balance computed afresh, and neither
-- total has fallen.
pub prevent_balance_reduction_lem :
    (old new w : VirtualWallet)
    → prevent_balance_reduction old new ≡ some w
    → (w ≡ record new { current_balance = new.total_credited -ℤ new.total_debited })
      × (old.total_credited ≤ℤ new.total_credited)
      × (old.total_debited ≤ℤ new.total_debited)
unfolding prevent_balance_reduction
prevent_balance_reduction_lem old new w h = ground arith

-- How a row comes out of an UPDATE: another row is left alone, and a row with the id went through
-- the trigger.
abbrev pub RowUpdated : ℕ → (VirtualWallet → VirtualWallet) → VirtualWallet → VirtualWallet → Type 0
RowUpdated k f w w' =
    ((w.id ≡ k) × (prevent_balance_reduction w (f w) ≡ some w')) ⊎ ((w.id ≢ k) × (w' ≡ w))

abbrev pub Updated :
    ℕ → (VirtualWallet → VirtualWallet) → List VirtualWallet → List VirtualWallet → Type 0
Updated k f [] [] = Unit
Updated k f [] (w' ∷ ws') = ⊥
Updated k f (w ∷ ws) [] = ⊥
Updated k f (w ∷ ws) (w' ∷ ws') = RowUpdated k f w w' × Updated k f ws ws'

update_row-RowUpdated :
    (k : ℕ) (f : VirtualWallet → VirtualWallet) (w w' : VirtualWallet)
    (as' : List VirtualWalletAudit)
    → update_row k f w ≡ some (w', as')
    → RowUpdated k f w w'
unfolding update_row
update_row-RowUpdated k f w w' as' h = ground arith

pub update_rows-Updated :
    (k : ℕ) (f : VirtualWallet → VirtualWallet) (ws ws' : List VirtualWallet)
    (as' : List VirtualWalletAudit)
    → update_rows k f ws ≡ some (ws', as')
    → Updated k f ws ws'
unfolding update_rows
update_rows-Updated k f [] ws' as' e = subst (Updated k f []) {x = []} (ground arith) tt
update_rows-Updated k f (w ∷ ws) ws' as' e = elim (Option-cases (update_row k f w)) [
  | inl refused ↦ absurd (ground arith)
  | inr ((w', bs), row) ↦ elim (Option-cases (update_rows k f ws)) [
    | inl refused ↦ absurd (ground arith)
    | inr ((rest, cs), rows) ↦
        subst (Updated k f (w ∷ ws)) {x = w' ∷ rest} (ground arith)
          (update_row-RowUpdated k f w w' bs row, update_rows-Updated k f ws rest cs rows)
  ]
]

-- A predicate on rows is carried over if the trigger's rows and the other rows have it.
pub All-Updated :
    (P Q : VirtualWallet → Type 0) (k : ℕ) (f : VirtualWallet → VirtualWallet)
    (ws ws' : List VirtualWallet)
    → ((w : VirtualWallet) → w.id ≢ k → P w → Q w)
    → ((w w' : VirtualWallet) → w.id ≡ k → P w → prevent_balance_reduction w (f w) ≡ some w' → Q w')
    → Updated k f ws ws'
    → All P ws
    → All Q ws'
All-Updated P Q k f [] [] other hit u h = tt
All-Updated P Q k f [] (w' ∷ ws') other hit u h = absurd u
All-Updated P Q k f (w ∷ ws) [] other hit u h = absurd u
All-Updated P Q k f (w ∷ ws) (w' ∷ ws') other hit (row, rest) h = (
  elim row [
    | inl (same, through) ↦ hit w w' same h.0 through
    | inr (apart, kept) ↦ subst Q (sym kept) (other w apart h.0)
  ],
  All-Updated P Q k f ws ws' other hit rest h.1,
)
