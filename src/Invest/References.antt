-- ===== src/Invest/References.antt =====
-- The references of a debit and of its reversal.
use Prim.Native.String.append
use Prim.Native.String.compare
use gdl_finance_v.Base.{
  String, Bool, false, List, [], ◌∷◌, ◌++◌, ◌≡◌, refl, ap, ◌∙◌, arith, str_append, str_eq, any,
}
use gdl_finance_v.Wallet.Entity.{VirtualWalletTransaction, WalletDb}
use gdl_finance_v.Wallet.Service.{InvestmentPoolType, mmf, canary, income}
use gdl_finance_v.Wallet.Reference.{is_used}
use gdl_finance_v.Invest.Entity.{Env}
use gdl_finance_v.Invest.Funding.{debit_reference, credit_reference}

-- Texts that begin with the letters of a debit and of a reversal differ.
starts_apart :
    (c d : String) (s t : String)
    → str_eq (str_append (str_append "I" c) s) (str_append (str_append "R" d) t) ≡ false
starts_apart c d s t =
    rw
      (
        append.cons "I" "" c,
        append.nil c,
        append.cons "I" c s,
        append.cons "R" "" d,
        append.nil d,
        append.cons "R" d t,
        compare.cons-cons,
      )
      refl

-- A debit never has the reference of a reversal.
pub debit_reference-credit_reference :
    (env : Env) (fund : InvestmentPoolType) (ref other : String)
    → str_eq (debit_reference env fund ref) (credit_reference env fund other) ≡ false
debit_reference-credit_reference env mmf ref other = starts_apart "NV - " "EV-INV-" _ _
debit_reference-credit_reference env canary ref other = starts_apart "NV-" "EV-" _ _
debit_reference-credit_reference env income ref other = starts_apart "NV-" "EV-" _ _

any-append_false {ℓ} :
    {A : Type ℓ} (p : A → Bool) (xs : List A) (x : A)
    → any p xs ≡ false
    → p x ≡ false
    → any p (xs ++ x ∷ []) ≡ false
any-append_false p [] x h last = rw last refl
any-append_false p (y ∷ xs) x h last = ground (arith, any-append_false p xs x)

-- After a debit the reference of its reversal is as new as it was before.
pub is_used-appended :
    (reference : String) (row : VirtualWalletTransaction) (w w' : WalletDb)
    → w'.transactions ≡ w.transactions ++ row ∷ []
    → str_eq row.transaction_reference reference ≡ false
    → is_used reference w ≡ false
    → is_used reference w' ≡ false
is_used-appended reference row w w' history differs fresh =
    ap (any (λ (u : VirtualWalletTransaction). str_eq u.transaction_reference reference)) history
    ∙ any-append_false (λ u. str_eq u.transaction_reference reference) w.transactions row fresh
        differs
