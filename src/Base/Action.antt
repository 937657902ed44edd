-- ===== src/Base/Action.antt =====
-- Methods as functions on a database, with exceptions; the database transaction as a roll-back.
use mathlib.Core.Path.{◌≡◌, refl}
use mathlib.Core.Bool.{Bool}
use mathlib.Core.Logic.{◌⊎◌, inl, inr}
use mathlib.Core.Option.{Option, none, some}
use gdl_finance_v.Base.Tests.{if◌then◌else◌}

pub data Result (E : Type 0) (A : Type 0) : Type 0 where
  ok : A → Result E A
  err : E → Result E A

pub Result-cases :
    {E A : Type 0} (x : Result E A) → ((e : E) × (x ≡ err e)) ⊎ ((a : A) × (x ≡ ok a))
Result-cases (ok a) = inr (a, refl)
Result-cases (err e) = inl (e, refl)

-- A method: it returns its result and the database as it leaves it.
abbrev pub Action : Type 0 → Type 0 → Type 0 → Type 0
Action S E A = S → Result E A × S

-- The rest of a method goes on from the result of its first part.
abbrev pub resume : {S E A B : Type 0} → (A → Action S E B) → Result E A × S → Result E B × S
resume f (ok a, s) = f a s
resume f (err e, s) = (err e, s)

infixl 5 ◌>>=◌ ◌>>◌
abbrev pub ◌>>=◌ : {S E A B : Type 0} → Action S E A → (A → Action S E B) → Action S E B
◌>>=◌ m f s = resume f (m s)

abbrev pub ◌>>◌ : {S E A B : Type 0} → Action S E A → Action S E B → Action S E B
m >> k = m >>= λ _. k

abbrev pub pure : {S E A : Type 0} → A → Action S E A
pure a s = (ok a, s)

abbrev pub throw : {S E A : Type 0} → E → Action S E A
throw e s = (err e, s)

abbrev pub throw_if : {S E : Type 0} → Bool → E → Action S E (Unit {0})
throw_if c e s = (if c then err e else ok tt, s)

abbrev pub gets : {S E A : Type 0} → (S → A) → Action S E A
gets f s = (ok (f s), s)

abbrev pub or_throw : {S E A : Type 0} → Option A → E → Action S E A
or_throw none e = throw e
or_throw (some a) e = pure a

-- `manager.transaction(…)`: an error rolls the database back.
abbrev pub rollback : {S E A : Type 0} → S → Result E A × S → Result E A × S
rollback s (ok a, s') = (ok a, s')
rollback s (err e, s') = (err e, s)

abbrev pub transaction : {S E A : Type 0} → Action S E A → Action S E A
transaction m s = rollback s (m s)

-- `try { … } catch (error) { … }` around a method that throws the error again, or another.
abbrev pub handle : {S E A : Type 0} → (E → E) → Result E A × S → Result E A × S
handle handler (ok a, s) = (ok a, s)
handle handler (err e, s) = (err (handler e), s)

abbrev pub catching : {S E A : Type 0} → (E → E) → Action S E A → Action S E A
catching handler m s = handle handler (m s)

-- A method that reads only: it ends in an error or in a result, and changes nothing.
abbrev pub Reads : {S E A : Type 0} → Action S E A → S → Type 0
Reads {S} {E} {A} m s = ((e : E) × (m s ≡ (err e, s))) ⊎ ((a : A) × (m s ≡ (ok a, s)))

-- A database transaction that fails changes nothing.
pub transaction-unchanged :
    {S E A : Type 0} (handler : E → E) (m : Action S E A) (e : E) (s s' : S)
    → catching handler (transaction m) s ≡ (err e, s')
    → s' ≡ s
transaction-unchanged {S} {E} {A} handler m e s s' h = by_result (m s) h
  where
    by_result : (r : Result E A × S) → handle handler (rollback s r) ≡ (err e, s') → s' ≡ s
    by_result (ok a, s1) h' = cc
    by_result (err x, s1) h' = cc

-- What holds before a database transaction, and after its body if that succeeds, holds after it.
pub transaction-keeps :
    {S E A : Type 0} (P : S → Type 0) (handler : E → E) (m : Action S E A) (s : S)
    → P s
    → ((a : A) (s' : S) → m s ≡ (ok a, s') → P s')
    → P (catching handler (transaction m) s).1
transaction-keeps {S} {E} {A} P handler m s before after = by_result (m s) refl
  where
    by_result : (r : Result E A × S) → m s ≡ r → P (handle handler (rollback s r)).1
    by_result (ok a, s') e = after a s' e
    by_result (err x, s') e = before

-- What holds before a database transaction and after its body holds after it.
pub rollback-keeps :
    {S E A : Type 0} (P : S → Type 0) (s : S) (r : Result E A × S)
    → P s
    → P r.1
    → P (rollback s r).1
rollback-keeps P s (ok a, s') before after = after
rollback-keeps P s (err e, s') before after = before

-- A database transaction whose body cannot succeed fails and changes nothing.
pub transaction-fails :
    {S E A : Type 0} (handler : E → E) (m : Action S E A) (s : S)
    → ((a : A) (s' : S) → m s ≡ (ok a, s') → ⊥)
    → (e : E) × (catching handler (transaction m) s ≡ (err e, s))
transaction-fails {S} {E} {A} handler m s never = by_result (m s) refl
  where
    by_result :
        (r : Result E A × S) → m s ≡ r → (e : E) × (handle handler (rollback s r) ≡ (err e, s))
    by_result (ok a, s') e = absurd (never a s' e)
    by_result (err x, s') e = (handler x, refl)

pub handle-eq-ok :
    {S E A : Type 0} (handler : E → E) (r : Result E A × S) (a : A) (s' : S)
    → handle handler r ≡ (ok a, s')
    → r ≡ (ok a, s')
handle-eq-ok handler (ok b, s1) a s' h = h
handle-eq-ok handler (err x, s1) a s' h = cc

-- Inversion of a database transaction that succeeds.
pub transaction-eq-ok :
    {S E A : Type 0} (handler : E → E) (m : Action S E A) (a : A) (s s' : S)
    → catching handler (transaction m) s ≡ (ok a, s')
    → m s ≡ (ok a, s')
transaction-eq-ok {S} {E} {A} handler m a s s' h = by_result (m s) h
  where
    by_result : (r : Result E A × S) → handle handler (rollback s r) ≡ (ok a, s') → r ≡ (ok a, s')
    by_result (ok b, s1) e = e
    by_result (err x, s1) e = cc

-- Inversion of a method that goes on and succeeds.
pub resume-eq-ok :
    {S E A B : Type 0} (f : A → Action S E B) (r : Result E A × S) (b : B) (s' : S)
    → resume f r ≡ (ok b, s')
    → (a : A) × (s1 : S) × (r ≡ (ok a, s1)) × (f a s1 ≡ (ok b, s'))
resume-eq-ok f (ok a, s1) b s' h = (a, s1, refl, h)
resume-eq-ok f (err e, s1) b s' h = cc
