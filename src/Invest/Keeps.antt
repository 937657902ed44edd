-- ===== src/Invest/Keeps.antt =====
-- Methods that keep a property of the database: the rules for the parts of a method.
use gdl_finance_v.Base.{Option, none, some, Bool}
use gdl_finance_v.Base.Action.{
  Result, ok, err, resume, ◌>>=◌, catching, handle, throw, throw_if, or_throw, gets, pure,
}
use gdl_finance_v.Wallet.Entity.{WalletDb}
use gdl_finance_v.Wallet.Database.{WalletAction, WalletError}
use gdl_finance_v.Invest.Entity.{InvestDb}
use gdl_finance_v.Invest.Store.{
  InvestAction, RequestError, on_wallets, lift_result, try_catch, handle_with, ignoring_errors,
}

module _ (P : InvestDb → Type 0) where
  -- The method keeps `P`, however it ends.
  pub record Keeps {A : Type 0} (m : InvestAction A) : Type 0 where
    pub keep : (db : InvestDb) → P db → P (m db).1

  resume-keeps :
      {A B : Type 0} (f : A → InvestAction B) (r : Result RequestError A × InvestDb)
      → ((a : A) → Keeps (f a))
      → P r.1
      → P (resume f r).1
  resume-keeps f (ok a, db) k h = (k a).keep db h
  resume-keeps f (err e, db) k h = h

  pub Keeps-bind :
      {A B : Type 0} {m : InvestAction A} {f : A → InvestAction B}
      → Keeps m
      → ((a : A) → Keeps (f a))
      → Keeps (m >>= f)
  Keeps-bind {m = m} {f = f} km kf = record {
    keep = λ db h. resume-keeps f (m db) kf (km.keep db h);
  }

  pub Keeps-pure : {A : Type 0} (a : A) → Keeps (pure {E = RequestError} a)
  Keeps-pure a = record { keep = λ db h. h }

  pub Keeps-throw : {A : Type 0} (e : RequestError) → Keeps {A = A} (throw e)
  Keeps-throw e = record { keep = λ db h. h }

  pub Keeps-throw_if : (c : Bool) (e : RequestError) → Keeps (throw_if c e)
  Keeps-throw_if c e = record { keep = λ db h. h }

  pub Keeps-gets : {A : Type 0} (f : InvestDb → A) → Keeps (gets {E = RequestError} f)
  Keeps-gets f = record { keep = λ db h. h }

  pub Keeps-or_throw : {A : Type 0} (o : Option A) (e : RequestError) → Keeps (or_throw o e)
  Keeps-or_throw none e = record { keep = λ db h. h }
  Keeps-or_throw (some a) e = record { keep = λ db h. h }

  handle-keeps :
      {A : Type 0} (f : RequestError → RequestError) (r : Result RequestError A × InvestDb)
      → P r.1
      → P (handle f r).1
  handle-keeps f (ok a, db) h = h
  handle-keeps f (err e, db) h = h

  pub Keeps-catching :
      {A : Type 0} {m : InvestAction A} (f : RequestError → RequestError)
      → Keeps m
      → Keeps (catching f m)
  Keeps-catching {m = m} f k = record { keep = λ db h. handle-keeps f (m db) (k.keep db h) }

  handle_with-keeps :
      {A : Type 0} (f : RequestError → InvestAction A) (r : Result RequestError A × InvestDb)
      → ((e : RequestError) → Keeps (f e))
      → P r.1
      → P (handle_with f r).1
  handle_with-keeps f (ok a, db) k h = h
  handle_with-keeps f (err e, db) k h = (k e).keep db h

  pub Keeps-try_catch :
      {A : Type 0} {m : InvestAction A} {f : RequestError → InvestAction A}
      → Keeps m
      → ((e : RequestError) → Keeps (f e))
      → Keeps (try_catch m f)
  Keeps-try_catch {m = m} {f = f} km kf = record {
    keep = λ db h. handle_with-keeps f (m db) kf (km.keep db h);
  }

  pub Keeps-ignoring_errors :
      {A : Type 0} {m : InvestAction A} → Keeps m → Keeps (ignoring_errors m)
  Keeps-ignoring_errors k = record { keep = λ db h. k.keep db h }

  lift_result-keeps :
      {A : Type 0} (db : InvestDb) (r : Result WalletError A × WalletDb)
      → P (record db { wallets = r.1 })
      → P (lift_result db r).1
  lift_result-keeps db (ok a, w) h = h
  lift_result-keeps db (err e, w) h = h

  pub Keeps-on_wallets :
      {A : Type 0} (m : WalletAction A)
      → ((db : InvestDb) → P db → P (record db { wallets = (m db.wallets).1 }))
      → Keeps (on_wallets m)
  Keeps-on_wallets m k = record { keep = λ db h. lift_result-keeps db (m db.wallets) (k db h) }
