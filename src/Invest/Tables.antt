-- ===== src/Invest/Tables.antt =====
-- The request tables: what a save of a request changes, and what it leaves alone.
use gdl_finance_v.Base.{
  find_one_holds, sym, ℕ, some, List, ◌≡◌, refl, ap, ◌∙◌, ◌==◌, find_one, update_where,
  update_where-twice, find_one-saved,
}
use gdl_finance_v.Base.Action.{ok}
use gdl_finance_v.Wallet.Entity.{WalletDb}
use gdl_finance_v.Wallet.Service.{InvestmentPoolType, mmf, canary, income}
use gdl_finance_v.Invest.Entity.{InvestmentRequest, InvestDb}
use gdl_finance_v.Invest.Store.{requests_of, with_requests, save_request, find_investment}

-- The table with the row in the place of the one with its id.
abbrev pub rows_with : InvestmentRequest → List InvestmentRequest → List InvestmentRequest
rows_with r = update_where (λ x. x.id == r.id) (λ _. r)

-- The database after a save.
abbrev pub saved : InvestmentPoolType → InvestmentRequest → InvestDb → InvestDb
saved fund r db = with_requests fund (rows_with r (requests_of fund db)) db

pub save_request_lem :
    (fund : InvestmentPoolType) (r : InvestmentRequest) (db : InvestDb)
    → save_request fund r db ≡ (ok tt, saved fund r db)
unfolding save_request
save_request_lem fund r db = refl

pub with_requests-wallets :
    (fund : InvestmentPoolType) (rows : List InvestmentRequest) (db : InvestDb)
    → (with_requests fund rows db).wallets ≡ db.wallets
unfolding with_requests
with_requests-wallets mmf rows db = refl
with_requests-wallets canary rows db = refl
with_requests-wallets income rows db = refl

pub saved-wallets :
    (fund : InvestmentPoolType) (r : InvestmentRequest) (db : InvestDb)
    → (saved fund r db).wallets ≡ db.wallets
saved-wallets fund r db = with_requests-wallets fund (rows_with r (requests_of fund db)) db

pub requests_of-with_requests :
    (fund : InvestmentPoolType) (rows : List InvestmentRequest) (db : InvestDb)
    → requests_of fund (with_requests fund rows db) ≡ rows
unfolding with_requests requests_of
requests_of-with_requests mmf rows db = refl
requests_of-with_requests canary rows db = refl
requests_of-with_requests income rows db = refl

-- A payment leaves the tables alone.
pub requests_of_paid :
    (fund : InvestmentPoolType) (db : InvestDb) (w : WalletDb)
    → requests_of fund (record db { wallets = w }) ≡ requests_of fund db
unfolding requests_of
requests_of_paid mmf db w = refl
requests_of_paid canary db w = refl
requests_of_paid income db w = refl

module _ (fund : InvestmentPoolType) (a b : InvestmentRequest) (db : InvestDb) (w : WalletDb) where
  -- Of two saves of a row with a payment between them, the second stays.
  pub rows_saved_twice :
      b.id ≡ a.id
      → requests_of fund (saved fund b (record (saved fund a db) { wallets = w }))
        ≡ rows_with b (requests_of fund db)
  rows_saved_twice same =
      requests_of-with_requests fund _ _
      ∙ (ap (rows_with b)
            (requests_of_paid fund (saved fund a db) w ∙ requests_of-with_requests fund _ db)
          ∙ update_where-twice (λ (r : InvestmentRequest). r.id) b.id a b (requests_of fund db)
              (sym same) refl)

-- A row that was found and saved is found again.
pub find_investment-saved :
    (fund : InvestmentPoolType) (id : ℕ) (a b : InvestmentRequest) (db db' : InvestDb)
    → find_investment fund id db ≡ some a
    → b.id ≡ a.id
    → requests_of fund db' ≡ rows_with b (requests_of fund db)
    → find_investment fund id db' ≡ some b
find_investment-saved fund id a b db db' found same rows =
    ap (find_one (λ r. r.id == id)) rows
    ∙ find_one-saved (λ (r : InvestmentRequest). r.id) (λ r. r.id == id) a b (requests_of fund db)
        found same
        (ap (λ n. n == id) same ∙ find_one_holds (λ r. r.id == id) a (requests_of fund db) found)
