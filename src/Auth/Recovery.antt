-- ===== src/Auth/Recovery.antt =====
-- What a code for a new password opens: it works once, and it confirms the address as well.
use gdl_finance_v.Auth.Login.{find_user}
use gdl_finance_v.Auth.Window.{
  token_verify_action-used, marked-found, token_verify_action-eq-ok, forgot_password-writes,
  forgot_password-found, reset_dto, at, FreshReset,
}
use gdl_finance_v.Base.Action.{Result, resume-eq-ok, err, ok}
use gdl_finance_v.Common.Text.{Text}
use gdl_finance_v.Auth.Entity.{AuthActions, active, AuthDb, Account}
use gdl_finance_v.Auth.Otp.{
  fits, AuthError, marked, wat, invalid_otp, delete_actions, save_action, token_verify_action, Env,
}
use gdl_finance_v.Auth.Password.{
  set_password, forgot_password, token_dto, CreateNewPasswordDto, confirm_email_verify_action,
  create_new_password, update_user,
}
use gdl_finance_v.Base.{
  sym, ◌∙◌, some-injective, ◌∷◌, [], ◌∷◌, ap, false, ltb, true, ◌+◌, ◌≤◌, ◌==◌, update_where,
  Option, some, find_one, ℕ, List, Bool, Option-cases, Bool-cases, inl, inr, refl, ◌≡◌, arith,
}

find_one-updated {ℓ} :
    {A : Type ℓ} (p : A → Bool) (f : A → A) (a : A) (xs : List A)
    → ((x : A) → p (f x) ≡ p x)
    → find_one p xs ≡ some a
    → find_one p (update_where p f xs) ≡ some (f a)
find_one-updated p f a [] keeps found = cc
find_one-updated p f a (x ∷ xs) keeps found = elim (Bool-cases (p x)) [
  | inl hit ↦
      let e : x ≡ a = some-injective x a (rw hit at found) in
      let kept = keeps x ∙ hit in rw (hit, kept) (ap (λ y. some (f y)) e)
  | inr miss ↦ rw (miss, miss) (find_one-updated p f a xs keeps (rw miss at found))
]

set_password-actions :
    (env : Env) (dto : CreateNewPasswordDto) (r : Option Account) (db db' : AuthDb)
    → set_password env dto db ≡ (ok r, db')
    → db'.actions ≡ db.actions
unfolding set_password update_user
set_password-actions env dto r db db' h = elim (Option-cases (find_user env dto.email db)) [
  | inl missing ↦ let e = rw (set_password, missing) at h in cc
  | inr (u, found) ↦
      let e = rw (set_password, found) at h in
      sym (ap (λ (x : Result AuthError (Option Account) × AuthDb). x.1.actions) e)
]

-- After a new password has been set, the token and the code that did it are refused for good, and
-- nothing changes.
pub create_new_password_once :
    (env : Env) (dto again : CreateNewPasswordDto) (later : ℕ) (u : Option Account)
    (db db' : AuthDb)
    → create_new_password env dto db ≡ (ok u, db')
    → token_dto again ≡ token_dto dto
    → create_new_password (at later env) again db' ≡ (err invalid_otp, db')
unfolding create_new_password
create_new_password_once env dto again later u db db' h same =
    let (a, db1, run, rest) =
      resume-eq-ok (λ _. set_password env dto) (token_verify_action env (token_dto dto) db) u db'
        h in
    let (b, found, written) = token_verify_action-eq-ok env (token_dto dto) a db db1 run in
    let kept : db'.actions ≡ db1.actions = set_password-actions env dto u db1 db' rest in
    let rows = update_where (λ (c : AuthActions). c.id == b.id) (λ _. marked b) db.actions in
    let moved : db'.actions ≡ rows = kept ∙ ap (λ (d : AuthDb). d.actions) written in
    let used : find_one (fits env (token_dto again)) db'.actions ≡ some (marked b) =
      rw (same, moved) (marked-found env (token_dto dto) b db.actions found) in
    let refused =
      token_verify_action-used (at later env) (token_dto again) (marked b) db' used refl in
    rw (create_new_password, refused) refl

-- The code that `forgotPassword` sends to any user, whatever the status of the account, also
-- confirms the address, and makes the account active.
pub forgot_password-unblocks :
    (env : Env) (u : Account) (token otp email : Text) (db : AuthDb) (later : ℕ)
    → FreshReset env u token otp email db
    → find_one (λ (v : Account). v.id == u.id) db.accounts ≡ some u
    → later ≤ env.now + 3900000
    → (confirm_email_verify_action
        (at later env)
        (reset_dto token otp email)
        (forgot_password env token otp email db).1).0
      ≡ ok (some (record u { email_verified = true; account_status = active }))
unfolding confirm_email_verify_action token_verify_action save_action delete_actions update_user
forgot_password-unblocks env u token otp email db later f key intime =
    let found = forgot_password-found env u token otp email db f in
    let writes = forgot_password-writes env u token otp email db f in
    let early : ltb (wat env.now + 300000) later ≡ false = ground arith in
    let accounts : (forgot_password env token otp email db).1.accounts ≡ db.accounts =
      ap (λ (d : AuthDb). d.accounts) writes in
    let updated =
      find_one-updated (λ (v : Account). v.id == u.id)
        (λ (v : Account). record v { email_verified = true; account_status = active }) u db.accounts
        (λ v. refl) key in
    rw (confirm_email_verify_action, token_verify_action, found, early, accounts, updated) refl
