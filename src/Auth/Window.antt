-- ===== src/Auth/Window.antt =====
-- How long a one-time password of `forgotPassword` is accepted, and how often.
use gdl_finance_v.Base.Action.{err, ok}
use gdl_finance_v.Auth.Login.{find_user}
use gdl_finance_v.Auth.Password.{forgot_password}
use gdl_finance_v.Common.Text.{to_lower, Text}
use gdl_finance_v.Auth.Entity.{password_reset, AuthActions, AuthDb, Account}
use gdl_finance_v.Auth.Otp.{
  wat, otp_expired, invalid_otp, marked, is_pending, newest, new_action, fits, insert_action,
  delete_actions, auth_action_notification, AuthRequest, TokenVerifyActionDto, save_action, Env,
  token_verify_action,
}
use gdl_finance_v.Base.{
  find_one-append, arith, if◌then◌else◌, find_one_holds, find_one-saved, ltb, ◌∙◌, ◌+◌, ap, ◌==◌,
  [], ◌∷◌, update_where, true, ◌++◌, some, none, map, find_one, List, ℕ, Option-cases, Bool-cases,
  inl, inr, refl, ◌≡◌,
}

-- The surroundings at another time.
abbrev pub at : ℕ → Env → Env
at t env = record env { now = t }

-- Inversion of a verification that succeeds.
pub token_verify_action-eq-ok :
    (env : Env) (dto : TokenVerifyActionDto) (a : AuthActions) (db db' : AuthDb)
    → token_verify_action env dto db ≡ (ok a, db')
    → (b : AuthActions) × (find_one (fits env dto) db.actions ≡ some b)
      × (db' ≡ record db { actions = update_where (λ c. c.id == b.id) (λ _. marked b) db.actions })
unfolding token_verify_action save_action delete_actions
token_verify_action-eq-ok env dto a db db' h =
    elim (Option-cases (find_one (fits env dto) db.actions)) [
      | inl missing ↦ let e = rw (token_verify_action, missing) at h in cc
      | inr (b, found) ↦ elim (Bool-cases b.is_used) [
        | inl used ↦ let e = rw (token_verify_action, found, used) at h in cc
        | inr fresh ↦ elim (Bool-cases (ltb b.expires_at env.now)) [
          | inl late ↦ let e = rw (token_verify_action, found, fresh, late) at h in cc
          | inr early ↦ let e = rw (token_verify_action, found, fresh, early) at h in (b, found, cc)
        ]
      ]
    ]

-- A verification of a row that is used is refused and changes nothing.
pub token_verify_action-used :
    (env : Env) (dto : TokenVerifyActionDto) (b : AuthActions) (db : AuthDb)
    → find_one (fits env dto) db.actions ≡ some b
    → b.is_used ≡ true
    → token_verify_action env dto db ≡ (err invalid_otp, db)
unfolding token_verify_action
token_verify_action-used env dto b db found used = rw (token_verify_action, found, used) refl

-- The row that was verified is found again, used.
pub marked-found :
    (env : Env) (dto : TokenVerifyActionDto) (b : AuthActions) (rows : List AuthActions)
    → find_one (fits env dto) rows ≡ some b
    → find_one (fits env dto) (update_where (λ c. c.id == b.id) (λ _. marked b) rows)
      ≡ some (marked b)
marked-found env dto b rows found =
    find_one-saved (λ (c : AuthActions). c.id) (fits env dto) b (marked b) rows found refl
      (find_one_holds (fits env dto) b rows found)

-- The row that `forgotPassword` writes where nothing is pending, and the request for it.
abbrev pub reset_request : Account → Text → Text → Text → AuthRequest
reset_request u token otp email = record {
  user_id = u.id;
  request_type = password_reset;
  request_token = token;
  request_otp = otp;
  email = email;
}

abbrev pub reset_dto : Text → Text → Text → TokenVerifyActionDto
reset_dto token otp email = record {
  email = map to_lower email;
  request_token = token;
  request_otp = otp;
}

-- The user is there, has no unused code for a new password, and the token and the code that are
-- drawn are not in the table for the address.
pub record FreshReset (env : Env) (u : Account) (token otp email : Text) (db : AuthDb)
    : Type 0 where
  pub known : find_user env email db ≡ some u
  pub idle : newest (is_pending env (reset_request u token otp email)) db.actions ≡ none
  pub unused : find_one (fits env (reset_dto token otp email)) db.actions ≡ none
  pub reflexive : (t : Text) → env.same_text t t ≡ true

abbrev pub reset_action : Env → Account → Text → Text → Text → AuthDb → AuthActions
reset_action env u token otp email db =
    new_action env (reset_request u token otp email) db.next_action

pub forgot_password-writes :
    (env : Env) (u : Account) (token otp email : Text) (db : AuthDb)
    → FreshReset env u token otp email db
    → (forgot_password env token otp email db).1 ≡ record db {
      actions = db.actions ++ reset_action env u token otp email db ∷ [];
      next_action = db.next_action + 1;
    }
unfolding forgot_password auth_action_notification insert_action
forgot_password-writes env u token otp email db f =
    rw (forgot_password, f.known, auth_action_notification, f.idle) refl

pub forgot_password-found :
    (env : Env) (u : Account) (token otp email : Text) (db : AuthDb)
    → FreshReset env u token otp email db
    → (let (_, written) = forgot_password env token otp email db in
        find_one (fits env (reset_dto token otp email)) written.actions)
      ≡ some (reset_action env u token otp email db)
forgot_password-found env u token otp email db f =
    let writes = forgot_password-writes env u token otp email db f in
    let fits_row : fits env (reset_dto token otp email) (reset_action env u token otp email db)
        ≡ true =
      rw (f.reflexive otp, f.reflexive token, f.reflexive (map to_lower email)) refl in
    ap (λ (d : AuthDb). find_one (fits env (reset_dto token otp email)) d.actions) writes
    ∙ find_one-append (fits env (reset_dto token otp email)) (reset_action env u token otp email db)
        db.actions f.unused fits_row

-- A code for a new password is accepted for 65 minutes from when it was asked for, and refused as
-- expired after that, where the user has no other code pending and the token and the code that are
-- drawn are new.
pub forgot_password-window :
    (env : Env) (u : Account) (token otp email : Text) (db : AuthDb) (later : ℕ)
    → FreshReset env u token otp email db
    → (token_verify_action
        (at later env)
        (reset_dto token otp email)
        (forgot_password env token otp email db).1).0
      ≡ (if ltb (env.now + 3900000) later
          then err otp_expired
          else ok (marked (reset_action env u token otp email db)))
unfolding token_verify_action save_action delete_actions
forgot_password-window env u token otp email db later f =
    let found = forgot_password-found env u token otp email db f in
    let total : ltb (wat env.now + 300000) later ≡ ltb (env.now + 3900000) later = ground arith in
    elim (Bool-cases (ltb (env.now + 3900000) later)) [
      | inl late ↦ let e = total ∙ late in rw (token_verify_action, found, e, late) refl
      | inr early ↦ let e = total ∙ early in rw (token_verify_action, found, e, early) refl
    ]
