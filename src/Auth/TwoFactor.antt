-- ===== src/Auth/TwoFactor.antt =====
-- A login with two factors, from the password to the tokens.
use gdl_finance_v.Auth.Window.{at}
use gdl_finance_v.Base.Action.{err, ok}
use gdl_finance_v.Auth.Access.{may_login}
use gdl_finance_v.Common.Text.{to_lower, Text}
use gdl_finance_v.Auth.Otp.{
  otp_expired, insert_action, is_pending, wat, auth_action_notification, newest,
  lazy_cleanup_expired, new_action, opportunistic_cleanup, AuthRequest, delete_actions, save_action,
  Env,
}
use gdl_finance_v.Auth.Login.{
  is_login_action, otp_required, check_status, send_login_otp, check_2fa, check_blocked,
  replace_device, check_device, find_user, VerifyOtpDto, consume_found, validate_user,
  verify_login_otp, login, consume,
}
use gdl_finance_v.Base.{
  find_one-append, ◌∙◌, ap, if◌then◌else◌, ◌+◌, ◌++◌, find_one, ◌-◌, ltb, ℕ, map, Bool-cases, inl,
  inr, refl, ◌≡◌, arith, none, some, true, false, [], ◌∷◌,
}
use gdl_finance_v.Auth.Entity.{
  AuthActions, AuthDb, Account, AccountStatus, login_otp, inactive, active, locked, banned, blocked,
}

-- Both checks of the status pass.
may_login-checks :
    (s : AccountStatus) (db : AuthDb)
    → may_login s ≡ true
    → (check_blocked s db ≡ (ok tt, db)) × (check_status s db ≡ (ok tt, db))
may_login-checks inactive db h = (refl, refl)
may_login-checks active db h = (refl, refl)
may_login-checks locked db h = cc
may_login-checks banned db h = cc
may_login-checks blocked db h = cc

-- A one-time password that is neither used nor expired is taken, and no account changes.
consume-fresh :
    (env : Env) (a : AuthActions) (db : AuthDb)
    → a.is_used ≡ false
    → ltb a.expires_at (wat env.now) ≡ false
    → ((consume env a db).0 ≡ ok tt) × ((consume env a db).1.accounts ≡ db.accounts)
unfolding consume save_action delete_actions opportunistic_cleanup lazy_cleanup_expired
consume-fresh env a db fresh early =
    elim (Bool-cases (ltb (wat env.now - db.last_cleanup) 900000)) [
      | inl recent ↦ rw (consume, early, fresh, recent) (refl, refl)
      | inr due ↦ rw (consume, early, fresh, due) (refl, refl)
    ]

consume-late :
    (env : Env) (a : AuthActions) (db : AuthDb)
    → ltb a.expires_at (wat env.now) ≡ true
    → (consume env a db).0 ≡ err otp_expired
unfolding consume delete_actions
consume-late env a db late = rw (consume, late) refl

-- The rest of `verifyLoginOtp`, for a request without a device.
finish_login :
    (env : Env) (u : Account) (dto : VerifyOtpDto) (a : AuthActions) (db : AuthDb)
    → dto.device_hash ≡ none
    → find_one (is_login_action env dto) db.actions ≡ some a
    → find_user env dto.email db ≡ some u
    → (consume env a db).0 ≡ ok tt
    → (consume env a db).1.accounts ≡ db.accounts
    → (verify_login_otp env dto db).0 ≡ ok u
unfolding verify_login_otp consume_found replace_device find_user
finish_login env u dto a db bare found known taken kept =
    let d = (consume env a db).1 in
    let run : consume env a db ≡ (ok tt, d) = cc in
    let still : find_user env dto.email d ≡ some u =
      ap (λ rows. find_one (λ (v : Account). env.same_text v.email dto.email) rows) kept ∙ known in
    rw (verify_login_otp, found, consume_found, run, still, bare) refl

refuse_login :
    (env : Env) (dto : VerifyOtpDto) (a : AuthActions) (db : AuthDb)
    → find_one (is_login_action env dto) db.actions ≡ some a
    → (consume env a db).0 ≡ err otp_expired
    → (verify_login_otp env dto db).0 ≡ err otp_expired
unfolding verify_login_otp consume_found
refuse_login env dto a db found refused =
    let d = (consume env a db).1 in
    let run : consume env a db ≡ (err otp_expired, d) = cc in
    rw (verify_login_otp, found, consume_found, run) refl

abbrev pub login_request : Account → Text → Text → AuthRequest
login_request u token otp = record {
  user_id = u.id;
  request_type = login_otp;
  request_token = token;
  request_otp = otp;
  email = u.email;
}

abbrev pub login_dto : Account → Text → VerifyOtpDto
login_dto u otp = record { email = map to_lower u.email; otp = otp; device_hash = none }

-- The user has two factors and an account that may log in, the password is right, and no login code
-- is pending for the user nor, with the digits that are drawn, in the table for the address.
pub record FreshLogin (env : Env) (u : Account) (token otp email pass : Text) (db : AuthDb)
    : Type 0 where
  pub known : find_user env email db ≡ some u
  pub lower : find_user env (map to_lower u.email) db ≡ some u
  pub accepted : may_login u.account_status ≡ true
  pub right : env.compare pass u.password ≡ true
  pub two_factor : u.is_2fa_enabled ≡ true
  pub idle : newest (is_pending env (login_request u token otp)) db.actions ≡ none
  pub unused : find_one (is_login_action env (login_dto u otp)) db.actions ≡ none
  pub reflexive : (t : Text) → env.same_text t t ≡ true

abbrev pub login_action : Env → Account → Text → Text → AuthDb → AuthActions
login_action env u token otp db = new_action env (login_request u token otp) db.next_action

login-writes :
    (env : Env) (u : Account) (token otp email pass : Text) (db : AuthDb)
    → FreshLogin env u token otp email pass db
    → login env token otp email pass none db ≡ (
      ok (otp_required false token u.email),
      record db {
        actions = db.actions ++ login_action env u token otp db ∷ [];
        next_action = db.next_action + 1;
      },
    )
unfolding login validate_user check_device check_2fa send_login_otp auth_action_notification
    insert_action
login-writes env u token otp email pass db f =
    let (open_account, good_status) = may_login-checks u.account_status db f.accepted in
    rw
      (
        login, validate_user, f.known, open_account, f.right, good_status, check_device, check_2fa,
        f.two_factor, send_login_otp, auth_action_notification, f.idle,
      )
      refl

-- A user with two factors who gives the right password is asked for a code; the code gives tokens
-- for the five minutes that follow, and is refused as expired after that, where the account may log
-- in, no login code is pending for the user, and the code that is drawn is new for the address,
-- which is found in lower case as well.
pub login-window :
    (env : Env) (u : Account) (token otp email pass : Text) (db : AuthDb) (later : ℕ)
    → FreshLogin env u token otp email pass db
    → (let (answer, written) = login env token otp email pass none db in
        (answer ≡ ok (otp_required false token u.email))
        × ((verify_login_otp (at later env) (login_dto u otp) written).0
            ≡ (if ltb (env.now + 300000) later then err otp_expired else ok u)))
unfolding find_user
login-window env u token otp email pass db later f =
    let a = login_action env u token otp db in
    let written : AuthDb = record db {
      actions = db.actions ++ a ∷ [];
      next_action = db.next_action + 1;
    } in
    let dto = login_dto u otp in
    let fits_row : is_login_action env dto a ≡ true =
      rw (f.reflexive (map to_lower u.email), f.reflexive otp) refl in
    let found = find_one-append (is_login_action env dto) a db.actions f.unused fits_row in
    let total : ltb (wat env.now + 300000) (wat later) ≡ ltb (env.now + 300000) later =
      ground arith in
    let answer : (verify_login_otp (at later env) dto written).0
        ≡ (if ltb (env.now + 300000) later then err otp_expired else ok u) =
      elim (Bool-cases (ltb (env.now + 300000) later)) [
        | inl late ↦ rw late (
            refuse_login (at later env) dto a written found
              (consume-late (at later env) a written (total ∙ late)))
        | inr early ↦
            let (taken, kept) = consume-fresh (at later env) a written refl (total ∙ early) in
            rw early (finish_login (at later env) u dto a written refl found f.lower taken kept)
      ] in
    rw (login-writes env u token otp email pass db f) (refl, answer)
