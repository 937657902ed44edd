-- ===== src/Auth/Login.antt =====
-- How a user logs in (src/user/auth/auth.service.ts): validateUser, login, verifyLoginOtp,
-- loginWithTempPin and refreshToken. The tokens, which are JSON web tokens, are given as the user
-- whom they name.
use gdl_finance_v.Base.Action.{or_throw, gets, ◌>>=◌, ◌>>◌, throw_if, ◌>>◌, pure, throw, ok}
use gdl_finance_v.Common.Text.{text_eq, Text}
use gdl_finance_v.Auth.Otp.{
  inactive_user, invalid_credentials, type_error, incorrect_login, unrecognized_device, invalid_otp,
  user_not_found, lazy_cleanup_expired, opportunistic_cleanup, marked, save_action, otp_used,
  notification_failed, otp_expired, delete_actions, wat, holds, account_banned, account_blocked,
  account_locked, auth_action_notification, AuthRequest, AuthAction, Env,
}
use gdl_finance_v.Base.{
  not, any, ltb, none, if◌then◌else◌, some, ◌+◌, [], ◌==◌, ◌∷◌, find_all, false, ◌++◌, true, ◌&&◌,
  List, find_one, Bool, ℕ, Option,
}
use gdl_finance_v.Auth.Entity.{
  same_request, Device, AuthActions, AuthDb, AccountStatus, Account, blocked, locked, banned,
  active, login_otp,
}

-- The columns of a device, of which the model keeps the hash.
abbrev pub DeviceData : Type 0
DeviceData = Option Text

abbrev pub given : DeviceData → Option Text
given none = none
given (some []) = none
given (some (c ∷ cs)) = some (c ∷ cs)

unfoldable pub find_user : Env → Text → AuthDb → Option Account
find_user env email db = find_one (λ u. env.same_text u.email email) db.accounts

unfoldable pub user_devices : Account → AuthDb → List Device
user_devices u db = find_all (λ d. d.user_id == u.id) db.devices

unfoldable pub create_device : Account → Text → AuthAction (Unit {0})
create_device u hash db = (
  ok tt,
  record db {
    devices = db.devices ++ record { id = db.next_device; user_id = u.id; device_hash = hash } ∷ [];
    next_device = db.next_device + 1;
  },
)

-- What `validateUser` returns.
pub data Validated : Type 0 where
  valid : Account → Validated
  requires_device_verification : Text → Text → Validated
  requires_2fa : Text → Text → Validated

-- The one-time password for a login. The call is not waited for; here it has ended before anything
-- else happens, and its errors are dropped as the source drops them.
unfoldable pub send_login_otp : Env → Account → Text → Text → AuthAction (Unit {0})
send_login_otp env u token otp db =
    let q : AuthRequest = record {
      user_id = u.id;
      request_type = login_otp;
      request_token = token;
      request_otp = otp;
      email = u.email;
    } in
    (ok tt, (auth_action_notification env q db).1)

unfoldable pub check_2fa : Env → Text → Text → Account → AuthAction Validated
unfolding send_login_otp
check_2fa env token otp u =
    if u.is_2fa_enabled
    then (send_login_otp env u token otp >> pure (requires_2fa token u.email))
    else pure (valid u)

unfoldable pub check_device : Env → Text → Text → DeviceData → Account → AuthAction Validated
unfolding check_2fa send_login_otp create_device
check_device env token otp device u db = elim (given device) [
  | none ↦ check_2fa env token otp u db
  | some hash ↦ elim (user_devices u db) [
    | [] ↦ (create_device u hash >> check_2fa env token otp u) db
    | d ∷ ds ↦
        if any (λ e. text_eq e.device_hash hash) (d ∷ ds)
        then check_2fa env token otp u db
        else (send_login_otp env u token otp >> pure (requires_device_verification token u.email))
            db
  ]
]

-- The status of the account, once the password has been found right.
abbrev pub check_status : AccountStatus → AuthAction (Unit {0})
check_status locked = throw account_locked
check_status banned = throw account_banned
check_status _ = pure tt

abbrev pub check_blocked : AccountStatus → AuthAction (Unit {0})
check_blocked blocked = throw account_blocked
check_blocked _ = pure tt

-- With the token and the one-time password that are drawn where they are needed.
unfoldable pub validate_user : Env → Text → Text → Text → Text → DeviceData → AuthAction Validated
unfolding check_device
validate_user env token otp email pass device = do
  found ← gets (find_user env email)
  u ← or_throw found user_not_found
  check_blocked u.account_status
  throw_if (not (env.compare pass u.password)) incorrect_login
  check_status u.account_status
  check_device env token otp device u

pub data LoginAnswer : Type 0 where
  tokens : Account → LoginAnswer
  otp_required : Bool → Text → Text → LoginAnswer

unfoldable pub login : Env → Text → Text → Text → Text → DeviceData → AuthAction LoginAnswer
unfolding validate_user
login env token otp email pass device = do
  v ← validate_user env token otp email pass device
  pure (elim v [
    | valid u ↦ tokens u
    | requires_device_verification t e ↦ otp_required true t e
    | requires_2fa t e ↦ otp_required false t e
  ])

-- VerifyOtpDto
pub record VerifyOtpDto : Type 0 where
  pub email : Text
  pub otp : Text
  pub device_hash : DeviceData

abbrev pub is_login_action : Env → VerifyOtpDto → AuthActions → Bool
is_login_action env dto a =
    env.same_text a.email dto.email
    && same_request a.request_type login_otp
    && holds env.same_text a.request_otp dto.otp

-- The devices of the user give way to a new one, and the user is told.
unfoldable pub replace_device : Env → DeviceData → Account → AuthAction (Unit {0})
unfolding create_device
replace_device env device u db = elim (given device) [
  | none ↦ (ok tt, db)
  | some hash ↦
      if any (λ e. text_eq e.device_hash hash) (user_devices u db)
      then (ok tt, db)
      else ((λ d. (ok tt, record d { devices = find_all (λ e. not (e.user_id == u.id)) d.devices }))
            >> create_device u hash
            >> throw_if (not (env.delivers u.id)) notification_failed)
          db
]

-- From the row with the one-time password on.
unfoldable pub consume : Env → AuthActions → AuthAction (Unit {0})
consume env a =
    if ltb a.expires_at (wat env.now)
    then (delete_actions (λ b. b.id == a.id) >> throw otp_expired)
    else (if a.is_used
        then throw otp_used
        else (save_action (marked a)
            >> delete_actions (λ b. b.id == a.id)
            >> opportunistic_cleanup env))

unfoldable pub consume_found : Env → Option AuthActions → AuthAction (Unit {0})
unfolding consume
consume_found env none = lazy_cleanup_expired env >> throw invalid_otp
consume_found env (some a) = consume env a

unfoldable pub verify_login_otp : Env → VerifyOtpDto → AuthAction Account
unfolding consume_found replace_device
verify_login_otp env dto = do
  found ← gets (λ db. find_one (is_login_action env dto) db.actions)
  consume_found env found
  account ← gets (find_user env dto.email)
  u ← or_throw account type_error
  replace_device env dto.device_hash u
  pure u

-- `loginWithTempPin`, with `validateUserWithTempPin`.
unfoldable pub login_with_temp_pin : Env → Text → Text → Text → AuthAction Account
login_with_temp_pin env device_hash email pin = do
  found ← gets (λ db.
      find_one
        (λ (u : Account).
          holds env.same_text u.device_hash device_hash && env.same_text u.email email)
        db.accounts)
  u ← or_throw found unrecognized_device
  check_status u.account_status
  throw_if (not (env.compare pin u.temp_login_pin)) invalid_credentials
  pure u

abbrev pub is_active : AccountStatus → Bool
is_active active = true
is_active _ = false

-- `refreshToken`, from the user that the verified refresh token names on.
unfoldable pub refresh_token : ℕ → AuthAction Account
refresh_token user_id = do
  found ← gets (λ db. find_one (λ (u : Account). u.id == user_id) db.accounts)
  u ← or_throw found user_not_found
  throw_if (not (is_active u.account_status)) inactive_user
  pure u
