-- ===== src/Auth/Tests.antt =====
-- A blocked user who asks for a new password, and runs on that table.
use gdl_finance_v.Auth.TwoFactor.{login-window, login_dto, FreshLogin}
use gdl_finance_v.Auth.Recovery.{create_new_password_once, forgot_password-unblocks}
use gdl_finance_v.Auth.Access.{validate_user-may_login, may_login}
use gdl_finance_v.Base.Action.{err, ok}
use gdl_finance_v.Auth.Window.{forgot_password-window, reset_action, reset_dto, FreshReset, at}
use gdl_finance_v.Auth.Password.{
  set_password, forgot_password, create_new_password, CreateNewPasswordDto,
  confirm_email_verify_action,
}
use gdl_finance_v.Auth.Login.{
  verify_login_otp, otp_required, login, valid, check_2fa, check_device, validate_user, find_user,
}
use gdl_finance_v.Common.Text.{text_eq_refl, codes, text_eq, Text}
use gdl_finance_v.Auth.Entity.{blocked, active, AuthDb, Account}
use gdl_finance_v.Auth.Otp.{
  auth_action_notification, invalid_otp, marked, newest, token_verify_action, Env,
}
use gdl_finance_v.Base.{false, ◌≡◌, true, [], ◌∷◌, none, some, refl, arith}

abbrev plain_env : Env
plain_env = record {
  now = 1000;
  db_now = 1000;
  same_text = text_eq;
  hash = λ t. b'#' ∷ t;
  compare = λ t h. text_eq (b'#' ∷ t) h;
  delivers = λ id. true;
}

abbrev ada : Account
ada = record {
  id = 7;
  email = codes "ada@gdl.test";
  password = codes "#secret";
  temp_login_pin = codes "#1234";
  device_hash = none;
  account_status = blocked;
  is_2fa_enabled = false;
  email_verified = true;
}

abbrev active_ada : Account
active_ada = record ada { account_status = active }

abbrev accounts_of : Account → AuthDb
accounts_of u = record {
  actions = [];
  accounts = u ∷ [];
  devices = [];
  next_action = 1;
  next_device = 1;
  last_cleanup = 0;
}

abbrev token : Text
token = codes "150000"

abbrev code_sent : Text
code_sent = codes "123456"

abbrev asked : AuthDb
asked = (forgot_password plain_env token code_sent (codes "ada@gdl.test") (accounts_of ada)).1

fresh_reset : FreshReset plain_env ada token code_sent (codes "ada@gdl.test") (accounts_of ada)
unfolding find_user newest text_eq
fresh_reset = record { known = refl; idle = refl; unused = refl; reflexive = text_eq_refl }

forgot_password-window_example :
    (token_verify_action
      (at 3900000 plain_env)
      (reset_dto token code_sent (codes "ada@gdl.test"))
      asked).0
    ≡ ok (
        marked
          (reset_action plain_env ada token code_sent (codes "ada@gdl.test") (accounts_of ada)))
forgot_password-window_example =
    forgot_password-window plain_env ada token code_sent (codes "ada@gdl.test") (accounts_of ada)
      3900000 fresh_reset

forgot_password-unblocks_example :
    (confirm_email_verify_action
      (at 2000 plain_env)
      (reset_dto token code_sent (codes "ada@gdl.test"))
      asked).0
    ≡ ok (some (record ada { email_verified = true; account_status = active }))
forgot_password-unblocks_example =
    forgot_password-unblocks plain_env ada token code_sent (codes "ada@gdl.test") (accounts_of ada)
      2000 fresh_reset refl (omega arith)

abbrev new_password_dto : CreateNewPasswordDto
new_password_dto = record {
  email = codes "ada@gdl.test";
  request_token = token;
  request_otp = code_sent;
  otp = [];
  new_password = codes "better";
}

abbrev changed : AuthDb
changed = (create_new_password plain_env new_password_dto asked).1

create_new_password_once_example :
    create_new_password (at 5000 plain_env) new_password_dto changed ≡ (err invalid_otp, changed)
unfolding create_new_password set_password token_verify_action forgot_password find_user newest
    text_eq auth_action_notification
create_new_password_once_example =
    create_new_password_once plain_env new_password_dto new_password_dto 5000
      (some (record ada { password = codes "#better" })) asked changed refl refl

validate_user-may_login_example :
    (u : Account) × (find_user plain_env (codes "ada@gdl.test") (accounts_of active_ada) ≡ some u)
    × (plain_env.compare (codes "secret") u.password ≡ true)
    × (may_login u.account_status ≡ true)
unfolding validate_user find_user check_device check_2fa text_eq
validate_user-may_login_example =
    validate_user-may_login plain_env token code_sent (codes "ada@gdl.test") (codes "secret") none
      (valid active_ada) (accounts_of active_ada) (accounts_of active_ada) refl

abbrev careful_ada : Account
careful_ada = record active_ada { is_2fa_enabled = true }

careful_ada-FreshLogin :
    FreshLogin plain_env careful_ada token code_sent
      (codes "ada@gdl.test")
      (codes "secret")
      (accounts_of careful_ada)
unfolding find_user newest text_eq
careful_ada-FreshLogin = record {
  known = refl;
  lower = refl;
  accepted = refl;
  right = refl;
  two_factor = refl;
  idle = refl;
  unused = refl;
  reflexive = text_eq_refl;
}

login-window_example :
    (let (answer, written) =
        login plain_env token code_sent
          (codes "ada@gdl.test")
          (codes "secret")
          none
          (accounts_of careful_ada) in
      (answer ≡ ok (otp_required false token (codes "ada@gdl.test")))
      × ((verify_login_otp (at 301000 plain_env) (login_dto careful_ada code_sent) written).0
          ≡ ok careful_ada))
login-window_example =
    login-window plain_env careful_ada token code_sent (codes "ada@gdl.test") (codes "secret")
      (accounts_of careful_ada) 301000 careful_ada-FreshLogin
