-- ===== src/Auth/Password.antt =====
-- New passwords and the confirmation of the address (src/user/auth/auth.service.ts): forgotPassword,
-- verifyEmail, createNewPassword, resetPassword, confirmEmailVerifyAction.
use gdl_finance_v.Base.Action.{throw, or_throw, gets, pure, ◌>>=◌, ◌>>◌, ok}
use gdl_finance_v.Auth.Login.{
  requires_2fa, requires_device_verification, valid, validate_user, find_user,
}
use gdl_finance_v.Common.Text.{text_eq, Text}
use gdl_finance_v.Auth.Otp.{
  empty_criteria, type_error, token_verify_action, auth_action_notification, AuthAction,
  TokenVerifyActionDto, Env,
}
use gdl_finance_v.Base.{
  true, none, some, [], if◌then◌else◌, find_one, ◌==◌, update_where, Option, ℕ,
}
use gdl_finance_v.Auth.Entity.{AuthActions, Account, active, password_reset, email_verify}

-- `userService.update`: the columns of the row, and the row read back.
unfoldable pub update_user : ℕ → (Account → Account) → AuthAction (Option Account)
update_user id f db =
    let rows = update_where (λ u. u.id == id) f db.accounts in
    (ok (find_one (λ (u : Account). u.id == id) rows), record db { accounts = rows })

-- `forgotPassword`: the token, or `none` for the answer without one.
unfoldable pub forgot_password : Env → Text → Text → Text → AuthAction (Option Text)
forgot_password env token otp email db = elim (find_user env email db) [
  | none ↦ (ok none, db)
  | some u ↦
      (auth_action_notification env (record {
        user_id = u.id;
        request_type = password_reset;
        request_token = token;
        request_otp = otp;
        email = email;
      })
          >>= λ a. pure (some (if text_eq a.request_token [] then token else a.request_token)))
        db
]

-- `verifyEmail`: the row, and the token that was drawn.
unfoldable pub verify_email : Env → Text → Text → Text → ℕ → AuthAction (AuthActions × Text)
verify_email env token otp email user_id = do
  a ← auth_action_notification env (record {
    user_id = user_id;
    request_type = email_verify;
    request_token = token;
    request_otp = otp;
    email = email;
  })
  pure (a, token)

-- CreateNewPasswordDto
pub record CreateNewPasswordDto : Type 0 where
  pub email : Text
  pub request_token : Text
  pub request_otp : Text
  pub otp : Text
  pub new_password : Text

abbrev pub token_dto : CreateNewPasswordDto → TokenVerifyActionDto
token_dto dto = record {
  email = dto.email;
  request_token = dto.request_token;
  request_otp = if text_eq dto.request_otp [] then dto.otp else dto.request_otp;
}

-- The part that follows the check of the token.
unfoldable pub set_password : Env → CreateNewPasswordDto → AuthAction (Option Account)
unfolding update_user
set_password env dto = do
  found ← gets (find_user env dto.email)
  u ← or_throw found type_error
  update_user u.id (λ v. record v { password = env.hash dto.new_password })

unfoldable pub create_new_password : Env → CreateNewPasswordDto → AuthAction (Option Account)
unfolding set_password
create_new_password env dto = token_verify_action env (token_dto dto) >> set_password env dto

-- `resetPassword`. An answer of `validateUser` that is not a user has no `id`, and an update
-- without a criterion is refused by TypeORM.
unfoldable pub reset_password : Env → Text → Text → Text → Text → Text → AuthAction (Option Account)
unfolding update_user
reset_password env token otp email old_password new_password = do
  v ← validate_user env token otp email old_password none
  elim v [
    | valid u ↦ update_user u.id (λ w. record w { password = env.hash new_password })
    | requires_device_verification t e ↦ throw empty_criteria
    | requires_2fa t e ↦ throw empty_criteria
  ]

unfoldable pub confirm_email_verify_action :
    Env → TokenVerifyActionDto → AuthAction (Option Account)
unfolding update_user
confirm_email_verify_action env dto = do
  a ← token_verify_action env dto
  update_user a.user_id (λ u. record u { email_verified = true; account_status = active })
