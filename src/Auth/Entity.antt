-- ===== src/Auth/Entity.antt =====
-- The rows that AuthService works on (src/user/auth/entities/auth.entity.ts,
-- src/user/device-details/entities/device-details.entity.ts, src/user/user/entities/user.entity.ts).
-- Times are numbers of milliseconds; of a user, only the columns that the modelled methods use.
use gdl_finance_v.Common.Text.{Text}
use gdl_finance_v.Base.{Bool, Option, List, ℕ, true, false}

pub data AuthRequestType : Type 0 where
  email_verify password_reset login_otp subscription_confirmation : AuthRequestType

pub record AuthActions : Type 0 where
  pub id : ℕ
  pub user_id : ℕ
  pub request_type : AuthRequestType
  pub request_token : Text
  pub request_otp : Option Text
  pub email : Text
  pub expires_at : ℕ
  pub is_used : Bool
  pub created_at : ℕ

pub data AccountStatus : Type 0 where
  inactive active locked banned blocked : AccountStatus

pub record Account : Type 0 where
  pub id : ℕ
  pub email : Text
  pub password : Text
  pub temp_login_pin : Text
  pub device_hash : Option Text
  pub account_status : AccountStatus
  pub is_2fa_enabled : Bool
  pub email_verified : Bool

pub record Device : Type 0 where
  pub id : ℕ
  pub user_id : ℕ
  pub device_hash : Text

-- The tables, the next primary keys, and `lastCleanup` of the service.
pub record AuthDb : Type 0 where
  pub actions : List AuthActions
  pub accounts : List Account
  pub devices : List Device
  pub next_action : ℕ
  pub next_device : ℕ
  pub last_cleanup : ℕ

abbrev pub same_request : AuthRequestType → AuthRequestType → Bool
same_request email_verify email_verify = true
same_request password_reset password_reset = true
same_request login_otp login_otp = true
same_request subscription_confirmation subscription_confirmation = true
same_request _ _ = false
