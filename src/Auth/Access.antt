-- ===== src/Auth/Access.antt =====
-- Who gets past the check of the password.
use gdl_finance_v.Base.Action.{ok}
use gdl_finance_v.Common.Text.{Text}
use gdl_finance_v.Auth.Otp.{Env}
use gdl_finance_v.Auth.Login.{find_user, Validated, check_blocked, DeviceData, validate_user}
use gdl_finance_v.Auth.Entity.{
  banned, locked, Account, active, inactive, blocked, AuthDb, AccountStatus,
}
use gdl_finance_v.Base.{some, ◌⊎◌, false, true, Bool, Option-cases, Bool-cases, inl, inr, refl, ◌≡◌}

-- The statuses in which the password is accepted.
abbrev pub may_login : AccountStatus → Bool
may_login inactive = true
may_login active = true
may_login locked = false
may_login banned = false
may_login blocked = false

-- A status that is not accepted is one of three, and any other passes the first check.
may_login-cases :
    (s : AccountStatus) (db : AuthDb)
    → ((may_login s ≡ true) × (check_blocked s db ≡ (ok tt, db)))
      ⊎ ((s ≡ blocked) ⊎ ((s ≡ locked) ⊎ (s ≡ banned)))
may_login-cases inactive db = inl (refl, refl)
may_login-cases active db = inl (refl, refl)
may_login-cases locked db = inr (inr (inl refl))
may_login-cases banned db = inr (inr (inr refl))
may_login-cases blocked db = inr (inl refl)

-- A login gets past the password, to tokens or to a one-time password, only with the password of
-- the account of the address, and if that account is not locked, banned or blocked.
pub validate_user-may_login :
    (env : Env) (token otp email pass : Text) (device : DeviceData) (v : Validated)
    (db db' : AuthDb)
    → validate_user env token otp email pass device db ≡ (ok v, db')
    → (u : Account) × (find_user env email db ≡ some u)
      × (env.compare pass u.password ≡ true)
      × (may_login u.account_status ≡ true)
unfolding validate_user
validate_user-may_login env token otp email pass device v db db' h =
    elim (Option-cases (find_user env email db)) [
      | inl missing ↦ let e = rw (validate_user, missing) at h in cc
      | inr (u, found) ↦ elim (Bool-cases (env.compare pass u.password)) [
        | inr wrong ↦ elim (may_login-cases u.account_status db) [
          | inl (accepted, passed) ↦ let e = rw (validate_user, found, passed, wrong) at h in cc
          | inr (inl s) ↦ let e = rw (validate_user, found, s) at h in cc
          | inr (inr (inl s)) ↦ let e = rw (validate_user, found, s, wrong) at h in cc
          | inr (inr (inr s)) ↦ let e = rw (validate_user, found, s, wrong) at h in cc
        ]
        | inl right ↦ elim (may_login-cases u.account_status db) [
          | inl (accepted, passed) ↦ (u, found, right, accepted)
          | inr (inl s) ↦ let e = rw (validate_user, found, s) at h in cc
          | inr (inr (inl s)) ↦ let e = rw (validate_user, found, s, right) at h in cc
          | inr (inr (inr s)) ↦ let e = rw (validate_user, found, s, right) at h in cc
        ]
      ]
    ]
