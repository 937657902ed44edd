-- ===== src/Auth/Otp.antt =====
-- The one-time passwords of AuthService (src/user/auth/auth.service.ts): authActionNotification,
-- tokenVerifyAction, resendOtp and the clean-up. The e-mails are left out: they are sent without
-- waiting for them, and their errors are logged only.
use gdl_finance_v.Common.Cors.{split}
use gdl_finance_v.Auth.Entity.{
  password_reset, same_request, Account, AuthRequestType, AuthDb, AuthActions,
}
use gdl_finance_v.Common.Text.{text_eq, to_lower, Text}
use gdl_finance_v.Base.Action.{
  throw_if, or_throw, gets, ◌>>=◌, ◌>>◌, throw, pure, ◌>>◌, err, ok, Action,
}
use gdl_finance_v.Base.{
  ◌/◌, if◌then◌else◌, leb, [], any, ◌-◌, ◌∷◌, ◌||◌, none, not, false, ◌&&◌, ◌++◌, map, ◌==◌,
  update_where, find_all, List, Option, length, find_one, true, some, ◌+◌, Bool, ltb, ℕ,
}

-- What the surroundings decide: the clock of the service, the clock that CURRENT_TIMESTAMP of the
-- database shows, when two texts are equal to the database, bcrypt, and whether an e-mail that is
-- waited for can be handed over.
pub record Env : Type 0 where
  pub now : ℕ
  pub db_now : ℕ
  pub same_text : Text → Text → Bool
  pub hash : Text → Text
  pub compare : Text → Text → Bool
  pub delivers : ℕ → Bool

pub data AuthError : Type 0 where
  invalid_otp otp_expired otp_used incorrect_login account_blocked account_locked : AuthError
  account_banned unrecognized_device invalid_credentials user_not_found inactive_user : AuthError
  invalid_email wait_for_otp notification_failed type_error empty_criteria : AuthError

abbrev pub AuthAction : Type 0 → Type 0
AuthAction A = Action AuthDb AuthError A

-- `new Date(new Date().getTime() + 60 * 60 * 1000)`
abbrev pub wat : ℕ → ℕ
wat now = now + 3600000

abbrev pub holds : (Text → Text → Bool) → Option Text → Text → Bool
holds same none t = false
holds same (some s) t = same s t

-- `findOne` with the newest row first.
unfoldable pub newest : (AuthActions → Bool) → List AuthActions → Option AuthActions
newest p [] = none
newest p (a ∷ rows) =
    let rest = newest p rows in
    if p a
    then (elim rest [
      | none ↦ some a
      | some b ↦ (if ltb b.created_at a.created_at then some a else some b)
    ])
    else rest

unfoldable pub delete_actions : (AuthActions → Bool) → AuthAction (Unit {0})
delete_actions p db = (ok tt, record db { actions = find_all (λ a. not (p a)) db.actions })

unfoldable pub save_action : AuthActions → AuthAction (Unit {0})
save_action a db =
    (ok tt, record db { actions = update_where (λ b. b.id == a.id) (λ _. a) db.actions })

-- The argument of `authActionNotification`, without the e-mail.
pub record AuthRequest : Type 0 where
  pub user_id : ℕ
  pub request_type : AuthRequestType
  pub request_token : Text
  pub request_otp : Text
  pub email : Text

-- An unused one-time password of the kind, for the user or for the address.
abbrev pub is_pending : Env → AuthRequest → AuthActions → Bool
is_pending env q a =
    (a.user_id == q.user_id || env.same_text a.email (map to_lower q.email))
    && same_request a.request_type q.request_type
    && not a.is_used

abbrev pub new_action : Env → AuthRequest → ℕ → AuthActions
new_action env q id = record {
  id = id;
  user_id = q.user_id;
  request_type = q.request_type;
  request_token = q.request_token;
  request_otp = some q.request_otp;
  email = map to_lower q.email;
  expires_at = wat env.now + 300000;
  is_used = false;
  created_at = env.db_now;
}

unfoldable pub insert_action : Env → AuthRequest → AuthAction AuthActions
insert_action env q db =
    let a = new_action env q db.next_action in
    (ok a, record db { actions = db.actions ++ a ∷ []; next_action = db.next_action + 1 })

-- `authActionNotification`: the row whose token and one-time password are answered.
unfoldable pub auth_action_notification : Env → AuthRequest → AuthAction AuthActions
unfolding newest delete_actions insert_action
auth_action_notification env q db = elim (newest (is_pending env q) db.actions) [
  | none ↦ insert_action env q db
  | some a ↦
      if ltb (wat env.now) a.expires_at
      then (ok a, db)
      else (delete_actions (λ b. b.id == a.id) >> insert_action env q) db
]

-- TokenVerifyActionDto
pub record TokenVerifyActionDto : Type 0 where
  pub email : Text
  pub request_token : Text
  pub request_otp : Text

abbrev pub fits : Env → TokenVerifyActionDto → AuthActions → Bool
fits env dto a =
    holds env.same_text a.request_otp dto.request_otp
    && env.same_text a.request_token dto.request_token
    && env.same_text a.email dto.email

abbrev pub marked : AuthActions → AuthActions
marked a = record a { is_used = true }

unfoldable pub token_verify_action : Env → TokenVerifyActionDto → AuthAction AuthActions
unfolding delete_actions save_action
token_verify_action env dto db = elim (find_one (fits env dto) db.actions) [
  | none ↦ (err invalid_otp, db)
  | some a ↦
      if a.is_used
      then (err invalid_otp, db)
      else (if ltb a.expires_at env.now
          then (delete_actions (λ b. b.id == a.id) >> throw otp_expired) db
          else (save_action (marked a) >> pure (marked a)) db)
]

-- `lazyCleanupExpired`
unfoldable pub lazy_cleanup_expired : Env → AuthAction (Unit {0})
unfolding delete_actions
lazy_cleanup_expired env = delete_actions (λ a. ltb a.expires_at (wat env.now))

-- The used rows that `opportunisticCleanup` deletes, from more than a day ago.
abbrev is_old : ℕ → AuthActions → Bool
is_old limit a = a.is_used && ltb a.created_at limit

-- `opportunisticCleanup`, on a database that answers.
unfoldable pub opportunistic_cleanup : Env → AuthAction (Unit {0})
unfolding lazy_cleanup_expired delete_actions
opportunistic_cleanup env db =
    if ltb (wat env.now - db.last_cleanup) 900000
    then (ok tt, db)
    else ((λ d. (ok tt, record d { last_cleanup = wat env.now }))
          >> lazy_cleanup_expired env
          >> delete_actions (is_old (env.now - 86400000)))
        db

-- `forceCleanupOtps`: its limit for used rows is two days before the clock of the expiry. The
-- answer is the number of rows deleted by either statement.
unfoldable pub force_cleanup_otps : Env → AuthAction (ℕ × ℕ)
unfolding lazy_cleanup_expired delete_actions
force_cleanup_otps env db =
    let expired = length (find_all (λ a. ltb a.expires_at (wat env.now)) db.actions) in
    let (_, db1) = lazy_cleanup_expired env db in
    let old : AuthActions → Bool = is_old (wat env.now - 172800000) in
    let used = length (find_all old db1.actions) in
    let (_, db2) = delete_actions old db1 in
    (ok (expired, used), record db2 { last_cleanup = wat env.now })

abbrev is_space : ℕ → Bool
is_space c = c == 32 || (leb 9 c && leb c 13)

-- A `.` that is not the last character.
abbrev inner_dot : Text → Bool
inner_dot [] = false
inner_dot (c ∷ []) = false
inner_dot (c ∷ d ∷ ds) = c == b'.' || inner_dot (d ∷ ds)

abbrev is_domain : Text → Bool
is_domain [] = false
is_domain (c ∷ cs) = inner_dot cs

-- `/^[^\s@]+@[^\s@]+\.[^\s@]+$/`
unfoldable pub is_email : Text → Bool
unfolding split
is_email t = not (any is_space t) && (elim (split b'@' t) [
  | local ∷ domain ∷ [] ↦ not (text_eq local []) && is_domain domain
  | _ ↦ false
])

-- What `resendOtp` answers, with the seconds that are left.
pub data Resent : Type 0 where
  nothing_pending sent_anew : Resent
  resent : ℕ → Resent

-- With the token and the one-time password that are drawn for a new row.
unfoldable pub resend_otp : Env → Text → Text → Text → AuthAction Resent
unfolding newest auth_action_notification delete_actions is_email
resend_otp env token otp email = do
  throw_if (not (is_email email)) invalid_email
  recent ← gets (λ db. newest (λ a. env.same_text a.email email) db.actions)
  throw_if (elim recent [ none ↦ false | some a ↦ ltb (wat env.now) (a.created_at + 60000) ])
      wait_for_otp
  pending ← gets (λ db. newest (λ a. env.same_text a.email email && not a.is_used) db.actions)
  elim pending [ none ↦ pure nothing_pending | some a ↦ resend a ]
  where
    renew : AuthActions → Account → AuthAction Resent
    renew a u =
        if ltb (wat env.now) a.expires_at
        then pure (resent ((a.expires_at - wat env.now) / 1000))
        else (delete_actions (λ b. b.id == a.id)
            >> auth_action_notification env (record {
              user_id = u.id;
              request_type = password_reset;
              request_token = token;
              request_otp = otp;
              email = email;
            })
            >> pure sent_anew)

    resend : AuthActions → AuthAction Resent
    resend a = do
      found ← gets (λ db. find_one (λ (u : Account). u.id == a.user_id) db.accounts)
      u ← or_throw found user_not_found
      renew a u
