-- ===== src/Flexi/Agent.antt =====
-- The accounts of Flexi agents (flexi.service.ts): their creation, the codes for the address and for
-- a new password, the login and the refresh of tokens. The e-mails are left out: their errors are
-- logged only. Of an agent, only the columns that these methods use.
use gdl_finance_v.Common.Text.{Text, text_eq}
use gdl_finance_v.Base.{
  if◌then◌else◌, ltb, any, Bool, ◌+◌, update_where, Option, List, ℕ, find_one, none, some, [], ◌∷◌,
  true, false, ◌&&◌, ◌++◌, ◌==◌, not,
}
use gdl_finance_v.Base.Action.{◌>>=◌, ◌>>◌, Action, ok, err, throw, gets, or_throw, throw_if}

pub record FlexiAgent : Type 0 where
  pub id : ℕ
  pub email : Text
  pub password : Text
  pub phone : Option Text
  pub is_email_verified : Bool
  pub otp_code : Option Text
  pub otp_expires_at : Option ℕ
  pub refresh_token : Option Text
  pub refresh_token_expires_at : Option ℕ

pub record AgentDb : Type 0 where
  pub agents : List FlexiAgent
  pub next_agent : ℕ

-- The clock, the equality of the database on texts, bcrypt, and the agent whom a verified refresh
-- token names.
pub record AgentEnv : Type 0 where
  pub now : ℕ
  pub same_text : Text → Text → Bool
  pub hash : Text → Text
  pub compare : Text → Text → Bool
  pub agent_of_token : Text → Option ℕ

pub data AgentError : Type 0 where
  email_exists phone_exists agent_not_found invalid_otp otp_expired : AgentError
  email_verified invalid_credentials email_not_verified wrong_password : AgentError
  invalid_refresh_token : AgentError

abbrev pub AgentAction : Type 0 → Type 0
AgentAction A = Action AgentDb AgentError A

unfoldable pub find_agent : AgentEnv → Text → AgentDb → Option FlexiAgent
find_agent env email db = find_one (λ a. env.same_text a.email email) db.agents

abbrev pub find_agent_by_id : ℕ → AgentDb → Option FlexiAgent
find_agent_by_id id db = find_one (λ (a : FlexiAgent). a.id == id) db.agents

unfoldable pub save_agent : FlexiAgent → AgentAction (Unit {0})
save_agent a db =
    (ok tt, record db { agents = update_where (λ b. b.id == a.id) (λ _. a) db.agents })

abbrev phone_taken : AgentEnv → Option Text → AgentDb → Bool
phone_taken env none db = false
phone_taken env (some phone) db =
    not (text_eq phone [])
    && any (λ (a : FlexiAgent). elim a.phone [ none ↦ false | some p ↦ env.same_text p phone ])
        db.agents

-- With the code that is drawn.
unfoldable pub create_agent : AgentEnv → Text → Text → Text → Option Text → AgentAction (Unit {0})
create_agent env code email password phone db =
    if any (λ (a : FlexiAgent). env.same_text a.email email) db.agents
    then (err email_exists, db)
    else (if phone_taken env phone db then (err phone_exists, db) else (
      ok tt,
      record db {
        agents =
            db.agents
            ++ (record {
              id = db.next_agent;
              email = email;
              password = env.hash password;
              phone = phone;
              is_email_verified = false;
              otp_code = some code;
              otp_expires_at = some (env.now + 600000);
              refresh_token = none;
              refresh_token_expires_at = none;
            })
              ∷ [];
        next_agent = db.next_agent + 1;
      },
    ))

-- `new Date() > time`; a time that is NULL counts as 0.
abbrev pub is_past : AgentEnv → Option ℕ → Bool
is_past env none = true
is_past env (some t) = ltb t env.now

-- `signAgentToken`: the hash of the refresh token is stored. The answer is the agent.
unfoldable pub sign_agent_token : AgentEnv → Text → FlexiAgent → AgentAction FlexiAgent
sign_agent_token env token a db = (
  ok a,
  record db {
    agents =
        update_where (λ b. b.id == a.id)
          (λ b. record b {
            refresh_token = some (env.hash token);
            refresh_token_expires_at = some (env.now + 604800000);
          })
          db.agents;
  },
)

-- `!agent.otp_code || agent.otp_code !== dto.otp`
abbrev pub wrong_code : Option Text → Text → Bool
wrong_code none otp = true
wrong_code (some []) otp = true
wrong_code (some (c ∷ cs)) otp = not (text_eq (c ∷ cs) otp)

abbrev pub check_code : AgentEnv → Text → FlexiAgent → AgentAction (Unit {0})
check_code env otp a =
    throw_if (wrong_code a.otp_code otp) invalid_otp
    >> throw_if (is_past env a.otp_expires_at) otp_expired

abbrev pub without_code : FlexiAgent → FlexiAgent
without_code a = record a { otp_code = none; otp_expires_at = none }

unfoldable pub verify_email : AgentEnv → Text → Text → Text → AgentAction FlexiAgent
unfolding save_agent sign_agent_token
verify_email env token email otp = do
  found ← gets (find_agent env email)
  a ← or_throw found agent_not_found
  check_code env otp a
  let verified : FlexiAgent = record (without_code a) { is_email_verified = true }
  save_agent verified
  sign_agent_token env token verified

abbrev pub with_code : AgentEnv → Text → FlexiAgent → FlexiAgent
with_code env code a = record a { otp_code = some code; otp_expires_at = some (env.now + 600000) }

unfoldable pub resend_otp : AgentEnv → Text → Text → AgentAction (Unit {0})
unfolding save_agent
resend_otp env code email = do
  found ← gets (find_agent env email)
  a ← or_throw found agent_not_found
  throw_if a.is_email_verified email_verified
  save_agent (with_code env code a)

unfoldable pub login_agent : AgentEnv → Text → Text → Text → Text → AgentAction FlexiAgent
unfolding resend_otp sign_agent_token
login_agent env code token email password = do
  found ← gets (find_agent env email)
  a ← or_throw found agent_not_found
  throw_if (not (env.compare password a.password)) invalid_credentials
  (if a.is_email_verified
      then sign_agent_token env token a
      else (resend_otp env code a.email >> throw email_not_verified))

unfoldable pub forgot_password : AgentEnv → Text → Text → AgentAction (Unit {0})
unfolding save_agent
forgot_password env code email = do
  found ← gets (find_agent env email)
  a ← or_throw found agent_not_found
  save_agent (with_code env code a)

unfoldable pub reset_password : AgentEnv → Text → Text → Text → AgentAction (Unit {0})
unfolding save_agent
reset_password env email otp new_password = do
  found ← gets (find_agent env email)
  a ← or_throw found agent_not_found
  check_code env otp a
  save_agent (record (without_code a) { password = env.hash new_password })

unfoldable pub change_password : AgentEnv → ℕ → Text → Text → AgentAction (Unit {0})
unfolding save_agent
change_password env id old_password new_password = do
  found ← gets (find_agent_by_id id)
  a ← or_throw found agent_not_found
  throw_if (not (env.compare old_password a.password)) wrong_password
  save_agent (record a { password = env.hash new_password })

-- `refreshAgentToken`, which turns every error into one.
unfoldable pub refresh_agent_token : AgentEnv → Text → Text → AgentAction FlexiAgent
unfolding sign_agent_token
refresh_agent_token env token refresh_token = do
  id ← or_throw (env.agent_of_token refresh_token) invalid_refresh_token
  found ← gets (find_agent_by_id id)
  a ← or_throw found invalid_refresh_token
  stored ← or_throw a.refresh_token invalid_refresh_token
  throw_if (is_past env a.refresh_token_expires_at) invalid_refresh_token
  throw_if (not (env.compare refresh_token stored)) invalid_refresh_token
  sign_agent_token env token a
