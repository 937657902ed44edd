-- ===== src/Flexi/AgentLaws.antt =====
-- A code for a new password of a Flexi agent works once.
use gdl_finance_v.Common.Text.{Text}
use gdl_finance_v.Base.{
  ◌∙◌, ap, find_one_holds, find_one-saved, ℕ, Option-cases, Bool-cases, inl, inr, refl, ◌≡◌, some,
}
use gdl_finance_v.Flexi.Agent.{
  AgentEnv, AgentDb, FlexiAgent, reset_password, find_agent, save_agent, invalid_otp, wrong_code,
  is_past, without_code,
}
use gdl_finance_v.Base.Action.{ok, err}

abbrev pub later : ℕ → AgentEnv → AgentEnv
later t env = record env { now = t }

-- After an agent has reset the password, every code is refused until a new one is sent.
pub reset_password_once :
    (env : AgentEnv) (email otp new_password code other : Text) (t : ℕ) (db db' : AgentDb)
    → reset_password env email otp new_password db ≡ (ok tt, db')
    → reset_password (later t env) email code other db' ≡ (err invalid_otp, db')
unfolding reset_password save_agent find_agent
reset_password_once env email otp new_password code other t db db' h =
    elim (Option-cases (find_agent env email db)) [
      | inl missing ↦ let e = rw (reset_password, missing) at h in cc
      | inr (a, found) ↦ elim (Bool-cases (wrong_code a.otp_code otp)) [
        | inl wrong ↦ let e = rw (reset_password, found, wrong) at h in cc
        | inr right ↦ elim (Bool-cases (is_past env a.otp_expires_at)) [
          | inl late ↦ let e = rw (reset_password, found, right, late) at h in cc
          | inr early ↦
              let saved : FlexiAgent = record (without_code a) {
                password = env.hash new_password;
              } in
              let e = rw (reset_password, found, right, early) at h in
              let after : db' ≡ (save_agent saved db).1 = cc in
              let again : find_agent env email (save_agent saved db).1 ≡ some saved =
                find_one-saved (λ (b : FlexiAgent). b.id) (λ b. env.same_text b.email email) a saved
                  db.agents found refl
                  (find_one_holds (λ (b : FlexiAgent). env.same_text b.email email) a db.agents
                    found) in
              let there : find_agent (later t env) email db' ≡ some saved =
                ap (find_agent env email) after ∙ again in
              rw (reset_password, there) refl
        ]
      ]
    ]
