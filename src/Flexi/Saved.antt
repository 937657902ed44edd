-- ===== src/Flexi/Saved.antt =====
-- What a saved request is found as, and what a decision writes.
use gdl_finance_v.Flexi.Entity.{
  approve, reject, disburse, reject, notify_rejected, status_decided, notify_disbursed,
  next_approver, Notification, ApprovalWorkflowStep, Decision, NotificationType, FlexiDb,
  UpdateFlexiRequestStatusDto, FlexiRequest,
}
use gdl_finance_v.Flexi.Status.{
  disbursed, next_approver_email, after_decision, decision_history, decide, apply_decision,
  notify_decision,
}
use gdl_finance_v.Flexi.Store.{
  user_email, insert_audit, save_history, Env, save_request, send_approval_notification,
  find_request,
}
use gdl_finance_v.Base.{
  find_one-saved, none, inr, inl, true, refl, arith, ◌++◌, not, str_eq, update_where, ◌&&◌,
  Bool-cases, ◌==◌, find_one_holds, String, some, false, Option, ◌≡◌, Bool, List, ℕ, [], ◌∷◌,
}

pub find_request-id :
    (id : ℕ) (r : FlexiRequest) (db : FlexiDb)
    → find_request id db ≡ some r
    → (r.id ≡ id) × (r.is_deleted ≡ false)
unfolding find_request
find_request-id id r db h =
    let holds =
      find_one_holds (λ (x : FlexiRequest). x.id == id && not x.is_deleted) r db.requests h in
    (ground arith, ground arith)

-- A saved request is found again.
pub find_request-save_request :
    (id : ℕ) (r q : FlexiRequest) (db : FlexiDb)
    → find_request id db ≡ some r
    → q.id ≡ r.id
    → q.is_deleted ≡ r.is_deleted
    → find_request id (save_request q db).1 ≡ some q
unfolding find_request save_request
find_request-save_request id r q db h e d =
    let (same, kept) = find_request-id id r db h in
    let fits : (q.id == id && not q.is_deleted) ≡ true = ground arith in
    find_one-saved (λ (x : FlexiRequest). x.id)
      (λ (x : FlexiRequest). x.id == id && not x.is_deleted) r q db.requests h e fits

-- The tables after a decision and its e-mails.
abbrev pub after_writes :
    ℕ
    → ℕ
    → UpdateFlexiRequestStatusDto
    → Bool
    → Option (List ApprovalWorkflowStep)
    → FlexiRequest
    → List Notification
    → FlexiDb
    → FlexiDb
after_writes admin_id request_id dto final steps q mails db =
    let row = decision_history admin_id dto final steps q in
    record db {
      requests = update_where (λ x. x.id == q.id) (λ _. q) db.requests;
      history = db.history ++ row ∷ [];
      sent = mails;
      audit_log =
          db.audit_log
          ++ (record {
            user_id = admin_id;
            action_performed = status_decided dto.status row.level;
            request_id = request_id;
          })
            ∷ [];
    }

pub send_approval_notification-sent :
    (env : Env) (type : NotificationType) (r : FlexiRequest) (email : Option String) (db : FlexiDb)
    → (mails : List Notification) × ((send_approval_notification env type r email db).1
        ≡ record db { sent = mails })
unfolding send_approval_notification
send_approval_notification-sent env type r none db = (db.sent, refl)
send_approval_notification-sent env type r (some email) db =
    let mail : Notification = record { type = type; recipients_email = email; request_id = r.id } in
    elim (Bool-cases (str_eq email "")) [
      | inl hit ↦ (db.sent, rw hit refl)
      | inr miss ↦ elim (Bool-cases (env.delivers mail)) [
        | inl taken ↦ (db.sent ++ mail ∷ [], rw miss (rw taken refl))
        | inr refused ↦ (db.sent, rw miss (rw refused refl))
      ]
    ]

notify_decision-sent :
    (env : Env) (d : Decision) (final : Bool) (steps : Option (List ApprovalWorkflowStep))
    (r : FlexiRequest) (db : FlexiDb)
    → (mails : List Notification) × ((notify_decision env d final steps r db).1
        ≡ record db { sent = mails })
unfolding notify_decision
notify_decision-sent env approve false steps r db =
    send_approval_notification-sent env next_approver r (next_approver_email steps r db) db
notify_decision-sent env approve true steps r db =
    send_approval_notification-sent env notify_disbursed r (user_email r db) db
notify_decision-sent env reject final steps r db =
    send_approval_notification-sent env notify_rejected r (user_email r db) db
notify_decision-sent env disburse final steps r db =
    send_approval_notification-sent env notify_disbursed r (user_email r db) db

-- A decision writes the request, one row of the history, e-mails and one audit entry, whatever
-- becomes of the e-mails; the levels to skip come after.
pub apply_decision_lem :
    (env : Env) (admin_id : ℕ) (dto : UpdateFlexiRequestStatusDto)
    (steps : Option (List ApprovalWorkflowStep)) (r : FlexiRequest) (db : FlexiDb)
    (q : FlexiRequest) (final : Bool)
    → decide env.now admin_id dto steps r ≡ (q, final)
    → (mails : List Notification) × (apply_decision env admin_id dto steps r db
        ≡ after_decision env admin_id dto.status final q
            (after_writes admin_id r.id dto final steps q mails db))
unfolding apply_decision save_request save_history insert_audit
apply_decision_lem env admin_id dto steps r db q final e =
    let written : FlexiDb = record db {
      requests = update_where (λ x. x.id == q.id) (λ _. q) db.requests;
      history = db.history ++ decision_history admin_id dto final steps q ∷ [];
    } in
    let (mails, sent) = notify_decision-sent env dto.status final steps q written in
    (mails, rw e (rw sent refl))

-- What `decide` leaves as it is.
pub decide-same :
    (now admin_id : ℕ) (dto : UpdateFlexiRequestStatusDto)
    (steps : Option (List ApprovalWorkflowStep)) (r q : FlexiRequest) (final : Bool)
    → decide now admin_id dto steps r ≡ (q, final)
    → (q.id ≡ r.id) × (q.is_deleted ≡ r.is_deleted)
unfolding decide disbursed
decide-same now admin_id dto steps r q final e = ground arith
