-- ===== src/Flexi/Journey.antt =====
-- From the creation of a Flexi request to the disbursement of its funds.
use gdl_finance_v.Flexi.Reach.{reaches, Reaches, after_skip-cases, after_skip-same}
use gdl_finance_v.Flexi.Pending.{
  Pending-at, step_admin-config, workflow_steps-config, saved-found, Staffed, pending_at,
}
use gdl_finance_v.Flexi.Levels.{evaluate_and_skip_levels_lem, Skipped}
use gdl_finance_v.Flexi.Saved.{send_approval_notification-sent}
use gdl_finance_v.Base.Action.{err, ok, resume, Result}
use gdl_finance_v.Flexi.Create.{
  id_or_null, knows_marketer, by_user, CreateFlexiRequestDto, new_request, insert_request,
  target_user, create_request, flexi_workflow, is_pending_approval, notify_created, announce,
  notify_approver_of, notify_marketer_of,
}
use gdl_finance_v.Flexi.Entity.{
  UserAccount, Admin, funds_disbursed, next_approver, ApprovalWorkflowStep, request_created,
  ApprovalWorkflow, notify_marketer, GdlMarketer, Notification, FlexiRequest, FlexiDb,
}
use gdl_finance_v.Base.{
  any, All-map, find_one-append, true, ◌+◌, Option, update_where, sym, ltb, ◌⊎◌, not, ◌&&◌, ◌≤◌,
  ◌++◌, ◌==◌, ℕ, ap, find_one, List, Option-cases, Bool-cases, inl, inr, refl, ◌≡◌, arith, none,
  some, [], ◌∷◌, ◌∙◌,
}
use gdl_finance_v.Flexi.Store.{
  max_level, step_at, FlexiError, insert_audit, FlexiAction, Env, find_request, step_admin, config,
  request_workflow, workflow_steps,
}

-- The requests stay, and so do the admins, workflows, steps and marketers.
abbrev Quiet : FlexiDb → FlexiDb → Type 0
Quiet db db' = (db'.requests ≡ db.requests) × (config db' ≡ config db)

sent-Quiet :
    (db db' : FlexiDb)
    → (mails : List Notification) × (db' ≡ record db { sent = mails })
    → Quiet db db'
sent-Quiet db db' (mails, e) = (ap (λ (d : FlexiDb). d.requests) e, ap config e)

then-Quiet :
    (db : FlexiDb) (k : FlexiAction (Unit {0})) (r : Result FlexiError (Unit {0}) × FlexiDb)
    → Quiet db r.1
    → ((d : FlexiDb) → Quiet d (k d).1)
    → Quiet db (resume (λ _. k) r).1
then-Quiet db k (ok u, d) (rows, same) h = let (rows', same') = h d in (rows' ∙ rows, same' ∙ same)
then-Quiet db k (err e, d) kept h = kept

notify_marketer_of-Quiet :
    (env : Env) (r : FlexiRequest) (db : FlexiDb) → Quiet db (notify_marketer_of env r db).1
unfolding notify_marketer_of
notify_marketer_of-Quiet env r db = elim (Option-cases r.marketer_id) [
  | inl missing ↦ rw (notify_marketer_of, missing) (refl, refl)
  | inr (k, has) ↦ elim (Option-cases (find_one (λ (m : GdlMarketer). m.id == k) db.marketers)) [
    | inl missing ↦ rw (notify_marketer_of, has, missing) (refl, refl)
    | inr (m, found) ↦
        rw (notify_marketer_of, has, found)
          (sent-Quiet db _
            (send_approval_notification-sent env notify_marketer r (some m.email) db))
  ]
]

notify_approver_of-Quiet :
    (env : Env) (r : FlexiRequest) (db : FlexiDb) → Quiet db (notify_approver_of env r db).1
unfolding notify_approver_of
notify_approver_of-Quiet env r db = elim (Option-cases (request_workflow r db)) [
  | inl missing ↦ rw (notify_approver_of, missing) (refl, refl)
  | inr (w, has) ↦ elim (Bool-cases (is_pending_approval r.status)) [
    | inr decided ↦ rw (notify_approver_of, has, decided) (refl, refl)
    | inl waiting ↦ elim (Option-cases (step_at r.current_approval_level (workflow_steps w db))) [
      | inl missing ↦ rw (notify_approver_of, has, waiting, missing) (refl, refl)
      | inr (s, at_level) ↦ elim (Option-cases (step_admin s db)) [
        | inl missing ↦ rw (notify_approver_of, has, waiting, at_level, missing) (refl, refl)
        | inr (a, assigned) ↦
            rw (notify_approver_of, has, waiting, at_level, assigned)
              (sent-Quiet db _
                (send_approval_notification-sent env next_approver r (some a.staff_email) db))
      ]
    ]
  ]
]

notify_created-Quiet :
    (env : Env) (saved : FlexiRequest) (db : FlexiDb) → Quiet db (notify_created env saved db).1
unfolding notify_created
notify_created-Quiet env saved db = elim (Option-cases (find_request saved.id db)) [
  | inl missing ↦ rw (notify_created, missing) (refl, refl)
  | inr (r, found) ↦
      rw (notify_created, found)
        (then-Quiet db (notify_approver_of env r) (notify_marketer_of env r db)
          (notify_marketer_of-Quiet env r db) (notify_approver_of-Quiet env r))
]

announce-Quiet :
    (env : Env) (user_id : ℕ) (saved : FlexiRequest) (db : FlexiDb)
    → Quiet db (announce env user_id (some saved) db).1
unfolding announce insert_audit
announce-Quiet env user_id saved db = notify_created-Quiet env saved (record db {
  audit_log =
      db.audit_log
      ++ (record { user_id = user_id; action_performed = request_created; request_id = saved.id })
        ∷ [];
})

-- Flexi requests have a workflow, found by its id as well, with steps that all have an admin, and
-- the next id of the table is free.
pub record Ready (w : ApprovalWorkflow) (steps : List ApprovalWorkflowStep) (db : FlexiDb)
    : Type 0 where
  pub workflow : flexi_workflow db ≡ some w
  pub keyed : find_one (λ v. v.id == w.id && not v.is_deleted) db.workflows ≡ some w
  pub stored : workflow_steps w db ≡ steps
  pub staffed : Staffed steps db
  pub free : find_request db.next_request_id db ≡ none

-- Where the skipping of levels leaves a request at level 1.
landing :
    (now last stop : ℕ) (r q : FlexiRequest) (db db' : FlexiDb)
    → Skipped now last stop r q db db'
    → find_request r.id db ≡ some r
    → r.current_approval_level ≤ stop
    → r ≡ pending_at r.current_approval_level r
    → (find_request r.id db' ≡ some q) × ((q.status ≡ funds_disbursed) ⊎ (q ≡ pending_at stop r))
landing now last stop r q db db' k found reached fresh =
    elim (Bool-cases (ltb r.current_approval_level stop)) [
      | inr here ↦
          let e : stop ≡ r.current_approval_level = ground arith in
          let (left, kept) = k.same e in
          (
            ap (find_request r.id) kept ∙ found ∙ ap some (sym left),
            inr (left ∙ fresh ∙ ap (λ l. pending_at l r) (sym e)),
          )
      | inl on ↦
          let (moved, rows) = k.moved (ground arith) in
          let (same_id, same_deleted) = after_skip-same now last stop r in
          let id_same : q.id ≡ r.id = ap (λ (x : FlexiRequest). x.id) moved ∙ same_id in
          let deleted : q.is_deleted ≡ r.is_deleted =
            ap (λ (x : FlexiRequest). x.is_deleted) moved ∙ same_deleted in
          (
            saved-found r.id r q db db' found id_same deleted (
                rows
                ∙ ap (λ i. update_where (λ (x : FlexiRequest). x.id == i) (λ _. q) db.requests)
                    id_same),
            elim (after_skip-cases now last stop r) [
              | inl done ↦ inl (ap (λ (x : FlexiRequest). x.status) moved ∙ done)
              | inr (inside, at_stop) ↦ inr (moved ∙ at_stop)
            ],
          )
    ]

-- A request that a user of the table creates, naming no marketer or one of the table, where Flexi
-- requests have a workflow whose steps all have an admin, is saved, whatever becomes of the e-mails,
-- and there are approvals, at most one more than the highest level of the workflow, that leave it
-- with its funds disbursed.
pub create_request-disburses :
    (env : Env) (created : Option ℕ) (user_id : ℕ) (dto : CreateFlexiRequestDto)
    (w : ApprovalWorkflow) (s : ApprovalWorkflowStep) (ss : List ApprovalWorkflowStep)
    (db : FlexiDb)
    → Ready w (s ∷ ss) db
    → any (λ (u : UserAccount). u.id == user_id) db.users ≡ true
    → knows_marketer (id_or_null dto.marketer_id) db ≡ true
    → (q : FlexiRequest) × (db' : FlexiDb) × (create_request env created (by_user user_id) dto db
        ≡ (ok (some q), db'))
      × Reaches env db.next_request_id (max_level (s ∷ ss) + 1) db'
unfolding create_request target_user insert_request new_request announce insert_audit find_request
    request_workflow
create_request-disburses env created user_id dto w s ss db ready user_known marketer_known =
    let r = new_request db.next_request_id (by_user user_id) user_id dto (some w) in
    let db1 : FlexiDb = record db {
      requests = db.requests ++ r ∷ [];
      next_request_id = db.next_request_id + 1;
    } in
    let fits : (r.id == db.next_request_id && not r.is_deleted) ≡ true = ground arith in
    let found : find_request r.id db1 ≡ some r =
      find_one-append (λ (x : FlexiRequest). x.id == db.next_request_id && not x.is_deleted) r
        db.requests ready.free fits in
    let has : request_workflow r db1 ≡ some w = ready.keyed in
    let stored : workflow_steps w db1 ≡ s ∷ ss =
      workflow_steps-config w db db1 refl ∙ ready.stored in
    let (stop, q, db2, run, first, skips) =
      evaluate_and_skip_levels_lem env r.id none r w s ss db1 found has stored in
    let db3 = (announce env user_id (some q) db2).1 in
    let (rows, same) = announce-Quiet env user_id q db2 in
    let (landed, outcome) =
      landing env.now (max_level (s ∷ ss)) stop r q db1 db2 skips found first.reached refl in
    let still : find_request r.id db3 ≡ some q =
      ap (λ rs. find_one (λ (x : FlexiRequest). x.id == r.id && not x.is_deleted) rs) rows
      ∙ landed in
    let reached : Reaches env r.id (max_level (s ∷ ss) + 1) db3 = elim outcome [
      | inl done ↦ ([], q, still, done, omega arith)
      | inr waits ↦
          let low = first.reached in
          let staffed : Staffed (s ∷ ss) db1 =
            All-map (λ t. (a : Admin) × (step_admin t db ≡ some a)) (s ∷ ss)
              (λ t k. (k.0, step_admin-config t db db1 refl ∙ k.1)) ready.staffed in
          let p =
            Pending-at r.id stop r w (s ∷ ss) db1 db3 (same ∙ skips.kept) (still ∙ ap some waits)
              has stored staffed refl low first.kept in
          reaches (max_level (s ∷ ss)) env r.id (pending_at stop r) w s ss db3 p (omega arith)
    ] in
    let stored_row : insert_request (by_user user_id) user_id dto (some w) db ≡ (ok r, db1) =
      rw (user_known, marketer_known) refl in
    (q, db3, rw (create_request, ready.workflow, stored_row, run) refl, reached)
