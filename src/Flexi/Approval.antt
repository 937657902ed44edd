-- ===== src/Flexi/Approval.antt =====
-- Where a decision leaves a request, for an approver who passes the checks.
use gdl_finance_v.Flexi.Checks.{update_status-eq, check_workflow-eq-ok, MayDecide}
use gdl_finance_v.Flexi.SkipLaws.{FirstKept}
use gdl_finance_v.Flexi.Saved.{
  find_request-save_request, find_request-id, after_writes, apply_decision_lem,
}
use gdl_finance_v.Flexi.Levels.{after_skip-Landed, Landed, evaluate_and_skip_levels_lem, Skipped}
use gdl_finance_v.Flexi.Skip.{is_mismatch, evaluate_and_skip_levels, after_skip}
use gdl_finance_v.Base.Action.{ok}
use gdl_finance_v.Flexi.Store.{
  save_request, find_admin, step_admin, marketer_branch, send_approval_notification, max_level,
  workflow_steps, request_workflow, find_request, Env,
}
use gdl_finance_v.Flexi.Entity.{
  approve, FlexiDb, ApprovalWorkflowStep, FlexiRequest, UpdateFlexiRequestStatusDto,
}
use gdl_finance_v.Flexi.Status.{
  decision_history, is_disbursed, after_decision, raised, decide, update_status,
}
use gdl_finance_v.Base.{
  update_where-twice, [], length-append, subst, ◌-◌, length, sym, ap, ◌==◌, update_where, ◌∙◌, ltb,
  ◌≤◌, Bool-cases, ◌+◌, inr, inl, ◌∷◌, ◌<◌, arith, refl, false, not, ◌&&◌, some, ◌≡◌, List, ℕ,
}

-- An approval below the last level.
raised-eq :
    (now admin_id : ℕ) (dto : UpdateFlexiRequestStatusDto) (steps : List ApprovalWorkflowStep)
    (r : FlexiRequest)
    → dto.status ≡ approve
    → r.current_approval_level < max_level steps
    → decide now admin_id dto (some steps) r ≡ (raised r, false)
unfolding decide
raised-eq now admin_id dto steps r e h = rw e (ground arith)

-- What follows a non-final approval, on the tables that it has written.
pub after_decision-eq :
    (env : Env) (admin_id : ℕ) (saved q : FlexiRequest) (db db' : FlexiDb)
    → evaluate_and_skip_levels env saved.id (some admin_id) db ≡ (ok (some q), db')
    → after_decision env admin_id approve false saved db ≡ (ok q, db')
unfolding after_decision send_approval_notification
after_decision-eq env admin_id saved q db db' run =
    elim (Bool-cases (is_disbursed q.status && not (is_disbursed saved.status))) [
      | inl late ↦ rw (after_decision, run, late) refl
      | inr other ↦ rw (after_decision, run, other) refl
    ]

-- The skipping from the raised request, in terms of the request before.
landed-eq :
    (now last stop : ℕ) (r q : FlexiRequest) (db db' : FlexiDb)
    → Skipped now last stop (raised r) q db db'
    → r.current_approval_level + 1 ≤ stop
    → r.current_approval_level < last
    → q ≡ after_skip now last stop r
unfolding after_skip
landed-eq now last stop r q db db' k reached below =
    elim (Bool-cases (ltb (r.current_approval_level + 1) stop)) [
      | inl on ↦ (k.moved (ground arith)).0 ∙ refl
      | inr here ↦
          let e : stop ≡ r.current_approval_level + 1 = ground arith in
          let inside : ltb last stop ≡ false = ground arith in
          (k.same e).0 ∙ rw (after_skip, inside, e) refl
    ]

after_skip-id : (now last stop : ℕ) (r : FlexiRequest) → (after_skip now last stop r).id ≡ r.id
unfolding after_skip
after_skip-id now last stop r = ground arith

landed_requests :
    (now last stop : ℕ) (r q : FlexiRequest) (db db' : FlexiDb) (rows : List FlexiRequest)
    → Skipped now last stop (raised r) q db db'
    → r.current_approval_level + 1 ≤ stop
    → db.requests ≡ update_where (λ x. x.id == r.id) (λ _. raised r) rows
    → db'.requests ≡ update_where (λ x. x.id == r.id) (λ _. q) rows
landed_requests now last stop r q db db' rows k reached e =
    elim (Bool-cases (ltb (r.current_approval_level + 1) stop)) [
      | inl on ↦
          let (moved, saved) = k.moved (ground arith) in
          let same : q.id ≡ r.id =
            ap (λ (x : FlexiRequest). x.id) moved ∙ after_skip-id now last stop (raised r) in
          saved
          ∙ rw e (update_where-twice (λ (x : FlexiRequest). x.id) r.id (raised r) q rows refl same)
      | inr here ↦
          let (left, kept) = k.same (ground arith) in
          ap (λ (x : FlexiDb). x.requests) kept
          ∙ e
          ∙ ap
              (λ (x : FlexiRequest).
                update_where (λ (y : FlexiRequest). y.id == r.id) (λ _. x) rows)
              (sym left)
    ]

-- An approval by an admin who passes the checks, below the last level, succeeds. It moves the
-- request to the first higher level whose step is not in another branch, pending there, or disburses
-- it if that is beyond the last level; no other request changes, and the history grows by one row
-- for the approval and one for each level skipped.
pub update_status_approve :
    (env : Env) (id admin_id : ℕ) (dto : UpdateFlexiRequestStatusDto) (r : FlexiRequest)
    (s : ApprovalWorkflowStep) (ss : List ApprovalWorkflowStep) (db : FlexiDb)
    → MayDecide id admin_id dto r (some (s ∷ ss)) db
    → dto.status ≡ approve
    → r.current_approval_level < max_level (s ∷ ss)
    → (stop : ℕ) × (db' : FlexiDb) × FirstKept
        (is_mismatch (marketer_branch r db) db)
        (s ∷ ss)
        (r.current_approval_level + 1)
        stop
      × (update_status env id admin_id dto db
          ≡ (ok (after_skip env.now (max_level (s ∷ ss)) stop r), db'))
      × (db'.requests
          ≡ update_where
              (λ x. x.id == r.id)
              (λ _. after_skip env.now (max_level (s ∷ ss)) stop r)
              db.requests)
      × (length db'.history ≡ length db.history + (stop - r.current_approval_level))
      × Landed env.now (max_level (s ∷ ss)) stop r (after_skip env.now (max_level (s ∷ ss)) stop r)
unfolding find_request request_workflow workflow_steps marketer_branch is_mismatch step_admin
    find_admin save_request
update_status_approve env id admin_id dto r s ss db m is_approval below =
    let (w, s', ss', has, stored, same_steps) =
      check_workflow-eq-ok r admin_id (s ∷ ss) db db m.checked in
    let (mails, run) =
      apply_decision_lem env admin_id dto (some (s ∷ ss)) r db (raised r) false
        (raised-eq env.now admin_id dto (s ∷ ss) r is_approval below) in
    let db1 = after_writes admin_id r.id dto false (some (s ∷ ss)) (raised r) mails db in
    let (same_id, live) = find_request-id id r db m.found in
    let again : find_request r.id db1 ≡ some (raised r) =
      subst (λ k. find_request k db1 ≡ some (raised r)) (sym same_id)
        (find_request-save_request id r (raised r) db m.found refl refl) in
    let (stop, q, db', skipping, first, skips) =
      evaluate_and_skip_levels_lem env r.id (some admin_id) (raised r) w s ss db1 again has
        (stored ∙ same_steps) in
    let q_is = landed-eq env.now (max_level (s ∷ ss)) stop r q db1 db' skips first.reached below in
    let row = decision_history admin_id dto false (some (s ∷ ss)) (raised r) in
    let grown : length db1.history ≡ length db.history + 1 = length-append db.history (row ∷ []) in
    let counted = skips.counted in
    let reached = first.reached in
    (
      stop,
      db',
      first,
      update_status-eq env id admin_id dto r (some (s ∷ ss)) db m
          ∙ run
          ∙ ap (λ d. after_decision env admin_id d false (raised r) db1) is_approval
          ∙ after_decision-eq env admin_id (raised r) q db1 db' skipping
          ∙ ap (λ (x : FlexiRequest). (ok x, db')) q_is,
      landed_requests env.now (max_level (s ∷ ss)) stop r q db1 db' db.requests skips first.reached
            refl
          ∙ ap
              (λ (x : FlexiRequest).
                update_where (λ (y : FlexiRequest). y.id == r.id) (λ _. x) db.requests)
              q_is,
      omega (arith, grown, counted, reached),
      after_skip-Landed env.now (max_level (s ∷ ss)) stop r,
    )
