-- ===== src/Flexi/Levels.antt =====
-- `evaluateAndSkipLevels` as a whole: it ends, and where it leaves the request.
use gdl_finance_v.Flexi.Tenure.{expiry_date_of}
use gdl_finance_v.Base.Action.{pure, resume, ok}
use gdl_finance_v.Flexi.Store.{
  config, max_level, marketer_branch, workflow_steps, request_workflow, find_request, Env,
  save_request,
}
use gdl_finance_v.Flexi.SkipLaws.{FirstKept, skip_loop_lem}
use gdl_finance_v.Flexi.Entity.{
  approval_level, pending_approval, stage_disbursed, funds_disbursed, ApprovalWorkflow,
  ApprovalWorkflowStep, FlexiDb, FlexiRequest,
}
use gdl_finance_v.Flexi.Skip.{
  is_mismatch, skip_history, after_skip, evaluate_and_skip_levels, skip_from, finish_skip,
}
use gdl_finance_v.Base.{
  ◌≤◌, inr, ltb, inl, ◌⊎◌, Bool-cases, ◌∙◌, ◌-◌, ◌==◌, refl, length-append, update_where, arith,
  suc, ◌+◌, ap, ◌<◌, some, ◌≡◌, Option, map, length, List, ℕ, [], ◌∷◌,
}

abbrev pub Finds : ℕ → FlexiRequest → FlexiDb → Type 0
Finds id r db = find_request id db ≡ some r

-- The row of a request whose levels were skipped up to `stop`: disbursed now beyond the last level,
-- pending at `stop` otherwise, and nothing else changed.
abbrev pub Landed : ℕ → ℕ → ℕ → FlexiRequest → FlexiRequest → Type 0
Landed now last stop r q =
    ((last < stop)
      × (q ≡ record r {
        current_approval_level = last;
        status = funds_disbursed;
        current_workflow_stage = stage_disbursed;
        disbursed_at = some now;
        expiry_date = expiry_date_of now r.tenure r.expiry_date;
      }))
    ⊎ ((stop ≤ last)
        × (q ≡ record r {
          current_approval_level = stop;
          status = pending_approval;
          current_workflow_stage = approval_level stop;
        }))

pub after_skip-Landed :
    (now last stop : ℕ) (r : FlexiRequest) → Landed now last stop r (after_skip now last stop r)
unfolding after_skip
after_skip-Landed now last stop r = elim (Bool-cases (ltb last stop)) [
  | inl beyond ↦ inl (ground arith, rw (after_skip, beyond) refl)
  | inr inside ↦ inr (ground arith, rw (after_skip, inside) refl)
]

-- The request `q` and the database that the skipping leaves, if it stops at `stop`.
pub record Skipped (now last stop : ℕ) (r q : FlexiRequest) (db db' : FlexiDb) : Type 0 where
  pub same : stop ≡ r.current_approval_level → (q ≡ r) × (db' ≡ db)
  pub moved :
      r.current_approval_level < stop
      → (q ≡ after_skip now last stop r)
        × (db'.requests ≡ update_where (λ x. x.id == q.id) (λ _. q) db.requests)
  pub landed : (q ≡ r) ⊎ Landed now last stop r q
  pub kept : config db' ≡ config db
  pub counted : length db'.history ≡ length db.history + (stop - r.current_approval_level)

length-map : {A B : Type 0} (f : A → B) (xs : List A) → length (map f xs) ≡ length xs
length-map f [] = refl
length-map f (x ∷ xs) = ap suc (length-map f xs)

finish_skip_lem :
    (env : Env) (initiator : Option ℕ) (last stop : ℕ) (r : FlexiRequest)
    (ss : List ApprovalWorkflowStep) (db : FlexiDb)
    → stop ≡ r.current_approval_level + length ss
    → (q : FlexiRequest) × (db' : FlexiDb) × (finish_skip env initiator last r stop ss db
        ≡ (ok q, db'))
      × Skipped env.now last stop r q db db'
unfolding finish_skip save_request
finish_skip_lem env initiator last stop r [] db e = (
  r,
  db,
  refl,
  record {
    same = λ _. (refl, refl);
    moved = λ h. absurd (omega arith);
    landed = inl refl;
    kept = refl;
    counted = omega arith;
  },
)
finish_skip_lem env initiator last stop r (s ∷ ss) db e = (
  after_skip env.now last stop r,
  _,
  refl,
  record {
    same = λ h. absurd (omega arith);
    moved = λ h. (refl, refl);
    landed = inr (after_skip-Landed env.now last stop r);
    kept = refl;
    counted =
        length-append db.history (map (skip_history r initiator db) (s ∷ ss))
        ∙ omega (arith, length-map (skip_history r initiator db) (s ∷ ss));
  },
)

skip_from_lem :
    (env : Env) (initiator : Option ℕ) (r : FlexiRequest) (steps : List ApprovalWorkflowStep)
    (db : FlexiDb)
    → (stop : ℕ) × (q : FlexiRequest) × (db' : FlexiDb) × (skip_from env initiator r steps db
        ≡ (ok q, db'))
      × FirstKept (is_mismatch (marketer_branch r db) db) steps r.current_approval_level stop
      × Skipped env.now (max_level steps) stop r q db db'
unfolding skip_from
skip_from_lem env initiator r steps db =
    let level = r.current_approval_level in
    let last = max_level steps in
    let (stop, ss, run, first, count) =
      skip_loop_lem (is_mismatch (marketer_branch r db) db) steps (last + 1 - level) level
        (omega arith) in
    let (q, db', done, skips) = finish_skip_lem env initiator last stop r ss db count in
    (stop, q, db', rw (skip_from, run) done, first, skips)

-- For a request whose workflow has steps, the skipping of levels ends, at the first level from the
-- current one on whose step is not in another branch: a request already there is left as it is, any
-- other one is saved as pending there or, beyond the last level, as disbursed; the history grows by
-- one row for each level skipped, and the admins, workflows, steps and marketers stay as they are.
pub evaluate_and_skip_levels_lem :
    (env : Env) (id : ℕ) (initiator : Option ℕ) (r : FlexiRequest) (w : ApprovalWorkflow)
    (s : ApprovalWorkflowStep) (ss : List ApprovalWorkflowStep) (db : FlexiDb)
    → find_request id db ≡ some r
    → request_workflow r db ≡ some w
    → workflow_steps w db ≡ s ∷ ss
    → (stop : ℕ) × (q : FlexiRequest) × (db' : FlexiDb) × (evaluate_and_skip_levels env id initiator
          db
        ≡ (ok (some q), db'))
      × FirstKept (is_mismatch (marketer_branch r db) db) (s ∷ ss) r.current_approval_level stop
      × Skipped env.now (max_level (s ∷ ss)) stop r q db db'
unfolding evaluate_and_skip_levels
evaluate_and_skip_levels_lem env id initiator r w s ss db h1 h2 h3 =
    let (stop, q, db', run, first, skips) = skip_from_lem env initiator r (s ∷ ss) db in
    (
      stop,
      q,
      db',
      rw (evaluate_and_skip_levels, h1, h2, h3) (ap (resume (λ x. pure (some x))) run),
      first,
      skips,
    )
