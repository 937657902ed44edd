-- ===== src/Flexi/Skip.antt =====
-- `evaluateAndSkipLevels` (flexi.service.ts): the levels whose approver sits in another branch than
-- the marketer are skipped, and a request that runs past the last level is disbursed.
use Prim.Native.Nat.{zero}
use gdl_finance_v.Flexi.Tenure.{expiry_date_of}
use gdl_finance_v.Flexi.Store.{
  save_request, workflow_steps, request_workflow, step_at, step_admin, out_of_fuel, marketer_branch,
  find_request, max_level, FlexiAction, Env,
}
use gdl_finance_v.Flexi.Entity.{
  pending_approval, approval_level, stage_disbursed, funds_disbursed, skipped, FlexiApprovalHistory,
  ApprovalWorkflowStep, FlexiDb, FlexiRequest,
}
use gdl_finance_v.Base.{
  ◌-◌, map, ◌++◌, ◌==◌, true, leb, not, [], false, ltb, ◌∷◌, ◌+◌, if◌then◌else◌, some, suc, ◌&&◌,
  none, Bool, List, ℕ, Option,
}
use gdl_finance_v.Base.Action.{ok, err, pure, ◌>>=◌, ◌>>◌}

-- The branches of the approver and of the marketer are known and differ, and the step asks for it.
unfoldable pub is_mismatch : Option ℕ → FlexiDb → ApprovalWorkflowStep → Bool
is_mismatch branch db s = s.enforce_branch_restriction && (elim (step_admin s db) [
  | none ↦ false
  | some a ↦ elim a.branch_id [
    | none ↦ false
    | some b ↦ elim branch [ none ↦ false | some c ↦ not (b == c) ]
  ]
])

-- The `while` loop from a level: the level at which it stops, and the steps that it skips. `none`
-- means that the fuel ran out.
unfoldable pub skip_loop :
    ℕ
    → (ApprovalWorkflowStep → Bool)
    → List ApprovalWorkflowStep
    → ℕ
    → ℕ
    → Option (ℕ × List ApprovalWorkflowStep)
skip_loop zero mismatch steps last level = none
skip_loop (suc fuel) mismatch steps last level = elim (step_at level steps) [
  | none ↦ some (level, [])
  | some s ↦ elim (leb level last && mismatch s) [
    | false ↦ some (level, [])
    | true ↦ elim (skip_loop fuel mismatch steps last (level + 1)) [
      | none ↦ none
      | some (stop, rest) ↦ some (stop, s ∷ rest)
    ]
  ]
]

abbrev step_admin_id : ApprovalWorkflowStep → FlexiDb → Option ℕ
step_admin_id s db = elim (step_admin s db) [ none ↦ none | some a ↦ some a.staff_id ]

-- The admin of the row for a skipped step. An initiator with the id 0 counts as absent.
unfoldable pub skip_admin : Option ℕ → ApprovalWorkflowStep → FlexiDb → Option ℕ
skip_admin (some (suc initiator)) s db = some (suc initiator)
skip_admin (some zero) s db = step_admin_id s db
skip_admin none s db = step_admin_id s db

unfoldable pub skip_history :
    FlexiRequest → Option ℕ → FlexiDb → ApprovalWorkflowStep → FlexiApprovalHistory
unfolding skip_admin
skip_history r initiator db s = record {
  request_id = r.id;
  admin_id = skip_admin initiator s db;
  level = s.level;
  status = skipped;
  comment = "Automatically skipped due to branch mismatch";
}

-- The request after levels were skipped.
unfoldable pub after_skip : ℕ → ℕ → ℕ → FlexiRequest → FlexiRequest
after_skip now last stop r =
    if ltb last stop
    then record r {
      current_approval_level = last;
      status = funds_disbursed;
      current_workflow_stage = stage_disbursed;
      disbursed_at = some now;
      expiry_date = expiry_date_of now r.tenure r.expiry_date;
    }
    else record r {
      current_approval_level = stop;
      current_workflow_stage = approval_level stop;
      status = pending_approval;
    }

-- The rounds that the loop can make from a level.
abbrev pub skip_fuel : ℕ → ℕ → ℕ
skip_fuel last level = suc (last + 1 - level)

-- The rows for the skipped steps, and the request, if any level was skipped.
unfoldable pub finish_skip :
    Env → Option ℕ → ℕ → FlexiRequest → ℕ → List ApprovalWorkflowStep → FlexiAction FlexiRequest
unfolding skip_history after_skip
finish_skip env initiator last r stop [] = pure r
finish_skip env initiator last r stop (s ∷ ss) = do
  λ db. (ok tt, record db { history = db.history ++ map (skip_history r initiator db) (s ∷ ss) })
  save_request (after_skip env.now last stop r)

-- From the relations of the request.
unfoldable pub skip_from :
    Env → Option ℕ → FlexiRequest → List ApprovalWorkflowStep → FlexiAction FlexiRequest
unfolding finish_skip
skip_from env initiator r steps db =
    let last = max_level steps in
    let level = r.current_approval_level in
    elim (skip_loop (skip_fuel last level) (is_mismatch (marketer_branch r db) db) steps last
      level) [
        | none ↦ (err out_of_fuel, db)
        | some (stop, ss) ↦ finish_skip env initiator last r stop ss db
      ]

-- `none` is the `undefined` that a request which is not found gives.
unfoldable pub evaluate_and_skip_levels : Env → ℕ → Option ℕ → FlexiAction (Option FlexiRequest)
unfolding skip_from
evaluate_and_skip_levels env request_id initiator db = elim (find_request request_id db) [
  | none ↦ (ok none, db)
  | some r ↦ elim (request_workflow r db) [
    | none ↦ (ok (some r), db)
    | some w ↦ elim (workflow_steps w db) [
      | [] ↦ (ok (some r), db)
      | s ∷ ss ↦ (skip_from env initiator r (s ∷ ss) >>= λ q. pure (some q)) db
    ]
  ]
]
