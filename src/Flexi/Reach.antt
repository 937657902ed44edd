-- ===== src/Flexi/Reach.antt =====
-- The approvals of the admins of its levels bring a request to the disbursement of its funds.
use gdl_finance_v.Base.Action.{Result}
use gdl_finance_v.Flexi.SkipLaws.{IsSkipped}
use gdl_finance_v.Flexi.Approval.{update_status_approve}
use gdl_finance_v.Flexi.Disbursal.{update_status_final}
use gdl_finance_v.Flexi.Checks.{MayDecide}
use gdl_finance_v.Flexi.Progress.{update_status-config, may_approve, approval}
use gdl_finance_v.Flexi.Entity.{
  ApprovalWorkflowStep, ApprovalWorkflow, funds_disbursed, FlexiDb, FlexiRequest,
}
use gdl_finance_v.Flexi.Status.{approved_finally, level_or_one, update_status, disbursed}
use gdl_finance_v.Flexi.Skip.{is_mismatch, after_skip}
use Prim.Native.Nat.{zero}
use gdl_finance_v.Base.{
  sym, subst, ◌∙◌, ◌-◌, ap, ◌==◌, ltb, ◌+◌, update_where, Bool-cases, length, ◌⊎◌, ◌≤◌, List, ℕ,
  suc, inl, inr, refl, ◌≡◌, arith, ◌∷◌, [], some,
}
use gdl_finance_v.Flexi.Pending.{Pending, pending_at, Pending-next, saved-found}
use gdl_finance_v.Flexi.Store.{marketer_branch, FlexiError, max_level, Env, find_request, config}

-- One approval after another, of the request with the id.
abbrev pub approve_all : Env → ℕ → List ℕ → FlexiDb → FlexiDb
approve_all env id [] db = db
approve_all env id (a ∷ rest) db = approve_all env id rest (update_status env id a approval db).1

pub after_skip-cases :
    (now last stop : ℕ) (r : FlexiRequest)
    → ((after_skip now last stop r).status ≡ funds_disbursed)
      ⊎ ((stop ≤ last) × (after_skip now last stop r ≡ pending_at stop r))
unfolding after_skip
after_skip-cases now last stop r = elim (Bool-cases (ltb last stop)) [
  | inl beyond ↦ inl (rw (after_skip, beyond) refl)
  | inr inside ↦ inr (ground arith, rw (after_skip, inside) refl)
]

-- The outcome of finitely many approvals.
abbrev pub Reaches : Env → ℕ → ℕ → FlexiDb → Type 0
Reaches env id bound db =
    (admins : List ℕ) × (q : FlexiRequest) × (find_request id (approve_all env id admins db)
      ≡ some q)
    × (q.status ≡ funds_disbursed)
    × (length admins ≤ bound)

Reaches-one :
    (env : Env) (id bound a : ℕ) (r q : FlexiRequest) (db db' : FlexiDb)
    → find_request id db ≡ some r
    → q.id ≡ r.id
    → q.is_deleted ≡ r.is_deleted
    → (update_status env id a approval db).1 ≡ db'
    → db'.requests ≡ update_where (λ x. x.id == r.id) (λ _. q) db.requests
    → q.status ≡ funds_disbursed
    → Reaches env id (bound + 1) db
Reaches-one env id bound a r q db db' found e d run rows done =
    (a ∷ [], q, rw run (saved-found id r q db db' found e d rows), done, omega arith)

Reaches-on :
    (n : ℕ) (env : Env) (id a : ℕ) (db db' : FlexiDb)
    → (update_status env id a approval db).1 ≡ db'
    → Reaches env id (n + 1) db'
    → Reaches env id (suc n + 1) db
Reaches-on n env id a db db' run (admins, q, found, done, count) = (
  a ∷ admins,
  q,
  ap (λ d. find_request id (approve_all env id admins d)) run ∙ found,
  done,
  omega arith,
)

pub after_skip-same :
    (now last stop : ℕ) (r : FlexiRequest)
    → ((after_skip now last stop r).id ≡ r.id)
      × ((after_skip now last stop r).is_deleted ≡ r.is_deleted)
unfolding after_skip
after_skip-same now last stop r = (ground arith, ground arith)

level_or_one-eq : (n : ℕ) → 1 ≤ n → level_or_one n ≡ n
level_or_one-eq zero h = absurd (omega arith)
level_or_one-eq (suc n) h = refl

Pending-may_approve :
    (id : ℕ) (r : FlexiRequest) (w : ApprovalWorkflow) (s : ApprovalWorkflowStep)
    (ss : List ApprovalWorkflowStep) (db : FlexiDb)
    → Pending id r w (s ∷ ss) db
    → (a : ℕ) × MayDecide id a approval r (some (s ∷ ss)) db
Pending-may_approve id r w s ss db p =
    let level = level_or_one-eq r.current_approval_level p.started in
    may_approve id r w s ss db p.found p.has p.stored p.staffed p.unextended (
      subst (λ l. ¬ IsSkipped (is_mismatch (marketer_branch r db) db) (s ∷ ss) l) (sym level)
        p.kept)

-- The last approval.
Reaches-final :
    (n : ℕ) (env : Env) (id : ℕ) (r : FlexiRequest) (w : ApprovalWorkflow)
    (s : ApprovalWorkflowStep) (ss : List ApprovalWorkflowStep) (db : FlexiDb)
    → Pending id r w (s ∷ ss) db
    → max_level (s ∷ ss) ≤ r.current_approval_level
    → Reaches env id (n + 1) db
unfolding disbursed
Reaches-final n env id r w s ss db p last =
    let (a, m) = Pending-may_approve id r w s ss db p in
    let (db', run, rows, grown) =
      update_status_final env id a approval r (some (s ∷ ss)) db m refl last in
    Reaches-one env id n a r (approved_finally env.now a r) db db' p.found refl refl
      (ap (λ (x : Result FlexiError FlexiRequest × FlexiDb). x.1) run) rows refl

pub reaches :
    (n : ℕ) (env : Env) (id : ℕ) (r : FlexiRequest) (w : ApprovalWorkflow)
    (s : ApprovalWorkflowStep) (ss : List ApprovalWorkflowStep) (db : FlexiDb)
    → Pending id r w (s ∷ ss) db
    → max_level (s ∷ ss) ≤ n + r.current_approval_level
    → Reaches env id (n + 1) db
reaches zero env id r w s ss db p enough =
    Reaches-final zero env id r w s ss db p (omega (arith, enough))
reaches (suc n) env id r w s ss db p enough =
    elim (Bool-cases (ltb r.current_approval_level (max_level (s ∷ ss)))) [
      | inr last ↦ Reaches-final (suc n) env id r w s ss db p (ground arith)
      | inl below ↦
          let (a, m) = Pending-may_approve id r w s ss db p in
          let (stop, db', first, run, rows, counted, placed) =
            update_status_approve env id a approval r s ss db m refl (ground arith) in
          let q = after_skip env.now (max_level (s ∷ ss)) stop r in
          let step : (update_status env id a approval db).1 ≡ db' =
            ap (λ (x : Result FlexiError FlexiRequest × FlexiDb). x.1) run in
          elim (after_skip-cases env.now (max_level (s ∷ ss)) stop r) [
            | inl done ↦
                let (same_id, same_deleted) = after_skip-same env.now (max_level (s ∷ ss)) stop r in
                Reaches-one env id (suc n) a r q db db' p.found same_id same_deleted step rows done
            | inr (inside, moved) ↦
                let same : config db' ≡ config db =
                  ap config (sym step) ∙ update_status-config env id a approval db in
                let at_stop : db'.requests
                    ≡ update_where (λ x. x.id == r.id) (λ _. pending_at stop r) db.requests =
                  rows ∙ rw moved refl in
                let reached = first.reached in
                let next =
                  Pending-next id stop r w (s ∷ ss) db db' p same at_stop (omega arith)
                    first.kept in
                let left : max_level (s ∷ ss) ≤ n + stop = omega (arith, enough, reached) in
                Reaches-on n env id a db db' step
                  (reaches n env id (pending_at stop r) w s ss db' next left)
          ]
    ]

-- A request pending at a level that is not to be skipped, with a workflow whose steps all have an
-- admin, and without an extension that waits for its payment: there are admins, at most one for
-- each level from the current one to the last and one more, whose approvals one after another leave
-- the request with its funds disbursed.
pub approve_all-disburses :
    (env : Env) (id : ℕ) (r : FlexiRequest) (w : ApprovalWorkflow) (s : ApprovalWorkflowStep)
    (ss : List ApprovalWorkflowStep) (db : FlexiDb)
    → Pending id r w (s ∷ ss) db
    → Reaches env id (max_level (s ∷ ss) - r.current_approval_level + 1) db
approve_all-disburses env id r w s ss db p =
    reaches (max_level (s ∷ ss) - r.current_approval_level) env id r w s ss db p (omega arith)
