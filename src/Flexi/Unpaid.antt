-- ===== src/Flexi/Unpaid.antt =====
-- A request whose extension is not paid, and the decisions on it.
use gdl_finance_v.Flexi.Checks.{update_status-eq}
use gdl_finance_v.Flexi.Safety.{check_workflow-Reads}
use gdl_finance_v.Flexi.Saved.{
  find_request-save_request, after_writes, apply_decision_lem, decide-same,
}
use gdl_finance_v.Base.Action.{Result, err, ok}
use gdl_finance_v.Flexi.Extension.{unpaid_refused, extended, initiate_extension}
use gdl_finance_v.Flexi.Store.{Env, FlexiError, payment_not_confirmed, find_request, save_request}
use gdl_finance_v.Flexi.Status.{
  is_disbursed, apply_decision, is_approve, disbursed, update_status, after_decision, decide,
}
use gdl_finance_v.Base.{
  [], ◌∷◌, not, ◌&&◌, ◌∙◌, ap, sym, Bool-cases, refl, subst, arith, inr, Option-cases, false, inl,
  true, Option, ◌⊎◌, some, List, Bool, ◌≢◌, ◌≡◌, ℕ,
}
use gdl_finance_v.Flexi.Entity.{
  ApprovalWorkflowStep, Decision, FlexiRequest, FlexiDb, UpdateFlexiRequestStatusDto,
  InitiateExtensionDto, approve, reject, disburse,
}

-- The request has an active extension whose payment is not confirmed.
pub record IsUnpaid (id : ℕ) (db : FlexiDb) : Type 0 where
  pub request : FlexiRequest
  pub found : find_request id db ≡ some request
  pub on : request.is_extension_active ≡ true
  pub unpaid : request.extension_payment_confirmed ≡ false

Decision-cases : (d : Decision) → (d ≡ approve) ⊎ (d ≢ approve)
Decision-cases approve = inl refl
Decision-cases reject = inr (λ e. cc)
Decision-cases disburse = inr (λ e. cc)

not_approve : (d : Decision) → d ≢ approve → is_approve d ≡ false
not_approve approve other = absurd (other refl)
not_approve reject other = refl
not_approve disburse other = refl

-- Another decision than an approval leaves the columns of the extension as they are.
decide-extension :
    (now admin_id : ℕ) (dto : UpdateFlexiRequestStatusDto)
    (steps : Option (List ApprovalWorkflowStep)) (r : FlexiRequest)
    → dto.status ≢ approve
    → ((decide now admin_id dto steps r).0.is_extension_active ≡ r.is_extension_active)
      × ((decide now admin_id dto steps r).0.extension_payment_confirmed
          ≡ r.extension_payment_confirmed)
unfolding decide disbursed
decide-extension now admin_id dto steps r other = ground arith

after_decision-kept :
    (env : Env) (admin_id : ℕ) (d : Decision) (final : Bool) (q : FlexiRequest) (db : FlexiDb)
    → d ≢ approve
    → after_decision env admin_id d final q db ≡ (ok q, db)
unfolding after_decision
after_decision-kept env admin_id approve final q db other = absurd (other refl)
after_decision-kept env admin_id reject final q db other = refl
after_decision-kept env admin_id disburse final q db other = refl

apply_decision-IsUnpaid :
    (env : Env) (id admin_id : ℕ) (dto : UpdateFlexiRequestStatusDto)
    (steps : Option (List ApprovalWorkflowStep)) (db : FlexiDb) (u : IsUnpaid id db)
    → dto.status ≢ approve
    → IsUnpaid id (apply_decision env admin_id dto steps u.request db).1
unfolding save_request find_request
apply_decision-IsUnpaid env id admin_id dto steps db u other =
    let r = u.request in
    let (q, final) = decide env.now admin_id dto steps r in
    let (same_id, same_deleted) = decide-same env.now admin_id dto steps r q final refl in
    let (same_on, same_paid) = decide-extension env.now admin_id dto steps r other in
    let (mails, run) = apply_decision_lem env admin_id dto steps r db q final refl in
    let written = after_writes admin_id r.id dto final steps q mails db in
    let ends = run ∙ after_decision-kept env admin_id dto.status final q written other in
    subst (λ (x : Result FlexiError FlexiRequest × FlexiDb). IsUnpaid id x.1) (sym ends)
      (record {
        request = q;
        found = find_request-save_request id r q db u.found same_id same_deleted;
        on = same_on ∙ u.on;
        unpaid = same_paid ∙ u.unpaid;
      })

-- A decision on the request, by whomever and however it ends, leaves the extension unpaid.
update_status-IsUnpaid :
    (env : Env) (id admin_id : ℕ) (dto : UpdateFlexiRequestStatusDto) (db : FlexiDb)
    → IsUnpaid id db
    → IsUnpaid id (update_status env id admin_id dto db).1
unfolding update_status
update_status-IsUnpaid env id admin_id dto db u = elim (Decision-cases dto.status) [
  | inl is_approval ↦
      subst (λ (x : Result FlexiError FlexiRequest × FlexiDb). IsUnpaid id x.1)
        (sym (unpaid_refused env id admin_id dto u.request db u.found u.on u.unpaid is_approval)) u
  | inr other ↦
      let open_ : (u.request.is_extension_active
            && not u.request.extension_payment_confirmed
            && is_approve dto.status)
          ≡ false =
        rw (not_approve dto.status other) (ground arith) in
      elim (check_workflow-Reads u.request admin_id db) [
        | inl (e, refused) ↦ rw (update_status, u.found, open_, refused) u
        | inr (steps, checked) ↦
            subst (λ (x : Result FlexiError FlexiRequest × FlexiDb). IsUnpaid id x.1)
              (sym (
                update_status-eq env id admin_id dto u.request steps db
                  (record { found = u.found; paid = open_; checked = checked })))
              (apply_decision-IsUnpaid env id admin_id dto steps db u other)
      ]
]

-- A decision on a request: its surroundings, the admin, and the body of the call.
pub record DecisionCall : Type 0 where
  pub env : Env
  pub admin_id : ℕ
  pub dto : UpdateFlexiRequestStatusDto

-- The tables after some decisions on a request, however they end.
unfoldable pub decide_all : ℕ → List DecisionCall → FlexiDb → FlexiDb
decide_all id [] db = db
decide_all id (c ∷ cs) db = decide_all id cs (update_status c.env id c.admin_id c.dto db).1

decide_all-IsUnpaid :
    (id : ℕ) (calls : List DecisionCall) (db : FlexiDb)
    → IsUnpaid id db
    → IsUnpaid id (decide_all id calls db)
unfolding decide_all
decide_all-IsUnpaid id [] db u = u
decide_all-IsUnpaid id (c ∷ cs) db u =
    decide_all-IsUnpaid id cs (update_status c.env id c.admin_id c.dto db).1
      (update_status-IsUnpaid c.env id c.admin_id c.dto db u)

initiate_extension-IsUnpaid :
    (id : ℕ) (dto : InitiateExtensionDto) (q : FlexiRequest) (db db' : FlexiDb)
    → initiate_extension id dto db ≡ (ok q, db')
    → IsUnpaid id db'
unfolding initiate_extension extended save_request find_request
initiate_extension-IsUnpaid id dto q db db' h = elim (Option-cases (find_request id db)) [
  | inl missing ↦ let failed = rw (initiate_extension, missing) at h in cc
  | inr (r, found) ↦ elim (Bool-cases (is_disbursed r.status)) [
    | inr other ↦ let failed = rw (initiate_extension, found, other) at h in cc
    | inl paid_out ↦
        let done : (ok (extended dto r), (save_request (extended dto r) db).1) ≡ (ok q, db') =
          rw (initiate_extension, found, paid_out) at h in
        subst (IsUnpaid id) (ap (λ (x : Result FlexiError FlexiRequest × FlexiDb). x.1) done)
          (record {
            request = extended dto r;
            found = find_request-save_request id r (extended dto r) db found refl refl;
            on = refl;
            unpaid = refl;
          })
  ]
]

-- After an extension has been initiated, and after any decisions on the request that follow, by
-- whomever and however they end, an approval of the request is refused and changes nothing, whoever
-- gives it. The payment is not confirmed in between, and nothing else happens to the request.
pub initiate_extension_unpaid_until :
    (env : Env) (id admin_id : ℕ) (dto : InitiateExtensionDto)
    (decision : UpdateFlexiRequestStatusDto) (q : FlexiRequest) (db db' : FlexiDb)
    (calls : List DecisionCall)
    → initiate_extension id dto db ≡ (ok q, db')
    → decision.status ≡ approve
    → update_status env id admin_id decision (decide_all id calls db')
      ≡ (err payment_not_confirmed, decide_all id calls db')
initiate_extension_unpaid_until env id admin_id dto decision q db db' calls h is_approval =
    let u = decide_all-IsUnpaid id calls db' (initiate_extension-IsUnpaid id dto q db db' h) in
    unpaid_refused env id admin_id decision u.request (decide_all id calls db') u.found u.on
      u.unpaid is_approval
