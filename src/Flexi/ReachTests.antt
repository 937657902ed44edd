-- ===== src/Flexi/ReachTests.antt =====
-- A request at the first of three levels, the second in another branch, on its way to disbursement.
use gdl_finance_v.Base.Action.{ok}
use gdl_finance_v.Flexi.Journey.{create_request-disburses, Ready}
use gdl_finance_v.Flexi.Entity.{mf_funding, FlexiRequest, FlexiDb}
use gdl_finance_v.Flexi.Create.{
  by_user, create_request, find_last, flexi_workflow, CreateFlexiRequestDto,
}
use gdl_finance_v.Flexi.Pending.{Pending}
use gdl_finance_v.Flexi.SkipLaws.{IsSkipped}
use gdl_finance_v.Pool.Service.{find_admin}
use gdl_finance_v.Flexi.Reach.{approve_all-disburses, Reaches}
use gdl_finance_v.Base.{none, some, [], sym, true, subst, some-injective, refl, ◌≡◌, arith, ◌∷◌}
use gdl_finance_v.Flexi.Tests.{db_with, env, first_level, steps, step_of, flow, admin_of}
use gdl_finance_v.Flexi.Store.{
  workflow_steps, request_workflow, step_admin, max_level, find_request, step_at, marketer_branch,
}
use gdl_finance_v.Flexi.Skip.{is_mismatch}

first_level-kept :
    ¬ IsSkipped
      (is_mismatch (marketer_branch first_level (db_with first_level)) (db_with first_level))
      (step_of 1 11 ∷ steps)
      1
unfolding step_at is_mismatch marketer_branch step_admin find_admin
first_level-kept k =
    let same : step_of 1 11 ≡ k.0 = some-injective (step_of 1 11) k.0 k.1 in
    let skipped =
      subst
        (λ t.
          is_mismatch (marketer_branch first_level (db_with first_level)) (db_with first_level) t
          ≡ true)
        (sym same) k.2 in
    cc

first_level-Pending : Pending 5 first_level flow (step_of 1 11 ∷ steps) (db_with first_level)
unfolding find_request request_workflow workflow_steps step_admin find_admin
first_level-Pending = record {
  found = refl;
  has = refl;
  stored = refl;
  staffed = ((admin_of 11 7, refl), ((admin_of 12 8, refl), ((admin_of 13 7, refl), tt)));
  unextended = refl;
  started = omega arith;
  kept = first_level-kept;
}

approve_all-disburses_example : Reaches env 5 3 (db_with first_level)
unfolding max_level
approve_all-disburses_example =
    approve_all-disburses env 5 first_level flow (step_of 1 11) steps (db_with first_level)
      first_level-Pending

abbrev ask : CreateFlexiRequestDto
ask = record {
  request_type = mf_funding;
  amount = 100000;
  tenure = some "30 Days";
  client_email = none;
  marketer_id = some 4;
}

abbrev empty_db : FlexiDb
empty_db = record (db_with first_level) { requests = [] }

empty_db-Ready : Ready flow (step_of 1 11 ∷ steps) empty_db
unfolding flexi_workflow find_last workflow_steps step_admin find_admin find_request
empty_db-Ready = record {
  workflow = refl;
  keyed = refl;
  stored = refl;
  staffed = ((admin_of 11 7, refl), ((admin_of 12 8, refl), ((admin_of 13 7, refl), tt)));
  free = refl;
}

create_request-disburses_example :
    (q : FlexiRequest) × (db' : FlexiDb) × (create_request env none (by_user 9) ask empty_db
      ≡ (ok (some q), db'))
    × Reaches env 6 4 db'
unfolding max_level
create_request-disburses_example =
    create_request-disburses env none 9 ask flow (step_of 1 11) steps empty_db empty_db-Ready refl
      refl
