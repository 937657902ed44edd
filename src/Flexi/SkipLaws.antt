-- ===== src/Flexi/SkipLaws.antt =====
-- Where the skipping of levels stops, and that it stops.
use Prim.Native.Nat.{zero}
use gdl_finance_v.Flexi.Skip.{skip_loop}
use gdl_finance_v.Base.{
  ◌⊎◌, Option-cases, subst, [], inr, ◌∙◌, sym, eq_of_==, ap, some-injective, inl, ◌==◌, Bool-cases,
  ◌<◌, ◌∷◌, length, true, suc, some, ◌+◌, ◌≤◌, ◌≡◌, arith, List, ℕ, Bool,
}
use gdl_finance_v.Flexi.Entity.{ApprovalWorkflowStep}
use gdl_finance_v.Flexi.Store.{max_level, step_at}

step_at-le-max :
    (level : ℕ) (ss : List ApprovalWorkflowStep) (s : ApprovalWorkflowStep)
    → step_at level ss ≡ some s
    → (s.level ≡ level) × (level ≤ max_level ss)
unfolding step_at max_level
step_at-le-max level [] s h = cc
step_at-le-max level (t ∷ ss) s h = elim (Bool-cases (t.level == level)) [
  | inl hit ↦
      let same : t ≡ s = some-injective t s (rw hit at h) in
      let e : t.level ≡ s.level = ap (λ (u : ApprovalWorkflowStep). u.level) same in
      let e' : t.level ≡ level = eq_of_== t.level level hit in (sym e ∙ e', omega arith)
  | inr miss ↦ let (same, below) = step_at-le-max level ss s (rw miss at h) in (same, omega arith)
]

module _ (mismatch : ApprovalWorkflowStep → Bool) (steps : List ApprovalWorkflowStep) where
  -- The level has a step, and the step is skipped.
  abbrev pub IsSkipped : ℕ → Type 0
  IsSkipped level =
      (s : ApprovalWorkflowStep) × (step_at level steps ≡ some s) × (mismatch s ≡ true)

  -- `stop` is the first level from `level` on that is not skipped.
  pub record FirstKept (level stop : ℕ) : Type 0 where
    pub reached : level ≤ stop
    pub below : (l : ℕ) → level ≤ l → l < stop → IsSkipped l
    pub kept : ¬ IsSkipped stop

  first-here : (level : ℕ) → ¬ IsSkipped level → FirstKept level level
  first-here level h = record {
    reached = omega arith;
    below = λ l p q. absurd (omega arith);
    kept = h;
  }

  first-later :
      (level stop : ℕ) → IsSkipped level → FirstKept (level + 1) stop → FirstKept level stop
  first-later level stop h f = record {
    reached = omega (arith, f.reached);
    below = λ l p q. elim (Bool-cases (l == level)) [
      | inl same ↦ subst IsSkipped (sym (eq_of_== l level same)) h
      | inr apart ↦ f.below l (ground arith) q
    ];
    kept = f.kept;
  }

  -- A round that stops.
  stop_here :
      (fuel level : ℕ)
      → ¬ IsSkipped level
      → skip_loop (suc fuel) mismatch steps (max_level steps) level ≡ some (level, [])
  unfolding skip_loop
  stop_here fuel level kept = elim (Option-cases (step_at level steps)) [
    | inl missing ↦ ground arith
    | inr (s, found) ↦ elim (Bool-cases (mismatch s)) [
      | inl hit ↦ absurd (kept (s, found, hit))
      | inr miss ↦ ground arith
    ]
  ]

  -- A round that goes on.
  go_on :
      (fuel level stop : ℕ) (s : ApprovalWorkflowStep) (ss : List ApprovalWorkflowStep)
      → step_at level steps ≡ some s
      → mismatch s ≡ true
      → skip_loop fuel mismatch steps (max_level steps) (level + 1) ≡ some (stop, ss)
      → skip_loop (suc fuel) mismatch steps (max_level steps) level ≡ some (stop, s ∷ ss)
  unfolding skip_loop
  go_on fuel level stop s ss found hit rest =
      let below = (step_at-le-max level steps s found).1 in ground arith

  IsSkipped-cases : (level : ℕ) → IsSkipped level ⊎ (¬ IsSkipped level)
  IsSkipped-cases level = elim (Option-cases (step_at level steps)) [
    | inl missing ↦ inr (λ k. let e = k.1 in cc)
    | inr (s, found) ↦ elim (Bool-cases (mismatch s)) [
      | inl hit ↦ inl (s, found, hit)
      | inr miss ↦ inr (λ k. let e = k.1 in let e' = k.2 in ground arith)
    ]
  ]

  -- With the fuel given the loop ends, at the first level that is kept, after as many steps.
  pub skip_loop_lem :
      (fuel level : ℕ)
      → max_level steps + 1 ≤ fuel + level
      → (stop : ℕ) × (ss : List ApprovalWorkflowStep) × (skip_loop
            (suc fuel)
            mismatch
            steps
            (max_level steps)
            level
          ≡ some (stop, ss))
        × FirstKept level stop
        × (stop ≡ level + length ss)
  skip_loop_lem zero level enough =
      let kept : ¬ IsSkipped level =
        λ k. let below = (step_at-le-max level steps k.0 k.1).1 in absurd (omega arith) in
      (level, [], stop_here zero level kept, first-here level kept, omega arith)
  skip_loop_lem (suc fuel) level enough = elim (IsSkipped-cases level) [
    | inr kept ↦ (level, [], stop_here (suc fuel) level kept, first-here level kept, omega arith)
    | inl (s, found, hit) ↦
        let (stop, ss, rest, first, count) = skip_loop_lem fuel (level + 1) (omega arith) in
        (
          stop,
          s ∷ ss,
          go_on (suc fuel) level stop s ss found hit rest,
          first-later level stop (s, found, hit) first,
          omega arith,
        )
  ]
