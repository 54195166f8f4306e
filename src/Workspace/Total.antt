-- ===== src/Workspace/Total.antt =====
-- runner.go: every run of a plan ends.
use mep.Prelude.{
  ℕ, zero, suc, ◌+◌, ◌≤◌, ◌<◌, ◌≡◌, ◌≢◌, refl, ap, inl, inr, true, Option, none, some, [], arith,
  length, get_elem?, length-set, lt-length_of_get_elem?, Bool-cases, Option-cases,
}
use mep.Workspace.Plan.{
  ErrCode, SerErrInfo, TaskBase, Task, StepObj, nil_obj, other_obj, task_obj, GoPolicy, go_parallel,
  go_background, go_serial, SubGrp, PlanBase, goto_error_step, goto_from, goto_error_proc,
  record_err_info,
}
use mep.Workspace.Runner.{
  GrpRun, Schedule, step_policy, one_step_at, grp_one_step, grp_loop, grp_run, put_back, after_grp,
  wk_loop, wk_run,
}

module _ {W : Type 0} (ser : SerErrInfo) where
  abbrev steps : GrpRun W → ℕ
  steps r = length r.grp.step_objs

  -- A step changes neither the number of steps nor the index.
  step_policy-steps :
      (p : GoPolicy) (t : Task W) (b : TaskBase) (r : GrpRun W)
      → (steps (step_policy ser p t b r).0 ≡ steps r)
        × ((step_policy ser p t b r).0.grp.cur_step_idx ≡ r.grp.cur_step_idx)
  unfolding step_policy
  step_policy-steps go_background t b r = (refl, refl)
  step_policy-steps go_parallel t b r = (refl, refl)
  step_policy-steps go_serial t b r = (length-set r.grp.step_objs r.grp.cur_step_idx _, refl)

  one_step_at-next :
      (o : Option (StepObj W)) (r : GrpRun W)
      → (one_step_at ser o r).1 ≡ true
      → (steps (one_step_at ser o r).0 ≡ steps r)
        × ((one_step_at ser o r).0.grp.cur_step_idx ≡ r.grp.cur_step_idx + 1)
        × (o ≢ none)
  unfolding one_step_at
  one_step_at-next none r h = cc
  one_step_at-next (some nil_obj) r h = (refl, refl, λ e. cc)
  one_step_at-next (some other_obj) r h = cc
  one_step_at-next (some (task_obj t b)) r h =
      let (same, idx) = step_policy-steps r.grp.policy t b r in (same, ap (λ n. n + 1) idx, λ e. cc)

  -- A round that goes on has moved the index on by one, from inside the group.
  grp_one_step-next :
      (r : GrpRun W)
      → (grp_one_step ser r).1 ≡ true
      → (steps (grp_one_step ser r).0 ≡ steps r)
        × ((grp_one_step ser r).0.grp.cur_step_idx ≡ r.grp.cur_step_idx + 1)
        × (r.grp.cur_step_idx < steps r)
  unfolding grp_one_step
  grp_one_step-next r h = elim (Option-cases (get_elem? r.grp.step_objs r.grp.cur_step_idx)) [
    | inl e ↦ absurd ((one_step_at-next _ r h).2 e)
    | inr (o, e) ↦
        let (same, idx, _) = one_step_at-next _ r h in
        (same, idx, lt-length_of_get_elem? r.grp.step_objs _ e)
  ]

  grp_loop_total :
      (fuel : ℕ) (r : GrpRun W)
      → 0 < fuel
      → steps r < fuel + r.grp.cur_step_idx
      → grp_loop ser fuel r ≢ none
  unfolding grp_loop
  grp_loop_total zero r pos h = absurd (omega arith)
  grp_loop_total (suc fuel) r pos h = elim (Bool-cases (grp_one_step ser r).1) [
    | inl more ↦
        let (same, idx, inside) = grp_one_step-next r more in
        rw (more, grp_loop) (grp_loop_total fuel (grp_one_step ser r).0 (omega arith) (omega arith))
    | inr stop ↦ rw (stop, grp_loop) (λ e. cc)
  ]

abbrev length_grps : {W : Type 0} → PlanBase W → ℕ
length_grps plan = length plan.plan_grp

module _ {W : Type 0} where
  goto_error_step-le :
      (n : ℕ) (plan : PlanBase W) {plan' : PlanBase W}
      → goto_error_step plan n ≡ some plan'
      → (plan.cur_grp_idx ≤ plan'.cur_grp_idx) × (length_grps plan' ≡ length_grps plan)
  unfolding goto_error_step
  goto_error_step-le n plan h = grind (arith, length-set)

  -- The jump of `GotoErrorProc` never goes back.
  goto_from-le :
      (k n : ℕ) (plan : PlanBase W)
      → (plan.cur_grp_idx ≤ (goto_from k n plan).cur_grp_idx)
        × (length_grps (goto_from k n plan) ≡ length_grps plan)
  unfolding goto_from
  goto_from-le zero n plan = (omega arith, refl)
  goto_from-le (suc k) n plan = elim (Option-cases (goto_error_step plan n)) [
    | inl e ↦ rw (e, goto_from) (goto_from-le k (suc n) plan)
    | inr (plan', e) ↦ rw (e, goto_from) (goto_error_step-le n plan e)
  ]

  record_err_info-le :
      (plan : PlanBase W) (idx : Option ℕ)
      → ((record_err_info plan idx).cur_grp_idx ≡ plan.cur_grp_idx)
        × (length_grps (record_err_info plan idx) ≡ length_grps plan)
  unfolding record_err_info
  record_err_info-le plan idx = ground arith

  -- Whatever the group returned, the plan moves on.
  after_grp-lt :
      (plan : PlanBase W) (code : ErrCode) (idx : Option ℕ)
      → (plan.cur_grp_idx < (after_grp plan code idx).cur_grp_idx)
        × (length_grps (after_grp plan code idx) ≡ length_grps plan)
  unfolding after_grp goto_error_proc
  after_grp-lt plan code idx =
      let p = record_err_info plan idx in
      ground (
        arith,
        record_err_info-le plan idx,
        goto_from-le (length p.plan_grp) 0 (record p { cur_grp_idx = p.cur_grp_idx + 1 }),
      )

module _ {W : Type 0} (order : Schedule W) where
  grp_run_total : (ser : SerErrInfo) (grp : SubGrp W) (w : W) → grp_run order ser grp w ≢ none
  unfolding grp_run
  grp_run_total ser grp w = ground (
    arith,
    grp_loop_total ser (suc (length grp.step_objs))
        (record { grp = grp; space = w; wg = []; wt = [] }),
  )

  wk_loop_total :
      (fuel : ℕ) (plan : PlanBase W) (w : W)
      → 0 < fuel
      → length_grps plan < fuel + plan.cur_grp_idx
      → wk_loop order fuel plan w ≢ none
  unfolding wk_loop
  wk_loop_total zero plan w pos h = absurd (omega arith)
  wk_loop_total (suc fuel) plan w pos h =
      elim (Option-cases (get_elem? plan.plan_grp plan.cur_grp_idx)) [
        | inl e ↦ rw (e, wk_loop) (λ e'. cc)
        | inr (grp, e) ↦ elim (Option-cases (grp_run order plan.ser_error grp w)) [
          | inl f ↦ absurd (grp_run_total plan.ser_error grp w f)
          | inr ((r, code, idx), f) ↦
              let inside = lt-length_of_get_elem? plan.plan_grp plan.cur_grp_idx e in
              let (on, same) = after_grp-lt (put_back plan r) code idx in
              let kept = length-set plan.plan_grp plan.cur_grp_idx r.grp in
              rw (e, f, wk_loop)
                (wk_loop_total fuel (after_grp (put_back plan r) code idx) r.space (omega arith)
                  (omega arith))
        ]
      ]

  -- Every run of a plan whose tasks each end, if they are run, ends: whatever its groups and the codes of
  -- its tasks, for every schedule.
  pub wk_run_total : (plan : PlanBase W) (w : W) → wk_run order plan w ≢ none
  unfolding wk_run
  wk_run_total plan w = ground (arith, wk_loop_total (suc (length plan.plan_grp)) plan w)
