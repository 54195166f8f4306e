-- ===== src/Workspace/Runner.antt =====
-- runner.go: how a plan is run.
-- A goroutine's work is done as a whole: that of a parallel step at the `Wait` of its group, that of a
-- background step at the end of its group, before the codes are read, or at the `Wait` at the end of
-- the plan. A schedule, any schedule, says which, and in which order the goroutines of one place run.
use mep.Prelude.{
  ℕ, zero, suc, ◌+◌, Bool, true, false, Option, none, some, List, [], ◌∷◌, ◌++◌, map, ltb, leb,
  if◌then◌else◌, length, get_elem?, set, not,
}
use mep.Workspace.Plan.{
  task_loop, ErrCode, task_ok, SerErrInfo, TaskBase, Task, StepObj, nil_obj, other_obj, task_obj,
  GoPolicy, go_parallel, go_background, go_serial, SubGrp, PlanBase, record_err_info,
  goto_error_proc,
}

-- the state of `grpRun`: the group, the workspace, and the steps that its two wait groups hold
pub record GrpRun (W : Type 0) : Type 0 where
  pub grp : SubGrp W
  pub space : W
  pub wg : List ℕ
  pub wt : List ℕ

-- the choices of the scheduler: the order of a group's goroutines, which of its background steps have run
-- when its codes are read, and the order of the others
pub record Schedule (W : Type 0) : Type 0 where
  pub order : List ℕ → List ℕ
  pub early : SubGrp W → ℕ → Bool
  pub last_order : List (ℕ × ℕ) → List (ℕ × ℕ)

-- an order of what there is
abbrev reorder : {A : Type 0} → (List A → List A) → List A → List A
reorder order [] = []
reorder order (x ∷ xs) = order (x ∷ xs)

abbrev pick : (ℕ → Bool) → List ℕ → List ℕ
pick p [] = []
pick p (i ∷ is) = let rest = pick p is in if p i then i ∷ rest else rest

module _ {W : Type 0} where
  -- `taskRunner`; a task's loop never runs out of rounds, by `ends`
  unfoldable pub task_runner : SerErrInfo → Task W → W → TaskBase → W × TaskBase
  task_runner ser t w b = elim (task_loop t.load_in t.on_request t.load_out ser t.rounds w b) [
    | some r ↦ r
    | none ↦ (w, b)
  ]

  -- a task run where it stands in its group
  unfoldable pub run_at : SerErrInfo → ℕ → Task W → TaskBase → GrpRun W → GrpRun W
  unfolding task_runner
  run_at ser i t b r =
      let (w', b') = task_runner ser t r.space b in
      record r {
        space = w';
        grp = record r.grp { step_objs = set r.grp.step_objs i (task_obj t b') };
      }

  abbrev result_of : SerErrInfo → Task W → TaskBase → W → ErrCode
  unfolding task_runner
  result_of ser t b w = let (w', b') = task_runner ser t w b in b'.result_code

  -- `stepPolicy`
  unfoldable pub step_policy :
      SerErrInfo → GoPolicy → Task W → TaskBase → GrpRun W → GrpRun W × ErrCode
  unfolding run_at
  step_policy ser go_background t b r = (record r { wt = r.wt ++ r.grp.cur_step_idx ∷ [] }, task_ok)
  step_policy ser go_parallel t b r = (record r { wg = r.wg ++ r.grp.cur_step_idx ∷ [] }, task_ok)
  step_policy ser go_serial t b r = (run_at ser r.grp.cur_step_idx t b r, result_of ser t b r.space)

  abbrev next_step : GrpRun W → GrpRun W
  next_step r = record r { grp = record r.grp { cur_step_idx = r.grp.cur_step_idx + 1 } }

  -- `grpOneStep` at the step that the index points to, `none` past the end
  unfoldable pub one_step_at : SerErrInfo → Option (StepObj W) → GrpRun W → GrpRun W × Bool
  unfolding step_policy
  one_step_at ser none r = (r, false)
  one_step_at ser (some nil_obj) r = (next_step r, true)
  one_step_at ser (some other_obj) r = (r, false)
  one_step_at ser (some (task_obj t b)) r =
      let (r', code) = step_policy ser r.grp.policy t b r in (next_step r', leb code task_ok)

  unfoldable pub grp_one_step : SerErrInfo → GrpRun W → GrpRun W × Bool
  unfolding one_step_at
  grp_one_step ser r = one_step_at ser (get_elem? r.grp.step_objs r.grp.cur_step_idx) r

  -- the loop of `grpRun`, on fuel
  unfoldable pub grp_loop : SerErrInfo → ℕ → GrpRun W → Option (GrpRun W)
  unfolding grp_one_step
  grp_loop ser zero r = none
  grp_loop ser (suc fuel) r =
      let (r', more) = grp_one_step ser r in
      elim more [ true ↦ grp_loop ser fuel r' | false ↦ some r' ]

  -- a goroutine's task
  unfoldable pub run_spawned : SerErrInfo → List ℕ → GrpRun W → GrpRun W
  unfolding run_at
  run_spawned ser [] r = r
  run_spawned ser (i ∷ is) r = elim (get_elem? r.grp.step_objs i) [
    | some (task_obj t b) ↦ run_spawned ser is (run_at ser i t b r)
    | _ ↦ run_spawned ser is r
  ]

  -- `grpGetRetCode` from index `i` on; -1 is `none`
  unfoldable pub grp_get_ret_code : ℕ → List (StepObj W) → ErrCode × Option ℕ
  grp_get_ret_code i [] = (task_ok, none)
  grp_get_ret_code i (task_obj t b ∷ objs) =
      if ltb task_ok b.result_code then (b.result_code, some i) else grp_get_ret_code (suc i) objs
  grp_get_ret_code i (_ ∷ objs) = grp_get_ret_code (suc i) objs

  -- the plan with the group that has run put back
  abbrev pub put_back : PlanBase W → GrpRun W → PlanBase W
  put_back plan r = record plan {
    plan_grp = set plan.plan_grp plan.cur_grp_idx r.grp;
    background = plan.background ++ map (λ i. (plan.cur_grp_idx, i)) r.wt;
  }

  -- one round of the loop of `WkRun`, after the group has run
  unfoldable pub after_grp : PlanBase W → ErrCode → Option ℕ → PlanBase W
  after_grp plan code idx =
      if leb code task_ok
      then record plan { cur_grp_idx = plan.cur_grp_idx + 1 }
      else goto_error_proc (record_err_info plan idx)

  -- `WtPlan.Wait()`
  unfoldable pub wait_background : List (ℕ × ℕ) → PlanBase W → W → PlanBase W × W
  unfolding run_spawned
  wait_background [] plan w = (plan, w)
  wait_background ((g, i) ∷ bg) plan w = elim (get_elem? plan.plan_grp g) [
    | none ↦ wait_background bg plan w
    | some grp ↦
        let r =
          run_spawned plan.ser_error (i ∷ []) (record { grp = grp; space = w; wg = []; wt = [] }) in
        wait_background bg (record plan { plan_grp = set plan.plan_grp g r.grp }) r.space
  ]

module _ {W : Type 0} (order : Schedule W) where
  abbrev wait_parallel : SerErrInfo → GoPolicy → GrpRun W → GrpRun W
  wait_parallel ser go_parallel r = record (run_spawned ser (reorder order.order r.wg) r) {
    wg = [];
  }
  wait_parallel ser _ r = r

  -- the background steps of the group that have run when its codes are read
  abbrev run_early : SerErrInfo → GrpRun W → GrpRun W
  run_early ser r =
      let early = order.early r.grp in
      record (run_spawned ser (reorder order.order (pick early r.wt)) r) {
        wt = pick (λ i. not (early i)) r.wt;
      }

  -- `grpRun`, with fuel for one round more than the group has steps
  unfoldable pub grp_run : SerErrInfo → SubGrp W → W → Option (GrpRun W × ErrCode × Option ℕ)
  grp_run ser grp w =
      elim (grp_loop ser (suc (length grp.step_objs))
        (record { grp = grp; space = w; wg = []; wt = [] })) [
          | none ↦ none
          | some r ↦
              let r' = run_early ser (wait_parallel ser grp.policy r) in
              let (code, idx) = grp_get_ret_code 0 r'.grp.step_objs in some (r', code, idx)
        ]

  -- the loop of `WkRun`, on fuel; the result is the plan and the workspace at its end
  unfoldable pub wk_loop : ℕ → PlanBase W → W → Option (PlanBase W × W)
  wk_loop zero plan w = none
  wk_loop (suc fuel) plan w = elim (get_elem? plan.plan_grp plan.cur_grp_idx) [
    | none ↦ some (plan, w)
    | some grp ↦ elim (grp_run plan.ser_error grp w) [
      | none ↦ none
      | some (r, code, idx) ↦ wk_loop fuel (after_grp (put_back plan r) code idx) r.space
    ]
  ]

  -- `WkRun`, with fuel for one round more than the plan has groups
  unfoldable pub wk_run : PlanBase W → W → Option (PlanBase W × W)
  wk_run plan w = elim (wk_loop (suc (length plan.plan_grp)) plan w) [
    | none ↦ none
    | some (plan', w') ↦ some (wait_background (reorder order.last_order plan'.background) plan' w')
  ]
