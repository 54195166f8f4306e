-- ===== src/Workspace/Handlers.antt =====
-- runner.go: the plan that every handler builds, `Try(tasks…)` and then `Finally(last)`, from the
-- building of the plan to its end.
use mep.Prelude.{
  ℕ, suc, ◌≡◌, refl, ap, ◌∙◌, inl, inr, Option, none, some, List, [], ◌∷◌, map, arith, ltb, length,
  get_elem?, length-map, Bool-cases, Option-cases,
}
use mathlib.Core.Option
use mep.Workspace.Plan.{
  ErrCode, SerErrInfo, no_error, finally_name, TaskBase, Task, StepObj, task_obj, go_serial, SubGrp,
  PlanBase, init, try, finally, install, load_data, record_err_info, goto_from, goto_error_proc,
}
use mep.Workspace.Runner.{
  GrpRun, Schedule, task_runner, run_spawned, grp_loop, grp_get_ret_code, grp_run, put_back,
  after_grp, wait_background, wk_loop, wk_run,
}
use mep.Workspace.TryFinally.{
  ready, fresh_task, ready_task, run_until_failure, recorded, code_of, serial_run, leb_of_failed,
  grp_loop-run_until_failure, grp_get_ret_code-run_until_failure, get_elem?-run_until_failure,
  failed_pos,
}

module _ {W : Type 0} where
  abbrev pub handler_plan : List (Task W) → Task W → PlanBase W
  handler_plan ts last = finally (fresh_task last) (try (map fresh_task ts) init)

  -- What a handler does: its tasks up to the first failure, and then the last task, which sees the
  -- error record of that failure.
  unfoldable pub handle : List (Task W) → Task W → W → W
  unfolding run_until_failure task_runner
  handle ts last w =
      let ran = run_until_failure 0 ts w in
      (task_runner (recorded ran.failed) last ran.space ready).0

  abbrev try_grp : List (StepObj W) → ℕ → SubGrp W
  try_grp objs cur = record {
    policy = go_serial;
    cur_step_idx = cur;
    step_names = [];
    step_objs = objs;
  }

  abbrev finally_grp : StepObj W → ℕ → SubGrp W
  finally_grp obj cur = record {
    policy = go_serial;
    cur_step_idx = cur;
    step_names = finally_name ∷ [];
    step_objs = obj ∷ [];
  }

  abbrev plan_at : ℕ → SerErrInfo → SubGrp W → SubGrp W → PlanBase W
  plan_at cur ser g f = record {
    ser_error = ser;
    err_step = finally_name;
    plan_grp = g ∷ f ∷ [];
    cur_grp_idx = cur;
    background = [];
  }

  install-load_data :
      (ts : List (Task W)) → install (load_data (map fresh_task ts)) ≡ map ready_task ts
  unfolding install load_data
  install-load_data [] = refl
  install-load_data (t ∷ ts) = ap (◌∷◌ (ready_task t)) (install-load_data ts)

  handler_plan_lem :
      (ts : List (Task W)) (last : Task W)
      → handler_plan ts last
        ≡ plan_at 0 no_error (try_grp (map ready_task ts) 0) (finally_grp (ready_task last) 0)
  unfolding finally try init
  handler_plan_lem ts last = rw (install-load_data ts)

  module _ (order : Schedule W) where
    grp_run_of_loop :
        (ser : SerErrInfo) (g g' : SubGrp W) (w w' : W)
        → g.policy ≡ go_serial
        → let r : GrpRun W = record { grp = g'; space = w'; wg = []; wt = [] } in
          grp_loop ser (suc (length g.step_objs)) (record { grp = g; space = w; wg = []; wt = [] })
            ≡ some r
          → grp_run order ser g w
            ≡ (let (code, idx) = grp_get_ret_code 0 r.grp.step_objs in some (r, code, idx))
    unfolding grp_run run_spawned
    grp_run_of_loop ser g g' w w' p e = rw (e, grp_run) (rw p refl)

    -- the group of the tasks
    grp_run_try :
        (ts : List (Task W)) (w : W)
        → let ran = run_until_failure 0 ts w in
          (cur : ℕ) × (grp_run order no_error (try_grp (map ready_task ts) 0) w ≡ (
            let (code, idx) = code_of ran.failed in
            some (serial_run ran.objs cur ran.space, code, idx)))
    grp_run_try ts w =
        let ran = run_until_failure 0 ts w in
        let (cur, e) =
          grp_loop-run_until_failure [] 0 (suc (length (map ready_task ts))) ts w
            (rw (length-map ts ready_task) (omega arith)) in
        (
          cur,
          rw (← (grp_get_ret_code-run_until_failure 0 ts w)) (
              grp_run_of_loop no_error (try_grp (map ready_task ts) 0) (try_grp ran.objs cur) w
                ran.space refl e),
        )

    grp_loop_finally :
        (ser : SerErrInfo) (last : Task W) (w : W)
        → let (w', b) = task_runner ser last w ready in
          grp_loop ser 2
            (record { grp = finally_grp (ready_task last) 0; space = w; wg = []; wt = [] })
          ≡ some (record { grp = finally_grp (task_obj last b) 1; space = w'; wg = []; wt = [] })
    unfolding grp_loop
    grp_loop_finally ser last w = ground arith

    module _ (fuel : ℕ) (plan : PlanBase W) (w : W) where
      wk_loop_end :
          get_elem? plan.plan_grp plan.cur_grp_idx ≡ none
          → wk_loop order (suc fuel) plan w ≡ some (plan, w)
      unfolding wk_loop
      wk_loop_end e = rw (e, wk_loop)

      wk_loop_next :
          {g : SubGrp W} {r : GrpRun W} {code : ErrCode} {idx : Option ℕ}
          → get_elem? plan.plan_grp plan.cur_grp_idx ≡ some g
          → grp_run order plan.ser_error g w ≡ some (r, code, idx)
          → wk_loop order (suc fuel) plan w
            ≡ wk_loop order fuel (after_grp (put_back plan r) code idx) r.space
      unfolding wk_loop
      wk_loop_next e f = rw (e, f, wk_loop)

  -- `GotoErrorProc` goes to the last group from the first, and past the end from the last.
  goto_error_proc_lem :
      (ser : SerErrInfo) (objs : List (StepObj W)) (cur : ℕ) (f : StepObj W)
      → goto_error_proc (plan_at 0 ser (try_grp objs cur) (finally_grp f 0))
        ≡ plan_at 1 ser (try_grp objs cur) (finally_grp f 0)
  unfolding goto_error_proc goto_from
  goto_error_proc_lem ser objs cur f = refl

  goto_error_proc_last :
      (ser : SerErrInfo) (objs : List (StepObj W)) (cur n : ℕ) (f : StepObj W)
      → goto_error_proc (plan_at 1 ser (try_grp objs cur) (finally_grp f n))
        ≡ plan_at 2 ser (try_grp objs cur) (finally_grp f n)
  unfolding goto_error_proc goto_from
  goto_error_proc_last ser objs cur n f = refl

  record_err_info_lem :
      (objs : List (StepObj W)) (cur : ℕ) (f : SubGrp W) (i : ℕ) {t : Task W} {b : TaskBase}
      → get_elem? objs i ≡ some (task_obj t b)
      → record_err_info (plan_at 0 no_error (try_grp objs cur) f) (some i)
        ≡ plan_at 0 (recorded (some (i, b))) (try_grp objs cur) f
  unfolding record_err_info
  record_err_info_lem objs cur f i e = rw (e, record_err_info)

  -- After the tasks the plan stands at the last group, with the failure recorded.
  after_grp_try :
      (ts : List (Task W)) (w : W) (g : SubGrp W) (f : StepObj W) (cur : ℕ)
      → let ran = run_until_failure 0 ts w in
        let (code, idx) = code_of ran.failed in
        after_grp
          (put_back (plan_at 0 no_error g (finally_grp f 0)) (serial_run ran.objs cur ran.space))
          code
          idx
        ≡ plan_at 1 (recorded ran.failed) (try_grp ran.objs cur) (finally_grp f 0)
  unfolding after_grp
  after_grp_try ts w g f cur =
      let ran = run_until_failure 0 ts w in
      elim (Option-cases ran.failed) [
        | inl e ↦ rw e
        | inr ((i, b), e) ↦
            let (k, t, same, at_k) = get_elem?-run_until_failure 0 ts w {j = i} {b = b} e in
            let pos = failed_pos 0 ts w {j = i} {b = b} e in
            let here : i ≡ k = omega arith in
            rw (e, leb_of_failed b.result_code pos)
              (ap goto_error_proc (
                  record_err_info_lem ran.objs cur (finally_grp f 0) i {t = t} {b = b}
                    (rw here at_k))
                ∙ goto_error_proc_lem (recorded (some (i, b))) ran.objs cur f)
      ]

  -- After the last task the plan is at its end.
  after_grp_finally :
      (ser : SerErrInfo) (objs : List (StepObj W)) (cur : ℕ) (g : SubGrp W) (t : Task W)
      (b : TaskBase) (w : W)
      → let (code, idx) = grp_get_ret_code 0 (task_obj t b ∷ []) in
        let r : GrpRun W = record {
          grp = finally_grp (task_obj t b) 1;
          space = w;
          wg = [];
          wt = [];
        } in
        let plan = after_grp (put_back (plan_at 1 ser (try_grp objs cur) g) r) code idx in
        (get_elem? plan.plan_grp plan.cur_grp_idx ≡ none) × (plan.background ≡ [])
  unfolding after_grp grp_get_ret_code record_err_info
  after_grp_finally ser objs cur g t b w = elim (Bool-cases (ltb 0 b.result_code)) [
    | inl failed ↦
        rw
          (
            failed,
            leb_of_failed b.result_code failed,
            goto_error_proc_last _ objs cur 1 (task_obj t b),
          )
          (refl, refl)
    | inr passed ↦ rw passed (refl, refl)
  ]

  module _ (order : Schedule W) where
    -- From the tasks' group the loop comes to the last group, with the failure recorded.
    wk_loop_try :
        (fuel : ℕ) (ts : List (Task W)) (f : StepObj W) (w : W)
        → let ran = run_until_failure 0 ts w in
          (cur : ℕ) × (wk_loop order
              (suc fuel)
              (plan_at 0 no_error (try_grp (map ready_task ts) 0) (finally_grp f 0))
              w
            ≡ wk_loop order fuel
                (plan_at 1 (recorded ran.failed) (try_grp ran.objs cur) (finally_grp f 0))
                ran.space)
    wk_loop_try fuel ts f w =
        let (cur, e) = grp_run_try order ts w in
        let g = try_grp (map ready_task ts) 0 in
        let ran = run_until_failure 0 ts w in
        (
          cur,
          wk_loop_next order fuel (plan_at 0 no_error g (finally_grp f 0)) w refl e
              ∙ ap (λ p. wk_loop order fuel p ran.space) (after_grp_try ts w g f cur),
        )

    wk_loop_finally :
        (ser : SerErrInfo) (objs : List (StepObj W)) (cur : ℕ) (last : Task W) (w : W)
        → (plan : PlanBase W) × (plan.background ≡ [])
          × (wk_loop order 2 (plan_at 1 ser (try_grp objs cur) (finally_grp (ready_task last) 0)) w
              ≡ some (plan, (task_runner ser last w ready).0))
    wk_loop_finally ser objs cur last w =
        let plan = plan_at 1 ser (try_grp objs cur) (finally_grp (ready_task last) 0) in
        let (w', b) = task_runner ser last w ready in
        let r : GrpRun W = record {
          grp = finally_grp (task_obj last b) 1;
          space = w';
          wg = [];
          wt = [];
        } in
        let (code, idx) = grp_get_ret_code 0 (task_obj last b ∷ []) in
        let (past, idle) =
          after_grp_finally ser objs cur (finally_grp (ready_task last) 0) last b w' in
        (
          after_grp (put_back plan r) code idx,
          idle,
          wk_loop_next order 1 plan w refl (
                grp_run_of_loop order ser (finally_grp (ready_task last) 0)
                  (finally_grp (task_obj last b) 1) w w' refl (grp_loop_finally order ser last w))
              ∙ wk_loop_end order 0 (after_grp (put_back plan r) code idx) w' past,
        )

    -- Running the plan that a handler builds does what `handle` says: the tasks run in order up to
    -- the first that reports an error, no later one runs, and the last task then runs exactly once,
    -- reading that error or none. Nothing depends on how goroutines are scheduled.
    pub wk_run-handler_plan :
        (ts : List (Task W)) (last : Task W) (w : W)
        → Option.map (λ r. r.1) (wk_run order (handler_plan ts last) w) ≡ some (handle ts last w)
    unfolding wk_run wait_background handle
    wk_run-handler_plan ts last w =
        let ran = run_until_failure 0 ts w in
        let (cur, e) = wk_loop_try 2 ts (ready_task last) w in
        let (plan, idle, f) = wk_loop_finally (recorded ran.failed) ran.objs cur last ran.space in
        rw (handler_plan_lem ts last, e ∙ f, wk_run) (rw (idle, wait_background))
