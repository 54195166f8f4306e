-- ===== src/Workspace/TryFinally.antt =====
-- runner.go: what a plan of the form `Try(tasks…); Finally(last)` does, against a description with
-- no groups, indices or jumps. Every handler of the server builds its plan in this form.
use mep.Prelude.{
  ℕ, zero, suc, ◌+◌, ◌<◌, ◌≡◌, refl, ◌∙◌, inl, inr, Bool, true, false, Option, none, some, List, [],
  ◌∷◌, ◌++◌, map, arith, ltb, leb, if◌then◌else◌, length, get_elem?, get_elem?-append, set-append,
  snoc-append, length-append, Bool-cases,
}
use mep.Workspace.Plan.{ErrCode, SerErrInfo, no_error, TaskBase, Task, StepObj, task_obj, go_serial}
use mep.Workspace.Runner.{GrpRun, task_runner, grp_one_step, grp_loop, grp_get_ret_code}

-- the base of a task that has not run, before and after it is tied to its plan
abbrev pub fresh : TaskBase
fresh = record { ser_err = false; err_msg = ""; result_code = 0 }

abbrev pub ready : TaskBase
ready = record fresh { ser_err = true }

abbrev pub fresh_task : {W : Type 0} → Task W → StepObj W
fresh_task t = task_obj t fresh

abbrev pub ready_task : {W : Type 0} → Task W → StepObj W
ready_task t = task_obj t ready

-- The tasks in order, up to the first that reports an error: the steps as they are then, the
-- workspace, and the index and the base of the failure.
pub record Ran (W : Type 0) : Type 0 where
  pub objs : List (StepObj W)
  pub space : W
  pub failed : Option (ℕ × TaskBase)

-- the error record that the failure of a task in the first group leaves
abbrev pub recorded : Option (ℕ × TaskBase) → SerErrInfo
recorded none = no_error
recorded (some (i, b)) = record {
  err_code = b.result_code;
  message = b.err_msg;
  grp_idx = 0;
  task_idx = i;
}

module _ (n : ℕ) where
  pub leb_of_failed : ltb 0 n ≡ true → leb n 0 ≡ false
  leb_of_failed h = ground arith

  pub leb_of_passed : ltb 0 n ≡ false → leb n 0 ≡ true
  leb_of_passed h = ground arith

-- what `grpGetRetCode` returns after the failure, or none
abbrev pub code_of : Option (ℕ × TaskBase) → ErrCode × Option ℕ
code_of none = (0, none)
code_of (some (i, b)) = (b.result_code, some i)

module _ {W : Type 0} where
  unfoldable pub run_until_failure : ℕ → List (Task W) → W → Ran W
  unfolding task_runner
  run_until_failure i [] w = record { objs = []; space = w; failed = none }
  run_until_failure i (t ∷ ts) w =
      let (w', b) = task_runner no_error t w ready in
      let later = run_until_failure (suc i) ts w' in
      if ltb 0 b.result_code
      then record { objs = task_obj t b ∷ map ready_task ts; space = w'; failed = some (i, b) }
      else record later { objs = task_obj t b ∷ later.objs }

  abbrev pub serial_run : List (StepObj W) → ℕ → W → GrpRun W
  serial_run objs cur w = record {
    grp = record { policy = go_serial; cur_step_idx = cur; step_names = []; step_objs = objs };
    space = w;
    wg = [];
    wt = [];
  }

  module _ (pre : List (StepObj W)) (w : W) where
    one_step_end :
        grp_one_step no_error (serial_run (pre ++ []) (length pre) w)
        ≡ (serial_run (pre ++ []) (length pre) w, false)
    unfolding grp_one_step
    one_step_end = rw (get_elem?-append pre [], grp_one_step)

    one_step_task :
        (t : Task W) (rest : List (StepObj W)) (m : Bool)
        → leb (task_runner no_error t w ready).1.result_code 0 ≡ m
        → let (w', b) = task_runner no_error t w ready in
          grp_one_step no_error (serial_run (pre ++ task_obj t ready ∷ rest) (length pre) w)
          ≡ (serial_run (pre ++ task_obj t b ∷ rest) (length pre + 1) w', m)
    unfolding grp_one_step task_runner
    one_step_task t rest m e =
        rw (← e, get_elem?-append pre (task_obj t ready ∷ rest), grp_one_step)
          (rw (set-append pre rest (task_obj t ready) _))

  module _ (fuel : ℕ) (r r' : GrpRun W) where
    grp_loop_stop : grp_one_step no_error r ≡ (r', false) → grp_loop no_error (suc fuel) r ≡ some r'
    unfolding grp_loop
    grp_loop_stop e = ground arith

    grp_loop_next :
        grp_one_step no_error r ≡ (r', true)
        → grp_loop no_error (suc fuel) r ≡ grp_loop no_error fuel r'
    unfolding grp_loop
    grp_loop_next e = ground arith

  module _ (fuel : ℕ) (pre : List (StepObj W)) (w : W) where
    loop_end :
        grp_loop no_error (suc fuel) (serial_run (pre ++ []) (length pre) w)
        ≡ some (serial_run (pre ++ []) (length pre) w)
    loop_end =
        let r = serial_run (pre ++ []) (length pre) w in grp_loop_stop fuel r r (one_step_end pre w)

    module _ (t : Task W) (rest : List (StepObj W)) where
      abbrev start : GrpRun W
      start = serial_run (pre ++ task_obj t ready ∷ rest) (length pre) w

      abbrev after : GrpRun W
      after =
          let (w', b) = task_runner no_error t w ready in
          serial_run (pre ++ task_obj t b ∷ rest) (length pre + 1) w'

      loop_failed :
          ltb 0 (task_runner no_error t w ready).1.result_code ≡ true
          → grp_loop no_error (suc fuel) start ≡ some after
      loop_failed h =
          grp_loop_stop fuel start after (one_step_task pre w t rest false (leb_of_failed _ h))

      loop_passed :
          ltb 0 (task_runner no_error t w ready).1.result_code ≡ false
          → grp_loop no_error (suc fuel) start ≡ (
              let (w', b) = task_runner no_error t w ready in
              grp_loop no_error fuel (
                serial_run
                  ((pre ++ task_obj t b ∷ []) ++ rest)
                  (length (pre ++ task_obj t b ∷ []))
                  w'))
      loop_passed h =
          rw (snoc-append pre _ rest, length-append pre)
            (grp_loop_next fuel start after (one_step_task pre w t rest true (leb_of_passed _ h)))

  -- The loop of `grpRun` over the steps behind `pre` leaves what the description says.
  pub grp_loop-run_until_failure :
      (pre : List (StepObj W)) (i fuel : ℕ) (ts : List (Task W)) (w : W)
      → length ts < fuel
      → (cur : ℕ) × (grp_loop no_error fuel (serial_run (pre ++ map ready_task ts) (length pre) w)
          ≡ some (
              serial_run
                (pre ++ (run_until_failure i ts w).objs)
                cur
                (run_until_failure i ts w).space))
  unfolding run_until_failure
  grp_loop-run_until_failure pre i zero ts w h = absurd (omega arith)
  grp_loop-run_until_failure pre i (suc fuel) [] w h = (length pre, loop_end fuel pre w)
  grp_loop-run_until_failure pre i (suc fuel) (t ∷ ts) w h =
      let (w', b) = task_runner no_error t w ready in
      elim (Bool-cases (ltb 0 b.result_code)) [
        | inl failed ↦ (
          length pre + 1,
          rw (failed, run_until_failure) (loop_failed fuel pre w t (map ready_task ts) failed),
        )
        | inr passed ↦
            let (cur, later) =
              grp_loop-run_until_failure (pre ++ task_obj t b ∷ []) (suc i) fuel ts w'
                (omega arith) in
            (
              cur,
              rw (passed, run_until_failure)
                  (loop_passed fuel pre w t (map ready_task ts) passed
                    ∙ (rw (snoc-append pre (task_obj t b) (run_until_failure (suc i) ts w').objs) at
                        later)),
            )
      ]

  pub grp_get_ret_code-run_until_failure :
      (i : ℕ) (ts : List (Task W)) (w : W)
      → grp_get_ret_code i (run_until_failure i ts w).objs
        ≡ code_of (run_until_failure i ts w).failed
  unfolding grp_get_ret_code run_until_failure
  grp_get_ret_code-run_until_failure i [] w = refl
  grp_get_ret_code-run_until_failure i (t ∷ ts) w =
      let (w', b) = task_runner no_error t w ready in
      ground (arith, grp_get_ret_code-run_until_failure (suc i) ts w')

  -- The step at the failure's index is the task that failed, as it was left.
  pub get_elem?-run_until_failure :
      (i : ℕ) (ts : List (Task W)) (w : W) {j : ℕ} {b : TaskBase}
      → (run_until_failure i ts w).failed ≡ some (j, b)
      → (k : ℕ) × (t : Task W) × (j ≡ i + k)
        × (get_elem? (run_until_failure i ts w).objs k ≡ some (task_obj t b))
  unfolding run_until_failure
  get_elem?-run_until_failure i [] w h = cc
  get_elem?-run_until_failure i (t ∷ ts) w {j} {b} h =
      let (w', b') = task_runner no_error t w ready in
      elim (Bool-cases (ltb 0 b'.result_code)) [
        | inl failed ↦ (0, t, ground arith, ground arith)
        | inr passed ↦
            let (k, u, idx, at_k) =
              get_elem?-run_until_failure (suc i) ts w' {j = j} {b = b} (ground arith) in
            (suc k, u, omega arith, rw (passed, run_until_failure) at_k)
      ]

  pub failed_pos :
      (i : ℕ) (ts : List (Task W)) (w : W) {j : ℕ} {b : TaskBase}
      → (run_until_failure i ts w).failed ≡ some (j, b)
      → ltb 0 b.result_code ≡ true
  unfolding run_until_failure
  failed_pos i [] w h = cc
  failed_pos i (t ∷ ts) w {j} {b} h =
      let (w', b') = task_runner no_error t w ready in
      elim (Bool-cases (ltb 0 b'.result_code)) [
        | inl failed ↦ ground arith
        | inr passed ↦ failed_pos (suc i) ts w' {j = j} {b = b} (ground arith)
      ]
