-- ===== src/Workspace/Plan.antt =====
-- workspace_base.go and task_base.go: plans and how they are built, and the error bookkeeping.
-- `W` is the workspace that the tasks share. A task's own tagged fields count as a part of it.
use mep.Prelude.{
  ◌≢◌, leb, ℕ, zero, suc, ◌+◌, String, Bool, true, Option, none, some, List, [], ◌∷◌, ◌++◌, ltb,
  ◌==◌, if◌then◌else◌, length, get_elem?, set,
}

-- `ErrCode`: `TaskOK` is 0 and every code of a failure is positive.
abbrev pub ErrCode : Type 0
ErrCode = ℕ

abbrev pub task_ok : ErrCode
task_ok = 0

-- the name of the step that a failure jumps to
abbrev pub finally_name : String
finally_name = "finally"

pub record SerErrInfo : Type 0 where
  pub err_code : ErrCode
  pub message : String
  pub grp_idx : ℕ
  pub task_idx : ℕ

-- `ser_err` says whether `SetSerErrInfo` has tied the task to its plan's `SerErrInfo`.
pub record TaskBase : Type 0 where
  pub ser_err : Bool
  pub err_msg : String
  pub result_code : ErrCode

-- `SetFirstErrorCode`: the first error that a task reports stays.
unfoldable pub set_first_error_code : TaskBase → ErrCode → String → TaskBase
set_first_error_code t code msg =
    if ltb task_ok t.result_code then t else record t { result_code = code; err_msg = msg }

-- the error record, if the task is tied to it
abbrev pub tied : SerErrInfo → TaskBase → Option SerErrInfo
tied ser b = if b.ser_err then some ser else none

-- `TaskFinish`
abbrev pub task_finish : ℕ
task_finish = 0

-- The loop of `taskRunner`, on fuel: `OnRequest`, whose code is the last result, is called until the code
-- is at most `TaskFinish`; before each call the fields are loaded from the workspace.
unfoldable pub task_loop :
    {W : Type 0}
    → (W → W)
    → (Option SerErrInfo → W → TaskBase → W × TaskBase × ℕ)
    → (W → W)
    → SerErrInfo
    → ℕ
    → W
    → TaskBase
    → Option (W × TaskBase)
task_loop load_in on_request load_out ser zero w b = none
task_loop load_in on_request load_out ser (suc rounds) w b =
    let (w', b', code) = on_request (tied ser b) (load_in w) b in
    let again = task_loop load_in on_request load_out ser rounds w' b' in
    if leb code task_finish then some (load_out w', b') else again

-- What a task does. `on_request` may read the error record it is tied to, and returns the workspace
-- its own base and a `TaskCode`. `load_in` and `load_out` are the two directions of `LoadObjByInd`.
-- Its loop ends, after at most `rounds` rounds.
pub record Task (W : Type 0) : Type 0 where
  pub load_in : W → W
  pub on_request : Option SerErrInfo → W → TaskBase → W × TaskBase × ℕ
  pub load_out : W → W
  pub rounds : ℕ
  pub ends :
      (ser : SerErrInfo) (w : W) (b : TaskBase)
      → task_loop load_in on_request load_out ser rounds w b ≢ none

-- an `interface{}`: nil, a value that is no `TaskBaseIf`, or a task with its base
pub data StepObj (W : Type 0) : Type 0 where
  nil_obj : StepObj W
  other_obj : StepObj W
  task_obj : Task W → TaskBase → StepObj W

pub data GoPolicy : Type 0 where
  go_parallel go_background go_serial : GoPolicy

pub record SubGrp (W : Type 0) : Type 0 where
  pub policy : GoPolicy
  pub cur_step_idx : ℕ
  pub step_names : List String
  pub step_objs : List (StepObj W)

-- `background` holds the group and the step of each goroutine that `WtPlan` waits for.
pub record PlanBase (W : Type 0) : Type 0 where
  pub ser_error : SerErrInfo
  pub err_step : String
  pub plan_grp : List (SubGrp W)
  pub cur_grp_idx : ℕ
  pub background : List (ℕ × ℕ)

abbrev pub no_error : SerErrInfo
no_error = record { err_code = 0; message = ""; grp_idx = 0; task_idx = 0 }

-- the first index at which a step has the name
abbrev pub find_name : String → ℕ → List String → Option ℕ
find_name name i [] = none
find_name name i (s ∷ ss) = if s == name then some i else find_name name (suc i) ss

abbrev max_idx : ℕ → ℕ → ℕ
max_idx a b = if ltb a b then b else a

module _ {W : Type 0} where
  -- a space after `Init`
  unfoldable pub init : PlanBase W
  init = record {
    ser_error = no_error;
    err_step = "";
    plan_grp = [];
    cur_grp_idx = 0;
    background = [];
  }

  -- `install`: the objects up to the first nil
  unfoldable pub install : List (StepObj W) → List (StepObj W)
  install [] = []
  install (nil_obj ∷ task) = []
  install (other_obj ∷ task) = other_obj ∷ install task
  install (task_obj t b ∷ task) = task_obj t b ∷ install task

  -- `loadData`: every task up to the first nil is tied to the plan's error record
  unfoldable pub load_data : List (StepObj W) → List (StepObj W)
  load_data [] = []
  load_data (nil_obj ∷ task) = nil_obj ∷ task
  load_data (other_obj ∷ task) = other_obj ∷ load_data task
  load_data (task_obj t b ∷ task) = task_obj t (record b { ser_err = true }) ∷ load_data task

  -- a new group at the end of the plan, as `loadTask`, `RunSerialName` and `Finally` make it
  unfoldable pub append_grp : GoPolicy → List String → List (StepObj W) → PlanBase W → PlanBase W
  unfolding install load_data
  append_grp policy names task b =
      let grp : SubGrp W = record {
        policy = policy;
        cur_step_idx = 0;
        step_names = names;
        step_objs = install (load_data task);
      } in
      record b { plan_grp = b.plan_grp ++ grp ∷ [] }

  unfoldable pub load_task : GoPolicy → List (StepObj W) → PlanBase W → PlanBase W
  unfolding append_grp
  load_task policy task b = append_grp policy [] task b

  unfoldable pub run_background : List (StepObj W) → PlanBase W → PlanBase W
  unfolding load_task
  run_background task b = load_task go_background task b

  unfoldable pub run_parallel : List (StepObj W) → PlanBase W → PlanBase W
  unfolding load_task
  run_parallel task b = load_task go_parallel task b

  unfoldable pub run_serial : List (StepObj W) → PlanBase W → PlanBase W
  unfolding load_task
  run_serial task b = load_task go_serial task b

  unfoldable pub run_serial_name : StepObj W → String → PlanBase W → PlanBase W
  unfolding append_grp
  run_serial_name task name b = append_grp go_serial (name ∷ []) (task ∷ []) b

  unfoldable pub set_error_step : String → PlanBase W → PlanBase W
  set_error_step name b = record b { err_step = name }

  unfoldable pub try : List (StepObj W) → PlanBase W → PlanBase W
  unfolding load_task set_error_step
  try task b = load_task go_serial task (set_error_step finally_name b)

  unfoldable pub finally : StepObj W → PlanBase W → PlanBase W
  unfolding append_grp
  finally task b = append_grp go_serial (finally_name ∷ []) (task ∷ []) b

  abbrev jump : PlanBase W → ℕ → SubGrp W → ℕ → PlanBase W
  jump plan n grp idx = if ltb n plan.cur_grp_idx then plan else record plan {
    cur_grp_idx = n;
    plan_grp = set plan.plan_grp n (record grp { cur_step_idx = max_idx grp.cur_step_idx idx });
  }

  -- `GotoErrorStep`: `some` is the plan after the step was found, `none` that it is not in the group.
  unfoldable pub goto_error_step : PlanBase W → ℕ → Option (PlanBase W)
  goto_error_step plan n = elim (get_elem? plan.plan_grp n) [
    | none ↦ none
    | some grp ↦ elim (find_name plan.err_step 0 grp.step_names) [
      | none ↦ none
      | some idx ↦ some (jump plan n grp idx)
    ]
  ]

  -- the loop of `GotoErrorProc` over the groups `n`, `n + 1`, …, with `k` left
  unfoldable pub goto_from : ℕ → ℕ → PlanBase W → PlanBase W
  unfolding goto_error_step
  goto_from zero n plan = plan
  goto_from (suc k) n plan = elim (goto_error_step plan n) [
    | none ↦ goto_from k (suc n) plan
    | some plan' ↦ plan'
  ]

  unfoldable pub goto_error_proc : PlanBase W → PlanBase W
  goto_error_proc plan =
      goto_from (length plan.plan_grp) 0 (record plan { cur_grp_idx = plan.cur_grp_idx + 1 })

  -- the end of `RecordErrInfo`, at the step object found
  abbrev record_step : PlanBase W → ℕ → StepObj W → PlanBase W
  record_step plan i (task_obj t b) = record plan {
    ser_error = record {
      err_code = b.result_code;
      message = b.err_msg;
      grp_idx = plan.cur_grp_idx;
      task_idx = i;
    };
  }
  record_step plan i _ = record plan {
    ser_error = record plan.ser_error { grp_idx = plan.cur_grp_idx; task_idx = i };
  }

  -- `RecordErrInfo`; the step index -1 is `none`
  unfoldable pub record_err_info : PlanBase W → Option ℕ → PlanBase W
  record_err_info plan none = plan
  record_err_info plan (some i) = elim (get_elem? plan.plan_grp plan.cur_grp_idx) [
    | none ↦ plan
    | some grp ↦ elim (get_elem? grp.step_objs i) [
      | none ↦ plan
      | some obj ↦ record_step plan i obj
    ]
  ]
