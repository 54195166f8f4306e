-- ===== src/MepServer/Sync/Status.antt =====
-- mepserver/mm5/task/taskstatus_db.go, job_db.go and appd_config_db.go: the records of a task in etcd.
use mep.Prelude.{
  ℕ, suc, suc_ℤ, pred_ℤ, String, len, Bool, true, false, Option, none, some, List, [], ◌∷◌, ◌==◌,
  eqb, set, if◌then◌else◌,
}
use mep.MepServer.Backend.{get_record, put_record, delete_record}
use mep.MepServer.Sync.{
  Config, RuleType, RuleStatus, TaskStatus, World, Env, TaskInfo, statuses, with_statuses,
  wait_config_db_write, config_path, jobs_path, task_status_path,
}

-- `searchRule`: the first status with the identifier, and its index
unfoldable pub search_rule : String → ℕ → List RuleStatus → Option (ℕ × RuleStatus)
search_rule id i [] = none
search_rule id i (rs ∷ rss) =
    let rest = search_rule id (suc i) rss in if rs.id == id then some (i, rs) else rest

-- `setFailureReason`: only the first reason is kept
unfoldable pub with_reason : String → TaskStatus → TaskStatus
with_reason reason status =
    if eqb (len status.details) 0 then record status { details = reason } else status

abbrev pub set_failure_reason : {K V : Type 0} → String → World K V → World K V
set_failure_reason reason w = record w { status = with_reason reason w.status }

-- `s.status.XStatusLst[i].State = state`
abbrev pub set_state : RuleType → ℕ → RuleStatus → ℕ → TaskStatus → TaskStatus
set_state k i rs state t = with_statuses k (set (statuses k t) i (record rs { state = state })) t

-- the progress, moved if a rule has come to its last state
abbrev pub count_up : ℕ → TaskStatus → TaskStatus
count_up state t =
    if eqb state wait_config_db_write then record t { progress = suc_ℤ t.progress } else t

abbrev pub count_down : ℕ → TaskStatus → TaskStatus
count_down state t =
    if eqb state wait_config_db_write then record t { progress = pred_ℤ t.progress } else t

module _ {B K V : Type 0} (env : Env B K V) (t : TaskInfo) where
  abbrev parsed : {A : Type 0} → (B → Option A) → Option B × ℕ → Option A
  parsed unmarshal (entry, code) = elim (eqb code 0) [
    | false ↦ none
    | true ↦ elim entry [ none ↦ none | some bytes ↦ unmarshal bytes ]
  ]

  -- `newStatusDB`, `newAppDJobDB` and `newAppDConfigDB`; `none` is nil
  unfoldable pub new_status_db : K → Option TaskStatus
  new_status_db s =
      parsed env.unmarshal_status
        (get_record env.registry (task_status_path t.app_instance_id t.task_id) s)

  unfoldable pub new_appd_job_db : K → Option Config
  new_appd_job_db s =
      parsed env.unmarshal_config (get_record env.registry (jobs_path t.app_instance_id) s)

  unfoldable pub new_appd_config_db : K → Option Config
  new_appd_config_db s =
      parsed env.unmarshal_config (get_record env.registry (config_path t.app_instance_id) s)

  -- `deleteEntry`
  unfoldable pub delete_entry : K → ℕ × K
  delete_entry s = delete_record env.registry (jobs_path t.app_instance_id) s

  -- `pushDB`: whether it succeeded
  unfoldable pub push_status : TaskStatus → K → Bool × K
  push_status status s = elim (env.marshal_status status) [
    | none ↦ (false, s)
    | some bytes ↦
        let (code, s') =
          put_record env.registry (task_status_path t.app_instance_id t.task_id) bytes s in
        (eqb code 0, s')
  ]

  abbrev pub push_db : World K V → Bool × World K V
  push_db w = let (ok, s) = push_status w.status w.store in (ok, record w { store = s })

  -- `setStateAndProgress` behind the search
  unfoldable pub set_found : RuleType → ℕ → RuleStatus → ℕ → World K V → Bool × World K V
  set_found k i rs state w =
      let changed = record w { status = count_up state (set_state k i rs state w.status) } in
      let (ok, w') = push_db changed in
      let restored = record w' {
        status = count_down state (set_state k i rs rs.state w'.status);
      } in
      if ok then (true, w') else (false, restored)

  unfoldable pub set_state_and_progress : RuleType → String → ℕ → World K V → Bool × World K V
  set_state_and_progress k id state w = elim (search_rule id 0 (statuses k w.status)) [
    | none ↦ (false, w)
    | some (i, rs) ↦ set_found k i rs state w
  ]
