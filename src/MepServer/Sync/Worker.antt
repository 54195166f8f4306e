-- ===== src/MepServer/Sync/Worker.antt =====
-- mepserver/mm5/task/sync.go: a task from its start to its end.
use mep.Prelude.{
  ℕ, String, Bool, true, false, ◌||◌, not, negsuc, Option, none, some, [], ◌∷◌, ◌==◌, eqb,
  if◌then◌else◌, all,
}
use mep.MepServer.Backend.{put_record, delete_record, delete_paths}
use mep.MepServer.Sync.{
  Config, RuleType, rule_type_dns, rule_type_traffic, apply_func, revert_func, TaskStatus, statuses,
  Outcome, done, failed, panicked, World, Env, TaskInfo, wait_config_db_write, config_path,
  jobs_path,
}
use mep.MepServer.Sync.Status.{
  set_failure_reason, with_reason, push_status, new_status_db, new_appd_job_db, new_appd_config_db,
  delete_entry, push_db,
}
use mep.MepServer.Sync.Rules.{then_on, handle_rules}

abbrev pub are_written : RuleType → TaskStatus → Bool
are_written k st = all (λ rs. eqb rs.state wait_config_db_write) (statuses k st)

-- `cleanProcessingCache` of a task with an instance identifier: whether it succeeded
unfoldable pub clean_processing_cache : {B K V : Type 0} → Env B K V → String → K → Bool × K
clean_processing_cache env app s =
    let (code, s') = delete_paths env.registry (jobs_path app ∷ []) false s in (eqb code 0, s')

module _ {B K V : Type 0} (env : Env B K V) (t : TaskInfo) where
  -- the write of `handleConfigDBWriteOnSuccess` by the operation of the job
  abbrev pub write_config : String → B → K → ℕ × K
  write_config operation bytes s =
      if operation == "POST" || operation == "PUT"
      then put_record env.registry (config_path t.app_instance_id) bytes s
      else if operation == "DELETE"
      then delete_record env.registry (config_path t.app_instance_id) s
      else (0, s)

  abbrev pub without_operation : Config → Config
  without_operation c = record c { operation = "" }

  -- `handleConfigDBWriteOnSuccess` behind its checks. Where the write fails it returns the error of
  -- `json.Marshal`, which is nil.
  unfoldable pub write_on_success : World K V → Outcome × World K V
  write_on_success w =
      let cleaned = record w { job = without_operation w.job } in
      elim (env.marshal_config cleaned.job) [
        | none ↦ (failed, cleaned)
        | some bytes ↦
            let (code, s) = write_config w.job.operation bytes w.store in
            let written = record cleaned { store = s } in
            if eqb code 0
            then (done, written)
            else (done, set_failure_reason "Internal error(failed to write appdconfig db)." written)
      ]

  unfoldable pub handle_config_db_write_on_success : World K V → Outcome × World K V
  handle_config_db_write_on_success w =
      if not (are_written rule_type_dns w.status)
      then (failed, set_failure_reason "Internal error(invalid dns rule state)." w)
      else if not (are_written rule_type_traffic w.status)
      then (failed, set_failure_reason "Internal error(invalid traffic rule state)." w)
      else write_on_success w

  -- `handleErrorOnProcessing`: the last steps, and all
  unfoldable pub record_failure : World K V → Outcome × World K V
  record_failure w =
      let (ok, w') =
        push_db env t (record w { status = record w.status { progress = negsuc 0 } }) in
      let (clean, s) = clean_processing_cache env t.app_instance_id w'.store in
      if ok then ((if clean then done else failed), record w' { store = s }) else (failed, w')

  unfoldable pub handle_error_on_processing : World K V → Outcome × World K V
  handle_error_on_processing w =
      then_on (handle_rules env t rule_type_dns revert_func w)
        λ w1. then_on (handle_rules env t rule_type_traffic revert_func w1) record_failure

  -- an error of `ProcessDataPlaneSync`: what its handling returns is only logged
  abbrev pub or_undo :
      String → Outcome × World K V → (World K V → Outcome × World K V) → Outcome × World K V
  or_undo reason (done, w) next = next w
  or_undo reason (failed, w) next = handle_error_on_processing (set_failure_reason reason w)
  or_undo reason (panicked, w) next = (panicked, w)

  abbrev pub clean : World K V → Outcome × World K V
  clean w = (done, record w { store = (clean_processing_cache env t.app_instance_id w.store).1 })

  -- `ProcessDataPlaneSync` from the first rules on
  unfoldable pub run_task : World K V → Outcome × World K V
  run_task w =
      or_undo "Internal error(failed to configure dns rules)."
        (handle_rules env t rule_type_dns apply_func w)
        λ w1.
          or_undo "Internal error(failed to configure traffic rules)."
            (handle_rules env t rule_type_traffic apply_func w1)
            λ w2.
              or_undo "Internal error(failed to write appdconfig db)."
                (handle_config_db_write_on_success w2) clean

  -- `newTask`; `none` is nil
  unfoldable pub new_task : K → V → Option (World K V) × K
  new_task s v = elim (new_appd_job_db env t s) [
    | none ↦ (none, s)
    | some job ↦ elim (new_status_db env t s) [
      | none ↦ (none, (delete_entry env t s).1)
      | some status ↦ (
        some (record {
          job = job;
          config = new_appd_config_db env t s;
          status = status;
          store = s;
          plane = v;
        }),
        s,
      )
    ]
  ]

  -- `ProcessDataPlaneSync` where there is no task
  unfoldable pub no_task : K → K
  no_task s =
      let cleaned = (delete_paths env.registry (jobs_path t.app_instance_id ∷ []) true s).1 in
      elim (new_status_db env t cleaned) [
        | none ↦ cleaned
        | some status ↦
            let failure =
              with_reason "Unexpected error in processing."
                (record status { progress = negsuc 0 }) in
            (push_status env t failure cleaned).1
      ]
