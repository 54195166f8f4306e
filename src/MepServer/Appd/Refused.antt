-- ===== src/MepServer/Appd/Refused.antt =====
-- mepserver/common/appd/appd.go: a request that is refused leaves no job.
use mep.Prelude.{
  ℕ, String, ◌≡◌, ◌≢◌, ◌⊎◌, refl, ap, sym, ◌∙◌, subst⁻¹, inl, inr, Bool, true, false, not, ◌&&◌,
  none, some, ◌++◌, ◌==◌, eqb, if◌then◌else◌, starts_with, Bool-cases, Option-cases, List-cases,
}
use mep.MepServer.Backend.{get_record, put_record, delete_record, delete_paths}
use mep.MepServer.Backend.Laws.{IsRegistry, starts_with_refl}
use mep.MepServer.Sync.{
  Config, RuleType, TaskStatus, Env, config_path, jobs_path, tasks_path, task_status_path,
}
use mep.MepServer.Appd.{
  Subscriptions, app_termination_is_subscribed, is_app_instance_already_created,
}
use mep.MepServer.Appd.Classify.{RuleMap, build_task_status}
use mep.MepServer.Appd.Stage.{
  Staged, staged, crashed, unstage, write_status_to_store, add_jobs_to_db,
  is_dns_domain_name_exists, stage_status, stage_job, stage_stored, stage_new_task, empty_config,
  stage_app_termination_progress,
}

module _ {B K V : Type 0} (env : Env B K V) (subs : Subscriptions B)
    (order : (k : RuleType) → RuleMap k → RuleMap k) (of_text : String → B)
    (law : IsRegistry env.registry)
    (deletes : (p : String) (s : K) → (env.registry.delete p s).0 ≡ true) where
  -- the job of the application is not in the store
  abbrev NoJob : String → K → Type 0
  NoJob app s = law.kv s (jobs_path app) ≡ none

  -- a deletion keeps an absent key absent
  delete-NoJob : (app p : String) (s : K) → NoJob app s → NoJob app (env.registry.delete p s).1
  delete-NoJob app p s missing =
      law.delete_ok p s (deletes p s) (jobs_path app)
      ∙ elim (Bool-cases (starts_with (jobs_path app) p)) [
        | inl gone ↦ rw gone refl
        | inr kept ↦ rw kept missing
      ]

  delete_job-NoJob : (app : String) (s : K) → NoJob app (env.registry.delete (jobs_path app) s).1
  delete_job-NoJob app s =
      law.delete_ok (jobs_path app) s (deletes (jobs_path app) s) (jobs_path app)
      ∙ (rw (starts_with_refl (jobs_path app)) refl)

  unstage-NoJob :
      (app task : String) (s : K) → NoJob app (unstage env subs order of_text app task s)
  unfolding unstage delete_paths delete_record
  unstage-NoJob app task s =
      let first = (env.registry.delete (jobs_path app) s).1 in
      rw (deletes (jobs_path app) s, unstage)
        (rw (deletes (tasks_path task) first, unstage)
          (delete-NoJob app (tasks_path task) first (delete_job-NoJob app s)))

  -- a refusal that leaves no job
  abbrev pub LeavesNoJob : String → Staged × K → Type 0
  LeavesNoJob app r =
      (code : ℕ) (msg name : String) → r.0 ≡ staged code msg name → code ≢ 0 → NoJob app r.1

  abbrev code_of : Staged → ℕ
  code_of (staged code _ _) = code
  code_of crashed = 0

  accepted : (app : String) (r : Staged × K) → code_of r.0 ≡ 0 → LeavesNoJob app r
  accepted app r zero code msg name e refused = absurd (refused (sym (ap code_of e) ∙ zero))

  refused : (app : String) (r : Staged × K) → NoJob app r.1 → LeavesNoJob app r
  refused app r missing code msg name e _ = missing

  write_status_to_store-NoJob :
      (status : TaskStatus) (app task : String) (s : K)
      → ((write_status_to_store env subs order of_text status app task s).0.0 ≡ 0)
        ⊎ NoJob app (write_status_to_store env subs order of_text status app task s).1
  unfolding write_status_to_store
  write_status_to_store-NoJob status app task s = elim (Option-cases (env.marshal_status status)) [
    | inl bad ↦ inr (rw (bad, write_status_to_store) (unstage-NoJob app task s))
    | inr (bytes, fine) ↦
        elim (Bool-cases (eqb (put_record env.registry (task_status_path app task) bytes s).0 0)) [
          | inl ok ↦ inl (rw (fine, write_status_to_store) (rw ok refl))
          | inr failed ↦
              inr (rw (fine, write_status_to_store) (rw failed (unstage-NoJob app task _)))
        ]
  ]

  add_jobs_to_db-NoJob :
      (app task : String) (bytes : B) (s : K)
      → NoJob app s
      → ((add_jobs_to_db env subs order of_text app task bytes s).0 ≡ 0)
        ⊎ NoJob app (add_jobs_to_db env subs order of_text app task bytes s).1
  unfolding add_jobs_to_db put_record delete_paths delete_record
  add_jobs_to_db-NoJob app task bytes s missing =
      let s1 = (env.registry.put (jobs_path app) bytes s).1 in
      let s2 = (env.registry.put (tasks_path task) (of_text app) s1).1 in
      elim (Bool-cases (env.registry.put (jobs_path app) bytes s).0) [
        | inr bad ↦ inr (
            rw (bad, add_jobs_to_db)
              (law.put_err (jobs_path app) bytes s bad (jobs_path app) ∙ missing))
        | inl ok ↦ elim (Bool-cases (env.registry.put (tasks_path task) (of_text app) s1).0) [
          | inl fine ↦ inl (rw (ok, add_jobs_to_db) (rw (fine, add_jobs_to_db) refl))
          | inr bad ↦ inr (
              rw (ok, add_jobs_to_db)
                (rw (bad, add_jobs_to_db)
                  (rw (deletes (jobs_path app) s2, delete_paths) (delete_job-NoJob app s2))))
        ]
      ]

  stage_status-LeavesNoJob :
      (app task : String) (input in_store : Config) (subscribed : Bool) (s : K)
      → LeavesNoJob app (stage_status env subs order of_text app task input in_store subscribed s)
  unfolding stage_status
  stage_status-LeavesNoJob app task input in_store subscribed s =
      let status = build_task_status order input in_store subscribed in
      let r = stage_status env subs order of_text app task input in_store subscribed s in
      elim (List-cases (status.traffic_rule_status_lst ++ status.dns_rule_status_lst)) [
        | inl nothing ↦ refused app r (rw (nothing, stage_status) (unstage-NoJob app task s))
        | inr (x, xs, some_work) ↦
            elim (Option-cases
              (is_dns_domain_name_exists env subs order of_text app input status s)) [
                | inl crash ↦ accepted app r (rw (some_work, stage_status) (rw crash refl))
                | inr (true, twice) ↦
                    refused app r
                      (rw (some_work, stage_status) (rw twice (unstage-NoJob app task s)))
                | inr (false, fine) ↦ elim (write_status_to_store-NoJob status app task s) [
                  | inl zero ↦ accepted app r (rw (some_work, stage_status) (rw fine zero))
                  | inr missing ↦ refused app r (rw (some_work, stage_status) (rw fine missing))
                ]
              ]
      ]

  -- the configuration whose statuses are staged, and the job
  stage_job-LeavesNoJob :
      (app task : String) (input in_store : Config) (subscribed : Bool) (s : K)
      → NoJob app s
      → LeavesNoJob app (stage_job env subs order of_text app task input in_store subscribed s)
  unfolding stage_job
  stage_job-LeavesNoJob app task input in_store subscribed s missing =
      let r = stage_job env subs order of_text app task input in_store subscribed s in
      let delete = input.operation == "DELETE" in
      let stored : Config =
        if delete then record in_store { operation = input.operation } else in_store in
      let job : Config = if delete then stored else input in
      let named : Config =
        if delete then record input { app_name = in_store.app_name } else input in
      elim (Bool-cases (input.operation == "PUT" && not (input.app_name == in_store.app_name))) [
        | inl renamed ↦ refused app r (rw (renamed, stage_job) missing)
        | inr same ↦ elim (Option-cases (env.marshal_config job)) [
          | inl bad ↦ refused app r (rw (same, stage_job) (rw bad missing))
          | inr (bytes, encoded) ↦
              let added = add_jobs_to_db env subs order of_text app task bytes s in
              elim (Bool-cases (eqb added.0 0)) [
                | inl ok ↦
                    subst⁻¹ (LeavesNoJob app) (rw (same, stage_job) (rw encoded (rw ok refl)))
                      (stage_status-LeavesNoJob app task named stored subscribed added.1)
                | inr failed ↦ elim (add_jobs_to_db-NoJob app task bytes s missing) [
                  | inl zero ↦ let bad : eqb added.0 0 ≡ true = rw zero refl in cc
                  | inr gone ↦ refused app r (rw (same, stage_job) (rw encoded (rw failed gone)))
                ]
              ]
        ]
      ]

  stage_stored-LeavesNoJob :
      (app task : String) (input : Config) (subscribed : Bool) (s : K)
      → NoJob app s
      → LeavesNoJob app (stage_stored env subs order of_text app task input subscribed s)
  unfolding stage_stored
  stage_stored-LeavesNoJob app task input subscribed s missing =
      let r = stage_stored env subs order of_text app task input subscribed s in
      let read = get_record env.registry (config_path app) s in
      elim (Bool-cases (input.operation == "POST")) [
        | inl post ↦ subst⁻¹ (LeavesNoJob app) (rw (post, stage_stored) refl) (
            stage_job-LeavesNoJob app task input (empty_config env subs order of_text) subscribed s
              missing)
        | inr later ↦ elim (Bool-cases (eqb read.1 0)) [
          | inr failed ↦ refused app r (rw (later, stage_stored) (rw failed missing))
          | inl ok ↦ elim (Option-cases read.0) [
            | inl nil ↦ refused app r (rw (later, stage_stored) (rw ok (rw nil missing)))
            | inr (bytes, found) ↦ elim (Option-cases (env.unmarshal_config bytes)) [
              | inl bad ↦
                  refused app r (rw (later, stage_stored) (rw ok (rw found (rw bad missing))))
              | inr (in_store, parsed) ↦
                  subst⁻¹ (LeavesNoJob app)
                    (rw (later, stage_stored) (rw ok (rw found (rw parsed refl))))
                    (stage_job-LeavesNoJob app task input in_store subscribed s missing)
            ]
          ]
        ]
      ]

  stage_new_task-LeavesNoJob :
      (app task : String) (input : Config) (is_terminate : Bool) (s : K)
      → NoJob app s
      → LeavesNoJob app (stage_new_task env subs order of_text app task input is_terminate s)
  unfolding stage_new_task stage_app_termination_progress
  stage_new_task-LeavesNoJob app task input is_terminate s missing =
      let r = stage_new_task env subs order of_text app task input is_terminate s in
      let subscribed : Bool =
        is_terminate
        && elim (app_termination_is_subscribed env subs app s) [ none ↦ false | some _ ↦ true ] in
      elim (Bool-cases (not (is_app_instance_already_created env app s) && is_terminate)) [
        | inl no_config ↦ accepted app r (rw (no_config, stage_new_task) refl)
        | inr configured ↦
            let e : r ≡ stage_stored env subs order of_text app task input subscribed s =
              rw (configured, stage_new_task) refl in
            subst⁻¹ (LeavesNoJob app) e
              (stage_stored-LeavesNoJob app task input subscribed s missing)
      ]

  -- Where deletions succeed, a request of an application without a job that is refused, with a code that
  -- is not 0, leaves the application without a job.
  pub stage_new_task-NoJob :
      (app task : String) (input : Config) (is_terminate : Bool) (s : K) (code : ℕ)
      (msg name : String)
      → law.kv s (jobs_path app) ≡ none
      → (stage_new_task env subs order of_text app task input is_terminate s).0
        ≡ staged code msg name
      → code ≢ 0
      → law.kv
          (stage_new_task env subs order of_text app task input is_terminate s).1
          (jobs_path app)
        ≡ none
  stage_new_task-NoJob app task input is_terminate s code msg name missing e refused =
      stage_new_task-LeavesNoJob app task input is_terminate s missing code msg name e refused
