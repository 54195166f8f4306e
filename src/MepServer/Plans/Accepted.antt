-- ===== src/MepServer/Plans/Accepted.antt =====
-- mepserver/mm5/plans: an accepted request leaves the job of its application in the store.
use mep.Prelude.{
  ℕ, String, ◌≡◌, ◌⊎◌, refl, inl, inr, Bool, true, false, Option, none, some, ◌&&◌, not, ◌==◌, eqb,
  if◌then◌else◌, Bool-cases, Option-cases,
}
use mep.MepServer.Backend.{get_record}
use mep.MepServer.Backend.Laws.{IsRegistry}
use mep.MepServer.Sync.{Config, RuleType, Env, config_path}
use mep.MepServer.Appd.{
  Subscriptions, is_any_ongoing_operation_exist, is_app_instance_already_created,
  is_duplicate_app_name_exists,
}
use mep.MepServer.Appd.Classify.{RuleMap}
use mep.MepServer.Appd.Stage.{
  Staged, staged, crashed, add_jobs_to_db, stage_job, stage_stored, stage_new_task, empty_config,
  stage_app_termination_progress,
}
use mep.MepServer.Plans.{
  Reply, accepted, Outcome, stage_and_start, unless_ongoing, create_app_d_config,
  update_app_d_config, delete_app_d_config, for_operation,
}
use mep.MepServer.Plans.Pending.{
  HasJob, LeavesJob, failed, add_jobs_to_db-HasJob, stage_status-LeavesJob,
}

-- the three requests that start a task
pub data Request : Type 0 where
  create_request update_request : (body : Option Config) → Request
  delete_request : Request

abbrev pub is_accepted : Reply → Bool
is_accepted (accepted _) = true
is_accepted _ = false

Staged-cases :
    (st : Staged)
    → (st ≡ crashed) ⊎ ((code : ℕ) × (msg : String) × (name : String) × (st ≡ staged code msg name))
Staged-cases crashed = inl refl
Staged-cases (staged code msg name) = inr (code, msg, name, refl)

module _ {B K V : Type 0} (env : Env B K V) (subs : Subscriptions B)
    (order : (k : RuleType) → RuleMap k → RuleMap k) (of_text : String → B) where
  abbrev pub serve : Request → String → String → K → Outcome K
  serve (create_request body) app task s =
      create_app_d_config env subs order of_text app task body s
  serve (update_request body) app task s =
      update_app_d_config env subs order of_text app task body s
  serve delete_request app task s = delete_app_d_config env subs order of_text app task s

  module _ (law : IsRegistry env.registry) where
    stage_job-LeavesJob :
        (app task : String) (input in_store : Config) (subscribed : Bool) (s : K)
        → LeavesJob env subs order of_text law app
            (stage_job env subs order of_text app task input in_store subscribed s)
    unfolding stage_job
    stage_job-LeavesJob app task input in_store subscribed s =
        let r = stage_job env subs order of_text app task input in_store subscribed s in
        let no = failed env subs order of_text law app r in
        let delete = input.operation == "DELETE" in
        let stored : Config =
          if delete then record in_store { operation = input.operation } else in_store in
        let job : Config = if delete then stored else input in
        let named : Config =
          if delete then record input { app_name = in_store.app_name } else input in
        elim (Bool-cases (input.operation == "PUT" && not (input.app_name == in_store.app_name))) [
          | inl renamed ↦ no (rw (renamed, stage_job) refl)
          | inr same ↦ elim (Option-cases (env.marshal_config job)) [
            | inl bad ↦ no (rw (same, stage_job) (rw bad refl))
            | inr (bytes, encoded) ↦
                let added = add_jobs_to_db env subs order of_text app task bytes s in
                elim (Bool-cases (eqb added.0 0)) [
                  | inl ok ↦
                      rw (same, stage_job)
                        (rw encoded (
                          rw ok (
                            stage_status-LeavesJob env subs order of_text law app task named stored
                              subscribed added.1
                              (add_jobs_to_db-HasJob env subs order of_text law app task bytes s
                                ok))))
                  | inr bad ↦ no (rw (same, stage_job) (rw encoded (rw bad bad)))
                ]
          ]
        ]

    stage_stored-LeavesJob :
        (app task : String) (input : Config) (subscribed : Bool) (s : K)
        → LeavesJob env subs order of_text law app
            (stage_stored env subs order of_text app task input subscribed s)
    unfolding stage_stored
    stage_stored-LeavesJob app task input subscribed s =
        let r = stage_stored env subs order of_text app task input subscribed s in
        let no = failed env subs order of_text law app r in
        let read = get_record env.registry (config_path app) s in
        elim (Bool-cases (input.operation == "POST")) [
          | inl post ↦
              rw (post, stage_stored)
                (stage_job-LeavesJob app task input (empty_config env subs order of_text) subscribed
                  s)
          | inr later ↦ elim (Bool-cases (eqb read.1 0)) [
            | inr bad ↦ no (rw (later, stage_stored) (rw bad bad))
            | inl ok ↦ elim (Option-cases read.0) [
              | inl nil ↦ no (rw (later, stage_stored) (rw ok (rw nil refl)))
              | inr (bytes, found) ↦ elim (Option-cases (env.unmarshal_config bytes)) [
                | inl bad ↦ no (rw (later, stage_stored) (rw ok (rw found (rw bad refl))))
                | inr (in_store, parsed) ↦
                    rw (later, stage_stored)
                      (rw ok (
                        rw found
                          (rw parsed (stage_job-LeavesJob app task input in_store subscribed s))))
              ]
            ]
          ]
        ]

    stage_new_task-LeavesJob :
        (app task : String) (input : Config) (s : K)
        → LeavesJob env subs order of_text law app
            (stage_new_task env subs order of_text app task input false s)
    unfolding stage_new_task stage_app_termination_progress
    stage_new_task-LeavesJob app task input s =
        let never : (not (is_app_instance_already_created env app s) && false) ≡ false =
          elim (Bool-cases (is_app_instance_already_created env app s)) [
            | inl there ↦ rw there refl
            | inr missing ↦ rw missing refl
          ] in
        rw (never, stage_new_task) (stage_stored-LeavesJob app task input false s)

    -- an accepted request leaves the job
    stage_and_start-HasJob :
        (app task : String) (input : Config) (s : K)
        → is_accepted (stage_and_start env subs order of_text app task input s).0 ≡ true
        → HasJob env subs order of_text law app
            (stage_and_start env subs order of_text app task input s).2
    unfolding stage_and_start
    stage_and_start-HasJob app task input s =
        let r = stage_new_task env subs order of_text app task input false s in
        elim (Staged-cases r.0) [
          | inl crash ↦ rw (crash, stage_and_start) (λ never. cc)
          | inr (code, msg, name, e) ↦ elim (Bool-cases (eqb code 0)) [
            | inr bad ↦ rw (e, stage_and_start) (rw bad (λ never. cc))
            | inl ok ↦
                rw (e, stage_and_start)
                  (rw ok (λ _. stage_new_task-LeavesJob app task input s (rw e ok)))
          ]
        ]

    unless_ongoing-HasJob :
        (app task : String) (input : Config) (s : K)
        → is_accepted (unless_ongoing env subs order of_text app task input s).0 ≡ true
        → HasJob env subs order of_text law app
            (unless_ongoing env subs order of_text app task input s).2
    unfolding unless_ongoing
    unless_ongoing-HasJob app task input s =
        elim (Bool-cases (is_any_ongoing_operation_exist env app s)) [
          | inl busy ↦ rw (busy, unless_ongoing) (λ never. cc)
          | inr free ↦ rw (free, unless_ongoing) (stage_and_start-HasJob app task input s)
        ]

    pub serve-HasJob :
        (q : Request) (app task : String) (s : K)
        → is_accepted (serve q app task s).0 ≡ true
        → HasJob env subs order of_text law app (serve q app task s).2
    unfolding create_app_d_config update_app_d_config delete_app_d_config
    serve-HasJob (create_request none) app task s = λ never. cc
    serve-HasJob (create_request (some input)) app task s =
        elim (Bool-cases (is_app_instance_already_created env app s)) [
          | inl there ↦ rw (there, create_app_d_config) (λ never. cc)
          | inr new ↦ elim (Bool-cases (is_duplicate_app_name_exists env input.app_name s)) [
            | inl twice ↦ rw (new, create_app_d_config) (rw twice (λ never. cc))
            | inr once ↦
                rw (new, create_app_d_config)
                  (rw once (unless_ongoing-HasJob app task (for_operation "POST" input) s))
          ]
        ]
    serve-HasJob (update_request none) app task s = λ never. cc
    serve-HasJob (update_request (some input)) app task s =
        elim (Bool-cases (is_app_instance_already_created env app s)) [
          | inl there ↦
              rw (there, update_app_d_config)
                (unless_ongoing-HasJob app task (for_operation "PUT" input) s)
          | inr new ↦ rw (new, update_app_d_config) (λ never. cc)
        ]
    serve-HasJob delete_request app task s =
        let input = record (empty_config env subs order of_text) { operation = "DELETE" } in
        elim (Bool-cases (is_app_instance_already_created env app s)) [
          | inl there ↦ rw (there, delete_app_d_config) (unless_ongoing-HasJob app task input s)
          | inr new ↦ rw (new, delete_app_d_config) (λ never. cc)
        ]
