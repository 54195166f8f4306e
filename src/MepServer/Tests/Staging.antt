-- ===== src/MepServer/Tests/Staging.antt =====
-- Requests that are staged or refused, and tasks that are undone.
use mep.Prelude.{
  ◌∙◌, insert, ap, sym, some, ℕ, pos, String, ◌≡◌, refl, true, false, none, [], ◌∷◌, arith,
}
use mep.MepServer.Backend.{get_records, get_record, put_record, delete_record, delete_paths}
use mep.MepServer.Sync.{
  config_path, oper_create, oper_delete, Config, RuleType, done, World, jobs_path,
}
use mep.MepServer.Sync.Status.{search_rule, push_status, set_found, set_state_and_progress}
use mep.MepServer.Sync.Operations.{
  generate_rule_map, fill_all, fill_missing, activate, delete_rule, deref, delete_dns_on_mp2,
  delete_dns_on_local_dns,
}
use mep.MepServer.Sync.Rules.{
  dns_state_machine, cell, move_on, revert_state, process_entry_revert, handle_loop, handle_rules,
}
use mep.MepServer.Sync.Worker.{
  new_task, clean_processing_cache, record_failure, handle_error_on_processing, run_task,
  write_on_success, or_undo, clean,
}
use mep.MepServer.Sync.Finish.{after_loops, run_task-write}
use mep.MepServer.Appd.{is_app_instance_already_created}
use mep.MepServer.Appd.Classify.{RuleMap, build_task_status, handle_rule_create_or_delete}
use mep.MepServer.Appd.Stage.{
  stage_job, stage_status, add_jobs_to_db, write_status_to_store, is_dns_domain_name_exists,
  fill_dns_domain_name_map, input_rules, created_exists, staged, stage_app_termination_progress,
  stage_stored, stage_new_task,
}
use mep.MepServer.Appd.Refused.{stage_new_task-NoJob}
use mep.MepServer.Appd.Ready.{IsFinished, created-run_task, deleted-run_task}
use mep.MepServer.Appd.Recorded.{IsReadable, is_accepted}
use mep.MepServer.Sync.Success.{IsSaved}
use mathlib.Core.Option.{some-injective}
use mep.MepServer.Tests.Sync.{
  etcd-kv, config_bytes, of_config, of_status, Bytes, confirm_bytes, Store, env, env-IsServing,
  etcd-IsRegistry, info, dns_rule, traffic_rule, config_of, etcd-empty,
}
use mep.MepServer.Tests.Failures.{created, dns_ends, traffic_ends, subs}

abbrev pub order : (k : RuleType) → RuleMap k → RuleMap k
order k m = m

abbrev pub of_text : String → Bytes
of_text s = confirm_bytes 0

abbrev pub empty : Store
empty = λ k. none

-- a PUT for an application that has no configuration
put_refused :
    (stage_new_task (env false) subs order of_text "app" "task" (config_of [] []) false empty).0
    ≡ staged 5 "get app config rule from data-store failed" "name"
unfolding stage_new_task stage_app_termination_progress stage_stored is_app_instance_already_created
    get_record
put_refused = refl

stage_new_task-NoJob_example :
    (etcd-IsRegistry false).kv
      (stage_new_task (env false) subs order of_text "app" "task" (config_of [] []) false empty).1
      (jobs_path "app")
    ≡ none
stage_new_task-NoJob_example =
    stage_new_task-NoJob (env false) subs order of_text (etcd-IsRegistry false) (λ p s. refl) "app"
      "task" (config_of [] []) false empty 5 "get app config rule from data-store failed" "name"
      (etcd-empty (jobs_path "app")) put_refused (λ e. absurd (omega (arith, e)))

abbrev pub one_each : Config
one_each = config_of (dns_rule "one" "" ∷ []) (traffic_rule ∷ [])

env-IsReadable : IsReadable (env false) (etcd-IsRegistry false)
env-IsReadable = record {
  reads = λ p s b h. ([], rw (sym (etcd-kv s p) ∙ h) refl);
  config_back = λ c b e. ap of_config (sym (some-injective _ _ e));
  status_back = λ st b e. ap of_status (sym (some-injective _ _ e));
}

abbrev pub post : Config
post = record one_each { operation = "POST" }

is_staged :
    is_accepted (stage_new_task (env false) subs order of_text "app" "task" post false empty).0
    ≡ true
unfolding stage_new_task stage_app_termination_progress stage_stored stage_job stage_status
    add_jobs_to_db write_status_to_store is_dns_domain_name_exists fill_dns_domain_name_map
    input_rules created_exists is_app_instance_already_created get_record get_records put_record
    build_task_status handle_rule_create_or_delete
is_staged = refl

created-run_task_example :
    (w : World Store ℕ) × (new_task
        (env false)
        info
        (stage_new_task (env false) subs order of_text "app" "task" post false empty).1
        0
      ≡ (some w, (stage_new_task (env false) subs order of_text "app" "task" post false empty).1))
    × IsFinished
        (env false)
        info
        (etcd-IsRegistry false)
        env-IsServing
        env-IsReadable
        subs
        order
        of_text
        oper_create
        one_each
        w
    × IsSaved (env false) info (etcd-IsRegistry false) one_each (run_task (env false) info w).1
created-run_task_example =
    created-run_task (env false) info (etcd-IsRegistry false) env-IsServing env-IsReadable subs
      order of_text one_each empty 0 (tt, tt) (tt, tt) is_staged

-- a store with the configuration
abbrev stored : Store
stored = insert "/cse-sr/etsi/appd/app" (config_bytes one_each) empty

abbrev delete : Config
delete = record one_each { operation = "DELETE" }

is_stored : (etcd-IsRegistry false).kv stored (config_path "app") ≡ some (config_bytes one_each)
is_stored = etcd-kv stored (config_path "app")

is_staged_deletion :
    is_accepted (stage_new_task (env false) subs order of_text "app" "task" delete false stored).0
    ≡ true
unfolding stage_new_task stage_app_termination_progress stage_stored stage_job stage_status
    add_jobs_to_db write_status_to_store is_dns_domain_name_exists fill_dns_domain_name_map
    input_rules created_exists is_app_instance_already_created get_record get_records put_record
    build_task_status handle_rule_create_or_delete
is_staged_deletion = refl

deleted-run_task_example :
    (w : World Store ℕ) × (new_task
        (env false)
        info
        (stage_new_task (env false) subs order of_text "app" "task" delete false stored).1
        0
      ≡ (
        some w,
        (stage_new_task (env false) subs order of_text "app" "task" delete false stored).1,
      ))
    × IsFinished
        (env false)
        info
        (etcd-IsRegistry false)
        env-IsServing
        env-IsReadable
        subs
        order
        of_text
        oper_delete
        one_each
        w
    × ((etcd-IsRegistry false).kv (run_task (env false) info w).1.store (config_path "app") ≡ none)
deleted-run_task_example =
    deleted-run_task (env false) info (etcd-IsRegistry false) env-IsServing env-IsReadable subs
      order of_text one_each one_each (config_bytes one_each) stored 0 is_stored refl (tt, tt)
      (tt, tt) is_staged_deletion

run_task-write_example :
    run_task (env true) info created
    ≡ or_undo
        (env true)
        info
        "Internal error(failed to write appdconfig db)."
        (write_on_success (env true) info (after_loops (env true) info created).1)
        (clean (env true) info)
run_task-write_example =
    run_task-write (env true) info created ((tt, tt), (omega arith, tt)) (tt, tt) dns_ends
      traffic_ends

-- a created rule that is to be undone
abbrev half : World Store ℕ
half = record created {
  status = record created.status {
    progress = pos 1;
    dns_rule_status_lst = record { id = "new"; state = 2; method = 0 } ∷ [];
  };
}

undone : (handle_error_on_processing (env false) info half).0 ≡ done
unfolding handle_error_on_processing record_failure clean_processing_cache delete_paths
    delete_record handle_rules handle_loop process_entry_revert revert_state cell dns_state_machine
    generate_rule_map fill_all fill_missing delete_dns_on_mp2 delete_dns_on_local_dns delete_rule
    deref activate move_on set_state_and_progress search_rule set_found push_status put_record
undone = refl
