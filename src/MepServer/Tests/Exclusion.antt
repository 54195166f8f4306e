-- ===== src/MepServer/Tests/Exclusion.antt =====
-- A configuration that is created, and a second request for it while the first is going on.
use mep.Prelude.{
  insert, sym, String, ◌≡◌, ◌≢◌, refl, ◌∙◌, inl, inr, false, none, some, [], ◌∷◌, Option-cases,
}
use mep.MepServer.Backend.{get_record, get_records, put_record}
use mep.MepServer.Appd.{
  is_app_instance_already_created, is_duplicate_app_name_exists, is_any_ongoing_operation_exist,
}
use mep.MepServer.Appd.Classify.{build_task_status, handle_rule_create_or_delete}
use mep.MepServer.Appd.Stage.{
  stage_new_task, stage_app_termination_progress, stage_stored, stage_job, stage_status,
  add_jobs_to_db, write_status_to_store, is_dns_domain_name_exists, fill_dns_domain_name_map,
  input_rules, created_exists,
}
use mep.MepServer.Sync.{jobs_path}
use mep.MepServer.Plans.{
  accepted, in_progress, stage_and_start, unless_ongoing, create_app_d_config,
}
use mep.MepServer.Plans.Accepted.{Request, create_request, delete_request, serve}
use mep.MepServer.Plans.Exclusion.{IsFound, IsUnchanged, serve-IsUnchanged}
use mep.MepServer.Tests.Sync.{
  confirm_bytes, Store, env, etcd-IsRegistry, etcd-kv, dns_rule, config_of,
}
use mep.MepServer.Tests.Failures.{subs}
use mep.MepServer.Tests.Staging.{order, of_text, empty}

abbrev create : Request
create = create_request (some (config_of (dns_rule "new" "" ∷ []) []))

etcd-IsFound :
    (p : String) (s : Store)
    → (etcd-IsRegistry false).kv s p ≢ none
    → IsFound ((env false).registry.get p s)
etcd-IsFound p s there = elim (Option-cases (s p)) [
  | inl missing ↦ absurd (there (etcd-kv s p ∙ missing))
  | inr (b, found) ↦ ((p, b), [], rw found refl)
]

is_created :
    (serve (env false) subs order of_text create "app" "task" empty).0
    ≡ accepted (in_progress "task" "app")
unfolding create_app_d_config unless_ongoing stage_and_start stage_new_task
    stage_app_termination_progress stage_stored stage_job stage_status add_jobs_to_db
    write_status_to_store is_dns_domain_name_exists fill_dns_domain_name_map input_rules
    created_exists is_app_instance_already_created is_duplicate_app_name_exists
    is_any_ongoing_operation_exist get_record get_records put_record build_task_status
    handle_rule_create_or_delete
is_created = refl

-- a store with nothing but a job
abbrev busy : Store
busy = insert (jobs_path "app") (confirm_bytes 0) empty

busy-HasJob : (etcd-IsRegistry false).kv busy (jobs_path "app") ≢ none
busy-HasJob e = let bad = sym (etcd-kv busy (jobs_path "app")) ∙ e in cc

serve-IsUnchanged_example :
    ((etcd-IsRegistry false).kv
        (serve (env false) subs order of_text create "app" "task" empty).2
        (jobs_path "app")
      ≢ none)
    × IsUnchanged (serve (env false) subs order of_text delete_request "app" "second" busy) busy
serve-IsUnchanged_example =
    serve-IsUnchanged (env false) subs order of_text (etcd-IsRegistry false) etcd-IsFound create
      delete_request "app" "task" "second" empty busy (in_progress "task" "app") is_created
      busy-HasJob
