-- ===== src/MepServer/Tests/Failures.antt =====
-- A task whose configuration cannot be written, and the end of an application.
use mep.Prelude.{
  sym, ◌∙◌, ◌==◌, ◌||◌, ℕ, pos, ◌≡◌, refl, true, false, Option, none, some, [], ◌∷◌, insert, arith,
}
use mep.MepServer.Backend.{get_record, get_records, put_record, delete_record}
use mep.MepServer.Sync.{
  rule_type_dns, apply_func, TaskStatus, done, panicked, World, jobs_path, task_status_path,
}
use mep.MepServer.Sync.Status.{
  search_rule, push_status, set_found, set_state_and_progress, new_status_db,
}
use mep.MepServer.Sync.Operations.{
  generate_rule_map, fill_all, fill_missing, activate, add_rule, add_dns_on_mp2,
  add_dns_on_local_dns,
}
use mep.MepServer.Sync.Rules.{
  dns_state_machine, cell, move_on, apply_state, process_entry_apply, handle_loop, handle_rules,
}
use mep.MepServer.Sync.Worker.{run_task, without_operation}
use mep.MepServer.Sync.Finish.{after_loops}
use mep.MepServer.Sync.LostWrite.{IsLost, run_task-IsLost}
use mep.MepServer.Sync.Termination.{
  Notifier, Confirmation, confirm_path, app_termination_timeout, handle_response_from_app_instance,
  is_terminating, handle_termination_notification, write_confirm_terminate_to_db, await_response,
  response, handle_app_termination,
}
use mep.MepServer.Sync.Terminated.{
  IsAwaited, handle_response_from_app_instance-IsAwaited, handle_app_termination-deletes_all_jobs,
}
use mep.MepServer.Appd.{
  Subscriptions, Subscription, app_termination_is_subscribed, is_app_instance_already_created,
}
use mep.MepServer.Tests.Sync.{
  Bytes, config_bytes, status_bytes, subscription_bytes, confirm_bytes, Store, env, etcd-IsRegistry,
  info, dns_rule, config_of, to_do,
}

abbrev pub created : World Store ℕ
created = record {
  job = config_of (dns_rule "new" "" ∷ []) [];
  config = none;
  status = record {
    progress = pos 0;
    traffic_rule_status_lst = [];
    dns_rule_status_lst = to_do "new" 0 ∷ [];
    details = "";
    termination_status = 0;
  };
  store = λ k. none;
  plane = 0;
}

pub dns_ends : (handle_rules (env true) info rule_type_dns apply_func created).0 ≡ done
unfolding handle_rules handle_loop process_entry_apply apply_state cell dns_state_machine
    generate_rule_map fill_all fill_missing add_dns_on_mp2 add_dns_on_local_dns add_rule activate
    move_on set_state_and_progress search_rule set_found push_status put_record
dns_ends = refl

pub traffic_ends : (after_loops (env true) info created).0 ≡ done
unfolding handle_rules handle_loop process_entry_apply apply_state cell dns_state_machine
    generate_rule_map fill_all fill_missing add_dns_on_mp2 add_dns_on_local_dns add_rule activate
    move_on set_state_and_progress search_rule set_found push_status put_record
traffic_ends = refl

saves :
    ((after_loops (env true) info created).1.job.operation == "POST"
      || (after_loops (env true) info created).1.job.operation == "PUT")
    ≡ true
unfolding handle_rules handle_loop process_entry_apply apply_state cell dns_state_machine
    generate_rule_map fill_all fill_missing add_dns_on_mp2 add_dns_on_local_dns add_rule activate
    move_on set_state_and_progress search_rule set_found push_status put_record
saves = refl

run_task-IsLost_example :
    ((run_task (env true) info created).0 ≡ done)
    × IsLost
        (env true)
        info
        (etcd-IsRegistry true)
        created
        (after_loops (env true) info created).1
        (run_task (env true) info created).1
run_task-IsLost_example =
    run_task-IsLost (env true) info (etcd-IsRegistry true) created
      (config_bytes (without_operation (env true) info (after_loops (env true) info created).1.job))
      ((tt, tt), (omega arith, tt)) (tt, tt) dns_ends traffic_ends refl saves refl (λ s. refl)

-- the application confirms during the first sleep
abbrev of_confirm : Bytes → Option Confirmation
of_confirm (confirm_bytes n) =
    some (record { operation_action = "TERMINATING"; termination_status = n })
of_confirm _ = none

abbrev of_subscription : Bytes → Subscription → Option Subscription
of_subscription (subscription_bytes type) last = some (record last { subscription_type = type })
of_subscription _ last = none

abbrev notifier : Notifier Bytes Store
notifier = record {
  send = λ c i a s. (true, s);
  marshal = λ c. some (confirm_bytes c.termination_status);
  unmarshal = of_confirm;
  sleep = insert (confirm_path "app") (confirm_bytes 2);
}

abbrev pub subs : Subscriptions Bytes
subs = record { unmarshal = of_subscription; order = λ l. l }

abbrev ending : TaskStatus
ending = record {
  progress = pos 0;
  traffic_rule_status_lst = [];
  dns_rule_status_lst = [];
  details = "";
  termination_status = 1;
}

-- a task that ends one application, and the job of another
abbrev ending_store : Store
ending_store = insert (task_status_path "app" "task") (status_bytes ending) (
    insert "/cse-sr/etsi/app-end-subscribe/app"
      (subscription_bytes "AppTerminationNotificationSubscription")
      (insert (jobs_path "another") (config_bytes (config_of [] [])) (λ k. none)))

handle_response_from_app_instance-IsAwaited_example :
    IsAwaited
      (env false)
      subs
      notifier
      app_termination_timeout
      "app"
      ending_store
      (handle_response_from_app_instance (env false) subs notifier "app" ending_store)
handle_response_from_app_instance-IsAwaited_example =
    handle_response_from_app_instance-IsAwaited (env false) subs notifier "app" ending_store

asked : is_terminating (env false) subs notifier info ending_store ≡ true
unfolding new_status_db get_record
asked = refl

calm : (handle_termination_notification (env false) subs notifier "app" ending_store).0 ≡ done
unfolding handle_termination_notification app_termination_is_subscribed get_records delete_record
    get_record write_confirm_terminate_to_db put_record handle_response_from_app_instance
    await_response response
calm = refl

missing :
    is_app_instance_already_created
      (env false)
      "app"
      (handle_termination_notification (env false) subs notifier "app" ending_store).1
    ≡ false
unfolding is_app_instance_already_created handle_termination_notification
    app_termination_is_subscribed get_records delete_record get_record write_confirm_terminate_to_db
    put_record handle_response_from_app_instance await_response response
missing = refl

handle_app_termination-deletes_all_jobs_example :
    ((handle_app_termination (env false) subs notifier info ending_store).0 ≡ some true)
    × ((etcd-IsRegistry false).kv
          (handle_app_termination (env false) subs notifier info ending_store).1
          (jobs_path "another")
        ≡ none)
handle_app_termination-deletes_all_jobs_example =
    handle_app_termination-deletes_all_jobs (env false) subs notifier (etcd-IsRegistry false) info
      ending_store "another" asked (λ e. let bad : done ≡ panicked = sym calm ∙ e in cc) missing
      (λ p s. refl)
