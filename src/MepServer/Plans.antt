-- ===== src/MepServer/Plans.antt =====
-- mepserver/mm5/plans: the requests that create, update, delete and read a configuration. What
-- `GenerateUniqueId` returns is the argument `task`.
pub mod Pending
pub mod Accepted
pub mod Exclusion
use mep.Prelude.{
  ℕ, String, Bool, true, false, Option, none, some, List, map, ◌==◌, eqb, if◌then◌else◌,
}
use mep.MepServer.DnsRule.{DnsRule}
use mep.MepServer.Backend.{get_record, operate_data_with_etcd_err}
use mep.MepServer.Sync.{Config, RuleType, Env, config_path}
use mep.MepServer.Appd.{
  Subscriptions, is_app_instance_already_created, is_duplicate_app_name_exists,
  is_any_ongoing_operation_exist,
}
use mep.MepServer.Appd.Classify.{RuleMap}
use mep.MepServer.Appd.Stage.{staged, crashed, duplicate_operation, empty_config, stage_new_task}

abbrev pub ser_instance_not_found : ℕ
ser_instance_not_found = 3

abbrev pub forbidden_operation : ℕ
forbidden_operation = 20

-- `TaskProgress`
pub record TaskProgress : Type 0 where
  pub task_id : String
  pub app_instance_id : String
  pub config_result : String
  pub config_phase : String
  pub details : String

-- the first error of the request, its response, or a panic
pub data Reply : Type 0 where
  refused : (code : ℕ) → (msg : String) → Reply
  accepted : TaskProgress → Reply
  answered : Config → Reply
  panicked : Reply

-- the arguments of `StartNewTask`
pub record Started : Type 0 where
  pub app_name : String
  pub app_instance_id : String
  pub task_id : String

-- the type of an address, in the words of the data plane
abbrev pub common_type : String → String
common_type type = if type == "IPv4" then "IP_V4" else if type == "IPv6" then "IP_V6" else type

abbrev pub with_common_type : DnsRule → DnsRule
with_common_type r = record r { ip_address_type = common_type r.ip_address_type }

abbrev pub for_operation : String → Config → Config
for_operation operation c = record c {
  operation = operation;
  app_dns_rule = map with_common_type c.app_dns_rule;
}

-- `GenerateTaskResponse` of a task that is started
abbrev pub in_progress : String → String → TaskProgress
in_progress task app = record {
  task_id = task;
  app_instance_id = app;
  config_result = "PROCESSING";
  config_phase = "0";
  details = "Operation In progress";
}

-- a reply, the task that is started, and the store
abbrev pub Outcome : Type 0 → Type 0
Outcome K = Reply × Option Started × K

module _ {B K V : Type 0} (env : Env B K V) (subs : Subscriptions B)
    (order : (k : RuleType) → RuleMap k → RuleMap k) (of_text : String → B) where
  -- the end of the three requests: the task is staged and started
  unfoldable pub stage_and_start : String → String → Config → K → Outcome K
  stage_and_start app task input s =
      let (result, s') = stage_new_task env subs order of_text app task input false s in
      elim result [
        | staged code msg name ↦
            if eqb code 0
            then (
              accepted (in_progress task app),
              some (record { app_name = name; app_instance_id = app; task_id = task }),
              s',
            )
            else (refused code msg, none, s')
        | crashed ↦ (panicked, none, s')
      ]

  -- a request that is not refused for a task of the instance that is going on
  unfoldable pub unless_ongoing : String → String → Config → K → Outcome K
  unless_ongoing app task input s =
      if is_any_ongoing_operation_exist env app s
      then (refused forbidden_operation "app instance has other operation in progress", none, s)
      else stage_and_start app task input s

  -- `CreateAppDConfig.OnRequest`; a body that is not a configuration is `none`
  unfoldable pub create_app_d_config : String → String → Option Config → K → Outcome K
  create_app_d_config app task none s = (refused 1 "input body parse failed", none, s)
  create_app_d_config app task (some input) s =
      if is_app_instance_already_created env app s
      then (refused duplicate_operation "duplicate app instance", none, s)
      else if is_duplicate_app_name_exists env input.app_name s
      then (refused duplicate_operation "duplicate app name", none, s)
      else unless_ongoing app task (for_operation "POST" input) s

  -- `UpdateAppDConfig.OnRequest`
  unfoldable pub update_app_d_config : String → String → Option Config → K → Outcome K
  update_app_d_config app task none s = (refused 1 "input body parse failed", none, s)
  update_app_d_config app task (some input) s =
      if is_app_instance_already_created env app s
      then unless_ongoing app task (for_operation "PUT" input) s
      else (refused ser_instance_not_found "app instance not found", none, s)

  -- `DeleteAppDConfig.OnRequest`
  unfoldable pub delete_app_d_config : String → String → K → Outcome K
  delete_app_d_config app task s =
      let input = record (empty_config env subs order of_text) { operation = "DELETE" } in
      if is_app_instance_already_created env app s
      then unless_ongoing app task input s
      else (refused ser_instance_not_found "app instance not found", none, s)

module _ {B K V : Type 0} (env : Env B K V) where
  -- `AppDConfigGet.OnRequest`
  unfoldable pub app_d_config_get : String → K → Reply
  app_d_config_get app s =
      let (entry, code) = get_record env.registry (config_path app) s in
      let unreadable =
        refused operate_data_with_etcd_err "parse appd config  from data-store failed" in
      if eqb code 0
      then elim entry [
        | none ↦ unreadable
        | some bytes ↦ elim (env.unmarshal_config bytes) [ none ↦ unreadable | some c ↦ answered c ]
      ]
      else refused code "appD config retrieval failed"
