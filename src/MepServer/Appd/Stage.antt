-- ===== src/MepServer/Appd/Stage.antt =====
-- mepserver/common/appd/appd.go: `StageNewTask`, which stores the job, the task and the status of a
-- request. JSON of a text is that of `[]byte(text)`.
use mep.Prelude.{
  ℕ, String, Bool, true, false, not, ◌&&◌, Option, none, some, List, [], ◌∷◌, ◌++◌, ◌==◌, eqb,
  if◌then◌else◌, contains, map, Map, empty_map, insert,
}
use mep.MepServer.DnsRule.{DnsRule}
use mep.MepServer.Backend.{
  get_record, get_records, put_record, delete_paths, parse_info_err, subscription_not_found,
  operate_data_with_etcd_err,
}
use mep.MepServer.Sync.{
  Config, RuleType, RuleStatus, TaskStatus, Env, config_path, jobs_path, tasks_path,
  task_status_path, oper_create, termination_in_progress,
}
use mep.MepServer.Appd.{
  Subscriptions, is_app_instance_already_created, app_termination_is_subscribed,
}
use mep.MepServer.Appd.Classify.{RuleMap, no_status, build_task_status}

abbrev pub duplicate_operation : ℕ
duplicate_operation = 19

abbrev pub db_failure : String
db_failure = "put app config rule to data-store failed"

-- how a request is staged: the code, the message, the name that the input has at the end; or a panic
pub data Staged : Type 0 where
  staged : (code : ℕ) → (msg : String) → (app_name : String) → Staged
  crashed : Staged

abbrev pub domains_of : List DnsRule → List String
domains_of rules = map (λ r. r.domain_name) rules

-- the loop over the input: the map of its rules, or that a name stands twice
unfoldable pub input_rules : List DnsRule → List String → Map DnsRule → Option (Map DnsRule)
input_rules [] names m = some m
input_rules (r ∷ rs) names m =
    if contains names r.domain_name
    then none
    else input_rules rs (r.domain_name ∷ names) (insert r.dns_rule_id r m)

-- the loop over the statuses: whether a rule to create has a name in the set; a missing rule is a panic
unfoldable pub created_exists : List String → Map DnsRule → List RuleStatus → Option Bool
created_exists names m [] = some false
created_exists names m (rs ∷ rss) = elim (eqb rs.method oper_create) [
  | false ↦ created_exists names m rss
  | true ↦ elim (m rs.id) [
    | none ↦ none
    | some r ↦ if contains names r.domain_name then some true else created_exists names m rss
  ]
]

module _ {B K V : Type 0} (env : Env B K V) (subs : Subscriptions B)
    (order : (k : RuleType) → RuleMap k → RuleMap k) (of_text : String → B) where
  abbrev names_in : String → List (String × B) → List String
  names_in app [] = []
  names_in app ((id, bytes) ∷ records) =
      let rest = names_in app records in
      if id == app then rest else elim (env.unmarshal_config bytes) [
        | none ↦ rest
        | some c ↦ domains_of c.app_dns_rule ++ rest
      ]

  -- `fillDnsDomainNameMap`: the names of the other applications under a path
  unfoldable pub fill_dns_domain_name_map : String → String → K → List String
  fill_dns_domain_name_map app path s =
      let (records, code) = get_records env.registry path s in
      if eqb code 0 then names_in app records else []

  -- `isDNSDomainNameExists`
  unfoldable pub is_dns_domain_name_exists : String → Config → TaskStatus → K → Option Bool
  is_dns_domain_name_exists app input status s =
      let names =
        fill_dns_domain_name_map app (config_path "") s
        ++ fill_dns_domain_name_map app (jobs_path "") s in
      elim (input_rules input.app_dns_rule [] empty_map) [
        | none ↦ some true
        | some m ↦ created_exists names m status.dns_rule_status_lst
      ]

  -- the deletion of the job and the task, after an error
  unfoldable pub unstage : String → String → K → K
  unstage app task s = (delete_paths env.registry (jobs_path app ∷ tasks_path task ∷ []) true s).1

  -- `writeStatusToStore`
  unfoldable pub write_status_to_store : TaskStatus → String → String → K → (ℕ × String) × K
  write_status_to_store status app task s = elim (env.marshal_status status) [
    | none ↦ ((parse_info_err, "can not marshal status info"), unstage app task s)
    | some bytes ↦
        let (code, s') = put_record env.registry (task_status_path app task) bytes s in
        if eqb code 0 then ((0, ""), s') else ((code, db_failure), unstage app task s')
  ]

  -- `stageAppTerminationProgress`: whether it is subscribed, whether there is no configuration
  unfoldable pub stage_app_termination_progress : String → String → Bool → K → (Bool × Bool) × K
  stage_app_termination_progress app task is_terminate s =
      let subscribed =
        is_terminate
        && elim (app_termination_is_subscribed env subs app s) [ none ↦ false | some _ ↦ true ] in
      let started = record no_status { termination_status = termination_in_progress } in
      if not (is_app_instance_already_created env app s) && is_terminate
      then (
        (subscribed, true),
        (if subscribed then (write_status_to_store started app task s).1 else s),
      )
      else ((subscribed, false), s)

  -- `addJobsToDb`
  unfoldable pub add_jobs_to_db : String → String → B → K → ℕ × K
  add_jobs_to_db app task bytes s =
      let (code, s1) = put_record env.registry (jobs_path app) bytes s in
      let (code', s2) = put_record env.registry (tasks_path task) (of_text app) s1 in
      if eqb code 0
      then (if eqb code' 0
          then (0, s2)
          else (code', (delete_paths env.registry (jobs_path app ∷ []) true s2).1))
      else (code, s1)

  -- `StageNewTask` behind the write of the job: the statuses and their checks
  unfoldable pub stage_status : String → String → Config → Config → Bool → K → Staged × K
  stage_status app task input in_store subscribed s =
      let status = build_task_status order input in_store subscribed in
      elim (status.traffic_rule_status_lst ++ status.dns_rule_status_lst) [
        | [] ↦ (
          staged subscription_not_found "no modification data found in the input" input.app_name,
          unstage app task s,
        )
        | _ ∷ _ ↦ elim (is_dns_domain_name_exists app input status s) [
          | none ↦ (crashed, s)
          | some true ↦
              (staged duplicate_operation "duplicate dns entry" input.app_name, unstage app task s)
          | some false ↦
              let ((code, msg), s') = write_status_to_store status app task s in
              (staged code msg input.app_name, s')
        ]
      ]

  -- `StageNewTask` with the stored configuration
  unfoldable pub stage_job : String → String → Config → Config → Bool → K → Staged × K
  stage_job app task input in_store subscribed s =
      let delete = input.operation == "DELETE" in
      let stored = if delete then record in_store { operation = input.operation } else in_store in
      let job = if delete then stored else input in
      let named = if delete then record input { app_name = in_store.app_name } else input in
      if input.operation == "PUT" && not (input.app_name == in_store.app_name)
      then (staged operate_data_with_etcd_err "app-name doesn't match" input.app_name, s)
      else elim (env.marshal_config job) [
        | none ↦ (staged parse_info_err "can not marshal appDConfig info" named.app_name, s)
        | some bytes ↦
            let (code, s1) = add_jobs_to_db app task bytes s in
            elim (eqb code 0) [
              | false ↦ (staged code db_failure named.app_name, s1)
              | true ↦ stage_status app task named stored subscribed s1
            ]
      ]

  abbrev pub empty_config : Config
  empty_config = record {
    app_traffic_rule = [];
    app_dns_rule = [];
    app_support_mp1 = false;
    app_name = "";
    operation = "";
  }

  -- the configuration that is read unless the operation is POST
  unfoldable pub stage_stored : String → String → Config → Bool → K → Staged × K
  stage_stored app task input subscribed s = elim (input.operation == "POST") [
    | true ↦ stage_job app task input empty_config subscribed s
    | false ↦
        let (entry, code) = get_record env.registry (config_path app) s in
        elim (eqb code 0) [
          | false ↦ (staged code "get app config rule from data-store failed" input.app_name, s)
          | true ↦ elim entry [
            | none ↦ (
              staged operate_data_with_etcd_err "parsing app config rule from data-store failed"
                  input.app_name,
              s,
            )
            | some bytes ↦ elim (env.unmarshal_config bytes) [
              | none ↦ (
                staged operate_data_with_etcd_err "parsing app config rule from data-store failed"
                    input.app_name,
                s,
              )
              | some in_store ↦ stage_job app task input in_store subscribed s
            ]
          ]
        ]
  ]

  -- `StageNewTask`
  unfoldable pub stage_new_task : String → String → Config → Bool → K → Staged × K
  stage_new_task app task input is_terminate s =
      let ((subscribed, no_config), s1) = stage_app_termination_progress app task is_terminate s in
      if no_config
      then (staged 0 "" input.app_name, s1)
      else stage_stored app task input subscribed s1
