-- ===== src/MepServer/Sync.antt =====
-- mepserver/mm5/task: the background worker that brings the rules of an application into the data
-- plane and the DNS server. Its data: the configuration that a job asks for, the stored one, and the
-- status of the task, which the code reaches through pointers, are the parts of one `World`.
pub mod Status
pub mod Operations
pub mod Rules
pub mod Worker
pub mod Termination
pub mod Moved
pub mod Frame
pub mod Cells
pub mod Progress
pub mod Written
pub mod Pointers
pub mod Serving
pub mod Total
pub mod Complete
pub mod Paths
pub mod Finish
pub mod Success
pub mod Plane
pub mod Served
pub mod LostWrite
pub mod Undone
pub mod Terminated
use Prim.Native.String
use mep.Prelude.{◌≡◌, ◌⊎◌, refl, inl, inr, ℕ, ℤ, String, Bool, Option, List}
use mep.MepServer.DnsRule.{DnsRule, AppDConfig}
use mep.MepServer.Backend.{Registry}

-- a Go slice in a decoded value: nil, or the items
abbrev pub Slice : Type 0 → Type 0
Slice A = Option (List A)

pub record TunnelInfo : Type 0 where
  pub tunnel_type : String
  pub tunnel_dst_address : String
  pub tunnel_src_address : String

pub record DstInterface : Type 0 where
  pub interface_type : String
  pub tunnel_info : TunnelInfo
  pub src_mac_address : String
  pub dst_mac_address : String
  pub dst_ip_address : String

pub record TrafficFilter : Type 0 where
  pub src_address : Slice String
  pub dst_address : Slice String
  pub src_port : Slice String
  pub dst_port : Slice String
  pub protocol : Slice String
  pub tag : Slice String
  pub src_tunnel_address : Slice String
  pub tgt_tunnel_address : Slice String
  pub src_tunnel_port : Slice String
  pub dst_tunnel_port : Slice String
  pub qci : ℤ
  pub dscp : ℤ
  pub tc : ℤ

pub record TrafficRule : Type 0 where
  pub traffic_rule_id : String
  pub filter_type : String
  pub priority : ℤ
  pub traffic_filter : Slice TrafficFilter
  pub action : String
  pub dst_interface : Slice DstInterface
  pub state : String

abbrev pub Config : Type 0
Config = AppDConfig TrafficRule

-- `AppDRuleType`
pub data RuleType : Type 0 where
  rule_type_dns rule_type_traffic : RuleType

-- `ApplyFunc` and `RevertFunc`
pub data FuncType : Type 0 where
  apply_func revert_func : FuncType

-- the constants of `OperType`, `AppDRuleStatus` and `AppTerminateStatus`
abbrev pub oper_create : ℕ
oper_create = 0

abbrev pub oper_modify : ℕ
oper_modify = 1

abbrev pub oper_delete : ℕ
oper_delete = 2

abbrev pub wait_mp2 : ℕ
wait_mp2 = 0

abbrev pub wait_local : ℕ
wait_local = 1

abbrev pub wait_config_db_write : ℕ
wait_config_db_write = 2

abbrev pub no_termination : ℕ
no_termination = 0

abbrev pub termination_in_progress : ℕ
termination_in_progress = 1

abbrev pub termination_finish : ℕ
termination_finish = 2

-- a rule's identifier, how far its work has come, and what is to be done with it
pub record RuleStatus : Type 0 where
  pub id : String
  pub state : ℕ
  pub method : ℕ

pub record TaskStatus : Type 0 where
  pub progress : ℤ
  pub traffic_rule_status_lst : List RuleStatus
  pub dns_rule_status_lst : List RuleStatus
  pub details : String
  pub termination_status : ℕ

-- What a rule of either type is, and where a configuration and a status keep the rules of a type.
abbrev pub Rule : RuleType → Type 0
Rule rule_type_dns = DnsRule
Rule rule_type_traffic = TrafficRule

abbrev pub rule_id : (k : RuleType) → Rule k → String
rule_id rule_type_dns r = r.dns_rule_id
rule_id rule_type_traffic r = r.traffic_rule_id

abbrev pub rule_state : (k : RuleType) → Rule k → String
rule_state rule_type_dns r = r.state
rule_state rule_type_traffic r = r.state

abbrev pub with_state : (k : RuleType) → String → Rule k → Rule k
with_state rule_type_dns st r = record r { state = st }
with_state rule_type_traffic st r = record r { state = st }

abbrev pub rules : (k : RuleType) → Config → List (Rule k)
rules rule_type_dns c = c.app_dns_rule
rules rule_type_traffic c = c.app_traffic_rule

abbrev pub with_rules : (k : RuleType) → List (Rule k) → Config → Config
with_rules rule_type_dns rs c = record c { app_dns_rule = rs }
with_rules rule_type_traffic rs c = record c { app_traffic_rule = rs }

abbrev pub statuses : RuleType → TaskStatus → List RuleStatus
statuses rule_type_dns t = t.dns_rule_status_lst
statuses rule_type_traffic t = t.traffic_rule_status_lst

abbrev pub with_statuses : RuleType → List RuleStatus → TaskStatus → TaskStatus
with_statuses rule_type_dns l t = record t { dns_rule_status_lst = l }
with_statuses rule_type_traffic l t = record t { traffic_rule_status_lst = l }

-- how a call ended: with nil, with an error, whose text is only logged, or in a panic
pub data Outcome : Type 0 where
  done : Outcome
  failed : Outcome
  panicked : Outcome

pub Outcome-cases : (o : Outcome) → (o ≡ done) ⊎ (o ≡ failed) ⊎ (o ≡ panicked)
Outcome-cases done = inl refl
Outcome-cases failed = inr (inl refl)
Outcome-cases panicked = inr (inr refl)

-- `appDJobDb`, `appDConfigDb` and `statusDb`, the contents `K` of etcd, and the state `V` of the data
-- plane and the DNS server together
pub record World (K V : Type 0) : Type 0 where
  pub job : Config
  pub config : Option Config
  pub status : TaskStatus
  pub store : K
  pub plane : V

-- `ApplicationInfo`
pub record ApplicationInfo : Type 0 where
  pub id : String
  pub name : String

-- etcd, the data plane, the agent of the DNS server, where `true` is a nil error, and JSON
pub record Env (B K V : Type 0) : Type 0 where
  pub registry : Registry B K
  -- `AddDNSRule(app, id, domain, address type, address, ttl)` of the rule, `SetDNSRule`, and
  -- `DeleteDNSRule(app, id)`
  pub add_dns_rule : ApplicationInfo → String → DnsRule → V → Bool × V
  pub set_dns_rule : ApplicationInfo → String → DnsRule → V → Bool × V
  pub delete_dns_rule : ApplicationInfo → String → V → Bool × V
  -- `AddTrafficRule(app, id, filter type, action, priority, filter)` of the rule and the like
  pub add_traffic_rule : ApplicationInfo → String → TrafficRule → V → Bool × V
  pub set_traffic_rule : ApplicationInfo → String → TrafficRule → V → Bool × V
  pub delete_traffic_rule : ApplicationInfo → String → V → Bool × V
  -- `AddResourceRecord(domain, type, IN, addresses, ttl)` and the like
  pub add_resource_record : String → String → List String → ℕ → V → Bool × V
  pub set_resource_record : String → String → List String → ℕ → V → Bool × V
  pub delete_resource_record : String → String → V → Bool × V
  pub marshal_config : Config → Option B
  pub unmarshal_config : B → Option Config
  pub marshal_status : TaskStatus → Option B
  pub unmarshal_status : B → Option TaskStatus

-- a task: the fields of `task` that are neither pointers nor services, and `dnsTypeConfig`
pub record TaskInfo : Type 0 where
  pub app_name : String
  pub app_instance_id : String
  pub task_id : String
  pub dns_type : String

-- the paths of common/util/const.go
abbrev pub config_path : String → String
config_path app = String.◌++◌ "/cse-sr/etsi/appd/" app

abbrev pub jobs_path : String → String
jobs_path app = String.◌++◌ "/cse-sr/etsi/mep/applcm/jobs/" app

abbrev pub tasks_path : String → String
tasks_path task = String.◌++◌ "/cse-sr/etsi/mep/applcm/tasks/" task

abbrev pub task_status_path : String → String → String
task_status_path app task =
    String.◌++◌ (String.◌++◌ (String.◌++◌ "/cse-sr/etsi/mep/applcm/taskstatus/" app) "/") task
