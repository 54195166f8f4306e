-- ===== src/MepServer/Tests/Sync.antt =====
-- Tasks on an etcd that is a map, and services that count their calls.
use mep.Prelude.{
  eq_iff, ℕ, suc, pos, String, ◌≡◌, ◌≢◌, refl, inl, inr, Bool, true, false, Option, none, some,
  List, [], ◌∷◌, ◌==◌, if◌then◌else◌, starts_with, insert, arith, Bool-cases,
}
use mep.MepServer.DnsRule.{DnsRule}
use mep.MepServer.Backend.{Registry}
use mep.MepServer.Backend.Laws.{IsRegistry}
use mep.MepServer.Sync.{
  Config, TrafficRule, rule_type_dns, rule_type_traffic, apply_func, RuleStatus, TaskStatus, done,
  World, Env, TaskInfo, config_path,
}
use mep.MepServer.Sync.Rules.{handle_rules}
use mep.MepServer.Sync.Worker.{run_task}
use mep.MepServer.Sync.Moved.{IsMoved}
use mep.MepServer.Sync.Progress.{written}
use mep.MepServer.Sync.Written.{handle_rules-done}
use mep.MepServer.Sync.Serving.{IsServing}
use mep.MepServer.Sync.Complete.{IsReady, handle_rules_total}
use mep.MepServer.Sync.Finish.{IsAllWritten}
use mep.MepServer.Sync.Success.{IsStored, run_task_total}

pub data Bytes : Type 0 where
  config_bytes : Config → Bytes
  status_bytes : TaskStatus → Bytes
  subscription_bytes : String → Bytes
  confirm_bytes : ℕ → Bytes

abbrev pub Store : Type 0
Store = String → Option Bytes

abbrev pub of_config : Bytes → Option Config
of_config (config_bytes c) = some c
of_config _ = none

abbrev pub of_status : Bytes → Option TaskStatus
of_status (status_bytes st) = some st
of_status _ = none

abbrev pub entry : String → Option Bytes → List (String × Bytes)
entry p none = []
entry p (some b) = (p, b) ∷ []

-- a put to a key of the configurations fails if `lost` is true
abbrev pub etcd : Bool → Registry Bytes Store
etcd lost = record {
  get = λ p s. some (entry p (s p));
  put = λ p b s.
      if (if lost then starts_with p (config_path "") else false)
      then (false, s)
      else (true, insert p b s);
  delete = λ p s. (true, λ q. if starts_with q p then none else s q);
}

abbrev pub counted : ℕ → Bool × ℕ
counted n = (true, suc n)

abbrev pub env : Bool → Env Bytes Store ℕ
env lost = record {
  registry = etcd lost;
  add_dns_rule = λ a i r n. counted n;
  set_dns_rule = λ a i r n. counted n;
  delete_dns_rule = λ a i n. counted n;
  add_traffic_rule = λ a i r n. counted n;
  set_traffic_rule = λ a i r n. counted n;
  delete_traffic_rule = λ a i n. counted n;
  add_resource_record = λ d y l x n. counted n;
  set_resource_record = λ d y l x n. counted n;
  delete_resource_record = λ d y n. counted n;
  marshal_config = λ c. some (config_bytes c);
  unmarshal_config = of_config;
  marshal_status = λ st. some (status_bytes st);
  unmarshal_status = of_status;
}

pub env-IsServing : IsServing (env false)
env-IsServing = record {
  put = λ p b s. refl;
  delete = λ p s. refl;
  config = λ c. (config_bytes c, refl);
  status = λ st. (status_bytes st, refl);
  add_dns = λ a i r n. refl;
  set_dns = λ a i r n. refl;
  delete_dns = λ a i n. refl;
  add_traffic = λ a i r n. refl;
  set_traffic = λ a i r n. refl;
  delete_traffic = λ a i n. refl;
  add_resource = λ d y l x n. refl;
  set_resource = λ d y l x n. refl;
  delete_resource = λ d y n. refl;
}

pub etcd-IsRegistry : (lost : Bool) → IsRegistry (etcd lost)
etcd-IsRegistry false = record {
  kv = λ s q. s q;
  put_ok = λ p b s h q. refl;
  put_err = λ p b s h q. absurd (ground arith);
  delete_ok = λ p s h q. refl;
  delete_err = λ p s h q. absurd (ground arith);
}
etcd-IsRegistry true = record {
  kv = λ s q. s q;
  put_ok = λ p b s h q. elim (Bool-cases (starts_with p (config_path ""))) [
    | inl lost ↦ let bad : false ≡ true = rw lost at h in cc
    | inr kept ↦ rw kept refl
  ];
  put_err = λ p b s h q. elim (Bool-cases (starts_with p (config_path ""))) [
    | inl lost ↦ rw lost refl
    | inr kept ↦ let bad : true ≡ false = rw kept at h in cc
  ];
  delete_ok = λ p s h q. refl;
  delete_err = λ p s h q. absurd (ground arith);
}

abbrev pub dns_rule : String → String → DnsRule
dns_rule id state = record {
  dns_rule_id = id;
  domain_name = "a.b.";
  ip_address_type = "IP_V4";
  ip_address = "10.0.0.1";
  ttl = 30;
  state = state;
}

abbrev pub traffic_rule : TrafficRule
traffic_rule = record {
  traffic_rule_id = "t";
  filter_type = "FLOW";
  priority = pos 1;
  traffic_filter = none;
  action = "DROP";
  dst_interface = none;
  state = "ACTIVE";
}

abbrev pub config_of : List DnsRule → List TrafficRule → Config
config_of dns traffic = record {
  app_traffic_rule = traffic;
  app_dns_rule = dns;
  app_support_mp1 = true;
  app_name = "name";
  operation = "PUT";
}

abbrev pub to_do : String → ℕ → RuleStatus
to_do id method = record { id = id; state = 0; method = method }

-- one rule to create, one to modify, one to delete; a traffic rule to delete
abbrev pub world : World Store ℕ
world = record {
  job = config_of (dns_rule "new" "" ∷ dns_rule "both" "ACTIVE" ∷ []) [];
  config =
      some (config_of (dns_rule "both" "INACTIVE" ∷ dns_rule "old" "" ∷ []) (traffic_rule ∷ []));
  status = record {
    progress = pos 0;
    traffic_rule_status_lst = to_do "t" 2 ∷ [];
    dns_rule_status_lst = to_do "new" 0 ∷ to_do "both" 1 ∷ to_do "old" 2 ∷ [];
    details = "";
    termination_status = 0;
  };
  store = λ k. none;
  plane = 0;
}

abbrev pub info : TaskInfo
info = record { app_name = "name"; app_instance_id = "app"; task_id = "task"; dns_type = "all" }

pub ne : (x y : String) → (x == y) ≡ false → x ≢ y
ne x y h e = let same : (x == y) ≡ true = (eq_iff x y).1 e in cc

pub dns-IsReady : IsReady rule_type_dns world
dns-IsReady = (
  ((ne "new" "both" refl, (ne "new" "old" refl, tt)), ((ne "both" "old" refl, tt), (tt, tt))),
  (omega arith, (omega arith, (omega arith, tt))),
  (
    inl (refl, refl),
    (inr (omega arith, omega arith, refl), (inr (omega arith, omega arith, refl), tt)),
  ),
)

pub traffic-IsReady : IsReady rule_type_traffic world
traffic-IsReady = ((tt, tt), (omega arith, tt), (inr (omega arith, omega arith, refl), tt))

handle_rules-done_example :
    IsMoved rule_type_dns world.status
      (handle_rules (env false) info rule_type_dns apply_func world).1.status
      (written (to_do "new" 0) ∷ written (to_do "both" 1) ∷ written (to_do "old" 2) ∷ [])
      (pos 3)
handle_rules-done_example =
    handle_rules-done (env false) info rule_type_dns world dns-IsReady.0 dns-IsReady.1
      (handle_rules_total (env false) info env-IsServing rule_type_dns world dns-IsReady).0

run_task_total_example :
    ((run_task (env false) info world).0 ≡ done)
    × IsAllWritten world.status (run_task (env false) info world).1.status
    × IsStored
        (env false)
        info
        (etcd-IsRegistry false)
        world.job
        (run_task (env false) info world).1
run_task_total_example =
    run_task_total (env false) info (etcd-IsRegistry false) env-IsServing world dns-IsReady
      traffic-IsReady

-- the key-value view of a store is the store
pub etcd-kv : (s : Store) (q : String) → (etcd-IsRegistry false).kv s q ≡ s q
unfolding etcd-IsRegistry
etcd-kv s q = refl

-- the empty store has no key
pub etcd-empty : (q : String) → (etcd-IsRegistry false).kv (λ k. none) q ≡ none
unfolding etcd-IsRegistry
etcd-empty q = refl
