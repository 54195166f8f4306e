-- ===== src/MepServer/Tests/Served.antt =====
-- A request that creates a configuration, with a data plane that holds rules.
use mep.Prelude.{
  eq_refl, ==-eq_false, String, ◌≡◌, ◌≢◌, ◌⊎◌, refl, inl, inr, Bool, true, false, none, some, ◌==◌,
  if◌then◌else◌,
}
use mep.MepServer.Sync.{RuleType, rule_type_dns, rule_type_traffic, World, Env}
use mep.MepServer.Sync.Plane.{IsPlane}
use mep.MepServer.Appd.Classify.{build_task_status}
use mep.MepServer.Appd.Stage.{stage_new_task}
use mep.MepServer.Tests.Sync.{
  etcd, config_bytes, status_bytes, of_config, of_status, Bytes, Store, info,
}
use mep.MepServer.Tests.Failures.{subs}
use mep.MepServer.Tests.Staging.{order, of_text, empty, one_each, post}

-- the identifiers of the rules of each type
record Held : Type 0 where
  dns : String → Bool
  traffic : String → Bool

abbrev held : RuleType → String → Held → Bool
held rule_type_dns i v = v.dns i
held rule_type_traffic i v = v.traffic i

abbrev with_id : String → Bool → (String → Bool) → String → Bool
with_id id b f i = if i == id then b else f i

with_id-differ : (id i : String) (b : Bool) (f : String → Bool) → i ≢ id → with_id id b f i ≡ f i
with_id-differ id i b f differ = rw (==-eq_false i id differ) refl

with_id-same : (id : String) (b : Bool) (f : String → Bool) → with_id id b f id ≡ b
with_id-same id b f = rw (eq_refl id) refl

abbrev with_dns : String → Bool → Held → Held
with_dns id b v = record v { dns = with_id id b v.dns }

abbrev with_traffic : String → Bool → Held → Held
with_traffic id b v = record v { traffic = with_id id b v.traffic }

abbrev env : Env Bytes Store Held
env = record {
  registry = etcd false;
  add_dns_rule = λ a i r v. (true, with_dns i true v);
  set_dns_rule = λ a i r v. (true, v);
  delete_dns_rule = λ a i v. (true, with_dns i false v);
  add_traffic_rule = λ a i r v. (true, with_traffic i true v);
  set_traffic_rule = λ a i r v. (true, v);
  delete_traffic_rule = λ a i v. (true, with_traffic i false v);
  add_resource_record = λ d y l x v. (true, v);
  set_resource_record = λ d y l x v. (true, v);
  delete_resource_record = λ d y v. (true, v);
  marshal_config = λ c. some (config_bytes c);
  unmarshal_config = of_config;
  marshal_status = λ st. some (status_bytes st);
  unmarshal_status = of_status;
}

dns_others :
    (id : String) (b : Bool) (v : Held) (k : RuleType) (i : String)
    → (k ≢ rule_type_dns) ⊎ (i ≢ id)
    → held k i (with_dns id b v) ≡ held k i v
dns_others id b v rule_type_traffic i other = refl
dns_others id b v rule_type_dns i (inl type) = absurd (type refl)
dns_others id b v rule_type_dns i (inr differ) = with_id-differ id i b v.dns differ

traffic_others :
    (id : String) (b : Bool) (v : Held) (k : RuleType) (i : String)
    → (k ≢ rule_type_traffic) ⊎ (i ≢ id)
    → held k i (with_traffic id b v) ≡ held k i v
traffic_others id b v rule_type_dns i other = refl
traffic_others id b v rule_type_traffic i (inl type) = absurd (type refl)
traffic_others id b v rule_type_traffic i (inr differ) = with_id-differ id i b v.traffic differ

abbrev env-IsPlane : IsPlane env info
env-IsPlane = record {
  holds = held;
  add_dns = λ id r v. with_id-same id true v.dns;
  add_dns_others = λ id r v k i other. dns_others id true v k i other;
  add_traffic = λ id r v. with_id-same id true v.traffic;
  add_traffic_others = λ id r v k i other. traffic_others id true v k i other;
  add_resource = λ d y l n v k i. refl;
}

abbrev nothing : Held
nothing = record { dns = λ i. false; traffic = λ i. false }

abbrev accepted : Store
accepted = (stage_new_task env subs order of_text "app" "task" post false empty).1

-- the task of the request
abbrev task : World Store Held
task = record {
  job = post;
  config = none;
  status = build_task_status order post one_each false;
  store = accepted;
  plane = nothing;
}
