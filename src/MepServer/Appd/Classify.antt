-- ===== src/MepServer/Appd/Classify.antt =====
-- mepserver/common/appd/appd.go: what is to be done with each rule of a request.
use mep.Prelude.{
  ℕ, ℤ, pos, negsuc, String, Bool, true, false, ◌&&◌, Option, none, some, List, [], ◌∷◌, ◌++◌, map,
  ◌==◌, eqb, if◌then◌else◌,
}
use mep.MepServer.Backend.{put_entry}
use mep.MepServer.Sync.{
  Config, Slice, DstInterface, TrafficFilter, RuleType, rule_type_dns, rule_type_traffic, Rule,
  rule_id, RuleStatus, TaskStatus, wait_mp2, oper_create, oper_modify, oper_delete, no_termination,
  termination_in_progress,
}

-- `reflect.DeepEqual` on two rules: a nil slice differs from an empty one
abbrev equal_lists : {A : Type 0} → (A → A → Bool) → List A → List A → Bool
equal_lists eq [] [] = true
equal_lists eq (x ∷ xs) (y ∷ ys) = eq x y && equal_lists eq xs ys
equal_lists eq [] (y ∷ ys) = false
equal_lists eq (x ∷ xs) [] = false

abbrev equal_slices : {A : Type 0} → (A → A → Bool) → Slice A → Slice A → Bool
equal_slices eq none none = true
equal_slices eq (some xs) (some ys) = equal_lists eq xs ys
equal_slices eq none (some _) = false
equal_slices eq (some _) none = false

abbrev equal_ints : ℤ → ℤ → Bool
equal_ints (pos m) (pos n) = eqb m n
equal_ints (negsuc m) (negsuc n) = eqb m n
equal_ints (pos _) (negsuc _) = false
equal_ints (negsuc _) (pos _) = false

abbrev equal_texts : Slice String → Slice String → Bool
equal_texts = equal_slices ◌==◌

abbrev equal_interfaces : DstInterface → DstInterface → Bool
equal_interfaces a b =
    a.interface_type == b.interface_type
    && a.tunnel_info.tunnel_type == b.tunnel_info.tunnel_type
    && a.tunnel_info.tunnel_dst_address == b.tunnel_info.tunnel_dst_address
    && a.tunnel_info.tunnel_src_address == b.tunnel_info.tunnel_src_address
    && a.src_mac_address == b.src_mac_address
    && a.dst_mac_address == b.dst_mac_address
    && a.dst_ip_address == b.dst_ip_address

abbrev equal_filters : TrafficFilter → TrafficFilter → Bool
equal_filters a b =
    equal_texts a.src_address b.src_address
    && equal_texts a.dst_address b.dst_address
    && equal_texts a.src_port b.src_port
    && equal_texts a.dst_port b.dst_port
    && equal_texts a.protocol b.protocol
    && equal_texts a.tag b.tag
    && equal_texts a.src_tunnel_address b.src_tunnel_address
    && equal_texts a.tgt_tunnel_address b.tgt_tunnel_address
    && equal_texts a.src_tunnel_port b.src_tunnel_port
    && equal_texts a.dst_tunnel_port b.dst_tunnel_port
    && equal_ints a.qci b.qci
    && equal_ints a.dscp b.dscp
    && equal_ints a.tc b.tc

unfoldable pub deep_equal : (k : RuleType) → Rule k → Rule k → Bool
deep_equal rule_type_dns a b =
    a.dns_rule_id == b.dns_rule_id
    && a.domain_name == b.domain_name
    && a.ip_address_type == b.ip_address_type
    && a.ip_address == b.ip_address
    && eqb a.ttl b.ttl
    && a.state == b.state
deep_equal rule_type_traffic a b =
    a.traffic_rule_id == b.traffic_rule_id
    && a.filter_type == b.filter_type
    && equal_ints a.priority b.priority
    && equal_slices equal_filters a.traffic_filter b.traffic_filter
    && a.action == b.action
    && equal_slices equal_interfaces a.dst_interface b.dst_interface
    && a.state == b.state

abbrev pub status_of : ℕ → String → RuleStatus
status_of method id = record { id = id; state = wait_mp2; method = method }

abbrev pub no_status : TaskStatus
no_status = record {
  progress = pos 0;
  traffic_rule_status_lst = [];
  dns_rule_status_lst = [];
  details = "";
  termination_status = no_termination;
}

-- `handleRuleCreateOrDelete` on an empty status: a status for each rule
abbrev pub statuses_of : (k : RuleType) → ℕ → List (Rule k) → List RuleStatus
statuses_of k method rs = map (λ r. status_of method (rule_id k r)) rs

unfoldable pub handle_rule_create_or_delete : ℕ → Config → TaskStatus
handle_rule_create_or_delete method c = record no_status {
  dns_rule_status_lst = statuses_of rule_type_dns method c.app_dns_rule;
  traffic_rule_status_lst = statuses_of rule_type_traffic method c.app_traffic_rule;
}

-- `ruleData`
pub record RuleData (k : RuleType) : Type 0 where
  pub is_existing_rule : Bool
  pub rule : Rule k

abbrev pub RuleMap : RuleType → Type 0
RuleMap k = List (String × RuleData k)

abbrev pub find_data : (k : RuleType) → String → RuleMap k → Option (RuleData k)
find_data k id [] = none
find_data k id ((j, d) ∷ entries) = if j == id then some d else find_data k id entries

module _ (k : RuleType) where
  abbrev pub entry_of : Bool → Rule k → RuleData k
  entry_of existing r = record { is_existing_rule = existing; rule = r }

  -- the map of the stored rules
  unfoldable pub store_map : List (Rule k) → RuleMap k → RuleMap k
  store_map [] m = m
  store_map (r ∷ rs) m = store_map rs (put_entry (rule_id k r) (entry_of false r) m)

  -- the loop over the rules of the input: the maps of the input and of the stored rules
  unfoldable pub input_maps : List (Rule k) → RuleMap k → RuleMap k → RuleMap k × RuleMap k
  input_maps [] input stored = (input, stored)
  input_maps (r ∷ rs) input stored = elim (find_data k (rule_id k r) stored) [
    | some d ↦
        input_maps rs (put_entry (rule_id k r) (entry_of true r) input)
          (put_entry (rule_id k r) (record d { is_existing_rule = true }) stored)
    | none ↦ input_maps rs (put_entry (rule_id k r) (entry_of false r) input) stored
  ]

  -- `processRulesFromIDMap`: a rule of the input is modified if it is stored and differs, and created
  -- if it is not stored; an entry of the stored rules that is not marked is deleted
  unfoldable pub created_or_modified : RuleMap k → RuleMap k → List RuleStatus
  created_or_modified stored [] = []
  created_or_modified stored ((id, d) ∷ entries) =
      let rest = created_or_modified stored entries in
      elim d.is_existing_rule [
        | false ↦ status_of oper_create id ∷ rest
        | true ↦ elim (find_data k id stored) [
          | none ↦ status_of oper_modify id ∷ rest
          | some old ↦
              if deep_equal k d.rule old.rule then rest else status_of oper_modify id ∷ rest
        ]
      ]

  unfoldable pub deleted : RuleMap k → List RuleStatus
  deleted [] = []
  deleted ((id, d) ∷ entries) =
      let rest = deleted entries in
      if d.is_existing_rule then rest else status_of oper_delete id ∷ rest

  -- `order` is the order in which Go visits a map
  unfoldable pub process_rules_from_id_map :
      (RuleMap k → RuleMap k) → RuleMap k → RuleMap k → List RuleStatus
  process_rules_from_id_map order input stored =
      created_or_modified stored (order input) ++ deleted (order stored)

  unfoldable pub update_statuses :
      (RuleMap k → RuleMap k) → List (Rule k) → List (Rule k) → List RuleStatus
  update_statuses order input on_store =
      let (input_map, marked) = input_maps input [] (store_map on_store []) in
      process_rules_from_id_map order input_map marked

-- `handleRuleUpdate`
unfoldable pub handle_rule_update :
    ((k : RuleType) → RuleMap k → RuleMap k) → Config → Config → TaskStatus
handle_rule_update order input on_store = record no_status {
  dns_rule_status_lst =
      update_statuses rule_type_dns (order rule_type_dns) input.app_dns_rule on_store.app_dns_rule;
  traffic_rule_status_lst =
      update_statuses rule_type_traffic (order rule_type_traffic) input.app_traffic_rule
        on_store.app_traffic_rule;
}

-- `buildTaskStatus`
unfoldable pub build_task_status :
    ((k : RuleType) → RuleMap k → RuleMap k) → Config → Config → Bool → TaskStatus
build_task_status order input in_store terminate_started =
    if input.operation == "POST"
    then handle_rule_create_or_delete oper_create input
    else if input.operation == "DELETE"
    then (if terminate_started
        then record (handle_rule_create_or_delete oper_delete in_store) {
          termination_status = termination_in_progress;
        }
        else handle_rule_create_or_delete oper_delete in_store)
    else if input.operation == "PUT"
    then handle_rule_update order input in_store
    else no_status
