-- ===== src/MepServer/Sync/Operations.antt =====
-- mepserver/mm5/task/sync.go: what is done with one rule at one place. A rule is reached through a
-- pointer into the list of a configuration; a rule without a state is made active there. The tests
-- `existingRule == nil` never succeed, since a nil pointer in an interface is not nil; the use of the
-- pointer behind them panics.
use mep.Prelude.{
  ℕ, suc, String, Bool, ◌&&◌, Option, none, some, List, [], ◌∷◌, ◌==◌, get_elem?, set,
  if◌then◌else◌, Map, empty_map, insert,
}
use mep.MepServer.DnsRule.{DnsRule, active_state, inactive_state, rr_type_of}
use mep.MepServer.Sync.{
  Config, RuleType, rule_type_dns, rule_type_traffic, FuncType, apply_func, revert_func, Rule,
  rule_id, rule_state, with_state, rules, with_rules, Outcome, done, failed, panicked, World,
  ApplicationInfo, Env, TaskInfo,
}

-- the list that a pointer points into
pub data Place : Type 0 where
  in_job in_config : Place

-- a pointer to a rule, `none` for nil
abbrev pub Pointer : Type 0
Pointer = Option (Place × ℕ)

module _ {K V : Type 0} where
  abbrev pub config_at : Place → World K V → Option Config
  config_at in_job w = some w.job
  config_at in_config w = w.config

  abbrev pub with_config_at : Place → Config → World K V → World K V
  with_config_at in_job c w = record w { job = c }
  with_config_at in_config c w = record w { config = some c }

  abbrev pub rules_at : (k : RuleType) → Place → World K V → List (Rule k)
  rules_at k p w = elim (config_at p w) [ none ↦ [] | some c ↦ rules k c ]

  -- the rule behind a pointer; `none` is a panic
  unfoldable pub deref : (k : RuleType) → Pointer → World K V → Option (Rule k)
  deref k none w = none
  deref k (some (p, i)) w = get_elem? (rules_at k p w) i

  abbrev pub put_rule : (k : RuleType) → Place → ℕ → Rule k → World K V → World K V
  put_rule k p i r w = elim (config_at p w) [
    | none ↦ w
    | some c ↦ with_config_at p (with_rules k (set (rules k c) i r) c) w
  ]

  -- `if rule.State == "" { rule.State = util.ActiveState }`: the rule afterwards
  abbrev pub activated : (k : RuleType) → Place → ℕ → Rule k → World K V → Rule k × World K V
  activated k p i r w =
      let active = with_state k active_state r in
      if rule_state k r == "" then (active, put_rule k p i active w) else (r, w)

  -- and through a pointer; `none` is a panic
  unfoldable pub activate : (k : RuleType) → Pointer → World K V → Option (Rule k × World K V)
  activate k none w = none
  activate k (some (p, i)) w = elim (get_elem? (rules_at k p w) i) [
    | none ↦ none
    | some r ↦ some (activated k p i r w)
  ]

-- The maps of a list's rules by their identifiers: a later rule replaces an earlier one, or only
-- identifiers that are not there yet are filled in.
unfoldable pub fill_all :
    (k : RuleType) → Place → ℕ → List (Rule k) → Map (Place × ℕ) → Map (Place × ℕ)
fill_all k p i [] m = m
fill_all k p i (r ∷ rs) m = fill_all k p (suc i) rs (insert (rule_id k r) (p, i) m)

unfoldable pub fill_missing :
    (k : RuleType) → Place → ℕ → List (Rule k) → Map (Place × ℕ) → Map (Place × ℕ)
fill_missing k p i [] m = m
fill_missing k p i (r ∷ rs) m =
    fill_missing k p (suc i) rs
      (elim (m (rule_id k r)) [ none ↦ insert (rule_id k r) (p, i) m | some _ ↦ m ])

abbrev pub primary : FuncType → Place
primary apply_func = in_job
primary revert_func = in_config

abbrev pub secondary : FuncType → Place
secondary apply_func = in_config
secondary revert_func = in_job

-- `generateDnsRuleMap` and `generateTrafficRuleMap`: the new and the old rules
unfoldable pub generate_rule_map :
    {K V : Type 0} → (k : RuleType) → FuncType → World K V → Map (Place × ℕ) × Map (Place × ℕ)
generate_rule_map k func w =
    let first = rules_at k (primary func) w in
    let second = rules_at k (secondary func) w in
    (
      fill_missing k (secondary func) 0 second (fill_all k (primary func) 0 first empty_map),
      fill_all k (secondary func) 0 second empty_map,
    )

-- an entry of the state machines: the rule's identifier, the new and the existing rule
abbrev pub Operation : Type 0 → Type 0 → Type 0
Operation K V = String → Pointer → Pointer → World K V → Outcome × World K V

module _ {K V : Type 0} where
  -- the call of a service; `true` is a nil error
  abbrev pub call : (V → Bool × V) → World K V → Outcome × World K V
  call service w =
      let (ok, s) = service w.plane in ((if ok then done else failed), record w { plane = s })

  unfoldable pub add_rule : (k : RuleType) → (String → Rule k → V → Bool × V) → Operation K V
  add_rule k add id new existing w = elim (activate k new w) [
    | none ↦ (panicked, w)
    | some (r, w1) ↦ if rule_state k r == active_state then call (add id r) w1 else (done, w1)
  ]

  unfoldable pub set_rule :
      (k : RuleType)
      → (String → Rule k → V → Bool × V)
      → (String → Rule k → V → Bool × V)
      → (String → Rule k → V → Bool × V)
      → Operation K V
  set_rule k add delete change id new existing w = elim (activate k new w) [
    | none ↦ (panicked, w)
    | some (r, w1) ↦ elim (activate k existing w1) [
      | none ↦ (panicked, w1)
      | some (old, w2) ↦
          if rule_state k old == inactive_state && rule_state k r == active_state
          then call (add id r) w2
          else if rule_state k old == active_state && rule_state k r == inactive_state
          then call (delete id r) w2
          else call (change id r) w2
    ]
  ]

  unfoldable pub delete_rule :
      (k : RuleType)
      → (String → World K V → Outcome × World K V)
      → String
      → Pointer
      → World K V
      → Outcome × World K V
  delete_rule k delete id existing w = elim (activate k existing w) [
    | none ↦ (panicked, w)
    | some (old, w1) ↦ if rule_state k old == inactive_state then (done, w1) else delete id w1
  ]

module _ {B K V : Type 0} (env : Env B K V) (t : TaskInfo) where
  abbrev pub app_info : ApplicationInfo
  app_info = record { id = t.app_instance_id; name = t.app_name }

  unfoldable pub add_dns_on_mp2 : Operation K V
  add_dns_on_mp2 = add_rule rule_type_dns (env.add_dns_rule app_info)

  unfoldable pub set_dns_on_mp2 : Operation K V
  set_dns_on_mp2 =
      set_rule rule_type_dns (env.add_dns_rule app_info) (λ id r. env.delete_dns_rule app_info id)
        (env.set_dns_rule app_info)

  unfoldable pub delete_dns_on_mp2 : Operation K V
  delete_dns_on_mp2 id new existing =
      delete_rule rule_type_dns (λ i. call (env.delete_dns_rule app_info i)) id existing

  abbrev pub add_resource : String → DnsRule → V → Bool × V
  add_resource id r = env.add_resource_record r.domain_name (rr_type_of r) (r.ip_address ∷ []) r.ttl

  abbrev pub set_resource : String → DnsRule → V → Bool × V
  set_resource id r = env.set_resource_record r.domain_name (rr_type_of r) (r.ip_address ∷ []) r.ttl

  abbrev pub delete_resource : String → DnsRule → V → Bool × V
  delete_resource id r = env.delete_resource_record r.domain_name (rr_type_of r)

  unfoldable pub add_dns_on_local_dns : Operation K V
  add_dns_on_local_dns = add_rule rule_type_dns add_resource

  unfoldable pub set_dns_on_local_dns : Operation K V
  set_dns_on_local_dns = set_rule rule_type_dns add_resource delete_resource set_resource

  -- the name to delete is that of the new rule
  unfoldable pub delete_dns_on_local_dns : Operation K V
  delete_dns_on_local_dns id new existing =
      delete_rule rule_type_dns
        (λ i w. elim (deref rule_type_dns new w) [
          | none ↦ (panicked, w)
          | some r ↦ call (delete_resource i r) w
        ])
        id existing

  unfoldable pub add_traffic_on_mp2 : Operation K V
  add_traffic_on_mp2 = add_rule rule_type_traffic (env.add_traffic_rule app_info)

  unfoldable pub set_traffic_on_mp2 : Operation K V
  set_traffic_on_mp2 =
      set_rule rule_type_traffic (env.add_traffic_rule app_info)
        (λ id r. env.delete_traffic_rule app_info id) (env.set_traffic_rule app_info)

  unfoldable pub delete_traffic_on_mp2 : Operation K V
  delete_traffic_on_mp2 id new existing =
      delete_rule rule_type_traffic (λ i. call (env.delete_traffic_rule app_info i)) id existing
