-- ===== src/MepServer/Sync/Rules.antt =====
-- mepserver/mm5/task/sync.go: the state machines of `newTask`, and the loops that run them over the
-- rules of a task. The loops walk over the statuses that the list had at their start: the work on one
-- status changes only the first status with its identifier, which is not behind it.
use mep.Prelude.{
  ℕ, zero, suc, ◌+◌, ◌-◌, String, Option, none, some, List, [], ◌∷◌, ◌==◌, ltb, leb, eqb,
  if◌then◌else◌, Map,
}
use mep.MepServer.Sync.{
  RuleType, rule_type_dns, rule_type_traffic, FuncType, apply_func, revert_func, RuleStatus,
  statuses, Outcome, done, failed, panicked, World, Env, TaskInfo, wait_mp2, wait_local,
}
use mep.MepServer.Sync.Status.{set_failure_reason, set_state_and_progress}
use mep.MepServer.Sync.Operations.{
  Place, Pointer, Operation, generate_rule_map, add_dns_on_mp2, set_dns_on_mp2, delete_dns_on_mp2,
  add_dns_on_local_dns, set_dns_on_local_dns, delete_dns_on_local_dns, add_traffic_on_mp2,
  set_traffic_on_mp2, delete_traffic_on_mp2,
}

pub record RuleOperation (K V : Type 0) : Type 0 where
  pub apply : Operation K V
  pub revert : Operation K V

-- a cell of a state machine; `none` is nil
abbrev pub Cell : Type 0 → Type 0 → Type 0
Cell K V = Option (RuleOperation K V)

abbrev operation : {K V : Type 0} → Operation K V → Operation K V → Cell K V
operation apply revert = some (record { apply = apply; revert = revert })

-- the texts of the failures, by the type of the rule
abbrev pub apply_failed : RuleType → String
apply_failed rule_type_dns = "Failed in configuring dns rule on remote dns-server/data-plane."
apply_failed rule_type_traffic = "Failed in configuring traffic rule on remote data-plane."

abbrev pub apply_status_failed : RuleType → String
apply_status_failed rule_type_dns = "Failed in setting status for dns rule."
apply_status_failed rule_type_traffic = "Failed in setting status for traffic rule."

abbrev pub revert_failed : RuleType → String
revert_failed rule_type_dns = "Failed in reverting dns rule on remote dns-server/data-plane."
revert_failed rule_type_traffic = "Failed in reverting traffic rule on remote data-plane."

abbrev pub revert_status_failed : RuleType → String
revert_status_failed rule_type_dns = "Failed in setting status for dns rule revert."
revert_status_failed rule_type_traffic = "Failed in setting status for traffic rule revert."

-- A call and what follows it if it returned nil; an error is noted, or only passed on.
abbrev pub after_call :
    {K V : Type 0}
    → String
    → (World K V → Outcome × World K V)
    → Outcome × World K V
    → Outcome × World K V
after_call text next (done, w) = next w
after_call text next (failed, w) = (failed, set_failure_reason text w)
after_call text next (panicked, w) = (panicked, w)

abbrev pub then_on :
    {K V : Type 0} → Outcome × World K V → (World K V → Outcome × World K V) → Outcome × World K V
then_on (done, w) next = next w
then_on (failed, w) next = (failed, w)
then_on (panicked, w) next = (panicked, w)

module _ {B K V : Type 0} (env : Env B K V) (t : TaskInfo) where
  abbrev pub on_mp2 : ℕ → Cell K V
  on_mp2 zero = operation (add_dns_on_mp2 env t) (delete_dns_on_mp2 env t)
  on_mp2 (suc zero) = operation (set_dns_on_mp2 env t) (set_dns_on_mp2 env t)
  on_mp2 _ = operation (delete_dns_on_mp2 env t) (add_dns_on_mp2 env t)

  abbrev pub on_local : ℕ → Cell K V
  on_local zero = operation (add_dns_on_local_dns env t) (delete_dns_on_local_dns env t)
  on_local (suc zero) = operation (set_dns_on_local_dns env t) (set_dns_on_local_dns env t)
  on_local _ = operation (delete_dns_on_local_dns env t) (add_dns_on_local_dns env t)

  -- `dnsStateMachine` and `trfStateMachine` before the last state: a method, a state
  unfoldable pub dns_state_machine : ℕ → ℕ → Cell K V
  dns_state_machine method zero = if t.dns_type == "local" then none else on_mp2 method
  dns_state_machine method (suc zero) = if t.dns_type == "dataplane" then none else on_local method
  dns_state_machine method _ = none

  unfoldable pub trf_state_machine : ℕ → ℕ → Cell K V
  trf_state_machine zero zero = operation (add_traffic_on_mp2 env t) (delete_traffic_on_mp2 env t)
  trf_state_machine (suc zero) zero =
      operation (set_traffic_on_mp2 env t) (set_traffic_on_mp2 env t)
  trf_state_machine (suc (suc _)) zero =
      operation (delete_traffic_on_mp2 env t) (add_traffic_on_mp2 env t)
  trf_state_machine method (suc _) = none

  -- the cell of a type's machine; an unknown method is an index out of range, `none`
  unfoldable pub cell : RuleType → ℕ → ℕ → Option (Cell K V)
  cell rule_type_dns method state =
      if leb method 2 then some (dns_state_machine method state) else none
  cell rule_type_traffic method state =
      if leb method 2 then some (trf_state_machine method state) else none

  abbrev pub apply_of : Cell K V → Operation K V
  apply_of none id new old w = (done, w)
  apply_of (some o) id new old w = o.apply id new old w

  abbrev pub revert_of : Cell K V → Operation K V
  revert_of none id new old w = (done, w)
  revert_of (some o) id new old w = o.revert id new old w

  -- the next state of a rule is set
  unfoldable pub move_on : RuleType → String → String → ℕ → World K V → Outcome × World K V
  move_on k id status_text state w =
      let (ok, w') = set_state_and_progress env t k id state w in
      if ok then (done, w') else (failed, set_failure_reason status_text w')

  -- a round of the loop of `processDNSEntryApply` and `processTrfEntryApply`
  unfoldable pub apply_state :
      RuleType → Pointer → Pointer → RuleStatus → ℕ → World K V → Outcome × World K V
  apply_state k new old rs state w = elim (cell k rs.method state) [
    | none ↦ (panicked, w)
    | some c ↦
        if ltb state rs.state
        then (done, w)
        else after_call (apply_failed k) (move_on k rs.id (apply_status_failed k) (state + 1))
            (apply_of c rs.id new old w)
  ]

  -- a round of the loop of `processDNSEntryRevert` and `processTrfEntryRevert`
  unfoldable pub revert_state :
      RuleType → Pointer → Pointer → RuleStatus → ℕ → World K V → Outcome × World K V
  revert_state k new old rs state w = elim (cell k rs.method state) [
    | none ↦ (panicked, w)
    | some c ↦
        if leb rs.state state
        then (done, w)
        else after_call (revert_failed k)
            (λ w'.
              if eqb state wait_mp2
              then (done, w')
              else move_on k rs.id (revert_status_failed k) (state - 1) w')
            (revert_of c rs.id new old w)
  ]

  unfoldable pub process_entry_apply :
      RuleType → Pointer → Pointer → RuleStatus → World K V → Outcome × World K V
  process_entry_apply k new old rs w =
      then_on (apply_state k new old rs wait_mp2 w) (apply_state k new old rs wait_local)

  unfoldable pub process_entry_revert :
      RuleType → Pointer → Pointer → RuleStatus → World K V → Outcome × World K V
  process_entry_revert k new old rs w =
      then_on (revert_state k new old rs wait_local w) (revert_state k new old rs wait_mp2)

  abbrev pub process_entry :
      FuncType → RuleType → Pointer → Pointer → RuleStatus → World K V → Outcome × World K V
  process_entry apply_func = process_entry_apply
  process_entry revert_func = process_entry_revert

  -- the loop of `handleDNSRules` and `handleTrafficRules` with the maps of the new and the old rules
  unfoldable pub handle_loop :
      RuleType
      → FuncType
      → Map (Place × ℕ)
      → Map (Place × ℕ)
      → List RuleStatus
      → World K V
      → Outcome × World K V
  handle_loop k func new old [] w = (done, w)
  handle_loop k func new old (rs ∷ rss) w =
      after_call "Internal error(invalid function type)." (handle_loop k func new old rss)
        (process_entry func k (new rs.id) (old rs.id) rs w)

  unfoldable pub handle_rules : RuleType → FuncType → World K V → Outcome × World K V
  handle_rules k func w =
      let (new, old) = generate_rule_map k func w in
      handle_loop k func new old (statuses k w.status) w
