-- ===== src/MepServer/Sync/Plane.antt =====
-- mepserver/mm5/task/sync.go: what the work on a created rule does to the data plane.
use mep.Prelude.{
  ℕ, zero, suc, String, ◌≡◌, ◌≢◌, ◌⊎◌, refl, ap, sym, ◌∙◌, subst⁻¹, inl, inr, Bool, true, false,
  some, List, [], ◌∷◌, ◌==◌, map, all, length, get_elem?, get_elem?_of_lt, arith, Bool-cases,
  Option-cases,
}
use mep.MepServer.DnsRule.{DnsRule, active_state}
use mathlib.Core.Option.{some-injective}
use mep.MepServer.Sync.{
  Config, RuleType, rule_type_dns, rule_type_traffic, Rule, rules, rule_state, RuleStatus, statuses,
  TrafficRule, World, Env, TaskInfo,
}
use mep.MepServer.Sync.Status.{
  push_status, count_up, set_state, search_rule, set_found, set_state_and_progress,
}
use mep.MepServer.Sync.Operations.{
  Place, in_job, in_config, Pointer, rules_at, activated, activate, add_rule, app_info,
  add_resource, add_dns_on_mp2, add_dns_on_local_dns, add_traffic_on_mp2,
}
use mep.MepServer.Sync.Rules.{Cell, cell, apply_of, dns_state_machine, trf_state_machine, move_on}
use mep.MepServer.Sync.Frame.{activated-IsTouched, normal, normal_config, same_ids-counts}
use mep.MepServer.Sync.Pointers.{IsIn}
use mep.MepServer.Sync.Total.{IsAlike}

-- What a data plane holds of the application: adding a rule puts it there and leaves the others, and the
-- DNS server is apart.
pub record IsPlane {B K V : Type 0} (env : Env B K V) (t : TaskInfo) : Type 0 where
  pub holds : RuleType → String → V → Bool
  pub add_dns :
      (id : String) (r : DnsRule) (v : V)
      → holds rule_type_dns id (env.add_dns_rule (app_info env t) id r v).1 ≡ true
  pub add_dns_others :
      (id : String) (r : DnsRule) (v : V) (k : RuleType) (i : String)
      → (k ≢ rule_type_dns) ⊎ (i ≢ id)
      → holds k i (env.add_dns_rule (app_info env t) id r v).1 ≡ holds k i v
  pub add_traffic :
      (id : String) (r : TrafficRule) (v : V)
      → holds rule_type_traffic id (env.add_traffic_rule (app_info env t) id r v).1 ≡ true
  pub add_traffic_others :
      (id : String) (r : TrafficRule) (v : V) (k : RuleType) (i : String)
      → (k ≢ rule_type_traffic) ⊎ (i ≢ id)
      → holds k i (env.add_traffic_rule (app_info env t) id r v).1 ≡ holds k i v
  pub add_resource :
      (d y : String) (l : List String) (n : ℕ) (v : V) (k : RuleType) (i : String)
      → holds k i (env.add_resource_record d y l n v).1 ≡ holds k i v

-- a status to create a rule, as it is staged
abbrev pub to_create : String → RuleStatus
to_create id = record { id = id; state = 0; method = 0 }

-- every rule is active, or without a state
abbrev pub are_active : (k : RuleType) → Config → Bool
are_active k c = all (λ r. rule_state k r == active_state) (rules k (normal_config c))

active_at :
    (k : RuleType) (rs : List (Rule k)) (i : ℕ) {r : Rule k}
    → all (λ x. rule_state k x == active_state) (map (normal k) rs) ≡ true
    → get_elem? rs i ≡ some r
    → (rule_state k (normal k r) == active_state) ≡ true
active_at k [] i h e = cc
active_at k (x ∷ xs) zero {r} h e =
    ap (λ y. rule_state k (normal k y) == active_state) (sym (some-injective _ _ e)) ∙ ground arith
active_at k (x ∷ xs) (suc i) {r} h e = active_at k xs i (ground arith) e

rules-normal_config :
    (k : RuleType) (c : Config) → rules k (normal_config c) ≡ map (normal k) (rules k c)
rules-normal_config rule_type_dns c = refl
rules-normal_config rule_type_traffic c = refl

module _ {K V : Type 0} where
  -- a world in which all rules of a type stand in the job, and are active
  abbrev pub IsCreating : (k : RuleType) → World K V → Type 0
  IsCreating k w = (are_active k w.job ≡ true) × (length (rules_at k in_config w) ≡ 0)

  pub IsCreating-alike :
      (k : RuleType) (w w' : World K V) → IsAlike w w' → IsCreating k w → IsCreating k w'
  IsCreating-alike k w w' alike (active, empty) = (
    ap (λ c. all (λ r. rule_state k r == active_state) (rules k c)) alike.job ∙ active,
    same_ids-counts k _ _ (alike.rule_ids k in_config) ∙ empty,
  )

  activated-normal :
      (k : RuleType) (p : Place) (i : ℕ) (r : Rule k) (w : World K V)
      → ((activated k p i r w).0 ≡ normal k r)
  activated-normal k p i r w = elim (Bool-cases (rule_state k r == "")) [
    | inl empty ↦ rw empty refl
    | inr given ↦ rw given refl
  ]

  -- a pointer to a rule that is made active
  activate-active :
      (k : RuleType) (q : Pointer) (w : World K V)
      → IsCreating k w
      → IsIn k q w
      → (r : Rule k) × (w' : World K V) × (activate k q w ≡ some (r, w'))
        × ((rule_state k r == active_state) ≡ true)
        × (w'.plane ≡ w.plane)
  unfolding activate
  activate-active k q w creating (in_config, i, e, bound) =
      absurd (omega (arith, creating.1, bound))
  activate-active k q w creating (in_job, i, e, bound) =
      let (x, here) = get_elem?_of_lt (rules_at k in_job w) i bound in
      let active : (rule_state k (normal k x) == active_state) ≡ true =
        active_at k (rules k w.job) i
          (ap (all (λ r. rule_state k r == active_state)) (sym (rules-normal_config k w.job))
            ∙ creating.0)
          here in
      (
        (activated k in_job i x w).0,
        (activated k in_job i x w).1,
        ap (λ y. activate k y w) e ∙ (rw (here, activate) refl),
        ap (λ y. rule_state k y == active_state) (activated-normal k in_job i x w) ∙ active,
        (activated-IsTouched k in_job i x w here).1,
      )

  -- a rule that is added is passed to the service
  add_rule-active :
      (k : RuleType) (add : String → Rule k → V → Bool × V) (id : String) (new old : Pointer)
      (w : World K V)
      → IsCreating k w
      → IsIn k new w
      → (r : Rule k) × ((add_rule k add id new old w).1.plane ≡ (add id r w.plane).1)
  unfolding add_rule
  add_rule-active k add id new old w creating inside =
      let (r, w', e, active, same) = activate-active k new w creating inside in
      (r, rw (e, add_rule) (rw active (ap (λ v. (add id r v).1) same)))

module _ {B K V : Type 0} (env : Env B K V) (t : TaskInfo) (p : IsPlane env t) where
  set_state-plane :
      (k : RuleType) (id : String) (state : ℕ) (w : World K V)
      → (set_state_and_progress env t k id state w).1.plane ≡ w.plane
  unfolding set_state_and_progress set_found
  set_state-plane k id state w = elim (Option-cases (search_rule id 0 (statuses k w.status))) [
    | inl missing ↦ rw (missing, set_state_and_progress) refl
    | inr ((i, rs), found) ↦ rw (found, set_state_and_progress) (found_plane i rs)
  ]
    where
      found_plane : (i : ℕ) (rs : RuleStatus) → (set_found env t k i rs state w).1.plane ≡ w.plane
      found_plane i rs =
          elim (Bool-cases
            (push_status env t (count_up state (set_state k i rs state w.status)) w.store).0) [
              | inl ok ↦ rw (ok, set_found) refl
              | inr bad ↦ rw (bad, set_found) refl
            ]

  pub move_on-plane :
      (k : RuleType) (id text : String) (state : ℕ) (w : World K V)
      → (move_on env t k id text state w).1.plane ≡ w.plane
  unfolding move_on
  move_on-plane k id text state w =
      elim (Bool-cases (set_state_and_progress env t k id state w).0) [
        | inl ok ↦ rw (ok, move_on) (set_state-plane k id state w)
        | inr bad ↦ rw (bad, move_on) (set_state-plane k id state w)
      ]

  -- the data plane before and after: a rule has come to it, or none; others are left
  abbrev pub IsOthers : RuleType → String → V → V → Type 0
  IsOthers k id v v' =
      (j : RuleType) (i : String) → (j ≢ k) ⊎ (i ≢ id) → p.holds j i v' ≡ p.holds j i v

  abbrev pub IsAdded : RuleType → String → V → V → Type 0
  IsAdded k id v v' = (p.holds k id v' ≡ true) × IsOthers k id v v'

  -- the two cells of a rule that is created; DNS rules are not only for the local server
  abbrev pub first_cell : RuleType → Cell K V
  first_cell rule_type_dns = dns_state_machine env t 0 0
  first_cell rule_type_traffic = trf_state_machine env t 0 0

  pub first_cell-IsAdded :
      (k : RuleType) (id : String) (new old : Pointer) (w : World K V)
      → (t.dns_type == "local") ≡ false
      → IsCreating k w
      → IsIn k new w
      → IsAdded k id w.plane (apply_of env t (first_cell k) id new old w).1.plane
  unfolding dns_state_machine trf_state_machine add_dns_on_mp2 add_traffic_on_mp2
  first_cell-IsAdded rule_type_dns id new old w remote creating inside =
      let (r, e) =
        add_rule-active rule_type_dns (env.add_dns_rule (app_info env t)) id new old w creating
          inside in
      rw (remote, dns_state_machine)
        (subst⁻¹ (IsAdded rule_type_dns id w.plane) e
          (p.add_dns id r w.plane, λ j i other. p.add_dns_others id r w.plane j i other))
  first_cell-IsAdded rule_type_traffic id new old w remote creating inside =
      let (r, e) =
        add_rule-active rule_type_traffic (env.add_traffic_rule (app_info env t)) id new old w
          creating inside in
      subst⁻¹ (IsAdded rule_type_traffic id w.plane) e
        (p.add_traffic id r w.plane, λ j i other. p.add_traffic_others id r w.plane j i other)

  abbrev pub second_cell : RuleType → Cell K V
  second_cell rule_type_dns = dns_state_machine env t 0 1
  second_cell rule_type_traffic = trf_state_machine env t 0 1

  pub second_cell-same :
      (k : RuleType) (id : String) (new old : Pointer) (w : World K V)
      → IsCreating k w
      → IsIn k new w
      → (j : RuleType) (i : String)
      → p.holds j i (apply_of env t (second_cell k) id new old w).1.plane ≡ p.holds j i w.plane
  unfolding dns_state_machine trf_state_machine add_dns_on_local_dns
  second_cell-same rule_type_dns id new old w creating inside j i =
      let (r, e) =
        add_rule-active rule_type_dns (add_resource env t) id new old w creating inside in
      elim (Bool-cases (t.dns_type == "dataplane")) [
        | inl skip ↦ rw (skip, dns_state_machine) refl
        | inr work ↦
            rw (work, dns_state_machine) (ap (p.holds j i) e ∙ p.add_resource _ _ _ _ w.plane j i)
      ]
  second_cell-same rule_type_traffic id new old w creating inside j i = refl

  abbrev pub cell_at : RuleType → ℕ → Cell K V
  cell_at rule_type_dns state = dns_state_machine env t 0 state
  cell_at rule_type_traffic state = trf_state_machine env t 0 state

  pub cell-cell_at : (k : RuleType) (state : ℕ) → cell env t k 0 state ≡ some (cell_at k state)
  unfolding cell
  cell-cell_at rule_type_dns state = refl
  cell-cell_at rule_type_traffic state = refl
