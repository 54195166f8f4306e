-- ===== src/MepServer/Sync/Cells.antt =====
-- mepserver/mm5/task/sync.go: what the operations of the state machines leave alone.
use mep.Prelude.{
  ℕ, zero, suc, String, ◌≡◌, subst, inl, inr, none, some, ◌==◌, leb, Bool-cases, Option-cases,
}
use mathlib.Core.Option.{some-injective}
use mep.MepServer.Sync.{RuleType, rule_type_dns, rule_type_traffic, World, Env, TaskInfo}
use mep.MepServer.Sync.Operations.{
  Pointer, Operation, app_info, delete_resource, deref, add_dns_on_mp2, set_dns_on_mp2,
  delete_dns_on_mp2, add_dns_on_local_dns, set_dns_on_local_dns, delete_dns_on_local_dns,
  add_traffic_on_mp2, set_traffic_on_mp2, delete_traffic_on_mp2,
}
use mep.MepServer.Sync.Rules.{
  Cell, on_mp2, on_local, dns_state_machine, trf_state_machine, cell, apply_of, revert_of,
}
use mep.MepServer.Sync.Frame.{
  IsTouched, IsTouched-refl, call-IsTouched, add_rule-IsTouched, set_rule-IsTouched,
  delete_rule-IsTouched,
}

module _ {B K V : Type 0} (env : Env B K V) (t : TaskInfo) where
  abbrev Touches : Operation K V → Type 0
  Touches f = (id : String) (new old : Pointer) (w : World K V) → IsTouched w (f id new old w).1

  abbrev CellTouches : Cell K V → Type 0
  CellTouches none = Unit
  CellTouches (some o) = Touches o.apply × Touches o.revert

  delete_dns_on_mp2-Touches : Touches (delete_dns_on_mp2 env t)
  unfolding delete_dns_on_mp2
  delete_dns_on_mp2-Touches id new old w =
      delete_rule-IsTouched rule_type_dns _ id old w
        (λ w1. call-IsTouched (env.delete_dns_rule (app_info env t) id) w1)

  delete_traffic_on_mp2-Touches : Touches (delete_traffic_on_mp2 env t)
  unfolding delete_traffic_on_mp2
  delete_traffic_on_mp2-Touches id new old w =
      delete_rule-IsTouched rule_type_traffic _ id old w
        (λ w1. call-IsTouched (env.delete_traffic_rule (app_info env t) id) w1)

  delete_dns_on_local_dns-Touches : Touches (delete_dns_on_local_dns env t)
  unfolding delete_dns_on_local_dns
  delete_dns_on_local_dns-Touches id new old w =
      delete_rule-IsTouched rule_type_dns _ id old w (λ w1.
        elim (Option-cases (deref rule_type_dns new w1)) [
          | inl nil ↦ rw nil (IsTouched-refl w1)
          | inr (r, here) ↦ rw here (call-IsTouched (delete_resource env t id r) w1)
        ])

  dns_on_mp2-Touches : Touches (add_dns_on_mp2 env t) × Touches (set_dns_on_mp2 env t)
  unfolding add_dns_on_mp2 set_dns_on_mp2
  dns_on_mp2-Touches = (
    λ id new old w. add_rule-IsTouched rule_type_dns _ id new old w,
    λ id new old w. set_rule-IsTouched rule_type_dns _ _ _ id new old w,
  )

  dns_on_local-Touches : Touches (add_dns_on_local_dns env t) × Touches (set_dns_on_local_dns env t)
  unfolding add_dns_on_local_dns set_dns_on_local_dns
  dns_on_local-Touches = (
    λ id new old w. add_rule-IsTouched rule_type_dns _ id new old w,
    λ id new old w. set_rule-IsTouched rule_type_dns _ _ _ id new old w,
  )

  traffic-Touches : Touches (add_traffic_on_mp2 env t) × Touches (set_traffic_on_mp2 env t)
  unfolding add_traffic_on_mp2 set_traffic_on_mp2
  traffic-Touches = (
    λ id new old w. add_rule-IsTouched rule_type_traffic _ id new old w,
    λ id new old w. set_rule-IsTouched rule_type_traffic _ _ _ id new old w,
  )

  dns_state_machine-Touches :
      (method state : ℕ) → CellTouches (dns_state_machine env t method state)
  unfolding dns_state_machine
  dns_state_machine-Touches method zero = elim (Bool-cases (t.dns_type == "local")) [
    | inl skip ↦ rw (skip, dns_state_machine) tt
    | inr work ↦ rw (work, dns_state_machine) (mp2 method)
  ]
    where
      mp2 : (method : ℕ) → CellTouches (on_mp2 env t method)
      mp2 zero = (dns_on_mp2-Touches.0, delete_dns_on_mp2-Touches)
      mp2 (suc zero) = (dns_on_mp2-Touches.1, dns_on_mp2-Touches.1)
      mp2 (suc (suc _)) = (delete_dns_on_mp2-Touches, dns_on_mp2-Touches.0)
  dns_state_machine-Touches method (suc zero) = elim (Bool-cases (t.dns_type == "dataplane")) [
    | inl skip ↦ rw (skip, dns_state_machine) tt
    | inr work ↦ rw (work, dns_state_machine) (local method)
  ]
    where
      local : (method : ℕ) → CellTouches (on_local env t method)
      local zero = (dns_on_local-Touches.0, delete_dns_on_local_dns-Touches)
      local (suc zero) = (dns_on_local-Touches.1, dns_on_local-Touches.1)
      local (suc (suc _)) = (delete_dns_on_local_dns-Touches, dns_on_local-Touches.0)
  dns_state_machine-Touches method (suc (suc _)) = tt

  trf_state_machine-Touches :
      (method state : ℕ) → CellTouches (trf_state_machine env t method state)
  unfolding trf_state_machine
  trf_state_machine-Touches zero zero = (traffic-Touches.0, delete_traffic_on_mp2-Touches)
  trf_state_machine-Touches (suc zero) zero = (traffic-Touches.1, traffic-Touches.1)
  trf_state_machine-Touches (suc (suc _)) zero = (delete_traffic_on_mp2-Touches, traffic-Touches.0)
  trf_state_machine-Touches method (suc _) = tt

  Touches-of :
      (c : Cell K V) → CellTouches c → Touches (apply_of env t c) × Touches (revert_of env t c)
  Touches-of none _ = (λ id new old w. IsTouched-refl w, λ id new old w. IsTouched-refl w)
  Touches-of (some o) h = h

  -- Applying or reverting a cell of a state machine touches the rules and the services only.
  pub cell-Touches :
      (k : RuleType) (method state : ℕ) {c : Cell K V}
      → cell env t k method state ≡ some c
      → Touches (apply_of env t c) × Touches (revert_of env t c)
  unfolding cell
  cell-Touches rule_type_dns method state h = elim (Bool-cases (leb method 2)) [
    | inl known ↦
        let e = some-injective _ _ (rw known at h) in
        Touches-of _ (subst CellTouches e (dns_state_machine-Touches method state))
    | inr unknown ↦ let bad = rw unknown at h in cc
  ]
  cell-Touches rule_type_traffic method state h = elim (Bool-cases (leb method 2)) [
    | inl known ↦
        let e = some-injective _ _ (rw known at h) in
        Touches-of _ (subst CellTouches e (trf_state_machine-Touches method state))
    | inr unknown ↦ let bad = rw unknown at h in cc
  ]
