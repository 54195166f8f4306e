-- ===== src/MepServer/Sync/Serving.antt =====
-- mepserver/mm5/task/sync.go: an operation of the state machines that has the rules it needs succeeds
-- where the services do.
use mep.Prelude.{
  ℕ, zero, suc, String, ◌≡◌, ◌⊎◌, refl, ap, ◌∙◌, subst, subst⁻¹, inl, inr, ◌≤◌, ◌<◌, Bool, true,
  false, none, some, List, ◌==◌, leb, if◌then◌else◌, get_elem?_of_lt, arith, Bool-cases,
}
use mep.MepServer.DnsRule.{DnsRule, active_state, inactive_state}
use mep.MepServer.Sync.{
  Config, TrafficRule, RuleType, rule_type_dns, rule_type_traffic, Rule, rule_state, TaskStatus,
  Outcome, done, World, ApplicationInfo, Env, TaskInfo,
}
use mep.MepServer.Sync.Operations.{
  Pointer, Operation, rules_at, deref, activate, call, add_rule, set_rule, delete_rule,
  delete_resource, app_info, add_dns_on_mp2, set_dns_on_mp2, delete_dns_on_mp2,
  add_dns_on_local_dns, set_dns_on_local_dns, delete_dns_on_local_dns, add_traffic_on_mp2,
  set_traffic_on_mp2, delete_traffic_on_mp2,
}
use mep.MepServer.Sync.Rules.{
  Cell, on_mp2, on_local, dns_state_machine, trf_state_machine, cell, apply_of,
}
use mep.MepServer.Sync.Frame.{IsTouched, IsTouched-counts, activate-cases, activate_total}
use mep.MepServer.Sync.Pointers.{IsIn}

-- Services that succeed, and encodings that do.
pub record IsServing {B K V : Type 0} (env : Env B K V) : Type 0 where
  pub put : (p : String) (b : B) (s : K) → (env.registry.put p b s).0 ≡ true
  pub delete : (p : String) (s : K) → (env.registry.delete p s).0 ≡ true
  pub config : (c : Config) → (b : B) × (env.marshal_config c ≡ some b)
  pub status : (st : TaskStatus) → (b : B) × (env.marshal_status st ≡ some b)
  pub add_dns :
      (a : ApplicationInfo) (i : String) (r : DnsRule) (v : V) → (env.add_dns_rule a i r v).0 ≡ true
  pub set_dns :
      (a : ApplicationInfo) (i : String) (r : DnsRule) (v : V) → (env.set_dns_rule a i r v).0 ≡ true
  pub delete_dns : (a : ApplicationInfo) (i : String) (v : V) → (env.delete_dns_rule a i v).0 ≡ true
  pub add_traffic :
      (a : ApplicationInfo) (i : String) (r : TrafficRule) (v : V)
      → (env.add_traffic_rule a i r v).0 ≡ true
  pub set_traffic :
      (a : ApplicationInfo) (i : String) (r : TrafficRule) (v : V)
      → (env.set_traffic_rule a i r v).0 ≡ true
  pub delete_traffic :
      (a : ApplicationInfo) (i : String) (v : V) → (env.delete_traffic_rule a i v).0 ≡ true
  pub add_resource :
      (d y : String) (l : List String) (n : ℕ) (v : V)
      → (env.add_resource_record d y l n v).0 ≡ true
  pub set_resource :
      (d y : String) (l : List String) (n : ℕ) (v : V)
      → (env.set_resource_record d y l n v).0 ≡ true
  pub delete_resource : (d y : String) (v : V) → (env.delete_resource_record d y v).0 ≡ true

module _ {K V : Type 0} where
  pub IsIn-touched :
      (k : RuleType) (q : Pointer) {w w' : World K V} → IsTouched w w' → IsIn k q w → IsIn k q w'
  IsIn-touched k q touched (p, i, e, bound) =
      (p, i, e, subst⁻¹ (λ n. i < n) (IsTouched-counts touched k p) bound)

  -- a rule behind a pointer into a list
  activate-IsIn :
      (k : RuleType) (q : Pointer) (w : World K V)
      → IsIn k q w
      → (r : Rule k) × (w' : World K V) × (activate k q w ≡ some (r, w')) × IsTouched w w'
  activate-IsIn k q w (p, i, e, bound) = elim (activate-cases k q w) [
    | inl nil ↦ absurd (activate_total k p i w bound (subst (λ x. activate k x w ≡ none) e nil))
    | inr (r, w', here, touched, _) ↦ (r, w', here, touched)
  ]

  deref-IsIn :
      (k : RuleType) (q : Pointer) (w : World K V)
      → IsIn k q w
      → (r : Rule k) × (deref k q w ≡ some r)
  unfolding deref
  deref-IsIn k q w (p, i, e, bound) =
      let (r, here) = get_elem?_of_lt (rules_at k p w) i bound in
      (r, ap (λ x. deref k x w) e ∙ here)

  call-done : (f : V → Bool × V) (w : World K V) → ((v : V) → (f v).0 ≡ true) → (call f w).0 ≡ done
  call-done f w ok = rw (ok w.plane) refl

  choice-done :
      (a b : Bool) (f g h : V → Bool × V) (w : World K V)
      → ((v : V) → (f v).0 ≡ true)
      → ((v : V) → (g v).0 ≡ true)
      → ((v : V) → (h v).0 ≡ true)
      → (if a then call f w else if b then call g w else call h w).0 ≡ done
  choice-done true b f g h w f_ok g_ok h_ok = call-done f w f_ok
  choice-done false true f g h w f_ok g_ok h_ok = call-done g w g_ok
  choice-done false false f g h w f_ok g_ok h_ok = call-done h w h_ok

  add_rule-done :
      (k : RuleType) (add : String → Rule k → V → Bool × V) (id : String) (new old : Pointer)
      (w : World K V)
      → ((i : String) (r : Rule k) (v : V) → (add i r v).0 ≡ true)
      → IsIn k new w
      → (add_rule k add id new old w).0 ≡ done
  unfolding add_rule
  add_rule-done k add id new old w ok inside =
      let (r, w1, e, _) = activate-IsIn k new w inside in
      elim (Bool-cases (rule_state k r == active_state)) [
        | inl active ↦ rw (e, add_rule) (rw active (call-done (add id r) w1 (ok id r)))
        | inr inactive ↦ rw (e, add_rule) (rw inactive refl)
      ]

  set_rule-done :
      (k : RuleType) (add delete change : String → Rule k → V → Bool × V) (id : String)
      (new old : Pointer) (w : World K V)
      → ((i : String) (r : Rule k) (v : V) → (add i r v).0 ≡ true)
      → ((i : String) (r : Rule k) (v : V) → (delete i r v).0 ≡ true)
      → ((i : String) (r : Rule k) (v : V) → (change i r v).0 ≡ true)
      → IsIn k new w
      → IsIn k old w
      → (set_rule k add delete change id new old w).0 ≡ done
  unfolding set_rule
  set_rule-done k add delete change id new old w add_ok delete_ok change_ok new_in old_in =
      let (r, w1, e, touched) = activate-IsIn k new w new_in in
      let (x, w2, e2, _) = activate-IsIn k old w1 (IsIn-touched k old touched old_in) in
      rw (e, set_rule)
        (rw e2 (
          choice-done _ _ (add id r) (delete id r) (change id r) w2 (add_ok id r) (delete_ok id r)
            (change_ok id r)))

  delete_rule-done :
      (k : RuleType) (delete : String → World K V → Outcome × World K V) (id : String)
      (old : Pointer) (w : World K V)
      → ((w1 : World K V) → IsTouched w w1 → (delete id w1).0 ≡ done)
      → IsIn k old w
      → (delete_rule k delete id old w).0 ≡ done
  unfolding delete_rule
  delete_rule-done k delete id old w ok inside =
      let (r, w1, e, touched) = activate-IsIn k old w inside in
      elim (Bool-cases (rule_state k r == inactive_state)) [
        | inl inactive ↦ rw (e, delete_rule) (rw inactive refl)
        | inr active ↦ rw (e, delete_rule) (rw active (ok w1 touched))
      ]

module _ {B K V : Type 0} (env : Env B K V) (t : TaskInfo) (ok : IsServing env) where
  -- An operation succeeds where the new rule is there, and the old one if it needs one.
  abbrev pub Succeeds : RuleType → ℕ → Operation K V → Type 0
  Succeeds k method f =
      (id : String) (new old : Pointer) (w : World K V)
      → IsIn k new w
      → (method ≡ 0) ⊎ IsIn k old w
      → (f id new old w).0 ≡ done

  dns_on_mp2-Succeeds :
      (method : ℕ) → Succeeds rule_type_dns method (apply_of env t (on_mp2 env t method))
  unfolding add_dns_on_mp2 set_dns_on_mp2 delete_dns_on_mp2
  dns_on_mp2-Succeeds zero id new old w new_in old_in =
      add_rule-done rule_type_dns _ id new old w (λ i r v. ok.add_dns _ i r v) new_in
  dns_on_mp2-Succeeds (suc zero) id new old w new_in (inr old_in) =
      set_rule-done rule_type_dns _ _ _ id new old w (λ i r v. ok.add_dns _ i r v)
        (λ i r v. ok.delete_dns _ i v) (λ i r v. ok.set_dns _ i r v) new_in old_in
  dns_on_mp2-Succeeds (suc (suc _)) id new old w new_in (inr old_in) =
      delete_rule-done rule_type_dns _ id old w
        (λ w1 _. call-done (env.delete_dns_rule (app_info env t) id) w1 (λ v. ok.delete_dns _ id v))
        old_in
  dns_on_mp2-Succeeds (suc _) id new old w new_in (inl e) = absurd (omega (arith, e))

  dns_on_local-Succeeds :
      (method : ℕ) → Succeeds rule_type_dns method (apply_of env t (on_local env t method))
  unfolding add_dns_on_local_dns set_dns_on_local_dns delete_dns_on_local_dns
  dns_on_local-Succeeds zero id new old w new_in old_in =
      add_rule-done rule_type_dns _ id new old w (λ i r v. ok.add_resource _ _ _ _ v) new_in
  dns_on_local-Succeeds (suc zero) id new old w new_in (inr old_in) =
      set_rule-done rule_type_dns _ _ _ id new old w (λ i r v. ok.add_resource _ _ _ _ v)
        (λ i r v. ok.delete_resource _ _ v) (λ i r v. ok.set_resource _ _ _ _ v) new_in old_in
  dns_on_local-Succeeds (suc (suc _)) id new old w new_in (inr old_in) =
      delete_rule-done rule_type_dns _ id old w
        (λ w1 touched.
          let (r, here) =
            deref-IsIn rule_type_dns new w1 (IsIn-touched rule_type_dns new touched new_in) in
          rw here (call-done (delete_resource env t id r) w1 (λ v. ok.delete_resource _ _ v)))
        old_in
  dns_on_local-Succeeds (suc _) id new old w new_in (inl e) = absurd (omega (arith, e))

  dns_state_machine-Succeeds :
      (method state : ℕ)
      → Succeeds rule_type_dns method (apply_of env t (dns_state_machine env t method state))
  unfolding dns_state_machine
  dns_state_machine-Succeeds method zero id new old w new_in old_in =
      elim (Bool-cases (t.dns_type == "local")) [
        | inl skip ↦ rw (skip, dns_state_machine) refl
        | inr work ↦
            rw (work, dns_state_machine) (dns_on_mp2-Succeeds method id new old w new_in old_in)
      ]
  dns_state_machine-Succeeds method (suc zero) id new old w new_in old_in =
      elim (Bool-cases (t.dns_type == "dataplane")) [
        | inl skip ↦ rw (skip, dns_state_machine) refl
        | inr work ↦
            rw (work, dns_state_machine) (dns_on_local-Succeeds method id new old w new_in old_in)
      ]
  dns_state_machine-Succeeds method (suc (suc _)) id new old w new_in old_in = refl

  trf_state_machine-Succeeds :
      (method state : ℕ)
      → Succeeds rule_type_traffic method (apply_of env t (trf_state_machine env t method state))
  unfolding trf_state_machine add_traffic_on_mp2 set_traffic_on_mp2 delete_traffic_on_mp2
  trf_state_machine-Succeeds zero zero id new old w new_in old_in =
      add_rule-done rule_type_traffic _ id new old w (λ i r v. ok.add_traffic _ i r v) new_in
  trf_state_machine-Succeeds (suc zero) zero id new old w new_in (inr old_in) =
      set_rule-done rule_type_traffic _ _ _ id new old w (λ i r v. ok.add_traffic _ i r v)
        (λ i r v. ok.delete_traffic _ i v) (λ i r v. ok.set_traffic _ i r v) new_in old_in
  trf_state_machine-Succeeds (suc (suc _)) zero id new old w new_in (inr old_in) =
      delete_rule-done rule_type_traffic _ id old w
        (λ w1 _.
          call-done (env.delete_traffic_rule (app_info env t) id) w1
            (λ v. ok.delete_traffic _ id v))
        old_in
  trf_state_machine-Succeeds (suc _) zero id new old w new_in (inl e) = absurd (omega (arith, e))
  trf_state_machine-Succeeds zero (suc _) id new old w new_in old_in = refl
  trf_state_machine-Succeeds (suc _) (suc _) id new old w new_in old_in = refl

  -- A method that the machines know has a cell in each state, and the cell's operation succeeds.
  pub cell-Succeeds :
      (k : RuleType) (method state : ℕ)
      → method ≤ 2
      → (c : Cell K V) × (cell env t k method state ≡ some c) × Succeeds k method (apply_of env t c)
  unfolding cell
  cell-Succeeds rule_type_dns method state h =
      let known : leb method 2 ≡ true = ground arith in
      (dns_state_machine env t method state, rw known refl, dns_state_machine-Succeeds method state)
  cell-Succeeds rule_type_traffic method state h =
      let known : leb method 2 ≡ true = ground arith in
      (trf_state_machine env t method state, rw known refl, trf_state_machine-Succeeds method state)
