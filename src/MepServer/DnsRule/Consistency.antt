-- ===== src/MepServer/DnsRule/Consistency.antt =====
-- mepserver/mp1/plans/dns_one_update.go: after an update the configuration store, the DNS server and the
-- data plane agree on the state of the rule.
use mep.Prelude.{
  ℕ, String, ◌≡◌, ◌≢◌, ◌⊎◌, refl, ap, sym, ◌∙◌, subst⁻¹, inl, inr, Bool, true, false, ◌||◌, not,
  Option, none, some, ◌==◌, eq_iff, eqb, arith, Bool-cases, Option-cases,
}
use mep.MepServer.DnsRule.{
  DnsRule, AppDConfig, Env, DnsRuleUpdate, Verdict, done, active_state, inactive_state, config_path,
  with_state, with_rule_state, rr_type_of, validate_inputs, update_on_data_store, apply_to_dns,
  revert_dns, change_rule, change_state, update_to_remote_server,
}
use mep.MepServer.DnsRule.Services.{
  IsEnv, store_ok, store_err, store_frame, dns_frame, revert_ruled, rule_frame, plane_ok, plane_err,
}

module _ {R B S : Type 0} (env : Env R B S) (law : IsEnv env) where
  -- The three services agree that the rule has a state.
  pub record IsAgreed (t : DnsRuleUpdate) (c : AppDConfig R) (i : ℕ) (rule : DnsRule) (st : String)
      (s : S) : Type 0 where
    pub bytes : B
    pub marshalled : env.marshal (with_rule_state i rule st c) ≡ some bytes
    pub stored : law.config_at s (config_path t.app_instance_id) ≡ some bytes
    pub resolved : law.resolved s rule.domain_name (rr_type_of rule) ≡ (st == active_state)
    pub ruled : law.ruled s t.app_instance_id t.dns_rule_id ≡ (st == active_state)

  -- The writes that undo a failed update do their work.
  pub record IsRevertible (t : DnsRuleUpdate) (c : AppDConfig R) (i : ℕ) (rule : DnsRule)
      : Type 0 where
    pub store :
        (s : S)
        → (update_on_data_store env t.app_instance_id (with_rule_state i rule rule.state c) s).0 ≡ 0
    pub dns :
        (st : String) (s : S)
        → law.resolved (revert_dns env st (with_state st rule) s) rule.domain_name (rr_type_of rule)
          ≡ not (st == active_state)

  abbrev pub IsSettled : DnsRuleUpdate → AppDConfig R → ℕ → DnsRule → String → Verdict → S → Type 0
  IsSettled t c i rule st v s =
      ((x : DnsRule) × (tag : Option String) × (v ≡ done x tag) × IsAgreed t c i rule st s)
      ⊎ (((x : DnsRule) → (tag : Option String) → v ≢ done x tag)
          × IsAgreed t c i rule rule.state s)

  -- the old state is agreed on once its configuration is written back
  reverted-IsAgreed :
      (t : DnsRuleUpdate) (c : AppDConfig R) (i : ℕ) (rule : DnsRule) (s : S)
      → IsRevertible t c i rule
      → law.resolved s rule.domain_name (rr_type_of rule) ≡ (rule.state == active_state)
      → law.ruled s t.app_instance_id t.dns_rule_id ≡ (rule.state == active_state)
      → IsAgreed t c i rule rule.state
          (update_on_data_store env t.app_instance_id (with_rule_state i rule rule.state c) s).2
  reverted-IsAgreed t c i rule s r names rules =
      let old = with_rule_state i rule rule.state c in
      let (b, marshalled, stored) = store_ok env law t.app_instance_id old s (r.store s) in
      let (same_names, same_rules) = store_frame env law t.app_instance_id old s in
      record {
        bytes = b;
        marshalled = marshalled;
        stored = stored;
        resolved = ap (λ f. f rule.domain_name (rr_type_of rule)) same_names ∙ names;
        ruled = ap (λ f. f t.app_instance_id t.dns_rule_id) same_rules ∙ rules;
      }

  change_state-IsSettled :
      (t : DnsRuleUpdate) (c : AppDConfig R) (i : ℕ) (rule : DnsRule) (st : String) (s : S)
      → IsRevertible t c i rule
      → (rule.state == active_state) ≡ not (st == active_state)
      → IsAgreed t c i rule rule.state s
      → IsSettled t c i rule st
          (change_state env t c i rule st s).0
          (change_state env t c i rule st s).1
  unfolding change_state
  change_state-IsSettled t c i rule st s r flips agreed =
      let app = t.app_instance_id in
      let new_rule = with_state st rule in
      let new = with_rule_state i rule st c in
      let s1 = (update_on_data_store env app new s).2 in
      let (names1, rules1) = store_frame env law app new s in
      let s2 = (apply_to_dns env st new_rule s1).1 in
      let (config2, rules2, dns_done, dns_failed) = dns_frame env law st new_rule s1 in
      let s3 = (change_rule env t c.app_name st new_rule s2).1 in
      let (config3, names3, rule_done, rule_failed) =
        rule_frame env law t c.app_name st new_rule s2 in
      let at_name = λ (f : String → String → Bool). f rule.domain_name (rr_type_of rule) in
      let at_rule = λ (f : String → String → Bool). f app t.dns_rule_id in
      elim (Bool-cases (eqb (update_on_data_store env app new s).0 0)) [
        | inr unsaved ↦
            let same = store_err env law app new s (ground arith) in
            rw (unsaved, change_state)
              (inr (λ x tag e. ground arith, subst⁻¹ (IsAgreed t c i rule rule.state) same agreed))
        | inl saved ↦ elim (Bool-cases (apply_to_dns env st new_rule s1).0) [
          | inr no_dns ↦
              let same = dns_failed no_dns in
              rw (saved, change_state)
                (rw no_dns (
                  inr (
                    λ x tag e. ground arith,
                    reverted-IsAgreed t c i rule s2 r
                        (ap (λ z. at_name (law.resolved z)) same
                          ∙ ap at_name names1
                          ∙ agreed.resolved)
                        (ap at_rule rules2 ∙ ap at_rule rules1 ∙ agreed.ruled),
                  )))
          | inl dns ↦ elim (Bool-cases (change_rule env t c.app_name st new_rule s2).0) [
            | inl ruled ↦
                let (b, marshalled, stored) = store_ok env law app new s (ground arith) in
                let plane = plane_ok env law t c.app_name st new_rule s2 ruled in
                rw (saved, change_state)
                  (rw dns (
                    rw plane (
                      rw plane (
                        inl (
                          _,
                          _,
                          refl,
                          record {
                            bytes = b;
                            marshalled = marshalled;
                            stored = ap (λ f. f (config_path app)) (config3 ∙ config2) ∙ stored;
                            resolved = ap at_name names3 ∙ dns_done dns;
                            ruled = rule_done ruled;
                          },
                        )))))
            | inr unruled ↦
                let s4 = revert_dns env st new_rule s3 in
                let s5 = revert_dns env st new_rule s4 in
                let same = rule_failed unruled in
                let plane = plane_err env law t c.app_name st new_rule s2 unruled in
                rw (saved, change_state)
                  (rw dns (
                    rw plane (
                      rw plane (
                        inr (
                          λ x tag e. ground arith,
                          reverted-IsAgreed t c i rule s5 r (r.dns st s4 ∙ sym flips) (
                              ap at_rule (
                                revert_ruled env law st new_rule s4
                                ∙ revert_ruled env law st new_rule s3)
                              ∙ ap (λ z. at_rule (law.ruled z)) same
                              ∙ ap at_rule (rules2 ∙ rules1)
                              ∙ agreed.ruled),
                        )))))
          ]
        ]
      ]

  -- an accepted input asks for one of the two states
  validate_inputs-state :
      (id : String) (input rule : DnsRule)
      → validate_inputs id input rule ≡ none
      → (input.state == active_state || input.state == inactive_state) ≡ true
  unfolding validate_inputs
  validate_inputs-state id input rule h = ground arith

  states_flip :
      (old new : String)
      → (old ≡ active_state) ⊎ (old ≡ inactive_state)
      → (new == active_state || new == inactive_state) ≡ true
      → (old == new) ≡ false
      → (old == active_state) ≡ not (new == active_state)
  states_flip old new known valid differ = elim known [
    | inl on ↦
        let off : new == active_state ≡ false = elim (Bool-cases (new == active_state)) [
          | inl same ↦
              let never : true ≡ false =
                sym ((eq_iff old new).1 (on ∙ sym ((eq_iff new active_state).0 same))) ∙ differ in
              absurd (ground arith)
          | inr other ↦ other
        ] in
        rw off ((eq_iff old active_state).1 on)
    | inr off ↦ elim (Bool-cases (new == active_state)) [
      | inl on ↦ rw (on, off)
      | inr other ↦
          let same : new == inactive_state ≡ true = ground arith in
          let never : true ≡ false =
            sym ((eq_iff old new).1 (off ∙ sym ((eq_iff new inactive_state).0 same))) ∙ differ in
          absurd (ground arith)
    ]
  ]

  update_to_remote_server-change_state :
      (t : DnsRuleUpdate) (c : AppDConfig R) (i : ℕ) (rule : DnsRule) (tag : Option String) (s : S)
      (input : DnsRule) (y : Verdict × S)
      → t.rest_body ≡ some input
      → validate_inputs t.dns_rule_id input rule ≡ none
      → (rule.state == input.state) ≡ false
      → change_state env t c i rule input.state s ≡ y
      → update_to_remote_server env t c i rule tag s ≡ y
  unfolding update_to_remote_server
  update_to_remote_server-change_state t c i rule tag s input y body valid differ e =
      rw (body, update_to_remote_server) (rw valid (rw differ e))

  -- If the configuration store, the DNS server and the data plane agree on the state of a rule, and the
  -- writes that undo an update do their work, then they agree after an update too: on the state asked
  -- for if the update is answered as done, and on the old state if any of them refused it. A body that
  -- is no rule, that is refused by its checks or that asks for the state that the rule has changes
  -- nothing.
  pub update_to_remote_server-IsSettled :
      (t : DnsRuleUpdate) (c : AppDConfig R) (i : ℕ) (rule : DnsRule) (tag : Option String) (s : S)
      → IsRevertible t c i rule
      → (rule.state ≡ active_state) ⊎ (rule.state ≡ inactive_state)
      → IsAgreed t c i rule rule.state s
      → (((x : DnsRule)
            → (y : Option String) → (update_to_remote_server env t c i rule tag s).0 ≢ done x y)
          × ((update_to_remote_server env t c i rule tag s).1 ≡ s))
        ⊎ ((input : DnsRule) × (t.rest_body ≡ some input)
            × (validate_inputs t.dns_rule_id input rule ≡ none)
            × IsSettled t c i rule input.state
                (update_to_remote_server env t c i rule tag s).0
                (update_to_remote_server env t c i rule tag s).1)
  unfolding update_to_remote_server
  update_to_remote_server-IsSettled t c i rule tag s r known agreed =
      elim (Option-cases t.rest_body) [
        | inl no_rule ↦ inl (rw (no_rule, update_to_remote_server) (λ x y e. ground arith, refl))
        | inr (input, body) ↦ elim (Option-cases (validate_inputs t.dns_rule_id input rule)) [
          | inr (text, bad) ↦
              inl (rw (body, update_to_remote_server) (rw bad (λ x y e. ground arith, refl)))
          | inl valid ↦ elim (Bool-cases (rule.state == input.state)) [
            | inl same ↦ inl (
                rw (body, update_to_remote_server)
                  (rw valid (rw same (λ x y e. ground arith, refl))))
            | inr differ ↦
                let flips =
                  states_flip rule.state input.state known
                    (validate_inputs-state t.dns_rule_id input rule valid) differ in
                let e =
                  update_to_remote_server-change_state t c i rule tag s input
                    (change_state env t c i rule input.state s) body valid differ refl in
                inr (
                  input,
                  body,
                  valid,
                  subst⁻¹ (λ x. IsSettled t c i rule input.state x.0 x.1) e
                      (change_state-IsSettled t c i rule input.state s r flips agreed),
                )
          ]
        ]
      ]
