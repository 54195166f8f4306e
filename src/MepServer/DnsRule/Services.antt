-- ===== src/MepServer/DnsRule/Services.antt =====
-- mepserver/mp1/plans/dns_one_update.go: what the update relies on of the configuration store, the DNS
-- server and the data plane.
use mep.Prelude.{
  ℕ, String, ◌≡◌, ◌≢◌, inl, inr, Bool, true, false, Option, some, List, ◌==◌, arith, Bool-cases,
  Option-cases,
}
use mep.MepServer.DnsRule.{
  DnsRule, AppDConfig, Env, DnsRuleUpdate, active_state, config_path, rr_type_of,
  update_on_data_store, apply_to_dns, revert_dns, change_rule, update_dns_to_data_plane,
  parse_info_err,
}

-- What the three services promise: what is stored, which names are resolved and which rules are in
-- force; an operation that succeeds has its effect, one that fails has none, and none touches what
-- another service holds.
pub record IsEnv {R B S : Type 0} (env : Env R B S) : Type 0 where
  pub config_at : S → String → Option B
  pub resolved : S → String → String → Bool
  pub ruled : S → String → String → Bool
  pub put_ok :
      (k : String) (b : B) (s : S)
      → (env.put_record k b s).0 ≡ 0
      → config_at (env.put_record k b s).1 k ≡ some b
  pub put_err :
      (k : String) (b : B) (s : S) → (env.put_record k b s).0 ≢ 0 → (env.put_record k b s).1 ≡ s
  pub put_resolved : (k : String) (b : B) (s : S) → resolved (env.put_record k b s).1 ≡ resolved s
  pub put_ruled : (k : String) (b : B) (s : S) → ruled (env.put_record k b s).1 ≡ ruled s
  pub add_ok :
      (d t : String) (l : List String) (n : ℕ) (s : S)
      → (env.add_resource_record d t l n s).0 ≡ true
      → resolved (env.add_resource_record d t l n s).1 d t ≡ true
  pub add_err :
      (d t : String) (l : List String) (n : ℕ) (s : S)
      → (env.add_resource_record d t l n s).0 ≡ false
      → (env.add_resource_record d t l n s).1 ≡ s
  pub add_config :
      (d t : String) (l : List String) (n : ℕ) (s : S)
      → config_at (env.add_resource_record d t l n s).1 ≡ config_at s
  pub add_ruled :
      (d t : String) (l : List String) (n : ℕ) (s : S)
      → ruled (env.add_resource_record d t l n s).1 ≡ ruled s
  pub delete_ok :
      (d t : String) (s : S)
      → (env.delete_resource_record d t s).0 ≡ true
      → resolved (env.delete_resource_record d t s).1 d t ≡ false
  pub delete_err :
      (d t : String) (s : S)
      → (env.delete_resource_record d t s).0 ≡ false
      → (env.delete_resource_record d t s).1 ≡ s
  pub delete_config :
      (d t : String) (s : S) → config_at (env.delete_resource_record d t s).1 ≡ config_at s
  pub delete_ruled : (d t : String) (s : S) → ruled (env.delete_resource_record d t s).1 ≡ ruled s
  pub add_rule_ok :
      (a n r : String) (x : DnsRule) (s : S)
      → (env.add_dns_rule a n r x s).0 ≡ true
      → ruled (env.add_dns_rule a n r x s).1 a r ≡ true
  pub add_rule_err :
      (a n r : String) (x : DnsRule) (s : S)
      → (env.add_dns_rule a n r x s).0 ≡ false
      → (env.add_dns_rule a n r x s).1 ≡ s
  pub add_rule_config :
      (a n r : String) (x : DnsRule) (s : S)
      → config_at (env.add_dns_rule a n r x s).1 ≡ config_at s
  pub add_rule_resolved :
      (a n r : String) (x : DnsRule) (s : S) → resolved (env.add_dns_rule a n r x s).1 ≡ resolved s
  pub delete_rule_ok :
      (a n r : String) (s : S)
      → (env.delete_dns_rule a n r s).0 ≡ true
      → ruled (env.delete_dns_rule a n r s).1 a r ≡ false
  pub delete_rule_err :
      (a n r : String) (s : S)
      → (env.delete_dns_rule a n r s).0 ≡ false
      → (env.delete_dns_rule a n r s).1 ≡ s
  pub delete_rule_config :
      (a n r : String) (s : S) → config_at (env.delete_dns_rule a n r s).1 ≡ config_at s
  pub delete_rule_resolved :
      (a n r : String) (s : S) → resolved (env.delete_dns_rule a n r s).1 ≡ resolved s

module _ {R B S : Type 0} (env : Env R B S) (law : IsEnv env) where
  -- `update_on_data_store` in the terms of the laws
  pub store_ok :
      (app : String) (c : AppDConfig R) (s : S)
      → (update_on_data_store env app c s).0 ≡ 0
      → (b : B) × (env.marshal c ≡ some b)
        × (law.config_at (update_on_data_store env app c s).2 (config_path app) ≡ some b)
  unfolding update_on_data_store
  store_ok app c s h = elim (Option-cases (env.marshal c)) [
    | inl bad ↦
        let never : parse_info_err ≡ 0 = rw (bad, update_on_data_store) at h in absurd (omega arith)
    | inr (b, fine) ↦
        let put : (env.put_record (config_path app) b s).0 ≡ 0 =
          rw (fine, update_on_data_store) at h in
        (b, fine, rw (fine, update_on_data_store) (law.put_ok (config_path app) b s put))
  ]

  pub store_err :
      (app : String) (c : AppDConfig R) (s : S)
      → (update_on_data_store env app c s).0 ≢ 0
      → (update_on_data_store env app c s).2 ≡ s
  unfolding update_on_data_store
  store_err app c s h = elim (Option-cases (env.marshal c)) [
    | inl bad ↦ rw (bad, update_on_data_store)
    | inr (b, fine) ↦
        let put : (env.put_record (config_path app) b s).0 ≢ 0 =
          rw (fine, update_on_data_store) at h in
        rw (fine, update_on_data_store) (law.put_err (config_path app) b s put)
  ]

  pub store_frame :
      (app : String) (c : AppDConfig R) (s : S)
      → (law.resolved (update_on_data_store env app c s).2 ≡ law.resolved s)
        × (law.ruled (update_on_data_store env app c s).2 ≡ law.ruled s)
  unfolding update_on_data_store
  store_frame app c s = elim (Option-cases (env.marshal c)) [
    | inl bad ↦ (rw (bad, update_on_data_store), rw (bad, update_on_data_store))
    | inr (b, fine) ↦ (
      rw (fine, update_on_data_store) (law.put_resolved (config_path app) b s),
      rw (fine, update_on_data_store) (law.put_ruled (config_path app) b s),
    )
  ]

  -- what a change of the DNS server leaves
  pub dns_frame :
      (st : String) (rule : DnsRule) (s : S)
      → (law.config_at (apply_to_dns env st rule s).1 ≡ law.config_at s)
        × (law.ruled (apply_to_dns env st rule s).1 ≡ law.ruled s)
        × ((apply_to_dns env st rule s).0 ≡ true
            → law.resolved (apply_to_dns env st rule s).1 rule.domain_name (rr_type_of rule)
              ≡ (st == active_state))
        × ((apply_to_dns env st rule s).0 ≡ false → (apply_to_dns env st rule s).1 ≡ s)
  unfolding apply_to_dns
  dns_frame st rule s = elim (Bool-cases (st == active_state)) [
    | inl on ↦
        rw (on, apply_to_dns)
          (
            law.add_config _ _ _ _ s,
            law.add_ruled _ _ _ _ s,
            λ h. law.add_ok _ _ _ _ s h,
            λ h. law.add_err _ _ _ _ s h,
          )
    | inr off ↦
        rw (off, apply_to_dns)
          (
            law.delete_config _ _ s,
            law.delete_ruled _ _ s,
            λ h. law.delete_ok _ _ s h,
            λ h. law.delete_err _ _ s h,
          )
  ]

  pub revert_ruled :
      (st : String) (rule : DnsRule) (s : S) → law.ruled (revert_dns env st rule s) ≡ law.ruled s
  unfolding revert_dns
  revert_ruled st rule s = elim (Bool-cases (st == active_state)) [
    | inl on ↦ rw (on, revert_dns) (law.delete_ruled _ _ s)
    | inr off ↦ rw (off, revert_dns) (law.add_ruled _ _ _ _ s)
  ]

  pub rule_frame :
      (t : DnsRuleUpdate) (name st : String) (rule : DnsRule) (s : S)
      → (law.config_at (change_rule env t name st rule s).1 ≡ law.config_at s)
        × (law.resolved (change_rule env t name st rule s).1 ≡ law.resolved s)
        × ((change_rule env t name st rule s).0 ≡ true
            → law.ruled (change_rule env t name st rule s).1 t.app_instance_id t.dns_rule_id
              ≡ (st == active_state))
        × ((change_rule env t name st rule s).0 ≡ false → (change_rule env t name st rule s).1 ≡ s)
  rule_frame t name st rule s = elim (Bool-cases (st == active_state)) [
    | inl on ↦ rw on (
      law.add_rule_config _ _ _ _ s,
      law.add_rule_resolved _ _ _ _ s,
      λ h. law.add_rule_ok _ _ _ _ s h,
      λ h. law.add_rule_err _ _ _ _ s h,
    )
    | inr off ↦ rw off (
      law.delete_rule_config _ _ _ s,
      law.delete_rule_resolved _ _ _ s,
      λ h. law.delete_rule_ok _ _ _ s h,
      λ h. law.delete_rule_err _ _ _ s h,
    )
  ]

  pub plane_ok :
      (t : DnsRuleUpdate) (name st : String) (rule : DnsRule) (s : S)
      → (change_rule env t name st rule s).0 ≡ true
      → update_dns_to_data_plane env t name st rule s ≡ (true, (change_rule env t name st rule s).1)
  unfolding update_dns_to_data_plane
  plane_ok t name st rule s h = rw (h, update_dns_to_data_plane)

  pub plane_err :
      (t : DnsRuleUpdate) (name st : String) (rule : DnsRule) (s : S)
      → (change_rule env t name st rule s).0 ≡ false
      → update_dns_to_data_plane env t name st rule s
        ≡ (false, revert_dns env st rule (change_rule env t name st rule s).1)
  unfolding update_dns_to_data_plane
  plane_err t name st rule s h = rw (h, update_dns_to_data_plane)
