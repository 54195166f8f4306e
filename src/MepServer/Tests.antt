-- ===== src/MepServer/Tests.antt =====
-- An update of a rule that the data plane refuses.
mod Sync
mod Failures
mod Staging
mod Exclusion
mod Update
mod Served
use mep.Prelude.{
  ℕ, String, ◌≡◌, ◌≢◌, ◌⊎◌, refl, inl, inr, Bool, true, false, Option, none, some, [], ◌∷◌, ◌==◌,
  arith, Bool-cases,
}
use mep.MepServer.DnsRule.{
  DnsRule, AppDConfig, Env, DnsRuleUpdate, done, active_state, with_state, validate_inputs,
  update_on_data_store, revert_dns, update_to_remote_server,
}
use mep.MepServer.DnsRule.Services.{IsEnv}
use mep.MepServer.DnsRule.Consistency.{
  IsAgreed, IsRevertible, IsSettled, update_to_remote_server-IsSettled,
}
use mep.MepServer.DnsRule.{find_rule, on_request}
use mep.MepServer.DnsRule.Request.{IsServed, on_request-IsServed}

-- one record in each of the three services
record Services : Type 0 where
  config : Option (AppDConfig ℕ)
  name : Bool
  rule : Bool

-- the data plane refuses every new rule
abbrev env : Env ℕ (AppDConfig ℕ) Services
env = record {
  get_record = λ k s. (s.config, 0);
  put_record = λ k b s. (0, record { config = some b; name = s.name; rule = s.rule });
  add_resource_record =
      λ d t l n s. (true, record { config = s.config; name = true; rule = s.rule });
  delete_resource_record =
      λ d t s. (true, record { config = s.config; name = false; rule = s.rule });
  add_dns_rule = λ a n r x s. (false, s);
  delete_dns_rule = λ a n r s. (true, record { config = s.config; name = s.name; rule = false });
  marshal = λ c. some c;
  unmarshal = λ b. some b;
  strong_etag = λ r. some r.state;
}

env-IsEnv : IsEnv env
env-IsEnv = record {
  config_at = λ s k. s.config;
  resolved = λ s d t. s.name;
  ruled = λ s a r. s.rule;
  put_ok = λ k b s h. refl;
  put_err = λ k b s h. absurd (h refl);
  put_resolved = λ k b s. refl;
  put_ruled = λ k b s. refl;
  add_ok = λ d t l n s h. refl;
  add_err = λ d t l n s h. absurd (ground arith);
  add_config = λ d t l n s. refl;
  add_ruled = λ d t l n s. refl;
  delete_ok = λ d t s h. refl;
  delete_err = λ d t s h. absurd (ground arith);
  delete_config = λ d t s. refl;
  delete_ruled = λ d t s. refl;
  add_rule_ok = λ a n r x s h. absurd (ground arith);
  add_rule_err = λ a n r x s h. refl;
  add_rule_config = λ a n r x s. refl;
  add_rule_resolved = λ a n r x s. refl;
  delete_rule_ok = λ a n r s h. refl;
  delete_rule_err = λ a n r s h. absurd (ground arith);
  delete_rule_config = λ a n r s. refl;
  delete_rule_resolved = λ a n r s. refl;
}

abbrev rule : DnsRule
rule = record {
  dns_rule_id = "rule";
  domain_name = "a.b.";
  ip_address_type = "IP_V4";
  ip_address = "10.0.0.1";
  ttl = 30;
  state = "INACTIVE";
}

abbrev update : DnsRuleUpdate
update = record {
  app_instance_id = "app";
  dns_rule_id = "rule";
  if_match = "";
  rest_body = some (with_state "ACTIVE" rule);
}

abbrev config : AppDConfig ℕ
config = record {
  app_traffic_rule = [];
  app_dns_rule = rule ∷ [];
  app_support_mp1 = true;
  app_name = "name";
  operation = "";
}

abbrev before : Services
before = record { config = some config; name = false; rule = false }

before-IsAgreed : IsAgreed env env-IsEnv update config 0 rule "INACTIVE" before
unfolding env-IsEnv
before-IsAgreed = record {
  bytes = config;
  marshalled = refl;
  stored = refl;
  resolved = refl;
  ruled = refl;
}

update-IsRevertible : IsRevertible env env-IsEnv update config 0 rule
unfolding env-IsEnv update_on_data_store revert_dns
update-IsRevertible = record {
  store = λ s. refl;
  dns = λ st s. elim (Bool-cases (st == active_state)) [ inl on ↦ rw on | inr off ↦ rw off ];
}

update_to_remote_server-IsSettled_example :
    (((x : DnsRule)
        → (y : Option String)
        → (update_to_remote_server env update config 0 rule (some "INACTIVE") before).0 ≢ done x y)
      × ((update_to_remote_server env update config 0 rule (some "INACTIVE") before).1 ≡ before))
    ⊎ ((input : DnsRule) × (some (with_state "ACTIVE" rule) ≡ some input)
        × (validate_inputs "rule" input rule ≡ none)
        × IsSettled env env-IsEnv update config 0 rule input.state
            (update_to_remote_server env update config 0 rule (some "INACTIVE") before).0
            (update_to_remote_server env update config 0 rule (some "INACTIVE") before).1)
update_to_remote_server-IsSettled_example =
    update_to_remote_server-IsSettled env env-IsEnv update config 0 rule (some "INACTIVE") before
      update-IsRevertible (inr refl) before-IsAgreed

found : find_rule "rule" 0 (rule ∷ []) ≡ some (0, rule)
unfolding find_rule
found = refl

on_request-IsServed_example :
    IsServed env env-IsEnv update config 0 rule before (on_request env update before)
on_request-IsServed_example =
    on_request-IsServed env env-IsEnv update config 0 rule config before refl refl found
      update-IsRevertible (inr refl) before-IsAgreed
