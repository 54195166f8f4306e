-- ===== src/MepServer/DnsRule.antt =====
-- mepserver/mp1/plans/dns_one_update.go: `DNSRuleUpdate`, which turns a DNS rule of an application on
-- or off in three places: the configuration store, the DNS server and the data plane. What these do is
-- a record of functions on their common state. `dnsOnStore` is a copy of the rule in the list.
pub mod Services
pub mod Consistency
pub mod Request
use Prim.Native.String
use mep.Prelude.{
  ℕ, zero, suc, String, len, Bool, true, false, ◌&&◌, ◌||◌, not, Option, none, some, List, [], ◌∷◌,
  ◌==◌, eqb, ltb, if◌then◌else◌, set,
}

pub record DnsRule : Type 0 where
  pub dns_rule_id : String
  pub domain_name : String
  pub ip_address_type : String
  pub ip_address : String
  pub ttl : ℕ  -- uint32
  pub state : String

-- `R` is the type of a traffic rule
pub record AppDConfig (R : Type 0) : Type 0 where
  pub app_traffic_rule : List R
  pub app_dns_rule : List DnsRule
  pub app_support_mp1 : Bool
  pub app_name : String
  pub operation : String

-- the backend, the agent of the DNS server and the data plane; `true` is a nil error
pub record Env (R B S : Type 0) : Type 0 where
  -- the bytes, `none` for nil, and the error code
  pub get_record : String → S → Option B × ℕ
  pub put_record : String → B → S → ℕ × S
  -- `AddResourceRecord(domain, type, IN, addresses, ttl)` and `DeleteResourceRecord(domain, type)`
  pub add_resource_record : String → String → List String → ℕ → S → Bool × S
  pub delete_resource_record : String → String → S → Bool × S
  -- `AddDNSRule(app, name, rule, domain, address type, address, ttl)` and `DeleteDNSRule`
  pub add_dns_rule : String → String → String → DnsRule → S → Bool × S
  pub delete_dns_rule : String → String → String → S → Bool × S
  -- JSON of a configuration, and the tag of the JSON of a rule
  pub marshal : AppDConfig R → Option B
  pub unmarshal : B → Option (AppDConfig R)
  pub strong_etag : DnsRule → Option String

abbrev pub active_state : String
active_state = "ACTIVE"

abbrev pub inactive_state : String
inactive_state = "INACTIVE"

-- the codes of mepserver/common/util/const.go
abbrev pub parse_info_err : ℕ
parse_info_err = 4

abbrev pub subscription_not_found : ℕ
subscription_not_found = 5

abbrev pub operate_data_with_etcd_err : ℕ
operate_data_with_etcd_err = 6

abbrev pub remote_server_err : ℕ
remote_server_err = 9

abbrev pub etag_miss_match_err : ℕ
etag_miss_match_err = 10

-- the fields of the task that it reads; a body that is no rule is `none`
pub record DnsRuleUpdate : Type 0 where
  pub app_instance_id : String
  pub dns_rule_id : String
  pub if_match : String
  pub rest_body : Option DnsRule

-- How the update ended: with an error code, with nothing to do (-1), or done; the last two answer with
-- the rule and its tag.
pub data Verdict : Type 0 where
  failed : ℕ → String → Verdict
  unchanged : DnsRule → Option String → Verdict
  done : DnsRule → Option String → Verdict

abbrev pub config_path : String → String
config_path app = String.◌++◌ "/cse-sr/etsi/appd/" app

abbrev pub with_state : String → DnsRule → DnsRule
with_state st rule = record rule { state = st }

-- the configuration with the state of one rule set
abbrev pub with_rule_state : {R : Type 0} → ℕ → DnsRule → String → AppDConfig R → AppDConfig R
with_rule_state i rule st c = record c { app_dns_rule = set c.app_dns_rule i (with_state st rule) }

abbrev pub rr_type_of : DnsRule → String
rr_type_of rule = if rule.ip_address_type == "IP_V6" then "AAAA" else "A"

-- the first rule with the identifier, and its index
unfoldable pub find_rule : String → ℕ → List DnsRule → Option (ℕ × DnsRule)
find_rule id i [] = none
find_rule id i (rule ∷ rules) =
    if rule.dns_rule_id == id then some (i, rule) else find_rule id (suc i) rules

-- `validateInputs`: the text of an error, or none
unfoldable pub validate_inputs : String → DnsRule → DnsRule → Option String
validate_inputs id input on_store =
    if not (eqb (len input.dns_rule_id) 0) && not (id == input.dns_rule_id)
    then some "dns identifier miss-match"
    else if not (input.domain_name == on_store.domain_name)
        || not (input.ip_address == on_store.ip_address)
        || not (input.ip_address_type == on_store.ip_address_type)
        || not (eqb input.ttl on_store.ttl)
    then some "update supported only for state"
    else if not (input.state == active_state) && not (input.state == inactive_state)
    then some "invalid dns state input"
    else none

module _ {R B S : Type 0} (env : Env R B S) where
  -- `updateDnsRecordOnDataStore`
  unfoldable pub update_on_data_store : String → AppDConfig R → S → ℕ × String × S
  update_on_data_store app c s = elim (env.marshal c) [
    | none ↦ (parse_info_err, "output rule parse failed", s)
    | some bytes ↦
        let (code, s') = env.put_record (config_path app) bytes s in
        (code, (if eqb code 0 then "" else "rule insertion failed"), s')
  ]

  abbrev pub add_to_dns : DnsRule → S → Bool × S
  add_to_dns rule s =
      env.add_resource_record rule.domain_name (rr_type_of rule) (rule.ip_address ∷ []) rule.ttl s

  abbrev pub delete_from_dns : DnsRule → S → Bool × S
  delete_from_dns rule s = env.delete_resource_record rule.domain_name (rr_type_of rule) s

  -- the change of the DNS server to a state, and `revertEntryFromDNSServer`
  unfoldable pub apply_to_dns : String → DnsRule → S → Bool × S
  apply_to_dns st rule s = if st == active_state then add_to_dns rule s else delete_from_dns rule s

  unfoldable pub revert_dns : String → DnsRule → S → S
  revert_dns st rule s =
      if st == active_state then (delete_from_dns rule s).1 else (add_to_dns rule s).1

  abbrev pub change_rule : DnsRuleUpdate → String → String → DnsRule → S → Bool × S
  change_rule t name st rule s =
      if st == active_state
      then env.add_dns_rule t.app_instance_id name t.dns_rule_id rule s
      else env.delete_dns_rule t.app_instance_id name t.dns_rule_id s

  -- `updateDNSToDataPlane`; a failure reverts the DNS server already here
  unfoldable pub update_dns_to_data_plane : DnsRuleUpdate → String → String → DnsRule → S → Bool × S
  update_dns_to_data_plane t name st rule s =
      let (ok, s') = change_rule t name st rule s in
      elim ok [ true ↦ (true, s') | false ↦ (false, revert_dns st rule s') ]

  abbrev refused : Verdict
  refused = failed remote_server_err "failed to apply the dns modification"

  -- `updateDnsRecordToRemoteServer` from the write to the data store on: the rule, its index, the new
  -- state
  unfoldable pub change_state :
      DnsRuleUpdate → AppDConfig R → ℕ → DnsRule → String → S → Verdict × S
  change_state t c i rule st s =
      let new_rule = with_state st rule in
      let (code, text, s1) =
        update_on_data_store t.app_instance_id (with_rule_state i rule st c) s in
      let old = with_rule_state i rule rule.state c in
      elim (eqb code 0) [
        | false ↦ (failed code text, s1)
        | true ↦
            let (resolved, s2) = apply_to_dns st new_rule s1 in
            elim resolved [
              | false ↦ (refused, (update_on_data_store t.app_instance_id old s2).2)
              | true ↦
                  let (ruled, s3) = update_dns_to_data_plane t c.app_name st new_rule s2 in
                  elim ruled [
                    | false ↦ (
                      refused,
                      (update_on_data_store t.app_instance_id old (revert_dns st new_rule s3)).2,
                    )
                    | true ↦ (done new_rule (env.strong_etag new_rule), s3)
                  ]
            ]
      ]

  -- `updateDnsRecordToRemoteServer`
  unfoldable pub update_to_remote_server :
      DnsRuleUpdate → AppDConfig R → ℕ → DnsRule → Option String → S → Verdict × S
  update_to_remote_server t c i rule tag s = elim t.rest_body [
    | none ↦ (failed parse_info_err "input parsing failed", s)
    | some input ↦ elim (validate_inputs t.dns_rule_id input rule) [
      | some text ↦ (failed 1 text, s)
      | none ↦ elim (rule.state == input.state) [
        | true ↦ (unchanged rule tag, s)
        | false ↦ change_state t c i rule input.state s
      ]
    ]
  ]

  -- the test of the precondition of RFC 7232, and what follows it
  unfoldable pub check_etag : DnsRuleUpdate → AppDConfig R → ℕ → DnsRule → S → Verdict × S
  check_etag t c i rule s = elim (env.strong_etag rule) [
    | none ↦ (failed operate_data_with_etcd_err "parse dns rules failed", s)
    | some tag ↦ elim (not (eqb (len t.if_match) 0) && not (t.if_match == tag)) [
      | true ↦ (failed etag_miss_match_err "e-tag miss-match", s)
      | false ↦ update_to_remote_server t c i rule (some tag) s
    ]
  ]

  abbrev on_rule : DnsRuleUpdate → AppDConfig R → Option (ℕ × DnsRule) → S → Verdict × S
  on_rule t c none s = (failed subscription_not_found "dns rule retrieval failed", s)
  on_rule t c (some (i, rule)) s = check_etag t c i rule s

  -- `OnRequest`
  unfoldable pub on_request : DnsRuleUpdate → S → Verdict × S
  on_request t s =
      let (entry, code) = env.get_record (config_path t.app_instance_id) s in
      elim (eqb code 0) [
        | false ↦ (failed code "dns rule retrieval failed", s)
        | true ↦ elim entry [
          | none ↦ (failed subscription_not_found "dns rule retrieval failed", s)
          | some bytes ↦ elim (env.unmarshal bytes) [
            | none ↦ (failed operate_data_with_etcd_err "parse dns rules failed", s)
            | some c ↦ on_rule t c (find_rule t.dns_rule_id 0 c.app_dns_rule) s
          ]
        ]
      ]
