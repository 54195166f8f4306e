-- ===== src/MepServer/Tests/Update.antt =====
-- An update with a new rule, a changed one and one that is gone.
use mep.Prelude.{List, ◌≡◌, refl, [], ◌∷◌, ◌&&◌, not}
use mep.MepServer.Sync.{rule_type_dns, Rule, oper_create, oper_modify, oper_delete}
use mep.MepServer.Sync.Pointers.{has_rule}
use mep.MepServer.Appd.Classify.{
  RuleMap, status_of, deep_equal, store_map, input_maps, created_or_modified, deleted,
  process_rules_from_id_map, update_statuses,
}
use mep.MepServer.Appd.Exact.{has_status, update_statuses-has_status}
use mep.MepServer.Tests.Sync.{dns_rule}

abbrev asked : List (Rule rule_type_dns)
asked = dns_rule "new" "" ∷ dns_rule "both" "ACTIVE" ∷ dns_rule "same" "" ∷ []

abbrev there : List (Rule rule_type_dns)
there = dns_rule "both" "INACTIVE" ∷ dns_rule "same" "" ∷ dns_rule "old" "" ∷ []

abbrev as_it_is : RuleMap rule_type_dns → RuleMap rule_type_dns
as_it_is m = m

changes : update_statuses rule_type_dns as_it_is asked there ≡ (
    status_of oper_create "new" ∷ status_of oper_modify "both" ∷ status_of oper_delete "old" ∷ [])
unfolding update_statuses process_rules_from_id_map input_maps store_map created_or_modified deleted
    deep_equal
changes = refl

update_statuses-has_status_example :
    (has_status oper_create "new" (update_statuses rule_type_dns as_it_is asked there)
      ≡ (has_rule rule_type_dns "new" asked && not (has_rule rule_type_dns "new" there)))
    × (has_status oper_delete "new" (update_statuses rule_type_dns as_it_is asked there)
        ≡ (has_rule rule_type_dns "new" there && not (has_rule rule_type_dns "new" asked)))
update_statuses-has_status_example =
    update_statuses-has_status rule_type_dns as_it_is (λ p m. refl) asked there "new"
