-- ===== src/DnsServer/Mgmt/Keys.antt =====
-- mgmt/controller.go over datastore/boltdb.go: which requests keep a name and a type in one zone, and
-- what a query then answers.
use mathlib.Core.Option.{some-injective}
use mep.Prelude.{
  ℕ, String, ◌≡◌, ◌≢◌, sym, subst⁻¹, inl, inr, Bool, true, false, Option, none, some, List, map,
  arith, contains, ok,
}
use mep.DnsServer.Records.{ResourceRecord, Question, rr_type_map, rr_class_map}
use mep.DnsServer.Names.{to_lower, zones_of}
use mep.DnsServer.Backend.{Json, Bolt, IsBolt, Net}
use mep.DnsServer.Store.{key_of, get_resource_record}
use mep.DnsServer.Store.Lookup.{stored_of_get, is_resource_record_exists-eq_stored}
use mep.DnsServer.Store.Set.{set_resource_record-WasSet, get-set_self, get-set_ne, expected}
use mep.DnsServer.Store.Unique.{IsUnique, set-IsUnique, del_resource_record-IsGone}
use mep.DnsServer.Store.Get.{IsRangeOrder, get-set_resource_record}
use mep.DnsServer.Mgmt.{
  bolt_store, zone_or_default, handle_add_resource_records, handle_set_resource_records,
  handle_delete_resource_record,
}
use mep.DnsServer.Mgmt.Outcomes.{
  bolt_store-IsDataStore, IsAccepted, handle_add_resource_records_outcome,
  handle_set_resource_records_outcome, handle_delete_resource_record_outcome,
}

module _ {B S : Type 0} (json : Json B) (bolt : Bolt B S) (law : IsBolt bolt) where
  -- A record that the check does not find is in no zone.
  nowhere :
      (zone : String) (rr : ResourceRecord) (t : ℕ) (s : S)
      → rr_type_map rr.type ≡ some t
      → rr.ttl ≢ 0
      → (bolt_store json bolt).record_exists zone rr s ≡ false
      → (z : String) → ¬ (bolt.get s z (key_of json rr.name t) ≢ none)
  nowhere zone rr t s known ttl missing z there =
      let found = stored_of_get bolt law (key_of json rr.name t) s z there in
      let eq = is_resource_record_exists-eq_stored json bolt law zone rr s in ground arith

  module _ {Ip : Type 0} (net : Net Ip) where
    -- Adding a record keeps keys unique, whatever the request and its outcome.
    pub handle_add_resource_records-IsUnique :
        (zone : String) (body : Option ResourceRecord) (s : S)
        → IsUnique bolt s
        → IsUnique bolt (handle_add_resource_records (bolt_store json bolt) net zone body s).1
    handle_add_resource_records-IsUnique zone body s unique =
        elim (handle_add_resource_records_outcome (bolt_store json bolt) net
          (bolt_store-IsDataStore json bolt) zone body s) [
            | inl (_, same) ↦ subst⁻¹ (IsUnique bolt) same unique
            | inr (_, rr, _, accepted) ↦
                let s' = (handle_add_resource_records (bolt_store json bolt) net zone body s).1 in
                let w =
                  set_resource_record-WasSet json bolt (zone_or_default zone) rr s s'
                    accepted.stored in
                set-IsUnique json bolt law (zone_or_default zone) rr s s' w unique (λ z there.
                  absurd (
                    nowhere (zone_or_default zone) rr w.t s w.known w.ttl accepted.existence z
                      there))
          ]

    -- So does deleting one.
    pub handle_delete_resource_record-IsUnique :
        (zone fqdn rrtype : String) (s : S)
        → IsUnique bolt s
        → IsUnique bolt (handle_delete_resource_record (bolt_store json bolt) zone fqdn rrtype s).1
    handle_delete_resource_record-IsUnique zone fqdn rrtype s unique =
        elim (handle_delete_resource_record_outcome (bolt_store json bolt) net
          (bolt_store-IsDataStore json bolt) zone fqdn rrtype s) [
            | inl (_, same) ↦ subst⁻¹ (IsUnique bolt) same unique
            | inr (_, _, _, deleted) ↦
                let s' =
                  (handle_delete_resource_record (bolt_store json bolt) zone fqdn rrtype s).1 in
                let (t, known, gone) =
                  del_resource_record-IsGone json bolt law (zone_or_default zone) fqdn rrtype s s'
                    unique deleted in
                gone.unique
          ]

    -- From the request to the answer: a record that was added with 200 to a store with unique keys, in
    -- a zone that its name may belong to, is what a question for it is answered with, an answer for
    -- each address, in order, in whatever order Go visits the candidate zones.
    pub get-handle_add_resource_records :
        (next_label : String → ℕ → ℕ × Bool) (range_order : List String → List String)
        → IsRangeOrder range_order
        → (zone : String) (rr : ResourceRecord) (q : Question) (s : S) (zs : List String)
        → to_lower q.name ≡ to_lower rr.name
        → rr_type_map rr.type ≡ some q.qtype
        → rr_class_map rr.class ≡ some q.qclass
        → zones_of next_label (to_lower q.name) ≡ some zs
        → contains zs (zone_or_default zone) ≡ true
        → IsUnique bolt s
        → (handle_add_resource_records (bolt_store json bolt) net zone (some rr) s).0.status ≡ 200
        → get_resource_record json bolt net next_label range_order q
            (handle_add_resource_records (bolt_store json bolt) net zone (some rr) s).1
          ≡ some (ok (map (expected net q rr.ttl) rr.r_data))
    get-handle_add_resource_records next_label range_order ro zone rr q s zs name type class
          candidates candidate unique fine =
        let s' = (handle_add_resource_records (bolt_store json bolt) net zone (some rr) s).1 in
        let unique' = handle_add_resource_records-IsUnique zone (some rr) s unique in
        elim (handle_add_resource_records_outcome (bolt_store json bolt) net
          (bolt_store-IsDataStore json bolt) zone (some rr) s) [
            | inl (refused, _) ↦ absurd (refused fine)
            | inr (_, rr', same, accepted) ↦
                let a : IsAccepted (bolt_store json bolt) net (zone_or_default zone) rr false s s' =
                  subst⁻¹
                    (λ x. IsAccepted (bolt_store json bolt) net (zone_or_default zone) x false s s')
                    (some-injective rr rr' same) accepted in
                get-set_resource_record json bolt net next_label range_order law ro
                  (zone_or_default zone) rr q s s' zs a.complete.class.0 a.complete.filled name type
                  class candidates candidate a.stored unique'
          ]

    -- Replacing a record does not keep keys unique: the existence check looks in every zone, and the
    -- write goes to the zone of the request. If another zone has the name and the type, a request that
    -- is answered with 200 leaves them in both.
    pub handle_set_resource_records_splits :
        (zone fqdn rrtype y : String) (rr : ResourceRecord) (t : ℕ) (s : S)
        → rr_type_map rr.type ≡ some t
        → bolt.get s y (key_of json rr.name t) ≢ none
        → y ≢ zone_or_default zone
        → (handle_set_resource_records
            (bolt_store json bolt)
            net
            zone
            fqdn
            rrtype
            (some rr)
            s).0.status
          ≡ 200
        → ¬ IsUnique bolt
            (handle_set_resource_records (bolt_store json bolt) net zone fqdn rrtype (some rr) s).1
    handle_set_resource_records_splits zone fqdn rrtype y rr t s known held other fine unique =
        elim (handle_set_resource_records_outcome (bolt_store json bolt) net
          (bolt_store-IsDataStore json bolt) zone fqdn rrtype (some rr) s) [
            | inl (refused, _) ↦ refused fine
            | inr (_, rr', same, _, _, accepted) ↦
                let s' =
                  (handle_set_resource_records (bolt_store json bolt) net zone fqdn rrtype (some rr)
                    s).1 in
                let z = zone_or_default zone in
                let a : IsAccepted (bolt_store json bolt) net z rr true s s' =
                  subst⁻¹ (λ x. IsAccepted (bolt_store json bolt) net z x true s s')
                    (some-injective rr rr' same) accepted in
                let w = set_resource_record-WasSet json bolt z rr s s' a.stored in
                let t_eq : w.t ≡ t = ground arith in
                let key = key_of json rr.name w.t in
                let was : bolt.get s y key ≢ none =
                  subst⁻¹ (λ n. bolt.get s y (key_of json rr.name n) ≢ none) t_eq held in
                let kept = get-set_ne json bolt law w y key (inl (λ e. other (sym e))) in
                let written = get-set_self json bolt law w in
                other (unique.same_zone key y z (subst⁻¹ (λ o. o ≢ none) kept was) (λ e. cc))
          ]
