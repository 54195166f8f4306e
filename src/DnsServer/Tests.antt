-- ===== src/DnsServer/Tests.antt =====
-- The server at concrete requests, over the database in memory of TestDb. Addresses are texts.
mod Queries
use mep.Prelude.{
  ℕ, ◌+◌, String, len, ◌≡◌, ◌≢◌, ◌⊎◌, ◌↔◌, refl, ap, Bool, true, false, none, some, List, [], ◌∷◌,
  ◌==◌, eq_iff, eqb, ltb, contains, if◌then◌else◌, arith, map, ◌&&◌, not, ok, err,
}
use mep.DnsServer.Records.{ResourceRecord, Question, Rr, rr_type_map, rr_class_map}
use mep.DnsServer.Names.{to_lower, label_zones, zones_of}
use mep.DnsServer.Backend.{Net, update}
use mep.DnsServer.TestDb.{
  Db, db_json, db_bolt, db_bolt-IsBolt, find_bucket, modify, Blob-discrete, string_discrete,
  string_dec,
}
use mep.DnsServer.Store.{
  key_of, entry_before, updated_class, set_or_create, del_loop, exists_loop, set_body,
  set_resource_record, del_resource_record, is_resource_record_exists, records_in,
  get_resource_record,
}
use mep.DnsServer.Store.Lookup.{stored, is_some, is_resource_record_exists-eq_stored}
use mep.DnsServer.Store.Set.{expected, records_in-set_resource_record}
use mep.DnsServer.Store.Unique.{IsUnique, IsGone, del_resource_record-IsGone}
use mep.DnsServer.Store.Get.{
  IsNextLabel, FoundIn, get_resource_record_sound, get-set_resource_record,
}
use mep.DnsServer.Mgmt.{
  bolt_store, zone_or_default, is_valid_address, is_valid_record, is_valid_input, add_record,
  replace_record, handle_add_resource_records, handle_set_resource_records,
  handle_delete_resource_record,
}
use mep.DnsServer.Mgmt.Outcomes.{
  IsAccepted, Answered, handle_add_resource_records_outcome, handle_set_resource_records_outcome,
  handle_delete_resource_record_outcome, bolt_store-IsDataStore,
}
use mep.DnsServer.Mgmt.Keys.{
  handle_add_resource_records-IsUnique, handle_delete_resource_record-IsUnique,
  get-handle_add_resource_records, handle_set_resource_records_splits,
}

abbrev pub net : Net String
net = record {
  parse_ip = λ s.
      if contains ("10.0.0.1" ∷ "10.0.0.2" ∷ "0.0.0.0" ∷ "224.0.0.1" ∷ []) s then some s else none;
  is_multicast = λ s. s == "224.0.0.1";
  is_bcast = λ s. s == "255.255.255.255";
  to_string = λ s. s;
}

-- the labels of a name whose labels have one letter
abbrev next_label : String → ℕ → ℕ × Bool
next_label q off = if ltb (off + 2) (len q) then (off + 2, false) else (len q, true)

next_label-IsNextLabel : IsNextLabel next_label
next_label-IsNextLabel = record {
  forward = λ q off h. ground arith;
  within = λ q off h. ground arith;
}

abbrev host : ResourceRecord
host = record {
  name = "a.b.";
  type = "A";
  class = "IN";
  ttl = 30;
  r_data = "10.0.0.1" ∷ "10.0.0.2" ∷ [];
}

abbrev pub question : Question
question = record { name = "A.b."; qtype = 1; qclass = 1 }

-- a database with the record in the zone `b.`
unfoldable one : Db
one = (handle_add_resource_records (bolt_store db_json db_bolt) net "b." (some host) []).1

added :
    (handle_add_resource_records (bolt_store db_json db_bolt) net "b." (some host) []).0.status
    ≡ 200
unfolding handle_add_resource_records add_record is_valid_input is_valid_record is_valid_address
    is_resource_record_exists rr_type_map exists_loop set_resource_record update set_body
    set_or_create entry_before updated_class rr_class_map find_bucket modify Blob-discrete to_lower
    string_discrete string_dec
added = refl

empty-IsUnique : IsUnique db_bolt []
unfolding find_bucket
empty-IsUnique = record { same_zone = λ k y z h g. absurd (h refl) }

is_resource_record_exists-eq_stored_example :
    is_resource_record_exists db_json db_bolt "c." host one ≡ (elim (rr_type_map host.type) [
      | none ↦ false
      | some t ↦ not (eqb host.ttl 0) && stored db_bolt (key_of db_json host.name t) one
    ])
is_resource_record_exists-eq_stored_example =
    is_resource_record_exists-eq_stored db_json db_bolt db_bolt-IsBolt "c." host one

one_set : set_resource_record db_json db_bolt "b." host [] ≡ (ok tt, one)
unfolding one handle_add_resource_records add_record is_valid_input is_valid_record is_valid_address
    is_resource_record_exists rr_type_map exists_loop set_resource_record update set_body
    set_or_create entry_before updated_class rr_class_map find_bucket modify Blob-discrete to_lower
    string_discrete string_dec
one_set = refl

records_in-set_resource_record_example :
    records_in db_json db_bolt net "b." (key_of db_json question.name question.qtype) question one
    ≡ map (expected net question 30) ("10.0.0.1" ∷ "10.0.0.2" ∷ [])
unfolding to_lower rr_type_map rr_class_map
records_in-set_resource_record_example =
    records_in-set_resource_record db_json db_bolt net db_bolt-IsBolt "b." host question [] one
      (omega arith) (omega arith) refl refl refl one_set

one-IsUnique : IsUnique db_bolt one
unfolding one
one-IsUnique =
    handle_add_resource_records-IsUnique db_json db_bolt db_bolt-IsBolt net "b." (some host) []
      empty-IsUnique

unfoldable deleted : Db
deleted = (del_resource_record db_json db_bolt "." "A.b." "A" one).1

one_deleted : del_resource_record db_json db_bolt "." "A.b." "A" one ≡ (ok tt, deleted)
unfolding one deleted del_resource_record del_loop handle_add_resource_records add_record
    is_valid_input is_valid_record is_valid_address is_resource_record_exists rr_type_map
    exists_loop set_resource_record update set_body set_or_create entry_before updated_class
    rr_class_map find_bucket modify Blob-discrete to_lower string_discrete string_dec
one_deleted = refl

del_resource_record-IsGone_example :
    (t : ℕ) × (rr_type_map "A" ≡ some t) × IsGone db_bolt (key_of db_json "A.b." t) one deleted
del_resource_record-IsGone_example =
    del_resource_record-IsGone db_json db_bolt db_bolt-IsBolt "." "A.b." "A" one deleted
      one-IsUnique one_deleted

get_resource_record_sound_example :
    (zs : List String) × (zones_of next_label (to_lower question.name) ≡ some zs)
    × (contains zs "." ≡ true)
    × ((get_resource_record db_json db_bolt net next_label (λ l. l) question one
          ≡ some (err "could not process/retrieve the query"))
        ⊎ ((r : Rr String) × (rs : List (Rr String)) × (get_resource_record db_json db_bolt net
                next_label
                (λ l. l)
                question
                one
              ≡ some (ok (r ∷ rs)))
            × FoundIn db_json db_bolt net zs
                (key_of db_json question.name question.qtype)
                question
                one
                (r ∷ rs)))
get_resource_record_sound_example =
    get_resource_record_sound db_json db_bolt net next_label (λ l. l) next_label-IsNextLabel
      (λ l z. refl) question one

get-set_resource_record_example :
    get_resource_record db_json db_bolt net next_label (λ l. l) question one
    ≡ some (ok (map (expected net question 30) ("10.0.0.1" ∷ "10.0.0.2" ∷ [])))
unfolding to_lower rr_type_map rr_class_map zones_of label_zones
get-set_resource_record_example =
    get-set_resource_record db_json db_bolt net next_label (λ l. l) db_bolt-IsBolt (λ l z. refl)
      "b." host question [] one ("." ∷ "b." ∷ "a.b." ∷ []) (omega arith) (omega arith) refl refl
      refl refl refl one_set one-IsUnique

get-handle_add_resource_records_example :
    get_resource_record db_json db_bolt net next_label
      (λ l. l)
      question
      (handle_add_resource_records (bolt_store db_json db_bolt) net "b." (some host) []).1
    ≡ some (ok (map (expected net question 30) ("10.0.0.1" ∷ "10.0.0.2" ∷ [])))
unfolding to_lower rr_type_map rr_class_map zones_of label_zones
get-handle_add_resource_records_example =
    get-handle_add_resource_records db_json db_bolt db_bolt-IsBolt net next_label (λ l. l)
      (λ l z. refl) "b." host question [] ("." ∷ "b." ∷ "a.b." ∷ []) refl refl refl refl refl
      empty-IsUnique added

handle_add_resource_records-IsUnique_example :
    IsUnique db_bolt
      (handle_add_resource_records (bolt_store db_json db_bolt) net "" (some host) []).1
handle_add_resource_records-IsUnique_example =
    handle_add_resource_records-IsUnique db_json db_bolt db_bolt-IsBolt net "" (some host) []
      empty-IsUnique

handle_delete_resource_record-IsUnique_example :
    IsUnique db_bolt
      (handle_delete_resource_record (bolt_store db_json db_bolt) "" "a.b." "A" one).1
handle_delete_resource_record-IsUnique_example =
    handle_delete_resource_record-IsUnique db_json db_bolt db_bolt-IsBolt net "" "a.b." "A" one
      one-IsUnique

handle_add_resource_records_outcome_example :
    (((handle_add_resource_records (bolt_store db_json db_bolt) net "b." (some host) []).0.status
        ≢ 200)
      × ((handle_add_resource_records (bolt_store db_json db_bolt) net "b." (some host) []).1 ≡ []))
    ⊎ (((handle_add_resource_records (bolt_store db_json db_bolt) net "b." (some host) []).0.status
          ≡ 200)
        × (rr : ResourceRecord) × (some host ≡ some rr)
        × IsAccepted
            (bolt_store db_json db_bolt)
            net
            (zone_or_default "b.")
            rr
            false
            []
            (handle_add_resource_records (bolt_store db_json db_bolt) net "b." (some host) []).1)
handle_add_resource_records_outcome_example =
    handle_add_resource_records_outcome (bolt_store db_json db_bolt) net
      (bolt_store-IsDataStore db_json db_bolt) "b." (some host) []

handle_set_resource_records_outcome_example :
    Answered
      (bolt_store db_json db_bolt)
      net
      (bolt_store-IsDataStore db_json db_bolt)
      "b."
      "a.b."
      "A"
      (some host)
      one
      (handle_set_resource_records (bolt_store db_json db_bolt) net "b." "a.b." "A" (some host) one)
handle_set_resource_records_outcome_example =
    handle_set_resource_records_outcome (bolt_store db_json db_bolt) net
      (bolt_store-IsDataStore db_json db_bolt) "b." "a.b." "A" (some host) one

handle_delete_resource_record_outcome_example :
    (((handle_delete_resource_record (bolt_store db_json db_bolt) "" "a.b." "A" one).0.status ≢ 200)
      × ((handle_delete_resource_record (bolt_store db_json db_bolt) "" "a.b." "A" one).1 ≡ one))
    ⊎ (((handle_delete_resource_record (bolt_store db_json db_bolt) "" "a.b." "A" one).0.status
          ≡ 200)
        × (len "a.b." ≢ 0)
        × (len "A" ≢ 0)
        × ((bolt_store db_json db_bolt).del_record (zone_or_default "") "a.b." "A" one ≡ (
          ok tt,
          (handle_delete_resource_record (bolt_store db_json db_bolt) "" "a.b." "A" one).1,
        )))
handle_delete_resource_record_outcome_example =
    handle_delete_resource_record_outcome (bolt_store db_json db_bolt) net
      (bolt_store-IsDataStore db_json db_bolt) "" "a.b." "A" one

b_ne : "b." ≢ zone_or_default ""
b_ne e = let differ : false ≡ true = (eq_iff "b." ".").1 e in absurd (ground arith)

one_held : db_bolt.get one "b." (key_of db_json "a.b." 1) ≢ none
unfolding one handle_add_resource_records add_record is_valid_input is_valid_record is_valid_address
    is_resource_record_exists rr_type_map exists_loop set_resource_record update set_body
    set_or_create entry_before updated_class rr_class_map find_bucket modify Blob-discrete to_lower
    string_discrete string_dec
one_held = λ e. let differ : true ≡ false = ap is_some e in absurd (ground arith)

replaced :
    (handle_set_resource_records
      (bolt_store db_json db_bolt)
      net
      ""
      "a.b."
      "A"
      (some host)
      one).0.status
    ≡ 200
unfolding one handle_set_resource_records replace_record handle_add_resource_records add_record
    is_valid_input is_valid_record is_valid_address is_resource_record_exists rr_type_map
    exists_loop set_resource_record update set_body set_or_create entry_before updated_class
    rr_class_map find_bucket modify Blob-discrete to_lower string_discrete string_dec
replaced = refl

handle_set_resource_records_splits_example :
    ¬ IsUnique db_bolt
      (handle_set_resource_records (bolt_store db_json db_bolt) net "" "a.b." "A" (some host) one).1
unfolding rr_type_map
handle_set_resource_records_splits_example =
    handle_set_resource_records_splits db_json db_bolt db_bolt-IsBolt net "" "a.b." "A" "b." host 1
      one refl one_held (λ e. b_ne e) replaced
