-- ===== src/DnsServer/Store.antt =====
-- datastore/boltdb.go: the operations of the data store. A transaction's body is a function on the
-- contents of the zones; `update` commits it.
pub mod Lookup
pub mod Set
pub mod Unique
pub mod Get
use mep.Prelude.{
  ℕ, String, len, Bool, true, false, ◌||◌, not, Option, none, some, List, [], ◌∷◌, ◌++◌, ◌==◌, eqb,
  leb, if◌then◌else◌, length, Result, ok, err, ◌>>=◌, ◌>>◌, guard, or_err, is_ok, errorf,
}
use mep.DnsServer.Records.{
  ResourceRecord, RrKey, RrValue, Question, Rr, type_a, type_aaaa, class_inet, class_any,
  max_dns_fqdn_length, rr_type_map, rr_class_map,
}
use mep.DnsServer.Names.{to_lower, zones_of}
use mep.DnsServer.Backend.{Json, Bolt, Net, update}

-- a value before any field is set
abbrev pub zero_value : RrValue
zero_value = record { rr_class = 0; point_to = []; ttl = 0 }

-- the completeness test of a new entry
abbrev pub is_incomplete : ResourceRecord → Bool
is_incomplete rr =
    eqb (len rr.name) 0
    || eqb (len rr.type) 0
    || leb max_dns_fqdn_length (len rr.type)
    || eqb (len rr.class) 0
    || leb max_dns_fqdn_length (len rr.class)
    || eqb (length rr.r_data) 0

-- the class of the entry: an empty class keeps the old one
unfoldable pub updated_class : ResourceRecord → RrValue → Result ℕ
updated_class rr v = if eqb (len rr.class) 0 then ok v.rr_class else elim (rr_class_map rr.class) [
  | none ↦ err (errorf "unsupported rrclass(" rr.class ") entry")
  | some c ↦
      if eqb c class_any then err (errorf "unsupported rrclass(" rr.class ") entry") else ok c
]

module _ {B : Type 0} (json : Json B) where
  abbrev pub key_of : String → ℕ → B
  key_of host t = json.key_bytes (record { host = to_lower host; rr_type = t })

  -- the entry that an update starts from: the stored one, or a new one if nothing is stored
  unfoldable pub entry_before : Option B → ResourceRecord → Result RrValue
  entry_before none rr =
      if is_incomplete rr then err "input data error for create dns entry" else ok zero_value
  entry_before (some bytes) rr =
      if eqb (json.size bytes) 0
      then (if is_incomplete rr then err "input data error for create dns entry" else ok zero_value)
      else or_err (json.parse_value bytes) "parsing failed on data retrieval"

  -- `setOrCreateDBEntryGeneration`
  unfoldable pub set_or_create : Option B → ResourceRecord → Result B
  set_or_create conf rr = do
    v ← entry_before conf rr
    c ← updated_class rr v
    ok (
        json.value_bytes (record {
          rr_class = c;
          ttl = rr.ttl;
          point_to = if eqb (length rr.r_data) 0 then v.point_to else rr.r_data;
        }))

module _ {B S : Type 0} (bolt : Bolt B S) where
  -- the loop of `ForEach` in `DelResourceRecord`: the contents, and whether a record was found
  unfoldable pub del_loop : B → List String → S → Bool → Result (S × Bool)
  del_loop key [] s found = ok (s, found)
  del_loop key (zone ∷ zones) s true = del_loop key zones s true
  del_loop key (zone ∷ zones) s false = elim (bolt.is_bucket s zone) [
    | false ↦ err "failed to read the zone entry"
    | true ↦ elim (bolt.get s zone key) [
      | none ↦ del_loop key zones s false
      | some _ ↦ elim (bolt.delete s zone key) [
        | none ↦ err "delete failed"
        | some s' ↦ del_loop key zones s' true
      ]
    ]
  ]

  -- the loop of `ForEach` in `IsResourceRecordExists`
  unfoldable pub exists_loop : B → List String → S → Bool → Result Bool
  exists_loop key [] s found = ok found
  exists_loop key (zone ∷ zones) s true = exists_loop key zones s true
  exists_loop key (zone ∷ zones) s false = elim (bolt.is_bucket s zone) [
    | false ↦ err "failed to read the zone entry"
    | true ↦ elim (bolt.get s zone key) [
      | none ↦ exists_loop key zones s false
      | some _ ↦ exists_loop key zones s true
    ]
  ]

module _ {Ip : Type 0} (net : Net Ip) where
  -- one answer; other types of question get none
  unfoldable pub answer : Question → RrValue → String → List (Rr Ip)
  answer q v ip =
      if eqb q.qtype type_a || eqb q.qtype type_aaaa
      then record {
        name = q.name;
        rrtype = q.qtype;
        class = class_inet;
        ttl = v.ttl;
        addr = net.parse_ip ip;
      }
        ∷ []
      else []

  unfoldable pub answers : Question → RrValue → List String → List (Rr Ip)
  answers q v [] = []
  answers q v (ip ∷ ips) = answer q v ip ++ answers q v ips

module _ {B S : Type 0} (json : Json B) (bolt : Bolt B S) where
  -- the body of the transaction of `SetResourceRecord`
  unfoldable pub set_body : String → B → ResourceRecord → S → Result (S × Unit {0})
  set_body zone key rr s = do
    s' ← or_err (bolt.create s zone) (errorf "zone(" zone ") retrieval failed")
    bytes ← set_or_create json (bolt.get s' zone key) rr
    s'' ← or_err (bolt.put s' zone key bytes) "saving dns entry to data store failed"
    ok (s'', tt)

  unfoldable pub set_resource_record : String → ResourceRecord → S → Result (Unit {0}) × S
  set_resource_record zone rr s = elim (rr_type_map rr.type) [
    | none ↦ (err (errorf "unsupported rrtype(" rr.type ") entry"), s)
    | some t ↦
        if eqb rr.ttl 0
        then (err "unsupported/missing ttl value", s)
        else update bolt (set_body zone (key_of json rr.name t) rr) s
  ]

  -- the result of `DelResourceRecord` after its transaction
  abbrev del_result : String → Result Bool → Result (Unit {0})
  del_result zone (err e) = err "failed to delete dns entry"
  del_result zone (ok found) = guard found (errorf "not found for the zone " zone "")

  unfoldable pub del_resource_record : String → String → String → S → Result (Unit {0}) × S
  del_resource_record zone host rrtypestr s = elim (rr_type_map rrtypestr) [
    | none ↦ (err (errorf "unsupported rrtype(" rrtypestr ") entry"), s)
    | some t ↦
        let (r, s') =
          update bolt (λ s. del_loop bolt (key_of json host t) (bolt.zones s) s false) s in
        (del_result zone r, s')
  ]

  abbrev found_ok : Result Bool → Bool
  found_ok (err e) = false
  found_ok (ok found) = found

  -- The zone is only logged.
  unfoldable pub is_resource_record_exists : String → ResourceRecord → S → Bool
  is_resource_record_exists zone rr s = elim (rr_type_map rr.type) [
    | none ↦ false
    | some t ↦
        if eqb rr.ttl 0
        then false
        else found_ok (exists_loop bolt (key_of json rr.name t) (bolt.zones s) s false)
  ]

  module _ {Ip : Type 0} (net : Net Ip) where
    -- `getRRFromZoneBucket`
    unfoldable pub records_in : String → B → Question → S → List (Rr Ip)
    records_in zone key q s = elim (bolt.get s zone key) [
      | none ↦ []
      | some bytes ↦ elim (json.parse_value bytes) [
        | none ↦ []
        | some v ↦ if eqb v.rr_class q.qclass then answers net q v v.point_to else []
      ]
    ]

    -- the loop of `GetResourceRecord` over the candidate zones, in the order of the Go map
    unfoldable pub first_records : List String → B → Question → S → List (Rr Ip)
    first_records [] key q s = []
    first_records (zone ∷ zones) key q s = elim (bolt.is_bucket s zone) [
      | false ↦ first_records zones key q s
      | true ↦ elim (records_in zone key q s) [ [] ↦ first_records zones key q s | r ∷ rs ↦ r ∷ rs ]
    ]

    -- `range_order` is the order in which Go visits the keys of a map.
    module _ (next_label : String → ℕ → ℕ × Bool) (range_order : List String → List String) where
      abbrev found_records : List (Rr Ip) → Result (List (Rr Ip))
      found_records [] = err "could not process/retrieve the query"
      found_records (r ∷ rs) = ok (r ∷ rs)

      -- `none` is a loop over the labels that has not ended
      unfoldable pub get_resource_record : Question → S → Option (Result (List (Rr Ip)))
      get_resource_record q s = elim (zones_of next_label (to_lower q.name)) [
        | none ↦ none
        | some zones ↦
            some
              (found_records (first_records (range_order zones) (key_of json q.name q.qtype) q s))
      ]
