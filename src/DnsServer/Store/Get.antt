-- ===== src/DnsServer/Store/Get.antt =====
-- datastore/boltdb.go: `GetResourceRecord`, which looks for a name in every zone that it may belong to.
use mep.Prelude.{
  ℕ, zero, suc, ◌+◌, ◌≤◌, ◌<◌, String, len, slice, ◌≡◌, ◌≢◌, ◌⊎◌, ap, sym, ◌∙◌, inl, inr, Bool,
  true, false, some, List, [], ◌∷◌, map, length, arith, ◌==◌, eq_iff, contains, ok, err, Bool-cases,
  Option-cases, contains_tail, contains_head, List-cases, length-map,
}
use mep.DnsServer.Records.{ResourceRecord, Question, Rr, rr_type_map, rr_class_map}
use mep.DnsServer.Names.{add_zone, to_lower, label_zones, zones_of}
use mep.DnsServer.Backend.{Json, Bolt, IsBolt, Net}
use mep.DnsServer.Store.{
  key_of, records_in, first_records, get_resource_record, set_resource_record,
}
use mep.DnsServer.Store.Set.{
  records_in-set_resource_record, expected, set_resource_record-WasSet, WasSet, get-set_self,
  is_bucket-set,
}
use mep.DnsServer.Store.Unique.{IsUnique}

-- What `dns.NextLabel` documents: a next label starts further on, within the name.
pub record IsNextLabel (next_label : String → ℕ → ℕ × Bool) : Type 0 where
  pub forward : (q : String) (off : ℕ) → (next_label q off).1 ≡ false → off < (next_label q off).0
  pub within : (q : String) (off : ℕ) → (next_label q off).1 ≡ false → (next_label q off).0 ≤ len q

-- The keys of a map are visited in some order, all of them and no others.
abbrev pub IsRangeOrder : (List String → List String) → Type 0
IsRangeOrder f = (l : List String) (z : String) → contains (f l) z ≡ contains l z

contains-add_zone : (z : String) (zs : List String) → contains (add_zone z zs) z ≡ true
contains-add_zone z zs = elim (Bool-cases (contains zs z)) [
  | inl there ↦ rw there there
  | inr new ↦ rw new (contains_head z zs)
]

module _ (next_label : String → ℕ → ℕ × Bool) (law : IsNextLabel next_label) where
  label_zones_total :
      (fuel : ℕ) (q : String) (off : ℕ) (zones : List String)
      → off ≤ len q
      → len q < fuel + off
      → (zs : List String) × (label_zones next_label fuel q off zones ≡ some zs)
  unfolding label_zones
  label_zones_total zero q off zones inside h = absurd (omega arith)
  label_zones_total (suc fuel) q off zones inside h = elim (Bool-cases (next_label q off).1) [
    | inl end ↦ (add_zone (slice q off (len q)) zones, rw (end, label_zones))
    | inr on ↦
        let next = (next_label q off).0 in
        rw (on, label_zones)
          (label_zones_total fuel q next (add_zone (slice q off (len q)) zones)
            (law.within q off on) (omega (arith, law.forward q off on)))
  ]

  -- The loop over the labels of a name ends, and the default zone is a candidate.
  pub zones_of_total :
      (q : String)
      → (zs : List String) × (zones_of next_label q ≡ some zs) × (contains zs "." ≡ true)
  unfolding zones_of
  zones_of_total q =
      let (zs, e) = label_zones_total (suc (len q)) q 0 [] (omega arith) (omega arith) in
      (add_zone "." zs, rw (e, zones_of), contains-add_zone "." zs)

module _ {B S Ip : Type 0} (json : Json B) (bolt : Bolt B S) (net : Net Ip) where
  -- The zones before the one that has records are passed over.
  first_records_only :
      (zones : List String) (key : B) (q : Question) (s : S) (zone : String) (r : Rr Ip)
      (rs : List (Rr Ip))
      → contains zones zone ≡ true
      → bolt.is_bucket s zone ≡ true
      → records_in json bolt net zone key q s ≡ r ∷ rs
      → ((z : String) → z ≢ zone → records_in json bolt net z key q s ≡ [])
      → first_records json bolt net zones key q s ≡ r ∷ rs
  unfolding first_records
  first_records_only [] key q s zone r rs listed bucket here others = cc
  first_records_only (z ∷ zones) key q s zone r rs listed bucket here others =
      elim (Bool-cases (z == zone)) [
        | inl same ↦
            let at_zone = (eq_iff z zone).0 same in
            rw at_zone (rw (bucket, first_records) (rw here))
        | inr differ ↦
            let empty = others z (λ e. ground (arith, eq_iff z zone)) in
            let later =
              first_records_only zones key q s zone r rs (ground arith) bucket here others in
            elim (Bool-cases (bolt.is_bucket s z)) [
              | inl open_bucket ↦ rw (open_bucket, empty, first_records) later
              | inr closed ↦ rw (closed, first_records) later
            ]
      ]

  -- what some candidate zone holds
  abbrev pub FoundIn : List String → B → Question → S → List (Rr Ip) → Type 0
  FoundIn zones key q s rs =
      (z : String) × (contains zones z ≡ true)
      × (bolt.is_bucket s z ≡ true)
      × (records_in json bolt net z key q s ≡ rs)

  FoundIn-cons :
      (z : String) (zones : List String) (key : B) (q : Question) (s : S) (rs : List (Rr Ip))
      → FoundIn zones key q s rs
      → FoundIn (z ∷ zones) key q s rs
  FoundIn-cons z zones key q s rs (x, listed, bucket, here) =
      (x, contains_tail z x zones listed, bucket, here)

  pub first_records-FoundIn :
      (zones : List String) (key : B) (q : Question) (s : S) (r : Rr Ip) (rs : List (Rr Ip))
      → first_records json bolt net zones key q s ≡ r ∷ rs
      → FoundIn zones key q s (r ∷ rs)
  unfolding first_records
  first_records-FoundIn [] key q s r rs h = cc
  first_records-FoundIn (z ∷ zones) key q s r rs h = elim (Bool-cases (bolt.is_bucket s z)) [
    | inr closed ↦
        FoundIn-cons z zones key q s (r ∷ rs)
          (first_records-FoundIn zones key q s r rs (rw (closed, first_records) at h))
    | inl bucket ↦ elim (List-cases (records_in json bolt net z key q s)) [
      | inl empty ↦
          FoundIn-cons z zones key q s (r ∷ rs)
            (first_records-FoundIn zones key q s r rs (rw (bucket, empty, first_records) at h))
      | inr (x, xs, some_here) ↦ (
        z,
        contains_head z zones,
        bucket,
        some_here ∙ (rw (bucket, some_here, first_records) at h),
      )
    ]
  ]

  module _ (law : IsBolt bolt) (zone : String) (rr : ResourceRecord) (s s' : S)
      (w : WasSet json bolt zone rr s s') (unique : IsUnique bolt s') where
    -- No other zone has records of the key that was set.
    records_in_other :
        (q : Question) (z : String)
        → z ≢ zone
        → records_in json bolt net z (key_of json rr.name w.t) q s' ≡ []
    unfolding records_in
    records_in_other q z differ = elim (Option-cases (bolt.get s' z (key_of json rr.name w.t))) [
      | inl absent ↦ rw (absent, records_in)
      | inr (bytes, there) ↦
          let here = get-set_self json bolt law w in
          absurd (differ (unique.same_zone (key_of json rr.name w.t) z zone (λ e. cc) (λ e. cc)))
    ]

-- `GetResourceRecord` always ends, and answers with what some candidate zone of the name holds for
-- the name and the type asked, or with an error; in whatever order Go visits the candidates.
pub get_resource_record_sound :
    {B S Ip : Type 0} (json : Json B) (bolt : Bolt B S) (net : Net Ip)
    (next_label : String → ℕ → ℕ × Bool) (range_order : List String → List String)
    → IsNextLabel next_label
    → IsRangeOrder range_order
    → (q : Question) (s : S)
    → (zs : List String) × (zones_of next_label (to_lower q.name) ≡ some zs)
      × (contains zs "." ≡ true)
      × ((get_resource_record json bolt net next_label range_order q s
            ≡ some (err "could not process/retrieve the query"))
          ⊎ ((r : Rr Ip) × (rs : List (Rr Ip)) × (get_resource_record json bolt net next_label
                  range_order q s
                ≡ some (ok (r ∷ rs)))
              × FoundIn json bolt net zs (key_of json q.name q.qtype) q s (r ∷ rs)))
unfolding get_resource_record
get_resource_record_sound json bolt net next_label range_order nl ro q s =
    let (zs, e, default) = zones_of_total next_label nl (to_lower q.name) in
    let key = key_of json q.name q.qtype in
    (
      zs,
      e,
      default,
      elim (List-cases (first_records json bolt net (range_order zs) key q s)) [
        | inl none_found ↦ inl (rw (e, get_resource_record) (rw none_found))
        | inr (r, rs, found) ↦
            let (z, listed, bucket, here) =
              first_records-FoundIn json bolt net (range_order zs) key q s r rs found in
            inr (
              r,
              rs,
              rw (e, get_resource_record) (rw found),
              (z, sym (ro zs z) ∙ listed, bucket, here),
            )
      ],
    )

-- After a record with a class and at least one address was set in a zone that its name may belong to,
-- and if each key then stands in at most one zone, a question for its name (in any case), its type and
-- its class gets one answer for each address, in order, whatever the order of the map.
pub get-set_resource_record :
    {B S Ip : Type 0} (json : Json B) (bolt : Bolt B S) (net : Net Ip)
    (next_label : String → ℕ → ℕ × Bool) (range_order : List String → List String)
    → IsBolt bolt
    → IsRangeOrder range_order
    → (zone : String) (rr : ResourceRecord) (q : Question) (s s' : S) (zs : List String)
    → len rr.class ≢ 0
    → length rr.r_data ≢ 0
    → to_lower q.name ≡ to_lower rr.name
    → rr_type_map rr.type ≡ some q.qtype
    → rr_class_map rr.class ≡ some q.qclass
    → zones_of next_label (to_lower q.name) ≡ some zs
    → contains zs zone ≡ true
    → set_resource_record json bolt zone rr s ≡ (ok tt, s')
    → IsUnique bolt s'
    → get_resource_record json bolt net next_label range_order q s'
      ≡ some (ok (map (expected net q rr.ttl) rr.r_data))
unfolding get_resource_record
get-set_resource_record json bolt net next_label range_order law ro zone rr q s s' zs named filled
      name type class candidates candidate h unique =
    let w = set_resource_record-WasSet json bolt zone rr s s' h in
    let t_eq : w.t ≡ q.qtype = ground arith in
    let key_eq : key_of json rr.name w.t ≡ key_of json q.name q.qtype =
      λ i. json.key_bytes (record { host = sym name i; rr_type = t_eq i }) in
    let here =
      records_in-set_resource_record json bolt net law zone rr q s s' named filled name type class
        h in
    let others = λ (z : String) (differ : z ≢ zone).
      ap (λ k. records_in json bolt net z k q s') (sym key_eq)
      ∙ records_in_other json bolt net law zone rr s s' w unique q z differ in
    let key = key_of json q.name q.qtype in
    elim (List-cases (map (expected net q rr.ttl) rr.r_data)) [
      | inl empty ↦
          absurd (filled (sym (length-map rr.r_data (expected net q rr.ttl)) ∙ ap length empty))
      | inr (r, rs, e) ↦
          let found =
            first_records_only json bolt net (range_order zs) key q s' zone r rs
              (ro zs zone ∙ candidate) (is_bucket-set json bolt law w) (here ∙ e) others in
          rw (candidates, get_resource_record) (rw (found, e))
    ]
