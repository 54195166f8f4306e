-- ===== src/DnsServer/Store/Set.antt =====
-- datastore/boltdb.go: what `SetResourceRecord` writes, and what a query then reads.
use mep.Prelude.{
  ℕ, String, len, ◌≡◌, ◌≢◌, ◌⊎◌, refl, ap, sym, ◌∙◌, inl, inr, true, Option, some, List, [], ◌∷◌,
  map, arith, eqb, length, ok, err, Bool-cases, Option-cases, >>=-eq-ok, Result-cases, or_err-eq-ok,
  eq_refl, eqb_refl,
}
use mep.DnsServer.Records.{
  ResourceRecord, RrValue, Question, Rr, class_inet, rr_type_map, rr_class_map,
}
use mep.DnsServer.Names.{to_lower}
use mep.DnsServer.Backend.{Json, Bolt, IsBolt, Net, update-ok, update-err}
use mep.DnsServer.Store.{
  entry_before, updated_class, key_of, set_or_create, set_body, set_resource_record, answer,
  answers, records_in,
}

module _ {B S : Type 0} (json : Json B) (bolt : Bolt B S) where
  -- what a successful `SetResourceRecord` has done: made sure of the bucket, then written the entry
  pub record WasSet (zone : String) (rr : ResourceRecord) (s s' : S) : Type 0 where
    pub t : ℕ
    pub made : S
    pub bytes : B
    pub known : rr_type_map rr.type ≡ some t
    pub ttl : rr.ttl ≢ 0
    pub created : bolt.create s zone ≡ some made
    pub entry : set_or_create json (bolt.get made zone (key_of json rr.name t)) rr ≡ ok bytes
    pub written : bolt.put made zone (key_of json rr.name t) bytes ≡ some s'

  set_body-ok :
      (zone : String) (key : B) (rr : ResourceRecord) (s s' : S)
      → set_body json bolt zone key rr s ≡ ok (s', tt)
      → (made : S) × (bytes : B) × (bolt.create s zone ≡ some made)
        × (set_or_create json (bolt.get made zone key) rr ≡ ok bytes)
        × (bolt.put made zone key bytes ≡ some s')
  unfolding set_body
  set_body-ok zone key rr s s' h =
      let (made, made_ok, h1) = >>=-eq-ok _ _ h in
      let (bytes, entry, h2) = >>=-eq-ok _ _ h1 in
      let (t, put_ok, h3) = >>=-eq-ok _ _ h2 in
      (made, bytes, or_err-eq-ok _ _ made_ok, entry, or_err-eq-ok _ _ put_ok ∙ ground arith)

  pub set_resource_record-WasSet :
      (zone : String) (rr : ResourceRecord) (s s' : S)
      → set_resource_record json bolt zone rr s ≡ (ok tt, s')
      → WasSet zone rr s s'
  unfolding set_resource_record
  set_resource_record-WasSet zone rr s s' h = elim (Option-cases (rr_type_map rr.type)) [
    | inl unknown ↦ absurd (ground arith)
    | inr (t, known) ↦ elim (Bool-cases (eqb rr.ttl 0)) [
      | inl zero_ttl ↦ absurd (ground arith)
      | inr positive ↦
          let fn = set_body json bolt zone (key_of json rr.name t) rr in
          let (body, _) = update-ok bolt fn s s' tt (ground arith) in
          let (made, bytes, created, entry, written) =
            set_body-ok zone (key_of json rr.name t) rr s s' body in
          record {
            t = t;
            made = made;
            bytes = bytes;
            known = known;
            ttl = ground arith;
            created = created;
            entry = entry;
            written = written;
          }
    ]
  ]

  -- A failed `SetResourceRecord` changes nothing.
  pub set_resource_record-err :
      (zone : String) (rr : ResourceRecord) (s s' : S) (e : String)
      → set_resource_record json bolt zone rr s ≡ (err e, s')
      → s' ≡ s
  unfolding set_resource_record
  set_resource_record-err zone rr s s' e h = elim (Option-cases (rr_type_map rr.type)) [
    | inl unknown ↦ ground arith
    | inr (t, known) ↦ elim (Bool-cases (eqb rr.ttl 0)) [
      | inl zero_ttl ↦ ground arith
      | inr positive ↦
          update-err bolt (set_body json bolt zone (key_of json rr.name t) rr) s s' e (ground arith)
    ]
  ]

  module _ (law : IsBolt bolt) {zone : String} {rr : ResourceRecord} {s s' : S}
      (w : WasSet zone rr s s') where
    -- Every other entry is as it was.
    pub get-set_ne :
        (j : String) (l : B)
        → (zone ≢ j) ⊎ (key_of json rr.name w.t ≢ l)
        → bolt.get s' j l ≡ bolt.get s j l
    get-set_ne j l other =
        law.get-put_ne w.made s' zone j (key_of json rr.name w.t) l w.bytes w.written other
        ∙ law.get-create s w.made zone j l w.created

    pub get-set_self : bolt.get s' zone (key_of json rr.name w.t) ≡ some w.bytes
    get-set_self = law.get-put_self w.made s' zone (key_of json rr.name w.t) w.bytes w.written

    pub is_bucket-set : bolt.is_bucket s' zone ≡ true
    is_bucket-set =
        law.is_bucket-put w.made s' zone zone (key_of json rr.name w.t) w.bytes w.written
        ∙ law.is_bucket-create s w.made zone zone w.created
        ∙ rw (eq_refl zone)

-- The value that a complete record is stored as, whatever was stored before.
abbrev pub stored_value : ResourceRecord → ℕ → RrValue
stored_value rr c = record { rr_class = c; point_to = rr.r_data; ttl = rr.ttl }

module _ {B : Type 0} (json : Json B) where
  updated_class-known :
      (rr : ResourceRecord) (v : RrValue) (c d : ℕ)
      → len rr.class ≢ 0
      → rr_class_map rr.class ≡ some c
      → updated_class rr v ≡ ok d
      → d ≡ c
  unfolding updated_class
  updated_class-known rr v c d named known h = ground arith

  pub set_or_create_complete :
      (conf : Option B) (rr : ResourceRecord) (c : ℕ) (bytes : B)
      → len rr.class ≢ 0
      → length rr.r_data ≢ 0
      → rr_class_map rr.class ≡ some c
      → set_or_create json conf rr ≡ ok bytes
      → bytes ≡ json.value_bytes (stored_value rr c)
  unfolding set_or_create
  set_or_create_complete conf rr c bytes named filled known h =
      elim (Result-cases (entry_before json conf rr)) [
        | inr (e, failed) ↦ absurd (ground arith)
        | inl (v, before) ↦ elim (Result-cases (updated_class rr v)) [
          | inr (e, failed) ↦ absurd (ground arith)
          | inl (d, class_ok) ↦ ground (arith, updated_class-known rr v c d named known class_ok)
        ]
      ]

module _ {Ip : Type 0} (net : Net Ip) where
  -- the answer for one address
  abbrev pub expected : Question → ℕ → String → Rr Ip
  expected q ttl ip = record {
    name = q.name;
    rrtype = q.qtype;
    class = class_inet;
    ttl = ttl;
    addr = net.parse_ip ip;
  }

  answers-map :
      (q : Question) (v : RrValue) (t : String) (ips : List String)
      → rr_type_map t ≡ some q.qtype
      → answers net q v ips ≡ map (expected q v.ttl) ips
  unfolding answers answer rr_type_map
  answers-map q v t [] known = refl
  answers-map q v t (ip ∷ ips) known = ground (arith, answers-map q v t ips known)

-- After a record was set, a question for its name, its type and its class, in whatever case the name
-- is written, finds in that zone one answer for each address of the record, in its order, each with
-- its time to live, whatever the zone held before.
pub records_in-set_resource_record :
    {B S Ip : Type 0} (json : Json B) (bolt : Bolt B S) (net : Net Ip)
    → IsBolt bolt
    → (zone : String) (rr : ResourceRecord) (q : Question) (s s' : S) → len rr.class ≢ 0
    → length rr.r_data ≢ 0
    → to_lower q.name ≡ to_lower rr.name
    → rr_type_map rr.type ≡ some q.qtype
    → rr_class_map rr.class ≡ some q.qclass
    → set_resource_record json bolt zone rr s ≡ (ok tt, s')
    → records_in json bolt net zone (key_of json q.name q.qtype) q s'
      ≡ map (expected net q rr.ttl) rr.r_data
unfolding records_in
records_in-set_resource_record json bolt net law zone rr q s s' named filled name type class h =
    let w = set_resource_record-WasSet json bolt zone rr s s' h in
    let t_eq : w.t ≡ q.qtype = ground arith in
    let key_eq : key_of json q.name q.qtype ≡ key_of json rr.name w.t =
      λ i. json.key_bytes (record { host = name i; rr_type = sym t_eq i }) in
    let bytes_eq = set_or_create_complete json _ rr q.qclass w.bytes named filled class w.entry in
    let got : bolt.get s' zone (key_of json q.name q.qtype)
        ≡ some (json.value_bytes (stored_value rr q.qclass)) =
      rw key_eq (get-set_self json bolt law w ∙ ap some bytes_eq) in
    rw (got, records_in)
      (rw (json.parse_value-value_bytes (stored_value rr q.qclass), eqb_refl q.qclass)
        (answers-map net q (stored_value rr q.qclass) rr.type rr.r_data type))
