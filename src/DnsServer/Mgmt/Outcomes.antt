-- ===== src/DnsServer/Mgmt/Outcomes.antt =====
-- mgmt/controller.go: the answers of the handlers against what they leave in the store, over any data
-- store that keeps the promise of `DataStore` that a failed call changes nothing.
use mep.Prelude.{
  String, len, ◌≡◌, ◌≢◌, ◌≤◌, ◌<◌, ◌⊎◌, refl, subst⁻¹, ◌∙◌, inl, inr, Bool, true, false, Option,
  none, some, List, [], ◌∷◌, ◌||◌, not, ◌==◌, eq_iff, arith, eqb, leb, length, All, all, ok, err,
  Bool-cases, Option-cases, Result-cases,
}
use mep.DnsServer.Records.{ResourceRecord}
use mep.DnsServer.Backend.{Json, Bolt, Net}
use mep.DnsServer.Store.Set.{set_resource_record-err}
use mep.DnsServer.Store.Unique.{del_resource_record-err}
use mep.DnsServer.Mgmt.{
  DataStore, bolt_store, Response, zone_or_default, is_valid_address, is_valid_record,
  is_valid_input, add_record, handle_add_resource_records, replace_record,
  handle_set_resource_records, handle_delete_resource_record,
}

-- A call that fails leaves the store as it was.
pub record IsDataStore {S : Type 0} (store : DataStore S) : Type 0 where
  pub set_err :
      (zone : String) (rr : ResourceRecord) (s s' : S) (e : String)
      → store.set_record zone rr s ≡ (err e, s')
      → s' ≡ s
  pub del_err :
      (zone host rrtype : String) (s s' : S) (e : String)
      → store.del_record zone host rrtype s ≡ (err e, s')
      → s' ≡ s

pub bolt_store-IsDataStore :
    {B S : Type 0} (json : Json B) (bolt : Bolt B S) → IsDataStore (bolt_store json bolt)
bolt_store-IsDataStore json bolt = record {
  set_err = set_resource_record-err json bolt;
  del_err = del_resource_record-err json bolt;
}

module _ {Ip : Type 0} (net : Net Ip) where
  -- an address that is accepted: parsed, not multicast, not the broadcast address, of sane length
  abbrev pub IsUsable : String → Type 0
  IsUsable r =
      (ip : Ip) × (net.parse_ip r ≡ some ip)
      × (net.is_multicast ip ≡ false)
      × (net.is_bcast ip ≡ false)
      × (len r ≤ 45)

  pub record IsComplete (rr : ResourceRecord) : Type 0 where
    pub ttl : rr.ttl ≢ 0
    pub name : (len rr.name ≢ 0) × (len rr.name ≤ 253)
    pub type : (len rr.type ≢ 0) × (len rr.type ≤ 253)
    pub class : (len rr.class ≢ 0) × (len rr.class ≤ 253)
    pub filled : length rr.r_data ≢ 0
    pub usable : All IsUsable rr.r_data

  IsUsable-of_test : (r : String) → is_valid_address net r ≡ true → IsUsable r
  unfolding is_valid_address
  IsUsable-of_test r h = elim (Option-cases (net.parse_ip r)) [
    | inl unparsed ↦ absurd (ground arith)
    | inr (ip, parsed) ↦ (ip, parsed, ground arith, ground arith, ground arith)
  ]

  all-IsUsable : (l : List String) → all (is_valid_address net) l ≡ true → All IsUsable l
  all-IsUsable [] h = tt
  all-IsUsable (r ∷ l) h = (IsUsable-of_test r (ground arith), all-IsUsable l (ground arith))

  valid_parts :
      (zone : String) (rr : ResourceRecord)
      → is_valid_input net zone rr ≡ true
      → (all (is_valid_address net) rr.r_data ≡ true)
        × (rr.ttl ≢ 0)
        × (len zone < 253)
        × (length rr.r_data ≢ 0)
        × (len rr.name ≢ 0)
        × (len rr.name ≤ 253)
        × (len rr.type ≢ 0)
        × (len rr.type ≤ 253)
        × (len rr.class ≢ 0)
        × (len rr.class ≤ 253)
  unfolding is_valid_input is_valid_record
  valid_parts zone rr h = ground arith

  pub is_valid_input-IsComplete :
      (zone : String) (rr : ResourceRecord)
      → is_valid_input net zone rr ≡ true
      → IsComplete rr × (len zone < 253)
  is_valid_input-IsComplete zone rr h =
      let p = valid_parts zone rr h in
      (
        record {
          ttl = p.1;
          name = (p.4, p.5);
          type = (p.6, p.7);
          class = (p.8, p.9);
          filled = p.3;
          usable = all-IsUsable rr.r_data p.0;
        },
        p.2,
      )

module _ {S Ip : Type 0} (store : DataStore S) (net : Net Ip) where
  -- what holds of a record that the store was asked to set, and has set
  pub record IsAccepted (zone : String) (rr : ResourceRecord) (existed : Bool) (s s' : S)
      : Type 0 where
    pub complete : IsComplete net rr
    pub zone_length : len zone < 253
    pub existence : store.record_exists zone rr s ≡ existed
    pub stored : store.set_record zone rr s ≡ (ok tt, s')

  module _ (law : IsDataStore store) where
    module _ (zone : String) (rr : ResourceRecord) (s : S) where
      -- the two ends of a request to set a record that passed its tests
      set_cases :
          (store.set_record zone rr s ≡ (ok tt, (store.set_record zone rr s).1))
          ⊎ ((e : String) × (store.set_record zone rr s ≡ (err e, s)))
      set_cases = elim (Result-cases (store.set_record zone rr s).0) [
        | inl (tt, done) ↦ inl (λ i. (done i, (store.set_record zone rr s).1))
        | inr (e, failed) ↦
            let s' = (store.set_record zone rr s).1 in
            let here : store.set_record zone rr s ≡ (err e, s') = λ i. (failed i, s') in
            inr (e, here ∙ (λ i. (err e, law.set_err zone rr s s' e here i)))
      ]

      add_record_cases :
          (((add_record store net zone rr s).0.status ≢ 200)
            × ((add_record store net zone rr s).1 ≡ s))
          ⊎ (((add_record store net zone rr s).0.status ≡ 200)
              × IsAccepted zone rr false s (add_record store net zone rr s).1)
      unfolding add_record
      add_record_cases = elim (Bool-cases (is_valid_input net zone rr)) [
        | inr invalid ↦ inl (ground arith, ground arith)
        | inl valid ↦ elim (Bool-cases (store.record_exists zone rr s)) [
          | inl there ↦ inl (ground arith, ground arith)
          | inr new ↦ elim set_cases [
            | inr (e, failed) ↦ inl (ground arith, ground arith)
            | inl done ↦
                let (complete, short) = is_valid_input-IsComplete net zone rr valid in
                inr (
                  ground arith,
                  record {
                    complete = complete;
                    zone_length = short;
                    existence = new;
                    stored = ground arith;
                  },
                )
          ]
        ]
      ]

      replace_record_cases :
          (((replace_record store net zone rr s).0.status ≢ 200)
            × ((replace_record store net zone rr s).1 ≡ s))
          ⊎ (((replace_record store net zone rr s).0.status ≡ 200)
              × IsAccepted zone rr true s (replace_record store net zone rr s).1)
      unfolding replace_record
      replace_record_cases = elim (Bool-cases (is_valid_input net zone rr)) [
        | inr invalid ↦ inl (ground arith, ground arith)
        | inl valid ↦ elim (Bool-cases (store.record_exists zone rr s)) [
          | inr missing ↦ inl (ground arith, ground arith)
          | inl there ↦ elim set_cases [
            | inr (e, failed) ↦ inl (ground arith, ground arith)
            | inl done ↦
                let (complete, short) = is_valid_input-IsComplete net zone rr valid in
                inr (
                  ground arith,
                  record {
                    complete = complete;
                    zone_length = short;
                    existence = there;
                    stored = ground arith;
                  },
                )
          ]
        ]
      ]

    -- A request to add a record either changes nothing and is answered with an error, or is answered
    -- with 200, and then its body was a complete record of usable addresses, in a zone of legal
    -- length, that the store did not have, and the store has set it.
    pub handle_add_resource_records_outcome :
        (zone : String) (body : Option ResourceRecord) (s : S)
        → let (r, s') = handle_add_resource_records store net zone body s in
          ((r.status ≢ 200) × (s' ≡ s))
          ⊎ ((r.status ≡ 200)
              × (rr : ResourceRecord) × (body ≡ some rr)
              × IsAccepted (zone_or_default zone) rr false s s')
    unfolding handle_add_resource_records
    handle_add_resource_records_outcome zone none s = inl (ground arith, refl)
    handle_add_resource_records_outcome zone (some rr) s =
        elim (add_record_cases (zone_or_default zone) rr s) [
          | inl refused ↦ inl refused
          | inr (fine, accepted) ↦ inr (fine, rr, refl, accepted)
        ]

    abbrev pub Answered :
        String → String → String → Option ResourceRecord → S → Response × S → Type 0
    Answered zone fqdn rrtype body s o =
        ((o.0.status ≢ 200) × (o.1 ≡ s))
        ⊎ ((o.0.status ≡ 200)
            × (rr : ResourceRecord) × (body ≡ some rr)
            × (rr.name ≡ fqdn)
            × (rr.type ≡ rrtype)
            × IsAccepted (zone_or_default zone) rr true s o.1)

    -- A request to replace a record either changes nothing and is answered with an error, or is
    -- answered with 200, and then its body was a complete record with the name and the type of its
    -- path, that the store had, and the store has set it.
    pub handle_set_resource_records_outcome :
        (zone fqdn rrtype : String) (body : Option ResourceRecord) (s : S)
        → Answered zone fqdn rrtype body s
            (handle_set_resource_records store net zone fqdn rrtype body s)
    unfolding handle_set_resource_records
    handle_set_resource_records_outcome zone fqdn rrtype none s = inl (ground arith, refl)
    handle_set_resource_records_outcome zone fqdn rrtype (some rr) s =
        elim (Bool-cases (eqb (len fqdn) 0 || eqb (len rrtype) 0)) [
          | inl empty ↦ inl (ground arith, ground arith)
          | inr named ↦ elim (Bool-cases (not (fqdn == rr.name) || not (rrtype == rr.type))) [
            | inl differs ↦ inl (ground arith, ground arith)
            | inr same ↦
                let passed : handle_set_resource_records store net zone fqdn rrtype (some rr) s
                    ≡ replace_record store net (zone_or_default zone) rr s =
                  rw (named, same, handle_set_resource_records) in
                subst⁻¹ (λ r. Answered zone fqdn rrtype (some rr) s r) passed
                  (elim (replace_record_cases (zone_or_default zone) rr s) [
                    | inl refused ↦ inl refused
                    | inr (fine, accepted) ↦ inr (
                      fine,
                      rr,
                      refl,
                      ground (arith, eq_iff fqdn rr.name),
                      ground (arith, eq_iff rrtype rr.type),
                      accepted,
                    )
                  ])
          ]
        ]

    -- A deletion either changes nothing and is answered with an error, or is answered with 200, and
    -- then the store has deleted the record of the path.
    pub handle_delete_resource_record_outcome :
        (zone fqdn rrtype : String) (s : S)
        → let (r, s') = handle_delete_resource_record store zone fqdn rrtype s in
          ((r.status ≢ 200) × (s' ≡ s))
          ⊎ ((r.status ≡ 200)
              × (len fqdn ≢ 0)
              × (len rrtype ≢ 0)
              × (store.del_record (zone_or_default zone) fqdn rrtype s ≡ (ok tt, s')))
    unfolding handle_delete_resource_record
    handle_delete_resource_record_outcome zone fqdn rrtype s =
        let z = zone_or_default zone in
        let s' = (store.del_record z fqdn rrtype s).1 in
        elim (Bool-cases (eqb (len fqdn) 0 || eqb (len rrtype) 0 || leb 253 (len zone))) [
          | inl bad ↦ inl (ground arith, ground arith)
          | inr fine ↦ elim (Result-cases (store.del_record z fqdn rrtype s).0) [
            | inr (e, failed) ↦ inl (
              ground arith,
              ground (arith, law.del_err z fqdn rrtype s s' e (λ i. (failed i, s'))),
            )
            | inl (tt, done) ↦ inr (ground arith, ground arith, ground arith, ground arith)
          ]
        ]
