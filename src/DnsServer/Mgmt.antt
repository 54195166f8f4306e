-- ===== src/DnsServer/Mgmt.antt =====
-- mgmt/controller.go and datastore/storeif.go: the HTTP interface that manages the records. A handler
-- takes the parts of its request that it reads; a body that `Bind` cannot decode is `none`.
pub mod Outcomes
pub mod Keys
use mep.Prelude.{
  ℕ, String, len, Bool, true, false, ◌||◌, ◌&&◌, not, Option, none, some, List, [], ◌∷◌, ◌==◌, eqb,
  leb, ltb, if◌then◌else◌, length, all, Result, ok, err,
}
use mep.DnsServer.Records.{ResourceRecord, max_dns_fqdn_length, max_ip_length}
use mep.DnsServer.Backend.{Json, Bolt, Net}
use mep.DnsServer.Store.{set_resource_record, del_resource_record, is_resource_record_exists}

-- the part of the `DataStore` interface that the controller calls
pub record DataStore (S : Type 0) : Type 0 where
  pub set_record : String → ResourceRecord → S → Result (Unit {0}) × S
  pub del_record : String → String → String → S → Result (Unit {0}) × S
  pub record_exists : String → ResourceRecord → S → Bool

-- `BoltDB` as a `DataStore`
abbrev pub bolt_store : {B S : Type 0} → Json B → Bolt B S → DataStore S
bolt_store json bolt = record {
  set_record = set_resource_record json bolt;
  del_record = del_resource_record json bolt;
  record_exists = is_resource_record_exists json bolt;
}

pub record Response : Type 0 where
  pub status : ℕ
  pub body : String

abbrev pub bad_request : String → Response
bad_request text = record { status = 400; body = text }

abbrev pub server_error : String → Response
server_error text = record { status = 500; body = text }

abbrev pub status_ok : String → Response
status_ok text = record { status = 200; body = text }

-- the zone of a request: the default zone if it names none
abbrev pub zone_or_default : String → String
zone_or_default zone = if eqb (len zone) 0 then "." else zone

module _ {Ip : Type 0} (net : Net Ip) where
  -- the test of one address in `validateResourceRecords`
  unfoldable pub is_valid_address : String → Bool
  is_valid_address r =
      not (eqb (len r) 0) && not (ltb max_ip_length (len r)) && elim (net.parse_ip r) [
        | none ↦ false
        | some ip ↦ not (net.is_multicast ip) && not (net.is_bcast ip)
      ]

  -- `validateResourceRecords`
  unfoldable pub is_valid_record : ResourceRecord → Bool
  is_valid_record rr =
      not (
        eqb rr.ttl 0
        || eqb (len rr.name) 0
        || ltb max_dns_fqdn_length (len rr.name)
        || eqb (length rr.r_data) 0
        || eqb (len rr.type) 0
        || ltb max_dns_fqdn_length (len rr.type)
        || eqb (len rr.class) 0
        || ltb max_dns_fqdn_length (len rr.class))
      && all is_valid_address rr.r_data

  -- `validateSetRecordInput`
  unfoldable pub is_valid_input : String → ResourceRecord → Bool
  is_valid_input zone rr = not (leb max_dns_fqdn_length (len zone)) && is_valid_record rr

module _ {S : Type 0} (store : DataStore S) where
  -- the answer to a request to set a record, from the result of the store
  abbrev set_response : String → Result (Unit {0}) × S → Response × S
  set_response done (ok _, s) = (status_ok done, s)
  set_response done (err e, s) = (server_error e, s)

  module _ {Ip : Type 0} (net : Net Ip) where
    -- `handleAddResourceRecords` after the body was decoded
    unfoldable pub add_record : String → ResourceRecord → S → Response × S
    add_record zone rr s =
        if is_valid_input net zone rr
        then (if store.record_exists zone rr s
            then (bad_request "record already exists!", s)
            else set_response "success in adding rr entry." (store.set_record zone rr s))
        else (bad_request "invalid input!", s)

    unfoldable pub handle_add_resource_records : String → Option ResourceRecord → S → Response × S
    handle_add_resource_records zone none s = (bad_request "invalid input!", s)
    handle_add_resource_records zone (some rr) s = add_record (zone_or_default zone) rr s

    -- `handleSetResourceRecords` after its parameters were compared with the body
    unfoldable pub replace_record : String → ResourceRecord → S → Response × S
    replace_record zone rr s =
        if is_valid_input net zone rr
        then (if store.record_exists zone rr s
            then set_response "success in updating rr entry." (store.set_record zone rr s)
            else (bad_request "record not exist, cannot update!", s))
        else (bad_request "invalid input!", s)

    unfoldable pub handle_set_resource_records :
        String → String → String → Option ResourceRecord → S → Response × S
    handle_set_resource_records zone fqdn rrtype none s = (bad_request "invalid input!", s)
    handle_set_resource_records zone fqdn rrtype (some rr) s =
        if eqb (len fqdn) 0 || eqb (len rrtype) 0
        then (bad_request "invalid input parameters!", s)
        else if not (fqdn == rr.name) || not (rrtype == rr.type)
        then (bad_request "input not match with rr resource", s)
        else replace_record (zone_or_default zone) rr s

  abbrev del_response : Result (Unit {0}) × S → Response × S
  del_response (ok _, s) = (status_ok "Success", s)
  del_response (err e, s) = (server_error "Error in retrieving the data.", s)

  unfoldable pub handle_delete_resource_record : String → String → String → S → Response × S
  handle_delete_resource_record zone fqdn rrtype s =
      if eqb (len fqdn) 0 || eqb (len rrtype) 0 || leb max_dns_fqdn_length (len zone)
      then (bad_request "invalid input parameters!", s)
      else del_response (store.del_record (zone_or_default zone) fqdn rrtype s)
