-- ===== src/DnsServer/Records.antt =====
-- datastore/storeif.go, datastore/boltdb.go and util/const.go: the types and the constants.
use mep.Prelude.{ℕ, String, Option, none, some, List, ◌==◌, if◌then◌else◌}

pub record ResourceRecord : Type 0 where
  pub name : String
  pub type : String
  pub class : String
  pub ttl : ℕ  -- uint32
  pub r_data : List String

-- `DNSConfigRRKey`
pub record RrKey : Type 0 where
  pub host : String
  pub rr_type : ℕ  -- uint16

-- `DNSConfigRRValue`
pub record RrValue : Type 0 where
  pub rr_class : ℕ  -- uint16
  pub point_to : List String
  pub ttl : ℕ  -- uint32

-- `dns.Question`
pub record Question : Type 0 where
  pub name : String
  pub qtype : ℕ
  pub qclass : ℕ

-- `dns.A` and `dns.AAAA`, told apart by `rrtype`; the address is what `net.ParseIP` returns
pub record Rr (Ip : Type 0) : Type 0 where
  pub name : String
  pub rrtype : ℕ
  pub class : ℕ
  pub ttl : ℕ
  pub addr : Option Ip

-- the numbers that RFC 1035 and RFC 3596 give to the types and the classes
abbrev pub type_a : ℕ
type_a = 1

abbrev pub type_aaaa : ℕ
type_aaaa = 28

abbrev pub class_inet : ℕ
class_inet = 1

abbrev pub class_any : ℕ
class_any = 255

abbrev pub max_dns_fqdn_length : ℕ
max_dns_fqdn_length = 253

abbrev pub max_dns_question_length : ℕ
max_dns_question_length = 254

abbrev pub max_ip_length : ℕ
max_ip_length = 45

abbrev pub forward_retry_count : ℕ
forward_retry_count = 3

abbrev pub default_ip : String
default_ip = "0.0.0.0"

unfoldable pub rr_type_map : String → Option ℕ
rr_type_map t = if t == "A" then some type_a else if t == "AAAA" then some type_aaaa else none

unfoldable pub rr_class_map : String → Option ℕ
rr_class_map c =
    if c == "IN"
    then some class_inet
    else if c == "CS"
    then some 2
    else if c == "CH"
    then some 3
    else if c == "HS"
    then some 4
    else if c == "*"
    then some class_any
    else none
