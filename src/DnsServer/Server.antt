-- ===== src/DnsServer/Server.antt =====
-- dns.go: the answer to one query. What the handler sends goes to a log of the wire. The messages, the
-- exchange with the forwarder and the shuffle are package dns's and package rand's.
pub mod Replies
use mep.Prelude.{
  ℕ, zero, suc, ◌+◌, String, len, Bool, true, false, ◌&&◌, Option, none, some, List, [], ◌∷◌, ◌++◌,
  ◌==◌, eqb, ltb, if◌then◌else◌, length, Result, ok, err, errorf,
}
use mep.DnsServer.Records.{Question, max_dns_question_length, forward_retry_count, default_ip}

-- `dns.Msg`, the parts that the server reads or sets; `A` is `dns.RR`
pub record Msg (A : Type 0) : Type 0 where
  pub id : ℕ
  pub opcode : ℕ
  pub rcode : ℕ
  pub authoritative : Bool
  pub question : List Question
  pub answer : List A

-- dns.OpcodeQuery and the codes of RFC 1035
abbrev pub opcode_query : ℕ
opcode_query = 0

abbrev pub rcode_success : ℕ
rcode_success = 0

abbrev pub rcode_format_error : ℕ
rcode_format_error = 1

abbrev pub rcode_server_failure : ℕ
rcode_server_failure = 2

abbrev pub rcode_refused : ℕ
rcode_refused = 5

-- package dns and package rand
pub record DnsLib (A : Type 0) : Type 0 where
  -- `response.SetReply(req)` and `response.SetRcode(req, rc)`
  pub set_reply : Msg A → Msg A → Msg A
  pub set_rcode : Msg A → Msg A → ℕ → Msg A
  -- what the n-th exchange with an address brings
  pub exchange : ℕ → Msg A → String → Result (Msg A)
  -- the order that `rand.Shuffle` leaves
  pub shuffle : List A → List A

-- the wire: how many exchanges were tried, and the messages written to the client
pub record Wire (A : Type 0) : Type 0 where
  pub exchanges : ℕ
  pub written : List (Msg A)

-- the part of `Config` that the handler reads; the forwarder as text
pub record ServerConfig : Type 0 where
  pub forwarder : String
  pub load_balance : Bool

module _ {A : Type 0} where
  -- `new(dns.Msg)`
  abbrev pub new_msg : Msg A
  new_msg = record {
    id = 0;
    opcode = 0;
    rcode = 0;
    authoritative = false;
    question = [];
    answer = [];
  }

  -- `w.WriteMsg(msg)`; a failure is only logged
  abbrev pub write_msg : Msg A → Wire A → Wire A
  write_msg m w = record { exchanges = w.exchanges; written = w.written ++ m ∷ [] }

-- `validateQuestion`
unfoldable pub validate_question : List Question → Option Question
validate_question [] = none
validate_question (q ∷ r ∷ rest) = none
validate_question (q ∷ []) =
    if eqb (len q.name) 0
    then none
    else if ltb max_dns_question_length (len q.name)
    then none
    else some q

module _ {A : Type 0} (dns : DnsLib A) where
  abbrev pub count_exchange : Wire A → Wire A
  count_exchange w = record { exchanges = suc w.exchanges; written = w.written }

  -- the loop of `forward`
  unfoldable pub forward_loop : ℕ → Msg A → String → Wire A → Result (Msg A) × Wire A
  forward_loop zero req address w = (err "forward of request was not accepted", w)
  forward_loop (suc n) req address w = elim (dns.exchange w.exchanges req address) [
    | err e ↦ forward_loop n req address (count_exchange w)
    | ok ret ↦ elim (eqb ret.rcode rcode_success) [
      | true ↦ (ok ret, count_exchange w)
      | false ↦ forward_loop n req address (count_exchange w)
    ]
  ]

  unfoldable pub forward : ServerConfig → Msg A → Wire A → Result (Msg A) × Wire A
  forward config req w =
      if config.forwarder == default_ip
      then (err "could not resolve the request and no forwarder is configured", w)
      else forward_loop forward_retry_count req (errorf config.forwarder ":53" "") w

  -- `writeErrorResponse`
  abbrev pub error_response : Msg A → ℕ → Msg A
  error_response req rc = dns.set_rcode (dns.set_reply new_msg req) req rc

  -- `writeSuccessResponse`
  abbrev pub success_response : List A → Msg A → Msg A
  success_response answer req =
      dns.set_reply
        (record {
          id = 0;
          opcode = 0;
          rcode = 0;
          authoritative = true;
          question = [];
          answer = answer;
        })
        req

  -- the order in which records are answered
  unfoldable pub balanced : ServerConfig → List A → List A
  balanced config rrs = if config.load_balance && ltb 1 (length rrs) then dns.shuffle rrs else rrs

  -- the message for what the forwarder brought
  abbrev pub reply_of : Msg A → Result (Msg A) → Msg A
  reply_of req (ok m) = m
  reply_of req (err e) = error_response req rcode_server_failure

  -- `handleDNS`; `lookup` is `GetResourceRecord` of the data store
  unfoldable pub handle_dns : ServerConfig → (Question → Result (List A)) → Msg A → Wire A → Wire A
  handle_dns config lookup req w = elim (validate_question req.question) [
    | none ↦ write_msg (error_response req rcode_format_error) w
    | some q ↦ elim (eqb req.opcode opcode_query) [
      | false ↦ write_msg (error_response req rcode_refused) w
      | true ↦ elim (lookup q) [
        | err e ↦ let (r, w') = forward config req w in write_msg (reply_of req r) w'
        | ok rrs ↦ write_msg (success_response (balanced config rrs) req) w
      ]
    ]
  ]
