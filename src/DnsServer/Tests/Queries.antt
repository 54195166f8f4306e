-- ===== src/DnsServer/Tests/Queries.antt =====
-- Queries over a forwarder whose first try fails, and the flags of the server.
use mep.Prelude.{String, ◌≡◌, ◌↔◌, refl, true, false, [], ◌∷◌, eqb, if◌then◌else◌, ok, err}
use mep.DnsServer.Server.{
  Msg, DnsLib, Wire, ServerConfig, validate_question, forward, forward_loop, handle_dns,
}
use mep.DnsServer.Server.Replies.{IsHandled, handle_dns_outcome}
use mep.DnsServer.Config.{
  InputParameters, Config, contains_any, checked_ip, checked_scalars,
  validate_input_and_generate_config, IsConfigOf, validate_input_and_generate_config-IsConfigOf,
}
use mep.DnsServer.Tests.{net, question}

-- a forwarder that fails once, then answers
abbrev dns : DnsLib String
dns = record {
  set_reply = λ m req. record {
    id = req.id;
    opcode = req.opcode;
    rcode = 0;
    authoritative = m.authoritative;
    question = req.question;
    answer = m.answer;
  };
  set_rcode = λ m req rc. record {
    id = req.id;
    opcode = req.opcode;
    rcode = rc;
    authoritative = m.authoritative;
    question = req.question;
    answer = m.answer;
  };
  exchange = λ n req address.
      if eqb n 0
      then err "timeout"
      else ok (record {
        id = req.id;
        opcode = req.opcode;
        rcode = 0;
        authoritative = false;
        question = req.question;
        answer = address ∷ [];
      });
  shuffle = λ l. l;
}

abbrev forwarding : ServerConfig
forwarding = record { forwarder = "8.8.8.8"; load_balance = true }

abbrev query : Msg String
query = record {
  id = 7;
  opcode = 0;
  rcode = 0;
  authoritative = false;
  question = question ∷ [];
  answer = [];
}

abbrev idle : Wire String
idle = record { exchanges = 0; written = [] }

-- A name that the store does not have is forwarded; the second try is answered.
two_tries : (handle_dns dns forwarding (λ q. err "no record") query idle).exchanges ≡ 2
unfolding handle_dns validate_question forward forward_loop
two_tries = refl

handle_dns_outcome_example :
    IsHandled dns forwarding
      (λ q. err "no record")
      query
      idle
      (handle_dns dns forwarding (λ q. err "no record") query idle)
handle_dns_outcome_example = handle_dns_outcome dns forwarding (λ q. err "no record") query idle

abbrev flags : InputParameters
flags = record {
  db_name = "dbEgDns";
  port = 53;
  mgmt_port = 8080;
  conn_time_out = 2;
  ip_add_string = "0.0.0.0";
  ip_mgmt_add_string = "10.0.0.1";
  forwarder = "0.0.0.0";
  load_balance = false;
}

abbrev config : Config String
config = record {
  db_name = "dbEgDns";
  port = 53;
  mgmt_port = 8080;
  ip_add = "0.0.0.0";
  ip_mgmt_add = "10.0.0.1";
  forwarder = "0.0.0.0";
  connection_timeout = 2;
  load_balance = false;
}

accepted : validate_input_and_generate_config net flags ≡ ok config
unfolding validate_input_and_generate_config checked_scalars checked_ip contains_any
accepted = refl

validate_input_and_generate_config-IsConfigOf_example :
    (validate_input_and_generate_config net flags ≡ ok config) ↔ IsConfigOf net flags config
validate_input_and_generate_config-IsConfigOf_example =
    validate_input_and_generate_config-IsConfigOf net flags config
