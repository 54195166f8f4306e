-- ===== src/DnsServer/Config.antt =====
-- main.go: `validateInputAndGenerateConfig`. `log.Fatalf` ends the program; here it is an error.
use Prim.Native.Char.{Char, code}
use mep.Prelude.{
  ℕ, ◌<◌, ◌≤◌, String, len, ◌≡◌, ◌≢◌, ◌↔◌, Bool, false, ◌||◌, not, none, some, arith, eqb, leb, ltb,
  if◌then◌else◌, Result, ok, err, ◌>>=◌, ◌>>◌, guard, Option-cases, sym, >>=-eq-ok, inl, inr,
}
use mep.DnsServer.Backend.{Net}

pub record InputParameters : Type 0 where
  pub db_name : String
  pub port : ℕ  -- uint
  pub mgmt_port : ℕ  -- uint
  pub conn_time_out : ℕ  -- uint
  pub ip_add_string : String
  pub ip_mgmt_add_string : String
  pub forwarder : String
  pub load_balance : Bool

pub record Config (Ip : Type 0) : Type 0 where
  pub db_name : String
  pub port : ℕ
  pub mgmt_port : ℕ
  pub ip_add : Ip
  pub ip_mgmt_add : Ip
  pub forwarder : Ip
  pub connection_timeout : ℕ
  pub load_balance : Bool

contains_char : Char → String → Bool
contains_char c String.[] = false
contains_char c (String.◌∷◌ d s) = eqb (code c) (code d) || contains_char c s

-- `strings.ContainsAny`
unfoldable pub contains_any : String → String → Bool
unfolding contains_char
contains_any String.[] chars = false
contains_any (String.◌∷◌ c s) chars = contains_char c chars || contains_any s chars

module _ {Ip : Type 0} (net : Net Ip) where
  -- the checks of one address
  unfoldable pub checked_ip : String → Result Ip
  checked_ip s = elim (net.parse_ip s) [
    | none ↦ err "error: parsing ip address failed, not in ipv4/ipv6 format"
    | some ip ↦
        if net.is_multicast ip || net.is_bcast ip
        then err "error: multicast or broadcast ip address "
        else ok ip
  ]

  -- the checks before the addresses
  unfoldable pub checked_scalars : InputParameters → Result (Unit {0})
  checked_scalars p = do
    guard (not (leb 256 (len p.db_name))) "error: db name should be less than 256"
    guard (not (contains_any p.db_name "/.\\")) "error: db name should be a single world"
    guard (not (ltb 65535 p.port || eqb p.port 0)) "error: port number not in valid range"
    guard (not (ltb 65535 p.mgmt_port || eqb p.mgmt_port 0))
        "error: management port number not in valid range"
    guard (not (eqb p.port p.mgmt_port)) "error: cannot use same port number for dns and management"
    guard (not (ltb 50 p.conn_time_out || ltb p.conn_time_out 2))
        "error: connection timeout not in valid range(2~50)"

  unfoldable pub validate_input_and_generate_config : InputParameters → Result (Config Ip)
  validate_input_and_generate_config p = do
    checked_scalars p
    ip ← checked_ip p.ip_add_string
    ip_mgmt ← checked_ip p.ip_mgmt_add_string
    forwarder ← checked_ip p.forwarder
    ok (record {
      db_name = p.db_name;
      port = p.port;
      mgmt_port = p.mgmt_port;
      ip_add = ip;
      ip_mgmt_add = ip_mgmt;
      forwarder = forwarder;
      connection_timeout = p.conn_time_out;
      load_balance = p.load_balance;
    })

  -- an address that the server may use
  pub record IsUsableIp (s : String) (ip : Ip) : Type 0 where
    pub parsed : net.parse_ip s ≡ some ip
    pub unicast : net.is_multicast ip ≡ false
    pub not_bcast : net.is_bcast ip ≡ false

  checked_ip-IsUsableIp : (s : String) (ip : Ip) → (checked_ip s ≡ ok ip) ↔ IsUsableIp s ip
  unfolding checked_ip
  checked_ip-IsUsableIp s ip = elim (Option-cases (net.parse_ip s)) [
    | inl bad ↦ (λ h. ground arith, λ u. absurd (let p = u.parsed in ground arith))
    | inr (i, parsed) ↦ (
      λ h. record { parsed = ground arith; unicast = ground arith; not_bcast = ground arith },
      λ u. let p = u.parsed in let m = u.unicast in let b = u.not_bcast in ground arith,
    )
  ]

  -- the bounds on the numbers and the name of the database
  pub record IsInRange (p : InputParameters) : Type 0 where
    pub db_name : len p.db_name < 256
    pub db_chars : contains_any p.db_name "/.\\" ≡ false
    pub port : (1 ≤ p.port) × (p.port ≤ 65535)
    pub mgmt_port : (1 ≤ p.mgmt_port) × (p.mgmt_port ≤ 65535)
    pub ports : p.port ≢ p.mgmt_port
    pub timeout : (2 ≤ p.conn_time_out) × (p.conn_time_out ≤ 50)

  checked_scalars-IsInRange : (p : InputParameters) → (checked_scalars p ≡ ok tt) ↔ IsInRange p
  unfolding checked_scalars
  checked_scalars-IsInRange p = (
    λ h. record {
      db_name = ground arith;
      db_chars = ground arith;
      port = (ground arith, ground arith);
      mgmt_port = (ground arith, ground arith);
      ports = ground arith;
      timeout = (ground arith, ground arith);
    },
    λ r.
        let a = r.db_name in
        let b = r.db_chars in
        let (c, d) = r.port in
        let (e, f) = r.mgmt_port in let g = r.ports in let (j, k) = r.timeout in ground arith,
  )

  -- the configuration that the flags ask for
  pub record IsConfigOf (p : InputParameters) (c : Config Ip) : Type 0 where
    pub in_range : IsInRange p
    pub ip_add : IsUsableIp p.ip_add_string c.ip_add
    pub ip_mgmt_add : IsUsableIp p.ip_mgmt_add_string c.ip_mgmt_add
    pub forwarder : IsUsableIp p.forwarder c.forwarder
    pub db_name : c.db_name ≡ p.db_name
    pub port : c.port ≡ p.port
    pub mgmt_port : c.mgmt_port ≡ p.mgmt_port
    pub connection_timeout : c.connection_timeout ≡ p.conn_time_out
    pub load_balance : c.load_balance ≡ p.load_balance

  -- The flags are accepted exactly if the name of the database has less than 256 characters and no
  -- path in it, the ports are different numbers from 1 to 65535, the timeout is from 2 to 50, and the
  -- three addresses parse and are neither multicast nor broadcast; the configuration is then the one
  -- that the flags ask for.
  pub validate_input_and_generate_config-IsConfigOf :
      (p : InputParameters) (c : Config Ip)
      → (validate_input_and_generate_config p ≡ ok c) ↔ IsConfigOf p c
  unfolding validate_input_and_generate_config
  validate_input_and_generate_config-IsConfigOf p c = (
    λ h.
        let (_, ranged, h) = >>=-eq-ok (checked_scalars p) _ h in
        let (ip, a, h) = >>=-eq-ok (checked_ip p.ip_add_string) _ h in
        let (mgmt, b, h) = >>=-eq-ok (checked_ip p.ip_mgmt_add_string) _ h in
        let (fwd, d, h) = >>=-eq-ok (checked_ip p.forwarder) _ h in
        record {
          in_range = (checked_scalars-IsInRange p).0 ranged;
          ip_add = (checked_ip-IsUsableIp p.ip_add_string c.ip_add).0 (ground arith);
          ip_mgmt_add = (checked_ip-IsUsableIp p.ip_mgmt_add_string c.ip_mgmt_add).0 (ground arith);
          forwarder = (checked_ip-IsUsableIp p.forwarder c.forwarder).0 (ground arith);
          db_name = ground arith;
          port = ground arith;
          mgmt_port = ground arith;
          connection_timeout = ground arith;
          load_balance = ground arith;
        },
    λ k.
        let ranged = (checked_scalars-IsInRange p).1 k.in_range in
        let a = (checked_ip-IsUsableIp p.ip_add_string c.ip_add).1 k.ip_add in
        let b = (checked_ip-IsUsableIp p.ip_mgmt_add_string c.ip_mgmt_add).1 k.ip_mgmt_add in
        let d = (checked_ip-IsUsableIp p.forwarder c.forwarder).1 k.forwarder in
        rw (ranged, a, b, d)
          (λ i. ok (record {
            db_name = sym k.db_name i;
            port = sym k.port i;
            mgmt_port = sym k.mgmt_port i;
            ip_add = c.ip_add;
            ip_mgmt_add = c.ip_mgmt_add;
            forwarder = c.forwarder;
            connection_timeout = sym k.connection_timeout i;
            load_balance = sym k.load_balance i;
          })),
  )
