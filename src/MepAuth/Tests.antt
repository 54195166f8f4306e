-- ===== src/MepAuth/Tests.antt =====
-- Requests for a token of one application, its signature right or forged.
use mep.Prelude.{
  All, ℕ, Bool, Result, err, String, len, ◌≤◌, ◌≡◌, ◌≢◌, ◌⊎◌, ◌↔◌, refl, true, false, none, some,
  List, [], ◌∷◌, ◌==◌, if◌then◌else◌, arith, ok, eq_iff,
}
use mep.MepAuth.BlockList.{
  validation_in_progress, AkSessionInfo, AuthInfoList, init_auth_info_list, is_ak_in_block_list,
  is_ak_in_validation_list, process_ak_for_block_listing, start_validating_ak, stop_validating_ak,
  start_block_listing_ak, Server, init_server, enter, leave, passes_test, invalid_signature,
  Reachable, start, after,
}
use mep.MepAuth.BlockList.Locks.{process_ak_for_block_listing-locks, Step-keeps_lock}
use mep.MepAuth.BlockList.Watch.{IsWatched, Reachable-IsWatched}
use mep.MepAuth.Token.{
  TokenRequest, AuthLib, error_reply, token_reply, validate_src_address, parse_auth_header,
  is_date_time_format_valid, get_app_ins_id_sk, usable_sk, is_ak_signature_valid,
  generate_jwt_token, get_token_info, check_signature, check_ak, post,
}
use mep.MepAuth.Token.Decision.{IsWellFormed, IsIllFormed, Decision, post-Decision}
use mep.MepAuth.Token.Lockout.{IsEntitled, IsForged, post-IsEntitled, post-three_forged}
use mep.MepAuth.Validation.{
  PasswordRegex, single_digit_regex, lower_case_regex, upper_case_regex, special_char_regex,
  ValidationLib, HasTwoKinds, IsNetwork, IsFilled, validate_jwt_password, validate_ip_and_cidr,
  validate_input_args, validate_jwt_password-HasTwoKinds, validate_ip_and_cidr-IsNetwork,
  validate_input_args-IsFilled,
}

abbrev groups : String → List String
groups h =
    if h == "good"
    then h ∷ "AK" ∷ "host" ∷ "SIG" ∷ []
    else if h == "forged"
    then h ∷ "AK" ∷ "host" ∷ "BAD" ∷ []
    else []

abbrev lib : AuthLib
lib = record {
  is_ipv4 = λ s. s == "10.0.0.9";
  is_ipv6 = λ s. false;
  find_string_submatch = groups;
  time_parses = λ s. s == "20260101T000000Z";
  read_data = λ ak.
      if ak == "AK" then some (record { app_ins_id = "app"; sk = "aa"; nonce = "bb" }) else none;
  byte_len = len;
  hex_decode = λ s. some (len s ∷ []);
  get_work_key = ok (1 ∷ []);
  decrypt = λ c w n. some (42 ∷ []);
  get_signature = λ r sk h. ok "SIG";
  has_private_key = true;
  mepauth_key = "mepauth";
  signed_string = λ i app ip. ok "token";
}

abbrev good : TokenRequest
good = record { x_real_ip = "10.0.0.9"; authorization = "good"; x_sdk_date = "20260101T000000Z" }

abbrev forged : TokenRequest
forged = record {
  x_real_ip = "10.0.0.9";
  authorization = "forged";
  x_sdk_date = "20260101T000000Z";
}

abbrev init : AuthInfoList
init = init_auth_info_list

unfoldable twice : AuthInfoList
twice = process_ak_for_block_listing "AK" (process_ak_for_block_listing "AK" init)

unfoldable thrice : AuthInfoList
thrice = process_ak_for_block_listing "AK" twice

process_ak_for_block_listing-locks_example :
    ((is_ak_in_block_list "AK" (process_ak_for_block_listing "AK" twice) ≡ true) ↔ (
      (i : AkSessionInfo) × (twice.infos "AK" ≡ some i)
      × (i.state ≡ validation_in_progress)
      × (2 ≤ i.validate_counter)))
    × ((k : String) → "AK" ≢ k → (process_ak_for_block_listing "AK" twice).infos k ≡ twice.infos k)
process_ak_for_block_listing-locks_example = process_ak_for_block_listing-locks "AK" twice

thrice_locked : is_ak_in_block_list "AK" thrice ≡ true
unfolding is_ak_in_block_list thrice twice process_ak_for_block_listing is_ak_in_validation_list
    start_validating_ak stop_validating_ak start_block_listing_ak
thrice_locked = refl

other_free : is_ak_in_block_list "B" thrice ≡ false
unfolding is_ak_in_block_list thrice twice process_ak_for_block_listing is_ak_in_validation_list
    start_validating_ak stop_validating_ak start_block_listing_ak
other_free = refl

-- a handler of the locked key that had passed the test before
abbrev late : Server
late = record { list = thrice; passed = λ k. 1 }

Step-keeps_lock_example :
    (is_ak_in_block_list "AK" (process_ak_for_block_listing "B" thrice) ≡ true)
    ⊎ (thrice.fired "AK" ≢ 0)
    ⊎ ((◌≢◌ {A = ℕ} 1 0)
        × (process_ak_for_block_listing "B" thrice ≡ process_ak_for_block_listing "AK" thrice))
Step-keeps_lock_example =
    Step-keeps_lock "AK" late (leave "B" (process_ak_for_block_listing "B" thrice) late)
      (invalid_signature "B" 0 late refl) thrice_locked

once : AuthInfoList
once = process_ak_for_block_listing "AK" init

abbrev entered : Server
entered = enter "AK" init_server

once_reached : Reachable (leave "AK" once entered)
unfolding once is_ak_in_block_list
once_reached =
    after entered (leave "AK" once entered)
      (after init_server entered start (passes_test "AK" init_server refl))
      (invalid_signature "AK" 0 entered refl)

abbrev entry : AkSessionInfo
entry = record {
  clear_timer = record { number = 0; ak = "AK" };
  state = validation_in_progress;
  ak = "AK";
  validate_counter = 1;
}

once_entry : once.infos "AK" ≡ some entry
unfolding once process_ak_for_block_listing is_ak_in_validation_list start_validating_ak
once_entry = refl

Reachable-IsWatched_example : IsWatched once "AK" entry
Reachable-IsWatched_example =
    Reachable-IsWatched (leave "AK" once entered) once_reached "AK" entry once_entry

post-Decision_example :
    ((text : String) × IsIllFormed lib good text
      × (post lib good init ≡ (error_reply 400 text, init)))
    ⊎ ((ak : String) × (sign_header : String) × (sig : String) × IsWellFormed lib good ak
          sign_header sig
        × Decision lib good ak sign_header sig init (post lib good init))
post-Decision_example = post-Decision lib good init

given : (post lib good init).0 ≡ token_reply "token"
unfolding post validate_src_address parse_auth_header is_date_time_format_valid check_ak
    is_ak_in_block_list get_app_ins_id_sk usable_sk check_signature is_ak_signature_valid
    get_token_info generate_jwt_token
given = refl

post-IsEntitled_example : IsEntitled lib good "token" init (post lib good init).1
post-IsEntitled_example = post-IsEntitled lib good "token" init given

good-IsWellFormed : IsWellFormed lib good "AK" "host" "SIG"
unfolding validate_src_address parse_auth_header is_date_time_format_valid
good-IsWellFormed = record {
  parsed = refl;
  address = refl;
  named = (omega arith, omega arith, omega arith);
  dated = refl;
}

sig_ne : ◌≢◌ {A = String} "BAD" "SIG"
sig_ne e = let differ : false ≡ true = (eq_iff "BAD" "SIG").1 e in absurd (ground arith)

forged-IsForged : IsForged lib forged "AK"
unfolding validate_src_address parse_auth_header is_date_time_format_valid get_app_ins_id_sk
    usable_sk
forged-IsForged = record {
  sign_header = "host";
  sig = "BAD";
  app = "app";
  stored = some (42 ∷ []);
  exists = true;
  sk = 42 ∷ [];
  signature = "SIG";
  well_formed = record {
    parsed = refl;
    address = refl;
    named = (omega arith, omega arith, omega arith);
    dated = refl;
  };
  found = refl;
  registered = refl;
  made = refl;
  differs = sig_ne;
}

init_free : is_ak_in_block_list "AK" init ≡ false
unfolding is_ak_in_block_list
init_free = refl

init_fresh : is_ak_in_validation_list "AK" init ≡ false
unfolding is_ak_in_validation_list
init_fresh = refl

post-three_forged_example :
    let s1 = (post lib forged init).1 in
    let s2 = (post lib forged s1).1 in
    let s3 = (post lib forged s2).1 in
    let refused = error_reply 401 "Invalid access or signature." in
    ((post lib forged init).0 ≡ refused)
    × ((post lib forged s1).0 ≡ refused)
    × ((post lib forged s2).0 ≡ refused)
    × (post lib good s3 ≡ (error_reply 403 "Access is locked.", s3))
post-three_forged_example =
    post-three_forged lib forged forged forged good "AK" "host" "SIG" init forged-IsForged
      forged-IsForged forged-IsForged good-IsWellFormed init_free init_fresh

abbrev match : PasswordRegex → String → Result Bool
match single_digit_regex s = ok (s == "secret12")
match lower_case_regex s = ok (s == "secret12")
match upper_case_regex s = ok false
match special_char_regex s = err "bad pattern"

-- the packages at a few texts
abbrev checks : ValidationLib
checks = record {
  match = match;
  parses_ip = λ s. s == "10.0.0.1";
  parses_cidr = λ s. s == "10.0.0.0/8";
  trim_space = λ s. if s == " " then "" else s;
}

validate_jwt_password-HasTwoKinds_example :
    (validate_jwt_password checks "secret12" ≡ ok tt)
    ↔ ((8 ≤ len "secret12") × (len "secret12" ≤ 16) × HasTwoKinds checks "secret12")
validate_jwt_password-HasTwoKinds_example = validate_jwt_password-HasTwoKinds checks "secret12"

validate_ip_and_cidr-IsNetwork_example :
    (validate_ip_and_cidr checks ("10.0.0.1" ∷ "10.0.0.0/8" ∷ []) ≡ true)
    ↔ All (IsNetwork checks) ("10.0.0.1" ∷ "10.0.0.0/8" ∷ [])
validate_ip_and_cidr-IsNetwork_example =
    validate_ip_and_cidr-IsNetwork checks ("10.0.0.1" ∷ "10.0.0.0/8" ∷ [])

validate_input_args-IsFilled_example :
    (validate_input_args checks (λ s. some "value") ≡ true)
    ↔ All
        (IsFilled checks (λ s. some "value"))
        ("KEY_COMPONENT" ∷ "JWT_PRIVATE_KEY" ∷ "APP_INST_ID" ∷ "ACCESS_KEY" ∷ "SECRET_KEY" ∷ [])
validate_input_args-IsFilled_example = validate_input_args-IsFilled checks (λ s. some "value")
