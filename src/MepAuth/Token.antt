-- ===== src/MepAuth/Token.antt =====
-- mepauth/controllers/token.go: a request for a token, answered over the list of blocklist.go. What
-- the controller calls and this module does not model is a record of functions.
pub mod Decision
pub mod Lockout
use mep.Prelude.{
  ℕ, ◌+◌, ◌*◌, String, len, leb, Bool, true, false, ◌&&◌, ◌||◌, not, Option, none, some, List, [],
  ◌∷◌, ◌==◌, eqb, if◌then◌else◌, length, Result, ok, err, is_ok,
}
use mep.MepAuth.BlockList.{
  AuthInfoList, is_ak_in_block_list, process_ak_for_block_listing, clear_ak_from_block_listing,
}

-- the headers that the controller reads; a header that is not there is empty
pub record TokenRequest : Type 0 where
  pub x_real_ip : String
  pub authorization : String
  pub x_sdk_date : String

-- the columns of models/authinfo.go that are read
pub record AuthInfoRecord : Type 0 where
  pub app_ins_id : String
  pub sk : String
  pub nonce : String

-- The packages that the controller calls: validator, regexp, time, hex, jwt; the database; and the
-- encryption and the signature of util. Bytes are numbers.
pub record AuthLib : Type 0 where
  pub is_ipv4 : String → Bool
  pub is_ipv6 : String → Bool
  -- the matches of `AuthHeaderRegex`
  pub find_string_submatch : String → List String
  pub time_parses : String → Bool
  pub read_data : String → Option AuthInfoRecord
  pub byte_len : String → ℕ
  pub hex_decode : String → Option (List ℕ)
  pub get_work_key : Result (List ℕ)
  pub decrypt : List ℕ → List ℕ → List ℕ → Option (List ℕ)
  -- `GetSignature` of the request rebuilt from the signed headers, with the secret key
  pub get_signature : TokenRequest → List ℕ → String → Result String
  pub has_private_key : Bool
  pub mepauth_key : String
  -- `SignedString` of the claims: the issuer, the subject and the address of the client
  pub signed_string : String → String → String → Result String

-- the answer: an error, a token, or a panic in the handler
pub data Reply : Type 0 where
  error_reply : ℕ → String → Reply
  token_reply : String → Reply
  panic_reply : Reply

module _ (lib : AuthLib) where
  -- `validateSrcAddress` of base.go returns no error
  unfoldable pub validate_src_address : String → Bool
  validate_src_address id = not (eqb (len id) 0) && (lib.is_ipv4 id || lib.is_ipv6 id)

  -- the key, the signed headers and the signature: the groups of the match
  abbrev auth_groups : List String → String × String × String
  auth_groups (whole ∷ ak ∷ sign_header ∷ sig ∷ rest) = (ak, sign_header, sig)
  auth_groups [] = ("", "", "")
  auth_groups (a ∷ []) = ("", "", "")
  auth_groups (a ∷ b ∷ []) = ("", "", "")
  auth_groups (a ∷ b ∷ c ∷ []) = ("", "", "")

  unfoldable pub parse_auth_header : String → String × String × String
  parse_auth_header header = auth_groups (lib.find_string_submatch header)

  unfoldable pub is_date_time_format_valid : TokenRequest → Bool
  is_date_time_format_valid r = not (eqb (len r.x_sdk_date) 0) && lib.time_parses r.x_sdk_date

  -- `make([]byte, hex.DecodedLen(n), cap)` panics: the decoded length, n / 2, is over the capacity
  abbrev pub exceeds : ℕ → ℕ → Bool
  exceeds cap n = leb (2 * (cap + 1)) n

  -- the application, its secret key (`none` is nil), and whether the access key exists; `none` is a
  -- panic
  unfoldable pub get_app_ins_id_sk : String → Option (String × Option (List ℕ) × Bool)
  get_app_ins_id_sk ak = elim (lib.read_data ak) [
    | none ↦ some ("", none, false)
    | some r ↦ if exceeds 200 (lib.byte_len r.sk) then none else elim (lib.hex_decode r.sk) [
      | none ↦ some ("", none, true)
      | some cipher ↦
          if exceeds 30 (lib.byte_len r.nonce) then none else elim (lib.hex_decode r.nonce) [
            | none ↦ some ("", none, true)
            | some nonce ↦ elim lib.get_work_key [
              | err e ↦ some ("", none, true)
              | ok work_key ↦ elim (lib.decrypt cipher work_key nonce) [
                | none ↦ some ("", none, true)
                | some sk ↦ some (r.app_ins_id, some sk, true)
              ]
            ]
          ]
    ]
  ]

  -- `appInsId == "" || sk == nil || len(sk) == 0`, turned round: the secret key to check with
  unfoldable pub usable_sk : String → Option (List ℕ) → Option (List ℕ)
  usable_sk app none = none
  usable_sk app (some sk) = if eqb (len app) 0 || eqb (length sk) 0 then none else some sk

  unfoldable pub is_ak_signature_valid : TokenRequest → List ℕ → String → String → Result Bool
  is_ak_signature_valid r sk sign_header sig = elim (lib.get_signature r sk sign_header) [
    | err e ↦ err e
    | ok signature ↦ ok (sig == signature)
  ]

  -- a result with no error and no token is a nil pointer
  unfoldable pub generate_jwt_token : String → String → Result (Option String)
  generate_jwt_token app client_ip =
      if not lib.has_private_key
      then err "failed to get private key"
      else if eqb (len lib.mepauth_key) 0
      then err "mep auth key configuration is not set"
      else elim (lib.signed_string lib.mepauth_key app client_ip) [
        | err e ↦ err e
        | ok token ↦ if eqb (len token) 0 then ok none else ok (some token)
      ]

  abbrev client_of : TokenRequest → String
  client_of r = if eqb (len r.x_real_ip) 0 then "UNKNOWN_IP" else r.x_real_ip

  -- `getTokenInfo` and `sendResponseMsg`; the nil pointer is dereferenced
  unfoldable pub get_token_info : String → TokenRequest → Reply
  get_token_info app r = elim (generate_jwt_token app (client_of r)) [
    | err e ↦ error_reply 500 "Internal server error."
    | ok none ↦ panic_reply
    | ok (some token) ↦ token_reply token
  ]

  -- `checkAkExistAndWriteErrorRes`
  abbrev pub no_ak_reply : Bool → Reply
  no_ak_reply true = error_reply 500 "Internal server error."
  no_ak_reply false = error_reply 401 "Invalid access or signature."

  -- `isSignatureValid`, and what `Post` does after it
  unfoldable pub check_signature :
      TokenRequest
      → String
      → String
      → List ℕ
      → String
      → String
      → AuthInfoList
      → Reply × AuthInfoList
  check_signature r ak app sk sign_header sig s =
      elim (is_ak_signature_valid r sk sign_header sig) [
        | err e ↦ (error_reply 500 "Internal server error.", s)
        | ok false ↦
            (error_reply 401 "Invalid access or signature.", process_ak_for_block_listing ak s)
        | ok true ↦ (get_token_info app r, clear_ak_from_block_listing ak s)
      ]

  -- `Post` from the test of the block list on
  unfoldable pub check_ak :
      TokenRequest → String → String → String → AuthInfoList → Reply × AuthInfoList
  check_ak r ak sign_header sig s = elim (is_ak_in_block_list ak s) [
    | true ↦ (error_reply 403 "Access is locked.", s)
    | false ↦ elim (get_app_ins_id_sk ak) [
      | none ↦ (panic_reply, s)
      | some (app, sk, exists) ↦ elim (usable_sk app sk) [
        | none ↦ (no_ak_reply exists, s)
        | some key ↦ check_signature r ak app key sign_header sig s
      ]
    ]
  ]

  unfoldable pub post : TokenRequest → AuthInfoList → Reply × AuthInfoList
  post r s =
      let (ak, sign_header, sig) = parse_auth_header r.authorization in
      elim (validate_src_address r.x_real_ip) [
        | false ↦ (error_reply 400 "clientIp address is invalid", s)
        | true ↦ elim (eqb (len ak) 0 || eqb (len sign_header) 0 || eqb (len sig) 0) [
          | true ↦ (error_reply 400 "Bad auth header format", s)
          | false ↦ elim (is_date_time_format_valid r) [
            | false ↦ (error_reply 400 "Bad x-sdk-time format", s)
            | true ↦ check_ak r ak sign_header sig s
          ]
        ]
      ]
