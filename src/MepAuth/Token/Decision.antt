-- ===== src/MepAuth/Token/Decision.antt =====
-- mepauth/controllers/token.go: who gets a token, and what a request does to the list of keys.
use mep.Prelude.{
  ℕ, String, len, ◌≡◌, ◌≢◌, ◌⊎◌, refl, ap, sym, ◌∙◌, subst⁻¹, inl, inr, Bool, true, false, ◌||◌,
  Option, none, some, if◌then◌else◌, List, err, ◌==◌, eq_iff, eqb, arith, ok, Bool-cases,
  Option-cases, Result-cases,
}
use mep.MepAuth.BlockList.{
  AuthInfoList, is_ak_in_block_list, process_ak_for_block_listing, clear_ak_from_block_listing,
}
use mep.MepAuth.Token.{
  TokenRequest, AuthLib, Reply, error_reply, panic_reply, validate_src_address, parse_auth_header,
  is_date_time_format_valid, get_app_ins_id_sk, usable_sk, is_ak_signature_valid, get_token_info,
  no_ak_reply, check_signature, check_ak, post,
}

module _ (lib : AuthLib) where
  -- What a request with a key, signed headers and a signature leads to, and when.
  pub data Decision (r : TokenRequest) (ak sign_header sig : String) (s : AuthInfoList)
      : Reply × AuthInfoList → Type 0 where
    locked :
        is_ak_in_block_list ak s ≡ true
        → Decision r ak sign_header sig s (error_reply 403 "Access is locked.", s)
    record_panics :
        is_ak_in_block_list ak s ≡ false
        → get_app_ins_id_sk lib ak ≡ none
        → Decision r ak sign_header sig s (panic_reply, s)
    no_key :
        (app : String) (stored : Option (List ℕ)) (exists : Bool)
        → is_ak_in_block_list ak s ≡ false
        → get_app_ins_id_sk lib ak ≡ some (app, stored, exists)
        → usable_sk lib app stored ≡ none
        → Decision r ak sign_header sig s (
          (if exists
              then error_reply 500 "Internal server error."
              else error_reply 401 "Invalid access or signature."),
          s,
        )
    unsigned :
        (app : String) (stored : Option (List ℕ)) (exists : Bool) (sk : List ℕ) (e : String)
        → is_ak_in_block_list ak s ≡ false
        → get_app_ins_id_sk lib ak ≡ some (app, stored, exists)
        → usable_sk lib app stored ≡ some sk
        → lib.get_signature r sk sign_header ≡ err e
        → Decision r ak sign_header sig s (error_reply 500 "Internal server error.", s)
    wrong :
        (app : String) (stored : Option (List ℕ)) (exists : Bool) (sk : List ℕ) (signature : String)
        → is_ak_in_block_list ak s ≡ false
        → get_app_ins_id_sk lib ak ≡ some (app, stored, exists)
        → usable_sk lib app stored ≡ some sk
        → lib.get_signature r sk sign_header ≡ ok signature
        → sig ≢ signature
        → Decision r ak sign_header sig s
            (error_reply 401 "Invalid access or signature.", process_ak_for_block_listing ak s)
    signed :
        (app : String) (stored : Option (List ℕ)) (exists : Bool) (sk : List ℕ)
        → is_ak_in_block_list ak s ≡ false
        → get_app_ins_id_sk lib ak ≡ some (app, stored, exists)
        → usable_sk lib app stored ≡ some sk
        → lib.get_signature r sk sign_header ≡ ok sig
        → Decision r ak sign_header sig s
            (get_token_info lib app r, clear_ak_from_block_listing ak s)

  no_ak_reply-Decision :
      (r : TokenRequest) (ak sign_header sig : String) (s : AuthInfoList) (app : String)
      (stored : Option (List ℕ)) (exists : Bool)
      → is_ak_in_block_list ak s ≡ false
      → get_app_ins_id_sk lib ak ≡ some (app, stored, exists)
      → usable_sk lib app stored ≡ none
      → Decision r ak sign_header sig s (no_ak_reply lib exists, s)
  no_ak_reply-Decision r ak sign_header sig s app stored true free found no_sk =
      no_key app stored true free found no_sk
  no_ak_reply-Decision r ak sign_header sig s app stored false free found no_sk =
      no_key app stored false free found no_sk

  check_signature-Decision :
      (r : TokenRequest) (ak sign_header sig : String) (s : AuthInfoList) (app : String)
      (stored : Option (List ℕ)) (exists : Bool) (sk : List ℕ)
      → is_ak_in_block_list ak s ≡ false
      → get_app_ins_id_sk lib ak ≡ some (app, stored, exists)
      → usable_sk lib app stored ≡ some sk
      → Decision r ak sign_header sig s (check_signature lib r ak app sk sign_header sig s)
  unfolding check_signature is_ak_signature_valid
  check_signature-Decision r ak sign_header sig s app stored exists sk free found has_sk =
      elim (Result-cases (lib.get_signature r sk sign_header)) [
        | inr (e, failed) ↦
            rw (failed, check_signature, is_ak_signature_valid)
              (unsigned app stored exists sk e free found has_sk failed)
        | inl (signature, made) ↦ elim (Bool-cases (sig == signature)) [
          | inr differ ↦
              rw (made, check_signature, is_ak_signature_valid)
                (rw differ (
                  wrong app stored exists sk signature free found has_sk made
                    (λ e. ground (arith, eq_iff sig signature))))
          | inl same ↦
              rw (made, check_signature, is_ak_signature_valid)
                (rw same (
                  signed app stored exists sk free found has_sk
                    (made ∙ ap ok (sym ((eq_iff sig signature).0 same)))))
        ]
      ]

  check_ak-Decision :
      (r : TokenRequest) (ak sign_header sig : String) (s : AuthInfoList)
      → Decision r ak sign_header sig s (check_ak lib r ak sign_header sig s)
  unfolding check_ak
  check_ak-Decision r ak sign_header sig s = elim (Bool-cases (is_ak_in_block_list ak s)) [
    | inl is_locked ↦ rw (is_locked, check_ak) (locked is_locked)
    | inr free ↦ elim (Option-cases (get_app_ins_id_sk lib ak)) [
      | inl panics ↦ rw (free, check_ak) (rw panics (record_panics free panics))
      | inr ((app, stored, exists), found) ↦ elim (Option-cases (usable_sk lib app stored)) [
        | inl no_sk ↦
            rw (free, check_ak)
              (rw found (
                rw no_sk
                  (no_ak_reply-Decision r ak sign_header sig s app stored exists free found no_sk)))
        | inr (sk, has_sk) ↦
            rw (free, check_ak)
              (rw found (
                rw has_sk (
                  check_signature-Decision r ak sign_header sig s app stored exists sk free found
                    has_sk)))
      ]
    ]
  ]

  -- the headers of a request that comes to the test of the block list
  pub record IsWellFormed (r : TokenRequest) (ak sign_header sig : String) : Type 0 where
    pub parsed : parse_auth_header lib r.authorization ≡ (ak, sign_header, sig)
    pub address : validate_src_address lib r.x_real_ip ≡ true
    pub named : (len ak ≢ 0) × (len sign_header ≢ 0) × (len sig ≢ 0)
    pub dated : is_date_time_format_valid lib r ≡ true

  pub post-check_ak :
      (r : TokenRequest) (ak sign_header sig : String) (s : AuthInfoList)
      → IsWellFormed r ak sign_header sig
      → post lib r s ≡ check_ak lib r ak sign_header sig s
  unfolding post
  post-check_ak r ak sign_header sig s w =
      let (a, b, c) = w.named in
      let named : eqb (len ak) 0 || eqb (len sign_header) 0 || eqb (len sig) 0 ≡ false =
        ground arith in
      rw (w.address, post)
        (rw w.parsed (rw named (rw w.dated (ap (λ (a, b, c). check_ak lib r a b c s) w.parsed))))

  -- what is missing in a request that is answered with 400, and the text of the answer: the first of
  -- an address, a complete authorization and a date
  pub data IsIllFormed (r : TokenRequest) : String → Type 0 where
    no_address :
        validate_src_address lib r.x_real_ip ≡ false → IsIllFormed r "clientIp address is invalid"
    no_authorization :
        (ak sign_header sig : String)
        → validate_src_address lib r.x_real_ip ≡ true
        → parse_auth_header lib r.authorization ≡ (ak, sign_header, sig)
        → eqb (len ak) 0 || eqb (len sign_header) 0 || eqb (len sig) 0 ≡ true
        → IsIllFormed r "Bad auth header format"
    no_date :
        (ak sign_header sig : String)
        → validate_src_address lib r.x_real_ip ≡ true
        → parse_auth_header lib r.authorization ≡ (ak, sign_header, sig)
        → eqb (len ak) 0 || eqb (len sign_header) 0 || eqb (len sig) 0 ≡ false
        → is_date_time_format_valid lib r ≡ false
        → IsIllFormed r "Bad x-sdk-time format"

  -- The decision on every request. The first of a valid address, a complete authorization and a date
  -- that is missing is named in an answer with 400, which changes nothing. Otherwise a locked key gets
  -- 403; a key without a usable secret key 500, or 401 if it is not registered, or a panic if its record
  -- is too long; a signature that cannot be computed 500; all of these change nothing. A wrong signature
  -- gets 401 and is counted, and the right one gets what the signing of the token leads to, and the
  -- count of the key is cleared.
  pub post-Decision :
      (r : TokenRequest) (s : AuthInfoList)
      → ((text : String) × IsIllFormed r text × (post lib r s ≡ (error_reply 400 text, s)))
        ⊎ ((ak : String) × (sign_header : String) × (sig : String) × IsWellFormed r ak sign_header
              sig
            × Decision r ak sign_header sig s (post lib r s))
  unfolding post
  post-Decision r s =
      let (ak, sign_header, sig) = parse_auth_header lib r.authorization in
      elim (Bool-cases (validate_src_address lib r.x_real_ip)) [
        | inr bad ↦ inl ("clientIp address is invalid", no_address bad, rw (bad, post))
        | inl address ↦
            elim (Bool-cases (eqb (len ak) 0 || eqb (len sign_header) 0 || eqb (len sig) 0)) [
              | inl unnamed ↦ inl (
                "Bad auth header format",
                no_authorization ak sign_header sig address refl unnamed,
                rw (address, post) (rw unnamed),
              )
              | inr named ↦ elim (Bool-cases (is_date_time_format_valid lib r)) [
                | inr undated ↦ inl (
                  "Bad x-sdk-time format",
                  no_date ak sign_header sig address refl named undated,
                  rw (address, post) (rw named (rw undated)),
                )
                | inl dated ↦
                    let w : IsWellFormed r ak sign_header sig = record {
                      parsed = refl;
                      address = address;
                      named = (ground arith, ground arith, ground arith);
                      dated = dated;
                    } in
                    inr (
                      ak,
                      sign_header,
                      sig,
                      w,
                      subst⁻¹ (Decision r ak sign_header sig s)
                          (post-check_ak r ak sign_header sig s w)
                          (check_ak-Decision r ak sign_header sig s),
                    )
              ]
            ]
      ]
