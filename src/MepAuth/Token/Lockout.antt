-- ===== src/MepAuth/Token/Lockout.antt =====
-- mepauth/controllers/token.go: which requests get a token, and which lock their key.
use mep.Prelude.{
  ℕ, String, ◌≡◌, ◌≢◌, refl, ap, sym, ◌∙◌, inl, inr, Bool, true, false, Option, some, List, ◌==◌,
  eq_iff, arith, ok, Bool-cases,
}
use mep.MepAuth.BlockList.{
  AuthInfoList, is_ak_in_block_list, is_ak_in_validation_list, process_ak_for_block_listing,
  clear_ak_from_block_listing,
}
use mep.MepAuth.BlockList.Locks.{process-three}
use mep.MepAuth.Token.{
  TokenRequest, AuthLib, Reply, error_reply, token_reply, get_app_ins_id_sk, usable_sk,
  is_ak_signature_valid, get_token_info, check_signature, check_ak, post,
}
use mep.MepAuth.Token.Decision.{
  IsWellFormed, Decision, locked, record_panics, no_key, unsigned, wrong, signed, post-check_ak,
  post-Decision,
}

module _ (lib : AuthLib) where
  -- the conditions under which a request gets a token
  pub record IsEntitled (r : TokenRequest) (token : String) (s s' : AuthInfoList) : Type 0 where
    pub ak : String
    pub sign_header : String
    pub sig : String
    pub app : String
    pub stored : Option (List ℕ)
    pub exists : Bool
    pub sk : List ℕ
    pub well_formed : IsWellFormed lib r ak sign_header sig
    pub free : is_ak_in_block_list ak s ≡ false
    pub found : get_app_ins_id_sk lib ak ≡ some (app, stored, exists)
    pub registered : usable_sk lib app stored ≡ some sk
    pub signature : lib.get_signature r sk sign_header ≡ ok sig
    pub issued : get_token_info lib app r ≡ token_reply token
    pub cleared : s' ≡ clear_ak_from_block_listing ak s

  Decision-IsEntitled :
      (r : TokenRequest) (ak sign_header sig token : String) (s : AuthInfoList)
      (o : Reply × AuthInfoList)
      → IsWellFormed lib r ak sign_header sig
      → Decision lib r ak sign_header sig s o
      → o.0 ≡ token_reply token
      → IsEntitled r token s o.1
  Decision-IsEntitled r ak sign_header sig token s o w (locked _) h = absurd (ground arith)
  Decision-IsEntitled r ak sign_header sig token s o w (record_panics _ _) h = absurd (ground arith)
  Decision-IsEntitled r ak sign_header sig token s o w (no_key _ _ true _ _ _) h =
      absurd (ground arith)
  Decision-IsEntitled r ak sign_header sig token s o w (no_key _ _ false _ _ _) h =
      absurd (ground arith)
  Decision-IsEntitled r ak sign_header sig token s o w (unsigned _ _ _ _ _ _ _ _ _) h =
      absurd (ground arith)
  Decision-IsEntitled r ak sign_header sig token s o w (wrong _ _ _ _ _ _ _ _ _ _) h =
      absurd (ground arith)
  Decision-IsEntitled r ak sign_header sig token s o w
        (signed app stored exists sk free found has_sk made) h =
      record {
        ak = ak;
        sign_header = sign_header;
        sig = sig;
        app = app;
        stored = stored;
        exists = exists;
        sk = sk;
        well_formed = w;
        free = free;
        found = found;
        registered = has_sk;
        signature = made;
        issued = h;
        cleared = refl;
      }

  -- A token is given only to a well-formed request whose access key is not locked and is registered
  -- with a secret key, and whose signature is the one computed with that secret key; it is a token for
  -- the application that the access key is registered for, and the key's invalid signatures are
  -- forgotten.
  pub post-IsEntitled :
      (r : TokenRequest) (token : String) (s : AuthInfoList)
      → (post lib r s).0 ≡ token_reply token
      → IsEntitled r token s (post lib r s).1
  post-IsEntitled r token s h = elim (post-Decision lib r s) [
    | inl (text, _, e) ↦ absurd (let f = sym (ap (λ x. x.0) e) ∙ h in ground arith)
    | inr (ak, sign_header, sig, w, d) ↦
        Decision-IsEntitled r ak sign_header sig token s (post lib r s) w d h
  ]

  -- a well-formed request of a registered key whose signature is not the one of its secret key
  pub record IsForged (r : TokenRequest) (ak : String) : Type 0 where
    pub sign_header : String
    pub sig : String
    pub app : String
    pub stored : Option (List ℕ)
    pub exists : Bool
    pub sk : List ℕ
    pub signature : String
    pub well_formed : IsWellFormed lib r ak sign_header sig
    pub found : get_app_ins_id_sk lib ak ≡ some (app, stored, exists)
    pub registered : usable_sk lib app stored ≡ some sk
    pub made : lib.get_signature r sk sign_header ≡ ok signature
    pub differs : sig ≢ signature

  forged-process :
      (r : TokenRequest) (ak : String) (s : AuthInfoList)
      → IsForged r ak
      → is_ak_in_block_list ak s ≡ false
      → post lib r s
        ≡ (error_reply 401 "Invalid access or signature.", process_ak_for_block_listing ak s)
  unfolding check_ak check_signature is_ak_signature_valid
  forged-process r ak s f free =
      let differ : f.sig == f.signature ≡ false = elim (Bool-cases (f.sig == f.signature)) [
        | inl same ↦ absurd (f.differs ((eq_iff f.sig f.signature).0 same))
        | inr other ↦ other
      ] in
      post-check_ak lib r ak f.sign_header f.sig s f.well_formed
      ∙ rw (free, check_ak)
          (rw f.found
            (rw f.registered (rw (f.made, check_signature, is_ak_signature_valid) (rw differ))))

  locked-post :
      (r : TokenRequest) (ak sign_header sig : String) (s : AuthInfoList)
      → IsWellFormed lib r ak sign_header sig
      → is_ak_in_block_list ak s ≡ true
      → post lib r s ≡ (error_reply 403 "Access is locked.", s)
  unfolding check_ak
  locked-post r ak sign_header sig s w is_locked =
      post-check_ak lib r ak sign_header sig s w ∙ rw (is_locked, check_ak)

  -- Three forged requests in a row of a key that is neither locked nor being validated lock it: each is
  -- answered with 401, and then every well-formed request of the key, even with the right signature, is
  -- answered with 403 and changes nothing.
  pub post-three_forged :
      (a b c r : TokenRequest) (ak sign_header sig : String) (s : AuthInfoList)
      → IsForged a ak
      → IsForged b ak
      → IsForged c ak
      → IsWellFormed lib r ak sign_header sig
      → is_ak_in_block_list ak s ≡ false
      → is_ak_in_validation_list ak s ≡ false
      → let s1 = (post lib a s).1 in
        let s2 = (post lib b s1).1 in
        let s3 = (post lib c s2).1 in
        let refused = error_reply 401 "Invalid access or signature." in
        ((post lib a s).0 ≡ refused)
        × ((post lib b s1).0 ≡ refused)
        × ((post lib c s2).0 ≡ refused)
        × (post lib r s3 ≡ (error_reply 403 "Access is locked.", s3))
  post-three_forged a b c r ak sign_header sig s fa fb fc w free fresh =
      let p = process_ak_for_block_listing ak in
      let (free1, free2, is_locked) = process-three ak s fresh in
      let block = is_ak_in_block_list ak in
      let ea = forged-process a ak s fa free in
      let e1 : (post lib a s).1 ≡ p s = ap (λ x. x.1) ea in
      let eb = forged-process b ak _ fb (ap block e1 ∙ free1) in
      let e2 : (post lib b (post lib a s).1).1 ≡ p (p s) = ap (λ x. x.1) eb ∙ ap p e1 in
      let ec = forged-process c ak _ fc (ap block e2 ∙ free2) in
      let e3 = ap (λ x. x.1) ec ∙ ap p e2 in
      (
        ap (λ x. x.0) ea,
        ap (λ x. x.0) eb,
        ap (λ x. x.0) ec,
        locked-post r ak sign_header sig _ w (ap block e3 ∙ is_locked),
      )
