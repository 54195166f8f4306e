-- ===== src/MepAuth/Validation.antt =====
-- mepauth/util/validation.go: the checks of passwords, of lists of networks and of the arguments. The
-- packages regexp, net and bytes are functions of a record. Texts stand for slices of bytes.
use mep.Prelude.{
  ℕ, suc, ◌≤◌, String, len, ◌≡◌, ◌≢◌, ◌⊎◌, ◌↔◌, refl, inl, inr, Bool, true, false, ◌&&◌, not,
  Option, none, some, List, [], ◌∷◌, eqb, leb, ltb, if◌then◌else◌, arith, All, Result, ok, err,
  Bool-cases, Option-cases,
}

pub data PasswordRegex : Type 0 where
  single_digit_regex lower_case_regex upper_case_regex special_char_regex : PasswordRegex

pub record ValidationLib : Type 0 where
  pub match : PasswordRegex → String → Result Bool
  pub parses_ip : String → Bool
  pub parses_cidr : String → Bool
  pub trim_space : String → String

module _ (lib : ValidationLib) where
  abbrev pub matched : Result Bool → Bool
  matched (ok b) = b
  matched (err e) = false

  -- `if pwdIsValid && err == nil { pwdValidCount++ }`
  abbrev counted : Bool → ℕ → ℕ
  counted b n = if b then suc n else n

  abbrev pub hit : PasswordRegex → String → Bool
  hit r password = matched (lib.match r password)

  unfoldable pub validate_regex : String → ℕ
  validate_regex password = counted (hit special_char_regex password) (
      counted (hit upper_case_regex password)
        (counted (hit lower_case_regex password) (counted (hit single_digit_regex password) 0)))

  unfoldable pub validate_length : String → Bool
  validate_length password = leb 8 (len password) && leb (len password) 16

  unfoldable pub validate_jwt_password : String → Result (Unit {0})
  validate_jwt_password password =
      if validate_length password
      then (if ltb (validate_regex password) 2
          then err "password must contain at least two types of characters"
          else ok tt)
      else err "password must have minimum length of 8 and maximum of 16"

  unfoldable pub validate_ip_and_cidr : List String → Bool
  validate_ip_and_cidr [] = true
  validate_ip_and_cidr (ipcidr ∷ rest) =
      let others = validate_ip_and_cidr rest in
      if not (lib.parses_ip ipcidr) && not (lib.parses_cidr ipcidr) then false else others

  -- the loop of `ValidateInputArgs`
  unfoldable pub are_args_filled : List String → (String → Option String) → Bool
  are_args_filled [] app_config = true
  are_args_filled (s ∷ rest) app_config = elim (app_config s) [
    | none ↦ false
    | some input ↦ elim (eqb (len (lib.trim_space input)) 0) [
      | true ↦ false
      | false ↦ are_args_filled rest app_config
    ]
  ]

  unfoldable pub validate_input_args : (String → Option String) → Bool
  validate_input_args app_config =
      are_args_filled
        ("KEY_COMPONENT" ∷ "JWT_PRIVATE_KEY" ∷ "APP_INST_ID" ∷ "ACCESS_KEY" ∷ "SECRET_KEY" ∷ [])
        app_config

  two_kinds :
      (password : String) (q r : PasswordRegex)
      → q ≢ r
      → hit q password ≡ true
      → hit r password ≡ true
      → 2 ≤ validate_regex password
  unfolding validate_regex
  two_kinds p single_digit_regex single_digit_regex d h g = absurd (d refl)
  two_kinds p single_digit_regex lower_case_regex d h g = ground arith
  two_kinds p single_digit_regex upper_case_regex d h g = ground arith
  two_kinds p single_digit_regex special_char_regex d h g = ground arith
  two_kinds p lower_case_regex single_digit_regex d h g = ground arith
  two_kinds p lower_case_regex lower_case_regex d h g = absurd (d refl)
  two_kinds p lower_case_regex upper_case_regex d h g = ground arith
  two_kinds p lower_case_regex special_char_regex d h g = ground arith
  two_kinds p upper_case_regex single_digit_regex d h g = ground arith
  two_kinds p upper_case_regex lower_case_regex d h g = ground arith
  two_kinds p upper_case_regex upper_case_regex d h g = absurd (d refl)
  two_kinds p upper_case_regex special_char_regex d h g = ground arith
  two_kinds p special_char_regex single_digit_regex d h g = ground arith
  two_kinds p special_char_regex lower_case_regex d h g = ground arith
  two_kinds p special_char_regex upper_case_regex d h g = ground arith
  two_kinds p special_char_regex special_char_regex d h g = absurd (d refl)

  abbrev pub HasTwoKinds : String → Type 0
  HasTwoKinds p =
      (q : PasswordRegex) × (r : PasswordRegex) × (q ≢ r) × (hit q p ≡ true) × (hit r p ≡ true)

  kinds_of_count : (p : String) → 2 ≤ validate_regex p → HasTwoKinds p
  unfolding validate_regex
  kinds_of_count p many = elim (Bool-cases (hit single_digit_regex p)) [
    | inl digit ↦ elim (Bool-cases (hit lower_case_regex p)) [
      | inl lower ↦ (single_digit_regex, lower_case_regex, λ e. cc, digit, lower)
      | inr no_lower ↦ elim (Bool-cases (hit upper_case_regex p)) [
        | inl upper ↦ (single_digit_regex, upper_case_regex, λ e. cc, digit, upper)
        | inr no_upper ↦ (single_digit_regex, special_char_regex, λ e. cc, digit, ground arith)
      ]
    ]
    | inr no_digit ↦ elim (Bool-cases (hit lower_case_regex p)) [
      | inl lower ↦ elim (Bool-cases (hit upper_case_regex p)) [
        | inl upper ↦ (lower_case_regex, upper_case_regex, λ e. cc, lower, upper)
        | inr no_upper ↦ (lower_case_regex, special_char_regex, λ e. cc, lower, ground arith)
      ]
      | inr no_lower ↦ (upper_case_regex, special_char_regex, λ e. cc, ground arith, ground arith)
    ]
  ]

  -- A password is accepted exactly if it has 8 to 16 characters and two of the four kinds of
  -- characters.
  pub validate_jwt_password-HasTwoKinds :
      (p : String)
      → (validate_jwt_password p ≡ ok tt) ↔ ((8 ≤ len p) × (len p ≤ 16) × HasTwoKinds p)
  unfolding validate_jwt_password validate_length
  validate_jwt_password-HasTwoKinds p = (
    λ h. (ground arith, ground arith, kinds_of_count p (ground arith)),
    λ (low, high, (q, r, differ, hq, hr)). let many = two_kinds p q r differ hq hr in ground arith,
  )

  -- a network that is an address or a range of addresses
  abbrev pub IsNetwork : String → Type 0
  IsNetwork s = (lib.parses_ip s ≡ true) ⊎ (lib.parses_cidr s ≡ true)

  -- A list of networks is accepted exactly if each of them is an address or a range of addresses.
  pub validate_ip_and_cidr-IsNetwork :
      (l : List String) → (validate_ip_and_cidr l ≡ true) ↔ All IsNetwork l
  unfolding validate_ip_and_cidr
  validate_ip_and_cidr-IsNetwork [] = (λ h. tt, λ a. refl)
  validate_ip_and_cidr-IsNetwork (s ∷ l) =
      let (to, from) = validate_ip_and_cidr-IsNetwork l in
      elim (Bool-cases (lib.parses_ip s)) [
        | inl ip ↦ (λ h. (inl ip, to (ground arith)), λ (_, a). let t = from a in ground arith)
        | inr no_ip ↦ elim (Bool-cases (lib.parses_cidr s)) [
          | inl cidr ↦
              (λ h. (inr cidr, to (ground arith)), λ (_, a). let t = from a in ground arith)
          | inr no_cidr ↦ (
            λ h. absurd (ground arith),
            λ (n, _). absurd (elim n [ inl x ↦ ground arith | inr x ↦ ground arith ]),
          )
        ]
      ]

  -- an argument that is there and is not blank
  abbrev pub IsFilled : (String → Option String) → String → Type 0
  IsFilled app_config s = (v : String) × (app_config s ≡ some v) × (len (lib.trim_space v) ≢ 0)

  are_args_filled-IsFilled :
      (l : List String) (app_config : String → Option String)
      → (are_args_filled l app_config ≡ true) ↔ All (IsFilled app_config) l
  unfolding are_args_filled
  are_args_filled-IsFilled [] app_config = (λ h. tt, λ a. refl)
  are_args_filled-IsFilled (s ∷ l) app_config =
      let (to, from) = are_args_filled-IsFilled l app_config in
      elim (Option-cases (app_config s)) [
        | inl absent ↦ (λ h. absurd (ground arith), λ ((v, there, _), _). absurd (ground arith))
        | inr (input, there) ↦ elim (Bool-cases (eqb (len (lib.trim_space input)) 0)) [
          | inl blank ↦
              (λ h. absurd (ground arith), λ ((v, found, filled), _). absurd (ground arith))
          | inr filled ↦ (
            λ h. ((input, there, ground arith), to (ground arith)),
            λ (_, a). let t = from a in ground arith,
          )
        ]
      ]

  -- The arguments are accepted exactly if each of the five is there and is not blank.
  pub validate_input_args-IsFilled :
      (app_config : String → Option String)
      → (validate_input_args app_config ≡ true)
        ↔ All
            (IsFilled app_config)
            ("KEY_COMPONENT" ∷ "JWT_PRIVATE_KEY" ∷ "APP_INST_ID" ∷ "ACCESS_KEY" ∷ "SECRET_KEY" ∷ [])
  unfolding validate_input_args
  validate_input_args-IsFilled app_config =
      are_args_filled-IsFilled
        ("KEY_COMPONENT" ∷ "JWT_PRIVATE_KEY" ∷ "APP_INST_ID" ∷ "ACCESS_KEY" ∷ "SECRET_KEY" ∷ [])
        app_config
