-- ===== src/MepAuth/BlockList/Entries.antt =====
-- mepauth/controllers/blocklist.go: what each operation leaves for its key and for the others.
use mep.Prelude.{
  suc, ◌≤◌, ◌<◌, String, ◌≡◌, ◌≢◌, ◌⊎◌, refl, ap, ◌∙◌, inl, inr, true, false, none, some, ◌==◌,
  eq_iff, eq_refl, leb, arith, Bool-cases, Option-cases,
}
use mep.MepAuth.BlockList.{
  AkState, state_none, validation_in_progress, under_block_list, AkSessionInfo, AuthInfoList, put,
  is_ak_in_block_list, is_ak_in_validation_list, start_validating_ak, stop_validating_ak,
  start_block_listing_ak, process_ak_for_block_listing, clear_ak_from_block_listing, count_up,
  delete_info, arm, disarm, is_validating, is_under_block_list,
}

pub put_self {ℓ} : {A : Type ℓ} (k : String) (v : A) (m : String → A) → put k v m k ≡ v
put_self k v m = rw (eq_refl k)

pub put_ne {ℓ} :
    {A : Type ℓ} (k : String) (v : A) (m : String → A) (j : String) → k ≢ j → put k v m j ≡ m j
put_ne k v m j differ = elim (Bool-cases (k == j)) [
  | inl same ↦ absurd (differ ((eq_iff k j).0 same))
  | inr other ↦ rw other
]

-- The four cases of `process_ak_for_block_listing`, as what it leaves for the key.
abbrev pub IsCounted : String → AuthInfoList → AuthInfoList → Type 0
IsCounted ak s s' =
    ((is_ak_in_validation_list ak s ≡ false)
      × (s'.infos
          ≡ put ak
              (some (record {
                clear_timer = record { number = s.next; ak = ak };
                state = validation_in_progress;
                ak = ak;
                validate_counter = 1;
              }))
              s.infos)
      × (s' ≡ start_validating_ak ak s))
    ⊎ ((i : AkSessionInfo) × (s.infos ak ≡ some i)
        × (i.state ≡ validation_in_progress)
        × (i.validate_counter < 2)
        × (s' ≡ count_up ak i s))
    ⊎ ((i : AkSessionInfo) × (s.infos ak ≡ some i)
        × (i.state ≡ validation_in_progress)
        × (2 ≤ i.validate_counter)
        × (s' ≡ start_block_listing_ak ak (stop_validating_ak ak (count_up ak i s))))

validating_eq : (x : AkState) → is_validating x ≡ true → x ≡ validation_in_progress
validating_eq state_none h = absurd (ground arith)
validating_eq validation_in_progress h = refl
validating_eq under_block_list h = absurd (ground arith)

pub process-IsCounted :
    (ak : String) (s : AuthInfoList) → IsCounted ak s (process_ak_for_block_listing ak s)
unfolding process_ak_for_block_listing is_ak_in_validation_list start_validating_ak
process-IsCounted ak s = elim (Bool-cases (is_ak_in_validation_list ak s)) [
  | inr other ↦
      inl
        (other, rw (other, process_ak_for_block_listing), rw (other, process_ak_for_block_listing))
  | inl validating ↦ elim (Option-cases (s.infos ak)) [
    | inl absent ↦
        let impossible : false ≡ true = rw (absent, is_ak_in_validation_list) at validating in
        absurd (ground arith)
    | inr (i, there) ↦
        let state = validating_eq i.state (rw (there, is_ak_in_validation_list) at validating) in
        elim (Bool-cases (leb 3 (suc i.validate_counter))) [
          | inr below ↦ inr (
              inl (
                i,
                there,
                state,
                ground arith,
                rw (validating, process_ak_for_block_listing) (rw there (rw below)),
              ))
          | inl third ↦ inr (
              inr (
                i,
                there,
                state,
                ground arith,
                rw (validating, process_ak_for_block_listing) (rw there (rw third)),
              ))
        ]
  ]
]

-- The entry of a key whose third signature in a row is invalid.
abbrev pub locked_info : String → AkSessionInfo → AuthInfoList → AkSessionInfo
locked_info ak i s = record {
  clear_timer = record { number = s.next; ak = ak };
  state = under_block_list;
  ak = i.ak;
  validate_counter = 0;
}

-- What moving a key to the block list leaves: the timer of the validation does not run any more, and
-- a new one does.
pub record IsLocked (ak : String) (i : AkSessionInfo) (s s' : AuthInfoList) : Type 0 where
  pub here : s'.infos ak ≡ some (locked_info ak i s)
  pub others : (k : String) → ak ≢ k → s'.infos k ≡ s.infos k
  pub armed : s'.armed ≡ arm (record { number = s.next; ak = ak }) (disarm i.clear_timer s.armed)
  pub fired : s'.fired ≡ s.fired

-- what `stop_validating_ak` and `start_block_listing_ak` leave for a listed key
abbrev pub stopped : String → AkSessionInfo → AuthInfoList → AuthInfoList
stopped ak i s = record {
  infos =
      put ak
        (some (record {
          clear_timer = i.clear_timer;
          state = state_none;
          ak = i.ak;
          validate_counter = 0;
        }))
        s.infos;
  armed = disarm i.clear_timer s.armed;
  fired = s.fired;
  next = s.next;
}

abbrev locked : String → AkSessionInfo → AuthInfoList → AuthInfoList
locked ak i s = record {
  infos =
      put ak
        (some (record {
          clear_timer = record { number = s.next; ak = ak };
          state = under_block_list;
          ak = i.ak;
          validate_counter = i.validate_counter;
        }))
        s.infos;
  armed = arm (record { number = s.next; ak = ak }) s.armed;
  fired = s.fired;
  next = suc s.next;
}

pub stop_validating_ak-eq :
    (ak : String) (i : AkSessionInfo) (s : AuthInfoList)
    → s.infos ak ≡ some i
    → stop_validating_ak ak s ≡ stopped ak i s
unfolding stop_validating_ak
stop_validating_ak-eq ak i s there = rw (there, stop_validating_ak)

start_block_listing_ak-eq :
    (ak : String) (i : AkSessionInfo) (s : AuthInfoList)
    → s.infos ak ≡ some i
    → start_block_listing_ak ak s ≡ locked ak i s
unfolding start_block_listing_ak
start_block_listing_ak-eq ak i s there = rw (there, start_block_listing_ak)

pub lock-IsLocked :
    (ak : String) (i : AkSessionInfo) (s : AuthInfoList)
    → IsLocked ak i s (start_block_listing_ak ak (stop_validating_ak ak (count_up ak i s)))
lock-IsLocked ak i s =
    let c = count_up ak i s in
    let j : AkSessionInfo = record {
      clear_timer = i.clear_timer;
      state = i.state;
      ak = i.ak;
      validate_counter = suc i.validate_counter;
    } in
    let k : AkSessionInfo = record {
      clear_timer = i.clear_timer;
      state = state_none;
      ak = i.ak;
      validate_counter = 0;
    } in
    let e =
      ap (start_block_listing_ak ak) (stop_validating_ak-eq ak j c (put_self ak (some j) s.infos))
      ∙ start_block_listing_ak-eq ak k (stopped ak j c) (put_self ak (some k) c.infos) in
    record {
      here = ap (λ x. x.infos ak) e ∙ put_self ak _ (stopped ak j c).infos;
      others = λ l differ.
          ap (λ x. x.infos l) e
          ∙ put_ne ak _ (stopped ak j c).infos l differ
          ∙ put_ne ak _ c.infos l differ
          ∙ put_ne ak _ s.infos l differ;
      armed = ap (λ x. x.armed) e;
      fired = ap (λ x. x.fired) e;
    }

-- a key is locked, or validated, if its entry says so
pub is_ak_in_block_list-at :
    (ak : String) (s : AuthInfoList) (i : AkSessionInfo)
    → s.infos ak ≡ some i
    → is_ak_in_block_list ak s ≡ is_under_block_list i.state
unfolding is_ak_in_block_list
is_ak_in_block_list-at ak s i there = rw (there, is_ak_in_block_list)

pub is_ak_in_validation_list-at :
    (ak : String) (s : AuthInfoList) (i : AkSessionInfo)
    → s.infos ak ≡ some i
    → is_ak_in_validation_list ak s ≡ is_validating i.state
unfolding is_ak_in_validation_list
is_ak_in_validation_list-at ak s i there = rw (there, is_ak_in_validation_list)

-- The two cases of `clear_ak_from_block_listing`.
pub clear-cases :
    (ak : String) (s : AuthInfoList)
    → ((is_ak_in_validation_list ak s ≡ false) × (clear_ak_from_block_listing ak s ≡ s))
      ⊎ ((i : AkSessionInfo) × (s.infos ak ≡ some i)
          × (clear_ak_from_block_listing ak s ≡ delete_info ak (stopped ak i s)))
unfolding clear_ak_from_block_listing is_ak_in_validation_list
clear-cases ak s = elim (Bool-cases (is_ak_in_validation_list ak s)) [
  | inr other ↦ inl (other, rw (other, clear_ak_from_block_listing))
  | inl validating ↦ elim (Option-cases (s.infos ak)) [
    | inl absent ↦
        let impossible : false ≡ true = rw (absent, is_ak_in_validation_list) at validating in
        absurd (ground arith)
    | inr (i, there) ↦ inr (
      i,
      there,
      rw (validating, clear_ak_from_block_listing)
          (ap (delete_info ak) (stop_validating_ak-eq ak i s there)),
    )
  ]
]

pub clear-others :
    (ak : String) (s : AuthInfoList) (k : String)
    → ak ≢ k
    → (clear_ak_from_block_listing ak s).infos k ≡ s.infos k
clear-others ak s k differ = elim (clear-cases ak s) [
  | inl (_, e) ↦ ap (λ x. x.infos k) e
  | inr (i, there, e) ↦
      ap (λ x. x.infos k) e
      ∙ put_ne ak none (stopped ak i s).infos k differ
      ∙ put_ne ak _ s.infos k differ
]
