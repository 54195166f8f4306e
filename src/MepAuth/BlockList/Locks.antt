-- ===== src/MepAuth/BlockList/Locks.antt =====
-- mepauth/controllers/blocklist.go: which keys are locked, and when.
use mep.Prelude.{
  ℕ, suc, ◌≤◌, ◌<◌, String, ◌≡◌, ◌≢◌, ◌⊎◌, ◌↔◌, refl, ap, sym, ◌∙◌, inl, inr, true, false, none,
  some, ◌==◌, eq_iff, arith, Bool-cases,
}
use mathlib.Core.Option.{some-injective}
use mep.MepAuth.BlockList.{
  validation_in_progress, AkSessionInfo, AuthInfoList, Server, leave, Step, passes_test,
  no_signature, invalid_signature, valid_signature, timer_fires, goroutine_deletes,
  is_ak_in_block_list, is_ak_in_validation_list, process_ak_for_block_listing,
  clear_ak_from_block_listing, expire, delete_expired, is_validating, is_under_block_list,
}
use mep.MepAuth.BlockList.Entries.{
  put_self, put_ne, process-IsCounted, lock-IsLocked, locked_info, is_ak_in_block_list-at,
  is_ak_in_validation_list-at, clear-others,
}

-- An invalid signature locks its key exactly if the key was being validated and had two or more
-- invalid signatures already; and it leaves the entries of the other keys as they are.
pub process_ak_for_block_listing-locks :
    (ak : String) (s : AuthInfoList)
    → ((is_ak_in_block_list ak (process_ak_for_block_listing ak s) ≡ true) ↔ (
        (i : AkSessionInfo) × (s.infos ak ≡ some i)
        × (i.state ≡ validation_in_progress)
        × (2 ≤ i.validate_counter)))
      × ((k : String) → ak ≢ k → (process_ak_for_block_listing ak s).infos k ≡ s.infos k)
process_ak_for_block_listing-locks ak s =
    let s' = process_ak_for_block_listing ak s in
    elim (process-IsCounted ak s) [
      | inl (other, e, _) ↦
          let now = is_ak_in_block_list-at ak s' _ (ap (λ f. f ak) e ∙ put_self ak _ s.infos) in
          (
            (
              λ h. absurd (ground arith),
              λ (i, there, state, _).
                  let was = is_ak_in_validation_list-at ak s i there in
                  let validating = ap is_validating state in absurd (ground arith),
            ),
            λ k differ. ap (λ f. f k) e ∙ put_ne ak _ s.infos k differ,
          )
      | inr (inl (i, there, state, below, e)) ↦
          let now =
            is_ak_in_block_list-at ak s' _ (ap (λ x. x.infos ak) e ∙ put_self ak _ s.infos) in
          let unlocked = ap is_under_block_list state in
          (
            (λ h. absurd (ground arith), λ (j, there', _, many). absurd (ground arith)),
            λ k differ. ap (λ x. x.infos k) e ∙ put_ne ak _ s.infos k differ,
          )
      | inr (inr (i, there, state, many, e)) ↦
          let l = lock-IsLocked ak i s in
          (
            (
              λ h. (i, there, state, many),
              λ _.
                  is_ak_in_block_list-at ak s' (locked_info ak i s)
                    (ap (λ x. x.infos ak) e ∙ l.here),
            ),
            λ k differ. ap (λ x. x.infos k) e ∙ l.others k differ,
          )
    ]

-- whether a key is locked is read off its entry
same-lock :
    (ak : String) (s s' : AuthInfoList)
    → s'.infos ak ≡ s.infos ak
    → is_ak_in_block_list ak s' ≡ is_ak_in_block_list ak s
unfolding is_ak_in_block_list
same-lock ak s s' e = rw (e, is_ak_in_block_list)

-- a locked key is not being validated, so a valid signature leaves every lock
locked-not_validating :
    (ak : String) (s : AuthInfoList)
    → is_ak_in_block_list ak s ≡ true
    → is_ak_in_validation_list ak s ≡ false
locked-not_validating ak s is_locked = elim (Bool-cases (is_ak_in_validation_list ak s)) [
  | inr other ↦ other
  | inl validating ↦ absurd (elim (process-IsCounted ak s) [
    | inl (other, _, _) ↦ ground arith
    | inr (inl (i, there, state, _, _)) ↦
        let locked = is_ak_in_block_list-at ak s i there in
        let unlocked = ap is_under_block_list state in ground arith
    | inr (inr (i, there, state, _, _)) ↦
        let locked = is_ak_in_block_list-at ak s i there in
        let unlocked = ap is_under_block_list state in ground arith
  ])
]

clear-keeps_lock :
    (k ak : String) (s : AuthInfoList)
    → is_ak_in_block_list ak s ≡ true
    → is_ak_in_block_list ak (clear_ak_from_block_listing k s) ≡ true
unfolding clear_ak_from_block_listing
clear-keeps_lock k ak s is_locked = elim (Bool-cases (k == ak)) [
  | inl same ↦
      let none_here : is_ak_in_validation_list k s ≡ false =
        ap (λ x. is_ak_in_validation_list x s) ((eq_iff k ak).0 same)
        ∙ locked-not_validating ak s is_locked in
      rw (none_here, clear_ak_from_block_listing) is_locked
  | inr other ↦
      same-lock ak s (clear_ak_from_block_listing k s)
        (clear-others k s ak (λ e. ground (arith, eq_iff k ak)))
      ∙ is_locked
]

-- A key that is locked stays locked, whatever happens next, until a timer of its own has fired, or a
-- handler that passed the test before the key was locked has met an invalid signature.
pub Step-keeps_lock :
    (ak : String) (s s' : Server)
    → Step s s'
    → is_ak_in_block_list ak s.list ≡ true
    → (is_ak_in_block_list ak s'.list ≡ true)
      ⊎ (s.list.fired ak ≢ 0)
      ⊎ ((s.passed ak ≢ 0) × (s'.list ≡ process_ak_for_block_listing ak s.list))
unfolding expire delete_expired
Step-keeps_lock ak s s' (passes_test k _ free) is_locked = inl is_locked
Step-keeps_lock ak s s' (no_signature k n _ in_it) is_locked = inl is_locked
Step-keeps_lock ak s s' (invalid_signature k n _ in_it) is_locked = elim (Bool-cases (k == ak)) [
  | inl same ↦
      let e = (eq_iff k ak).0 same in
      inr (
        inr (
          λ never. let none_in = ap s.passed e ∙ never in omega (arith, in_it, none_in),
          ap (λ x. process_ak_for_block_listing x s.list) e,
        ))
  | inr other ↦ inl (
      same-lock ak s.list (process_ak_for_block_listing k s.list)
        ((process_ak_for_block_listing-locks k s.list).1 ak (λ e. ground (arith, eq_iff k ak)))
      ∙ is_locked)
]
Step-keeps_lock ak s s' (valid_signature k n _ in_it) is_locked =
    inl (clear-keeps_lock k ak s.list is_locked)
Step-keeps_lock ak s s' (timer_fires t _ runs) is_locked =
    inl (same-lock ak s.list (expire t s.list) refl ∙ is_locked)
Step-keeps_lock ak s s' (goroutine_deletes k n _ due) is_locked = elim (Bool-cases (k == ak)) [
  | inl same ↦ inr (inl (λ never. ground (arith, eq_iff k ak)))
  | inr other ↦ inl (
      same-lock ak s.list (delete_expired k s.list)
        (put_ne k none s.list.infos ak (λ e. ground (arith, eq_iff k ak)))
      ∙ is_locked)
]

-- the entry that an invalid signature leaves, for a key that is not locked by it
first-entry :
    (ak : String) (s : AuthInfoList)
    → is_ak_in_validation_list ak s ≡ false
    → (i : AkSessionInfo) × ((process_ak_for_block_listing ak s).infos ak ≡ some i)
      × (i.state ≡ validation_in_progress)
      × (i.validate_counter ≡ 1)
first-entry ak s free = elim (process-IsCounted ak s) [
  | inl (_, e, _) ↦ (_, ap (λ f. f ak) e ∙ put_self ak _ s.infos, refl, refl)
  | inr (inl (i, there, state, _, _)) ↦
      let was = is_ak_in_validation_list-at ak s i there in
      let validating = ap is_validating state in absurd (ground arith)
  | inr (inr (i, there, state, _, _)) ↦
      let was = is_ak_in_validation_list-at ak s i there in
      let validating = ap is_validating state in absurd (ground arith)
]

-- A key that is locked while a handler of it has passed the test can be unlocked with no timer fired:
-- if that handler meets an invalid signature, the key is being validated again, with a count of 1.
late-unlocks :
    (ak : String) (s : Server) (n : ℕ)
    → is_ak_in_block_list ak s.list ≡ true
    → s.passed ak ≡ suc n
    → (s' : Server) × Step s s'
      × (is_ak_in_block_list ak s'.list ≡ false)
      × (i : AkSessionInfo) × (s'.list.infos ak ≡ some i)
      × (i.state ≡ validation_in_progress)
      × (i.validate_counter ≡ 1)
late-unlocks ak s n is_locked in_it =
    let s' = process_ak_for_block_listing ak s.list in
    let (i, there, state, one) =
      first-entry ak s.list (locked-not_validating ak s.list is_locked) in
    (
      leave ak s' s,
      invalid_signature ak n s in_it,
      is_ak_in_block_list-at ak s' i there ∙ ap is_under_block_list state,
      i,
      there,
      state,
      one,
    )

next-entry :
    (ak : String) (s : AuthInfoList) (i : AkSessionInfo)
    → s.infos ak ≡ some i
    → i.state ≡ validation_in_progress
    → i.validate_counter < 2
    → (j : AkSessionInfo) × ((process_ak_for_block_listing ak s).infos ak ≡ some j)
      × (j.state ≡ validation_in_progress)
      × (j.validate_counter ≡ suc i.validate_counter)
next-entry ak s i there state below = elim (process-IsCounted ak s) [
  | inl (other, _, _) ↦
      let was = is_ak_in_validation_list-at ak s i there in
      let validating = ap is_validating state in absurd (ground arith)
  | inr (inl (j, there', state', _, e)) ↦
      let same = some-injective j i (sym there' ∙ there) in
      (
        _,
        ap (λ x. x.infos ak) e ∙ put_self ak _ s.infos,
        state',
        ap (λ x. suc x.validate_counter) same,
      )
  | inr (inr (j, there', _, many, _)) ↦
      let same = ap (λ x. x.validate_counter) (some-injective j i (sym there' ∙ there)) in
      absurd (omega arith)
]

-- Three invalid signatures of a key that is not being validated: it is locked after the third of them,
-- and not before.
pub process-three :
    (ak : String) (s : AuthInfoList)
    → is_ak_in_validation_list ak s ≡ false
    → let p = process_ak_for_block_listing ak in
      (is_ak_in_block_list ak (p s) ≡ false)
      × (is_ak_in_block_list ak (p (p s)) ≡ false)
      × (is_ak_in_block_list ak (p (p (p s))) ≡ true)
process-three ak s free =
    let p = process_ak_for_block_listing ak in
    let (i, one, state1, count1) = first-entry ak s free in
    let (j, two, state2, count2) = next-entry ak (p s) i one state1 (omega arith) in
    (
      is_ak_in_block_list-at ak (p s) i one ∙ ap is_under_block_list state1,
      is_ak_in_block_list-at ak (p (p s)) j two ∙ ap is_under_block_list state2,
      (process_ak_for_block_listing-locks ak (p (p s))).0.1 (j, two, state2, omega arith),
    )
