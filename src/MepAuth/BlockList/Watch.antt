-- ===== src/MepAuth/BlockList/Watch.antt =====
-- mepauth/controllers/blocklist.go: in every run, each listed key is on its way out of the list.
use mep.Prelude.{
  suc, ◌-◌, ◌≤◌, ◌<◌, String, ◌≡◌, ◌≢◌, ◌⊎◌, refl, ap, sym, ◌∙◌, subst, subst⁻¹, inl, inr, Bool,
  true, none, some, ◌==◌, eq_iff, eq_refl, arith, Bool-cases,
}
use mathlib.Core.Option.{some-injective}
use mep.MepAuth.BlockList.{
  validation_in_progress, under_block_list, AkSessionInfo, AuthInfoList, Server, Step, passes_test,
  no_signature, invalid_signature, valid_signature, timer_fires, goroutine_deletes,
  start_validating_ak, process_ak_for_block_listing, Reachable, start, after, same_timer,
  clear_ak_from_block_listing, expire, delete_expired, count_up, Timer, arm, disarm,
}
use mep.MepAuth.BlockList.Entries.{
  put_self, put_ne, process-IsCounted, IsLocked, lock-IsLocked, clear-cases, stopped,
}

-- An entry in the list: its key is being validated after one or two invalid signatures, or it is
-- locked; and its timer runs, or has fired and the entry is about to be deleted.
pub record IsWatched (s : AuthInfoList) (ak : String) (i : AkSessionInfo) : Type 0 where
  pub state :
      ((i.state ≡ validation_in_progress) × (1 ≤ i.validate_counter) × (i.validate_counter ≤ 2))
      ⊎ ((i.state ≡ under_block_list) × (i.validate_counter ≡ 0))
  pub owner : i.clear_timer.ak ≡ ak
  pub due : (s.armed i.clear_timer ≡ true) ⊎ (s.fired ak ≢ 0)

abbrev pub IsInvariant : AuthInfoList → Type 0
IsInvariant s = (ak : String) (i : AkSessionInfo) → s.infos ak ≡ some i → IsWatched s ak i

same_timer_refl : (t : Timer) → same_timer t t ≡ true
same_timer_refl t = rw (eq_refl t.ak) (ground arith)

-- What is to be shown of a step that changes the entry, the timers and the goroutines of one key.
pub record IsLocal (k : String) (s s' : AuthInfoList) : Type 0 where
  pub here : (i : AkSessionInfo) → s'.infos k ≡ some i → IsWatched s' k i
  pub infos : (ak : String) → k ≢ ak → s'.infos ak ≡ s.infos ak
  pub armed : (t : Timer) → k ≢ t.ak → s'.armed t ≡ s.armed t
  pub fired : (ak : String) → k ≢ ak → s'.fired ak ≡ s.fired ak

IsLocal-IsInvariant :
    (k : String) (s s' : AuthInfoList) → IsInvariant s → IsLocal k s s' → IsInvariant s'
IsLocal-IsInvariant k s s' inv l ak i there = elim (Bool-cases (k == ak)) [
  | inl same ↦
      let e = (eq_iff k ak).0 same in
      subst (λ x. s'.infos x ≡ some i → IsWatched s' x i) e (l.here i) there
  | inr other ↦
      let differ : k ≢ ak = λ e. ground (arith, eq_iff k ak) in
      let w = inv ak i (sym (l.infos ak differ) ∙ there) in
      let timer = l.armed i.clear_timer (λ e. differ (e ∙ w.owner)) in
      let goroutine = l.fired ak differ in
      record {
        state = w.state;
        owner = w.owner;
        due = elim w.due [
          | inl runs ↦ inl (timer ∙ runs)
          | inr fired ↦ inr (λ z. fired (sym goroutine ∙ z))
        ];
      }
]

-- the timers of other keys
disarm_ne : (t u : Timer) (armed : Timer → Bool) → t.ak ≢ u.ak → disarm t armed u ≡ armed u
disarm_ne t u armed differ = elim (Bool-cases (t.ak == u.ak)) [
  | inl same ↦ absurd (differ ((eq_iff t.ak u.ak).0 same))
  | inr other ↦ ground arith
]

arm_ne : (t u : Timer) (armed : Timer → Bool) → t.ak ≢ u.ak → arm t armed u ≡ armed u
arm_ne t u armed differ = elim (Bool-cases (t.ak == u.ak)) [
  | inl same ↦ absurd (differ ((eq_iff t.ak u.ak).0 same))
  | inr other ↦ ground arith
]

arm_self : (t : Timer) (armed : Timer → Bool) → arm t armed t ≡ true
arm_self t armed = rw (same_timer_refl t)

timer_fires-IsLocal : (t : Timer) (s : AuthInfoList) → IsInvariant s → IsLocal t.ak s (expire t s)
unfolding expire
timer_fires-IsLocal t s inv = record {
  here = λ i there.
      let w = inv t.ak i there in
      let now = put_self t.ak (suc (s.fired t.ak)) s.fired in
      record {
        state = w.state;
        owner = w.owner;
        due = inr (λ z. absurd (omega (arith, sym now ∙ z)));
      };
  infos = λ ak differ. refl;
  armed = λ u differ. disarm_ne t u s.armed differ;
  fired = λ ak differ. put_ne t.ak (suc (s.fired t.ak)) s.fired ak differ;
}

goroutine_deletes-IsLocal : (k : String) (s : AuthInfoList) → IsLocal k s (delete_expired k s)
unfolding delete_expired
goroutine_deletes-IsLocal k s = record {
  here = λ i there. let impossible = sym (put_self k none s.infos) ∙ there in cc;
  infos = λ ak differ. put_ne k none s.infos ak differ;
  armed = λ u differ. refl;
  fired = λ ak differ. put_ne k (s.fired k - 1) s.fired ak differ;
}

valid_signature-IsLocal :
    (k : String) (s : AuthInfoList) → IsInvariant s → IsLocal k s (clear_ak_from_block_listing k s)
valid_signature-IsLocal k s inv = elim (clear-cases k s) [
  | inl (_, e) ↦ subst⁻¹ (IsLocal k s) e (record {
    here = inv k;
    infos = λ ak differ. refl;
    armed = λ u differ. refl;
    fired = λ ak differ. refl;
  })
  | inr (j, there, e) ↦ subst⁻¹ (IsLocal k s) e (record {
    here = λ i found. let impossible = sym (put_self k none (stopped k j s).infos) ∙ found in cc;
    infos =
        λ ak differ. put_ne k none (stopped k j s).infos ak differ ∙ put_ne k _ s.infos ak differ;
    armed =
        λ u differ. disarm_ne j.clear_timer u s.armed (λ o. differ (sym (inv k j there).owner ∙ o));
    fired = λ ak differ. refl;
  })
]

first_invalid-IsLocal : (k : String) (s : AuthInfoList) → IsLocal k s (start_validating_ak k s)
unfolding start_validating_ak
first_invalid-IsLocal k s =
    let timer : Timer = record { number = s.next; ak = k } in
    record {
      here = λ i there.
          let e = some-injective _ _ (sym (put_self k _ s.infos) ∙ there) in
          subst (IsWatched (start_validating_ak k s) k) e (record {
            state = inl (refl, omega arith, omega arith);
            owner = refl;
            due = inl (arm_self timer s.armed);
          });
      infos = λ ak differ. put_ne k _ s.infos ak differ;
      armed = λ u differ. arm_ne timer u s.armed differ;
      fired = λ ak differ. refl;
    }

second_invalid-IsLocal :
    (k : String) (i : AkSessionInfo) (s : AuthInfoList)
    → s.infos k ≡ some i
    → i.state ≡ validation_in_progress
    → i.validate_counter < 2
    → IsInvariant s
    → IsLocal k s (count_up k i s)
second_invalid-IsLocal k i s there state below inv = record {
  here = λ j found.
      let e = some-injective _ _ (sym (put_self k _ s.infos) ∙ found) in
      let w = inv k i there in
      subst (IsWatched (count_up k i s) k) e
        (record { state = inl (state, omega arith, omega arith); owner = w.owner; due = w.due });
  infos = λ ak differ. put_ne k _ s.infos ak differ;
  armed = λ u differ. refl;
  fired = λ ak differ. refl;
}

third_invalid-IsLocal :
    (k : String) (i : AkSessionInfo) (s s' : AuthInfoList)
    → s.infos k ≡ some i
    → IsInvariant s
    → IsLocked k i s s'
    → IsLocal k s s'
third_invalid-IsLocal k i s s' there inv l =
    let timer : Timer = record { number = s.next; ak = k } in
    record {
      here = λ j found.
          let e = some-injective _ _ (sym l.here ∙ found) in
          subst (IsWatched s' k) e (record {
            state = inr (refl, refl);
            owner = refl;
            due = inl (ap (λ f. f timer) l.armed ∙ arm_self timer (disarm i.clear_timer s.armed));
          });
      infos = l.others;
      armed = λ u differ.
          ap (λ f. f u) l.armed
          ∙ arm_ne timer u (disarm i.clear_timer s.armed) differ
          ∙ disarm_ne i.clear_timer u s.armed (λ o. differ (sym (inv k i there).owner ∙ o));
      fired = λ ak differ. ap (λ f. f ak) l.fired;
    }

process-IsInvariant :
    (k : String) (s : AuthInfoList) → IsInvariant s → IsInvariant (process_ak_for_block_listing k s)
process-IsInvariant k s inv =
    IsLocal-IsInvariant k s (process_ak_for_block_listing k s) inv (elim (process-IsCounted k s) [
      | inl (_, _, e) ↦ subst⁻¹ (IsLocal k s) e (first_invalid-IsLocal k s)
      | inr (inl (i, there, state, below, e)) ↦
          subst⁻¹ (IsLocal k s) e (second_invalid-IsLocal k i s there state below inv)
      | inr (inr (i, there, state, many, e)) ↦
          subst⁻¹ (IsLocal k s) e (third_invalid-IsLocal k i s _ there inv (lock-IsLocked k i s))
    ])

Step-IsInvariant : (s s' : Server) → Step s s' → IsInvariant s.list → IsInvariant s'.list
Step-IsInvariant s s' (passes_test k _ free) inv = inv
Step-IsInvariant s s' (no_signature k n _ in_it) inv = inv
Step-IsInvariant s s' (timer_fires t _ runs) inv =
    IsLocal-IsInvariant t.ak s.list (expire t s.list) inv (timer_fires-IsLocal t s.list inv)
Step-IsInvariant s s' (goroutine_deletes k n _ due) inv =
    IsLocal-IsInvariant k s.list (delete_expired k s.list) inv (goroutine_deletes-IsLocal k s.list)
Step-IsInvariant s s' (valid_signature k n _ in_it) inv =
    IsLocal-IsInvariant k s.list (clear_ak_from_block_listing k s.list) inv
      (valid_signature-IsLocal k s.list inv)
Step-IsInvariant s s' (invalid_signature k n _ in_it) inv = process-IsInvariant k s.list inv

-- In every run, each listed key is either being validated, after one or two invalid signatures, or
-- locked with its count reset; and in both cases its own timer runs, or has fired and the deletion of
-- the key is due: no key is listed, or locked, for ever.
pub Reachable-IsWatched :
    (s : Server)
    → Reachable s
    → (ak : String) (i : AkSessionInfo) → s.list.infos ak ≡ some i
    → IsWatched s.list ak i
Reachable-IsWatched s start ak i there = cc
Reachable-IsWatched s (after s0 _ reached step) ak i there =
    Step-IsInvariant s0 s step (Reachable-IsWatched s0 reached) ak i there
