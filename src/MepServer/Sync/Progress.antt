-- ===== src/MepServer/Sync/Progress.antt =====
-- mepserver/mm5/task/sync.go: the work on one rule that ends without an error has brought it to its last
-- state.
use mep.Prelude.{
  ℕ, suc_ℤ, ℤ, String, ◌≡◌, ◌⊎◌, refl, ap, sym, ◌∙◌, subst, subst⁻¹, inl, inr, ◌+◌, ◌≤◌, ◌<◌, true,
  false, List, ◌∷◌, ◌++◌, eqb, ltb, if◌then◌else◌, arith, Bool-cases, Option-cases,
}
use mep.MepServer.Sync.{
  RuleType, RuleStatus, TaskStatus, statuses, Outcome, done, failed, panicked, World, Env, TaskInfo,
  wait_mp2, wait_local, wait_config_db_write,
}
use mep.MepServer.Sync.Operations.{Pointer}
use mep.MepServer.Sync.Rules.{
  cell, apply_of, after_call, then_on, move_on, apply_state, process_entry_apply, apply_failed,
  apply_status_failed,
}
use mep.MepServer.Sync.Moved.{
  IsFresh, IsMoved, moved_progress, count_up-IsMoved, set_state_and_progress-cases,
}
use mep.MepServer.Sync.Cells.{cell-Touches}

-- the status of a rule that is in its last state, and the progress that counts it
abbrev pub written : RuleStatus → RuleStatus
written rs = record rs { state = wait_config_db_write }

abbrev pub advance : RuleStatus → ℤ → ℤ
advance rs p = if eqb rs.state wait_config_db_write then p else suc_ℤ p

module _ {K V : Type 0} where
  pub after_call-done :
      (text : String) (next : World K V → Outcome × World K V) (r : Outcome × World K V)
      → (after_call text next r).0 ≡ done
      → (r.0 ≡ done) × (after_call text next r ≡ next r.1)
  after_call-done text next (done, w) h = (refl, refl)
  after_call-done text next (failed, w) h = cc
  after_call-done text next (panicked, w) h = cc

  pub then_on-done :
      (r : Outcome × World K V) (next : World K V → Outcome × World K V)
      → (then_on r next).0 ≡ done
      → (r.0 ≡ done) × (then_on r next ≡ next r.1)
  then_on-done (done, w) next h = (refl, refl)
  then_on-done (failed, w) next h = cc
  then_on-done (panicked, w) next h = cc

pub IsMoved-trans :
    (k : RuleType) (a b c : TaskStatus) {l m : List RuleStatus} {p : ℤ} (q : ℤ → ℤ)
    → IsMoved k a b l p
    → IsMoved k b c m (q b.progress)
    → IsMoved k a c m (q p)
IsMoved-trans k a b c q first second = record {
  here = second.here;
  there = second.there ∙ first.there;
  progress = second.progress ∙ ap q first.progress;
}

module _ {B K V : Type 0} (env : Env B K V) (t : TaskInfo) where
  move_on-done :
      (k : RuleType) (id text : String) (state : ℕ) (w : World K V) (pre : List RuleStatus)
      (now : RuleStatus) (suf : List RuleStatus)
      → statuses k w.status ≡ pre ++ now ∷ suf
      → IsFresh id pre
      → now.id ≡ id
      → (move_on env t k id text state w).0 ≡ done
      → IsMoved k w.status
          (move_on env t k id text state w).1.status
          (pre ++ record now { state = state } ∷ suf)
          (moved_progress state w.status.progress)
  unfolding move_on
  move_on-done k id text state w pre now suf e fresh same h =
      elim (set_state_and_progress-cases env t k id state w pre now suf e fresh same) [
        | inl (s, ok) ↦ rw (ok, move_on) (count_up-IsMoved k w.status pre now suf state e)
        | inr (s, bad) ↦ let never : failed ≡ done = rw (bad, move_on) at h in cc
      ]

  IsMoved-from :
      (k : RuleType) (a b c : TaskStatus) (l : List RuleStatus) (state : ℕ)
      → a ≡ b
      → IsMoved k a c l (moved_progress state a.progress)
      → IsMoved k b c l (moved_progress state b.progress)
  IsMoved-from k a b c l state e m =
      subst (λ x. IsMoved k x c l (moved_progress state x.progress)) e m

  -- A round that ends without an error skips the state, or has set the next one.
  pub apply_state-done :
      (k : RuleType) (new old : Pointer) (rs : RuleStatus) (state : ℕ) (w : World K V)
      (pre : List RuleStatus) (now : RuleStatus) (suf : List RuleStatus)
      → statuses k w.status ≡ pre ++ now ∷ suf
      → IsFresh rs.id pre
      → now.id ≡ rs.id
      → (apply_state env t k new old rs state w).0 ≡ done
      → ((state < rs.state) × ((apply_state env t k new old rs state w).1 ≡ w))
        ⊎ ((rs.state ≤ state)
            × IsMoved k w.status
                (apply_state env t k new old rs state w).1.status
                (pre ++ record now { state = state + 1 } ∷ suf)
                (moved_progress (state + 1) w.status.progress))
  unfolding apply_state
  apply_state-done k new old rs state w pre now suf e fresh same h =
      elim (Option-cases (cell env t k rs.method state)) [
        | inl unknown ↦ let never : panicked ≡ done = rw (unknown, apply_state) at h in cc
        | inr (c, known) ↦ elim (Bool-cases (ltb state rs.state)) [
          | inl skip ↦ inl (ground arith, rw (known, apply_state) (rw skip))
          | inr work ↦
              let ended = apply_of env t c rs.id new old w in
              let touched = (cell-Touches env t k rs.method state known).0 rs.id new old w in
              let next = move_on env t k rs.id (apply_status_failed k) (state + 1) in
              let e1 : apply_state env t k new old rs state w
                  ≡ after_call (apply_failed k) next ended =
                rw (known, apply_state) (rw work) in
              let h1 : (after_call (apply_failed k) next ended).0 ≡ done =
                sym (ap (λ x. x.0) e1) ∙ h in
              let e2 : apply_state env t k new old rs state w ≡ next ended.1 =
                e1 ∙ (after_call-done (apply_failed k) next ended h1).1 in
              inr (
                ground arith,
                subst⁻¹
                    (λ x.
                      IsMoved k w.status x.1.status (pre ++ record now { state = state + 1 } ∷ suf)
                        (moved_progress (state + 1) w.status.progress))
                    e2
                    (IsMoved-from k ended.1.status w.status (next ended.1).1.status _ (state + 1)
                      touched.status
                      (move_on-done k rs.id (apply_status_failed k) (state + 1) ended.1 pre now suf
                        (ap (statuses k) touched.status ∙ e) fresh same
                        (sym (ap (λ x. x.0) e2) ∙ h))),
              )
        ]
      ]

  advance_early : (rs : RuleStatus) (p : ℤ) → rs.state ≤ wait_local → advance rs p ≡ suc_ℤ p
  advance_early rs p h =
      let early : eqb rs.state wait_config_db_write ≡ false = ground arith in rw early

  -- The entry of a rule is written from one world to another.
  abbrev pub IsEntryWritten :
      RuleType → List RuleStatus → RuleStatus → List RuleStatus → World K V → World K V → Type 0
  IsEntryWritten k pre rs suf w w2 =
      IsMoved k w.status w2.status (pre ++ written rs ∷ suf) (advance rs w.status.progress)

  -- The round for the last state, where the first one was skipped, and where it was not.
  local_after_skip :
      (k : RuleType) (new old : Pointer) (rs : RuleStatus) (w w1 : World K V)
      (pre suf : List RuleStatus)
      → statuses k w.status ≡ pre ++ rs ∷ suf
      → IsFresh rs.id pre
      → rs.state ≤ wait_config_db_write
      → (apply_state env t k new old rs wait_local w1).0 ≡ done
      → w1 ≡ w
      → IsEntryWritten k pre rs suf w (apply_state env t k new old rs wait_local w1).1
  local_after_skip k new old rs w w1 pre suf e fresh bound ended same =
      elim (apply_state-done k new old rs wait_local w1 pre rs suf
        (ap (λ x. statuses k x.status) same ∙ e) fresh refl ended) [
          | inl (skip, kept) ↦
              let last : rs.state ≡ wait_config_db_write = omega (arith, skip, bound) in
              let counted : eqb rs.state wait_config_db_write ≡ true = ground arith in
              subst⁻¹ (IsEntryWritten k pre rs suf w) (kept ∙ same) (record {
                here = e ∙ ap (λ n. pre ++ record rs { state = n } ∷ suf) last;
                there = refl;
                progress = rw counted refl;
              })
          | inr (work, moved) ↦
              subst⁻¹ (IsMoved k w.status _ _) (advance_early rs w.status.progress work) (
                subst
                  (λ x.
                    IsMoved k x.status (apply_state env t k new old rs wait_local w1).1.status
                      (pre ++ written rs ∷ suf) (suc_ℤ x.status.progress))
                  same moved)
        ]

  local_after_mp2 :
      (k : RuleType) (new old : Pointer) (rs : RuleStatus) (w w1 : World K V)
      (pre suf : List RuleStatus)
      → IsFresh rs.id pre
      → (apply_state env t k new old rs wait_local w1).0 ≡ done
      → IsMoved k w.status w1.status
          (pre ++ record rs { state = wait_local } ∷ suf)
          w.status.progress
      → rs.state ≤ wait_mp2
      → IsEntryWritten k pre rs suf w (apply_state env t k new old rs wait_local w1).1
  local_after_mp2 k new old rs w w1 pre suf fresh ended moved start =
      elim (apply_state-done k new old rs wait_local w1 pre (record rs { state = wait_local }) suf
        moved.here fresh refl ended) [
          | inl (skip, _) ↦ absurd (omega (arith, skip, start))
          | inr (work, moved2) ↦
              subst⁻¹ (IsMoved k w.status _ _) (advance_early rs w.status.progress work)
                (IsMoved-trans k w.status w1.status _ suc_ℤ moved moved2)
        ]

  -- An entry that ends without an error is written.
  pub process_entry_apply-done :
      (k : RuleType) (new old : Pointer) (rs : RuleStatus) (w : World K V)
      (pre suf : List RuleStatus)
      → statuses k w.status ≡ pre ++ rs ∷ suf
      → IsFresh rs.id pre
      → rs.state ≤ wait_config_db_write
      → (process_entry_apply env t k new old rs w).0 ≡ done
      → IsEntryWritten k pre rs suf w (process_entry_apply env t k new old rs w).1
  unfolding process_entry_apply
  process_entry_apply-done k new old rs w pre suf e fresh bound h =
      let round = apply_state env t k new old rs in
      let (h1, e1) = then_on-done (round wait_mp2 w) (round wait_local) h in
      let h2 : (round wait_local (round wait_mp2 w).1).0 ≡ done = sym (ap (λ x. x.0) e1) ∙ h in
      subst⁻¹ (λ x. IsEntryWritten k pre rs suf w x.1) e1
        (elim (apply_state-done k new old rs wait_mp2 w pre rs suf e fresh refl h1) [
          | inl (_, same) ↦
              local_after_skip k new old rs w (round wait_mp2 w).1 pre suf e fresh bound h2 same
          | inr (start, moved) ↦
              local_after_mp2 k new old rs w (round wait_mp2 w).1 pre suf fresh h2 moved start
        ])
