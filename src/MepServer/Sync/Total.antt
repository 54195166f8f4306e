-- ===== src/MepServer/Sync/Total.antt =====
-- mepserver/mm5/task/sync.go: a loop over rules that are where they have to be ends without an error
-- where the services succeed.
use mep.Prelude.{
  ℕ, String, ◌≡◌, ◌⊎◌, refl, ap, ◌∙◌, subst⁻¹, inl, inr, ◌+◌, ◌≤◌, ◌<◌, true, some, List, ◌∷◌, ◌++◌,
  ltb, length, arith, Bool-cases,
}
use mep.MepServer.Backend.{put_record}
use mep.MepServer.Sync.{
  RuleType, RuleStatus, statuses, Outcome, done, failed, panicked, World, Env, TaskInfo, TaskStatus,
}
use mep.MepServer.Sync.Status.{
  set_state, count_up, push_status, set_found, search_rule, set_state_and_progress,
}
use mep.MepServer.Sync.Operations.{Place, in_job, in_config, Pointer, rules_at}
use mep.MepServer.Sync.Rules.{
  apply_of, after_call, then_on, move_on, apply_state, apply_failed, apply_status_failed,
}
use mep.MepServer.Sync.Moved.{IsFresh, search_rule-append}
use mep.MepServer.Sync.Frame.{normal_config, IsTouched, ids, same_ids-counts}
use mep.MepServer.Sync.Cells.{cell-Touches}
use mep.MepServer.Sync.Pointers.{IsIn}
use mep.MepServer.Sync.Serving.{IsServing, cell-Succeeds}

module _ {K V : Type 0} where
  -- Two worlds with the same rules in each list, and jobs that differ at most in rules made active.
  pub record IsAlike (w w' : World K V) : Type 0 where
    pub operation : w'.job.operation ≡ w.job.operation
    pub rule_ids : (k : RuleType) (p : Place) → ids k (rules_at k p w') ≡ ids k (rules_at k p w)
    pub job : normal_config w'.job ≡ normal_config w.job

  pub IsAlike-refl : (w : World K V) → IsAlike w w
  IsAlike-refl w = record { operation = refl; rule_ids = λ k p. refl; job = refl }

  pub IsAlike-trans : {a b c : World K V} → IsAlike a b → IsAlike b c → IsAlike a c
  IsAlike-trans f g = record {
    operation = g.operation ∙ f.operation;
    rule_ids = λ k p. g.rule_ids k p ∙ f.rule_ids k p;
    job = g.job ∙ f.job;
  }

  touched-IsAlike : {w w' : World K V} → IsTouched w w' → IsAlike w w'
  touched-IsAlike h = record { operation = h.operation; rule_ids = h.rule_ids; job = h.job }

  rules_at-status :
      (k : RuleType) (p : Place) (st : TaskStatus) (s : K) (w : World K V)
      → rules_at k p (record w { status = st; store = s }) ≡ rules_at k p w
  rules_at-status k in_job st s w = refl
  rules_at-status k in_config st s w = refl

  pub status-IsAlike :
      (st : TaskStatus) (s : K) (w : World K V) → IsAlike w (record w { status = st; store = s })
  status-IsAlike st s w = record {
    operation = refl;
    rule_ids = λ k p. ap (ids k) (rules_at-status k p st s w);
    job = refl;
  }

  pub IsIn-alike :
      (k : RuleType) (q : Pointer) {w w' : World K V} → IsAlike w w' → IsIn k q w → IsIn k q w'
  IsIn-alike k q alike (p, i, e, bound) =
      (p, i, e, subst⁻¹ (λ n. i < n) (same_ids-counts k _ _ (alike.rule_ids k p)) bound)

  -- what the work on a status needs: a known method, a new rule, and an old one if it is not created
  abbrev pub IsPlaced : (k : RuleType) → Pointer → Pointer → RuleStatus → World K V → Type 0
  IsPlaced k new old rs w = (rs.method ≤ 2) × IsIn k new w × ((rs.method ≡ 0) ⊎ IsIn k old w)

  pub IsPlaced-alike :
      (k : RuleType) (new old : Pointer) (rs : RuleStatus) {w w' : World K V}
      → IsAlike w w'
      → IsPlaced k new old rs w
      → IsPlaced k new old rs w'
  IsPlaced-alike k new old rs alike (known, new_in, old_in) = (
    known,
    IsIn-alike k new alike new_in,
    elim old_in [ inl created ↦ inl created | inr there ↦ inr (IsIn-alike k old alike there) ],
  )

  pub after_call_done :
      (text : String) (next : World K V → Outcome × World K V) (r : Outcome × World K V)
      → r.0 ≡ done
      → after_call text next r ≡ next r.1
  after_call_done text next (done, w) h = refl
  after_call_done text next (failed, w) h = cc
  after_call_done text next (panicked, w) h = cc

  pub then_on_done :
      (r : Outcome × World K V) (next : World K V → Outcome × World K V)
      → r.0 ≡ done
      → then_on r next ≡ next r.1
  then_on_done (done, w) next h = refl
  then_on_done (failed, w) next h = cc
  then_on_done (panicked, w) next h = cc

  -- an outcome without an error, in a world that is alike
  abbrev pub IsFine : World K V → Outcome × World K V → Type 0
  IsFine w r = (r.0 ≡ done) × IsAlike w r.1

module _ {B K V : Type 0} (env : Env B K V) (t : TaskInfo) (ok : IsServing env) where
  pub push_status-ok : (st : TaskStatus) (s : K) → (push_status env t st s).0 ≡ true
  unfolding push_status put_record
  push_status-ok st s =
      let (bytes, e) = ok.status st in rw (e, push_status) (rw (ok.put _ bytes s, put_record) refl)

  -- The next state is set, and nothing but the status and the store changes.
  set_state_and_progress_total :
      (k : RuleType) (id : String) (state : ℕ) (w : World K V) (pre : List RuleStatus)
      (now : RuleStatus) (suf : List RuleStatus)
      → statuses k w.status ≡ pre ++ now ∷ suf
      → IsFresh id pre
      → now.id ≡ id
      → ((set_state_and_progress env t k id state w).0 ≡ true)
        × IsAlike w (set_state_and_progress env t k id state w).1
  unfolding set_state_and_progress set_found
  set_state_and_progress_total k id state w pre now suf e fresh same =
      let found : search_rule id 0 (statuses k w.status) ≡ some (length pre, now) =
        ap (search_rule id 0) e
        ∙ search_rule-append id 0 pre now suf fresh same
        ∙ ap (λ n. some (n, now)) (omega arith) in
      let changed = count_up state (set_state k (length pre) now state w.status) in
      rw (found, set_state_and_progress)
        (rw (push_status-ok changed w.store, set_found) (refl, status-IsAlike changed _ w))

  move_on_total :
      (k : RuleType) (id text : String) (state : ℕ) (w : World K V) (pre : List RuleStatus)
      (now : RuleStatus) (suf : List RuleStatus)
      → statuses k w.status ≡ pre ++ now ∷ suf
      → IsFresh id pre
      → now.id ≡ id
      → ((move_on env t k id text state w).0 ≡ done) × IsAlike w (move_on env t k id text state w).1
  unfolding move_on
  move_on_total k id text state w pre now suf e fresh same =
      let (ended, alike) = set_state_and_progress_total k id state w pre now suf e fresh same in
      rw (ended, move_on) (refl, alike)

  pub apply_state_total :
      (k : RuleType) (new old : Pointer) (rs : RuleStatus) (state : ℕ) (w : World K V)
      (pre : List RuleStatus) (now : RuleStatus) (suf : List RuleStatus)
      → statuses k w.status ≡ pre ++ now ∷ suf
      → IsFresh rs.id pre
      → now.id ≡ rs.id
      → IsPlaced k new old rs w
      → IsFine w (apply_state env t k new old rs state w)
  unfolding apply_state
  apply_state_total k new old rs state w pre now suf e fresh same (known, new_in, old_in) =
      let (c, here, succeeds) = cell-Succeeds env t ok k rs.method state known in
      let ended = apply_of env t c rs.id new old w in
      let touched = (cell-Touches env t k rs.method state here).0 rs.id new old w in
      let next = move_on env t k rs.id (apply_status_failed k) (state + 1) in
      elim (Bool-cases (ltb state rs.state)) [
        | inl skip ↦ rw (here, apply_state) (rw skip (refl, IsAlike-refl w))
        | inr work ↦
            let e1 : apply_state env t k new old rs state w ≡ next ended.1 =
              rw (here, apply_state)
                (rw work (
                  after_call_done (apply_failed k) next ended
                    (succeeds rs.id new old w new_in old_in))) in
            let (fine, alike) =
              move_on_total k rs.id (apply_status_failed k) (state + 1) ended.1 pre now suf
                (ap (statuses k) touched.status ∙ e) fresh same in
            subst⁻¹ (IsFine w) e1 (fine, IsAlike-trans (touched-IsAlike touched) alike)
      ]
