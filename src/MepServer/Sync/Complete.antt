-- ===== src/MepServer/Sync/Complete.antt =====
-- mepserver/mm5/task/sync.go: the application of the rules of one type from its start to its end.
use mep.Prelude.{
  contains, ℕ, ◌≡◌, ◌⊎◌, refl, ap, sym, ◌∙◌, subst⁻¹, inl, inr, ◌≤◌, true, List, [], ◌∷◌, ◌++◌,
  snoc-append, All, Map, arith,
}
use mep.MepServer.Sync.{
  RuleType, apply_func, RuleStatus, statuses, World, Env, TaskInfo, wait_mp2, wait_local,
  wait_config_db_write,
}
use mep.MepServer.Sync.Operations.{Place, in_job, in_config, Pointer, rules_at, generate_rule_map}
use mep.MepServer.Sync.Rules.{apply_state, process_entry_apply, handle_loop, handle_rules}
use mep.MepServer.Sync.Moved.{IsFresh}
use mep.MepServer.Sync.Progress.{written, apply_state-done, process_entry_apply-done}
use mep.MepServer.Sync.Written.{IsDistinct, IsFresh-All, IsFresh-nil}
use mep.MepServer.Sync.Pointers.{has_rule, generate_rule_map-new, generate_rule_map-old}
use mep.MepServer.Sync.Serving.{IsServing}
use mep.MepServer.Sync.Total.{
  IsAlike, IsAlike-refl, IsAlike-trans, IsPlaced, IsPlaced-alike, IsFine, after_call_done,
  then_on_done, apply_state_total,
}

module _ {K V : Type 0} where
  -- A status of a task as it is staged: its method is known, and its rule is in the job, in the stored
  -- configuration, or in both.
  abbrev pub IsStaged : (k : RuleType) → World K V → RuleStatus → Type 0
  IsStaged k w rs =
      ((rs.method ≡ 0) × (has_rule k rs.id (rules_at k in_job w) ≡ true))
      ⊎ ((1 ≤ rs.method) × (rs.method ≤ 2) × (has_rule k rs.id (rules_at k in_config w) ≡ true))

  -- the statuses of a type that a loop can work on
  abbrev pub IsReady : (k : RuleType) → World K V → Type 0
  IsReady k w =
      IsDistinct (statuses k w.status)
      × All (λ x. x.state ≤ wait_config_db_write) (statuses k w.status)
      × All (IsStaged k w) (statuses k w.status)

  -- The rules of the other type are ready as before, where the lists have the same identifiers.
  IsStaged-alike :
      (k : RuleType) (w w' : World K V) (rss : List RuleStatus)
      → IsAlike w w'
      → All (IsStaged k w) rss
      → All (IsStaged k w') rss
  IsStaged-alike k w w' [] alike staged = tt
  IsStaged-alike k w w' (rs ∷ rss) alike staged = (
    elim staged.0 [
      | inl (created, here) ↦
          inl (created, ap (λ l. contains l rs.id) (alike.rule_ids k in_job) ∙ here)
      | inr (late, known, here) ↦
          inr (late, known, ap (λ l. contains l rs.id) (alike.rule_ids k in_config) ∙ here)
    ],
    IsStaged-alike k w w' rss alike staged.1,
  )

  pub IsReady-alike :
      (k : RuleType) (w w' : World K V)
      → IsAlike w w'
      → statuses k w'.status ≡ statuses k w.status
      → IsReady k w
      → IsReady k w'
  IsReady-alike k w w' alike same (distinct, bounds, staged) =
      subst⁻¹
        (λ l. IsDistinct l × All (λ x. x.state ≤ wait_config_db_write) l × All (IsStaged k w') l)
        same (distinct, bounds, IsStaged-alike k w w' (statuses k w.status) alike staged)

module _ {B K V : Type 0} (env : Env B K V) (t : TaskInfo) (ok : IsServing env) where
  pub process_entry_apply_total :
      (k : RuleType) (new old : Pointer) (rs : RuleStatus) (w : World K V)
      (pre suf : List RuleStatus)
      → statuses k w.status ≡ pre ++ rs ∷ suf
      → IsFresh rs.id pre
      → IsPlaced k new old rs w
      → IsFine w (process_entry_apply env t k new old rs w)
  unfolding process_entry_apply
  process_entry_apply_total k new old rs w pre suf e fresh placed =
      let round = apply_state env t k new old rs in
      let (h1, alike1) =
        apply_state_total env t ok k new old rs wait_mp2 w pre rs suf e fresh refl placed in
      let placed1 = IsPlaced-alike k new old rs alike1 placed in
      let last : IsFine (round wait_mp2 w).1 (round wait_local (round wait_mp2 w).1) =
        elim (apply_state-done env t k new old rs wait_mp2 w pre rs suf e fresh refl h1) [
          | inl (_, same) ↦
              apply_state_total env t ok k new old rs wait_local (round wait_mp2 w).1 pre rs suf
                (ap (λ x. statuses k x.status) same ∙ e) fresh refl placed1
          | inr (_, moved) ↦
              apply_state_total env t ok k new old rs wait_local (round wait_mp2 w).1 pre
                (record rs { state = wait_local }) suf moved.here fresh refl placed1
        ] in
      subst⁻¹ (IsFine w) (then_on_done (round wait_mp2 w) (round wait_local) h1)
        (last.0, IsAlike-trans alike1 last.1)

  handle_loop_total :
      (k : RuleType) (new old : Map (Place × ℕ)) (rss : List RuleStatus) (w : World K V)
      (pre : List RuleStatus)
      → statuses k w.status ≡ pre ++ rss
      → All (λ x. IsFresh x.id pre) rss
      → IsDistinct rss
      → All (λ x. x.state ≤ wait_config_db_write) rss
      → ((w1 : World K V) → IsAlike w w1 → All (λ x. IsPlaced k (new x.id) (old x.id) x w1) rss)
      → IsFine w (handle_loop env t k apply_func new old rss w)
  unfolding handle_loop
  handle_loop_total k new old [] w pre e fresh distinct bounds placed = (refl, IsAlike-refl w)
  handle_loop_total k new old (rs ∷ rss) w pre e fresh distinct bounds placed =
      let entry = process_entry_apply env t k (new rs.id) (old rs.id) rs w in
      let (h1, alike1) =
        process_entry_apply_total k (new rs.id) (old rs.id) rs w pre rss e fresh.0
          (placed w (IsAlike-refl w)).0 in
      let first =
        process_entry_apply-done env t k (new rs.id) (old rs.id) rs w pre rss e fresh.0 bounds.0
          h1 in
      let (h2, alike2) =
        handle_loop_total k new old rss entry.1 (pre ++ written rs ∷ [])
          (first.here ∙ sym (snoc-append pre (written rs) rss))
          (IsFresh-All pre rs rss fresh.1 distinct.0) distinct.1 bounds.1
          (λ w1 alike. (placed w1 (IsAlike-trans alike1 alike)).1) in
      subst⁻¹ (IsFine w) (after_call_done _ (handle_loop env t k apply_func new old rss) entry h1)
        (h2, IsAlike-trans alike1 alike2)

  staged-IsPlaced :
      (k : RuleType) (w : World K V) (rs : RuleStatus)
      → IsStaged k w rs
      → IsPlaced k
          ((generate_rule_map k apply_func w).0 rs.id)
          ((generate_rule_map k apply_func w).1 rs.id)
          rs
          w
  staged-IsPlaced k w rs (inl (created, here)) =
      (omega (arith, created), generate_rule_map-new k w rs.id (inl here), inl created)
  staged-IsPlaced k w rs (inr (_, known, here)) = (
    known,
    generate_rule_map-new k w rs.id (inr here),
    inr (generate_rule_map-old k w rs.id here),
  )

  All-staged-IsPlaced :
      (k : RuleType) (w : World K V) (rss : List RuleStatus)
      → All (IsStaged k w) rss
      → (w1 : World K V) → IsAlike w w1
      → All
          (λ x.
            IsPlaced k
              ((generate_rule_map k apply_func w).0 x.id)
              ((generate_rule_map k apply_func w).1 x.id)
              x
              w1)
          rss
  All-staged-IsPlaced k w [] staged w1 alike = tt
  All-staged-IsPlaced k w (rs ∷ rss) staged w1 alike = (
    IsPlaced-alike k _ _ rs alike (staged-IsPlaced k w rs staged.0),
    All-staged-IsPlaced k w rss staged.1 w1 alike,
  )

  pub handle_rules_total :
      (k : RuleType) (w : World K V) → IsReady k w → IsFine w (handle_rules env t k apply_func w)
  unfolding handle_rules
  handle_rules_total k w (distinct, bounds, staged) =
      let (new, old) = generate_rule_map k apply_func w in
      handle_loop_total k new old (statuses k w.status) w [] refl (IsFresh-nil _) distinct bounds
        (All-staged-IsPlaced k w (statuses k w.status) staged)
