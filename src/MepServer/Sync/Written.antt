-- ===== src/MepServer/Sync/Written.antt =====
-- mepserver/mm5/task/sync.go: a loop over the rules that ends without an error has brought every rule
-- to its last state.
use mep.Prelude.{
  ℕ, ℤ, String, ◌≡◌, ◌≢◌, refl, ap, sym, ◌∙◌, subst, subst⁻¹, ◌≤◌, List, [], ◌∷◌, ◌++◌, map,
  snoc-append, All, Map,
}
use mep.MepServer.Sync.{
  RuleType, apply_func, RuleStatus, statuses, done, World, Env, TaskInfo, wait_config_db_write,
}
use mep.MepServer.Sync.Operations.{Place, generate_rule_map}
use mep.MepServer.Sync.Rules.{process_entry_apply, handle_loop, handle_rules}
use mep.MepServer.Sync.Moved.{IsFresh, IsMoved}
-- the status of a rule that is in its last state, and the progress that counts it
use mep.MepServer.Sync.Progress.{
  written, advance, after_call-done, IsMoved-trans, process_entry_apply-done,
}

abbrev pub IsDistinct : List RuleStatus → Type 0
IsDistinct [] = Unit
IsDistinct (rs ∷ rss) = All (λ x. rs.id ≢ x.id) rss × IsDistinct rss

abbrev pub advance_all : List RuleStatus → ℤ → ℤ
advance_all [] p = p
advance_all (rs ∷ rss) p = advance_all rss (advance rs p)

IsFresh-snoc :
    (id : String) (pre : List RuleStatus) (rs : RuleStatus)
    → IsFresh id pre
    → rs.id ≢ id
    → IsFresh id (pre ++ rs ∷ [])
IsFresh-snoc id [] rs fresh differ = (differ, tt)
IsFresh-snoc id (x ∷ pre) rs fresh differ = (fresh.0, IsFresh-snoc id pre rs fresh.1 differ)

pub IsFresh-All :
    (pre : List RuleStatus) (rs : RuleStatus) (rss : List RuleStatus)
    → All (λ x. IsFresh x.id pre) rss
    → All (λ x. rs.id ≢ x.id) rss
    → All (λ x. IsFresh x.id (pre ++ written rs ∷ [])) rss
IsFresh-All pre rs [] fresh distinct = tt
IsFresh-All pre rs (x ∷ rss) fresh distinct = (
  IsFresh-snoc x.id pre (written rs) fresh.0 distinct.0,
  IsFresh-All pre rs rss fresh.1 distinct.1,
)

pub IsFresh-nil : (rss : List RuleStatus) → All (λ x. IsFresh x.id []) rss
IsFresh-nil [] = tt
IsFresh-nil (rs ∷ rss) = (tt, IsFresh-nil rss)

module _ {B K V : Type 0} (env : Env B K V) (t : TaskInfo) where
  -- The loop from some entry on.
  handle_loop-done :
      (k : RuleType) (new old : Map (Place × ℕ)) (rss : List RuleStatus) (w : World K V)
      (pre : List RuleStatus)
      → statuses k w.status ≡ pre ++ rss
      → All (λ x. IsFresh x.id pre) rss
      → IsDistinct rss
      → All (λ x. x.state ≤ wait_config_db_write) rss
      → (handle_loop env t k apply_func new old rss w).0 ≡ done
      → IsMoved k w.status
          (handle_loop env t k apply_func new old rss w).1.status
          (pre ++ map written rss)
          (advance_all rss w.status.progress)
  unfolding handle_loop
  handle_loop-done k new old [] w pre e fresh distinct bounds h = record {
    here = e;
    there = refl;
    progress = refl;
  }
  handle_loop-done k new old (rs ∷ rss) w pre e fresh distinct bounds h =
      let entry = process_entry_apply env t k (new rs.id) (old rs.id) rs w in
      let rest = handle_loop env t k apply_func new old rss in
      let reason : String = "Internal error(invalid function type)." in
      let (h1, e1) = after_call-done reason rest entry h in
      let first =
        process_entry_apply-done env t k (new rs.id) (old rs.id) rs w pre rss e fresh.0 bounds.0
          h1 in
      let last =
        handle_loop-done k new old rss entry.1 (pre ++ written rs ∷ [])
          (first.here ∙ sym (snoc-append pre (written rs) rss))
          (IsFresh-All pre rs rss fresh.1 distinct.0) distinct.1 bounds.1
          (sym (ap (λ x. x.0) e1) ∙ h) in
      subst⁻¹
        (λ x.
          IsMoved k w.status x.1.status (pre ++ written rs ∷ map written rss)
            (advance_all rss (advance rs w.status.progress)))
        e1
        (subst
          (λ l.
            IsMoved k w.status (rest entry.1).1.status l
              (advance_all rss (advance rs w.status.progress)))
          (snoc-append pre (written rs) (map written rss))
          (IsMoved-trans k w.status entry.1.status _ (advance_all rss) first last))

  -- If the loop over the rules of one type ends without an error, where their identifiers are distinct
  -- and their states are at most the last one, every one of them is in its last state, the progress
  -- counts those that were not, and the rules of the other type are as before.
  pub handle_rules-done :
      (k : RuleType) (w : World K V)
      → IsDistinct (statuses k w.status)
      → All (λ x. x.state ≤ wait_config_db_write) (statuses k w.status)
      → (handle_rules env t k apply_func w).0 ≡ done
      → IsMoved k w.status
          (handle_rules env t k apply_func w).1.status
          (map written (statuses k w.status))
          (advance_all (statuses k w.status) w.status.progress)
  unfolding handle_rules
  handle_rules-done k w distinct bounds h =
      let (new, old) = generate_rule_map k apply_func w in
      handle_loop-done k new old (statuses k w.status) w [] refl (IsFresh-nil _) distinct bounds h
