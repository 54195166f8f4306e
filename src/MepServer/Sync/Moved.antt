-- ===== src/MepServer/Sync/Moved.antt =====
-- mepserver/mm5/task/taskstatus_db.go: what setting the state of a rule leaves in the status.
use mep.Prelude.{
  ℕ, suc, suc_ℤ, pred-suc, ℤ, String, ◌≡◌, ◌≢◌, ◌⊎◌, refl, ap, sym, ◌∙◌, inl, inr, ◌+◌, true, false,
  some, List, [], ◌∷◌, ◌++◌, ◌==◌, eq_iff, eqb, set, length, set-append, All, if◌then◌else◌,
  ==-eq_false, arith, Bool-cases,
}
use mep.MepServer.Sync.{
  RuleType, rule_type_dns, rule_type_traffic, RuleStatus, TaskStatus, statuses, World, Env,
  TaskInfo, wait_config_db_write,
}
use mep.MepServer.Sync.Status.{
  search_rule, set_state, count_up, count_down, push_status, set_found, set_state_and_progress,
}

abbrev pub other : RuleType → RuleType
other rule_type_dns = rule_type_traffic
other rule_type_traffic = rule_type_dns

abbrev pub IsFresh : String → List RuleStatus → Type 0
IsFresh id l = All (λ x. x.id ≢ id) l

-- The search finds the first status with the identifier behind a prefix without it.
pub search_rule-append :
    (id : String) (i : ℕ) (pre : List RuleStatus) (rs : RuleStatus) (suf : List RuleStatus)
    → IsFresh id pre
    → rs.id ≡ id
    → search_rule id i (pre ++ rs ∷ suf) ≡ some (i + length pre, rs)
unfolding search_rule
search_rule-append id i [] rs suf fresh same =
    let hit : (rs.id == id) ≡ true = (eq_iff rs.id id).1 same in
    rw hit (ap (λ n. some (n, rs)) (omega arith))
search_rule-append id i (x ∷ pre) rs suf fresh same =
    rw (==-eq_false x.id id fresh.0)
      (search_rule-append id (suc i) pre rs suf fresh.1 same ∙ ap (λ n. some (n, rs)) (omega arith))

abbrev pub moved_progress : ℕ → ℤ → ℤ
moved_progress state p = if eqb state wait_config_db_write then suc_ℤ p else p

-- A status whose list of one type and whose progress are given, and whose other list is kept.
pub record IsMoved (k : RuleType) (before after : TaskStatus) (l : List RuleStatus) (p : ℤ)
    : Type 0 where
  pub here : statuses k after ≡ l
  pub there : statuses (other k) after ≡ statuses (other k) before
  pub progress : after.progress ≡ p

pub count_up-IsMoved :
    (k : RuleType) (status : TaskStatus) (pre : List RuleStatus) (rs : RuleStatus)
    (suf : List RuleStatus) (state : ℕ)
    → statuses k status ≡ pre ++ rs ∷ suf
    → IsMoved k status
        (count_up state (set_state k (length pre) rs state status))
        (pre ++ record rs { state = state } ∷ suf)
        (moved_progress state status.progress)
count_up-IsMoved rule_type_dns status pre rs suf state e =
    elim (Bool-cases (eqb state wait_config_db_write)) [
      | inl last ↦
          rw last (record { here = rw e (set-append pre suf rs _); there = refl; progress = refl })
      | inr early ↦
          rw early (record { here = rw e (set-append pre suf rs _); there = refl; progress = refl })
    ]
count_up-IsMoved rule_type_traffic status pre rs suf state e =
    elim (Bool-cases (eqb state wait_config_db_write)) [
      | inl last ↦
          rw last (record { here = rw e (set-append pre suf rs _); there = refl; progress = refl })
      | inr early ↦
          rw early (record { here = rw e (set-append pre suf rs _); there = refl; progress = refl })
    ]

-- a status that is set and set back
set_back :
    (l pre : List RuleStatus) (rs changed : RuleStatus) (suf : List RuleStatus)
    → l ≡ pre ++ rs ∷ suf
    → set (set l (length pre) changed) (length pre) rs ≡ l
set_back l pre rs changed suf e =
    ap (λ x. set (set x (length pre) changed) (length pre) rs) e
    ∙ ap (λ x. set x (length pre) rs) (set-append pre suf rs changed)
    ∙ set-append pre suf changed rs
    ∙ sym e

-- The status is as it was, if a push has failed.
pub count_down-count_up :
    (k : RuleType) (status : TaskStatus) (pre : List RuleStatus) (rs : RuleStatus)
    (suf : List RuleStatus) (state : ℕ)
    → statuses k status ≡ pre ++ rs ∷ suf
    → count_down state (
        set_state k
          (length pre)
          rs
          rs.state
          (count_up state (set_state k (length pre) rs state status)))
      ≡ status
count_down-count_up rule_type_dns status pre rs suf state e =
    let back = set_back status.dns_rule_status_lst pre rs (record rs { state = state }) suf e in
    elim (Bool-cases (eqb state wait_config_db_write)) [
      | inl last ↦
          rw last (
            rw (pred-suc status.progress)
              (ap (λ x. record status { dns_rule_status_lst = x }) back))
      | inr early ↦ rw early (ap (λ x. record status { dns_rule_status_lst = x }) back)
    ]
count_down-count_up rule_type_traffic status pre rs suf state e =
    let back = set_back status.traffic_rule_status_lst pre rs (record rs { state = state }) suf e in
    elim (Bool-cases (eqb state wait_config_db_write)) [
      | inl last ↦ rw last (
          rw (pred-suc status.progress)
            (ap (λ x. record status { traffic_rule_status_lst = x }) back))
      | inr early ↦ rw early (ap (λ x. record status { traffic_rule_status_lst = x }) back)
    ]

module _ {B K V : Type 0} (env : Env B K V) (t : TaskInfo) where
  -- What setting the state of a rule leaves: the state is set and pushed, or the status is as before;
  -- nothing else but the store is changed.
  pub set_state_and_progress-cases :
      (k : RuleType) (id : String) (state : ℕ) (w : World K V) (pre : List RuleStatus)
      (rs : RuleStatus) (suf : List RuleStatus)
      → statuses k w.status ≡ pre ++ rs ∷ suf
      → IsFresh id pre
      → rs.id ≡ id
      → ((s : K) × (set_state_and_progress env t k id state w ≡ (
        true,
        record w {
          status = count_up state (set_state k (length pre) rs state w.status);
          store = s;
        },
      )))
        ⊎ ((s : K) × (set_state_and_progress env t k id state w ≡ (false, record w { store = s })))
  unfolding set_state_and_progress set_found
  set_state_and_progress-cases k id state w pre rs suf e fresh same =
      let found : search_rule id 0 (statuses k w.status) ≡ some (length pre, rs) =
        ap (search_rule id 0) e
        ∙ search_rule-append id 0 pre rs suf fresh same
        ∙ ap (λ n. some (n, rs)) (omega arith) in
      let pushed = count_up state (set_state k (length pre) rs state w.status) in
      elim (Bool-cases (push_status env t pushed w.store).0) [
        | inl ok ↦ inl (
          (push_status env t pushed w.store).1,
          rw (found, set_state_and_progress) (rw (ok, set_found)),
        )
        | inr bad ↦ inr (
          (push_status env t pushed w.store).1,
          rw (found, set_state_and_progress)
              (rw (bad, set_found)
                (ap
                  (λ x.
                    (false, record w { status = x; store = (push_status env t pushed w.store).1 }))
                  (count_down-count_up k w.status pre rs suf state e))),
        )
      ]
