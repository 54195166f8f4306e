-- ===== src/MepServer/Sync/Finish.antt =====
-- mepserver/mm5/task/sync.go: how a task without errors ends.
use mep.Prelude.{
  String, ◌≡◌, refl, ap, ◌∙◌, subst⁻¹, ◌≤◌, true, false, some, List, [], ◌∷◌, map, all, eqb, All,
}
use mep.MepServer.Sync.{
  RuleType, rule_type_dns, rule_type_traffic, apply_func, RuleStatus, TaskStatus, statuses, Outcome,
  done, failed, panicked, World, Env, TaskInfo, wait_config_db_write,
}
use mep.MepServer.Sync.Status.{with_reason}
use mep.MepServer.Sync.Rules.{handle_rules}
use mep.MepServer.Sync.Worker.{
  are_written, clean_processing_cache, write_config, without_operation, write_on_success,
  handle_config_db_write_on_success, or_undo, clean, run_task,
}
use mep.MepServer.Sync.Progress.{written}
use mep.MepServer.Sync.Written.{IsDistinct, advance_all, handle_rules-done}

all_written :
    (l : List RuleStatus) → all (λ rs. eqb rs.state wait_config_db_write) (map written l) ≡ true
all_written [] = refl
all_written (rs ∷ rss) = all_written rss

are_written-map :
    (k : RuleType) (st : TaskStatus) (l : List RuleStatus)
    → statuses k st ≡ map written l
    → are_written k st ≡ true
are_written-map k st l e = ap (all (λ rs. eqb rs.state wait_config_db_write)) e ∙ all_written l

-- statuses with distinct identifiers and states that are at most the last one
abbrev pub IsSound : List RuleStatus → Type 0
IsSound l = IsDistinct l × All (λ x. x.state ≤ wait_config_db_write) l

-- what the loops leave in the status, if they end without errors
pub record IsAllWritten (before after : TaskStatus) : Type 0 where
  pub dns : statuses rule_type_dns after ≡ map written (statuses rule_type_dns before)
  pub traffic : statuses rule_type_traffic after ≡ map written (statuses rule_type_traffic before)
  pub progress :
      after.progress
      ≡ advance_all
          (statuses rule_type_traffic before)
          (advance_all (statuses rule_type_dns before) before.progress)

module _ {B K V : Type 0} (env : Env B K V) (t : TaskInfo) where
  -- the world after the loops over the rules
  abbrev pub after_loops : World K V → Outcome × World K V
  after_loops w =
      handle_rules env t rule_type_traffic apply_func
        (handle_rules env t rule_type_dns apply_func w).1

  pub after_loops-IsAllWritten :
      (w : World K V)
      → IsSound (statuses rule_type_dns w.status)
      → IsSound (statuses rule_type_traffic w.status)
      → (handle_rules env t rule_type_dns apply_func w).0 ≡ done
      → (after_loops w).0 ≡ done
      → IsAllWritten w.status (after_loops w).1.status
  after_loops-IsAllWritten w (distinct, bounds) traffic_sound h1 h2 =
      let w1 = (handle_rules env t rule_type_dns apply_func w).1 in
      let dns = handle_rules-done env t rule_type_dns w distinct bounds h1 in
      let sound1 : IsSound (statuses rule_type_traffic w1.status) =
        subst⁻¹ IsSound dns.there traffic_sound in
      let traffic = handle_rules-done env t rule_type_traffic w1 sound1.0 sound1.1 h2 in
      record {
        dns = traffic.there ∙ dns.here;
        traffic = traffic.here ∙ ap (map written) dns.there;
        progress =
            traffic.progress
            ∙ ap (λ l. advance_all l w1.status.progress) dns.there
            ∙ ap (advance_all (statuses rule_type_traffic w.status)) dns.progress;
      }

  or_undo_done :
      (reason : String) (r : Outcome × World K V) (next : World K V → Outcome × World K V)
      → r.0 ≡ done
      → or_undo env t reason r next ≡ next r.1
  or_undo_done reason (done, w) next h = refl
  or_undo_done reason (failed, w) next h = cc
  or_undo_done reason (panicked, w) next h = cc

  check_passes :
      (w : World K V)
      → are_written rule_type_dns w.status ≡ true
      → are_written rule_type_traffic w.status ≡ true
      → handle_config_db_write_on_success env t w ≡ write_on_success env t w
  unfolding handle_config_db_write_on_success
  check_passes w dns traffic =
      rw (dns, handle_config_db_write_on_success)
        (rw (traffic, handle_config_db_write_on_success) refl)

  -- Loops that end without errors over statuses with distinct identifiers are followed by the write of
  -- the configuration: the check of the states in between never fails.
  pub run_task-write :
      (w : World K V)
      → IsSound (statuses rule_type_dns w.status)
      → IsSound (statuses rule_type_traffic w.status)
      → (handle_rules env t rule_type_dns apply_func w).0 ≡ done
      → (after_loops w).0 ≡ done
      → run_task env t w
        ≡ or_undo env t "Internal error(failed to write appdconfig db)."
            (write_on_success env t (after_loops w).1)
            (clean env t)
  unfolding run_task
  run_task-write w dns_sound traffic_sound h1 h2 =
      let final = after_loops-IsAllWritten w dns_sound traffic_sound h1 h2 in
      let a = are_written-map rule_type_dns (after_loops w).1.status _ final.dns in
      let b = are_written-map rule_type_traffic (after_loops w).1.status _ final.traffic in
      or_undo_done "Internal error(failed to configure dns rules)."
        (handle_rules env t rule_type_dns apply_func w) _ h1
      ∙ or_undo_done "Internal error(failed to configure traffic rules)." (after_loops w) _ h2
      ∙ ap (λ r. or_undo env t "Internal error(failed to write appdconfig db)." r (clean env t))
          (check_passes (after_loops w).1 a b)

  -- how the task ends behind its checks, if the configuration is encoded
  abbrev pub written_store : World K V → B → K
  written_store w bytes =
      (clean_processing_cache env t.app_instance_id
        (write_config env t w.job.operation bytes w.store).1).1

  abbrev pub end_task : World K V → Outcome × World K V
  end_task w =
      or_undo env t "Internal error(failed to write appdconfig db)." (write_on_success env t w)
        (clean env t)

  pub end_task-written :
      (w : World K V) (bytes : B)
      → env.marshal_config (without_operation env t w.job) ≡ some bytes
      → (write_config env t w.job.operation bytes w.store).0 ≡ 0
      → end_task w
        ≡ (done, record w { job = without_operation env t w.job; store = written_store w bytes })
  unfolding write_on_success
  end_task-written w bytes e h = rw (e, write_on_success) (rw (h, write_on_success) refl)

  -- A write that failed is noted in the details, and the task ends as if it had not.
  pub end_task-lost :
      (w : World K V) (bytes : B)
      → env.marshal_config (without_operation env t w.job) ≡ some bytes
      → eqb (write_config env t w.job.operation bytes w.store).0 0 ≡ false
      → end_task w ≡ (
        done,
        record w {
          job = without_operation env t w.job;
          status = with_reason "Internal error(failed to write appdconfig db)." w.status;
          store = written_store w bytes;
        },
      )
  unfolding write_on_success
  end_task-lost w bytes e h = rw (e, write_on_success) (rw h refl)
