-- ===== src/MepServer/Sync/LostWrite.antt =====
-- mepserver/mm5/task/sync.go: a task whose configuration cannot be written.
use mep.Prelude.{
  String, ◌≡◌, refl, ◌∙◌, subst⁻¹, true, false, ◌||◌, none, some, eqb, ◌==◌, len, inl, inr,
  Bool-cases,
}
use mep.MepServer.Backend.{put_record}
use mep.MepServer.Backend.Laws.{IsRegistry, starts_with_refl}
use mep.MepServer.Sync.{
  rule_type_dns, rule_type_traffic, apply_func, statuses, done, TaskStatus, World, Env, TaskInfo,
  config_path, jobs_path,
}
use mep.MepServer.Sync.Status.{with_reason}
use mep.MepServer.Sync.Rules.{handle_rules}
use mep.MepServer.Sync.Worker.{write_config, without_operation, run_task}
use mep.MepServer.Sync.Paths.{config_path-not_job}
use mep.MepServer.Sync.Finish.{
  IsSound, after_loops, IsAllWritten, after_loops-IsAllWritten, run_task-write, end_task-lost,
}
use mep.MepServer.Sync.Success.{clean-kv}

noted :
    (before after : TaskStatus)
    → IsAllWritten before after
    → IsAllWritten before (with_reason "Internal error(failed to write appdconfig db)." after)
unfolding with_reason
noted before after all = elim (Bool-cases (eqb (len after.details) 0)) [
  | inl first ↦
      rw (first, with_reason)
        (record { dns = all.dns; traffic = all.traffic; progress = all.progress })
  | inr later ↦ rw (later, with_reason) all
]

module _ {B K V : Type 0} (env : Env B K V) (t : TaskInfo) (law : IsRegistry env.registry) where
  -- What is left where the write of the configuration fails: every rule is in its last state, the services
  -- and the key of the configuration are as the loops left them, and the job is deleted.
  pub record IsLost (w w2 : World K V) (r : World K V) : Type 0 where
    pub written : IsAllWritten w.status r.status
    pub plane : r.plane ≡ w2.plane
    pub job : law.kv r.store (jobs_path t.app_instance_id) ≡ none
    pub config :
        law.kv r.store (config_path t.app_instance_id)
        ≡ law.kv w2.store (config_path t.app_instance_id)

  -- A put that fails, and the deletion of the jobs behind it.
  lost-kv :
      (operation : String) (bytes : B) (s : K)
      → (operation == "POST" || operation == "PUT") ≡ true
      → (env.registry.put (config_path t.app_instance_id) bytes s).0 ≡ false
      → (eqb (write_config env t operation bytes s).0 0 ≡ false)
        × (law.kv (write_config env t operation bytes s).1 (config_path t.app_instance_id)
            ≡ law.kv s (config_path t.app_instance_id))
  unfolding put_record
  lost-kv operation bytes s save bad = rw save (
    rw bad refl,
    law.put_err (config_path t.app_instance_id) bytes s bad (config_path t.app_instance_id),
  )

  -- If the loops end without errors, over statuses with distinct identifiers and states that are at most
  -- the last one, the configuration of a POST or a PUT is encoded, its put fails and deletions succeed,
  -- then the task ends without an error, with every rule in its last state and the job deleted; the
  -- services and the key of the configuration stay as the loops left them.
  pub run_task-IsLost :
      (w : World K V) (bytes : B)
      → IsSound (statuses rule_type_dns w.status)
      → IsSound (statuses rule_type_traffic w.status)
      → (handle_rules env t rule_type_dns apply_func w).0 ≡ done
      → (after_loops env t w).0 ≡ done
      → env.marshal_config (without_operation env t (after_loops env t w).1.job) ≡ some bytes
      → ((after_loops env t w).1.job.operation == "POST"
          || (after_loops env t w).1.job.operation == "PUT")
        ≡ true
      → (env.registry.put (config_path t.app_instance_id) bytes (after_loops env t w).1.store).0
        ≡ false
      → ((s : K) → (env.registry.delete (jobs_path t.app_instance_id) s).0 ≡ true)
      → ((run_task env t w).0 ≡ done) × IsLost w (after_loops env t w).1 (run_task env t w).1
  run_task-IsLost w bytes dns traffic h1 h2 encoded save bad deletes =
      let w2 = (after_loops env t w).1 in
      let (code, kept) = lost-kv w2.job.operation bytes w2.store save bad in
      let s = (write_config env t w2.job.operation bytes w2.store).1 in
      let all = after_loops-IsAllWritten env t w dns traffic h1 h2 in
      let e =
        run_task-write env t w dns traffic h1 h2 ∙ end_task-lost env t w2 bytes encoded code in
      subst⁻¹ (λ r. (r.0 ≡ done) × IsLost w w2 r.1) e
        (
          refl,
          record {
            written = noted w.status w2.status all;
            plane = refl;
            job =
                clean-kv env t law t.app_instance_id s (jobs_path t.app_instance_id) (deletes s)
                ∙ rw (starts_with_refl (jobs_path t.app_instance_id)) refl;
            config =
                clean-kv env t law t.app_instance_id s (config_path t.app_instance_id) (deletes s)
                ∙ (rw (config_path-not_job t.app_instance_id t.app_instance_id) kept);
          },
        )
