-- ===== src/MepServer/Sync/Success.antt =====
-- mepserver/mm5/task/sync.go: what is stored when a task has ended without an error.
use mep.Prelude.{
  String, ◌≡◌, ◌⊎◌, false, refl, ap, sym, ◌∙◌, subst⁻¹, inl, inr, true, ◌||◌, none, some, ◌==◌,
  if◌then◌else◌, starts_with, Bool-cases,
}
use mep.MepServer.Backend.{put_record, delete_record, delete_paths}
use mep.MepServer.Backend.Laws.{IsRegistry, starts_with_refl, put_record-kv, delete_record-kv}
use mep.MepServer.Sync.Frame.{normal_config}
use mep.MepServer.Sync.{
  Config, rule_type_dns, rule_type_traffic, apply_func, done, World, Env, TaskInfo, config_path,
  jobs_path,
}
use mep.MepServer.Sync.Rules.{handle_rules}
use mep.MepServer.Sync.Worker.{clean_processing_cache, write_config, without_operation, run_task}
use mep.MepServer.Sync.Paths.{config_path-not_job}
use mep.MepServer.Sync.Serving.{IsServing}
use mep.MepServer.Sync.Complete.{IsReady, IsReady-alike, handle_rules_total}
use mep.MepServer.Sync.Written.{handle_rules-done}
use mep.MepServer.Sync.Finish.{
  after_loops, IsAllWritten, after_loops-IsAllWritten, run_task-write, written_store,
  end_task-written,
}

module _ {B K V : Type 0} (env : Env B K V) (t : TaskInfo) (law : IsRegistry env.registry) where
  -- The jobs of the instance are gone after a deletion that succeeds, and other keys are kept.
  pub clean-kv :
      (app : String) (s : K) (q : String)
      → (env.registry.delete (jobs_path app) s).0 ≡ true
      → law.kv (clean_processing_cache env app s).1 q
        ≡ (if starts_with q (jobs_path app) then none else law.kv s q)
  unfolding clean_processing_cache delete_paths delete_record
  clean-kv app s q ok =
      let e : (clean_processing_cache env app s).1 ≡ (env.registry.delete (jobs_path app) s).1 =
        rw (ok, clean_processing_cache) refl in
      ap (λ x. law.kv x q) e ∙ law.delete_ok (jobs_path app) s ok q

  -- a configuration without its operation is stored, the job's but for rules without a state, which
  -- may have been made active
  abbrev pub IsSaved : Config → World K V → Type 0
  IsSaved job w =
      (c : Config) × (law.kv w.store (config_path t.app_instance_id) ≡ env.marshal_config c)
      × (normal_config c ≡ normal_config (record job { operation = "" }))

  -- What the store holds for the instance of a job, by its operation.
  pub record IsStored (before : Config) (w : World K V) : Type 0 where
    pub job : law.kv w.store (jobs_path t.app_instance_id) ≡ none
    pub config :
        (((before.operation == "POST" || before.operation == "PUT") ≡ true) × IsSaved before w)
        ⊎ (((before.operation == "DELETE") ≡ true)
            × (law.kv w.store (config_path t.app_instance_id) ≡ none))
        ⊎ (((before.operation == "POST" || before.operation == "PUT") ≡ false)
            × ((before.operation == "DELETE") ≡ false))

  IsStored-alike :
      (a b : Config) (w : World K V)
      → a.operation ≡ b.operation
      → normal_config a ≡ normal_config b
      → IsStored a w
      → IsStored b w
  IsStored-alike a b w same alike h = record {
    job = h.job;
    config = elim h.config [
      | inl (save, (c, kept, e)) ↦ inl (
        ap (λ o. o == "POST" || o == "PUT") (sym same) ∙ save,
        (
          c,
          kept,
          e
              ∙ (let cleared : Config → Config = λ x. record x { operation = "" } in
                  ap cleared alike),
        ),
      )
      | inr (inl (delete, gone)) ↦ inr (inl (ap (λ o. o == "DELETE") (sym same) ∙ delete, gone))
      | inr (inr (other, nothing)) ↦ inr (
          inr (
            ap (λ o. o == "POST" || o == "PUT") (sym same) ∙ other,
            ap (λ o. o == "DELETE") (sym same) ∙ nothing,
          ))
    ];
  }

  module _ (ok : IsServing env) where
    put_record-ok : (p : String) (b : B) (s : K) → (put_record env.registry p b s).0 ≡ 0
    unfolding put_record
    put_record-ok p b s = rw (ok.put p b s) refl

    delete_record-ok : (p : String) (s : K) → (delete_record env.registry p s).0 ≡ 0
    unfolding delete_record
    delete_record-ok p s = rw (ok.delete p s) refl

    pub write_config-ok :
        (operation : String) (bytes : B) (s : K) → (write_config env t operation bytes s).0 ≡ 0
    write_config-ok operation bytes s =
        elim (Bool-cases (operation == "POST" || operation == "PUT")) [
          | inl save ↦ rw save (put_record-ok (config_path t.app_instance_id) bytes s)
          | inr other ↦ elim (Bool-cases (operation == "DELETE")) [
            | inl delete ↦ rw other (rw delete (delete_record-ok (config_path t.app_instance_id) s))
            | inr nothing ↦ rw other (rw nothing refl)
          ]
        ]

    -- the key of the configuration is not removed with the jobs
    config-kv :
        (s : K)
        → law.kv (clean_processing_cache env t.app_instance_id s).1 (config_path t.app_instance_id)
          ≡ law.kv s (config_path t.app_instance_id)
    config-kv s =
        let kept = config_path-not_job t.app_instance_id t.app_instance_id in
        clean-kv t.app_instance_id s (config_path t.app_instance_id) (ok.delete _ s)
        ∙ (rw kept refl)

    job-kv :
        (s : K)
        → law.kv (clean_processing_cache env t.app_instance_id s).1 (jobs_path t.app_instance_id)
          ≡ none
    job-kv s =
        let gone = starts_with_refl (jobs_path t.app_instance_id) in
        clean-kv t.app_instance_id s (jobs_path t.app_instance_id) (ok.delete _ s) ∙ (rw gone refl)

    written-IsStored :
        (w : World K V) (bytes : B)
        → env.marshal_config (without_operation env t w.job) ≡ some bytes
        → IsStored w.job
            (record w { job = without_operation env t w.job; store = written_store env t w bytes })
    written-IsStored w bytes e =
        let path = config_path t.app_instance_id in
        let s = (write_config env t w.job.operation bytes w.store).1 in
        record {
          job = job-kv s;
          config = elim (Bool-cases (w.job.operation == "POST" || w.job.operation == "PUT")) [
            | inl save ↦
                let kept : law.kv s path ≡ some bytes = rw save (
                  put_record-kv env.registry law path bytes w.store
                    (put_record-ok path bytes w.store)) in
                inl (save, (without_operation env t w.job, config-kv s ∙ kept ∙ sym e, refl))
            | inr other ↦ elim (Bool-cases (w.job.operation == "DELETE")) [
              | inl delete ↦
                  let gone : law.kv s path ≡ none = rw other (
                    rw delete (
                      delete_record-kv env.registry law path w.store path
                        (delete_record-ok path w.store)
                      ∙ (rw (starts_with_refl path) refl))) in
                  inr (inl (delete, config-kv s ∙ gone))
              | inr nothing ↦ inr (inr (other, nothing))
            ]
          ];
        }

    -- Where the services succeed, a task whose statuses have distinct identifiers and states that are
    -- at most the last one, and whose rules are in the job or in the stored configuration as their
    -- methods need, ends without an error: every rule is in its last state, the progress counts those
    -- that were not, the job is deleted, and if the operation was POST or PUT, the configuration of the
    -- job as the task found it is stored, without its operation and but for rules without a state that
    -- were made active; if it was DELETE, the stored configuration is deleted.
    pub run_task_total :
        (w : World K V)
        → IsReady rule_type_dns w
        → IsReady rule_type_traffic w
        → ((run_task env t w).0 ≡ done)
          × IsAllWritten w.status (run_task env t w).1.status
          × IsStored w.job (run_task env t w).1
    run_task_total w dns traffic =
        let (h1, alike1) = handle_rules_total env t ok rule_type_dns w dns in
        let w1 = (handle_rules env t rule_type_dns apply_func w).1 in
        let same = (handle_rules-done env t rule_type_dns w dns.0 dns.1 h1).there in
        let (h2, alike2) =
          handle_rules_total env t ok rule_type_traffic w1
            (IsReady-alike rule_type_traffic w w1 alike1 same traffic) in
        let w2 = (after_loops env t w).1 in
        let (bytes, encoded) = ok.config (without_operation env t w2.job) in
        let e =
          run_task-write env t w (dns.0, dns.1) (traffic.0, traffic.1) h1 h2
          ∙ end_task-written env t w2 bytes encoded
              (write_config-ok w2.job.operation bytes w2.store) in
        subst⁻¹ (λ r. (r.0 ≡ done) × IsAllWritten w.status r.1.status × IsStored w.job r.1) e
          (
            refl,
            after_loops-IsAllWritten env t w (dns.0, dns.1) (traffic.0, traffic.1) h1 h2,
            IsStored-alike w2.job w.job _ (alike2.operation ∙ alike1.operation)
                (alike2.job ∙ alike1.job) (written-IsStored w2 bytes encoded),
          )
