-- ===== src/MepServer/Appd/Recorded.antt =====
-- mepserver/common/appd/appd.go and mepserver/mm5/task/sync.go: what a staged request leaves in the store,
-- and the task that is made of it.
use mep.Prelude.{
  String, ◌≡◌, ◌≢◌, refl, subst⁻¹, ◌∙◌, inl, inr, Bool, true, false, some, List, ◌∷◌, ◌++◌, ◌&&◌,
  not, eqb, eq_refl, Option-cases, List-cases, ==-eq_false,
}
use mep.MepServer.Backend.{get_record, put_record}
use mep.MepServer.Backend.Laws.{IsRegistry}
use mep.MepServer.Sync.{
  Config, RuleType, TaskStatus, Env, TaskInfo, config_path, jobs_path, tasks_path, task_status_path,
}
use mep.MepServer.Sync.Status.{new_status_db, new_appd_job_db, new_appd_config_db}
use mep.MepServer.Sync.Worker.{new_task}
use mep.MepServer.Sync.Serving.{IsServing}
use mep.MepServer.Sync.Paths.{
  tasks-not_job, tasks-not_config, status-not_job, status-not_config, jobs-not_config,
}
use mep.MepServer.Appd.{Subscriptions, is_app_instance_already_created}
use mep.MepServer.Appd.Classify.{RuleMap, build_task_status}
use mep.MepServer.Appd.Stage.{
  Staged, staged, crashed, write_status_to_store, add_jobs_to_db, is_dns_domain_name_exists,
  stage_status, stage_job, stage_stored, stage_new_task, empty_config,
  stage_app_termination_progress,
}

-- Reads that succeed: a key that is stored is the first record of a read of it, since etcd sorts by key;
-- and values that are decoded as they were encoded.
pub record IsReadable {B K V : Type 0} (env : Env B K V) (law : IsRegistry env.registry)
    : Type 0 where
  pub reads :
      (p : String) (s : K) (b : B)
      → law.kv s p ≡ some b
      → (rest : List (String × B)) × (env.registry.get p s ≡ some ((p, b) ∷ rest))
  pub config_back :
      (c : Config) (b : B) → env.marshal_config c ≡ some b → env.unmarshal_config b ≡ some c
  pub status_back :
      (st : TaskStatus) (b : B) → env.marshal_status st ≡ some b → env.unmarshal_status b ≡ some st

abbrev pub is_accepted : Staged → Bool
is_accepted (staged code _ _) = eqb code 0
is_accepted crashed = false

and_false : (b : Bool) → (not b && false) ≡ false
and_false true = refl
and_false false = refl

module _ {B K V : Type 0} (env : Env B K V) (t : TaskInfo) (law : IsRegistry env.registry)
    (ok : IsServing env) (readable : IsReadable env law) where
  put-here : (p : String) (b : B) (s : K) → law.kv (env.registry.put p b s).1 p ≡ some b
  put-here p b s = law.put_ok p b s (ok.put p b s) p ∙ (rw (eq_refl p) refl)

  put-kept :
      (p q : String) (b : B) (s : K) → p ≢ q → law.kv (env.registry.put p b s).1 q ≡ law.kv s q
  put-kept p q b s differ = law.put_ok p b s (ok.put p b s) q ∙ (rw (==-eq_false p q differ) refl)

  get_record-kv :
      (p : String) (s : K) (b : B) → law.kv s p ≡ some b → get_record env.registry p s ≡ (some b, 0)
  unfolding get_record
  get_record-kv p s b here = let (rest, e) = readable.reads p s b here in rw (e, get_record) refl

  -- the three records of a request: its job, its task and its status
  abbrev pub put_records : B → B → B → K → K
  put_records job app status s =
      (env.registry.put (task_status_path t.app_instance_id t.task_id) status
        (env.registry.put (tasks_path t.task_id) app
          (env.registry.put (jobs_path t.app_instance_id) job s).1).1).1

  put_records-job :
      (job app status : B) (s : K)
      → law.kv (put_records job app status s) (jobs_path t.app_instance_id) ≡ some job
  put_records-job job app status s =
      put-kept _ _ status _ (status-not_job t.app_instance_id t.task_id t.app_instance_id)
      ∙ put-kept _ _ app _ (tasks-not_job t.task_id t.app_instance_id)
      ∙ put-here _ job s

  put_records-config :
      (job app status : B) (s : K)
      → law.kv (put_records job app status s) (config_path t.app_instance_id)
        ≡ law.kv s (config_path t.app_instance_id)
  put_records-config job app status s =
      put-kept _ _ status _ (status-not_config t.app_instance_id t.task_id t.app_instance_id)
      ∙ put-kept _ _ app _ (tasks-not_config t.task_id t.app_instance_id)
      ∙ put-kept _ _ job _ (jobs-not_config t.app_instance_id t.app_instance_id)

  -- the task that is made of the three records
  pub put_records-new_task :
      (c : Config) (st : TaskStatus) (job app status : B) (s : K) (v : V)
      → env.marshal_config c ≡ some job
      → env.marshal_status st ≡ some status
      → let s' = put_records job app status s in
        new_task env t s' v ≡ (
          some (record {
            job = c;
            config = new_appd_config_db env t s';
            status = st;
            store = s';
            plane = v;
          }),
          s',
        )
  unfolding new_task new_appd_job_db new_status_db
  put_records-new_task c st job app status s v coded coded_status =
      let s' = put_records job app status s in
      let has_job : new_appd_job_db env t s' ≡ some c =
        rw (get_record-kv _ s' job (put_records-job job app status s), new_appd_job_db)
          (readable.config_back c job coded) in
      let has_status : new_status_db env t s' ≡ some st =
        rw (get_record-kv _ s' status (put-here _ status _), new_status_db)
          (readable.status_back st status coded_status) in
      rw (has_job, new_task) (rw has_status refl)

  pub put_records-new_config :
      (c : Config) (bytes job app status : B) (s : K)
      → law.kv s (config_path t.app_instance_id) ≡ some bytes
      → env.unmarshal_config bytes ≡ some c
      → new_appd_config_db env t (put_records job app status s) ≡ some c
  unfolding new_appd_config_db
  put_records-new_config c bytes job app status s here decoded =
      let s' = put_records job app status s in
      rw (get_record-kv _ s' bytes (put_records-config job app status s ∙ here), new_appd_config_db)
        decoded

  module _ (subs : Subscriptions B) (order : (k : RuleType) → RuleMap k → RuleMap k)
      (of_text : String → B) where
    -- what an accepted request leaves: its job, its task and its status, encoded
    abbrev pub IsRecorded : Config → TaskStatus → K → Staged × K → Type 0
    IsRecorded job status s r =
        (jb : B) × (sb : B) × (env.marshal_config job ≡ some jb)
        × (env.marshal_status status ≡ some sb)
        × (r.1 ≡ put_records jb (of_text t.app_instance_id) sb s)

    abbrev RecordsIf : Config → TaskStatus → K → Staged × K → Type 0
    RecordsIf job status s r = is_accepted r.0 ≡ true → IsRecorded job status s r

    not_accepted :
        (job : Config) (status : TaskStatus) (s : K) (r : Staged × K)
        → is_accepted r.0 ≡ false
        → RecordsIf job status s r
    not_accepted job status s r bad good = cc

    abbrev with_job : B → K → K
    with_job jb s =
        (env.registry.put (tasks_path t.task_id) (of_text t.app_instance_id)
          (env.registry.put (jobs_path t.app_instance_id) jb s).1).1

    add_jobs_to_db-ok :
        (jb : B) (s : K)
        → add_jobs_to_db env subs order of_text t.app_instance_id t.task_id jb s
          ≡ (0, with_job jb s)
    unfolding add_jobs_to_db put_record
    add_jobs_to_db-ok jb s =
        rw (ok.put (jobs_path t.app_instance_id) jb s, add_jobs_to_db)
          (rw (ok.put (tasks_path t.task_id) (of_text t.app_instance_id) _) refl)

    write_status_to_store-ok :
        (status : TaskStatus) (sb : B) (s : K)
        → env.marshal_status status ≡ some sb
        → (write_status_to_store env subs order of_text status t.app_instance_id t.task_id s).1
          ≡ (env.registry.put (task_status_path t.app_instance_id t.task_id) sb s).1
    unfolding write_status_to_store put_record
    write_status_to_store-ok status sb s coded =
        rw (coded, write_status_to_store)
          (rw (ok.put (task_status_path t.app_instance_id t.task_id) sb s) refl)

    stage_status-recorded :
        (jb : B) (job input in_store : Config) (subscribed : Bool) (s : K)
        → env.marshal_config job ≡ some jb
        → RecordsIf job (build_task_status order input in_store subscribed) s (
            stage_status env subs order of_text t.app_instance_id t.task_id input in_store
              subscribed
              (with_job jb s))
    unfolding stage_status
    stage_status-recorded jb job input in_store subscribed s coded =
        let status = build_task_status order input in_store subscribed in
        let s2 = with_job jb s in
        let r =
          stage_status env subs order of_text t.app_instance_id t.task_id input in_store subscribed
            s2 in
        let (sb, coded_status) = ok.status status in
        elim (List-cases (status.traffic_rule_status_lst ++ status.dns_rule_status_lst)) [
          | inl nothing ↦ not_accepted job status s r (rw (nothing, stage_status) refl)
          | inr (x, xs, work) ↦
              elim (Option-cases (
                is_dns_domain_name_exists env subs order of_text t.app_instance_id input status
                  s2)) [
                    | inl crash ↦
                        not_accepted job status s r (rw (work, stage_status) (rw crash refl))
                    | inr (true, twice) ↦
                        not_accepted job status s r (rw (work, stage_status) (rw twice refl))
                    | inr (false, fine) ↦ λ _. (
                      jb,
                      sb,
                      coded,
                      coded_status,
                      rw (work, stage_status)
                          (rw fine (write_status_to_store-ok status sb s2 coded_status)),
                    )
                  ]
        ]

    no_termination :
        (input : Config) (s : K)
        → stage_new_task env subs order of_text t.app_instance_id t.task_id input false s
          ≡ stage_stored env subs order of_text t.app_instance_id t.task_id input false s
    unfolding stage_new_task stage_app_termination_progress
    no_termination input s =
        rw (and_false (is_app_instance_already_created env t.app_instance_id s), stage_new_task)
          refl

    -- the request that creates a configuration, and the one that deletes the stored one
    pub created-recorded :
        (input : Config) (s : K)
        → let post : Config = record input { operation = "POST" } in
          RecordsIf post
            (build_task_status order post (empty_config env subs order of_text) false)
            s
            (stage_new_task env subs order of_text t.app_instance_id t.task_id post false s)
    unfolding stage_stored stage_job
    created-recorded input s =
        let post : Config = record input { operation = "POST" } in
        let (jb, coded) = ok.config post in
        let status = build_task_status order post (empty_config env subs order of_text) false in
        let s2 = with_job jb s in
        let e : stage_stored env subs order of_text t.app_instance_id t.task_id post false s
            ≡ stage_status env subs order of_text t.app_instance_id t.task_id post
                (empty_config env subs order of_text) false s2 =
          rw (coded, stage_stored, stage_job)
            (rw (add_jobs_to_db-ok jb s) (rw (add_jobs_to_db-ok jb s) refl)) in
        subst⁻¹ (λ r. RecordsIf post status s r) (no_termination post s ∙ e)
          (stage_status-recorded jb post post (empty_config env subs order of_text) false s coded)

    pub deleted-recorded :
        (input in_store : Config) (bytes : B) (s : K)
        → law.kv s (config_path t.app_instance_id) ≡ some bytes
        → env.unmarshal_config bytes ≡ some in_store
        → let request : Config = record input { operation = "DELETE" } in
          let job : Config = record in_store { operation = "DELETE" } in
          RecordsIf job
            (build_task_status order (record request { app_name = in_store.app_name }) job false)
            s
            (stage_new_task env subs order of_text t.app_instance_id t.task_id request false s)
    unfolding stage_stored stage_job
    deleted-recorded input in_store bytes s here decoded =
        let request : Config = record input { operation = "DELETE" } in
        let job : Config = record in_store { operation = "DELETE" } in
        let (jb, coded) = ok.config job in
        let named : Config = record request { app_name = in_store.app_name } in
        let s2 = with_job jb s in
        let e : stage_stored env subs order of_text t.app_instance_id t.task_id request false s
            ≡ stage_status env subs order of_text t.app_instance_id t.task_id named job false s2 =
          rw (get_record-kv _ s bytes here, stage_stored)
            (rw (get_record-kv _ s bytes here) (
              rw decoded (
                rw (coded, stage_job)
                  (rw (add_jobs_to_db-ok jb s) (rw (add_jobs_to_db-ok jb s) refl))))) in
        subst⁻¹ (λ r. RecordsIf job (build_task_status order named job false) s r)
          (no_termination request s ∙ e) (stage_status-recorded jb job named job false s coded)
