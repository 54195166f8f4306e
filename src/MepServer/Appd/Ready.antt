-- ===== src/MepServer/Appd/Ready.antt =====
-- mepserver/common/appd/appd.go and mepserver/mm5/task/sync.go: what a request that creates or deletes a
-- configuration stages is what the worker can bring to its end.
use mep.Prelude.{
  ℕ, String, ◌≡◌, ◌≢◌, refl, ap, ◌∙◌, map, subst⁻¹, inl, inr, ◌≤◌, true, false, Option, none, some,
  List, [], ◌∷◌, All, contains_head, contains_tail, arith,
}
use mep.MepServer.Sync.{
  Config, RuleType, rule_type_dns, rule_type_traffic, Rule, rule_id, rules, RuleStatus, statuses,
  done, World, Env, TaskInfo, wait_config_db_write, oper_create, oper_delete, jobs_path,
  config_path,
}
use mep.MepServer.Sync.Worker.{new_task, run_task}
use mep.MepServer.Sync.Status.{new_appd_config_db}
use mep.MepServer.Appd.{Subscriptions}
use mep.MepServer.Appd.Stage.{stage_new_task, empty_config}
use mep.MepServer.Appd.Recorded.{
  IsReadable, is_accepted, put_records, put_records-new_task, put_records-new_config,
  created-recorded, deleted-recorded,
}
use mep.MepServer.Sync.Frame.{ids}
use mep.MepServer.Sync.Written.{IsDistinct}
use mep.MepServer.Sync.Pointers.{has_rule}
use mep.MepServer.Sync.Serving.{IsServing}
use mep.MepServer.Sync.Complete.{IsStaged, IsReady}
use mep.MepServer.Sync.Finish.{IsAllWritten}
use mep.MepServer.Sync.Success.{IsSaved, run_task_total}
use mep.MepServer.Backend.Laws.{IsRegistry}
use mep.MepServer.Appd.Classify.{
  RuleMap, status_of, statuses_of, handle_rule_create_or_delete, build_task_status,
}

-- texts that are distinct
abbrev pub AreDistinct : List String → Type 0
AreDistinct [] = Unit
AreDistinct (x ∷ xs) = All (λ y. x ≢ y) xs × AreDistinct xs

differ_statuses :
    (k : RuleType) (method : ℕ) (id : String) (rs : List (Rule k))
    → All (λ y. id ≢ y) (ids k rs)
    → All (λ x. id ≢ x.id) (statuses_of k method rs)
differ_statuses k method id [] h = tt
differ_statuses k method id (r ∷ rs) h = (h.0, differ_statuses k method id rs h.1)

IsDistinct-statuses :
    (k : RuleType) (method : ℕ) (rs : List (Rule k))
    → AreDistinct (ids k rs)
    → IsDistinct (statuses_of k method rs)
IsDistinct-statuses k method [] h = tt
IsDistinct-statuses k method (r ∷ rs) h =
    (differ_statuses k method (rule_id k r) rs h.0, IsDistinct-statuses k method rs h.1)

bounded_statuses :
    (k : RuleType) (method : ℕ) (rs : List (Rule k))
    → All (λ x. x.state ≤ wait_config_db_write) (statuses_of k method rs)
bounded_statuses k method [] = tt
bounded_statuses k method (r ∷ rs) = (omega arith, bounded_statuses k method rs)

-- a predicate of the identifiers that a list has, on the statuses of its rules
staged_statuses :
    (k : RuleType) (method : ℕ) (rs all : List (Rule k)) (P : RuleStatus → Type 0)
    → ((id : String) → has_rule k id rs ≡ true → has_rule k id all ≡ true)
    → ((id : String) → has_rule k id all ≡ true → P (status_of method id))
    → All P (statuses_of k method rs)
staged_statuses k method [] all P sub h = tt
staged_statuses k method (r ∷ rs) all P sub h = (
  h (rule_id k r) (sub (rule_id k r) (contains_head (rule_id k r) (ids k rs))),
  staged_statuses k method rs all P (λ id e. sub id (contains_tail (rule_id k r) id (ids k rs) e))
      h,
)

module _ {K V : Type 0} where
  -- The statuses of a list of rules that is that of the job, to create them, or that of the stored
  -- configuration, to modify or delete them.
  statuses_of-IsReady :
      (k : RuleType) (method : ℕ) (rs : List (Rule k)) (w : World K V)
      → statuses k w.status ≡ statuses_of k method rs
      → AreDistinct (ids k rs)
      → ((id : String) → has_rule k id rs ≡ true → IsStaged k w (status_of method id))
      → IsReady k w
  statuses_of-IsReady k method rs w e distinct staged =
      subst⁻¹
        (λ l. IsDistinct l × All (λ x. x.state ≤ wait_config_db_write) l × All (IsStaged k w) l) e
        (
          IsDistinct-statuses k method rs distinct,
          bounded_statuses k method rs,
          staged_statuses k method rs rs (IsStaged k w) (λ id h. h) staged,
        )

  -- the worlds of the tasks of a request to create, and to delete, a configuration
  abbrev pub created_world :
      ((k : RuleType) → RuleMap k → RuleMap k) → Config → Option Config → Config → K → V → World K V
  created_world order input config in_store s v = record {
    job = record input { operation = "POST" };
    config = config;
    status = build_task_status order (record input { operation = "POST" }) in_store false;
    store = s;
    plane = v;
  }

  abbrev pub deleted_world :
      ((k : RuleType) → RuleMap k → RuleMap k) → Config → Config → K → V → World K V
  deleted_world order input in_store s v = record {
    job = record in_store { operation = "DELETE" };
    config = some in_store;
    status =
        build_task_status order
          (record input { operation = "DELETE"; app_name = in_store.app_name })
          (record in_store { operation = "DELETE" }) false;
    store = s;
    plane = v;
  }

  pub created-IsReady :
      (order : (k : RuleType) → RuleMap k → RuleMap k) (k : RuleType) (input : Config)
      (config : Option Config) (in_store : Config) (s : K) (v : V)
      → AreDistinct (ids k (rules k input))
      → IsReady k (created_world order input config in_store s v)
  unfolding build_task_status handle_rule_create_or_delete
  created-IsReady order rule_type_dns input config in_store s v distinct =
      statuses_of-IsReady rule_type_dns oper_create input.app_dns_rule
        (created_world order input config in_store s v) refl distinct (λ id h. inl (refl, h))
  created-IsReady order rule_type_traffic input config in_store s v distinct =
      statuses_of-IsReady rule_type_traffic oper_create input.app_traffic_rule
        (created_world order input config in_store s v) refl distinct (λ id h. inl (refl, h))

  deleted-IsReady :
      (order : (k : RuleType) → RuleMap k → RuleMap k) (k : RuleType) (input in_store : Config)
      (s : K) (v : V)
      → AreDistinct (ids k (rules k in_store))
      → IsReady k (deleted_world order input in_store s v)
  unfolding build_task_status handle_rule_create_or_delete
  deleted-IsReady order rule_type_dns input in_store s v distinct =
      statuses_of-IsReady rule_type_dns oper_delete in_store.app_dns_rule
        (deleted_world order input in_store s v) refl distinct
        (λ id h. inr (omega arith, omega arith, h))
  deleted-IsReady order rule_type_traffic input in_store s v distinct =
      statuses_of-IsReady rule_type_traffic oper_delete in_store.app_traffic_rule
        (deleted_world order input in_store s v) refl distinct
        (λ id h. inr (omega arith, omega arith, h))

  -- the statuses of a task are those of all the rules of a configuration, with one method
  pub record IsStatusOf (method : ℕ) (c : Config) (w : World K V) : Type 0 where
    pub dns :
        w.status.dns_rule_status_lst ≡ map (λ r. status_of method r.dns_rule_id) c.app_dns_rule
    pub traffic :
        w.status.traffic_rule_status_lst
        ≡ map (λ r. status_of method r.traffic_rule_id) c.app_traffic_rule

  pub created-IsStatusOf :
      (order : (k : RuleType) → RuleMap k → RuleMap k) (input : Config) (config : Option Config)
      (in_store : Config) (s : K) (v : V)
      → IsStatusOf oper_create input (created_world order input config in_store s v)
  unfolding build_task_status handle_rule_create_or_delete
  created-IsStatusOf order input config in_store s v = record { dns = refl; traffic = refl }

  deleted-IsStatusOf :
      (order : (k : RuleType) → RuleMap k → RuleMap k) (input in_store : Config) (s : K) (v : V)
      → IsStatusOf oper_delete in_store (deleted_world order input in_store s v)
  unfolding build_task_status handle_rule_create_or_delete
  deleted-IsStatusOf order input in_store s v = record { dns = refl; traffic = refl }

module _ {B K V : Type 0} (env : Env B K V) (t : TaskInfo) (law : IsRegistry env.registry)
    (ok : IsServing env) (readable : IsReadable env law) (subs : Subscriptions B)
    (order : (k : RuleType) → RuleMap k → RuleMap k) (of_text : String → B) where
  -- A task of a request that ends well: it has a status with the method for every rule of a
  -- configuration and for nothing else; it ends without an error, every rule is in its last state, and
  -- the job is deleted.
  pub record IsFinished (method : ℕ) (c : Config) (w : World K V) : Type 0 where
    pub staged : IsStatusOf method c w
    pub ended : (run_task env t w).0 ≡ done
    pub written : IsAllWritten w.status (run_task env t w).1.status
    pub job : law.kv (run_task env t w).1.store (jobs_path t.app_instance_id) ≡ none

  -- Where the services succeed, values are decoded as they were encoded and reads find what is stored: if
  -- a request that creates a configuration is staged, its rules of each type having distinct
  -- identifiers, then a task is made of what it stored, with a status to create for each of the rules;
  -- this task ends without an error, with every rule in its last state and the job deleted; and the
  -- configuration of the request is stored, without its operation and but for rules without a state
  -- that were made active.
  pub created-run_task :
      (input : Config) (s : K) (v : V)
      → AreDistinct (ids rule_type_dns input.app_dns_rule)
      → AreDistinct (ids rule_type_traffic input.app_traffic_rule)
      → let r =
          stage_new_task env subs order of_text t.app_instance_id t.task_id
            (record input { operation = "POST" })
            false
            s in
        is_accepted r.0 ≡ true
        → (w : World K V) × (new_task env t r.1 v ≡ (some w, r.1))
          × IsFinished oper_create input w
          × IsSaved env t law input (run_task env t w).1
  created-run_task input s v dns traffic good =
      let post : Config = record input { operation = "POST" } in
      let empty = empty_config env subs order of_text in
      let (jb, sb, coded, coded_status, e) =
        created-recorded env t law ok readable subs order of_text input s good in
      let s' = put_records env t law ok readable jb (of_text t.app_instance_id) sb s in
      let w = created_world order input (new_appd_config_db env t s') empty s' v in
      let (ended, written, stored) =
        run_task_total env t law ok w
          (created-IsReady order rule_type_dns input w.config empty s' v dns)
          (created-IsReady order rule_type_traffic input w.config empty s' v traffic) in
      (
        w,
        subst⁻¹ (λ x. new_task env t x v ≡ (some w, x)) e
            (put_records-new_task env t law ok readable post w.status jb (of_text t.app_instance_id)
              sb s v coded coded_status),
        record {
          staged = created-IsStatusOf order input w.config empty s' v;
          ended = ended;
          written = written;
          job = stored.job;
        },
        elim stored.config [
          | inl (_, saved) ↦ saved
          | inr (inl (bad, _)) ↦ cc
          | inr (inr (bad, _)) ↦ cc
        ],
      )

  -- Where the services succeed, values are decoded as they were encoded and reads find what is stored: if
  -- a request that deletes the stored configuration is staged, the rules of each type of that
  -- configuration having distinct identifiers, then a task is made of what it stored, with a status to
  -- delete for each of these rules; this task ends without an error, with every rule in its last state,
  -- and the job and the configuration are deleted.
  pub deleted-run_task :
      (input in_store : Config) (bytes : B) (s : K) (v : V)
      → law.kv s (config_path t.app_instance_id) ≡ some bytes
      → env.unmarshal_config bytes ≡ some in_store
      → AreDistinct (ids rule_type_dns in_store.app_dns_rule)
      → AreDistinct (ids rule_type_traffic in_store.app_traffic_rule)
      → let r =
          stage_new_task env subs order of_text t.app_instance_id t.task_id
            (record input { operation = "DELETE" })
            false
            s in
        is_accepted r.0 ≡ true
        → (w : World K V) × (new_task env t r.1 v ≡ (some w, r.1))
          × IsFinished oper_delete in_store w
          × (law.kv (run_task env t w).1.store (config_path t.app_instance_id) ≡ none)
  deleted-run_task input in_store bytes s v here decoded dns traffic good =
      let job : Config = record in_store { operation = "DELETE" } in
      let (jb, sb, coded, coded_status, e) =
        deleted-recorded env t law ok readable subs order of_text input in_store bytes s here
          decoded good in
      let app = of_text t.app_instance_id in
      let s' = put_records env t law ok readable jb app sb s in
      let w = deleted_world order input in_store s' v in
      let kept : new_appd_config_db env t s' ≡ some in_store =
        put_records-new_config env t law ok readable in_store bytes jb app sb s here decoded in
      let made : new_task env t s' v ≡ (some w, s') =
        put_records-new_task env t law ok readable job w.status jb app sb s v coded coded_status
        ∙ ap (λ c. (some (record w { config = c }), s')) kept in
      let (ended, written, stored) =
        run_task_total env t law ok w (deleted-IsReady order rule_type_dns input in_store s' v dns)
          (deleted-IsReady order rule_type_traffic input in_store s' v traffic) in
      (
        w,
        subst⁻¹ (λ x. new_task env t x v ≡ (some w, x)) e made,
        record {
          staged = deleted-IsStatusOf order input in_store s' v;
          ended = ended;
          written = written;
          job = stored.job;
        },
        elim stored.config [
          | inl (bad, _) ↦ cc
          | inr (inl (_, gone)) ↦ gone
          | inr (inr (_, bad)) ↦ cc
        ],
      )
