-- ===== src/MepServer/Plans/Exclusion.antt =====
-- mepserver/mm5/plans: an accepted request keeps out the others of its application.
use mep.Prelude.{
  ℕ, String, ◌≡◌, ◌≢◌, refl, ap, inl, inr, true, false, Option, none, some, List, [], ◌∷◌, arith,
  Bool-cases, List-cases,
}
use mep.MepServer.Backend.{get_records, by_base, put_entry, base}
use mep.MepServer.Backend.Laws.{IsRegistry}
use mep.MepServer.Sync.{Config, RuleType, Env, jobs_path}
use mep.MepServer.Appd.{
  Subscriptions, is_any_ongoing_operation_exist, is_app_instance_already_created,
  is_duplicate_app_name_exists,
}
use mep.MepServer.Appd.Classify.{RuleMap}
use mep.MepServer.Appd.Stage.{duplicate_operation, empty_config}
use mep.MepServer.Plans.{
  refused, accepted, TaskProgress, Outcome, unless_ongoing, forbidden_operation,
  ser_instance_not_found, create_app_d_config, update_app_d_config, delete_app_d_config,
  for_operation,
}
use mep.MepServer.Plans.Pending.{HasJob, has_entry, put_entry-has_entry, by_base-has_entry}
use mep.MepServer.Plans.Accepted.{
  Request, create_request, update_request, delete_request, is_accepted, serve, serve-HasJob,
}

-- a read that finds a record, and a request that is refused and changes nothing
abbrev pub IsFound : {B : Type 0} → Option (List (String × B)) → Type 0
IsFound {B} found = (e : String × B) × (rest : List (String × B)) × (found ≡ some (e ∷ rest))

abbrev pub IsUnchanged : {K : Type 0} → Outcome K → K → Type 0
IsUnchanged o s = (code : ℕ) × (msg : String) × (o ≡ (refused code msg, none, s))

-- a request while a job of its application is in the store
module _ {B K V : Type 0} (env : Env B K V) (subs : Subscriptions B)
    (order : (k : RuleType) → RuleMap k → RuleMap k) (of_text : String → B)
    (law : IsRegistry env.registry)
    (reads : (p : String) (s : K) → law.kv s p ≢ none → IsFound (env.registry.get p s)) where
  ongoing :
      (app : String) (s : K)
      → HasJob env subs order of_text law app s
      → is_any_ongoing_operation_exist env app s ≡ true
  unfolding is_any_ongoing_operation_exist get_records
  ongoing app s there =
      let (e, kvs, found) = reads (jobs_path app) s there in
      elim (List-cases (by_base (e ∷ kvs) [])) [
        | inl nothing ↦
            let some_entry : has_entry (by_base (e ∷ kvs) []) ≡ true =
              by_base-has_entry kvs (put_entry (base e.0) e.1 [])
                (put_entry-has_entry (base e.0) e.1 []) in
            let none_there : has_entry (by_base (e ∷ kvs) []) ≡ false = ap has_entry nothing in cc
        | inr (x, xs, some_entry) ↦
            rw (is_any_ongoing_operation_exist, get_records, found) (rw some_entry (ground arith))
      ]

  busy-IsUnchanged :
      (app task : String) (input : Config) (s : K)
      → HasJob env subs order of_text law app s
      → IsUnchanged (unless_ongoing env subs order of_text app task input s) s
  unfolding unless_ongoing
  busy-IsUnchanged app task input s there = (
    forbidden_operation,
    "app instance has other operation in progress",
    rw (ongoing app s there, unless_ongoing) refl,
  )

  pending-IsUnchanged :
      (q : Request) (app task : String) (s : K)
      → HasJob env subs order of_text law app s
      → IsUnchanged (serve env subs order of_text q app task s) s
  unfolding create_app_d_config update_app_d_config delete_app_d_config
  pending-IsUnchanged (create_request none) app task s there = (1, "input body parse failed", refl)
  pending-IsUnchanged (create_request (some input)) app task s there =
      elim (Bool-cases (is_app_instance_already_created env app s)) [
        | inl known ↦
            (duplicate_operation, "duplicate app instance", rw (known, create_app_d_config) refl)
        | inr new ↦ elim (Bool-cases (is_duplicate_app_name_exists env input.app_name s)) [
          | inl twice ↦ (
            duplicate_operation,
            "duplicate app name",
            rw (new, create_app_d_config) (rw twice refl),
          )
          | inr once ↦
              let (code, msg, e) = busy-IsUnchanged app task (for_operation "POST" input) s there in
              (code, msg, rw (new, create_app_d_config) (rw once e))
        ]
      ]
  pending-IsUnchanged (update_request none) app task s there = (1, "input body parse failed", refl)
  pending-IsUnchanged (update_request (some input)) app task s there =
      elim (Bool-cases (is_app_instance_already_created env app s)) [
        | inl known ↦
            let (code, msg, e) = busy-IsUnchanged app task (for_operation "PUT" input) s there in
            (code, msg, rw (known, update_app_d_config) e)
        | inr new ↦
            (ser_instance_not_found, "app instance not found", rw (new, update_app_d_config) refl)
      ]
  pending-IsUnchanged delete_request app task s there =
      let input = record (empty_config env subs order of_text) { operation = "DELETE" } in
      elim (Bool-cases (is_app_instance_already_created env app s)) [
        | inl known ↦
            let (code, msg, e) = busy-IsUnchanged app task input s there in
            (code, msg, rw (known, delete_app_d_config) e)
        | inr new ↦
            (ser_instance_not_found, "app instance not found", rw (new, delete_app_d_config) refl)
      ]

-- Where a read of a key that is stored finds a record: a request of an application that was accepted
-- leaves the job in the store; and in any store that has this job, so until a task deletes it, whatever
-- else has changed, each of the three requests of the application is refused: no task is started, and
-- the store is as before.
pub serve-IsUnchanged :
    {B K V : Type 0} (env : Env B K V) (subs : Subscriptions B)
    (order : (k : RuleType) → RuleMap k → RuleMap k) (of_text : String → B)
    (law : IsRegistry env.registry)
    (reads : (p : String) (s : K) → law.kv s p ≢ none → IsFound (env.registry.get p s))
    (q next : Request) (app task next_task : String) (s later : K) (progress : TaskProgress)
    → (serve env subs order of_text q app task s).0 ≡ accepted progress
    → law.kv later (jobs_path app) ≢ none
    → (law.kv (serve env subs order of_text q app task s).2 (jobs_path app) ≢ none)
      × IsUnchanged (serve env subs order of_text next app next_task later) later
serve-IsUnchanged env subs order of_text law reads q next app task next_task s later progress ok
      there =
    (
      serve-HasJob env subs order of_text law q app task s (ap is_accepted ok),
      pending-IsUnchanged env subs order of_text law reads next app next_task later there,
    )
