-- ===== src/MepServer/Plans/Pending.antt =====
-- mepserver/mm5/plans: an accepted request keeps out the others of its application.
use mep.Prelude.{
  String, ◌≡◌, ◌≢◌, refl, sym, ◌∙◌, inl, inr, Bool, true, false, none, some, List, [], ◌∷◌, ◌++◌,
  ◌==◌, eqb, arith, Bool-cases, Option-cases, List-cases,
}
use mep.MepServer.Backend.{put_record, by_base, put_entry, base}
use mep.MepServer.Backend.Laws.{IsRegistry, put_record-kv}
use mep.MepServer.Sync.{Config, RuleType, TaskStatus, Env, jobs_path, tasks_path, task_status_path}
use mep.MepServer.Appd.{Subscriptions}
use mep.MepServer.Appd.Classify.{RuleMap, build_task_status}
use mep.MepServer.Appd.Stage.{
  Staged, staged, crashed, write_status_to_store, add_jobs_to_db, is_dns_domain_name_exists,
  stage_status,
}

abbrev pub has_entry : {B : Type 0} → List (String × B) → Bool
has_entry [] = false
has_entry (_ ∷ _) = true

pub put_entry-has_entry :
    {B : Type 0} (k : String) (v : B) (m : List (String × B)) → has_entry (put_entry k v m) ≡ true
put_entry-has_entry k v [] = refl
put_entry-has_entry k v ((j, w) ∷ m) = elim (Bool-cases (j == k)) [
  | inl same ↦ rw same refl
  | inr other ↦ rw other refl
]

pub by_base-has_entry :
    {B : Type 0} (kvs m : List (String × B)) → has_entry m ≡ true → has_entry (by_base kvs m) ≡ true
by_base-has_entry [] m h = h
by_base-has_entry ((k, v) ∷ kvs) m h =
    by_base-has_entry kvs (put_entry (base k) v m) (put_entry-has_entry (base k) v m)

module _ {B K V : Type 0} (env : Env B K V) (subs : Subscriptions B)
    (order : (k : RuleType) → RuleMap k → RuleMap k) (of_text : String → B)
    (law : IsRegistry env.registry) where
  -- the job of the application is in the store
  abbrev pub HasJob : String → K → Type 0
  HasJob app s = law.kv s (jobs_path app) ≢ none

  -- a put keeps what is there
  put-HasJob :
      (app p : String) (b : B) (s : K) → HasJob app s → HasJob app (put_record env.registry p b s).1
  unfolding put_record
  put-HasJob app p b s there = elim (Bool-cases (env.registry.put p b s).0) [
    | inl ok ↦ λ gone. elim (Bool-cases (p == jobs_path app)) [
      | inl same ↦
          let e : some b ≡ none = rw same at (sym (law.put_ok p b s ok (jobs_path app)) ∙ gone) in
          cc
      | inr other ↦ there (rw other at (sym (law.put_ok p b s ok (jobs_path app)) ∙ gone))
    ]
    | inr bad ↦ λ gone. there (sym (law.put_err p b s bad (jobs_path app)) ∙ gone)
  ]

  -- what is staged without an error leaves the job
  abbrev pub is_ok : Staged → Bool
  is_ok (staged code _ _) = eqb code 0
  is_ok crashed = false

  abbrev pub LeavesJob : String → Staged × K → Type 0
  LeavesJob app r = is_ok r.0 ≡ true → HasJob app r.1

  pub failed : (app : String) (r : Staged × K) → is_ok r.0 ≡ false → LeavesJob app r
  failed app r bad ok = cc

  write_status_to_store-HasJob :
      (status : TaskStatus) (app task : String) (s : K)
      → HasJob app s
      → eqb (write_status_to_store env subs order of_text status app task s).0.0 0 ≡ true
      → HasJob app (write_status_to_store env subs order of_text status app task s).1
  unfolding write_status_to_store
  write_status_to_store-HasJob status app task s there =
      elim (Option-cases (env.marshal_status status)) [
        | inl bad ↦ rw (bad, write_status_to_store) (λ never. cc)
        | inr (bytes, fine) ↦
            elim (Bool-cases
              (eqb (put_record env.registry (task_status_path app task) bytes s).0 0)) [
                | inl ok ↦
                    rw (fine, write_status_to_store)
                      (rw ok (λ _. put-HasJob app (task_status_path app task) bytes s there))
                | inr bad ↦ rw (fine, write_status_to_store) (rw bad (λ never. cc))
              ]
      ]

  pub add_jobs_to_db-HasJob :
      (app task : String) (bytes : B) (s : K)
      → eqb (add_jobs_to_db env subs order of_text app task bytes s).0 0 ≡ true
      → HasJob app (add_jobs_to_db env subs order of_text app task bytes s).1
  unfolding add_jobs_to_db
  add_jobs_to_db-HasJob app task bytes s =
      let first = put_record env.registry (jobs_path app) bytes s in
      let second = put_record env.registry (tasks_path task) (of_text app) first.1 in
      elim (Bool-cases (eqb first.0 0)) [
        | inr bad ↦ rw (bad, add_jobs_to_db) (λ never. cc)
        | inl ok ↦
            let there : HasJob app first.1 = λ gone.
              let e : some bytes ≡ none =
                sym (put_record-kv env.registry law (jobs_path app) bytes s (ground arith))
                ∙ gone in
              cc in
            elim (Bool-cases (eqb second.0 0)) [
              | inl fine ↦
                  rw (ok, add_jobs_to_db)
                    (rw (fine, add_jobs_to_db)
                      (λ _. put-HasJob app (tasks_path task) (of_text app) first.1 there))
              | inr bad ↦ rw (ok, add_jobs_to_db) (rw (bad, add_jobs_to_db) (λ never. cc))
            ]
      ]

  pub stage_status-LeavesJob :
      (app task : String) (input in_store : Config) (subscribed : Bool) (s : K)
      → HasJob app s
      → LeavesJob app (stage_status env subs order of_text app task input in_store subscribed s)
  unfolding stage_status
  stage_status-LeavesJob app task input in_store subscribed s there =
      let status = build_task_status order input in_store subscribed in
      let r = stage_status env subs order of_text app task input in_store subscribed s in
      elim (List-cases (status.traffic_rule_status_lst ++ status.dns_rule_status_lst)) [
        | inl nothing ↦ failed app r (rw (nothing, stage_status) refl)
        | inr (x, xs, some_work) ↦
            elim (Option-cases
              (is_dns_domain_name_exists env subs order of_text app input status s)) [
                | inl crash ↦ failed app r (rw (some_work, stage_status) (rw crash refl))
                | inr (true, twice) ↦ failed app r (rw (some_work, stage_status) (rw twice refl))
                | inr (false, fine) ↦
                    rw (some_work, stage_status)
                      (rw fine (write_status_to_store-HasJob status app task s there))
              ]
      ]
