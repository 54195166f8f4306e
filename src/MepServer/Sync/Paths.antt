-- ===== src/MepServer/Sync/Paths.antt =====
-- mepserver/common/util/const.go: the keys of etcd that a task uses do not start with one another.
use Prim.Native.String
use Prim.Native.Char.{Char, code}
use text.Mathlib.TextLemmas.{append_assoc, append_cancel_left, cons-append, head-eq_of_cons-eq}
use text.Mathlib.TextEquality.{starts_with_iff}
use mep.Prelude.{
  String, ◌≡◌, ◌≢◌, ap, sym, ◌∙◌, inl, inr, true, false, starts_with, starts_with-append, arith,
  Bool-cases,
}
use mep.MepServer.Sync.{config_path, jobs_path, tasks_path, task_status_path}

-- the beginning that all keys share
abbrev root : String
root = "/cse-sr/etsi/"

abbrev app_join : String → String → String
app_join s u = String.◌++◌ s u

-- What stands behind a beginning, as the root, in two equal keys is equal.
behind :
    (p a b x y : String)
    → app_join (app_join p a) x ≡ app_join (app_join p b) y
    → app_join a x ≡ app_join b y
behind p a b x y e =
    append_cancel_left p (app_join a x) (app_join b y)
      (sym (append_assoc p a x) ∙ e ∙ append_assoc p b y)

behind_root :
    (a b x y : String)
    → app_join (app_join root a) x ≡ app_join (app_join root b) y
    → app_join a x ≡ app_join b y
behind_root = behind root

-- Two texts whose first characters differ.
first_differ :
    (c d : Char) (s t x y : String)
    → code c ≢ code d
    → app_join (String.◌∷◌ c s) x ≢ app_join (String.◌∷◌ d t) y
first_differ c d s t x y differ e =
    differ (ap code (head-eq_of_cons-eq (sym (cons-append c s x) ∙ e ∙ cons-append d t y)))

-- The jobs of every application are under the jobs of the empty identifier.
pub jobs_path-starts_with : (app : String) → starts_with (jobs_path app) (jobs_path "") ≡ true
jobs_path-starts_with app = starts_with-append (jobs_path "") app

pub config_path-not_job :
    (app app' : String) → starts_with (config_path app) (jobs_path app') ≡ false
config_path-not_job app app' = elim (Bool-cases (starts_with (config_path app) (jobs_path app'))) [
  | inr differ ↦ differ
  | inl starts ↦
      let (u, e) = (starts_with_iff (config_path app) (jobs_path app')).0 starts in
      let job : app_join (jobs_path "") (app_join app' u) ≡ config_path app =
        sym (append_assoc (jobs_path "") app' u) ∙ e in
      absurd (
        first_differ "m" "a" "ep/applcm/jobs/" "ppd/" (app_join app' u) app (λ z. omega (arith, z))
          (behind_root "mep/applcm/jobs/" "appd/" (app_join app' u) app job))
]

-- The record of a task is neither the job of an application nor its configuration.
pub tasks-not_job : (task app : String) → tasks_path task ≢ jobs_path app
tasks-not_job task app e =
    first_differ "t" "j" "asks/" "obs/" task app (λ z. omega (arith, z))
      (behind "/cse-sr/etsi/mep/applcm/" "tasks/" "jobs/" task app e)

pub tasks-not_config : (task app : String) → tasks_path task ≢ config_path app
tasks-not_config task app e =
    first_differ "m" "a" "ep/applcm/tasks/" "ppd/" task app (λ z. omega (arith, z))
      (behind_root "mep/applcm/tasks/" "appd/" task app e)

status_tail :
    (app task : String)
    → task_status_path app task
      ≡ app_join "/cse-sr/etsi/mep/applcm/taskstatus/" (app_join app (app_join "/" task))
status_tail app task =
    append_assoc (app_join "/cse-sr/etsi/mep/applcm/taskstatus/" app) "/" task
    ∙ append_assoc "/cse-sr/etsi/mep/applcm/taskstatus/" app (app_join "/" task)

pub status-not_job : (app task app' : String) → task_status_path app task ≢ jobs_path app'
status-not_job app task app' e =
    let tail = app_join app (app_join "/" task) in
    first_differ "t" "j" "askstatus/" "obs/" tail app' (λ z. omega (arith, z))
      (behind "/cse-sr/etsi/mep/applcm/" "taskstatus/" "jobs/" tail app'
        (sym (status_tail app task) ∙ e))

pub status-not_config : (app task app' : String) → task_status_path app task ≢ config_path app'
status-not_config app task app' e =
    let tail = app_join app (app_join "/" task) in
    first_differ "m" "a" "ep/applcm/taskstatus/" "ppd/" tail app' (λ z. omega (arith, z))
      (behind_root "mep/applcm/taskstatus/" "appd/" tail app' (sym (status_tail app task) ∙ e))

pub jobs-not_config : (app app' : String) → jobs_path app ≢ config_path app'
jobs-not_config app app' e =
    first_differ "m" "a" "ep/applcm/jobs/" "ppd/" app app' (λ z. omega (arith, z))
      (behind_root "mep/applcm/jobs/" "appd/" app app' e)

-- and the deletion of a job leaves a status
pub status-no_job_prefix :
    (app task app' : String) → starts_with (task_status_path app task) (jobs_path app') ≡ false
status-no_job_prefix app task app' =
    elim (Bool-cases (starts_with (task_status_path app task) (jobs_path app'))) [
      | inr differ ↦ differ
      | inl starts ↦
          let (u, e) = (starts_with_iff (task_status_path app task) (jobs_path app')).0 starts in
          let tail = app_join app (app_join "/" task) in
          let job : app_join (jobs_path "") (app_join app' u)
              ≡ app_join "/cse-sr/etsi/mep/applcm/taskstatus/" tail =
            sym (append_assoc (jobs_path "") app' u) ∙ e ∙ status_tail app task in
          absurd (
            first_differ "j" "t" "obs/" "askstatus/" (app_join app' u) tail (λ z. omega (arith, z))
              (behind "/cse-sr/etsi/mep/applcm/" "jobs/" "taskstatus/" (app_join app' u) tail job))
    ]
