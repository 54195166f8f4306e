-- ===== src/MepServer/Sync/Termination.antt =====
-- mepserver/mm5/task/sync.go: the termination of an application before its rules are deleted, and
-- `ProcessDataPlaneSync` as a whole.
use Prim.Native.String
use mep.Prelude.{
  ℕ, zero, suc, String, Bool, true, false, not, Option, none, some, eqb, if◌then◌else◌,
}
use mep.MepServer.Backend.{get_record, put_record, delete_record}
use mep.MepServer.Sync.{
  Outcome, done, failed, panicked, Env, TaskInfo, termination_in_progress, termination_finish,
}
use mep.MepServer.Sync.Status.{new_status_db}
use mep.MepServer.Sync.Worker.{clean_processing_cache, new_task, no_task, run_task}
use mep.MepServer.Appd.{
  Subscriptions, app_termination_type, ser_availability_type, get_subscribe_key_path,
  is_app_instance_already_created, app_termination_is_subscribed,
}

-- `ConfirmTerminationRecord`
pub record Confirmation : Type 0 where
  pub operation_action : String
  pub termination_status : ℕ

-- the message to the application, JSON of its confirmation, and 100 milliseconds, in which others write
pub record Notifier (B K : Type 0) : Type 0 where
  -- `sendTerminateNotification(callback, subscription, app)`
  pub send : String → String → String → K → Bool × K
  pub marshal : Confirmation → Option B
  pub unmarshal : B → Option Confirmation
  pub sleep : K → K

-- `AppTerminationTimeout`
abbrev pub app_termination_timeout : ℕ
app_termination_timeout = 50

abbrev pub confirm_path : String → String
confirm_path app = String.◌++◌ (String.◌++◌ "/cse-sr/etsi/app-confirm-termination/" app) "/"

abbrev pub subscriptions_path : String → String → String
subscriptions_path type app = String.◌++◌ (String.◌++◌ (get_subscribe_key_path type) app) "/"

module _ {B K V : Type 0} (env : Env B K V) (subs : Subscriptions B) (notifier : Notifier B K) where
  -- `writeConfirmTerminateToDb`, which always returns nil
  unfoldable pub write_confirm_terminate_to_db : String → K → K
  write_confirm_terminate_to_db app s =
      elim (notifier.marshal (record {
        operation_action = "TERMINATING";
        termination_status = termination_in_progress;
      })) [ none ↦ s | some bytes ↦ (put_record env.registry (confirm_path app) bytes s).1 ]

  -- a round of the loop of `handleResponseFromAppInstance`: an error, the confirmation, or neither
  unfoldable pub response : String → K → Option Bool
  response app s =
      let (entry, code) = get_record env.registry (confirm_path app) s in
      elim (eqb code 0) [
        | false ↦ none
        | true ↦ elim entry [
          | none ↦ none
          | some bytes ↦ elim (notifier.unmarshal bytes) [
            | none ↦ none
            | some confirm ↦ some (eqb confirm.termination_status termination_finish)
          ]
        ]
      ]

  -- the loop, with the number of the rounds left
  unfoldable pub await_response : ℕ → String → K → Outcome × K
  await_response zero app s = (done, s)
  await_response (suc rounds) app s = elim (response app s) [
    | none ↦ (failed, s)
    | some true ↦ (done, s)
    | some false ↦ await_response rounds app (notifier.sleep s)
  ]

  -- `handleResponseFromAppInstance`
  unfoldable pub handle_response_from_app_instance : String → K → Outcome × K
  handle_response_from_app_instance app s = await_response app_termination_timeout app s

  -- three deletions, each only if those before it succeeded
  abbrev delete_all : String → K → Outcome × K
  delete_all app s =
      let (code, s1) = delete_record env.registry (confirm_path app) s in
      elim (eqb code 0) [
        | false ↦ (failed, s1)
        | true ↦
            let (code, s2) =
              delete_record env.registry (subscriptions_path app_termination_type app) s1 in
            elim (eqb code 0) [
              | false ↦ (failed, s2)
              | true ↦
                  let (code, s3) =
                    delete_record env.registry (subscriptions_path ser_availability_type app) s2 in
                  ((if eqb code 0 then done else failed), s3)
            ]
      ]

  -- `handleTerminationNotification`; without a subscription `sub` is nil and its use panics
  unfoldable pub handle_termination_notification : String → K → Outcome × K
  handle_termination_notification app s = elim (app_termination_is_subscribed env subs app s) [
    | none ↦ (panicked, s)
    | some sub ↦
        let (sent, s1) = notifier.send sub.callback_reference sub.subscription_id app s in
        elim sent [
          | false ↦ (done, s1)
          | true ↦
              let s2 = write_confirm_terminate_to_db app s1 in
              delete_all app (handle_response_from_app_instance app s2).1
        ]
  ]

  abbrev pub is_terminating : TaskInfo → K → Bool
  is_terminating t s = elim (new_status_db env t s) [
    | none ↦ false
    | some status ↦ eqb status.termination_status termination_in_progress
  ]

  -- `handleAppTermination` behind the notification; the task that it cleans up has an empty identifier
  abbrev after_notification : TaskInfo → K → Bool × K
  after_notification t s =
      if not (is_app_instance_already_created env t.app_instance_id s)
      then (true, (clean_processing_cache env "" s).1)
      else (false, s)

  -- `handleAppTermination`: whether it panicked, whether nothing is left to do
  unfoldable pub handle_app_termination : TaskInfo → K → Option Bool × K
  handle_app_termination t s = elim (is_terminating t s) [
    | false ↦ (some false, s)
    | true ↦
        let (o, s1) = handle_termination_notification t.app_instance_id s in
        elim o [
          | panicked ↦ (none, s1)
          | _ ↦ let (no_config, s2) = after_notification t s1 in (some no_config, s2)
        ]
  ]

  -- `ProcessDataPlaneSync`: whether it panicked, which `ProcessAppDConfigSync` recovers
  unfoldable pub process_data_plane_sync : TaskInfo → K → V → Bool × K × V
  process_data_plane_sync t s v =
      let (ended, s1) = handle_app_termination t s in
      elim ended [
        | none ↦ (true, s1, v)
        | some true ↦ (false, s1, v)
        | some false ↦
            let (task, s2) = new_task env t s1 v in
            elim task [
              | none ↦ (false, no_task env t s2, v)
              | some w ↦
                  let (o, w') = run_task env t w in
                  ((elim o [ panicked ↦ true | _ ↦ false ]), w'.store, w'.plane)
            ]
      ]
