-- ===== src/MepServer/Appd.antt =====
-- mepserver/common/appd/appd.go: what a request and the worker ask of the stored records.
pub mod Classify
pub mod Stage
pub mod Refused
pub mod Recorded
pub mod Ready
pub mod Entries
pub mod Exact
pub mod Served
use Prim.Native.String
use mep.Prelude.{
  String, Bool, true, false, not, ◌||◌, ◌&&◌, Option, none, some, List, [], ◌∷◌, ◌==◌, eqb,
  if◌then◌else◌, length,
}
use mep.MepServer.Backend.{get_record, get_records}
use mep.MepServer.Sync.{Env, config_path, jobs_path}

-- `AppTerminationNotificationSubscription`
pub record Subscription : Type 0 where
  pub subscription_id : String
  pub subscription_type : String
  pub callback_reference : String

abbrev pub app_termination_type : String
app_termination_type = "AppTerminationNotificationSubscription"

abbrev pub ser_availability_type : String
ser_availability_type = "SerAvailabilityNotificationSubscription"

-- `GetSubscribeKeyPath`
abbrev pub get_subscribe_key_path : String → String
get_subscribe_key_path type =
    if type == ser_availability_type
    then "/cse-sr/etsi/subscribe/"
    else "/cse-sr/etsi/app-end-subscribe/"

-- JSON of a subscription, decoded over an earlier value, and the order in which Go visits a map
pub record Subscriptions (B : Type 0) : Type 0 where
  pub unmarshal : B → Subscription → Option Subscription
  pub order : List (String × B) → List (String × B)

abbrev no_subscription : Subscription
no_subscription = record { subscription_id = ""; subscription_type = ""; callback_reference = "" }

module _ {B K V : Type 0} (env : Env B K V) where
  -- `IsAppInstanceAlreadyCreated`
  unfoldable pub is_app_instance_already_created : String → K → Bool
  is_app_instance_already_created app s =
      let (entry, code) = get_record env.registry (config_path app) s in
      eqb code 0 && elim entry [ none ↦ false | some _ ↦ true ]

  abbrev has_name : String → List (String × B) → Bool
  has_name name [] = false
  has_name name ((_, bytes) ∷ records) = elim (env.unmarshal_config bytes) [
    | none ↦ has_name name records
    | some c ↦ c.app_name == name || has_name name records
  ]

  -- `IsDuplicateAppNameExists`
  unfoldable pub is_duplicate_app_name_exists : String → K → Bool
  is_duplicate_app_name_exists name s =
      let (records, code) = get_records env.registry (config_path "") s in
      eqb code 0 && has_name name records

  -- `IsAnyOngoingOperationExist`
  unfoldable pub is_any_ongoing_operation_exist : String → K → Bool
  is_any_ongoing_operation_exist app s =
      let (records, code) = get_records env.registry (jobs_path app) s in
      eqb code 0 && not (eqb (length records) 0)

  -- `AppTerminationIsSubscribed`: the subscription, if there is one
  abbrev first_subscription :
      Subscriptions B → Subscription → List (String × B) → Option Subscription
  first_subscription subs last [] = none
  first_subscription subs last ((id, bytes) ∷ records) = elim (subs.unmarshal bytes last) [
    | none ↦ none
    | some decoded ↦
        let sub = record decoded { subscription_id = id } in
        let rest = first_subscription subs sub records in
        if sub.subscription_type == app_termination_type then some sub else rest
  ]

  unfoldable pub app_termination_is_subscribed : Subscriptions B → String → K → Option Subscription
  app_termination_is_subscribed subs app s =
      let (records, code) =
        get_records env.registry (String.◌++◌ (get_subscribe_key_path app_termination_type) app)
          s in
      if eqb code 0 then first_subscription subs no_subscription (subs.order records) else none
