-- ===== src/Frontend/Gate.antt =====
-- pkg/frontend/validate.go, asyncoperations.go, and the checks at the head of
-- openshiftcluster_putorpatch.go.
use aro_rp.Base.{ℕ, String, Bool, true, false, Option, none, some, List, any, ◌==◌, if◌then◌else◌}
use aro_rp.Api.Error.{Error, Result, ok, err, other, new_cloud_error, is_error_status_code}
use aro_rp.Api.Error as Error
use aro_rp.Api.Cluster.{ProvisioningState, creating, updating, deleting, succeeded, failed, unset}
use aro_rp.Api.Document.{
  OpenShiftClusterDocument, SubscriptionDocument, SubscriptionState, registered, unregistered,
  warned, suspended, deleted, AsyncOperationDocument,
}
use aro_rp.Api.Document as Document
use aro_rp.Action.{M, pure, lift, attempt, ◌>>=◌}
use aro_rp.Azure.{parse_resource_id}
use aro_rp.Database.Clusters as Clusters
use aro_rp.Database.Subscriptions as Subscriptions
use aro_rp.Database.AsyncOperations as AsyncOperations
use aro_rp.Frontend.{Config, Request, operations_path}

-- validateTerminalProvisioningState
unfoldable pub validate_terminal_provisioning_state : ProvisioningState → Result (Unit {0})
unfolding new_cloud_error
validate_terminal_provisioning_state succeeded = ok tt
validate_terminal_provisioning_state failed = ok tt
validate_terminal_provisioning_state state = err (new_cloud_error 400 "RequestNotAllowed" "")

abbrev pub clear_failed_state : OpenShiftClusterDocument → OpenShiftClusterDocument
clear_failed_state d =
    let p = record d.open_shift_cluster.properties { failed_provisioning_state = unset } in
    record d { open_shift_cluster = record d.open_shift_cluster { properties = p } }

-- the switch on failedProvisioningState
unfoldable pub retry_failed :
    ProvisioningState → OpenShiftClusterDocument → Result OpenShiftClusterDocument
unfolding new_cloud_error
retry_failed creating d = err (new_cloud_error 400 "RequestNotAllowed" "")
retry_failed updating d = ok (clear_failed_state d)
retry_failed deleting d = err (new_cloud_error 400 "RequestNotAllowed" "")
retry_failed state d = err (other "unexpected failedProvisioningState")

-- The part of _putOrPatchOpenShiftCluster that decides whether a cluster in a provisioning state,
-- and a failed one, may be changed.
unfoldable pub admit_in :
    ProvisioningState
    → ProvisioningState
    → OpenShiftClusterDocument
    → Result OpenShiftClusterDocument
unfolding validate_terminal_provisioning_state retry_failed
admit_in state failed_state d =
    Error.bind (validate_terminal_provisioning_state state)
      (λ _. elim state [ failed ↦ retry_failed failed_state d | _ ↦ ok d ])

unfoldable pub admit : OpenShiftClusterDocument → Result OpenShiftClusterDocument
unfolding admit_in
admit d =
    let p = d.open_shift_cluster.properties in
    admit_in p.provisioning_state p.failed_provisioning_state d

-- equality of the states as texts
abbrev pub same_state : SubscriptionState → SubscriptionState → Bool
same_state registered registered = true
same_state unregistered unregistered = true
same_state warned warned = true
same_state suspended suspended = true
same_state deleted deleted = true
same_state (Document.unknown s) (Document.unknown t) = s == t
same_state _ _ = false

-- A document that is missing is not an error.
abbrev pub if_found {ℓ} : {A : Type ℓ} → Result A → Result (Option A)
if_found (ok a) = ok (some a)
if_found (err e) = if is_error_status_code e 404 then ok none else err e

-- A document that is missing is the error `missing`.
abbrev pub or_missing {ℓ} : {A : Type ℓ} → Error → Result A → Result A
or_missing missing (ok a) = ok a
or_missing missing (err e) = if is_error_status_code e 404 then err missing else err e

-- the loop over the allowed states
unfoldable pub allow : List SubscriptionState → SubscriptionDocument → Result SubscriptionDocument
unfolding new_cloud_error
allow states d =
    if any (λ s. same_state d.subscription.state s) states
    then ok d
    else err (new_cloud_error 400 "InvalidSubscriptionState" "")

module _ {S : Type 0} (f : Config S) where
  -- validateSubscriptionState
  unfoldable pub validate_subscription_state :
      String → List SubscriptionState → M S SubscriptionDocument
  unfolding allow new_cloud_error
  validate_subscription_state key states = do
    r ← lift (parse_resource_id f.db.parse key)
    found ←
        attempt
          (Subscriptions.get f.db.subscriptions f.db.subscriptions_path f.db.uuid r.subscription_id)
    d ← lift (or_missing (new_cloud_error 400 "InvalidSubscriptionState" "") found)
    lift (allow states d)

  abbrev pub get_cluster : String → M S OpenShiftClusterDocument
  get_cluster key = Clusters.get f.db.clusters f.db.clusters_path f.db.parse f.db.uuid key

  -- Get of a cluster that may be missing
  abbrev pub find_cluster : String → M S (Option OpenShiftClusterDocument)
  find_cluster key = do found ← attempt (get_cluster key); lift (if_found found)

  -- The document of newAsyncOperation, at the time `now`
  unfoldable pub async_operation :
      Request → OpenShiftClusterDocument → String → ℕ → AsyncOperationDocument
  unfolding operations_path
  async_operation r d id now = record {
    id = id;
    metadata = record { resource_id = ""; timestamp = 0; self = ""; etag = ""; attachments = "" };
    async_operation = record {
      id = operations_path f r id;
      name = id;
      initial_provisioning_state = d.open_shift_cluster.properties.provisioning_state;
      provisioning_state = d.open_shift_cluster.properties.provisioning_state;
      start_time = now;
      end_time = none;
      error = none;
    };
    open_shift_cluster_key = d.key;
    open_shift_cluster = none;
  }

  -- newAsyncOperation
  unfoldable pub new_async_operation : Request → OpenShiftClusterDocument → M S String
  unfolding async_operation
  new_async_operation r d w =
      let id = f.new_uuid w.store in
      (do
        x ←
            AsyncOperations.create f.db.operations f.db.operations_path
              (async_operation r d id (f.db.now w.store))
        pure id)
        w
