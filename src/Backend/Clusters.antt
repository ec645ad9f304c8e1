-- ===== src/Backend/Clusters.antt =====
-- pkg/backend/openshiftcluster.go. The heartbeat, which renews the lease from another goroutine
-- until it is stopped, is one of the other processes. The manager's operations are parameters.
use aro_rp.Base.{ℕ, String, Bool, true, false, Option, none, some, ◌==◌, ltb, if◌then◌else◌}
use aro_rp.Api.Error.{CloudError, Result, ok, err, other}
use aro_rp.Api.Cluster.{
  ProvisioningState, creating, updating, deleting, succeeded, failed, unset, OpenShiftCluster,
}
use aro_rp.Api.Document.{OpenShiftClusterDocument, AsyncOperationDocument}
use aro_rp.Action.{M, pure, fail, attempt, ◌>>=◌}
use aro_rp.Database.Clusters.{dequeue, end_lease, delete}
use aro_rp.Database.AsyncOperations.{patch}
use aro_rp.Backend.{Database, max_dequeue_count}

-- openshiftcluster.NewManager and the manager's Create, Update and Delete
pub record Manager (S : Type 0) : Type 0 where
  pub open_manager : OpenShiftClusterDocument → M S (Unit {0})
  pub create : OpenShiftClusterDocument → M S (Unit {0})
  pub update : OpenShiftClusterDocument → M S (Unit {0})
  pub delete : OpenShiftClusterDocument → M S (Unit {0})

-- The body of the error that a failed operation shows.
abbrev pub internal_server_error : CloudError
internal_server_error = record { status_code = 0; code = "InternalServerError"; target = "" }

-- ocCopy
unfoldable pub with_states :
    ProvisioningState → ProvisioningState → OpenShiftCluster → OpenShiftCluster
with_states state failed_state oc = record oc {
  properties = record oc.properties {
    provisioning_state = state;
    failed_provisioning_state = failed_state;
  };
}

-- The closure of updateAsyncOperation, on the document, at the time `now`.
unfoldable pub concluded :
    Option OpenShiftCluster
    → ProvisioningState
    → ProvisioningState
    → ℕ
    → AsyncOperationDocument
    → AsyncOperationDocument
unfolding with_states
concluded oc state failed_state now d =
    let e : Option CloudError = elim state [
      | failed ↦ some internal_server_error
      | _ ↦ d.async_operation.error
    ] in
    record d {
      async_operation = record d.async_operation {
        provisioning_state = state;
        end_time = some now;
        error = e;
      };
      open_shift_cluster = elim oc [
        | none ↦ d.open_shift_cluster
        | some c ↦ some (with_states state failed_state c)
      ];
    }

-- the failedProvisioningState of endLease
unfoldable pub failed_state_of : ProvisioningState → ProvisioningState → ProvisioningState
failed_state_of failed before = before
failed_state_of state before = unset

module _ {S : Type 0} (db : Database S) where
  -- updateAsyncOperation
  unfoldable pub update_async_operation :
      String → Option OpenShiftCluster → ProvisioningState → ProvisioningState → M S (Unit {0})
  unfolding concluded
  update_async_operation id oc state failed_state = if id == "" then pure tt else (do
    d ←
        patch db.operations db.operations_path id
          (λ d w. (ok (concluded oc state failed_state (db.now w.store) d), w))
    pure tt)

  -- endLease
  unfoldable pub settle : OpenShiftClusterDocument → ProvisioningState → M S (Unit {0})
  unfolding update_async_operation failed_state_of
  settle d state = do
    let failed_state = failed_state_of state d.open_shift_cluster.properties.provisioning_state
    u ← update_async_operation d.async_operation_id (some d.open_shift_cluster) state failed_state
    x ← end_lease db.clusters db.clusters_path db.parse db.uuid d.key state failed_state
    pure tt

  module _ (manager : Manager S) where
    -- the case ProvisioningStateDeleting of `handle`, once the manager has deleted the cluster
    unfoldable pub finish_delete : OpenShiftClusterDocument → M S (Unit {0})
    unfolding update_async_operation settle
    finish_delete d = do
      r ← attempt (update_async_operation d.async_operation_id none succeeded unset)
      elim r [
        | ok _ ↦ delete db.clusters db.clusters_path db.parse db.uuid d
        | err e ↦ settle d failed
      ]

    -- what is done after an operation of the manager
    abbrev pub conclude :
        OpenShiftClusterDocument → M S (Unit {0}) → Result (Unit {0}) → M S (Unit {0})
    conclude d done (ok _) = done
    conclude d done (err e) = settle d failed

    -- the switch of `handle`
    unfoldable pub handle_state : ProvisioningState → OpenShiftClusterDocument → M S (Unit {0})
    unfolding settle finish_delete
    handle_state creating d = do r ← attempt (manager.create d); conclude d (settle d succeeded) r
    handle_state updating d = do r ← attempt (manager.update d); conclude d (settle d succeeded) r
    handle_state deleting d = do r ← attempt (manager.delete d); conclude d (finish_delete d) r
    handle_state state d = fail (other "unexpected provisioningState")

    -- handle
    unfoldable pub handle : OpenShiftClusterDocument → M S (Unit {0})
    unfolding settle handle_state
    handle d = do
      r ← attempt (manager.open_manager d)
      conclude d (handle_state d.open_shift_cluster.properties.provisioning_state d) r

    -- The document that Dequeue gave to `try`: failed, or handled. A worker logs what `handle`
    -- returns.
    unfoldable pub work : OpenShiftClusterDocument → M S Bool
    unfolding settle handle
    work d =
        if ltb max_dequeue_count d.dequeues
        then (do u ← settle d failed; pure true)
        else (do r ← attempt (handle d); pure true)

    -- try, with the worker's goroutine run to its end
    unfoldable pub try : M S Bool
    unfolding work
    try = do
      found ← dequeue db.clusters db.clusters_path db.parse db.uuid
      elim found [ none ↦ pure false | some d ↦ work d ]
