-- ===== src/Frontend/Operations.antt =====
-- pkg/frontend/asyncoperationresult_get.go and asyncoperationsstatus_get.go
use aro_rp.Base.{String, Bool, false, Option, none, some, ◌==◌, if◌then◌else◌}
use aro_rp.Api.Error.{Error, Result, ok, err, status_code, new_cloud_error}
use aro_rp.Api.Cluster.{OpenShiftCluster, unset, without_secret}
use aro_rp.Api.Document.{OpenShiftClusterDocument, AsyncOperation, AsyncOperationDocument}
use aro_rp.Action.{M, pure, fail, lift, attempt, ◌>>=◌}
use aro_rp.Database.AsyncOperations as AsyncOperations
use aro_rp.Frontend.{Config, Version, Request, Answer}
use aro_rp.Frontend.Gate.{find_cluster, or_missing}

abbrev pub not_found : Error
not_found = new_cloud_error 404 "NotFound" ""

-- The cluster's document still names the operation.
unfoldable pub is_running : String → Option OpenShiftClusterDocument → Bool
is_running id none = false
is_running id (some d) = d.async_operation_id == id

-- The operation as it is shown.
unfoldable pub shown : Bool → AsyncOperation → AsyncOperation
shown running o =
    let o' =
      if running
      then record o {
        provisioning_state = o.initial_provisioning_state;
        end_time = none;
        error = none;
      }
      else o in
    record o' { initial_provisioning_state = unset }

module _ {S : Type 0} (f : Config S) where
  -- the two documents that both handlers read
  unfoldable pub read_operation :
      String → M S (AsyncOperationDocument × Option OpenShiftClusterDocument)
  read_operation id = do
    found ← attempt (AsyncOperations.get f.db.operations f.db.operations_path id)
    a ← lift (or_missing not_found found)
    d ← find_cluster f a.open_shift_cluster_key
    pure (a, d)

  -- _getAsyncOperationsStatus, before the answer is encoded
  unfoldable pub get_status : Request → M S AsyncOperation
  unfolding read_operation is_running shown
  get_status r = do
    p ← read_operation r.operation_id
    pure (shown (is_running r.operation_id p.1) p.0.async_operation)

module _ {S E : Type 0} (f : Config S) (version : Version S E) where
  -- the result of an operation that has ended
  unfoldable pub result_of : Option OpenShiftCluster → Result Answer
  unfolding without_secret
  result_of none = err (status_code 204)
  result_of (some oc) = elim (version.marshal (version.to_external (without_secret oc))) [
    | ok b ↦ ok (record { status = 200; body = some b })
    | err e ↦ err e
  ]

  -- _getAsyncOperationResult
  unfoldable pub get_result : Request → M S Answer
  unfolding read_operation is_running result_of
  get_result r = do
    p ← read_operation f r.operation_id
    if is_running r.operation_id p.1
        then fail (status_code 202)
        else lift (result_of p.0.open_shift_cluster)
