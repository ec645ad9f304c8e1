-- ===== src/Frontend/Delete.antt =====
-- pkg/frontend/openshiftcluster_delete.go. The headers are not modelled.
use aro_rp.Base.{[], ◌∷◌, if◌then◌else◌}
use aro_rp.Api.Error.{Error, Result, ok, err, status_code, is_error_status_code}
use aro_rp.Api.Cluster.{deleting}
use aro_rp.Api.Document.{OpenShiftClusterDocument, registered, warned, suspended}
use aro_rp.Action.{M, pure, lift, attempt, ◌>>=◌}
use aro_rp.Database.Clusters as Clusters
use aro_rp.Frontend.{Config, Request}
use aro_rp.Frontend.Gate.{
  validate_terminal_provisioning_state, validate_subscription_state, new_async_operation,
}

unfoldable pub mark_deleting : OpenShiftClusterDocument → OpenShiftClusterDocument
mark_deleting d =
    let oc = d.open_shift_cluster in
    record d {
      open_shift_cluster = record oc {
        properties = record oc.properties { provisioning_state = deleting };
      };
      dequeues = 0;
    }

module _ {S : Type 0} (f : Config S) where
  -- _deleteOpenShiftCluster, on the document that Patch read
  unfoldable pub start_delete : Request → OpenShiftClusterDocument → M S OpenShiftClusterDocument
  unfolding mark_deleting validate_terminal_provisioning_state
  start_delete r d = do
    subdoc ← validate_subscription_state f d.key (registered ∷ warned ∷ suspended ∷ [])
    u ←
        lift
          (validate_terminal_provisioning_state d.open_shift_cluster.properties.provisioning_state)
    let d' = mark_deleting d
    id ← new_async_operation f r d'
    u' ← lift (f.parse_url r.referer)
    pure (record d' { async_operation_id = id })

  -- the outcome of deleteOpenShiftCluster: always an error value, which `reply` reads
  abbrev pub outcome : Result OpenShiftClusterDocument → Error
  outcome (ok d) = status_code 202
  outcome (err e) = if is_error_status_code e 404 then status_code 204 else e

  -- deleteOpenShiftCluster
  unfoldable pub delete : Request → M S Error
  unfolding start_delete
  delete r = do
    p ← attempt (
        Clusters.patch f.db.clusters f.db.clusters_path f.db.parse f.db.uuid r.path
          (start_delete r))
    pure (outcome p)
