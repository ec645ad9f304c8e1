-- ===== src/Frontend/Read.antt =====
-- pkg/frontend/openshiftcluster_get.go, openshiftclustercredentials_post.go, and `reply` of
-- pkg/frontend/frontend.go.
use aro_rp.Base.{ℕ, String, none, some, [], ◌∷◌}
use aro_rp.Api.Error.{Error, cloud, status_code, Result, ok, err, new_cloud_error}
use aro_rp.Api.Cluster.{ProvisioningState, creating, OpenShiftCluster, without_secret}
use aro_rp.Api.Document.{registered}
use aro_rp.Action.{M, pure, lift, attempt, ◌>>=◌}
use aro_rp.Frontend.{Config, Version, Request, Answer}
use aro_rp.Frontend.Gate.{validate_subscription_state, get_cluster, or_missing}

abbrev pub resource_not_found : Error
resource_not_found = new_cloud_error 404 "ResourceNotFound" ""

-- What `reply` writes: the status, and the body if one is written. `error_body` is the text of an
-- error, by its status and code.
unfoldable pub reply : (ℕ → String → String) → Result Answer → Answer
reply error_body (ok a) = a
reply error_body (err (cloud e)) = record {
  status = e.status_code;
  body = some (error_body e.status_code e.code);
}
reply error_body (err (status_code s)) = record { status = s; body = none }
reply error_body (err e) = record {
  status = 500;
  body = some (error_body 500 "InternalServerError");
}

-- Credentials are refused while the cluster is being created.
unfoldable pub refuse_creating : ProvisioningState → Result (Unit {0})
unfolding new_cloud_error
refuse_creating creating = err (new_cloud_error 400 "RequestNotAllowed" "")
refuse_creating state = ok tt

module _ {S E : Type 0} (f : Config S) (version : Version S E) where
  -- _getOpenShiftCluster
  unfoldable pub get : Request → M S Answer
  unfolding without_secret
  get r = do
    found ← attempt (get_cluster f r.path)
    d ← lift (or_missing resource_not_found found)
    b ← lift (version.marshal (version.to_external (without_secret d.open_shift_cluster)))
    pure (record { status = 200; body = some b })

module _ {S : Type 0} (f : Config S) (credentials : OpenShiftCluster → Result String) where
  -- _postOpenShiftClusterCredentials; `credentials` is its converter and JSON
  unfoldable pub post_credentials : Request → M S Answer
  unfolding without_secret refuse_creating
  post_credentials r = do
    subdoc ← validate_subscription_state f r.path (registered ∷ [])
    found ← attempt (get_cluster f r.path)
    d ← lift (or_missing resource_not_found found)
    u ← lift (refuse_creating d.open_shift_cluster.properties.provisioning_state)
    b ← lift (credentials (without_secret d.open_shift_cluster))
    pure (record { status = 200; body = some b })
