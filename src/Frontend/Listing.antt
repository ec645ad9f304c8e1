-- ===== src/Frontend/Listing.antt =====
-- pkg/frontend/openshiftcluster_list.go. `marshal` is ToExternalList and JSON of a version of the API.
use Prim.Native.String
use aro_rp.Base.{ℕ, zero, suc, String, none, some, List, [], ◌++◌, map, ◌==◌, if◌then◌else◌}
use aro_rp.Api.Error.{Result, other}
use aro_rp.Api.Cluster.{OpenShiftCluster, without_secret}
use aro_rp.Api.Document.{OpenShiftClusterDocument}
use aro_rp.Action.{M, pure, fail, lift, ◌>>=◌}
use aro_rp.Cosmos.Client.{Iterator, next, page_calls}
use aro_rp.Database.Clusters.{cluster_document, list_by_prefix}
use aro_rp.Frontend.{Config, Answer}

-- The prefix of the keys that a request lists: of a subscription, or of a resource group in it
unfoldable pub prefix : String → String → String
prefix subscription group =
    let p = String.◌++◌ "/subscriptions/" (String.◌++◌ subscription "/") in
    if group == "" then p else String.◌++◌ p (String.◌++◌ "resourcegroups/" (String.◌++◌ group "/"))

-- the inner loop: a page's clusters without the secrets
abbrev pub shown : List OpenShiftClusterDocument → List OpenShiftCluster
shown ds = map (λ (d : OpenShiftClusterDocument). without_secret d.open_shift_cluster) ds

module _ {S : Type 0} (f : Config S) where
  -- the outer loop, over the calls of Next left
  unfoldable pub collect : ℕ → Iterator → M S (List OpenShiftCluster)
  unfolding without_secret
  collect zero i = fail (other "too many pages")
  collect (suc n) i = do
    p ← next cluster_document f.db.clusters f.db.clusters_path i
    elim p.0 [ none ↦ pure [] | some ds ↦ collect n p.1 >>= λ ocs. pure (shown ds ++ ocs) ]

  -- _getOpenShiftClusters
  unfoldable pub get_clusters :
      (List OpenShiftCluster → Result String) → String → String → M S Answer
  unfolding collect prefix
  get_clusters marshal subscription group = do
    i ← lift (
        list_by_prefix f.db.clusters f.db.clusters_path f.db.parse f.db.uuid subscription
          (prefix subscription group))
    ocs ← collect (page_calls cluster_document f.db.clusters f.db.clusters_path i.query) i
    b ← lift (marshal ocs)
    pure (record { status = 200; body = some b })
