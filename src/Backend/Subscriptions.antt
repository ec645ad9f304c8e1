-- ===== src/Backend/Subscriptions.antt =====
-- pkg/backend/subscriptions.go
use aro_rp.Base.{
  ℕ, zero, suc, String, Bool, true, false, not, Option, none, some, List, [], ◌∷◌, ◌&&◌, ltb,
  if◌then◌else◌,
}
use Prim.Native.String
use aro_rp.Api.Error.{Result, ok, err, other}
use aro_rp.Api.Cluster.{ProvisioningState, creating, updating, deleting, succeeded, failed}
use aro_rp.Api.Document.{OpenShiftClusterDocument, SubscriptionDocument}
use aro_rp.Action.{M, pure, fail, lift, attempt, ◌>>=◌}
use aro_rp.Cosmos.Client.{Iterator, next, page_calls}
use aro_rp.Cosmos.Retry.{retry_on_precondition_failed}
use aro_rp.Database.Clusters.{cluster_document, list_by_prefix}
use aro_rp.Database.Clusters as Clusters
use aro_rp.Database.Subscriptions.{dequeue, end_lease}
use aro_rp.Backend.{Database, max_dequeue_count}

abbrev pub set_state : ProvisioningState → OpenShiftClusterDocument → OpenShiftClusterDocument
set_state state d =
    let p = record d.open_shift_cluster.properties { provisioning_state = state } in
    record d { open_shift_cluster = record d.open_shift_cluster { properties = p } }

-- The closure of handleDelete, on the document, and whether it leaves `done` as it is.
unfoldable pub start_delete :
    ProvisioningState → OpenShiftClusterDocument → Result (OpenShiftClusterDocument × Bool)
start_delete creating d = ok (d, false)
start_delete updating d = ok (d, false)
start_delete deleting d = ok (d, true)
start_delete succeeded d = ok (set_state deleting d, true)
start_delete failed d = ok (set_state deleting d, true)
start_delete state d = err (other "unexpected provisioningState")

abbrev pub state_of : OpenShiftClusterDocument → ProvisioningState
state_of d = d.open_shift_cluster.properties.provisioning_state

module _ {S : Type 0} (db : Database S) where
  -- One cluster: Patch with the closure, and the closure's flag. Patch sends no If-Match, so that no
  -- attempt fails with 412 and leaves a flag to the next.
  unfoldable pub patch_round : String → M S (OpenShiftClusterDocument × Bool)
  unfolding start_delete retry_on_precondition_failed
  patch_round key = retry_on_precondition_failed (do
    d ← Clusters.get db.clusters db.clusters_path db.parse db.uuid key
    p ← lift (start_delete (state_of d) d)
    x ← Clusters.update_with db.clusters db.clusters_path db.parse db.uuid p.0 none
    pure (x, p.1))

  -- the loop over the clusters of a page
  unfoldable pub delete_clusters : List OpenShiftClusterDocument → Bool → M S Bool
  unfolding patch_round
  delete_clusters [] done = pure done
  delete_clusters (d ∷ ds) done = do p ← patch_round d.key; delete_clusters ds (done && p.1)

  -- what is done with a page; `after` is the rest of the loop
  unfoldable pub delete_page :
      (Iterator → Bool → M S Bool)
      → Bool
      → Option (List OpenShiftClusterDocument) × Iterator
      → M S Bool
  unfolding delete_clusters
  delete_page after done (none, i) = pure done
  delete_page after done (some docs, i) = do done' ← delete_clusters docs done; after i done'

  -- the loop over the pages, over the calls of Next left
  unfoldable pub delete_loop : ℕ → Iterator → Bool → M S Bool
  unfolding delete_page
  delete_loop zero i done = fail (other "too many pages")
  delete_loop (suc n) i done = do
    p ← next cluster_document db.clusters db.clusters_path i
    delete_page (delete_loop n) done p

  abbrev pub prefix_of : String → String
  prefix_of id = String.◌++◌ "/subscriptions/" (String.◌++◌ id "/")

  -- handleDelete
  unfoldable pub handle_delete : SubscriptionDocument → M S Bool
  unfolding delete_loop
  handle_delete d = do
    i ← lift (list_by_prefix db.clusters db.clusters_path db.parse db.uuid d.id (prefix_of d.id))
    delete_loop (page_calls cluster_document db.clusters db.clusters_path i.query) i true

  -- endLease
  unfoldable pub settle : SubscriptionDocument → Bool → Bool → M S (Unit {0})
  settle d done retry = do
    x ← end_lease db.subscriptions db.subscriptions_path db.uuid d.id done retry
    pure tt

  -- handle
  unfoldable pub handle : SubscriptionDocument → M S (Unit {0})
  unfolding handle_delete settle
  handle d = do
    r ← attempt (handle_delete d)
    elim r [ ok done ↦ settle d done (not done) | err e ↦ settle d false false ]

  -- what `try` does with the document that Dequeue gave
  unfoldable pub work : SubscriptionDocument → M S Bool
  unfolding settle handle
  work d =
      if ltb max_dequeue_count d.dequeues
      then (do u ← settle d false true; pure true)
      else (do r ← attempt (handle d); pure true)

  -- try, with the worker's goroutine run to its end
  unfoldable pub try : M S Bool
  unfolding work
  try = do
    found ← dequeue db.subscriptions db.subscriptions_path db.uuid
    elim found [ none ↦ pure false | some d ↦ work d ]
