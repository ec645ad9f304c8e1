-- ===== src/Lifecycle.antt =====
-- What the front end makes of a cluster that a worker of the back end is done with: `handle` of
-- pkg/backend/openshiftcluster.go writes the states that _putOrPatchOpenShiftCluster and
-- validateTerminalProvisioningState of pkg/frontend, and handleDelete of
-- pkg/backend/subscriptions.go, go by.
use aro_rp.Base.{ℕ, String, ◌≡◌, refl, ◌⊎◌, inl, inr, true, Option}
use aro_rp.Api.Error.{ok, err, new_cloud_error}
use aro_rp.Api.Cluster.{ProvisioningState, creating, updating, deleting, succeeded, failed}
use aro_rp.Api.Document.{OpenShiftClusterDocument}
use aro_rp.Action.{World}
use aro_rp.Cosmos.Service.{IsDocumented}
use aro_rp.Database.Clusters.{cluster_document}
use aro_rp.Database.Clusters.Claim.{cluster_view}
use aro_rp.Backend.{Database}
use aro_rp.Backend.Clusters.{Manager, handle, failed_state_of}
use aro_rp.Backend.Settled.{
  IsSettled, Done, unopened, gave_up, worked, unfinished, gone, handle-Done,
}
use aro_rp.Backend.Subscriptions.{start_delete, set_state, state_of}
use aro_rp.Frontend.Gate.{
  admit, admit_in, retry_failed, clear_failed_state, validate_terminal_provisioning_state,
}

-- A cluster that a worker has something to do for.
pub data IsPending : ProvisioningState → Type 0 where
  to_create : IsPending creating
  to_update : IsPending updating
  to_delete : IsPending deleting

-- The cluster can be deleted by a request and with its subscription.
pub record IsDeletable (x : OpenShiftClusterDocument) : Type 0 where
  pub by_request : validate_terminal_provisioning_state (state_of x) ≡ ok tt
  pub with_subscription : start_delete (state_of x) x ≡ ok (set_state deleting x, true)

-- The cluster `x`, which was in the state `before` when a worker took it, can be deleted. It can be
-- changed if it is up, or if it was being updated; if its creation or its deletion failed, a change is
-- answered by 400.
pub data IsReady (before : ProvisioningState) (x : OpenShiftClusterDocument) : Type 0 where
  up : IsDeletable x → state_of x ≡ succeeded → admit x ≡ ok x → IsReady before x
  again :
      IsDeletable x
      → state_of x ≡ failed
      → before ≡ updating
      → admit x ≡ ok (clear_failed_state x)
      → IsReady before x
  refused :
      IsDeletable x
      → state_of x ≡ failed
      → (before ≡ creating) ⊎ (before ≡ deleting)
      → admit x ≡ err (new_cloud_error 400 "RequestNotAllowed" "")
      → IsReady before x

deletable_in :
    (s : ProvisioningState) (x : OpenShiftClusterDocument)
    → (s ≡ succeeded) ⊎ (s ≡ failed)
    → (validate_terminal_provisioning_state s ≡ ok tt)
      × (start_delete s x ≡ ok (set_state deleting x, true))
unfolding start_delete validate_terminal_provisioning_state
deletable_in s x (inl e) = rw e (refl, refl)
deletable_in s x (inr e) = rw e (refl, refl)

terminal-IsDeletable :
    (x : OpenShiftClusterDocument)
    → (state_of x ≡ succeeded) ⊎ (state_of x ≡ failed)
    → IsDeletable x
terminal-IsDeletable x h =
    let (request, subscription) = deletable_in (state_of x) x h in
    record { by_request = request; with_subscription = subscription }

admit_at :
    (s fs : ProvisioningState) (x : OpenShiftClusterDocument)
    → state_of x ≡ s
    → x.open_shift_cluster.properties.failed_provisioning_state ≡ fs
    → admit x ≡ admit_in s fs x
unfolding admit
admit_at s fs x in_state failed_in = λ i. admit_in (in_state i) (failed_in i) x

up-IsReady :
    (before : ProvisioningState) (x : OpenShiftClusterDocument)
    → state_of x ≡ succeeded
    → IsReady before x
unfolding admit_in validate_terminal_provisioning_state
up-IsReady before x e =
    up (terminal-IsDeletable x (inl e)) e
      (admit_at succeeded x.open_shift_cluster.properties.failed_provisioning_state x e refl)

failed-IsReady :
    (before : ProvisioningState) (x : OpenShiftClusterDocument)
    → IsPending before
    → state_of x ≡ failed
    → x.open_shift_cluster.properties.failed_provisioning_state ≡ before
    → IsReady before x
unfolding admit_in validate_terminal_provisioning_state retry_failed
failed-IsReady before x to_create e f =
    refused (terminal-IsDeletable x (inr e)) e (inl refl) (admit_at failed creating x e f)
failed-IsReady before x to_update e f =
    again (terminal-IsDeletable x (inr e)) e refl (admit_at failed updating x e f)
failed-IsReady before x to_delete e f =
    refused (terminal-IsDeletable x (inr e)) e (inr refl) (admit_at failed deleting x e f)

module _ {S : Type 0} (db : Database S)
    (stored : S → String → String → Option OpenShiftClusterDocument) (clock : S → ℕ)
    (law : IsDocumented cluster_document db.clusters (cluster_view stored clock))
    (manager : Manager S) where
  -- What a worker that is done has left is ready, unless it has deleted the document.
  abbrev pub LeavesReady :
      (d : OpenShiftClusterDocument) (before : ProvisioningState) (w w' : World S)
      → Done db stored clock law manager d before w w'
      → Type 0
  LeavesReady d before w w' (unopened _ s) = IsReady before s.stored_document
  LeavesReady d before w w' (gave_up _ _ _ s) = IsReady before s.stored_document
  LeavesReady d before w w' (worked _ _ _ _ s) = IsReady before s.stored_document
  LeavesReady d before w w' (unfinished _ _ _ _ s) = IsReady before s.stored_document
  LeavesReady d before w w' (gone _ is_deleting _ _ _) = before ≡ deleting

  failed_settled :
      (d : OpenShiftClusterDocument) (w : World S) (s : S)
      → IsPending (state_of d)
      → (h : IsSettled db stored clock law d failed w s) → IsReady (state_of d) h.stored_document
  unfolding failed_state_of
  failed_settled d w s pending h =
      failed-IsReady (state_of d) h.stored_document pending h.finished.in_state h.finished.failed_in

  ready :
      (d : OpenShiftClusterDocument) (w w' : World S)
      → IsPending (state_of d)
      → (h : Done db stored clock law manager d (state_of d) w w')
      → LeavesReady d (state_of d) w w' h
  ready d w w' pending (unopened _ s) = failed_settled d _ w'.store pending s
  ready d w w' pending (gave_up _ _ _ s) = failed_settled d _ w'.store pending s
  ready d w w' pending (worked _ _ _ _ s) =
      up-IsReady (state_of d) s.stored_document s.finished.in_state
  ready d w w' pending (unfinished _ _ _ _ s) = failed_settled d _ w'.store pending s
  ready d w w' pending (gone _ is_deleting _ _ _) = is_deleting

  -- A worker that was given a cluster to create, update or delete, and whose `handle` returns without
  -- an error, has deleted the document of a cluster that was to be deleted, or has left a document that
  -- the other parts know what to do with. A DELETE of it passes the check of its state, and the
  -- deletion of its subscription sets it to Deleting and is not held up by it. A PUT or a PATCH of it
  -- is admitted if it succeeded, or if its update failed, which is then forgotten; it is answered by 400
  -- RequestNotAllowed if its creation or its deletion failed, and never by an internal error.
  pub handle-LeavesReady :
      (d : OpenShiftClusterDocument) (w w' : World S)
      → IsPending d.open_shift_cluster.properties.provisioning_state
      → handle db manager d w ≡ (ok tt, w')
      → (h : Done db stored clock law manager d d.open_shift_cluster.properties.provisioning_state w
          w')
        × LeavesReady d d.open_shift_cluster.properties.provisioning_state w w' h
  handle-LeavesReady d w w' pending e =
      let h = handle-Done db stored clock law manager d w w' e in (h, ready d w w' pending h)
