-- ===== src/Backend/Settled.antt =====
-- What a worker leaves behind when it is done with a cluster document.
use aro_rp.Base.{ℕ, String, ◌≡◌, refl, ◌∙◌, ◌⊎◌, inl, inr, Option, none, some}
use aro_rp.Api.Error.{Error, Result, ok, err}
use aro_rp.Api.Cluster.{
  ProvisioningState, creating, updating, deleting, succeeded, failed, unknown, unset,
}
use aro_rp.Api.Document.{OpenShiftClusterDocument}
use aro_rp.Action.{World, M, pure, attempt, ◌>>=◌, bind_ok}
use aro_rp.Cosmos.Service.{IsDocumented}
use aro_rp.Database.Clusters.{cluster_document, end_lease, delete}
use aro_rp.Database.Clusters.Claim.{cluster_view}
use aro_rp.Database.Clusters.Patch.{IsEnded, end_lease-IsEnded}
use aro_rp.Backend.{Database}
use aro_rp.Backend.Clusters.{
  Manager, failed_state_of, update_async_operation, settle, finish_delete, conclude, handle_state,
  handle,
}

module _ {S : Type 0} (db : Database S)
    (stored : S → String → String → Option OpenShiftClusterDocument) (clock : S → ℕ)
    (law : IsDocumented cluster_document db.clusters (cluster_view stored clock)) where
  -- From the world `w` on, the operation of `d` was brought to `state`, and then the document under
  -- the key of `d`, as it was read next, was this process's and was stored without its lease and in that
  -- state, which is the last thing that was done.
  pub record IsSettled (d : OpenShiftClusterDocument) (state : ProvisioningState) (w : World S)
      (s : S) : Type 0 where
    pub between : World S
    pub concluded :
        update_async_operation db d.async_operation_id
          (some d.open_shift_cluster)
          state
          (failed_state_of state d.open_shift_cluster.properties.provisioning_state)
          w
        ≡ (ok tt, between)
    pub stored_document : OpenShiftClusterDocument
    pub finished :
        IsEnded db.clusters db.clusters_path stored clock law db.parse db.uuid state
          (failed_state_of state d.open_shift_cluster.properties.provisioning_state)
          d.key
          between
          s
          stored_document

  pub settle-IsSettled :
      (d : OpenShiftClusterDocument) (state : ProvisioningState) (w w' : World S)
      → settle db d state w ≡ (ok tt, w')
      → IsSettled d state w w'.store
  unfolding settle
  settle-IsSettled d state w w' e =
      let fs = failed_state_of state d.open_shift_cluster.properties.provisioning_state in
      let stop = λ (u : Unit {0}).
        (end_lease db.clusters db.clusters_path db.parse db.uuid d.key state fs >>= λ x.
        pure {A = Unit {0}} tt) in
      let (u, w1, first, e1) =
        bind_ok
          (update_async_operation db d.async_operation_id (some d.open_shift_cluster) state fs) stop
          w e in
      let (x, w2, second, e2) =
        bind_ok (end_lease db.clusters db.clusters_path db.parse db.uuid d.key state fs)
          (λ x. pure tt) w1 e1 in
      record {
        between = w1;
        concluded = first;
        stored_document = x;
        finished =
            end_lease-IsEnded db.clusters db.clusters_path stored clock law db.parse db.uuid d.key
              state fs w1 (second ∙ (λ i. (ok x, (e2 i).1)));
      }

  module _ (manager : Manager S) where
    -- The manager's operation for a state, if a worker has something to do in it
    abbrev pub operation : ProvisioningState → Option (OpenShiftClusterDocument → M S (Unit {0}))
    operation creating = some manager.create
    operation updating = some manager.update
    operation deleting = some manager.delete
    operation state = none

    -- How a worker that began in the world `w` may be done with a document that was in `state`, in the
    -- world `w'`. Each step is run in the world that the one before it left.
    pub data Done (d : OpenShiftClusterDocument) (state : ProvisioningState) (w w' : World S)
        : Type 0 where
      -- no manager could be made
      unopened :
          {w1 : World S} {e : Error}
          → manager.open_manager d w ≡ (err e, w1)
          → IsSettled d failed w1 w'.store
          → Done d state w w'
      -- the manager's operation failed
      gave_up :
          {w1 w2 : World S} {e : Error} {m : OpenShiftClusterDocument → M S (Unit {0})}
          → manager.open_manager d w ≡ (ok tt, w1)
          → operation state ≡ some m
          → m d w1 ≡ (err e, w2)
          → IsSettled d failed w2 w'.store
          → Done d state w w'
      -- a creation or an update succeeded
      worked :
          {w1 w2 : World S} {m : OpenShiftClusterDocument → M S (Unit {0})}
          → manager.open_manager d w ≡ (ok tt, w1)
          → (state ≡ creating) ⊎ (state ≡ updating)
          → operation state ≡ some m
          → m d w1 ≡ (ok tt, w2)
          → IsSettled d succeeded w2 w'.store
          → Done d state w w'
      -- a deletion succeeded, but its operation could not be brought to Succeeded
      unfinished :
          {w1 w2 w3 : World S} {e : Error}
          → manager.open_manager d w ≡ (ok tt, w1)
          → state ≡ deleting
          → manager.delete d w1 ≡ (ok tt, w2)
          → update_async_operation db d.async_operation_id none succeeded unset w2 ≡ (err e, w3)
          → IsSettled d failed w3 w'.store
          → Done d state w w'
      -- a deletion succeeded, its operation was brought to Succeeded and the document deleted
      gone :
          {w1 w2 w3 : World S}
          → manager.open_manager d w ≡ (ok tt, w1)
          → state ≡ deleting
          → manager.delete d w1 ≡ (ok tt, w2)
          → update_async_operation db d.async_operation_id none succeeded unset w2 ≡ (ok tt, w3)
          → delete db.clusters db.clusters_path db.parse db.uuid d w3 ≡ (ok tt, w')
          → Done d state w w'

    -- The manager's operation `m` ends: either `done` follows, or the cluster is settled as failed.
    concluded_by :
        (d : OpenShiftClusterDocument) (m done : M S (Unit {0})) (w w' : World S)
        → (attempt m >>= λ r. conclude db manager d done r) w ≡ (ok tt, w')
        → ((e : Error) × (w1 : World S) × (m w ≡ (err e, w1)) × IsSettled d failed w1 w'.store)
          ⊎ ((w1 : World S) × (m w ≡ (ok tt, w1)) × (done w1 ≡ (ok tt, w')))
    concluded_by d m done w w' e = by_result (m w).0 (m w).1 refl e
      where
        by_result :
            (r : Result (Unit {0})) (w1 : World S)
            → m w ≡ (r, w1)
            → conclude db manager d done r w1 ≡ (ok tt, w')
            → ((e : Error) × (w1 : World S) × (m w ≡ (err e, w1)) × IsSettled d failed w1 w'.store)
              ⊎ ((w1 : World S) × (m w ≡ (ok tt, w1)) × (done w1 ≡ (ok tt, w')))
        by_result (ok u) w1 same e = inr (w1, same, e)
        by_result (err x) w1 same e = inl (x, w1, same, settle-IsSettled d failed w1 w' e)

    finish_delete-Done :
        (d : OpenShiftClusterDocument) (w w1 w2 w' : World S)
        → manager.open_manager d w ≡ (ok tt, w1)
        → manager.delete d w1 ≡ (ok tt, w2)
        → finish_delete db manager d w2 ≡ (ok tt, w')
        → Done d deleting w w'
    unfolding finish_delete
    finish_delete-Done d w w1 w2 w' opened did e = by_result (m w2).0 (m w2).1 refl e
      where
        m : M S (Unit {0})
        m = update_async_operation db d.async_operation_id none succeeded unset

        by_result :
            (r : Result (Unit {0})) (w3 : World S)
            → update_async_operation db d.async_operation_id none succeeded unset w2 ≡ (r, w3)
            → (elim r as (λ _. M S (Unit {0})) [
              | ok _ ↦ delete db.clusters db.clusters_path db.parse db.uuid d
              | err e ↦ settle db d failed
            ])
                w3
              ≡ (ok tt, w')
            → Done d deleting w w'
        by_result (ok u) w3 same e = gone opened refl did same e
        by_result (err x) w3 same e =
            unfinished opened refl did same (settle-IsSettled d failed w3 w' e)

    handle_state-Done :
        (state : ProvisioningState) (d : OpenShiftClusterDocument) (w w1 w' : World S)
        → manager.open_manager d w ≡ (ok tt, w1)
        → handle_state db manager state d w1 ≡ (ok tt, w')
        → Done d state w w'
    unfolding handle_state
    handle_state-Done creating d w w1 w' opened e =
        elim (concluded_by d (manager.create d) (settle db d succeeded) w1 w' e) [
          | inl (x, w2, did, f) ↦ gave_up opened refl did f
          | inr (w2, did, s) ↦
              worked opened (inl refl) refl did (settle-IsSettled d succeeded w2 w' s)
        ]
    handle_state-Done updating d w w1 w' opened e =
        elim (concluded_by d (manager.update d) (settle db d succeeded) w1 w' e) [
          | inl (x, w2, did, f) ↦ gave_up opened refl did f
          | inr (w2, did, s) ↦
              worked opened (inr refl) refl did (settle-IsSettled d succeeded w2 w' s)
        ]
    handle_state-Done deleting d w w1 w' opened e =
        elim (concluded_by d (manager.delete d) (finish_delete db manager d) w1 w' e) [
          | inl (x, w2, did, f) ↦ gave_up opened refl did f
          | inr (w2, did, s) ↦ finish_delete-Done d w w1 w2 w' opened did s
        ]
    handle_state-Done succeeded d w w1 w' opened e = cc e
    handle_state-Done failed d w w1 w' opened e = cc e
    handle_state-Done (unknown s) d w w1 w' opened e = cc e

    pub handle-Done :
        (d : OpenShiftClusterDocument) (w w' : World S)
        → handle db manager d w ≡ (ok tt, w')
        → Done d d.open_shift_cluster.properties.provisioning_state w w'
    unfolding handle
    handle-Done d w w' e =
        let state = d.open_shift_cluster.properties.provisioning_state in
        elim (concluded_by d (manager.open_manager d) (handle_state db manager state d) w w' e) [
          | inl (x, w1, opened, f) ↦ unopened opened f
          | inr (w1, opened, s) ↦ handle_state-Done state d w w1 w' opened s
        ]
