-- ===== src/Backend/Going.antt =====
-- The deletion of one cluster by handleDelete of pkg/backend/subscriptions.go.
use aro_rp.Base.{
  ℕ, String, ◌≡◌, ◌⊎◌, inl, inr, refl, sym, ◌∙◌, ap, Bool, true, false, Option, none, some,
}
use aro_rp.Api.Error.{Result, ok, err, is_error_status_code}
use aro_rp.Api.Cluster.{ProvisioningState, creating, updating, deleting, succeeded, failed, unknown}
use aro_rp.Api.Document.{OpenShiftClusterDocument}
use aro_rp.Action.{World, pure, lift, ◌>>=◌, bind_ok, failed_with}
use aro_rp.Cosmos.Service.{IsDocumented}
use aro_rp.Cosmos.Client.{document_path}
use aro_rp.Cosmos.Attempts.{retry_once}
use aro_rp.Database.Clusters.{cluster_document, list_by_prefix}
use aro_rp.Database.Clusters as Clusters
use aro_rp.Database.Clusters.Claim.{cluster_view}
use aro_rp.Database.Clusters.Patch.{update_stored, never_get, never_update}
use aro_rp.Cosmos.Unconditional.{never_bind}
use aro_rp.Backend.{Database}
use aro_rp.Backend.Subscriptions.{set_state, start_delete, state_of, patch_round}

-- A document that does not hold up the deletion is to be deleted, and is otherwise the one read.
start_delete_done :
    (s : ProvisioningState) (d x : OpenShiftClusterDocument)
    → state_of d ≡ s
    → start_delete s d ≡ ok (x, true)
    → set_state deleting d ≡ x
unfolding start_delete
start_delete_done creating d x same e = cc e
start_delete_done updating d x same e = cc e
start_delete_done deleting d x same e =
    (λ i. record d {
      open_shift_cluster = record d.open_shift_cluster {
        properties = record d.open_shift_cluster.properties { provisioning_state = sym same i };
      };
    })
    ∙ ap (λ r. document_of r) e
  where
    document_of : Result (OpenShiftClusterDocument × Bool) → OpenShiftClusterDocument
    document_of (ok p) = p.0
    document_of (err y) = d
start_delete_done succeeded d x same e = cc e
start_delete_done failed d x same e = cc e
start_delete_done (unknown t) d x same e = cc e

deletable_state :
    (s : ProvisioningState) (d x : OpenShiftClusterDocument)
    → start_delete s d ≡ ok (x, true)
    → (s ≡ deleting) ⊎ ((s ≡ succeeded) ⊎ (s ≡ failed))
unfolding start_delete
deletable_state creating d x e = cc e
deletable_state updating d x e = cc e
deletable_state deleting d x e = inl refl
deletable_state succeeded d x e = inr (inl refl)
deletable_state failed d x e = inr (inr refl)
deletable_state (unknown t) d x e = cc e

module _ {S : Type 0} (db : Database S)
    (stored : S → String → String → Option OpenShiftClusterDocument) (clock : S → ℕ)
    (law : IsDocumented cluster_document db.clusters (cluster_view stored clock)) where
  -- From the world `w` on, the document under the key of `d` was read, of a cluster that was not being
  -- created or updated, and was stored in its place, in the state `s`, to be deleted.
  pub record IsGoing (d : OpenShiftClusterDocument) (w : World S) (s : S) : Type 0 where
    pub read : OpenShiftClusterDocument
    pub got : (Clusters.get db.clusters db.clusters_path db.parse db.uuid d.key w).0 ≡ ok read
    pub deletable :
        (state_of read ≡ deleting) ⊎ ((state_of read ≡ succeeded) ⊎ (state_of read ≡ failed))
    pub written : OpenShiftClusterDocument
    pub is_stored :
        stored s read.partition_key (document_path db.clusters_path read.id) ≡ some written
    pub state : state_of written ≡ deleting
    pub key : written.key ≡ read.key
    pub dequeues : written.dequeues ≡ read.dequeues

  going :
      (d r x y : OpenShiftClusterDocument) (w w3 w4 : World S)
      → (Clusters.get db.clusters db.clusters_path db.parse db.uuid d.key w).0 ≡ ok r
      → (state_of r ≡ deleting) ⊎ ((state_of r ≡ succeeded) ⊎ (state_of r ≡ failed))
      → set_state deleting r ≡ x
      → Clusters.update_with db.clusters db.clusters_path db.parse db.uuid x none w3 ≡ (ok y, w4)
      → IsGoing d w w4.store
  going d r x y w w3 w4 got deletable marked sent =
      let (kept, content) =
        update_stored db.clusters db.clusters_path stored clock law db.parse db.uuid x w3 sent in
      record {
        read = r;
        got = got;
        deletable = deletable;
        written = y;
        is_stored = rw (← marked) at kept;
        state = ap state_of content ∙ sym (ap state_of marked);
        key = ap (λ d. d.key) content ∙ sym (ap (λ d. d.key) marked);
        dequeues = ap (λ d. d.dequeues) content ∙ sym (ap (λ d. d.dequeues) marked);
      }

  never_start :
      (s : ProvisioningState) (d : OpenShiftClusterDocument)
      → failed_with (start_delete s d) 412 ≡ false
  unfolding start_delete is_error_status_code
  never_start creating d = refl
  never_start updating d = refl
  never_start deleting d = refl
  never_start succeeded d = refl
  never_start failed d = refl
  never_start (unknown t) d = refl

  pub round-IsGoing :
      (d x : OpenShiftClusterDocument) (w w' : World S)
      → patch_round db d.key w ≡ (ok (x, true), w')
      → IsGoing d w w'.store
  unfolding patch_round
  round-IsGoing d x w w' e =
      let update = λ (x : OpenShiftClusterDocument).
        Clusters.update_with db.clusters db.clusters_path db.parse db.uuid x none in
      let put =
        λ (p : OpenShiftClusterDocument × Bool). (update p.0 >>= λ y. pure {S = S} (y, p.1)) in
      let get = Clusters.get db.clusters db.clusters_path db.parse db.uuid d.key in
      let never =
        never_bind get (λ r. lift (start_delete (state_of r) r) >>= put)
          (never_get db.clusters db.clusters_path stored clock law db.parse db.uuid d.key)
          (λ r.
            never_bind (lift (start_delete (state_of r) r)) put (λ w. never_start (state_of r) r)
              (λ p.
                never_bind (update p.0) (λ y. pure (y, p.1))
                  (never_update db.clusters db.clusters_path stored clock law db.parse db.uuid p.0)
                  (λ y w. refl))) in
      let once =
        sym (retry_once (get >>= λ r. lift (start_delete (state_of r) r) >>= put) w (never w))
        ∙ e in
      let (r, w2, found, e1) =
        bind_ok get (λ r. lift (start_delete (state_of r) r) >>= put) w once in
      let (p, w3, started, e2) = bind_ok (lift (start_delete (state_of r) r)) put w2 e1 in
      let (y, w4, sent, e3) = bind_ok (update p.0) (λ y. pure (y, p.1)) w3 e2 in
      let flag : p.1 ≡ true = cc (ap (λ p. p.0) e3) in
      let run = ap (λ p. p.0) started ∙ (λ i. ok (p.0, flag i)) in
      going d r p.0 y w w3 w' (ap (λ p. p.0) found) (deletable_state (state_of r) r p.0 run)
        (start_delete_done (state_of r) r p.0 refl run) (sent ∙ (λ i. (ok y, (e3 i).1)))
