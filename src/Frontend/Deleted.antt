-- ===== src/Frontend/Deleted.antt =====
-- What a DELETE of a cluster that is accepted has found and has done.
use aro_rp.Base.{ℕ, String, ◌≡◌, ap, true, Option, none, some, [], ◌∷◌, any}
use aro_rp.Api.Error.{ok}
use aro_rp.Api.Cluster.{ProvisioningState, creating, updating, deleting, succeeded, failed, unknown}
use aro_rp.Api.Document.{
  OpenShiftClusterDocument, SubscriptionDocument, SubscriptionState, registered, unregistered,
  warned, suspended, deleted,
}
use aro_rp.Api.Document as Document
use aro_rp.Action.{World, M, pure, lift, ◌>>=◌, bind_ok}
use aro_rp.Cosmos.Service.{IsDocumented}
use aro_rp.Cosmos.Client.{document_path}
use aro_rp.Cosmos.Attempts.{After, After-ok, retry_tried}
use aro_rp.Database.Clusters.{cluster_document, patch, patch_with, patch_once, update_with, get}
use aro_rp.Database.Clusters.Claim.{cluster_view}
use aro_rp.Database.Clusters.Patch.{update_stored}
use aro_rp.Frontend.{Config, Request}
use aro_rp.Frontend.Gate.{
  validate_terminal_provisioning_state, same_state, validate_subscription_state,
  new_async_operation,
}
use aro_rp.Frontend.Allowed.{IsSubscriptionOf, subscription_allowed}
use aro_rp.Frontend.Delete.{mark_deleting, start_delete}

-- The states in which a subscription's clusters may be deleted by a request.
pub data IsOpen : SubscriptionState → Type 0 where
  is_registered : IsOpen registered
  is_warned : IsOpen warned
  is_suspended : IsOpen suspended

-- Nothing is going on with the cluster.
pub data IsTerminal : ProvisioningState → Type 0 where
  is_up : IsTerminal succeeded
  is_down : IsTerminal failed

any-IsOpen :
    (s : SubscriptionState)
    → any (λ t. same_state s t) (registered ∷ warned ∷ suspended ∷ []) ≡ true
    → IsOpen s
any-IsOpen registered e = is_registered
any-IsOpen warned e = is_warned
any-IsOpen suspended e = is_suspended
any-IsOpen unregistered e = cc e
any-IsOpen deleted e = cc e
any-IsOpen (Document.unknown t) e = cc e

validate-IsTerminal :
    (s : ProvisioningState) → validate_terminal_provisioning_state s ≡ ok tt → IsTerminal s
unfolding validate_terminal_provisioning_state
validate-IsTerminal succeeded e = is_up
validate-IsTerminal failed e = is_down
validate-IsTerminal creating e = cc e
validate-IsTerminal updating e = cc e
validate-IsTerminal deleting e = cc e
validate-IsTerminal (unknown s) e = cc e

module _ {S : Type 0} (f : Config S)
    (stored : S → String → String → Option OpenShiftClusterDocument) (clock : S → ℕ)
    (law : IsDocumented cluster_document f.db.clusters (cluster_view stored clock)) where
  -- What the attempt that succeeded, from the world `w` on, has read and stored: `read` under the path
  -- and then its subscription; `x` is stored in place of `read`, the same document, to be deleted.
  pub record IsMarked (r : Request) (w : World S) (s : S) (x : OpenShiftClusterDocument)
      : Type 0 where
    pub read : OpenShiftClusterDocument
    pub looked : World S
    pub got : get f.db.clusters f.db.clusters_path f.db.parse f.db.uuid r.path w ≡ (ok read, looked)
    pub subscription : SubscriptionDocument
    pub after_subscription : World S
    pub found : IsSubscriptionOf f read.key looked subscription after_subscription
    pub is_open : IsOpen subscription.subscription.state
    pub terminal : IsTerminal read.open_shift_cluster.properties.provisioning_state
    pub is_stored : stored s read.partition_key (document_path f.db.clusters_path read.id) ≡ some x
    pub state : x.open_shift_cluster.properties.provisioning_state ≡ deleting
    pub dequeues : x.dequeues ≡ 0
    pub key : x.key ≡ read.key
    pub lease : x.lease_owner ≡ read.lease_owner
    pub cluster_id : x.open_shift_cluster.id ≡ read.open_shift_cluster.id

  -- what the closure of the handler has checked, and what it makes of the document
  started :
      (r : Request) (d : OpenShiftClusterDocument) (w : World S) {x : OpenShiftClusterDocument}
      {w' : World S}
      → start_delete f r d w ≡ (ok x, w')
      → (subdoc : SubscriptionDocument) × (id : String) × (w1 : World S) × IsSubscriptionOf f d.key
          w subdoc w1
        × IsOpen subdoc.subscription.state
        × IsTerminal d.open_shift_cluster.properties.provisioning_state
        × (record (mark_deleting d) { async_operation_id = id } ≡ x)
  unfolding start_delete
  started r d w {x} {w'} e =
      let d' = mark_deleting d in
      let state = d.open_shift_cluster.properties.provisioning_state in
      let last = λ (id : String).
        (lift (f.parse_url r.referer) >>= λ u'.
        pure {S = S} (record d' { async_operation_id = id })) in
      let (subdoc, w1, e0, e1) =
        bind_ok (validate_subscription_state f d.key (registered ∷ warned ∷ suspended ∷ []))
          (λ subdoc. lift (validate_terminal_provisioning_state state) >>= λ u.
            new_async_operation f r d' >>= last)
          w e in
      let (u, w2, terminal, e2) =
        bind_ok (lift (validate_terminal_provisioning_state state))
          (λ u. new_async_operation f r d' >>= last) w1 e1 in
      let (id, w3, _, e3) = bind_ok (new_async_operation f r d') last w2 e2 in
      let (u', w4, _, e4) =
        bind_ok (lift (f.parse_url r.referer)) (λ u'. pure (record d' { async_operation_id = id }))
          w3 e3 in
      let (found, passed) =
        subscription_allowed f d.key (registered ∷ warned ∷ suspended ∷ []) w e0 in
      (
        subdoc,
        id,
        w1,
        found,
        any-IsOpen subdoc.subscription.state passed,
        validate-IsTerminal state (ap (λ p. p.0) terminal),
        cc (ap (λ p. p.0) e4),
      )

  marked :
      (r : Request) (d : OpenShiftClusterDocument) (subdoc : SubscriptionDocument) (id : String)
      (x : OpenShiftClusterDocument) (w0 w1 w2 w w' : World S)
      → get f.db.clusters f.db.clusters_path f.db.parse f.db.uuid r.path w0 ≡ (ok d, w1)
      → IsSubscriptionOf f d.key w1 subdoc w2
      → IsOpen subdoc.subscription.state
      → IsTerminal d.open_shift_cluster.properties.provisioning_state
      → update_with f.db.clusters f.db.clusters_path f.db.parse f.db.uuid
          (record (mark_deleting d) { async_operation_id = id })
          none
          w
        ≡ (ok x, w')
      → IsMarked r w0 w'.store x
  unfolding mark_deleting
  marked r d subdoc id x w0 w1 w2 w w' got found is_open terminal e =
      let (kept, same) =
        update_stored f.db.clusters f.db.clusters_path stored clock law f.db.parse f.db.uuid
          (record (mark_deleting d) { async_operation_id = id }) w e in
      record {
        read = d;
        looked = w1;
        got = got;
        subscription = subdoc;
        after_subscription = w2;
        found = found;
        is_open = is_open;
        terminal = terminal;
        is_stored = kept;
        state = ap (λ d. d.open_shift_cluster.properties.provisioning_state) same;
        dequeues = ap (λ d. d.dequeues) same;
        key = ap (λ d. d.key) same;
        lease = ap (λ d. d.lease_owner) same;
        cluster_id = ap (λ d. d.open_shift_cluster.id) same;
      }

  abbrev pub once : Request → M S OpenShiftClusterDocument
  once r =
      patch_once f.db.clusters f.db.clusters_path f.db.parse f.db.uuid r.path (start_delete f r)
        none

  once-IsMarked :
      (r : Request) (w : World S) {x : OpenShiftClusterDocument} {w' : World S}
      → once r w ≡ (ok x, w')
      → IsMarked r w w'.store x
  unfolding patch_once
  once-IsMarked r w {x} {w'} e =
      let up = λ (d' : OpenShiftClusterDocument).
        update_with f.db.clusters f.db.clusters_path f.db.parse f.db.uuid d' none in
      let (d, w1, got, e1) =
        bind_ok (get f.db.clusters f.db.clusters_path f.db.parse f.db.uuid r.path)
          (λ d. start_delete f r d >>= up) w e in
      let (d', w2, e2, e3) = bind_ok (start_delete f r d) up w1 e1 in
      let (subdoc, id, w3, found, is_open, terminal, same) = started r d w1 e2 in
      marked r d subdoc id x w w1 w3 w2 w' got found is_open terminal (rw (← same) at e3)

  -- The attempts of a DELETE from the world `w` on, and what the last of them has read and stored
  pub record IsDeletion (r : Request) (w : World S) (x : OpenShiftClusterDocument) (w' : World S)
      : Type 0 where
    pub failures : ℕ
    pub begun : World S
    pub tried : After (once r) failures w begun (ok x) w'
    pub marks : IsMarked r begun w'.store x

  -- The Patch behind a DELETE succeeds, and so the answer is 202, only if in the attempt that succeeds,
  -- after attempts that failed with 412, the document read under the path was Succeeded or Failed,
  -- whatever failed, and then the document read of its key's subscription was registered, warned or
  -- suspended. The cluster's document is then stored as Deleting with no dequeues, with the key, the
  -- lease owner and the cluster's ID that were read.
  pub delete-IsDeletion :
      (r : Request) (w : World S) {x : OpenShiftClusterDocument} {w' : World S}
      → patch f.db.clusters f.db.clusters_path f.db.parse f.db.uuid r.path (start_delete f r) w
        ≡ (ok x, w')
      → IsDeletion r w x w'
  unfolding patch patch_with
  delete-IsDeletion r w e =
      let (k, begun, tried) = retry_tried (once r) w e in
      record {
        failures = k;
        begun = begun;
        tried = tried;
        marks = once-IsMarked r begun (After-ok (once r) tried);
      }
