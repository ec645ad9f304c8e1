-- ===== src/Frontend/Accepted.antt =====
-- What a PUT or a PATCH of a cluster that is accepted has found and has done.
use mathlib.Core.Path.{subst}
use aro_rp.Base.{ℕ, String, ◌≡◌, ap, ◌⊎◌, inl, inr, Bool, true, false, Option, none, some}
use aro_rp.Api.Error.{ok}
use aro_rp.Api.Cluster.{ProvisioningState, creating, updating, deleting, succeeded, failed, unknown}
use aro_rp.Api.Document.{OpenShiftClusterDocument, SubscriptionDocument, registered}
use aro_rp.Action.{World, pure, lift, ◌>>=◌, bind_ok}
use aro_rp.Cosmos.Service.{IsDocumented}
use aro_rp.Cosmos.Client.{document_path}
use aro_rp.Cosmos.Attempts.{After, After-ok, retry_tried}
use aro_rp.Database.Clusters.{cluster_document, update}
use aro_rp.Database.Clusters.Claim.{cluster_view}
use aro_rp.Database.Clusters.Patch.{update_stored}
use aro_rp.Frontend.{Config, Version, Request, Answer}
use aro_rp.Frontend.Gate.{
  find_cluster, admit, admit_in, validate_terminal_provisioning_state, retry_failed,
  clear_failed_state,
}
use aro_rp.Frontend.Put.{
  read_request, written, change, mark_updated, store, apply, start, is_missing, put_or_patch_once,
  put_or_patch,
}
use aro_rp.Frontend.Allowed.{IsSubscriptionOf}
use aro_rp.Frontend.Applied.{after_change, after_change_ok, render_status, found_applied}

-- A cluster that may be changed: it is up, or the last update of it failed.
pub data IsChangeable : ProvisioningState → ProvisioningState → Type 0 where
  up : {failed_state : ProvisioningState} → IsChangeable succeeded failed_state
  update_failed : IsChangeable failed updating

admit_in-IsChangeable :
    (s fs : ProvisioningState) (d : OpenShiftClusterDocument) {d1 : OpenShiftClusterDocument}
    → admit_in s fs d ≡ ok d1
    → IsChangeable s fs × ((d1 ≡ d) ⊎ (d1 ≡ clear_failed_state d))
unfolding admit_in validate_terminal_provisioning_state retry_failed
admit_in-IsChangeable succeeded fs d e = (up, inl cc)
admit_in-IsChangeable failed updating d e = (update_failed, inr cc)
admit_in-IsChangeable failed creating d e = cc
admit_in-IsChangeable failed deleting d e = cc
admit_in-IsChangeable failed succeeded d e = cc
admit_in-IsChangeable failed failed d e = cc
admit_in-IsChangeable failed (unknown s) d e = cc
admit_in-IsChangeable creating fs d e = cc
admit_in-IsChangeable updating fs d e = cc
admit_in-IsChangeable deleting fs d e = cc
admit_in-IsChangeable (unknown s) fs d e = cc

admit-IsChangeable :
    (d : OpenShiftClusterDocument) {d1 : OpenShiftClusterDocument}
    → admit d ≡ ok d1
    → IsChangeable d.open_shift_cluster.properties.provisioning_state
        d.open_shift_cluster.properties.failed_provisioning_state
      × ((d1 ≡ d) ⊎ (d1 ≡ clear_failed_state d))
unfolding admit
admit-IsChangeable d e =
    admit_in-IsChangeable d.open_shift_cluster.properties.provisioning_state
      d.open_shift_cluster.properties.failed_provisioning_state d e

module _ {S E : Type 0} (f : Config S) (version : Version S E) where
  module _ (stored : S → String → String → Option OpenShiftClusterDocument) (clock : S → ℕ)
      (law : IsDocumented cluster_document f.db.clusters (cluster_view stored clock)) where
    -- The document `d` was replaced by `x`, which is being updated.
    pub record IsUpdated (d : OpenShiftClusterDocument) (s : S) (x : OpenShiftClusterDocument)
        : Type 0 where
      pub is_stored : stored s d.partition_key (document_path f.db.clusters_path d.id) ≡ some x
      pub state : x.open_shift_cluster.properties.provisioning_state ≡ updating
      pub dequeues : x.dequeues ≡ 0
      pub key : x.key ≡ d.key
      pub lease : x.lease_owner ≡ d.lease_owner
      pub id : x.open_shift_cluster.id ≡ d.open_shift_cluster.id
      pub name : x.open_shift_cluster.name ≡ d.open_shift_cluster.name
      pub type : x.open_shift_cluster.type ≡ d.open_shift_cluster.type

    changed :
        (r : Request) (is_create : Bool) (d : OpenShiftClusterDocument) (w : World S)
        {x : OpenShiftClusterDocument} {w' : World S}
        → change f version r is_create d w ≡ (ok x, w')
        → (ext : E) × (written f version is_create d ext ≡ x)
    unfolding change
    changed r is_create d w e =
        let (ext, w1, _, e1) =
          bind_ok (lift (read_request f version r is_create d))
            (λ ext. version.dynamic (written f version is_create d ext).open_shift_cluster >>= λ u.
              pure (written f version is_create d ext))
            w e in
        let (u, w2, _, e2) =
          bind_ok (version.dynamic (written f version is_create d ext).open_shift_cluster)
            (λ u. pure (written f version is_create d ext)) w1 e1 in
        (ext, cc (ap (λ p. p.0) e2))

    stored_update :
        (d : OpenShiftClusterDocument) (ext : E) (id : String) (w : World S)
        {x : OpenShiftClusterDocument} {w' : World S}
        → store f version false
            (record (written f version false d ext) { async_operation_id = id })
            w
          ≡ (ok x, w')
        → IsUpdated d w'.store x
    unfolding store update mark_updated
    stored_update d ext id w e =
        let (kept, same) =
          update_stored f.db.clusters f.db.clusters_path stored clock law f.db.parse f.db.uuid
            (record (written f version false d ext) { async_operation_id = id }) w e in
        record {
          is_stored = kept;
          state = ap (λ d. d.open_shift_cluster.properties.provisioning_state) same;
          dequeues = ap (λ d. d.dequeues) same;
          key = ap (λ d. d.key) same;
          lease = ap (λ d. d.lease_owner) same;
          id = ap (λ d. d.open_shift_cluster.id) same;
          name = ap (λ d. d.open_shift_cluster.name) same;
          type = ap (λ d. d.open_shift_cluster.type) same;
        }

    -- What an accepted request found and did: with no cluster at the path it is answered by 201,
    -- otherwise by 200 and the document found is updated.
    abbrev pub Accepted : Option OpenShiftClusterDocument → Answer → S → Type 0
    Accepted none a s = a.status ≡ 201
    Accepted (some d) a s =
        (a.status ≡ 200)
        × IsChangeable d.open_shift_cluster.properties.provisioning_state
            d.open_shift_cluster.properties.failed_provisioning_state
        × ((x : OpenShiftClusterDocument) × IsUpdated d s x)

    create_accepted :
        (r : Request) (d : OpenShiftClusterDocument) (w : World S) {a : Answer} {w' : World S}
        → apply f version r true d w ≡ (ok a, w')
        → a.status ≡ 201
    unfolding apply
    create_accepted r d w e =
        let (d1, w1, _, e1) =
          bind_ok (change f version r true d) (after_change f version r true) w e in
        let (id, w2, x, e2, rendered) = after_change_ok f version r true d1 w1 e1 in
        render_status f version true x rendered

    moved :
        (d d1 : OpenShiftClusterDocument) (s : S) (x : OpenShiftClusterDocument)
        → (d1 ≡ d) ⊎ (d1 ≡ clear_failed_state d)
        → IsUpdated d1 s x
        → IsUpdated d s x
    moved d d1 s x (inl same) u = subst (λ y. IsUpdated y s x) same u
    moved d d1 s x (inr same) u =
        let v = subst (λ y. IsUpdated y s x) same u in
        record {
          is_stored = v.is_stored;
          state = v.state;
          dequeues = v.dequeues;
          key = v.key;
          lease = v.lease;
          id = v.id;
          name = v.name;
          type = v.type;
        }

    update_applied :
        (r : Request) (d : OpenShiftClusterDocument) (w : World S) {a : Answer} {w' : World S}
        → apply f version r false d w ≡ (ok a, w')
        → (a.status ≡ 200) × ((x : OpenShiftClusterDocument) × IsUpdated d w'.store x)
    unfolding apply
    update_applied r d w {a} {w'} e =
        let (d1, w1, e1, e2) =
          bind_ok (change f version r false d) (after_change f version r false) w e in
        let (ext, same) = changed r false d w e1 in
        let (id, w2, x, e3, rendered) = after_change_ok f version r false d1 w1 e2 in
        (
          render_status f version false x rendered,
          (x, stored_update d ext id w2 (rw (← same) at e3)),
        )

    applied :
        (r : Request) (subdoc : SubscriptionDocument) (found : Option OpenShiftClusterDocument)
        (d0 d : OpenShiftClusterDocument) (w w2 : World S) {a : Answer} {w' : World S}
        → (start f version r subdoc found w).0 ≡ ok d0
        → admit d0 ≡ ok d
        → apply f version r (is_missing f version found) d w2 ≡ (ok a, w')
        → Accepted found a w'.store
    unfolding start
    applied r subdoc none d0 d w w2 e admitted e2 = create_accepted r d w2 e2
    applied r subdoc (some y) d0 d w w2 e admitted e2 =
        let same : y ≡ d0 = cc e in
        let (changeable, cleared) = admit-IsChangeable y (rw (← same) at admitted) in
        let (status, written_as) = update_applied r d w2 e2 in
        let (x, u) = written_as in (status, changeable, (x, moved y d _ x cleared u))

    -- What a request that is answered by `a` has read: in its last attempt, which began in the world
    -- `begun`, the subscription's document and then the cluster's under the path, each from the
    -- world that the step before left.
    pub record IsAccepted (r : Request) (w : World S) (a : Answer) (w' : World S) : Type 0 where
      pub failures : ℕ
      pub begun : World S
      pub tried : After (put_or_patch_once f version r) failures w begun (ok a) w'
      pub subscription : SubscriptionDocument
      pub looked : World S
      pub read : IsSubscriptionOf f r.path begun subscription looked
      pub is_registered : subscription.subscription.state ≡ registered
      pub found : Option OpenShiftClusterDocument
      pub after_found : World S
      pub sought : find_cluster f r.path looked ≡ (ok found, after_found)
      pub accepted : Accepted found a w'.store

    -- A PUT or a PATCH that is accepted read the document of its path's subscription, which was
    -- registered, and then the cluster's document under its path, in the attempt that succeeded, after
    -- attempts that failed with 412. Either there was no cluster and it is answered by 201; or there was
    -- one, which as read was Succeeded, or Failed in an update, and it is answered by 200, and that
    -- document is stored as Updating with no dequeues, with the key, the lease owner, the ID, the name
    -- and the type that were read. The other processes may act before each request of the front end to
    -- the database.
    pub put_or_patch-Accepted :
        (r : Request) (w : World S) {a : Answer} {w' : World S}
        → put_or_patch f version r w ≡ (ok a, w')
        → IsAccepted r w a w'
    unfolding put_or_patch
    put_or_patch-Accepted r w {a} {w'} e =
        let (k, begun, tried) = retry_tried (put_or_patch_once f version r) w e in
        let (subdoc, found, d0, d, w1, w2, w3, read, sought, state, started, admitted, rest) =
          found_applied f version r begun (After-ok (put_or_patch_once f version r) tried) in
        record {
          failures = k;
          begun = begun;
          tried = tried;
          subscription = subdoc;
          looked = w3;
          read = read;
          is_registered = state;
          found = found;
          after_found = w1;
          sought = sought;
          accepted = applied r subdoc found d0 d w1 w2 started admitted rest;
        }
