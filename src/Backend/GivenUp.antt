-- ===== src/Backend/GivenUp.antt =====
-- A cluster document that was dequeued too often.
use aro_rp.Base.{ℕ, String, ◌≡◌, refl, ◌<◌, true, ltb, arith, Option}
use aro_rp.Api.Error.{ok}
use aro_rp.Api.Cluster.{failed}
use aro_rp.Api.Document.{OpenShiftClusterDocument}
use aro_rp.Action.{World, pure, ◌>>=◌, bind_ok}
use aro_rp.Cosmos.Service.{IsDocumented}
use aro_rp.Database.Clusters.{cluster_document}
use aro_rp.Database.Clusters.Claim.{cluster_view}
use aro_rp.Backend.{Database, max_dequeue_count}
use aro_rp.Backend.Clusters.{Manager, settle, work}
use aro_rp.Backend.Settled.{IsSettled, settle-IsSettled}

too_often : (n : ℕ) → 5 < n → ltb 5 n ≡ true
too_often n h = ground arith

module _ {S : Type 0} (db : Database S)
    (stored : S → String → String → Option OpenShiftClusterDocument) (clock : S → ℕ)
    (law : IsDocumented cluster_document db.clusters (cluster_view stored clock)) where
  settles :
      (d : OpenShiftClusterDocument) (w w' : World S)
      → (settle db d failed >>= λ u. pure true) w ≡ (ok true, w')
      → IsSettled db stored clock law d failed w w'.store
  settles d w w' e =
      let (u, w1, first, last) = bind_ok (settle db d failed) (λ u. pure true) w e in
      settle-IsSettled db stored clock law d failed w w' (λ i. ((first i).0, end_of first last i))
    where
      end_of :
          {u : Unit {0}} {w1 : World S}
          → settle db d failed w ≡ (ok u, w1)
          → pure true w1 ≡ (ok true, w')
          → (settle db d failed w).1 ≡ w'
      end_of first last = cc (first, last)

  -- A document that was dequeued more than 5 times is not given to the manager: what a worker does
  -- with it is the same for every manager, and if it ends without an error the operation is
  -- brought to Failed, and then the document under the same key, which as read next is this worker's, is
  -- stored as Failed without its lease.
  pub work-IsSettled :
      (d : OpenShiftClusterDocument) (w w' : World S)
      → max_dequeue_count < d.dequeues
      → ((m1 m2 : Manager S) → work db m1 d w ≡ work db m2 d w)
        × ((m : Manager S)
            → work db m d w ≡ (ok true, w')
            → IsSettled db stored clock law d failed w w'.store)
  unfolding work
  work-IsSettled d w w' h = (
    λ m1 m2. rw (work, too_often d.dequeues h) refl,
    λ m e. settles d w w' (rw (work, too_often d.dequeues h) at e),
  )
