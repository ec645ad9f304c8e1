-- ===== src/Backend/Sweep.antt =====
-- What handleDelete of pkg/backend/subscriptions.go has found and done when it says that it is done.
use mathlib.Core.Path.{subst}
use aro_rp.Base.{
  ℕ, zero, suc, String, ◌≡◌, refl, sym, ◌∙◌, ap, Bool, true, false, ◌&&◌, Option, none, some, List,
  [], ◌∷◌,
}
use aro_rp.Api.Error.{ok}
use aro_rp.Api.Document.{OpenShiftClusterDocument, SubscriptionDocument}
use aro_rp.Action.{World, M, lift, bind_ok}
use aro_rp.Cosmos.Service.{IsDocumented}
use aro_rp.Cosmos.Client.{Iterator, next, page_calls}
use aro_rp.Database.Clusters.{cluster_document, list_by_prefix}
use aro_rp.Database.Clusters.Claim.{cluster_view}
use aro_rp.Backend.{Database}
use aro_rp.Backend.Subscriptions.{
  patch_round, delete_clusters, delete_page, delete_loop, prefix_of, handle_delete,
}
use aro_rp.Backend.Going.{IsGoing, round-IsGoing}

and_true : (a b : Bool) → (a && b) ≡ true → (a ≡ true) × (b ≡ true)
and_true true b e = (refl, e)
and_true false b e = cc e

module _ {S : Type 0} (db : Database S)
    (stored : S → String → String → Option OpenShiftClusterDocument) (clock : S → ℕ)
    (law : IsDocumented cluster_document db.clusters (cluster_view stored clock)) where
  clusters_step :
      (d : OpenShiftClusterDocument) (ds : List OpenShiftClusterDocument) (done : Bool)
      (w w' : World S)
      → delete_clusters db (d ∷ ds) done w ≡ (ok true, w')
      → (x : OpenShiftClusterDocument) × (flag : Bool) × (w1 : World S) × (patch_round db d.key w
          ≡ (ok (x, flag), w1))
        × (delete_clusters db ds (done && flag) w1 ≡ (ok true, w'))
  unfolding delete_clusters
  clusters_step d ds done w w' e =
      let (p, w1, first, rest) =
        bind_ok (patch_round db d.key) (λ p. delete_clusters db ds (done && p.1)) w e in
      (p.0, p.1, w1, first, rest)

  clusters_end :
      (done : Bool) (w w' : World S)
      → delete_clusters db [] done w ≡ (ok true, w')
      → (done ≡ true) × (w ≡ w')
  unfolding delete_clusters
  clusters_end done w w' e = (cc (ap (λ p. p.0) e), ap (λ p. p.1) e)

  -- The clusters of a list are gone through in order, each from the world that the one before left, and
  -- each is going.
  pub data AreGoing : List OpenShiftClusterDocument → World S → World S → Type 0 where
    none_left : {w w' : World S} → w ≡ w' → AreGoing [] w w'
    one_more :
        {d : OpenShiftClusterDocument} {ds : List OpenShiftClusterDocument} {w w1 w' : World S}
        → IsGoing db stored clock law d w w1.store
        → AreGoing ds w1 w'
        → AreGoing (d ∷ ds) w w'

  clusters-AreGoing :
      (ds : List OpenShiftClusterDocument) (done : Bool) (w w' : World S)
      → delete_clusters db ds done w ≡ (ok true, w')
      → (done ≡ true) × AreGoing ds w w'
  clusters-AreGoing [] done w w' e =
      let (was, same) = clusters_end done w w' e in (was, none_left same)
  clusters-AreGoing (d ∷ ds) done w w' e =
      let (x, flag, w1, first, rest) = clusters_step d ds done w w' e in
      let (both, later) = clusters-AreGoing ds (done && flag) w1 w' rest in
      let (was, now) = and_true done flag both in
      (
        was,
        one_more (round-IsGoing db stored clock law d x w w1 (first ∙ (λ i. (ok (x, now i), w1))))
            later,
      )

  -- The pages from an iterator and a world on, to the last one and the world `w'`; every document on
  -- them is going.
  pub data IsSwept : Iterator → World S → World S → Type 0 where
    last :
        (i i' : Iterator) (w w' : World S)
        → next cluster_document db.clusters db.clusters_path i w ≡ (ok (none, i'), w')
        → IsSwept i w w'
    page :
        (i i' : Iterator) (docs : List OpenShiftClusterDocument) (w w1 w2 w' : World S)
        → next cluster_document db.clusters db.clusters_path i w ≡ (ok (some docs, i'), w1)
        → AreGoing docs w1 w2
        → IsSwept i' w2 w'
        → IsSwept i w w'

  page_step :
      (after : Iterator → Bool → M S Bool) (done : Bool) (docs : List OpenShiftClusterDocument)
      (i : Iterator) (w w' : World S)
      → delete_page db after done (some docs, i) w ≡ (ok true, w')
      → (done' : Bool) × (w1 : World S) × (delete_clusters db docs done w ≡ (ok done', w1))
        × (after i done' w1 ≡ (ok true, w'))
  unfolding delete_page
  page_step after done docs i w w' e = bind_ok (delete_clusters db docs done) (λ b. after i b) w e

  page_end :
      (after : Iterator → Bool → M S Bool) (done : Bool) (i : Iterator) (w w' : World S)
      → delete_page db after done (none, i) w ≡ (ok true, w')
      → (done ≡ true) × (w ≡ w')
  unfolding delete_page
  page_end after done i w w' e = (cc (ap (λ p. p.0) e), ap (λ p. p.1) e)

  loop_step :
      (n : ℕ) (i : Iterator) (done : Bool) (w w' : World S)
      → delete_loop db (suc n) i done w ≡ (ok true, w')
      → (p : Option (List OpenShiftClusterDocument) × Iterator) × (w1 : World S) × (next
            cluster_document db.clusters db.clusters_path i w
          ≡ (ok p, w1))
        × (delete_page db (delete_loop db n) done p w1 ≡ (ok true, w'))
  unfolding delete_loop
  loop_step n i done w w' e =
      bind_ok (next cluster_document db.clusters db.clusters_path i)
        (λ p. delete_page db (delete_loop db n) done p) w e

  loop_end :
      {A : Type 0} (i : Iterator) (done : Bool) (w w' : World S)
      → delete_loop db 0 i done w ≡ (ok true, w')
      → A
  unfolding delete_loop
  loop_end i done w w' e = cc e

  page-IsSwept :
      (after : Iterator → Bool → M S Bool) (i : Iterator) (done : Bool) (w w1 w' : World S)
      → ((i : Iterator) (done : Bool) (w : World S)
          → after i done w ≡ (ok true, w')
          → (done ≡ true) × IsSwept i w w')
      → (p : Option (List OpenShiftClusterDocument) × Iterator)
      → next cluster_document db.clusters db.clusters_path i w ≡ (ok p, w1)
      → delete_page db after done p w1 ≡ (ok true, w')
      → (done ≡ true) × IsSwept i w w'
  page-IsSwept after i done w w1 w' rest (none, i') asked e =
      let (was, same) = page_end after done i' w1 w' e in
      (was, last i i' w w' (asked ∙ (λ k. (ok (none, i'), same k))))
  page-IsSwept after i done w w1 w' rest (some docs, i') asked e =
      let (done', w2, swept, later) = page_step after done docs i' w1 w' e in
      let (now, more) = rest i' done' w2 later in
      let (was, going) = clusters-AreGoing docs done w1 w2 (swept ∙ (λ k. (ok (now k), w2))) in
      (was, page i i' docs w w1 w2 w' asked going more)

  loop-IsSwept :
      (w' : World S) (n : ℕ) (i : Iterator) (done : Bool) (w : World S)
      → delete_loop db n i done w ≡ (ok true, w')
      → (done ≡ true) × IsSwept i w w'
  loop-IsSwept w' zero i done w e = loop_end i done w w' e
  loop-IsSwept w' (suc n) i done w e =
      let (p, w1, asked, e1) = loop_step n i done w w' e in
      page-IsSwept (delete_loop db n) i done w w1 w' (loop-IsSwept w' n) p asked e1

  -- If handleDelete says that it is done, it went through all the pages of the list of the
  -- subscription's clusters, one request after the other, and each cluster on them was, when its turn
  -- came, read as Deleting, Succeeded or Failed, not as being created or updated, and stored as
  -- Deleting. The keys and the dequeues of the documents are left as they were read.
  pub handle_delete-IsSwept :
      (d : SubscriptionDocument) (w w' : World S)
      → handle_delete db d w ≡ (ok true, w')
      → (i : Iterator) × (list_by_prefix db.clusters db.clusters_path db.parse db.uuid d.id
            (prefix_of db d.id)
          ≡ ok i)
        × IsSwept i w w'
  unfolding handle_delete
  handle_delete-IsSwept d w w' e =
      let (i, w1, listed, e1) =
        bind_ok
          (lift
            (list_by_prefix db.clusters db.clusters_path db.parse db.uuid d.id (prefix_of db d.id)))
          (λ i.
            delete_loop db (page_calls cluster_document db.clusters db.clusters_path i.query) i
              true)
          w e in
      let (_, swept) =
        loop-IsSwept w' (page_calls cluster_document db.clusters db.clusters_path i.query) i true w1
          e1 in
      (i, ap (λ p. p.0) listed, subst (λ v. IsSwept i v w') (sym (ap (λ p. p.1) listed)) swept)
