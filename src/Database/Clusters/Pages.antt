-- ===== src/Database/Clusters/Pages.antt =====
-- The loop of Dequeue ends: as many calls of Next as the model makes are enough.
use aro_rp.Base.{
  ℕ, zero, suc, String, ◌≡◌, refl, ◌∙◌, ap, ◌+◌, ◌-◌, ◌≤◌, Option, none, some, List, arith,
}
use aro_rp.Api.Error.{ok}
use aro_rp.Api.Document.{OpenShiftClusterDocument}
use aro_rp.Action.{World, M, pure, bind_cong}
use aro_rp.Azure.{ResourceParser}
use aro_rp.Cosmos.Service.{Service, IsDocumented}
use aro_rp.Cosmos.Client.{Iterator, next, page_calls, open_query}
use aro_rp.Cosmos.Pages.{calls, calls-positive, next-calls, calls-open_query}
use aro_rp.Database.Clusters.{
  cluster_document, claim_first, claim_page, dequeue_loop, dequeue, dequeue_query,
}
use aro_rp.Database.Clusters.Claim.{cluster_view}

module _ {S : Type 0} (svc : Service S OpenShiftClusterDocument) (path : String)
    (stored : S → String → String → Option OpenShiftClusterDocument) (clock : S → ℕ)
    (law : IsDocumented cluster_document svc (cluster_view stored clock)) (parse : ResourceParser)
    (uuid : String) where
  claim_page_cong :
      (f g : Iterator → M S (Option OpenShiftClusterDocument))
      (p : Option (List OpenShiftClusterDocument) × Iterator) (w : World S)
      → ((docs : List OpenShiftClusterDocument) (w' : World S)
          → p.0 ≡ some docs
          → f p.1 w' ≡ g p.1 w')
      → claim_page svc path parse uuid f p w ≡ claim_page svc path parse uuid g p w
  unfolding claim_page
  claim_page_cong f g (none, i) w h = refl
  claim_page_cong f g (some docs, i) w h =
      bind_cong (claim_first svc path parse uuid docs)
        (λ found. elim found [ none ↦ f i | some d ↦ pure (some d) ])
        (λ found. elim found [ none ↦ g i | some d ↦ pure (some d) ]) w
        (λ found w' e. by_found found w')
    where
      by_found :
          (found : Option OpenShiftClusterDocument) (w' : World S)
          → (elim found as (λ _. M S (Option OpenShiftClusterDocument)) [
            | none ↦ f i
            | some d ↦ pure (some d)
          ])
              w'
            ≡ (elim found as (λ _. M S (Option OpenShiftClusterDocument)) [
              | none ↦ g i
              | some d ↦ pure (some d)
            ])
                w'
      by_found none w' = h docs w' refl
      by_found (some d) w' = refl

  more_step :
      (n : ℕ) (i : Iterator) (w : World S)
      → ((j : Iterator) (w : World S)
          → calls cluster_document svc path (cluster_view stored clock) law j ≤ n
          → dequeue_loop svc path parse uuid (suc n) j w ≡ dequeue_loop svc path parse uuid n j w)
      → calls cluster_document svc path (cluster_view stored clock) law i ≤ suc n
      → dequeue_loop svc path parse uuid (suc (suc n)) i w
        ≡ dequeue_loop svc path parse uuid (suc n) i w
  unfolding dequeue_loop
  more_step n i w same h =
      bind_cong (next cluster_document svc path i)
        (λ p. claim_page svc path parse uuid (dequeue_loop svc path parse uuid (suc n)) p)
        (λ p. claim_page svc path parse uuid (dequeue_loop svc path parse uuid n) p) w
        (λ p w1 e.
          claim_page_cong (dequeue_loop svc path parse uuid (suc n))
            (dequeue_loop svc path parse uuid n) p w1
            (λ docs w' given. same p.1 w' (
              omega (
                arith,
                next-calls cluster_document svc path (cluster_view stored clock) law i w docs p.1 w1
                    (e ∙ (λ k. (ok (given k, p.1), w1))),
              ))))

  one_more :
      (n : ℕ) (i : Iterator) (w : World S)
      → calls cluster_document svc path (cluster_view stored clock) law i ≤ n
      → dequeue_loop svc path parse uuid (suc n) i w ≡ dequeue_loop svc path parse uuid n i w
  one_more zero i w h =
      absurd
        (omega (arith, calls-positive cluster_document svc path (cluster_view stored clock) law i))
  one_more (suc n) i w h = more_step n i w (λ j v. one_more n j v) h

  enough :
      (k n m : ℕ) (i : Iterator) (w : World S)
      → m ≡ n + k
      → calls cluster_document svc path (cluster_view stored clock) law i ≤ n
      → dequeue_loop svc path parse uuid m i w ≡ dequeue_loop svc path parse uuid n i w
  enough zero n m i w e h =
      let same : m ≡ n = omega (arith, e) in ap (λ z. dequeue_loop svc path parse uuid z i w) same
  enough (suc k) n m i w e h =
      let same : m ≡ suc (n + k) = omega (arith, e) in
      ap (λ z. dequeue_loop svc path parse uuid z i w) same
      ∙ (one_more (n + k) i w (omega arith) ∙ enough k n (n + k) i w refl h)

  -- The calls of Next that the model of Dequeue makes are enough: with any larger number of them the
  -- loop gives the same, from every world. The service answers a query in finitely many pages.
  pub dequeue-enough :
      (m : ℕ) (w : World S)
      → page_calls cluster_document svc path dequeue_query ≤ m
      → dequeue_loop svc path parse uuid m (open_query cluster_document svc path "" dequeue_query) w
        ≡ dequeue svc path parse uuid w
  unfolding dequeue
  dequeue-enough m w h =
      let c = page_calls cluster_document svc path dequeue_query in
      enough (m - c) c m (open_query cluster_document svc path "" dequeue_query) w (omega arith) (
        rw
          (calls-open_query cluster_document svc path (cluster_view stored clock) law ""
            dequeue_query)
          (omega arith))
