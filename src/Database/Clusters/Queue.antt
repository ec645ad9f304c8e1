-- ===== src/Database/Clusters/Queue.antt =====
-- Dequeue of the cluster documents: what a claimed document is.
use aro_rp.Base.{
  ℕ, zero, suc, String, ◌≡◌, refl, ◌≢◌, ◌+◌, ◌⊎◌, inl, inr, Option, none, some, List, [], ◌∷◌, ap,
  sym, ◌∙◌, true, Bool-cases, if◌then◌else◌,
}
use aro_rp.Api.Error.{Result, ok, err, is_error_status_code}
use aro_rp.Api.Document.{OpenShiftClusterDocument}
use aro_rp.Action.{World, M, lift, pure, ◌>>=◌, bind_ok, failed_with}
use aro_rp.Azure.{ResourceParser}
use aro_rp.Cosmos.Service.{Headers, Response, Service, IsDocumented}
use aro_rp.Cosmos.Client.{document_path, replace_request, next, Iterator, page_calls, open_query}
use aro_rp.Cosmos.Exchange.{nothing, after}
use aro_rp.Database.Clusters.{
  cluster_document, renewing, update_with, claimed, claim_first, claim_page, dequeue_loop, dequeue,
  dequeue_query, renew_lease, run_triggers,
}
use aro_rp.Database.Clusters.Claim.{cluster_view, Claimed, update-Claimed}

module _ {S : Type 0} (svc : Service S OpenShiftClusterDocument) (path : String)
    (stored : S → String → String → Option OpenShiftClusterDocument) (clock : S → ℕ)
    (law : IsDocumented cluster_document svc (cluster_view stored clock)) (parse : ResourceParser)
    (uuid : String) where
  -- The claim of `read`, made in the world `w`, was accepted.
  abbrev pub Taken :
      OpenShiftClusterDocument → World S → OpenShiftClusterDocument → World S → Type 0
  Taken read w x w' =
      update_with svc path parse uuid (claimed uuid read) (some renewing) w ≡ (ok x, w')

  -- The documents of a page are claimed in order from a world on, and lost to others, until one's turn
  -- comes in the last world.
  pub data Offered
      : List OpenShiftClusterDocument → World S → OpenShiftClusterDocument → World S → Type 0 where
    turn :
        {d : OpenShiftClusterDocument} {ds : List OpenShiftClusterDocument} {w : World S}
        → Offered (d ∷ ds) w d w
    lost :
        {d read : OpenShiftClusterDocument} {ds : List OpenShiftClusterDocument} {w w1 w2 : World S}
        {r : Result OpenShiftClusterDocument}
        → update_with svc path parse uuid (claimed uuid d) (some renewing) w ≡ (r, w1)
        → failed_with r 412 ≡ true
        → Offered ds w1 read w2
        → Offered (d ∷ ds) w read w2

  -- The pages of a query are read from a world on, and all their documents lost, until the turn comes of
  -- a document on the page read last.
  pub data Asked : Iterator → World S → OpenShiftClusterDocument → World S → Type 0 where
    on_page :
        {i i' : Iterator} {docs : List OpenShiftClusterDocument} {read : OpenShiftClusterDocument}
        {w w1 w2 : World S}
        → next cluster_document svc path i w ≡ (ok (some docs, i'), w1)
        → Offered docs w1 read w2
        → Asked i w read w2
    later :
        {i i' : Iterator} {docs : List OpenShiftClusterDocument} {read : OpenShiftClusterDocument}
        {w w1 w2 w3 : World S}
        → next cluster_document svc path i w ≡ (ok (some docs, i'), w1)
        → claim_first svc path parse uuid docs w1 ≡ (ok none, w2)
        → Asked i' w2 read w3
        → Asked i w read w3

  abbrev FromPage :
      List OpenShiftClusterDocument → World S → OpenShiftClusterDocument → World S → Type 0
  FromPage ds w x w' =
      (read : OpenShiftClusterDocument) × (w1 : World S) × Offered ds w read w1 × Taken read w1 x w'

  abbrev FromQuery : Iterator → World S → OpenShiftClusterDocument → World S → Type 0
  FromQuery i w x w' =
      (read : OpenShiftClusterDocument) × (w1 : World S) × Asked i w read w1 × Taken read w1 x w'

  -- A round of the inner loop: the outcome of the update decides.
  claim_round :
      (r : Result OpenShiftClusterDocument) (w1 : World S)
      (rest : M S (Option OpenShiftClusterDocument)) {x : OpenShiftClusterDocument} {w' : World S}
      → (if failed_with r 412 then rest else (do d' ← lift r; pure (some d'))) w1
        ≡ (ok (some x), w')
      → ((r ≡ ok x) × (w1 ≡ w')) ⊎ ((failed_with r 412 ≡ true) × (rest w1 ≡ (ok (some x), w')))
  claim_round (ok d') w1 rest e = inl (cc, cc)
  claim_round (err y) w1 rest e = elim (Bool-cases (is_error_status_code y 412)) [
    | inl refused ↦ inr (refused, rw refused at e)
    | inr bad ↦ cc (rw bad at e)
  ]

  claim_cons :
      (d : OpenShiftClusterDocument) (ds : List OpenShiftClusterDocument) (w : World S)
      (rest : M S (Option OpenShiftClusterDocument)) (x : OpenShiftClusterDocument) (w' : World S)
      → ((w1 : World S) → rest w1 ≡ (ok (some x), w') → FromPage ds w1 x w')
      → (r : Result OpenShiftClusterDocument) (w1 : World S)
      → update_with svc path parse uuid (claimed uuid d) (some renewing) w ≡ (r, w1)
      → (if failed_with r 412 then rest else (do d' ← lift r; pure (some d'))) w1
        ≡ (ok (some x), w')
      → FromPage (d ∷ ds) w x w'
  claim_cons d ds w rest x w' others r w1 first e = elim (claim_round r w1 rest e) [
    | inl (won, same) ↦ (d, w, turn, first ∙ (λ i. (won i, same i)))
    | inr (refused, more) ↦
        let (read, w2, offered, taken) = others w1 more in
        (read, w2, lost first refused offered, taken)
  ]

  claim_first_nil :
      {A : Type 0} (w : World S) (x : OpenShiftClusterDocument) (w' : World S)
      → claim_first svc path parse uuid [] w ≡ (ok (some x), w')
      → A
  unfolding claim_first
  claim_first_nil w x w' e = cc

  claim_first_cons :
      (d : OpenShiftClusterDocument) (ds : List OpenShiftClusterDocument) (w : World S)
      (x : OpenShiftClusterDocument) (w' : World S)
      → ((w1 : World S)
          → claim_first svc path parse uuid ds w1 ≡ (ok (some x), w')
          → FromPage ds w1 x w')
      → claim_first svc path parse uuid (d ∷ ds) w ≡ (ok (some x), w')
      → FromPage (d ∷ ds) w x w'
  unfolding claim_first
  claim_first_cons d ds w x w' others e =
      claim_cons d ds w (claim_first svc path parse uuid ds) x w' others _ _ refl e

  claim_first-FromPage :
      (ds : List OpenShiftClusterDocument) (x : OpenShiftClusterDocument) (w' w : World S)
      → claim_first svc path parse uuid ds w ≡ (ok (some x), w')
      → FromPage ds w x w'
  claim_first-FromPage [] x w' w e = claim_first_nil w x w' e
  claim_first-FromPage (d ∷ ds) x w' w e =
      claim_first_cons d ds w x w' (claim_first-FromPage ds x w') e

  page_none :
      {A : Type 0} (after : Iterator → M S (Option OpenShiftClusterDocument)) (i : Iterator)
      (w : World S) (x : OpenShiftClusterDocument) (w' : World S)
      → claim_page svc path parse uuid after (none, i) w ≡ (ok (some x), w')
      → A
  unfolding claim_page
  page_none after i w x w' e = cc

  -- A document was claimed from this page, or all were lost and the rest of the loop found one.
  found_case :
      (after : M S (Option OpenShiftClusterDocument)) (docs : List OpenShiftClusterDocument)
      (found : Option OpenShiftClusterDocument) (w w1 : World S) (x : OpenShiftClusterDocument)
      (w' : World S)
      → claim_first svc path parse uuid docs w ≡ (ok found, w1)
      → (elim found as (λ _. M S (Option OpenShiftClusterDocument)) [
        | none ↦ after
        | some d ↦ pure (some d)
      ])
          w1
        ≡ (ok (some x), w')
      → ((claim_first svc path parse uuid docs w ≡ (ok none, w1)) × (after w1 ≡ (ok (some x), w')))
        ⊎ FromPage docs w x w'
  found_case after docs none w w1 x w' first e = inl (first, e)
  found_case after docs (some d) w w1 x w' first e =
      inr (claim_first-FromPage docs x w' w (first ∙ e))

  page_some :
      (after : Iterator → M S (Option OpenShiftClusterDocument))
      (docs : List OpenShiftClusterDocument) (i : Iterator) (w : World S)
      (x : OpenShiftClusterDocument) (w' : World S)
      → claim_page svc path parse uuid after (some docs, i) w ≡ (ok (some x), w')
      → ((w1 : World S) × (claim_first svc path parse uuid docs w ≡ (ok none, w1))
          × (after i w1 ≡ (ok (some x), w')))
        ⊎ FromPage docs w x w'
  unfolding claim_page
  page_some after docs i w x w' e =
      let (found, w1, first, e') =
        bind_ok (claim_first svc path parse uuid docs)
          (λ found. elim found [ none ↦ after i | some d ↦ pure (some d) ]) w e in
      elim (found_case (after i) docs found w w1 x w' first e') [
        | inl (all_lost, more) ↦ inl (w1, all_lost, more)
        | inr won ↦ inr won
      ]

  page-FromQuery :
      (after : Iterator → M S (Option OpenShiftClusterDocument)) (x : OpenShiftClusterDocument)
      (w' : World S)
      → ((i : Iterator) (w : World S) → after i w ≡ (ok (some x), w') → FromQuery i w x w')
      → (i : Iterator) (p : Option (List OpenShiftClusterDocument) × Iterator) (w w1 : World S)
      → next cluster_document svc path i w ≡ (ok p, w1)
      → claim_page svc path parse uuid after p w1 ≡ (ok (some x), w')
      → FromQuery i w x w'
  page-FromQuery after x w' rest i (none, i') w w1 asked e = page_none after i' w1 x w' e
  page-FromQuery after x w' rest i (some docs, i') w w1 asked e =
      elim (page_some after docs i' w1 x w' e) [
        | inl (w2, all_lost, more) ↦
            let (read, w3, found, taken) = rest i' w2 more in
            (read, w3, later asked all_lost found, taken)
        | inr (read, w2, offered, taken) ↦ (read, w2, on_page asked offered, taken)
      ]

  loop_next :
      (n : ℕ) (i : Iterator) (w : World S) (x : OpenShiftClusterDocument) (w' : World S)
      → ((i : Iterator) (w : World S)
          → dequeue_loop svc path parse uuid n i w ≡ (ok (some x), w')
          → FromQuery i w x w')
      → dequeue_loop svc path parse uuid (suc n) i w ≡ (ok (some x), w')
      → FromQuery i w x w'
  unfolding dequeue_loop
  loop_next n i w x w' rest e =
      let (p, w1, asked, e') =
        bind_ok (next cluster_document svc path i)
          (λ p. claim_page svc path parse uuid (dequeue_loop svc path parse uuid n) p) w e in
      page-FromQuery (dequeue_loop svc path parse uuid n) x w' rest i p w w1 asked e'

  loop_zero :
      {A : Type 0} (i : Iterator) (w : World S) (x : OpenShiftClusterDocument) (w' : World S)
      → dequeue_loop svc path parse uuid 0 i w ≡ (ok (some x), w')
      → A
  unfolding dequeue_loop
  loop_zero i w x w' e = cc

  loop-FromQuery :
      (x : OpenShiftClusterDocument) (w' : World S) (n : ℕ) (i : Iterator) (w : World S)
      → dequeue_loop svc path parse uuid n i w ≡ (ok (some x), w')
      → FromQuery i w x w'
  loop-FromQuery x w' zero i w e = loop_zero i w x w' e
  loop-FromQuery x w' (suc n) i w e = loop_next n i w x w' (loop-FromQuery x w' n) e

  -- What a worker holds when Dequeue gave it a document: `before` is the state that its Replace met, and
  -- `s` the one that it left.
  pub record IsLeased (read : OpenShiftClusterDocument) (s : S) (x : OpenShiftClusterDocument)
      : Type 0 where
    pub before : S
    pub headers : Headers
    pub answer : Response OpenShiftClusterDocument
    pub sent :
        svc.send (replace_request cluster_document svc path (claimed uuid read) headers) before
        ≡ (some answer, s)
    pub old : OpenShiftClusterDocument
    pub was_stored : stored before read.partition_key (document_path path read.id) ≡ some old
    pub unchanged : old.etag ≡ read.etag
    pub is_stored : stored s read.partition_key (document_path path read.id) ≡ some x
    pub new_etag : x.etag ≢ read.etag
    pub owner : x.lease_owner ≡ uuid
    pub expires : x.lease_expires ≡ clock before + 60
    pub counted : x.dequeues ≡ read.dequeues + 1
    pub cluster : x.open_shift_cluster ≡ read.open_shift_cluster

  Claimed-IsLeased :
      (read : OpenShiftClusterDocument) (s : S) (x : OpenShiftClusterDocument)
      → Claimed svc path stored clock law parse uuid (λ _. Unit {0}) read s x
      → IsLeased read s x
  unfolding renew_lease run_triggers
  Claimed-IsLeased read s x c =
      let moved = rw c.renewed at c.replaced.content in
      record {
        before = c.at;
        headers = c.headers;
        answer = c.replaced.answer;
        sent = c.replaced.sent;
        old = c.replaced.before;
        was_stored = c.replaced.found;
        unchanged = c.unchanged;
        is_stored = rw c.result c.replaced.kept;
        new_etag = λ e. c.replaced.fresh (c.unchanged ∙ (sym e ∙ ap (λ d. d.etag) c.result));
        owner = rw c.result (ap (λ d. d.lease_owner) moved);
        expires = rw c.result (ap (λ d. d.lease_expires) moved);
        counted = rw c.result (ap (λ d. d.dequeues) moved);
        cluster = rw c.result (ap (λ d. d.open_shift_cluster) moved);
      }

  -- How Dequeue, called in the world `w`, came to the document that it gives.
  pub record IsDequeued (w : World S) (x : OpenShiftClusterDocument) (w' : World S) : Type 0 where
    pub read : OpenShiftClusterDocument
    pub tried_in : World S
    pub asked : Asked (open_query cluster_document svc path "" dequeue_query) w read tried_in
    pub taken : Taken read tried_in x w'
    pub leased : IsLeased read w'.store x

  -- Dequeue gives a worker a document only if it read it on a page of its query, lost the claims of all
  -- that it read before to others, and then made a Replace that met, under the ETag that was read, the
  -- very version that was read; since then the database holds the document with the worker as its lease
  -- owner, a lease until 60 seconds after, one more dequeue counted, a new ETag and the cluster
  -- unchanged. The other processes may act before each request in any way.
  pub dequeue-IsDequeued :
      (w : World S) {x : OpenShiftClusterDocument} {w' : World S}
      → dequeue svc path parse uuid w ≡ (ok (some x), w')
      → IsDequeued w x w'
  unfolding dequeue
  dequeue-IsDequeued w {x} {w'} e =
      let (read, w1, asked, taken) =
        loop-FromQuery x w' (page_calls cluster_document svc path dequeue_query)
          (open_query cluster_document svc path "" dequeue_query) w e in
      record {
        read = read;
        tried_in = w1;
        asked = asked;
        taken = taken;
        leased = Claimed-IsLeased read w'.store x (
            update-Claimed svc path stored clock law parse uuid (λ _. Unit {0}) (λ req s u. u) read
              w1 (nothing w1) taken);
      }
