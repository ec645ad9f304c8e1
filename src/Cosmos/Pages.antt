-- ===== src/Cosmos/Pages.antt =====
-- The loops over the pages of a query end: as many calls of Next as the model makes are enough.
use aro_rp.Base.{
  ℕ, zero, suc, String, ◌≡◌, refl, sym, ◌∙◌, ap, ◌+◌, ◌-◌, ◌≤◌, ◌<◌, true, false, Bool-cases, inl,
  inr, Option, none, some, List, [], ◌++◌, arith, ◌==◌, eq_iff, if◌then◌else◌,
}
use aro_rp.Api.Error.{ok}
use aro_rp.Action.{World, M, pure, ◌>>=◌, bind_ok, bind_cong}
use aro_rp.Cosmos.Service.{Query, Response, Service, DocumentType, View, IsDocumented}
use aro_rp.Cosmos.Client.{
  Iterator, do_request, page_request, query_headers, after_page, next, all_page, all_loop,
  page_calls, open_query, query_all,
}
use aro_rp.Cosmos.Exchange.{nothing, do_request_ok}

module _ {S D : Type 0} (doc : DocumentType D) (svc : Service S D) (path : String) (v : View S D)
    (law : IsDocumented doc svc v) where
  -- The calls of Next that are left, at most.
  abbrev pub calls : Iterator → ℕ
  calls i = if i.done then 1 else suc (suc (svc.pages i.query i.continuation))

  headers_continuation :
      (i : Iterator) → (query_headers doc svc path i).continuation ≡ i.continuation
  unfolding query_headers
  headers_continuation i = ground arith

  -- what a response makes of the iterator, if there are documents
  after_some :
      (i : Iterator) (r : Option (Response D)) (docs : List D) (i' : Iterator)
      → after_page doc svc path i r ≡ (some docs, i')
      → (x : Response D) × (r ≡ some x)
        × (i'.query ≡ i.query)
        × (i'.continuation ≡ x.continuation)
        × (i'.done ≡ (x.continuation == ""))
  unfolding after_page
  after_some i none docs i' e = cc e
  after_some i (some x) docs i' e = (
    x,
    refl,
    sym (ap (λ p. p.1.query) e),
    sym (ap (λ p. p.1.continuation) e),
    sym (ap (λ p. p.1.done) e),
  )

  fewer :
      (i i' : Iterator) (x : Response D) (s at : S)
      → i.done ≡ false
      → svc.send (page_request doc svc path i) at ≡ (some x, s)
      → i'.query ≡ i.query
      → i'.continuation ≡ x.continuation
      → i'.done ≡ (x.continuation == "")
      → calls i' < calls i
  fewer i i' x s at open_ sent query continuation done =
      elim (law.page_falls (page_request doc svc path i) i.query at s x refl sent) [
        | inl last ↦
            let ended : i'.done ≡ true = done ∙ (eq_iff x.continuation "").1 last in
            rw (ended, open_) (omega arith)
        | inr less ↦
            let fall = rw (headers_continuation i) at less in
            let pages : svc.pages i'.query i'.continuation ≡ svc.pages i.query x.continuation =
              λ k. svc.pages (query k) (continuation k) in
            elim (Bool-cases i'.done) [
              | inl d ↦ rw (d, open_) (omega arith)
              | inr d ↦ rw (d, open_) (omega (arith, fall, pages))
            ]
      ]

  next_open :
      (i : Iterator) (w : World S) (docs : List D) (i' : Iterator) (w' : World S)
      → i.done ≡ false
      → (do_request doc svc (page_request doc svc path i) >>= λ r.
            pure (after_page doc svc path i r))
          w
        ≡ (ok (some docs, i'), w')
      → (calls i' < calls i) × (i'.query ≡ i.query)
  next_open i w docs i' w' d e =
      let req = page_request doc svc path i in
      let (r, w1, asked, e1) =
        bind_ok (do_request doc svc req) (λ r. pure (after_page doc svc path i r)) w e in
      let page : after_page doc svc path i r ≡ (some docs, i') = cc (ap (λ p. p.0) e1) in
      let (x, found, query, continuation, done) = after_some i r docs i' page in
      let (y, same, status, exchange) =
        do_request_ok doc svc (λ _. Unit {0}) (λ q s u. u) req w (nothing w) asked in
      let equal : y ≡ x = cc (sym same ∙ found) in
      (
        fewer i i' x w1.store exchange.at d (rw equal at exchange.sent) query continuation done,
        query,
      )

  -- A call of Next that gives documents leaves fewer calls.
  pub next-calls :
      (i : Iterator) (w : World S) (docs : List D) (i' : Iterator) (w' : World S)
      → next doc svc path i w ≡ (ok (some docs, i'), w')
      → calls i' < calls i
  unfolding next
  next-calls i w docs i' w' e = elim (Bool-cases i.done) [
    | inl d ↦ cc (rw d at e)
    | inr d ↦ let (less, _) = next_open i w docs i' w' d (rw d at e) in less
  ]

  pub calls-positive : (i : Iterator) → 1 ≤ calls i
  calls-positive i = elim (Bool-cases i.done) [
    | inl d ↦ rw d (omega arith)
    | inr d ↦ rw d (omega arith)
  ]

  all_page_cong :
      (f g : Iterator → List D → M S (List D)) (found : List D) (p : Option (List D) × Iterator)
      (w : World S)
      → ((docs : List D) → p.0 ≡ some docs → f p.1 (found ++ docs) w ≡ g p.1 (found ++ docs) w)
      → all_page doc svc path f found p w ≡ all_page doc svc path g found p w
  unfolding all_page
  all_page_cong f g found (none, i) w h = refl
  all_page_cong f g found (some docs, i) w h = h docs refl

  all_more_step :
      (n : ℕ) (i : Iterator) (found : List D) (w : World S)
      → ((j : Iterator) (found : List D) (w : World S)
          → calls j ≤ n
          → all_loop doc svc path (suc n) j found w ≡ all_loop doc svc path n j found w)
      → calls i ≤ suc n
      → all_loop doc svc path (suc (suc n)) i found w ≡ all_loop doc svc path (suc n) i found w
  unfolding all_loop
  all_more_step n i found w same h =
      bind_cong (next doc svc path i) (all_page doc svc path (all_loop doc svc path (suc n)) found)
        (all_page doc svc path (all_loop doc svc path n) found) w
        (λ p w' e.
          all_page_cong (all_loop doc svc path (suc n)) (all_loop doc svc path n) found p w'
            (λ docs given.
              same p.1 (found ++ docs) w'
                (omega (arith, next-calls i w docs p.1 w' (e ∙ (λ k. (ok (given k, p.1), w')))))))

  all_more :
      (n : ℕ) (i : Iterator) (found : List D) (w : World S)
      → calls i ≤ n
      → all_loop doc svc path (suc n) i found w ≡ all_loop doc svc path n i found w
  all_more zero i found w h = absurd (omega (arith, calls-positive i))
  all_more (suc n) i found w h = all_more_step n i found w (λ j fs v. all_more n j fs v) h

  all_enough :
      (k n m : ℕ) (i : Iterator) (found : List D) (w : World S)
      → m ≡ n + k
      → calls i ≤ n
      → all_loop doc svc path m i found w ≡ all_loop doc svc path n i found w
  all_enough zero n m i found w e h =
      let same : m ≡ n = omega (arith, e) in ap (λ z. all_loop doc svc path z i found w) same
  all_enough (suc k) n m i found w e h =
      let same : m ≡ suc (n + k) = omega (arith, e) in
      ap (λ z. all_loop doc svc path z i found w) same
      ∙ (all_more (n + k) i found w (omega arith) ∙ all_enough k n (n + k) i found w refl h)

  pub calls-open_query :
      (p : String) (q : Query) → calls (open_query doc svc path p q) ≡ page_calls doc svc path q
  unfolding open_query
  calls-open_query p q = refl

  -- The calls of Next that the model of QueryAll makes are enough: with any larger number of them
  -- the loop gives the same, from every world. The service answers a query in finitely many pages.
  pub query_all-enough :
      (p : String) (q : Query) (m : ℕ) (w : World S)
      → page_calls doc svc path q ≤ m
      → all_loop doc svc path m (open_query doc svc path p q) [] w ≡ query_all doc svc path p q w
  unfolding query_all
  query_all-enough p q m w h =
      all_enough (m - page_calls doc svc path q) (page_calls doc svc path q) m
        (open_query doc svc path p q) [] w (omega arith) (rw (calls-open_query p q) (omega arith))
