-- ===== src/Cosmos/Unconditional.antt =====
-- Requests without If-Match are never refused by PreconditionFailed.
use aro_rp.Base.{
  ℕ, zero, suc, String, ◌≡◌, refl, Bool, true, false, Option, none, some, List, [], arith,
  Bool-cases, inl, inr, if◌then◌else◌,
}
use aro_rp.Api.Error.{Result, ok, err, cosmos, is_error_status_code}
use aro_rp.Action.{World, M, pure, lift, continue, ◌>>=◌, failed_with}
use aro_rp.Cosmos.Service.{get, Query, Request, Response, Service, DocumentType, View, IsDocumented}
use aro_rp.Cosmos.Client.{
  Iterator, do_request, set_options, replace_request, replace_with, replace, document_of, next,
  page_request, query_headers, after_page, all_page, all_loop, query_all, in_partition,
  get_document, document_path, open_query, page_calls,
}
use aro_rp.Cosmos.Exchange.{nothing, do_request_cosmos}

-- The action does not fail with PreconditionFailed.
abbrev pub Never412 : {S A : Type 0} → M S A → Type 0
Never412 {S} m = (w : World S) → failed_with (m w).0 412 ≡ false

eq_of_failed_with : {A : Type 0} (r : Result A) → failed_with r 412 ≡ true → r ≡ err (cosmos 412)
unfolding is_error_status_code
eq_of_failed_with r h = ground arith

module _ {S A B : Type 0} where
  never_continue :
      (f : A → M S B) (r : Result A) (w : World S)
      → failed_with r 412 ≡ false
      → ((a : A) → Never412 (f a))
      → failed_with (continue r f w).0 412 ≡ false
  never_continue f (ok a) w h k = k a w
  never_continue f (err e) w h k = h

  pub never_bind :
      (m : M S A) (f : A → M S B) → Never412 m → ((a : A) → Never412 (f a)) → Never412 (m >>= f)
  never_bind m f h k w = never_continue f (m w).0 (m w).1 (h w) k

module _ {S A : Type 0} where
  pub never_if : (b : Bool) (m n : M S A) → Never412 m → Never412 n → Never412 (if b then m else n)
  never_if true m n h k = h
  never_if false m n h k = k

module _ {S D : Type 0} (doc : DocumentType D) (svc : Service S D) (path : String) (v : View S D)
    (law : IsDocumented doc svc v) where
  never_request :
      (req : Request D) → req.headers.if_match ≡ none → Never412 (do_request doc svc req)
  never_request req h w = elim (Bool-cases (failed_with (do_request doc svc req w).0 412)) [
    | inl failed ↦
        let e = eq_of_failed_with (do_request doc svc req w).0 failed in
        let (r, status, x) =
          do_request_cosmos doc svc (λ _. Unit {0}) (λ q s u. u) req w 412 (nothing w)
            (λ i. (e i, (do_request doc svc req w).1)) in
        absurd (law.conditional req x.at (do_request doc svc req w).1.store r x.sent status h)
    | inr fine ↦ fine
  ]

  never_document : (r : Option (Response D)) → failed_with (document_of doc svc path r) 412 ≡ false
  unfolding is_error_status_code
  never_document r = ground arith

  -- Replace without options.
  pub never_replace : (p : String) (d : D) → Never412 (replace doc svc path p d none)
  unfolding replace replace_with set_options
  never_replace p d =
      never_bind (do_request doc svc (replace_request doc svc path d (in_partition doc svc path p)))
        (λ r. lift (document_of doc svc path r))
        (never_request (replace_request doc svc path d (in_partition doc svc path p)) refl)
        (λ r w. never_document r)

  abbrev get_request : String → String → Request D
  get_request p id = record {
    method = get;
    path = document_path path id;
    expected_status_code = 200;
    document = none;
    query = none;
    headers = in_partition doc svc path p;
  }

  -- Get without options.
  pub never_get_document : (p id : String) → Never412 (get_document doc svc path p id none)
  unfolding get_document set_options
  never_get_document p id =
      never_bind (do_request doc svc (get_request p id)) (λ r. lift (document_of doc svc path r))
        (never_request (get_request p id) refl) (λ r w. never_document r)

  query_headers_if_match : (i : Iterator) → (query_headers doc svc path i).if_match ≡ none
  unfolding query_headers
  query_headers_if_match i = ground arith

  never_next : (i : Iterator) → Never412 (next doc svc path i)
  unfolding next
  never_next i =
      never_if i.done (pure (none, i))
        (do
          r ← do_request doc svc (page_request doc svc path i)
          pure (after_page doc svc path i r))
        (λ w. refl)
        (never_bind (do_request doc svc (page_request doc svc path i))
          (λ r. pure (after_page doc svc path i r))
          (never_request (page_request doc svc path i) (query_headers_if_match i)) (λ r w. refl))

  never_page :
      (after : Iterator → List D → M S (List D))
      → ((i : Iterator) (found : List D) → Never412 (after i found))
      → (found : List D) (p : Option (List D) × Iterator)
      → Never412 (all_page doc svc path after found p)
  unfolding all_page
  never_page after h found (none, i) w = refl
  never_page after h found (some docs, i) w = h i _ w

  never_step :
      (n : ℕ)
      → ((i : Iterator) (found : List D) → Never412 (all_loop doc svc path n i found))
      → (i : Iterator) (found : List D) → Never412 (all_loop doc svc path (suc n) i found)
  unfolding all_loop
  never_step n h i found =
      never_bind (next doc svc path i) (all_page doc svc path (all_loop doc svc path n) found)
        (never_next i) (never_page (all_loop doc svc path n) h found)

  never_zero : (i : Iterator) (found : List D) → Never412 (all_loop doc svc path 0 i found)
  unfolding all_loop is_error_status_code
  never_zero i found w = refl

  never_loop : (n : ℕ) (i : Iterator) (found : List D) → Never412 (all_loop doc svc path n i found)
  never_loop zero = never_zero
  never_loop (suc n) = never_step n (never_loop n)

  -- QueryAll.
  pub never_query_all : (p : String) (q : Query) → Never412 (query_all doc svc path p q)
  unfolding query_all
  never_query_all p q = never_loop (page_calls doc svc path q) (open_query doc svc path p q) []
