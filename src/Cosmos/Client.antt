-- ===== src/Cosmos/Client.antt =====
-- pkg/database/cosmosdb/zz_generated_cosmosdb.go and zz_generated_openshiftclusterdocument.go.
-- Building, signing and encoding a request does not fail here. A nil document without an error,
-- which no caller expects, is an error.
use aro_rp.Base.{
  ℕ, zero, suc, String, Bool, true, false, not, Option, none, some, List, [], ◌++◌, ◌==◌, eqb,
  if◌then◌else◌,
}
use aro_rp.Api.Error.{Error, cosmos, other, Result, ok, err, is_error_status_code}
use aro_rp.Action.{World, M, pure, fail, lift, advance, ◌>>=◌}
use aro_rp.Cosmos.Service.{
  get, post, put, delete, Headers, Query, Request, Response, Service, DocumentType,
}
use Prim.Native.String

-- Options; nil is `none`
pub record Options : Type 0 where
  pub no_etag : Bool
  pub pre_triggers : List String
  pub post_triggers : List String
  pub partition_key_range_id : String

abbrev pub empty_options : Options
empty_options = record {
  no_etag = false;
  pre_triggers = [];
  post_triggers = [];
  partition_key_range_id = "";
}

abbrev pub no_headers : Headers
no_headers = record {
  partition_key = none;
  enable_cross_partition = false;
  continuation = "";
  if_match = none;
  pre_triggers = [];
  post_triggers = [];
  partition_key_range_id = "";
}

abbrev pub with_options : Options → Headers → Headers
with_options o h = record h {
  pre_triggers = o.pre_triggers;
  post_triggers = o.post_triggers;
  partition_key_range_id = o.partition_key_range_id;
}

abbrev without_etag : Option Options → Options
without_etag none = record empty_options { no_etag = true }
without_etag (some o) = record o { no_etag = true }

-- ErrETagRequired
abbrev pub etag_required : Error
etag_required = other "ETag is required"

-- The pair (resp, err) of `_do`.
pub record Outcome (D : Type 0) : Type 0 where
  pub response : Option (Response D)
  pub error : Option Error

abbrev pub no_outcome : {D : Type 0} → Outcome D
no_outcome = record { response = none; error = none }

abbrev pub is_too_many : Option Error → Bool
is_too_many none = false
is_too_many (some e) = is_error_status_code e 429

abbrev pub retry_after : {D : Type 0} → Option (Response D) → Option ℕ
retry_after none = none
retry_after (some r) = r.retry_after_ms

abbrev pub as_result : {D : Type 0} → Outcome D → Result (Option (Response D))
as_result o = elim o.error [ none ↦ ok o.response | some e ↦ err e ]

abbrev pub only {ℓ} : {A : Type ℓ} → Option (Option A) → Result A
only (some (some a)) = ok a
only _ = err (other "nil document")

-- The query iterator: NextRaw over pages, nil documents at the end.
pub record Iterator : Type 0 where
  pub partition_key : String
  pub query : Query
  pub continuation : String
  pub done : Bool

abbrev pub document_path : String → String → String
document_path path id = String.◌++◌ path (String.◌++◌ "/docs/" id)

module _ {S D : Type 0} (doc : DocumentType D) (svc : Service S D) where
  -- what `_do` makes of the answer
  unfoldable pub answer : Request D → Option (Response D) → Outcome D
  answer req none = record { response = none; error = some (other "request failed") }
  answer req (some r) =
      if not (eqb r.status_code req.expected_status_code)
      then record { response = some r; error = some (cosmos r.status_code) }
      else if r.malformed
      then record { response = some r; error = some (other "malformed response") }
      else record { response = some r; error = none }

  -- _do
  unfoldable pub do_once : Request D → World S → Outcome D × World S
  unfolding answer
  do_once req w =
      let now = advance w.others w.store in
      let (r, s) = svc.send req now.store in
      (answer req r, record { store = s; others = now.others })

  -- the loop of `do`, over the attempts left
  unfoldable pub do_loop : ℕ → Request D → Outcome D → World S → Outcome D × World S
  do_loop zero req last w = (last, w)
  do_loop (suc n) req last w =
      let (o, w') = do_once req w in
      let again = do_loop n req o w' in
      if is_too_many o.error
      then elim (retry_after o.response) [
        | none ↦ (record o { error = some (other "x-ms-retry-after-ms is no number") }, w')
        | some ms ↦ again
      ]
      else (o, w')

  -- do; maxRetries is 10
  unfoldable pub do_request : Request D → M S (Option (Response D))
  do_request req w = let (o, w') = do_loop 10 req no_outcome w in (as_result o, w')

  -- setOptions
  unfoldable pub set_options : Option Options → Option D → Headers → Result Headers
  set_options none d h = ok h
  set_options (some o) d h = elim d [
    | none ↦ ok (with_options o h)
    | some x ↦
        if o.no_etag
        then ok (with_options o h)
        else if doc.etag x == ""
        then err etag_required
        else ok (with_options o (record h { if_match = some (doc.etag x) }))
  ]

  module _ (path : String) where
    abbrev documents_path : String
    documents_path = String.◌++◌ path "/docs"

    abbrev pub in_partition : String → Headers
    in_partition p = record no_headers { partition_key = some p }

    -- the document of a response, if there are both
    abbrev pub document_of : Option (Response D) → Result D
    document_of none = err (other "nil document")
    document_of (some r) = only (some r.document)

    -- Create: the caller's options lose their ETag check
    unfoldable pub create : String → D → Option Options → M S D
    unfolding do_request set_options
    create p d options = do
      h ← lift (set_options (some (without_etag options)) (some d) (in_partition p))
      r ← do_request (record {
        method = post;
        path = documents_path;
        expected_status_code = 201;
        document = some d;
        query = none;
        headers = h;
      })
      lift (document_of r)

    -- Get
    unfoldable pub get_document : String → String → Option Options → M S D
    unfolding do_request set_options
    get_document p id options = do
      h ← lift (set_options options none (in_partition p))
      r ← do_request (record {
        method = get;
        path = document_path path id;
        expected_status_code = 200;
        document = none;
        query = none;
        headers = h;
      })
      lift (document_of r)

    -- the request of Replace
    abbrev pub replace_request : D → Headers → Request D
    replace_request d h = record {
      method = put;
      path = document_path path (doc.id d);
      expected_status_code = 200;
      document = some d;
      query = none;
      headers = h;
    }

    -- Replace, once its headers are set
    unfoldable pub replace_with : D → Headers → M S D
    unfolding do_request
    replace_with d h = do r ← do_request (replace_request d h); lift (document_of r)

    -- Replace
    unfoldable pub replace : String → D → Option Options → M S D
    unfolding replace_with set_options
    replace p d options = do
      h ← lift (set_options options (some d) (in_partition p))
      replace_with d h

    -- Delete
    unfoldable pub delete_document : String → D → Option Options → M S (Unit {0})
    unfolding do_request set_options
    delete_document p d options = do
      h ← lift (set_options options (some d) (in_partition p))
      r ← do_request (record {
        method = delete;
        path = document_path path (doc.id d);
        expected_status_code = 204;
        document = none;
        query = none;
        headers = h;
      })
      pure tt

    -- Query
    unfoldable pub open_query : String → Query → Iterator
    open_query p q = record { partition_key = p; query = q; continuation = ""; done = false }

    unfoldable pub query_headers : Iterator → Headers
    query_headers i =
        let h = record no_headers { continuation = i.continuation } in
        if i.partition_key == ""
        then record h { enable_cross_partition = true }
        else record h { partition_key = some i.partition_key }

    -- the iterator after a response
    unfoldable pub after_page : Iterator → Option (Response D) → Option (List D) × Iterator
    after_page i none = (none, record i { continuation = ""; done = true })
    after_page i (some r) =
        (r.documents, record i { continuation = r.continuation; done = r.continuation == "" })

    -- the request for a page
    abbrev pub page_request : Iterator → Request D
    page_request i = record {
      method = post;
      path = documents_path;
      expected_status_code = 200;
      document = none;
      query = some i.query;
      headers = query_headers i;
    }

    -- Next
    unfoldable pub next : Iterator → M S (Option (List D) × Iterator)
    unfolding do_request query_headers after_page
    next i =
        if i.done
        then pure (none, i)
        else (do r ← do_request (page_request i); pure (after_page i r))

    -- what `all` does with a page; `after` is the rest of the loop
    unfoldable pub all_page :
        (Iterator → List D → M S (List D)) → List D → Option (List D) × Iterator → M S (List D)
    all_page after found (none, i) = pure found
    all_page after found (some docs, i) = after i (found ++ docs)

    -- the loop of `all`, over the calls of Next left
    unfoldable pub all_loop : ℕ → Iterator → List D → M S (List D)
    all_loop zero i found = fail (other "too many pages")
    all_loop (suc n) i found = do p ← next i; all_page (all_loop n) found p

    -- A page for each continuation, and the call of Next that finds the end.
    abbrev pub page_calls : Query → ℕ
    page_calls q = suc (suc (svc.pages q ""))

    -- QueryAll
    unfoldable pub query_all : String → Query → M S (List D)
    unfolding next all_loop all_page open_query
    query_all p q = all_loop (page_calls q) (open_query p q) []
