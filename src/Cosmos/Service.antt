-- ===== src/Cosmos/Service.antt =====
-- The database service as the client meets it: requests, responses, and what is documented of it.
use aro_rp.Base.{ℕ, String, Bool, Option, none, some, List, ◌<◌, ◌≡◌, ◌≢◌, ◌⊎◌}

pub data Method : Type 0 where
  get post put delete : Method

-- The headers that the client sets; `none` and `[]` for one that is not sent.
pub record Headers : Type 0 where
  pub partition_key : Option String
  pub enable_cross_partition : Bool
  pub continuation : String
  pub if_match : Option String
  pub pre_triggers : List String
  pub post_triggers : List String
  pub partition_key_range_id : String

pub record Query : Type 0 where
  pub query : String
  pub parameters : List (String × String)

pub record Request (D : Type 0) : Type 0 where
  pub method : Method
  pub path : String
  pub expected_status_code : ℕ
  pub document : Option D
  pub query : Option Query
  pub headers : Headers

-- A response, its body decoded: `document` and `documents` are nil where the body has none, and
-- `malformed` says that decoding fails. `retry_after_ms` is the header as a number, if it is one.
pub record Response (D : Type 0) : Type 0 where
  pub status_code : ℕ
  pub document : Option D
  pub documents : Option (List D)
  pub malformed : Bool
  pub retry_after_ms : Option ℕ
  pub continuation : String

-- The service, over its state `S`: it answers a request or the connection fails. A query is
-- answered in pages, and `pages q c` is how many there are at most from the continuation `c` on.
pub record Service (S D : Type 0) : Type 0 where
  pub send : Request D → S → Option (Response D) × S
  pub pages : Query → String → ℕ

-- What the generated client reads of a document.
pub record DocumentType (D : Type 0) : Type 0 where
  pub id : D → String
  pub etag : D → String

-- What is documented of the service. `stored s p l` is the document at path `l` of partition `p`,
-- `clock s` the service's time in seconds, `run` what a list of registered pre-triggers makes of a
-- body, and `SameContent d b` says that `d` is `b` but for the fields that the service keeps.
pub record View (S D : Type 0) : Type 1 where
  pub stored : S → String → String → Option D
  pub clock : S → ℕ
  pub run : List String → ℕ → D → D
  pub SameContent : D → D → Type 0

module _ {S D : Type 0} (doc : DocumentType D) (svc : Service S D) where
  -- A PUT that was answered by 200: `before` was stored, `after` is.
  pub record Replaced (v : View S D) (req : Request D) (s s' : S) (p : String) (d : D)
      : Type 0 where
    pub answer : Response D
    pub sent : svc.send req s ≡ (some answer, s')
    pub before : D
    pub after : D
    pub found : v.stored s p req.path ≡ some before
    pub kept : v.stored s' p req.path ≡ some after
    pub fresh : doc.etag before ≢ doc.etag after
    pub content : v.SameContent after (v.run req.headers.pre_triggers (v.clock s) d)
    pub matched : (e : String) → req.headers.if_match ≡ some e → doc.etag before ≡ e

  pub record IsDocumented (v : View S D) : Type 0 where
    -- A PUT answered by 200 replaced the document, if its If-Match is the stored ETag, and answers
    -- with what is stored now.
    pub put_ok :
        (req : Request D) (s s' : S) (r : Response D) (p : String) (d : D)
        → req.method ≡ Method.put
        → req.headers.partition_key ≡ some p
        → req.document ≡ some d
        → svc.send req s ≡ (some r, s')
        → r.status_code ≡ 200
        → (c : Replaced v req s s' p d) × (r.document ≡ some c.after)
    -- 412 is the answer to an If-Match that fails, and to nothing else.
    pub conditional :
        (req : Request D) (s s' : S) (r : Response D)
        → svc.send req s ≡ (some r, s')
        → r.status_code ≡ 412
        → req.headers.if_match ≢ none
    -- A query is answered in finitely many pages.
    pub page_falls :
        (req : Request D) (q : Query) (s s' : S) (r : Response D)
        → req.query ≡ some q
        → svc.send req s ≡ (some r, s')
        → (r.continuation ≡ "")
          ⊎ (svc.pages q r.continuation < svc.pages q req.headers.continuation)

  -- ETags do not come back. `Retired s p l e` says that the document at path `l` of partition `p`
  -- has had the ETag `e` and was replaced since.
  pub record History (v : View S D) : Type 1 where
    pub Retired : S → String → String → String → Type 0
    pub retires :
        (req : Request D) (s s' : S) (p : String) (d : D) (c : Replaced v req s s' p d)
        → Retired s' p req.path (doc.etag c.before)
    pub remains :
        (req : Request D) (s : S) (p l e : String)
        → Retired s p l e
        → Retired (svc.send req s).1 p l e
    pub current :
        (s : S) (p l : String) (d : D) → v.stored s p l ≡ some d → ¬ Retired s p l (doc.etag d)
