-- ===== src/Cosmos/Memory.antt =====
-- A service that holds one document in memory. It shows that what is assumed of the database
-- service can hold, and tests run on it.
use Prim.Native.String
use Prim.Native.String.{count}
use text.Mathlib.TextLemmas.{length-append}
use aro_rp.Base.{
  ℕ, zero, suc, String, Bool, true, false, ◌≡◌, refl, sym, ◌∙◌, ◌≢◌, ap, ◌<◌, ◌+◌, ◌⊎◌, inl, Option,
  none, some, List, [], ◌∷◌, arith, ◌==◌, ◌&&◌, if◌then◌else◌, eq_iff,
}
use aro_rp.Cosmos.Service.{
  Method, get, post, put, delete, Headers, Query, Request, Response, Service, DocumentType, View,
  Replaced, IsDocumented, History,
}

-- The ETag of the n-th version.
abbrev pub tag : ℕ → String
tag zero = "v"
tag (suc n) = String.◌++◌ "v" (tag n)

count-tag : (n : ℕ) → count (tag n) ≡ n + 1
count-tag zero = refl
count-tag (suc n) = omega (arith, length-append "v" (tag n), count-tag n)

tag_inj : (m n : ℕ) → tag m ≡ tag n → m ≡ n
tag_inj m n e = omega (arith, count-tag m, count-tag n, ap count e)

-- The one document, where it is stored, and the service's time.
pub record Memory (D : Type 0) : Type 0 where
  pub partition : String
  pub path : String
  pub content : D
  pub version : ℕ
  pub clock : ℕ

-- How a kind of document is stamped, and its triggers.
pub record Layout (D : Type 0) : Type 1 where
  pub doc : DocumentType D
  pub stamp : D → String → D
  pub run : List String → ℕ → D → D
  pub SameContent : D → D → Type 0
  pub etag-stamp : (d : D) (e : String) → doc.etag (stamp d e) ≡ e
  pub stamp_same : (d : D) (e : String) → SameContent (stamp d e) d

module _ {D : Type 0} (layout : Layout D) where
  open layout use {doc, stamp, run, SameContent, etag-stamp, stamp_same}

  abbrev current : Memory D → D
  current s = stamp s.content (tag s.version)

  abbrev is_at : Memory D → Option String → String → Bool
  is_at s none l = false
  is_at s (some p) l = p == s.partition && l == s.path

  abbrev pub stored : Memory D → String → String → Option D
  stored s p l = if is_at s (some p) l then some (current s) else none

  abbrev matches : Memory D → Option String → Bool
  matches s none = true
  matches s (some e) = e == tag s.version

  abbrev reply : ℕ → Option D → Option (List D) → Option (Response D)
  reply status d ds = some (record {
    status_code = status;
    document = d;
    documents = ds;
    malformed = false;
    retry_after_ms = none;
    continuation = "";
  })

  abbrev written : Memory D → Headers → D → Memory D
  written s h d = record s { content = run h.pre_triggers s.clock d; version = suc s.version }

  abbrev answer_put : Option D → Headers → String → Memory D → Option (Response D) × Memory D
  answer_put none h l s = (reply 400 none none, s)
  answer_put (some d) h l s =
      if is_at s h.partition_key l
      then if matches s h.if_match
        then (reply 200 (some (current (written s h d))) none, written s h d)
        else (reply 412 none none, s)
      else (reply 404 none none, s)

  abbrev answer_post : Option Query → Memory D → Option (Response D) × Memory D
  answer_post none s = (reply 409 none none, s)
  answer_post (some q) s = (reply 200 none (some (current s ∷ [])), s)

  -- Nothing is deleted here.
  abbrev answer_by : Method → Request D → Memory D → Option (Response D) × Memory D
  answer_by put req s = answer_put req.document req.headers req.path s
  answer_by post req s = answer_post req.query s
  answer_by get req s = (
    if is_at s req.headers.partition_key req.path
        then reply 200 (some (current s)) none
        else reply 404 none none,
    s,
  )
  answer_by delete req s = (reply 503 none none, s)

  abbrev pub memory : Service (Memory D) D
  memory = record { send = λ req s. answer_by req.method req s; pages = λ q c. 0 }

  abbrev pub memory_view : View (Memory D) D
  memory_view = record {
    stored = stored;
    clock = λ s. s.clock;
    run = run;
    SameContent = SameContent;
  }

  put_written :
      (h : Headers) (l p : String) (d : D) (s s' : Memory D) (r : Response D)
      → h.partition_key ≡ some p
      → answer_put (some d) h l s ≡ (some r, s')
      → r.status_code ≡ 200
      → (stored s p l ≡ some (current s))
        × (stored s' p l ≡ some (current (written s h d)))
        × (matches s h.if_match ≡ true)
        × (r.document ≡ some (current (written s h d)))
  put_written h l p d s s' r part e status = ground arith

  matched_etag :
      (s : Memory D) (m : Option String) (e : String)
      → matches s m ≡ true
      → m ≡ some e
      → doc.etag (current s) ≡ e
  matched_etag s m e h k = rw etag-stamp (ground (arith, eq_iff e (tag s.version)))

  fresh_tag :
      (s : Memory D) (h : Headers) (d : D)
      → doc.etag (current s) ≢ doc.etag (current (written s h d))
  fresh_tag s h d e =
      let same : s.version ≡ suc s.version =
        tag_inj _ _ (sym (etag-stamp _ _) ∙ (e ∙ etag-stamp _ _)) in
      absurd (omega arith)

  memory_put :
      (req : Request D) (s s' : Memory D) (r : Response D) (p : String) (d : D)
      → req.method ≡ put
      → req.headers.partition_key ≡ some p
      → req.document ≡ some d
      → memory.send req s ≡ (some r, s')
      → r.status_code ≡ 200
      → (c : Replaced doc memory memory_view req s s' p d) × (r.document ≡ some c.after)
  memory_put req s s' r p d method part document sent status =
      let put_sent : answer_put (some d) req.headers req.path s ≡ (some r, s') =
        rw (method, document) at sent in
      let (found, kept, ok_match, answered) =
        put_written req.headers req.path p d s s' r part put_sent status in
      let c : Replaced doc memory memory_view req s s' p d = record {
        answer = r;
        sent = sent;
        before = current s;
        after = current (written s req.headers d);
        found = found;
        kept = kept;
        fresh = fresh_tag s req.headers d;
        content = stamp_same _ _;
        matched = λ e. matched_etag s req.headers.if_match e ok_match;
      } in
      (c, answered)

  pages_end :
      (req : Request D) (m : Method) (s s' : Memory D) (r : Response D)
      → answer_by m req s ≡ (some r, s')
      → r.continuation ≡ ""
  pages_end req put s s' r e = ground arith
  pages_end req m s s' r e = ground arith

  memory_conditional :
      (req : Request D) (m : Method) (s s' : Memory D) (r : Response D)
      → answer_by m req s ≡ (some r, s')
      → r.status_code ≡ 412
      → req.headers.if_match ≢ none
  memory_conditional req put s s' r e status = ground arith
  memory_conditional req m s s' r e status = ground arith

  pub memory-IsDocumented : IsDocumented doc memory memory_view
  memory-IsDocumented = record {
    put_ok = memory_put;
    conditional = λ req s s' r. memory_conditional req req.method s s' r;
    page_falls = λ req q s s' r asked sent. inl (pages_end req req.method s s' r sent);
  }

  -- A tag of an earlier version.
  abbrev pub WasTag : Memory D → String → String → String → Type 0
  WasTag s p l e = (k : ℕ) × (k < s.version) × (e ≡ tag k)

  version_step :
      (req : Request D) (m : Method) (s : Memory D)
      → ((answer_by m req s).1.version ≡ s.version)
        ⊎ ((answer_by m req s).1.version ≡ suc s.version)
  version_step req put s = ground arith
  version_step req m s = ground arith

  stored_tag :
      (s : Memory D) (p l : String) (d : D) → stored s p l ≡ some d → doc.etag d ≡ tag s.version
  stored_tag s p l d h =
      let same : current s ≡ d = ground arith in rw (← same) (etag-stamp s.content (tag s.version))

  memory_retires :
      (req : Request D) (s s' : Memory D) (p : String) (d : D)
      (c : Replaced doc memory memory_view req s s' p d)
      → WasTag s' p req.path (doc.etag c.before)
  memory_retires req s s' p d c =
      let old = stored_tag s p req.path c.before c.found in
      let new = stored_tag s' p req.path c.after c.kept in
      let moved : (answer_by req.method req s).1 ≡ s' = ap (λ x. x.1) c.sent in
      let same_version = λ (e : s.version ≡ s'.version). c.fresh (old ∙ (ap tag e ∙ sym new)) in
      (
        s.version,
        omega (
          arith,
          version_step req req.method s,
          ap (λ (m : Memory D). m.version) moved,
          same_version,
        ),
        old,
      )

  memory_remains :
      (req : Request D) (s : Memory D) (p l e : String)
      → WasTag s p l e
      → WasTag (memory.send req s).1 p l e
  memory_remains req s p l e (k, h, same) = (k, omega (arith, version_step req req.method s), same)

  memory_current :
      (s : Memory D) (p l : String) (d : D) → stored s p l ≡ some d → ¬ WasTag s p l (doc.etag d)
  memory_current s p l d h (k, lt, same) =
      let same_version = tag_inj k s.version (sym same ∙ stored_tag s p l d h) in omega arith

  pub memory-History : History doc memory memory_view
  memory-History = record {
    Retired = WasTag;
    retires = memory_retires;
    remains = memory_remains;
    current = memory_current;
  }
