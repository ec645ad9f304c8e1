-- ===== src/Cosmos/Replace.antt =====
-- What Replace of the generated client does to the stored documents.
use aro_rp.Base.{String, ◌≡◌, refl, ◌≢◌, ap, Option, none, some, arith, false, eq_iff}
use mathlib.Core.Path.{subst}
use aro_rp.Api.Error.{ok}
use aro_rp.Action.{World, lift, bind_ok}
use aro_rp.Cosmos.Service.{
  Headers, Request, Response, Service, DocumentType, View, Replaced, IsDocumented,
}
use aro_rp.Cosmos.Client.{
  Options, set_options, in_partition, replace_request, replace_with, replace, do_request,
  document_of,
}
use aro_rp.Cosmos.Exchange.{Holds, Exchange, do_request_ok}

module _ {S D : Type 0} (doc : DocumentType D) (svc : Service S D) where
  -- The headers that a checked update sends.
  pub record Checked (o : Options) (d : D) (h h' : Headers) : Type 0 where
    pub etag : h'.if_match ≡ some (doc.etag d)
    pub nonempty : doc.etag d ≢ ""
    pub triggers : h'.pre_triggers ≡ o.pre_triggers
    pub partition : h'.partition_key ≡ h.partition_key

  pub set_options-Checked :
      (o : Options) (d : D) (h : Headers) {h' : Headers}
      → o.no_etag ≡ false
      → set_options doc svc (some o) (some d) h ≡ ok h'
      → Checked o d h h'
  unfolding set_options
  set_options-Checked o d h checks e = ground (arith, eq_iff (doc.etag d) "")

  set_options-partition :
      (options : Option Options) (d : D) (h : Headers) {h' : Headers}
      → set_options doc svc options (some d) h ≡ ok h'
      → h'.partition_key ≡ h.partition_key
  unfolding set_options
  set_options-partition options d h e = ground arith

  document_of_ok :
      (path : String) (a : Option (Response D)) (r : Response D) (x y : D)
      → document_of doc svc path a ≡ ok x
      → a ≡ some r
      → r.document ≡ some y
      → x ≡ y
  document_of_ok path a r x y e f g = ground arith

  module _ (path : String) (v : View S D) (law : IsDocumented doc svc v) (Q : S → Type 0)
      (keeps : (req : Request D) (s : S) → Q s → Q (svc.send req s).1) where
    replace_with-Replaced :
        (p : String) (d : D) (h : Headers) (w : World S) {x : D} {w' : World S}
        → Holds Q w
        → h.partition_key ≡ some p
        → replace_with doc svc path d h w ≡ (ok x, w')
        → (s : S) × Q s
          × (c : Replaced doc svc v (replace_request doc svc path d h) s w'.store p d) × (x
              ≡ c.after)
    unfolding replace_with
    replace_with-Replaced p d h w {x = y} q part e =
        let req = replace_request doc svc path d h in
        let (a, w1, asked, gave) =
          bind_ok (do_request doc svc req) (λ r. lift (document_of doc svc path r)) w e in
        let (r, found, status, x) = do_request_ok doc svc Q keeps req w q asked in
        let kept = subst (λ (z : World S). Exchange svc Q req r z.store) (ap (λ p. p.1) gave) x in
        let (c, answered) = law.put_ok req kept.at _ r p d refl part refl kept.sent status in
        (
          kept.at,
          kept.held,
          c,
          document_of_ok path a r y c.after (ap (λ p. p.0) gave) found answered,
        )

    -- A Replace that is accepted with options that do not waive the ETag has replaced a document
    -- whose ETag, at that moment, was the one of the document given.
    pub replace-Replaced :
        (p : String) (d : D) (o : Options) (w : World S) {x : D} {w' : World S}
        → Holds Q w
        → o.no_etag ≡ false
        → replace doc svc path p d (some o) w ≡ (ok x, w')
        → (h : Headers) × Checked o d (in_partition doc svc path p) h
          × (s : S) × Q s
          × (c : Replaced doc svc v (replace_request doc svc path d h) s w'.store p d) × (x
              ≡ c.after)
    unfolding replace
    replace-Replaced p d o w q checks e =
        let h0 = in_partition doc svc path p in
        let (h, w1, headers, rest) =
          bind_ok (lift (set_options doc svc (some o) (some d) h0))
            (λ h. replace_with doc svc path d h) w e in
        let checked = set_options-Checked o d h0 checks (ap (λ p. p.0) headers) in
        let moved = ap (λ p. p.1) headers in
        let q1 = subst (Holds Q) moved q in
        let (s, qs, c, same) = replace_with-Replaced p d h w1 q1 checked.partition rest in
        (h, checked, s, qs, c, same)

    -- A Replace without options that is accepted has replaced a document, whatever its ETag was.
    pub overwrite-Replaced :
        (p : String) (d : D) (w : World S) {x : D} {w' : World S}
        → Holds Q w
        → replace doc svc path p d none w ≡ (ok x, w')
        → (s : S) × Q s
          × (c : Replaced doc svc v
              (replace_request doc svc path d (in_partition doc svc path p))
              s
              w'.store
              p
              d)
          × (x ≡ c.after)
    unfolding replace set_options
    overwrite-Replaced p d w q e =
        replace_with-Replaced p d (in_partition doc svc path p) w q refl e
