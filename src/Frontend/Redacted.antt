-- ===== src/Frontend/Redacted.antt =====
-- What the answers about clusters and operations show, and what they keep to themselves.
use aro_rp.Base.{
  String, ◌≡◌, refl, ap, ◌⊎◌, inl, inr, Bool, true, false, Option, none, some, arith, if◌then◌else◌,
}
use aro_rp.Api.Error.{ok, status_code}
use aro_rp.Api.Cluster.{OpenShiftCluster, without_secret}
use aro_rp.Api.Document.{OpenShiftClusterDocument}
use aro_rp.Action.{World, pure, fail, lift, attempt, ◌>>=◌, bind_ok}
use aro_rp.Cosmos.Attempts.{retry_ok}
use aro_rp.Frontend.{Config, Version, Request, Answer}
use aro_rp.Frontend.Gate.{get_cluster, or_missing}
use aro_rp.Frontend.Put.{render, apply, put_or_patch_once, put_or_patch, change}
use aro_rp.Frontend.Applied.{after_change, after_change_rendered, once_applied}
use aro_rp.Frontend.Read.{resource_not_found, get}
use aro_rp.Frontend.Operations.{is_running, read_operation, result_of, get_result}

module _ {S E : Type 0} (f : Config S) (version : Version S E) where
  -- The answer is the JSON of a cluster without a client secret.
  pub record IsRedacted (a : Answer) : Type 0 where
    pub cluster : OpenShiftCluster
    pub no_secret : cluster.properties.service_principal_profile.client_secret ≡ ""
    pub text : String
    pub encoded : version.marshal (version.to_external cluster) ≡ ok text
    pub shown : a.body ≡ some text

  render-IsRedacted :
      (is_create : Bool) (d : OpenShiftClusterDocument) {a : Answer}
      → render f version is_create d ≡ ok a
      → IsRedacted a
  unfolding render without_secret
  render-IsRedacted is_create d {a} e =
      let (b, encoded, same) : (b : String) × (version.marshal
              (version.to_external (without_secret d.open_shift_cluster))
            ≡ ok b)
          × (a.body ≡ some b) =
        ground arith in
      record {
        cluster = without_secret d.open_shift_cluster;
        no_secret = refl;
        text = b;
        encoded = encoded;
        shown = same;
      }

  marshalled :
      (oc : OpenShiftCluster) (w : World S) {a : Answer} {w' : World S}
      → (lift (version.marshal (version.to_external (without_secret oc))) >>= λ b.
            pure (record { status = 200; body = some b }))
          w
        ≡ (ok a, w')
      → IsRedacted a
  unfolding without_secret
  marshalled oc w {a} e =
      let (b, w1, e1, e2) =
        bind_ok (lift (version.marshal (version.to_external (without_secret oc))))
          (λ b. pure (record { status = 200; body = some b })) w e in
      record {
        cluster = without_secret oc;
        no_secret = refl;
        text = b;
        encoded = ap (λ p. p.0) e1;
        shown = cc (ap (λ p. p.0) e2);
      }

  get-IsRedacted :
      (r : Request) (w : World S) {a : Answer} {w' : World S}
      → get f version r w ≡ (ok a, w')
      → IsRedacted a
  unfolding get
  get-IsRedacted r w e =
      let (found, w1, _, e1) =
        bind_ok (attempt (get_cluster f r.path))
          (λ found. lift (or_missing resource_not_found found) >>= λ d.
            lift (version.marshal (version.to_external (without_secret d.open_shift_cluster)))
            >>= λ b. pure (record { status = 200; body = some b }))
          w e in
      let (d, w2, _, e2) =
        bind_ok (lift (or_missing resource_not_found found))
          (λ d.
            lift (version.marshal (version.to_external (without_secret d.open_shift_cluster)))
            >>= λ b. pure (record { status = 200; body = some b }))
          w1 e1 in
      marshalled d.open_shift_cluster w2 e2

  result_of-IsRedacted :
      (oc : Option OpenShiftCluster) {a : Answer} → result_of f version oc ≡ ok a → IsRedacted a
  unfolding result_of without_secret
  result_of-IsRedacted none e = cc
  result_of-IsRedacted (some oc) {a} e =
      let (b, encoded, same) : (b : String) × (version.marshal
              (version.to_external (without_secret oc))
            ≡ ok b)
          × (a.body ≡ some b) =
        ground arith in
      record {
        cluster = without_secret oc;
        no_secret = refl;
        text = b;
        encoded = encoded;
        shown = same;
      }

  running_or_done :
      (running : Bool) (oc : Option OpenShiftCluster) (w : World S) {a : Answer} {w' : World S}
      → (if running then fail (status_code 202) else lift (result_of f version oc)) w ≡ (ok a, w')
      → IsRedacted a
  running_or_done true oc w e = cc
  running_or_done false oc w e = result_of-IsRedacted oc (ap (λ p. p.0) e)

  get_result-IsRedacted :
      (r : Request) (w : World S) {a : Answer} {w' : World S}
      → get_result f version r w ≡ (ok a, w')
      → IsRedacted a
  unfolding get_result
  get_result-IsRedacted r w e =
      let (p, w1, _, e1) =
        bind_ok (read_operation f r.operation_id)
          (λ p.
            if is_running r.operation_id p.1
            then fail (status_code 202)
            else lift (result_of f version p.0.open_shift_cluster))
          w e in
      running_or_done (is_running r.operation_id p.1) p.0.open_shift_cluster w1 e1

  after_change-IsRedacted :
      (r : Request) (is_create : Bool) (d : OpenShiftClusterDocument) (w : World S) {a : Answer}
      {w' : World S}
      → apply f version r is_create d w ≡ (ok a, w')
      → IsRedacted a
  unfolding apply
  after_change-IsRedacted r is_create d w e =
      let (d1, w1, _, e1) =
        bind_ok (change f version r is_create d) (after_change f version r is_create) w e in
      let (x, e2) = after_change_rendered f version r is_create d1 w1 e1 in
      render-IsRedacted is_create x e2

  once-IsRedacted :
      (r : Request) (w : World S) {a : Answer} {w' : World S}
      → put_or_patch_once f version r w ≡ (ok a, w')
      → IsRedacted a
  once-IsRedacted r w e =
      let (is_create, d, w1, e1) = once_applied f version r w e in
      after_change-IsRedacted r is_create d w1 e1

  -- What the front end shows of a cluster, in the answer to a GET, to a PUT or a PATCH that is
  -- accepted, and as the result of an operation, is the JSON of an external cluster that was made of
  -- a cluster without a client secret.
  pub answers-IsRedacted :
      (r : Request) (w : World S) {a : Answer} {w' : World S}
      → (get f version r w ≡ (ok a, w'))
        ⊎ (put_or_patch f version r w ≡ (ok a, w'))
        ⊎ (get_result f version r w ≡ (ok a, w'))
      → IsRedacted a
  unfolding put_or_patch
  answers-IsRedacted r w (inl e) = get-IsRedacted r w e
  answers-IsRedacted r w (inr (inl e)) =
      let (w1, once) = retry_ok (put_or_patch_once f version r) w e in once-IsRedacted r w1 once
  answers-IsRedacted r w (inr (inr e)) = get_result-IsRedacted r w e
