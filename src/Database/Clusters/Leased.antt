-- ===== src/Database/Clusters/Leased.antt =====
-- Leased patches of the cluster documents by a function that may fail.
use aro_rp.Base.{ℕ, String, ◌≡◌, sym, ◌∙◌, ap, not, false, Option, none, some, arith, ◌==◌, eq_iff}
use aro_rp.Api.Error.{Result, ok, other}
use aro_rp.Api.Document.{OpenShiftClusterDocument}
use aro_rp.Action.{World, lift, ◌>>=◌, bind_ok, guarded_ok, failed_with}
use aro_rp.Azure.{ResourceParser}
use aro_rp.Cosmos.Service.{Service, IsDocumented}
use aro_rp.Cosmos.Client.{document_path}
use aro_rp.Cosmos.Attempts.{retry_once}
use aro_rp.Database.Clusters.{
  cluster_document, get, update_with, patch_once, patch_with, patch_with_lease, with_lease,
}
use aro_rp.Database.Clusters.Claim.{SameContent, cluster_view}
use aro_rp.Database.Clusters.Patch.{never_patch_once, never_leased, update_stored}

module _ {S : Type 0} (svc : Service S OpenShiftClusterDocument) (path : String)
    (stored : S → String → String → Option OpenShiftClusterDocument) (clock : S → ℕ)
    (law : IsDocumented cluster_document svc (cluster_view stored clock)) (parse : ResourceParser)
    (uuid : String) where
  -- The document under `key` was read from the world `w` as `read` while its lease was this process's,
  -- and `x`, which is what the function gave but for the service's own fields, is stored in its place.
  pub record IsLeasedWrite (f : OpenShiftClusterDocument → Result OpenShiftClusterDocument)
      (key : String) (w : World S) (s : S) (x : OpenShiftClusterDocument) : Type 0 where
    pub read : OpenShiftClusterDocument
    pub got : (get svc path parse uuid key w).0 ≡ ok read
    pub owned : read.lease_owner ≡ uuid
    pub made : OpenShiftClusterDocument
    pub makes : f read ≡ ok made
    pub is_stored : stored s made.partition_key (document_path path made.id) ≡ some x
    pub content : SameContent x made

  -- A leased patch by a function that may fail, though not with 412
  pub patch-IsLeasedWrite :
      (key : String) (f : OpenShiftClusterDocument → Result OpenShiftClusterDocument) (w : World S)
      {x : OpenShiftClusterDocument} {w' : World S}
      → ((d : OpenShiftClusterDocument) → failed_with (f d) 412 ≡ false)
      → patch_with_lease svc path parse uuid key (λ d. lift (f d)) none w ≡ (ok x, w')
      → IsLeasedWrite f key w w'.store x
  unfolding patch_with_lease patch_with patch_once
  patch-IsLeasedWrite key f w never e =
      let run = with_lease svc path parse uuid (λ d. lift (f d)) in
      let once = patch_once svc path parse uuid key run none in
      let e0 =
        sym (
          retry_once once w (
            never_patch_once svc path stored clock law parse uuid key run
              (never_leased svc path stored clock law parse uuid (λ d. lift (f d)) (λ d w. never d))
              w))
        ∙ e in
      let (d, w1, found, e1) =
        bind_ok (get svc path parse uuid key)
          (λ d. run d >>= λ d'. update_with svc path parse uuid d' none) w e0 in
      let (d', w2, held, e2) =
        bind_ok (run d) (λ d'. update_with svc path parse uuid d' none) w1 e1 in
      let (owned, made) =
        guarded_ok (not (d.lease_owner == uuid)) (other "lost lease") (lift (f d)) w1 held in
      let (kept, content) = update_stored svc path stored clock law parse uuid d' w2 e2 in
      record {
        read = d;
        got = ap (λ p. p.0) found;
        owned = ground (arith, eq_iff d.lease_owner uuid);
        made = d';
        makes = ap (λ p. p.0) made;
        is_stored = kept;
        content = content;
      }
