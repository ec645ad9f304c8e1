-- ===== src/Database/Clusters/Claim.antt =====
-- A claim of a cluster document: the checked update that Dequeue makes.
use aro_rp.Base.{ℕ, String, ◌≡◌, refl, Option, some, [], ◌∷◌, not, ◌==◌}
use aro_rp.Base.Text.{to_lower}
use aro_rp.Api.Error.{ok}
use aro_rp.Api.Document.{OpenShiftClusterDocument}
use aro_rp.Action.{World, guarded_ok}
use aro_rp.Azure.{ResourceParser}
use aro_rp.Cosmos.Service.{Headers, Request, Service, View, Replaced, IsDocumented}
use aro_rp.Cosmos.Client.{replace_request, replace}
use aro_rp.Cosmos.Exchange.{Holds}
use aro_rp.Cosmos.Replace.{replace-Replaced}
use aro_rp.Database.Clusters.{
  cluster_document, renewing, update_with, claimed, not_lower_case, run_triggers,
}

-- Equal but for the fields that the service keeps.
abbrev pub SameContent : OpenShiftClusterDocument → OpenShiftClusterDocument → Type 0
SameContent d b = record d { metadata = b.metadata } ≡ b

abbrev pub cluster_view :
    {S : Type 0}
    → (S → String → String → Option OpenShiftClusterDocument)
    → (S → ℕ)
    → View S OpenShiftClusterDocument
cluster_view stored clock = record {
  stored = stored;
  clock = clock;
  run = run_triggers;
  SameContent = SameContent;
}

module _ {S : Type 0} (svc : Service S OpenShiftClusterDocument) (path : String)
    (stored : S → String → String → Option OpenShiftClusterDocument) (clock : S → ℕ)
    (law : IsDocumented cluster_document svc (cluster_view stored clock)) (parse : ResourceParser)
    (uuid : String) where
  -- `read` was read by a query, and its claim, with the lease renewed, replaced the document stored
  -- in the state `at`, whose ETag was the one read. `x` is stored since.
  pub record Claimed (Q : S → Type 0) (read : OpenShiftClusterDocument) (s : S)
      (x : OpenShiftClusterDocument) : Type 0 where
    pub headers : Headers
    pub at : S
    pub held : Q at
    pub replaced :
        Replaced cluster_document svc
          (cluster_view stored clock)
          (replace_request cluster_document svc path (claimed uuid read) headers)
          at
          s
          read.partition_key
          (claimed uuid read)
    pub unchanged : replaced.before.etag ≡ read.etag
    pub renewed : headers.pre_triggers ≡ "renewLease" ∷ []
    pub result : x ≡ replaced.after

  module _ (Q : S → Type 0)
      (keeps : (req : Request OpenShiftClusterDocument) (s : S) → Q s → Q (svc.send req s).1) where
    pub update-Claimed :
        (d : OpenShiftClusterDocument) (w : World S) {x : OpenShiftClusterDocument} {w' : World S}
        → Holds Q w
        → update_with svc path parse uuid (claimed uuid d) (some renewing) w ≡ (ok x, w')
        → Claimed Q d w'.store x
    unfolding update_with
    update-Claimed d w q e =
        let (_, sent) =
          guarded_ok (not (d.key == to_lower d.key)) not_lower_case
            (replace cluster_document svc path d.partition_key (claimed uuid d) (some renewing)) w
            e in
        let (h, checked, s, qs, c, same) =
          replace-Replaced cluster_document svc path (cluster_view stored clock) law Q keeps
            d.partition_key (claimed uuid d) renewing w q refl sent in
        record {
          headers = h;
          at = s;
          held = qs;
          replaced = c;
          unchanged = c.matched d.etag checked.etag;
          renewed = checked.triggers;
          result = same;
        }
