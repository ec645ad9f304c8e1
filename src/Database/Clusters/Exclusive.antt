-- ===== src/Database/Clusters/Exclusive.antt =====
-- Dequeue of the cluster documents: a version of a document is claimed once.
use aro_rp.Base.{ℕ, String, ◌≡◌, ◌≢◌, Option, some, List, All}
use aro_rp.Api.Error.{ok}
use aro_rp.Api.Document.{OpenShiftClusterDocument}
use aro_rp.Action.{World}
use aro_rp.Azure.{ResourceParser}
use aro_rp.Cosmos.Service.{Service, IsDocumented, History}
use aro_rp.Cosmos.Client.{document_path}
use aro_rp.Cosmos.Exchange.{nothing, after, after-keeps}
use aro_rp.Database.Clusters.{cluster_document, renewing, update_with, claimed}
use aro_rp.Database.Clusters.Claim.{cluster_view, Claimed, update-Claimed}

module _ {S : Type 0} (svc : Service S OpenShiftClusterDocument) (path : String)
    (stored : S → String → String → Option OpenShiftClusterDocument) (clock : S → ℕ)
    (law : IsDocumented cluster_document svc (cluster_view stored clock)) (parse : ResourceParser)
    (history : History cluster_document svc (cluster_view stored clock)) where
  -- The version of `d` that was read is stored no longer.
  abbrev pub Gone : OpenShiftClusterDocument → S → Type 0
  Gone d s = history.Retired s d.partition_key (document_path path d.id) d.etag

  -- What another process does does not bring the version back.
  abbrev pub Forgets : OpenShiftClusterDocument → (S → S) → Type 0
  Forgets d m = (s : S) → Gone d s → Gone d (m s)

  Claimed-Gone :
      (uuid : String) (d : OpenShiftClusterDocument) (s : S) (x : OpenShiftClusterDocument)
      → Claimed svc path stored clock law parse uuid (λ _. Unit {0}) d s x
      → Gone d s
  Claimed-Gone uuid d s x c =
      rw c.unchanged at (history.retires _ c.at s d.partition_key (claimed uuid d) c.replaced)

  not-Claimed_of_Gone :
      (uuid : String) (d e : OpenShiftClusterDocument) (s : S) (y : OpenShiftClusterDocument)
      → d.id ≡ e.id
      → d.partition_key ≡ e.partition_key
      → d.etag ≡ e.etag
      → ¬ Claimed svc path stored clock law parse uuid (Gone d) e s y
  not-Claimed_of_Gone uuid d e s y id part etag c =
      history.current c.at e.partition_key (document_path path e.id) c.replaced.before
        c.replaced.found (rw (c.unchanged, ← etag, ← part, ← id) c.held)

  -- Once a version of a document has been claimed, no worker claims it again: a second claim that
  -- rests on the same ETag is not accepted, whatever the other processes do between the two
  -- (`between`) and during the second (`during`). ETags are assumed not to come back.
  pub claim_exclusive :
      (u1 u2 : String) (d e : OpenShiftClusterDocument) (w w1 w2 : World S)
      (x y : OpenShiftClusterDocument) (between during : List (S → S))
      → d.id ≡ e.id
      → d.partition_key ≡ e.partition_key
      → d.etag ≡ e.etag
      → All (Forgets d) between
      → All (Forgets d) during
      → update_with svc path parse u1 (claimed u1 d) (some renewing) w ≡ (ok x, w1)
      → update_with svc path parse u2
          (claimed u2 e)
          (some renewing)
          (record { store = after between w1.store; others = during })
        ≢ (ok y, w2)
  claim_exclusive u1 u2 d e w w1 w2 x y between during id part etag kb kd first second =
      let c1 =
        update-Claimed svc path stored clock law parse u1 (λ _. Unit {0}) (λ req s u. u) d w
          (nothing w) first in
      let gone = Claimed-Gone u1 d w1.store x c1 in
      let still = after-keeps (Gone d) between w1.store kb gone in
      let c2 =
        update-Claimed svc path stored clock law parse u2 (Gone d)
          (λ req s g. history.remains req s _ _ _ g) e
          (record { store = after between w1.store; others = during })
          (record { now = still; others = kd }) second in
      not-Claimed_of_Gone u2 d e w2.store y id part etag c2
