-- ===== src/Install/Phases/Ending.antt =====
-- How Install of pkg/install/install.go may end, for a holder of the lease of the document.
use aro_rp.Base.{◌≤◌, String, ◌≡◌, ◌⊎◌, Option, none, some}
use aro_rp.Api.Error.{Error, Result, ok, err, other}
use aro_rp.Api.Cluster.{
  Properties, Install, InstallPhase, deploy_storage, deploy_resources, remove_bootstrap,
  unrecognised,
}
use aro_rp.Api.Document.{OpenShiftClusterDocument}
use aro_rp.Action.{World, M, fail}
use aro_rp.Azure.{ResourceParser}
use aro_rp.Cosmos.Client.{document_path}
use aro_rp.Database.Clusters.{get}
use aro_rp.Cosmos.Service.{Service}
use aro_rp.Install.Phases.{Phases, begun, advanced, finished, patch}
use aro_rp.Install.Phases.Changes.{installed, left, IsPlain, resumed}

-- Whether it succeeds or fails, an action leaves the installation of a document in its phase.
abbrev pub Leaves :
    {S : Type 0} (Agrees : OpenShiftClusterDocument → World S → Type 0)
    → M S OpenShiftClusterDocument
    → OpenShiftClusterDocument
    → World S
    → World S
    → Type 0
Leaves Agrees m d w w' =
    ((x : OpenShiftClusterDocument) → m w ≡ (ok x, w') → Agrees x w' × (installed x ≡ installed d))
    × ((e : Error)
        → m w ≡ (err e, w')
        → (x : OpenShiftClusterDocument) × Agrees x w' × (installed x ≡ installed d))

module _ {S : Type 0} (svc : Service S OpenShiftClusterDocument) (path : String)
    (parse : ResourceParser) (uuid : String) (phases : Phases S)
    (stored : S → String → String → Option OpenShiftClusterDocument)
    (Agrees : OpenShiftClusterDocument → World S → Type 0) where
  -- `Agrees d w`: in the world `w`, what `d` has of the cluster is what is stored of it, and the lease
  -- has the other processes leave that alone. What this process reads is then what it has, and what it
  -- stored while it owned the lease it will read; and a phase, which may write other properties by
  -- PatchWithLease too, leaves the installation in its phase.
  pub record IsHeld : Type 0 where
    pub reads :
        (d read : OpenShiftClusterDocument) (w : World S)
        → Agrees d w
        → (get svc path parse uuid d.key w).0 ≡ ok read
        → read.open_shift_cluster.properties ≡ d.open_shift_cluster.properties
    pub writes :
        (f : Properties → Result Properties) (d x : OpenShiftClusterDocument) (w w' : World S)
        → IsPlain f
        → Agrees d w
        → patch svc path parse uuid phases f d w ≡ (ok x, w')
        → x.lease_owner ≡ uuid
        → stored w'.store x.partition_key (document_path path x.id) ≡ some x
        → Agrees x w'
    pub kept :
        (m : OpenShiftClusterDocument → M S OpenShiftClusterDocument)
        → ((m ≡ phases.storage) ⊎ (m ≡ phases.resources)) ⊎ (m ≡ phases.bootstrap)
        → (d : OpenShiftClusterDocument) (w w' : World S) → Agrees d w
        → Leaves Agrees (m d) d w w'

  -- The action of a phase
  abbrev pub body : InstallPhase → OpenShiftClusterDocument → M S OpenShiftClusterDocument
  body deploy_storage = phases.storage
  body deploy_resources = phases.resources
  body remove_bootstrap = phases.bootstrap
  body (unrecognised n) = λ d. fail (other "unrecognised phase")

  -- The order of the phases
  pub data Follows : InstallPhase → InstallPhase → Type 0 where
    resources_after : Follows deploy_storage deploy_resources
    bootstrap_after : Follows deploy_resources remove_bootstrap

  -- From one document and world another is reached by phases, each run in the world in which the one
  -- before it was recorded as done, and the phase recorded is the one that follows.
  pub data Reached (d : OpenShiftClusterDocument) (w : World S)
      : OpenShiftClusterDocument → World S → Type 0 where
    start : Reached d w d w
    ran :
        {d1 d2 d3 : OpenShiftClusterDocument} {w1 w2 w3 : World S} {i j : Install}
        → Reached d w d1 w1
        → installed d1 ≡ some i
        → body i.phase d1 w1 ≡ (ok d2, w2)
        → patch svc path parse uuid phases advanced d2 w2 ≡ (ok d3, w3)
        → installed d3 ≡ some j
        → Follows i.phase j.phase
        → Reached d w d3 w3

  -- How the loop ends
  pub data Outcome (d : OpenShiftClusterDocument) (w w' : World S)
      : Result OpenShiftClusterDocument → Type 0 where
    -- all phases are done, the last of them is removing the bootstrap node, and the document says so
    complete :
        {d1 d2 x : OpenShiftClusterDocument} {w1 w2 : World S} {i : Install}
        → Reached d w d1 w1
        → installed d1 ≡ some i
        → i.phase ≡ remove_bootstrap
        → phases.bootstrap d1 w1 ≡ (ok d2, w2)
        → patch svc path parse uuid phases finished d2 w2 ≡ (ok x, w')
        → Agrees x w'
        → installed x ≡ none
        → Outcome d w w' (ok x)
    -- a phase failed, and what is stored is still in that phase
    failed :
        {d1 x : OpenShiftClusterDocument} {w1 : World S} {i : Install} {e : Error}
        → Reached d w d1 w1
        → installed d1 ≡ some i
        → 1 ≤ left i.phase
        → body i.phase d1 w1 ≡ (err e, w')
        → Agrees x w'
        → installed x ≡ some i
        → Outcome d w w' (err e)
    -- the document could not be written after a phase
    unwritten :
        (f : Properties → Result Properties) {d1 d2 : OpenShiftClusterDocument} {w1 w2 : World S}
        {i : Install} {e : Error}
        → Reached d w d1 w1
        → installed d1 ≡ some i
        → body i.phase d1 w1 ≡ (ok d2, w2)
        → patch svc path parse uuid phases f d2 w2 ≡ (err e, w')
        → Outcome d w w' (err e)

  -- An installation that was begun, or could not be recorded as begun
  abbrev pub Installed :
      OpenShiftClusterDocument → World S → Result OpenShiftClusterDocument × World S → Type 0
  Installed d w o =
      ((e : Error) × (patch svc path parse uuid phases begun d w ≡ (err e, o.1)) × (o.0 ≡ err e))
      ⊎ ((d1 : OpenShiftClusterDocument) × (w1 : World S) × (patch svc path parse uuid phases begun
              d w
            ≡ (ok d1, w1))
          × (installed d1 ≡ some (resumed (installed d)))
          × Outcome d1 w1 o.1 o.0)
