-- ===== src/Install/Phases.antt =====
-- Install in pkg/install/install.go: the phases of an installation, each begun only when the document
-- of the cluster says that those before it are done.
mod Changes
mod Ending
mod Patched
mod Resumed
mod Tests
use aro_rp.Base.{ℕ, zero, suc, String, none, some, ◌∷◌}
use aro_rp.Api.Error.{Result, ok, err, other, bind}
use aro_rp.Api.Cluster.{
  Properties, Install, InstallPhase, deploy_storage, deploy_resources, remove_bootstrap,
  unrecognised,
}
use aro_rp.Api.Document.{OpenShiftClusterDocument}
use aro_rp.Action.{M, fail, lift, ◌>>=◌}
use aro_rp.Azure.{ResourceParser}
use aro_rp.Cosmos.Service.{Service}
use aro_rp.Database.Clusters.{patch_with_lease}

-- Phase++ on an int
unfoldable pub next : InstallPhase → InstallPhase
next deploy_storage = deploy_resources
next deploy_resources = remove_bootstrap
next remove_bootstrap = unrecognised 3
next (unrecognised n) = unrecognised (suc n)

-- The functions given to PatchWithLease, on the properties of the document read; a nil pointer panics.
unfoldable pub begun : Properties → Result Properties
begun p = elim p.install [
  | none ↦ ok (record p { install = some (record { now = 0; phase = deploy_storage }) })
  | some i ↦ ok p
]

unfoldable pub advanced : Properties → Result Properties
unfolding next
advanced p = elim p.install [
  | none ↦ err (other "nil pointer dereference")
  | some i ↦ ok (record p { install = some (record i { phase = next i.phase }) })
]

unfoldable pub finished : Properties → Result Properties
finished p = ok (record p { install = none })

-- The three phases: each takes `i.doc` and returns what it leaves there.
pub record Phases (S : Type 0) : Type 0 where
  pub storage : OpenShiftClusterDocument → M S OpenShiftClusterDocument
  pub resources : OpenShiftClusterDocument → M S OpenShiftClusterDocument
  pub bootstrap : OpenShiftClusterDocument → M S OpenShiftClusterDocument

module _ {S : Type 0} (svc : Service S OpenShiftClusterDocument) (path : String)
    (parse : ResourceParser) (uuid : String) (phases : Phases S) where
  -- A function on the properties of a document, as a function on the document
  abbrev pub on_properties :
      (Properties → Result Properties) → OpenShiftClusterDocument → M S OpenShiftClusterDocument
  on_properties f d = lift (
      bind (f d.open_shift_cluster.properties)
        λ p. ok (record d { open_shift_cluster = record d.open_shift_cluster { properties = p } }))

  -- i.doc, err = i.db.PatchWithLease(ctx, i.doc.Key, ...)
  unfoldable pub patch :
      (Properties → Result Properties) → OpenShiftClusterDocument → M S OpenShiftClusterDocument
  unfolding patch_with_lease
  patch f d = patch_with_lease svc path parse uuid d.key (on_properties f) none

  -- The loop, on fuel
  unfoldable pub run_phases : ℕ → OpenShiftClusterDocument → M S OpenShiftClusterDocument
  unfolding patch advanced finished
  run_phases zero d = fail (other "too many phases")
  run_phases (suc n) d =
      let rest = run_phases n in
      elim d.open_shift_cluster.properties.install [
        | none ↦ fail (other "nil pointer dereference")
        | some i ↦ elim i.phase [
          | deploy_storage ↦ phases.storage d >>= (λ d. patch advanced d >>= rest)
          | deploy_resources ↦ phases.resources d >>= (λ d. patch advanced d >>= rest)
          | remove_bootstrap ↦ phases.bootstrap d >>= patch finished
          | unrecognised n ↦ fail (other "unrecognised phase")
        ]
      ]

  -- Install
  unfoldable pub install : OpenShiftClusterDocument → M S OpenShiftClusterDocument
  unfolding run_phases begun
  install d = patch begun d >>= run_phases 3
