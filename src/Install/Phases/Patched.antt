-- ===== src/Install/Phases/Patched.antt =====
-- What PatchWithLease does for Install of pkg/install/install.go, from what is documented of the
-- database.
use aro_rp.Base.{ℕ, String, ◌≡◌, refl, sym, ◌∙◌, ap, ◌⊎◌, inl, inr, Option, false}
use aro_rp.Api.Error.{Result, ok, err, other, bind, bind-ok, is_error_status_code}
use aro_rp.Api.Cluster.{Properties}
use aro_rp.Api.Document.{OpenShiftClusterDocument}
use aro_rp.Action.{World, failed_with}
use aro_rp.Azure.{ResourceParser}
use aro_rp.Cosmos.Service.{Service, IsDocumented}
use aro_rp.Cosmos.Client.{document_path}
use aro_rp.Database.Clusters.{cluster_document}
use aro_rp.Database.Clusters.Claim.{cluster_view}
use aro_rp.Database.Clusters.Leased.{patch-IsLeasedWrite}
use aro_rp.Install.Phases.{Phases, patch}
use aro_rp.Install.Phases.Changes.{IsPlain}
use aro_rp.Install.Phases.Ending.{IsHeld}

-- A function on the properties, on a document
abbrev on_document :
    (Properties → Result Properties) → OpenShiftClusterDocument → Result OpenShiftClusterDocument
on_document f d =
    bind (f d.open_shift_cluster.properties)
      λ p. ok (record d { open_shift_cluster = record d.open_shift_cluster { properties = p } })

never_plain :
    (f : Properties → Result Properties)
    → IsPlain f
    → (d : OpenShiftClusterDocument) → failed_with (on_document f d) 412 ≡ false
unfolding is_error_status_code
never_plain f plain d =
    by_result (f d.open_shift_cluster.properties) (plain d.open_shift_cluster.properties)
  where
    by_result :
        (r : Result Properties)
        → ((q : Properties) × (r ≡ ok q)) ⊎ ((t : String) × (r ≡ err (other t)))
        → failed_with
            (bind r λ p.
              ok (record d { open_shift_cluster = record d.open_shift_cluster { properties = p } }))
            412
          ≡ false
    by_result r (inl (q, e)) = rw e refl
    by_result r (inr (t, e)) = rw e refl

module _ {S : Type 0} (svc : Service S OpenShiftClusterDocument) (path : String)
    (parse : ResourceParser) (uuid : String) (phases : Phases S)
    (stored : S → String → String → Option OpenShiftClusterDocument) (clock : S → ℕ)
    (documented : IsDocumented cluster_document svc (cluster_view stored clock))
    (Agrees : OpenShiftClusterDocument → World S → Type 0)
    (law : IsHeld svc path parse uuid phases stored Agrees) where
  -- A function that PatchWithLease has applied was applied to the properties that its caller had.
  pub patched :
      (f : Properties → Result Properties) (d x : OpenShiftClusterDocument) (w w' : World S)
      → IsPlain f
      → Agrees d w
      → patch svc path parse uuid phases f d w ≡ (ok x, w')
      → Agrees x w' × (f d.open_shift_cluster.properties ≡ ok x.open_shift_cluster.properties)
  unfolding patch
  patched f d x w w' plain agrees e =
      let write =
        patch-IsLeasedWrite svc path stored clock documented parse uuid d.key (on_document f) w
          (never_plain f plain) e in
      let (q, given, made) =
        bind-ok (f write.read.open_shift_cluster.properties)
          (λ p. ok (record write.read {
            open_shift_cluster = record write.read.open_shift_cluster { properties = p };
          }))
          write.makes in
      let it = ok_same made in
      let same = law.reads d write.read w agrees write.got in
      (
        law.writes f d x w w' plain agrees e
            (ap (λ d. d.lease_owner) write.content
              ∙ (sym (ap (λ d. d.lease_owner) it) ∙ write.owned))
            ((λ i.
                stored w'.store ((ap (λ d. d.partition_key) write.content) i)
                  (document_path path ((ap (λ d. d.id) write.content) i)))
              ∙ write.is_stored),
        ap f (sym same)
            ∙ given
            ∙ ap (λ d. ok d.open_shift_cluster.properties) it
            ∙ ap (λ d. ok d.open_shift_cluster.properties) (sym write.content),
      )
    where
      ok_same : {A : Type 0} {a b : A} → ok a ≡ ok b → a ≡ b
      ok_same h = cc h
