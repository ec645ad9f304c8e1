-- ===== src/Install/Phases/Resumed.antt =====
-- What Install of pkg/install/install.go does with a document that only the holder of its lease writes.
use aro_rp.Base.{
  ℕ, zero, suc, ◌≤◌, String, ◌≡◌, refl, sym, ◌∙◌, ap, ◌⊎◌, inl, inr, Option, some, arith,
}
use aro_rp.Api.Error.{Result, ok, err, other}
use aro_rp.Api.Cluster.{
  Install, InstallPhase, deploy_storage, deploy_resources, remove_bootstrap, unrecognised,
}
use aro_rp.Api.Document.{OpenShiftClusterDocument}
use aro_rp.Action.{World, M, fail, ◌>>=◌, bind_cases}
use aro_rp.Azure.{ResourceParser}
use aro_rp.Cosmos.Service.{Service, IsDocumented}
use aro_rp.Database.Clusters.{cluster_document}
use aro_rp.Database.Clusters.Claim.{cluster_view}
use aro_rp.Install.Phases.Patched.{patched}
use aro_rp.Install.Phases.{Phases, next, begun, advanced, finished, patch, run_phases, install}
use aro_rp.Install.Phases.Changes.{
  installed, left, begun-IsPlain, advanced-IsPlain, finished-IsPlain, resumed, IsStarted,
  advance_install, finish_install, begun_install, resumed-left, left_most,
}
use aro_rp.Install.Phases.Ending.{
  IsHeld, body, Follows, resources_after, bootstrap_after, Reached, start, ran, Outcome, complete,
  failed, unwritten, Installed,
}

module _ {S : Type 0} (svc : Service S OpenShiftClusterDocument) (path : String)
    (parse : ResourceParser) (uuid : String) (phases : Phases S)
    (stored : S → String → String → Option OpenShiftClusterDocument) (clock : S → ℕ)
    (documented : IsDocumented cluster_document svc (cluster_view stored clock))
    (Agrees : OpenShiftClusterDocument → World S → Type 0)
    (law : IsHeld svc path parse uuid phases stored Agrees) where
  -- what one turn of the loop does in a phase
  abbrev turn : ℕ → InstallPhase → OpenShiftClusterDocument → M S OpenShiftClusterDocument
  turn n deploy_storage = λ d. phases.storage d >>= λ d.
      patch svc path parse uuid phases advanced d >>= run_phases svc path parse uuid phases n
  turn n deploy_resources = λ d. phases.resources d >>= λ d.
      patch svc path parse uuid phases advanced d >>= run_phases svc path parse uuid phases n
  turn n remove_bootstrap = λ d. phases.bootstrap d >>= patch svc path parse uuid phases finished
  turn n (unrecognised m) = λ d. fail (other "unrecognised phase")

  run_at :
      (n t : ℕ) (p : InstallPhase) (d : OpenShiftClusterDocument)
      → installed d ≡ some (record { now = t; phase = p })
      → run_phases svc path parse uuid phases (suc n) d ≡ turn n p d
  unfolding run_phases
  run_at n t deploy_storage d at = rw at refl
  run_at n t deploy_resources d at = rw at refl
  run_at n t remove_bootstrap d at = rw at refl
  run_at n t (unrecognised m) d at = rw at refl

  abbrev Ends :
      OpenShiftClusterDocument → World S → Result OpenShiftClusterDocument × World S → Type 0
  Ends d w o = Outcome svc path parse uuid phases stored Agrees d w o.1 o.0

  -- The last phase, and then the document without an installation
  last-Ends :
      (d d1 : OpenShiftClusterDocument) (w w1 : World S) (i : Install)
      → Reached svc path parse uuid phases stored Agrees d w d1 w1
      → Agrees d1 w1
      → installed d1 ≡ some i
      → i.phase ≡ remove_bootstrap
      → Ends d w ((phases.bootstrap d1 >>= patch svc path parse uuid phases finished) w1)
  last-Ends d d1 w w1 i reached agrees at last =
      let (w2, cases) =
        bind_cases (phases.bootstrap d1) (patch svc path parse uuid phases finished) w1 in
      elim cases [
        | inl (e, did, same) ↦
            let (x, agreed, its) = (law.kept phases.bootstrap (inr refl) d1 w1 w2 agrees).1 e did in
            rw same (failed reached at (rw last (omega arith)) (rw last did) agreed (its ∙ at))
        | inr (d2, did, same) ↦
            let (agreed, its) = (law.kept phases.bootstrap (inr refl) d1 w1 w2 agrees).0 d2 did in
            rw same (
              written d2 w2 did agreed (patch svc path parse uuid phases finished d2 w2).0
                (patch svc path parse uuid phases finished d2 w2).1 refl)
      ]
    where
      written :
          (d2 : OpenShiftClusterDocument) (w2 : World S)
          → phases.bootstrap d1 w1 ≡ (ok d2, w2)
          → Agrees d2 w2
          → (r : Result OpenShiftClusterDocument) (w' : World S)
          → patch svc path parse uuid phases finished d2 w2 ≡ (r, w')
          → Outcome svc path parse uuid phases stored Agrees d w w' r
      written d2 w2 did agreed (ok x) w' wrote =
          let (agreed_x, its) =
            patched svc path parse uuid phases stored clock documented Agrees law finished d2 x w2
              w' finished-IsPlain agreed wrote in
          complete reached at last did wrote agreed_x (finish_install _ _ its)
      written d2 w2 did agreed (err e) w' wrote = unwritten finished reached at (rw last did) wrote

  -- A phase with another after it, and the rest of the loop
  more-Ends :
      (d d1 : OpenShiftClusterDocument) (w w1 : World S) (i : Install)
      (m : OpenShiftClusterDocument → M S OpenShiftClusterDocument) (n : ℕ)
      → Reached svc path parse uuid phases stored Agrees d w d1 w1
      → Agrees d1 w1
      → installed d1 ≡ some i
      → 2 ≤ left i.phase
      → Follows svc path parse uuid phases stored Agrees i.phase (next i.phase)
      → body svc path parse uuid phases stored Agrees i.phase ≡ m
      → ((m ≡ phases.storage) ⊎ (m ≡ phases.resources)) ⊎ (m ≡ phases.bootstrap)
      → ((d3 : OpenShiftClusterDocument) (w3 : World S)
          → Reached svc path parse uuid phases stored Agrees d w d3 w3
          → Agrees d3 w3
          → installed d3 ≡ some (record i { phase = next i.phase })
          → Ends d w (run_phases svc path parse uuid phases n d3 w3))
      → Ends d w (
          (m d1 >>= λ d.
          patch svc path parse uuid phases advanced d >>= run_phases svc path parse uuid phases n)
            w1)
  more-Ends d d1 w w1 i m n reached agrees at two follows is_body one rest =
      let (w2, cases) =
        bind_cases (m d1)
          (λ d.
            patch svc path parse uuid phases advanced d >>= run_phases svc path parse uuid phases n)
          w1 in
      elim cases [
        | inl (e, did, same) ↦
            let (x, agreed, its) = (law.kept m one d1 w1 w2 agrees).1 e did in
            rw same (failed reached at (omega (arith, two)) (rw is_body did) agreed (its ∙ at))
        | inr (d2, did, same) ↦
            let (agreed, its) = (law.kept m one d1 w1 w2 agrees).0 d2 did in
            rw same (written d2 w2 did agreed (its ∙ at))
      ]
    where
      written :
          (d2 : OpenShiftClusterDocument) (w2 : World S)
          → m d1 w1 ≡ (ok d2, w2)
          → Agrees d2 w2
          → installed d2 ≡ some i
          → Ends d w (
              (patch svc path parse uuid phases advanced d2
                  >>= run_phases svc path parse uuid phases n)
                w2)
      written d2 w2 did agreed its =
          let (w3, cases) =
            bind_cases (patch svc path parse uuid phases advanced d2)
              (run_phases svc path parse uuid phases n) w2 in
          elim cases [
            | inl (e, wrote, same) ↦ rw same (unwritten advanced reached at (rw is_body did) wrote)
            | inr (d3, wrote, same) ↦
                let (agreed_x, new) =
                  patched svc path parse uuid phases stored clock documented Agrees law advanced d2
                    d3 w2 w3 advanced-IsPlain agreed wrote in
                rw same (
                  rest d3 w3
                    (ran reached at (rw is_body did) wrote (advance_install _ _ i its new) follows)
                    agreed_x (advance_install _ _ i its new))
          ]

  loop-Ends :
      (n : ℕ) (d d1 : OpenShiftClusterDocument) (w w1 : World S) (t : ℕ) (p : InstallPhase)
      → Reached svc path parse uuid phases stored Agrees d w d1 w1
      → Agrees d1 w1
      → installed d1 ≡ some (record { now = t; phase = p })
      → 1 ≤ left p
      → left p ≤ n
      → Ends d w (run_phases svc path parse uuid phases n d1 w1)
  unfolding next
  loop-Ends zero d d1 w w1 t p reached agrees at some_left enough = absurd (omega arith)
  loop-Ends (suc n) d d1 w w1 t deploy_storage reached agrees at some_left enough =
      rw (run_at n t deploy_storage d1 at) (
        more-Ends d d1 w w1 (record { now = t; phase = deploy_storage }) phases.storage n reached
          agrees at (omega arith) resources_after refl (inl (inl refl))
          (λ d3 w3 reached agrees at.
            loop-Ends n d d3 w w3 t deploy_resources reached agrees at (omega arith) (omega arith)))
  loop-Ends (suc n) d d1 w w1 t deploy_resources reached agrees at some_left enough =
      rw (run_at n t deploy_resources d1 at) (
        more-Ends d d1 w w1 (record { now = t; phase = deploy_resources }) phases.resources n
          reached agrees at (omega arith) bootstrap_after refl (inl (inr refl))
          (λ d3 w3 reached agrees at.
            loop-Ends n d d3 w w3 t remove_bootstrap reached agrees at (omega arith) (omega arith)))
  loop-Ends (suc n) d d1 w w1 t remove_bootstrap reached agrees at some_left enough =
      rw (run_at n t remove_bootstrap d1 at)
        (last-Ends d d1 w w1 (record { now = t; phase = remove_bootstrap }) reached agrees at refl)
  loop-Ends (suc n) d d1 w w1 t (unrecognised k) reached agrees at some_left enough =
      absurd (omega arith)

  -- With the database as documented, a lease under which this process reads what it has, and phases
  -- that leave the stored phase alone, Install of a cluster whose stored phase is one of the three, or
  -- that has none yet, goes on where the stored phase says, and comes to an end within three phases. It
  -- runs each phase once, in the world in which the phase before it was recorded as done: the storage,
  -- then the resources, then the removal of the bootstrap node. It succeeds only after the last of
  -- them, the document having no installation any more. Else the error is that of a phase, and what is
  -- stored is still in that phase, so that the next Install begins with it; or that of writing the
  -- document.
  pub install-Installed :
      (d : OpenShiftClusterDocument) (w : World S)
      → Agrees d w
      → IsStarted (installed d)
      → Installed svc path parse uuid phases stored Agrees d w
          (install svc path parse uuid phases d w)
  unfolding install
  install-Installed d w agrees started =
      let (w1, cases) =
        bind_cases (patch svc path parse uuid phases begun d)
          (run_phases svc path parse uuid phases 3) w in
      elim cases [
        | inl (e, wrote, same) ↦
            inl (e, wrote ∙ (λ j. (err e, sym (ap (λ o. o.1) same) j)), λ j. (same j).0)
        | inr (d1, wrote, same) ↦
            let (agreed_x, new) =
              patched svc path parse uuid phases stored clock documented Agrees law begun d d1 w w1
                begun-IsPlain agrees wrote in
            let at = begun_install _ _ new in
            inr (
              d1,
              w1,
              wrote,
              at,
              rw same (
                  loop-Ends 3 d1 d1 w1 w1 (resumed (installed d)).now (resumed (installed d)).phase
                    start agreed_x at (resumed-left (installed d) started)
                    (left_most (resumed (installed d)).phase)),
            )
      ]
