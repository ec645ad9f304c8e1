-- ===== src/Install/Phases/Changes.antt =====
-- The functions that Install of pkg/install/install.go has PatchWithLease apply to the properties.
use aro_rp.Base.{ℕ, ◌≤◌, String, ◌≡◌, refl, ◌⊎◌, inl, inr, Option, none, some, arith}
use aro_rp.Api.Error.{Result, ok, err, other}
use aro_rp.Api.Cluster.{
  Properties, Install, InstallPhase, deploy_storage, deploy_resources, remove_bootstrap,
  unrecognised,
}
use aro_rp.Api.Document.{OpenShiftClusterDocument}
use aro_rp.Install.Phases.{next, begun, advanced, finished}

abbrev pub installed : OpenShiftClusterDocument → Option Install
installed d = d.open_shift_cluster.properties.install

-- The phases left when one begins
abbrev pub left : InstallPhase → ℕ
left deploy_storage = 3
left deploy_resources = 2
left remove_bootstrap = 1
left (unrecognised n) = 0

-- A function that fails, if at all, with an error of fmt or a panic: none that a request is tried
-- again for
abbrev pub IsPlain : (Properties → Result Properties) → Type 0
IsPlain f =
    (p : Properties) → ((q : Properties) × (f p ≡ ok q)) ⊎ ((t : String) × (f p ≡ err (other t)))

pub begun-IsPlain : IsPlain begun
unfolding begun
begun-IsPlain p = by_install p.install
  where
    by_install :
        (o : Option Install)
        → let r : Result Properties = elim o [
          | none ↦ ok (record p { install = some (record { now = 0; phase = deploy_storage }) })
          | some i ↦ ok p
        ] in
          ((q : Properties) × (r ≡ ok q)) ⊎ ((t : String) × (r ≡ err (other t)))
    by_install none = inl (_, refl)
    by_install (some i) = inl (_, refl)

pub advanced-IsPlain : IsPlain advanced
unfolding advanced
advanced-IsPlain p = by_install p.install
  where
    by_install :
        (o : Option Install)
        → let r : Result Properties = elim o [
          | none ↦ err (other "nil pointer dereference")
          | some i ↦ ok (record p { install = some (record i { phase = next i.phase }) })
        ] in
          ((q : Properties) × (r ≡ ok q)) ⊎ ((t : String) × (r ≡ err (other t)))
    by_install none = inr (_, refl)
    by_install (some i) = inl (_, refl)

pub finished-IsPlain : IsPlain finished
unfolding finished
finished-IsPlain p = inl (_, refl)

-- Where an installation goes on
abbrev pub resumed : Option Install → Install
resumed none = record { now = 0; phase = deploy_storage }
resumed (some i) = i

-- No installation has begun, or it is in one of the three phases.
abbrev pub IsStarted : Option Install → Type 0
IsStarted none = Unit
IsStarted (some i) = 1 ≤ left i.phase

pub advance_install :
    (p q : Properties) (i : Install)
    → p.install ≡ some i
    → advanced p ≡ ok q
    → q.install ≡ some (record i { phase = next i.phase })
unfolding advanced
advance_install p q i at h =
    let done : ok (record p { install = some (record i { phase = next i.phase }) }) ≡ ok q =
      rw at at h in
    cc done

pub finish_install : (p q : Properties) → finished p ≡ ok q → q.install ≡ none
unfolding finished
finish_install p q h = cc h

pub begun_install : (p q : Properties) → begun p ≡ ok q → q.install ≡ some (resumed p.install)
unfolding begun
begun_install p q h = by_install p.install refl h
  where
    by_install :
        (o : Option Install)
        → p.install ≡ o
        → (elim o as (λ _. Result Properties) [
          | none ↦ ok (record p { install = some (record { now = 0; phase = deploy_storage }) })
          | some i ↦ ok p
        ])
          ≡ ok q
        → q.install ≡ some (resumed o)
    by_install none e done = cc done
    by_install (some i) e done = cc (done, e)

pub resumed-left : (o : Option Install) → IsStarted o → 1 ≤ left (resumed o).phase
resumed-left none h = omega arith
resumed-left (some i) h = h

pub left_most : (p : InstallPhase) → left p ≤ 3
left_most deploy_storage = omega arith
left_most deploy_resources = omega arith
left_most remove_bootstrap = omega arith
left_most (unrecognised n) = omega arith
