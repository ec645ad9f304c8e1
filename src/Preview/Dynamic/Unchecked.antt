-- ===== src/Preview/Dynamic/Unchecked.antt =====
-- The test of credentials in pkg/api/v20191231preview/openshiftcluster_validatedynamic.go has no effect.
use aro_rp.Base.{ℕ, zero, suc, ◌≡◌, refl}
use aro_rp.Api.Error.{Result, ok, err}
use aro_rp.Api.Cluster.{OpenShiftCluster}
use aro_rp.Action.{World, M, call}
use aro_rp.Azure.{ResourceParser}
use aro_rp.Preview.Dynamic.Subnet.{Networks}
use aro_rp.Preview.Dynamic.{
  Identity, poll, polls, resource_manager_endpoint, validate_service_principal_profile,
}

module _ {S T N : Type 0} (azure : Identity S T) (nets : Networks N) (parse : ResourceParser) where
  poll-ok : (n : ℕ) (t : T) (w : World S) → (poll azure nets parse n t w).0 ≡ ok tt
  unfolding poll
  poll-ok zero t w = refl
  poll-ok (suc n) t w =
      let answer = call (azure.ensure_fresh t) w in by_answer answer.0 answer.1 (poll-ok n t)
    where
      by_answer :
          (r : Result (Unit {0})) (w' : World S)
          → ((v : World S) → (poll azure nets parse n t v).0 ≡ ok tt)
          → ((elim r as (λ _. M S (Unit {0})) [
            | ok u ↦ λ v. (ok tt, v)
            | err e ↦ poll azure nets parse n t
          ])
              w').0
            ≡ ok tt
      by_answer (ok u) w' h = refl
      by_answer (err e) w' h = h w'

  -- Whenever a token can be made of the cluster's credentials, the check of the service principal
  -- returns it without an error, whatever EnsureFresh answers: that the credentials are refused each
  -- time is never reported.
  pub credentials_unchecked :
      (oc : OpenShiftCluster) (w : World S) {t : T}
      → azure.service_principal_token oc.properties.service_principal_profile.client_id
          oc.properties.service_principal_profile.client_secret
          oc.properties.service_principal_profile.tenant_id resource_manager_endpoint
        ≡ ok t
      → (validate_service_principal_profile azure nets parse oc w).0 ≡ ok t
  unfolding validate_service_principal_profile
  credentials_unchecked oc w {t} made = rw (made, poll-ok polls t w)
