-- ===== src/Preview/Dynamic.antt =====
-- pkg/api/v20191231preview/openshiftcluster_validatedynamic.go
pub mod Subnet
pub mod Allowed
pub mod Passed
pub mod Unchecked
mod Tests
use aro_rp.Base.{
  ℕ, zero, suc, String, Bool, not, true, false, Option, none, some, List, [], ◌∷◌, any, ◌==◌, eqb,
  if◌then◌else◌,
}
use aro_rp.Api.Error.{Error, Result, ok, err, other, detailed, new_cloud_error, bind}
use aro_rp.Api.Cluster.{OpenShiftCluster}
use aro_rp.Action.{World, M, pure, lift, attempt, call, ◌>>=◌, ◌>>◌}
use aro_rp.Azure.{ResourceParser, parse_resource_id}
use aro_rp.Permissions.{Permission, can_do_action}
use aro_rp.Cloud.Subnets.{SubnetsClient, first_worker}
use aro_rp.Cloud.Subnets as Subnets
use aro_rp.Preview.Patterns.{split_subnet}
use aro_rp.Preview.Dynamic.Subnet.{Networks, parse_cidr, demand, linked, check_subnet}

-- What the validator calls of go-autorest and of env.Interface, `T` being the type of tokens and of
-- the authorizers made of them: the token of client credentials for a resource, EnsureFresh, the
-- roles that an access token claims, FPAuthorizer, ListForResource of a client made for a
-- subscription and an authorizer, and the client of subnets.
pub record Identity (S T : Type 0) : Type 0 where
  pub service_principal_token : String → String → String → String → Result T
  pub ensure_fresh : T → S → Result (Unit {0}) × S
  pub roles : T → S → Result (List String)
  pub fp_authorizer : String → String → S → Result T × S
  pub list_for_resource :
      String → T → String → String → String → String → S → Result (List Permission) × S
  pub subnets : String → T → SubnetsClient S

abbrev pub resource_manager_endpoint : String
resource_manager_endpoint = "https://management.azure.com/"

abbrev pub graph_endpoint : String
graph_endpoint = "https://graph.windows.net/"

-- Tries of wait.PollImmediate with an interval of one second and a timeout of 30
abbrev pub polls : ℕ
polls = 31

abbrev invalid_credentials : Error
invalid_credentials =
    new_cloud_error 400 "InvalidServicePrincipalCredentials" "properties.servicePrincipalProfile"

-- the actions that are needed on the virtual network
abbrev pub actions : List String
actions =
    "Microsoft.Network/virtualNetworks/subnets/join/action"
    ∷ "Microsoft.Network/virtualNetworks/subnets/read"
    ∷ "Microsoft.Network/virtualNetworks/subnets/write" ∷ []

-- The loop over the actions
unfoldable pub check_actions : String → List Permission → List String → Result (Unit {0})
check_actions code ps [] = ok tt
check_actions code ps (a ∷ more) =
    let rest = check_actions code ps more in
    bind (can_do_action ps a) λ granted. if granted then rest else err (new_cloud_error 400 code "")

-- What ListForResource answered: a missing virtual network is an error of the request.
unfoldable pub listed : Result (List Permission) → Result (List Permission)
listed (err (detailed status)) =
    if eqb status 404
    then err (new_cloud_error 400 "InvalidLinkedVNet" "")
    else err (detailed status)
listed r = r

module _ {S T N : Type 0} (azure : Identity S T) (nets : Networks N) (parse : ResourceParser) where
  -- wait.PollImmediate of EnsureFresh. The closure has an `err` of its own, and what PollImmediate
  -- returns is dropped.
  unfoldable pub poll : ℕ → T → M S (Unit {0})
  poll zero t = pure tt
  poll (suc n) t = do
    r ← attempt (call (azure.ensure_fresh t))
    elim r [ ok u ↦ pure tt | err e ↦ poll n t ]

  -- validateServicePrincipalProfile; `err` is still nil where it is tested.
  unfoldable pub validate_service_principal_profile : OpenShiftCluster → M S T
  unfolding poll
  validate_service_principal_profile oc = do
    let p = oc.properties.service_principal_profile
    t ← lift (
        azure.service_principal_token p.client_id p.client_secret p.tenant_id
          resource_manager_endpoint)
    poll polls t
    pure t

  -- validateServicePrincipalRole; the same
  unfoldable pub validate_service_principal_role : OpenShiftCluster → M S (Unit {0})
  unfolding poll
  validate_service_principal_role oc = do
    let p = oc.properties.service_principal_profile
    t ← lift (azure.service_principal_token p.client_id p.client_secret p.tenant_id graph_endpoint)
    poll polls t
    roles ← (λ w. (azure.roles t w.store, w))
    lift (demand (not (any (λ r. r == "Application.ReadWrite.OwnedBy") roles)) invalid_credentials)

  -- validateVnetPermissions, with the client's subscription and authorizer
  unfoldable pub validate_vnet_permissions : OpenShiftCluster → String → T → String → M S (Unit {0})
  unfolding check_actions listed
  validate_vnet_permissions oc subscription t code = do
    (vnet, name) ← lift (split_subnet oc.properties.master_profile.subnet_id)
    r ← lift (parse_resource_id parse vnet)
    answer ← attempt (
        call (
          azure.list_for_resource subscription t r.resource_group r.provider r.resource_type
            r.resource_name))
    ps ← lift (listed answer)
    lift (check_actions code ps actions)

  -- What validateSubnet does with the answer of Get
  unfoldable pub found_subnet : String → Result Subnets.Subnet → Result Subnets.Subnet
  found_subnet path (err (detailed status)) =
      if eqb status 404
      then err (new_cloud_error 400 "InvalidLinkedVNet" path)
      else err (detailed status)
  found_subnet path r = r

  -- validateSubnet
  unfoldable pub validate_subnet : OpenShiftCluster → SubnetsClient S → String → String → M S N
  unfolding found_subnet
  validate_subnet oc client path id = do
    answer ← attempt (Subnets.get client parse id)
    s ← lift (found_subnet path answer)
    lift (check_subnet nets oc path id s)

  -- validateSubnets
  unfoldable pub validate_subnets : OpenShiftCluster → SubnetsClient S → M S (Unit {0})
  unfolding validate_subnet
  validate_subnets oc client = do
    master ←
        validate_subnet oc client "properties.masterProfile.subnetId"
          oc.properties.master_profile.subnet_id
    w ← lift (first_worker oc)
    worker ← validate_subnet oc client "properties.workerProfiles[\"worker\"].subnetId" w.subnet_id
    pod ← lift (parse_cidr nets oc.properties.network_profile.pod_cidr)
    service ← lift (parse_cidr nets oc.properties.network_profile.service_cidr)
    lift (demand (nets.disjoint (master ∷ worker ∷ pod ∷ service ∷ [])) (linked ""))

  -- Dynamic
  unfoldable pub dynamic : OpenShiftCluster → M S (Unit {0})
  unfolding validate_service_principal_profile validate_service_principal_role
      validate_vnet_permissions validate_subnets
  dynamic oc = do
    r ← lift (parse_resource_id parse oc.id)
    t ← validate_service_principal_profile oc
    validate_service_principal_role oc
    validate_vnet_permissions oc r.subscription_id t "InvalidServicePrincipalPermissions"
    fp ← call (
        azure.fp_authorizer oc.properties.service_principal_profile.tenant_id
          resource_manager_endpoint)
    validate_vnet_permissions oc r.subscription_id fp "InvalidResourceProviderPermissions"
    validate_subnets oc (azure.subnets r.subscription_id t)
