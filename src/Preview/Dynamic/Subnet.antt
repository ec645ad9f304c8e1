-- ===== src/Preview/Dynamic/Subnet.antt =====
-- The checks of validateSubnet in pkg/api/v20191231preview/openshiftcluster_validatedynamic.go.
use aro_rp.Base.{
  ℕ, String, Bool, true, false, ◌&&◌, Option, none, some, List, [], ◌∷◌, ◌==◌, ltb, if◌then◌else◌,
}
use aro_rp.Base.Text.{equal_fold}
use aro_rp.Api.Error.{Error, Result, ok, err, other, new_cloud_error, bind}
use aro_rp.Api.Cluster.{ProvisioningState, OpenShiftCluster, creating}
use aro_rp.Cloud.Subnets.{ServiceEndpoint, Subnet, network_security_group_id}

-- net.ParseCIDR, the ones of a network's mask, and cidr.VerifyNoOverlap within all of IPv4, on
-- networks of a type `N`
pub record Networks (N : Type 0) : Type 0 where
  pub cidr : String → Option N
  pub ones : N → ℕ
  pub disjoint : List N → Bool

abbrev pub parse_cidr : {N : Type 0} → Networks N → String → Result N
parse_cidr nets s = elim (nets.cidr s) [ none ↦ err (other "invalid CIDR address") | some n ↦ ok n ]

-- the value of a pointer
abbrev pub deref {ℓ} : {A : Type ℓ} → Option A → Result A
deref none = err (other "nil pointer dereference")
deref (some a) = ok a

abbrev pub linked : String → Error
linked path = new_cloud_error 400 "InvalidLinkedVNet" path

abbrev pub demand : Bool → Error → Result (Unit {0})
demand true e = ok tt
demand false e = err e

-- the test of privateLinkServiceNetworkPolicies
unfoldable pub check_policies : OpenShiftCluster → String → String → Subnet → Result (Unit {0})
check_policies oc path id s =
    if equal_fold oc.properties.master_profile.subnet_id id
    then bind (deref s.properties) (λ p.
      bind (deref p.private_link_service_network_policies)
        (λ policies. demand (equal_fold policies "Disabled") (linked path)))
    else ok tt

-- the loop over the service endpoints, up to the first that fits
unfoldable pub has_registry : List ServiceEndpoint → Result Bool
has_registry [] = ok false
has_registry (e ∷ es) =
    let rest = has_registry es in
    bind (deref e.service) (λ name.
      if equal_fold name "Microsoft.ContainerRegistry" && e.provisioning_state == "Succeeded"
      then ok true
      else rest)

unfoldable pub check_endpoints : String → Subnet → Result (Unit {0})
unfolding has_registry
check_endpoints path s = bind (deref s.properties) (λ p.
    bind (deref p.service_endpoints) (λ es. bind (has_registry es) (λ b. demand b (linked path))))

-- the network security group of a subnet, `none` where a pointer on the way to it is nil
abbrev pub group_of : Subnet → Option (Option String)
group_of s = elim s.properties [ none ↦ none | some p ↦ p.network_security_group ]

abbrev pub no_group : String → Option (Option String) → Result (Unit {0})
no_group path none = ok tt
no_group path (some g) = err (linked path)

abbrev pub right_group : String → String → Option (Option String) → Result (Unit {0})
right_group path nsg none = err (linked path)
right_group path nsg (some g) = bind (deref g) (λ id. demand (equal_fold id nsg) (linked path))

-- the test of the network security group, which depends on whether the cluster is being created
unfoldable pub check_group_in :
    ProvisioningState → OpenShiftCluster → String → Subnet → Result (Unit {0})
check_group_in creating oc path s = no_group path (group_of s)
check_group_in state oc path s =
    bind (deref s.id)
      (λ id. bind (network_security_group_id oc id) (λ nsg. right_group path nsg (group_of s)))

unfoldable pub check_group : OpenShiftCluster → String → Subnet → Result (Unit {0})
unfolding check_group_in
check_group oc path s = check_group_in oc.properties.provisioning_state oc path s

module _ {N : Type 0} (nets : Networks N) where
  -- the address prefix, which is a /27 at least
  unfoldable pub check_size : String → Subnet → Result N
  check_size path s = bind (deref s.properties) (λ p. bind (deref p.address_prefix) (λ prefix.
      bind (parse_cidr nets prefix)
        (λ n. if ltb 27 (nets.ones n) then err (linked path) else ok n)))

  -- validateSubnet after Get
  unfoldable pub check_subnet : OpenShiftCluster → String → String → Subnet → Result N
  unfolding check_policies check_endpoints check_group check_size
  check_subnet oc path id s = bind (check_policies oc path id s) (λ _.
      bind (check_endpoints path s) (λ _. bind (check_group oc path s) (λ _. check_size path s)))
