-- ===== src/Cloud/Subnets.antt =====
-- pkg/util/subnet/subnet.go
use Prim.Native.String
use aro_rp.Base.{String, Option, some, List, ◌∷◌, if◌then◌else◌}
use aro_rp.Base.Text.{equal_fold}
use aro_rp.Api.Error.{Result, ok, err, other, bind}
use aro_rp.Api.Cluster.{WorkerProfile, OpenShiftCluster}
use aro_rp.Action.{M, lift, call, ◌>>=◌}
use aro_rp.Azure.{ResourceParser, parse_resource_id}
use aro_rp.Preview.Patterns.{split_subnet}

-- network.ServiceEndpointPropertiesFormat
pub record ServiceEndpoint : Type 0 where
  pub service : Option String
  pub provisioning_state : String

-- network.SubnetPropertiesFormat; of the network security group, its ID.
pub record SubnetProperties : Type 0 where
  pub address_prefix : Option String
  pub network_security_group : Option (Option String)
  pub service_endpoints : Option (List ServiceEndpoint)
  pub private_link_service_network_policies : Option String

-- network.Subnet
pub record Subnet : Type 0 where
  pub id : Option String
  pub properties : Option SubnetProperties

-- network.SubnetsClient: Get and CreateOrUpdateAndWait of a resource group, a virtual network and a
-- subnet
pub record SubnetsClient (S : Type 0) : Type 0 where
  pub get : String → String → String → S → Result Subnet × S
  pub create_or_update_and_wait : String → String → String → Subnet → S → Result (Unit {0}) × S

module _ {S : Type 0} (client : SubnetsClient S) (parse : ResourceParser) where
  -- Get
  unfoldable pub get : String → M S Subnet
  get id = do
    (vnet, name) ← lift (split_subnet id)
    r ← lift (parse_resource_id parse vnet)
    call (client.get r.resource_group r.resource_name name)

  -- CreateOrUpdate
  unfoldable pub create_or_update : String → Subnet → M S (Unit {0})
  create_or_update id s = do
    (vnet, name) ← lift (split_subnet id)
    r ← lift (parse_resource_id parse vnet)
    call (client.create_or_update_and_wait r.resource_group r.resource_name name s)

-- WorkerProfiles[0]; an index out of range panics.
unfoldable pub first_worker : OpenShiftCluster → Result WorkerProfile
first_worker oc = elim oc.properties.worker_profiles [
  | some (w ∷ ws) ↦ ok w
  | _ ↦ err (other "index out of range")
]

-- NetworkSecurityGroupID
unfoldable pub network_security_group_id : OpenShiftCluster → String → Result String
unfolding first_worker
network_security_group_id oc id =
    let group = oc.properties.cluster_profile.resource_group_id in
    if equal_fold id oc.properties.master_profile.subnet_id
    then ok (
        String.◌++◌ group "/providers/Microsoft.Network/networkSecurityGroups/aro-controlplane-nsg")
    else bind (first_worker oc) λ w.
      if equal_fold id w.subnet_id
      then ok (String.◌++◌ group "/providers/Microsoft.Network/networkSecurityGroups/aro-node-nsg")
      else err (other "unknown subnetID")
