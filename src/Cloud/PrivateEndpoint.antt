-- ===== src/Cloud/PrivateEndpoint.antt =====
-- pkg/util/privateendpoint/privateendpoint.go
use Prim.Native.String
use aro_rp.Base.{String, Option, none, some}
use aro_rp.Api.Error.{Result, ok, err, other}
use aro_rp.Api.Document.{OpenShiftClusterDocument}
use aro_rp.Action.{M, attempt, lift, call, ◌>>=◌}
use aro_rp.Cloud.{Env}

-- network.PrivateEndpoint, as far as it is written: the subnet, the name and the service of its one
-- manual connection, and the location
pub record PrivateEndpoint : Type 0 where
  pub subnet_id : String
  pub connection_name : String
  pub private_link_service_id : String
  pub location : String

-- network.PrivateEndpointsClient: CreateOrUpdateAndWait and DeleteAndWait of a resource group and a
-- name, and Get with its network interfaces, of which the model keeps the first private IP address
-- (`none` where a pointer or a slice on the way is nil or empty).
pub record PrivateEndpointsClient (S : Type 0) : Type 0 where
  pub create_or_update_and_wait : String → String → PrivateEndpoint → S → Result (Unit {0}) × S
  pub delete_and_wait : String → String → S → Result (Unit {0}) × S
  pub get : String → String → String → S → Result (Option String) × S

abbrev pub prefixed : String → String
prefixed id = String.◌++◌ "rp-pe-" id

module _ {S : Type 0} (env : Env) (client : PrivateEndpointsClient S) where
  -- Create
  unfoldable pub create : OpenShiftClusterDocument → M S (Unit {0})
  create d = call (
      client.create_or_update_and_wait env.resource_group (prefixed d.id) (record {
        subnet_id = String.◌++◌ "/subscriptions/" (
            String.◌++◌ env.subscription_id (
              String.◌++◌ "/resourceGroups/" (
                String.◌++◌ env.resource_group
                  "/providers/Microsoft.Network/virtualNetworks/rp-vnet/subnets/rp-pe-subnet")));
        connection_name = "rp-plsconnection";
        private_link_service_id =
            String.◌++◌ d.open_shift_cluster.properties.cluster_profile.resource_group_id
              "/providers/Microsoft.Network/privateLinkServices/aro-pls";
        location = d.open_shift_cluster.location;
      }))

  -- Delete
  unfoldable pub delete : OpenShiftClusterDocument → M S (Unit {0})
  delete d = call (client.delete_and_wait env.resource_group (prefixed d.id))

  -- what GetIP returns of the answer of Get: an error counts as no address
  unfoldable pub address_of : Result (Option String) → Result String
  address_of (err e) = ok ""
  address_of (ok none) = err (other "nil pointer dereference")
  address_of (ok (some ip)) = ok ip

  -- GetIP
  unfoldable pub get_ip : OpenShiftClusterDocument → M S String
  unfolding address_of
  get_ip d = do
    r ← attempt (call (client.get env.resource_group (prefixed d.id) "networkInterfaces"))
    lift (address_of r)
