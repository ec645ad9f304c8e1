-- ===== src/Install/Attach.antt =====
-- The end of installStorage in pkg/install/0-installstorage.go: the network security groups of the
-- cluster are attached to its subnets.
mod Kept
mod Tests
use aro_rp.Base.{String, Option, none, some, List, [], if◌then◌else◌}
use aro_rp.Base.Text.{equal_fold}
use aro_rp.Api.Error.{other}
use aro_rp.Api.Document.{OpenShiftClusterDocument}
use aro_rp.Action.{M, pure, fail, lift, ◌>>=◌, ◌>>◌}
use aro_rp.Azure.{ResourceParser}
use aro_rp.Cloud.Subnets as Subnets
use aro_rp.Cloud.Subnets.{
  Subnet, SubnetProperties, SubnetsClient, first_worker, network_security_group_id,
}

-- &mgmtnetwork.SubnetPropertiesFormat{}
abbrev pub empty_format : SubnetProperties
empty_format = record {
  address_prefix = none;
  network_security_group = none;
  service_endpoints = none;
  private_link_service_network_policies = none;
}

-- s.SubnetPropertiesFormat, made empty where it is nil
unfoldable pub format_of : Subnet → SubnetProperties
format_of s = elim s.properties [ none ↦ empty_format | some p ↦ p ]

-- s.SubnetPropertiesFormat.NetworkSecurityGroup = &mgmtnetwork.SecurityGroup{ID: nsgID}
unfoldable pub with_group : String → Subnet → Subnet
unfolding format_of
with_group nsg s = record s {
  properties = some (record (format_of s) { network_security_group = some (some nsg) });
}

module _ {S : Type 0} (client : SubnetsClient S) (parse : ResourceParser)
    (d : OpenShiftClusterDocument) where
  -- The end of the loop's body, on the group that the subnet has: `continue` is to be done with it.
  unfoldable pub attach_group : String → Subnet → String → Option (Option String) → M S (Unit {0})
  unfolding with_group
  attach_group id s nsg none = Subnets.create_or_update client parse id (with_group nsg s)
  attach_group id s nsg (some none) = fail (other "nil pointer dereference")
  attach_group id s nsg (some (some attached)) =
      if equal_fold attached nsg
      then pure tt
      else fail (other "tried to overwrite non-nil network security group")

  -- The loop's body
  unfoldable pub attach : String → M S (Unit {0})
  unfolding attach_group format_of
  attach id = do
    s ← Subnets.get client parse id
    nsg ← lift (network_security_group_id d.open_shift_cluster id)
    attach_group id s nsg (format_of s).network_security_group

  -- The loop over the subnets of the masters and of the first worker profile
  unfoldable pub attach_groups : M S (Unit {0})
  unfolding attach
  attach_groups = do
    worker ← lift (first_worker d.open_shift_cluster)
    attach d.open_shift_cluster.properties.master_profile.subnet_id
    attach worker.subnet_id
