-- ===== src/Backend/Manager.antt =====
-- pkg/backend/openshiftcluster/delete.go
mod Deletion
pub mod Tests
use aro_rp.Base.{ℕ, String, Bool, Option, none, some, List, [], ◌∷◌, eqb, if◌then◌else◌}
use aro_rp.Base.Text.{equal_fold}
use aro_rp.Api.Error.{Error, Result, ok, err, other, detailed}
use aro_rp.Api.Document.{OpenShiftClusterDocument}
use aro_rp.Action.{M, pure, fail, lift, attempt, call, ◌>>=◌, ◌>>◌}
use aro_rp.Cloud.Subnets as Subnets
use aro_rp.Cloud.Subnets.{Subnet, first_worker, network_security_group_id}
use aro_rp.Cloud.Dns as Dns
use aro_rp.Cloud.PrivateEndpoint as PrivateEndpoint
use aro_rp.Cloud.Clients.{Clients, after_slash}

-- s.SubnetPropertiesFormat.NetworkSecurityGroup = group
unfoldable pub with_group : Option (Option String) → Subnet → Subnet
with_group group s = record s {
  properties = elim s.properties [
    | none ↦ none
    | some p ↦ some (record p { network_security_group = group })
  ];
}

-- s.SubnetPropertiesFormat.NetworkSecurityGroup, `none` where a pointer on the way is nil
unfoldable pub group_of : Subnet → Option (Option String)
group_of s = elim s.properties [ none ↦ none | some p ↦ p.network_security_group ]

-- An error that is logged and dropped
abbrev pub ignore : {S A : Type 0} → M S A → M S (Unit {0})
ignore m w = (ok tt, (m w).1)

-- A resource group that may not be deleted counts as deleted.
unfoldable pub forgiven : Result (Unit {0}) → Result (Unit {0})
forgiven (err (detailed status)) = if eqb status 403 then ok tt else err (detailed status)
forgiven r = r

module _ {S : Type 0} (clients : Clients S) (d : OpenShiftClusterDocument) where
  -- The end of the loop's body: the group is removed if it is the one expected, and an error of that
  -- is dropped.
  unfoldable pub remove_group : String → Subnet → String → Option (Option String) → M S (Unit {0})
  unfolding with_group
  remove_group id s nsg none = pure tt
  remove_group id s nsg (some none) = fail (other "nil pointer dereference")
  remove_group id s nsg (some (some attached)) =
      if equal_fold attached nsg
      then ignore (Subnets.create_or_update clients.subnets clients.parse id (with_group none s))
      else pure tt

  -- What the loop's body does with the answer of Get; an error ends it.
  unfoldable pub detach_after : String → Result Subnet → M S (Unit {0})
  unfolding remove_group group_of
  detach_after id (err e) = pure tt
  detach_after id (ok s) = elim (network_security_group_id d.open_shift_cluster id) [
    | err e ↦ pure tt
    | ok nsg ↦ remove_group id s nsg (group_of s)
  ]

  -- The loop's body
  unfoldable pub detach : String → M S (Unit {0})
  unfolding detach_after
  detach id = do r ← attempt (Subnets.get clients.subnets clients.parse id); detach_after id r

  -- Delete. The first worker profile is read before the loop, so that in it NetworkSecurityGroupID
  -- does not panic.
  unfoldable pub delete : M S (Unit {0})
  unfolding detach forgiven
  delete = do
    Dns.delete clients.env clients.record_sets d.open_shift_cluster
    worker ← lift (first_worker d.open_shift_cluster)
    detach d.open_shift_cluster.properties.master_profile.subnet_id
    detach worker.subnet_id
    PrivateEndpoint.delete clients.env clients.private_endpoints d
    r ← attempt (
        call (
          clients.groups
            (after_slash d.open_shift_cluster.properties.cluster_profile.resource_group_id)))
    lift (forgiven r)
