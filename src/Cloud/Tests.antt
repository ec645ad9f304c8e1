-- ===== src/Cloud/Tests.antt =====
-- Runs of the DNS manager on a zone in memory, and the theorems there.
use mathlib.Core.List as List
use aro_rp.Base.{◌≡◌, ◌≢◌, refl, none, some, ◌⊎◌, ◌==◌, if◌then◌else◌}
use aro_rp.Api.Error.{ok}
use aro_rp.Api.Cluster.{OpenShiftCluster, empty_properties}
use aro_rp.Action.{World}
use aro_rp.Cloud.{Env}
use aro_rp.Cloud.Dns as Dns
use aro_rp.Cloud.Dns.{managed, managed_domain}
use aro_rp.Cloud.Dns.Owners as Owners
use aro_rp.Cloud.Dns.Owners.{create-Created, delete-IsDeleted}
use aro_rp.Cloud.Dns.Names.{install_domain, managed_domain-install_domain}
use aro_rp.Cloud.Memory.{Names, found, zone, zone-IsDocumented}

abbrev env : Env
env = record { subscription_id = "sub"; resource_group = "rp"; domain = "aro.io" }

abbrev oc : OpenShiftCluster
oc = record {
  id = "/c";
  name = "c";
  type = "";
  location = "";
  tags = none;
  properties = record empty_properties {
    cluster_profile = record { domain = "c.aro.io"; version = ""; resource_group_id = "" };
  };
}

abbrev ours : Names
ours n = if n == "api.c" then some (record { owner = some "/c"; addresses = List.[] }) else none

abbrev empty_zone : Names
empty_zone n = none

abbrev start : Names → World Names
start s = record { store = s; others = List.[] }

abbrev updated : World Names
updated = (Dns.update env zone oc "10.0.0.1" (start ours)).1

abbrev created : World Names
created = (Dns.create env zone oc (start empty_zone)).1

abbrev removed : World Names
removed = (Dns.delete env zone oc (start ours)).1

is_managed : managed env zone oc ≢ ""
unfolding managed_domain
is_managed e = cc

create_run : Dns.create env zone oc (start empty_zone) ≡ (ok tt, created)
unfolding Dns.create managed_domain
create_run = refl

delete_run : Dns.delete env zone oc (start ours) ≡ (ok tt, removed)
unfolding Dns.delete managed_domain
delete_run = refl

create-Created_example :
    Owners.Created env zone oc found zone-IsDocumented (start empty_zone) created.store
create-Created_example =
    create-Created env zone oc found zone-IsDocumented (start empty_zone) is_managed create_run

delete-IsDeleted_example :
    Owners.Kept env zone oc found zone-IsDocumented (start ours) removed.store
    ⊎ Owners.IsDeleted env zone oc found zone-IsDocumented (start ours) removed.store
delete-IsDeleted_example =
    delete-IsDeleted env zone oc found zone-IsDocumented (start ours) is_managed delete_run

-- A name without a dot
managed_domain-install_domain_example :
    managed_domain env (install_domain env "c") ≡ managed_domain env "c"
managed_domain-install_domain_example = managed_domain-install_domain env "c"
