-- ===== src/Backend/Manager/Tests.antt =====
-- A run of Delete of a manager on clients that always answer the same, and the theorem there.
use aro_rp.Base.{String, ◌≡◌, refl, none, some, List, [], ◌∷◌}
use aro_rp.Base.Text.{to_lower, equal_fold}
use aro_rp.Base.Split.{split}
use aro_rp.Api.Error.{ok, err, detailed}
use aro_rp.Api.Cluster.{OpenShiftCluster, empty_properties, deleting}
use aro_rp.Api.Document.{OpenShiftClusterDocument}
use aro_rp.Action.{World}
use aro_rp.Cloud.Subnets as Subnets
use aro_rp.Cloud.Subnets.{first_worker, network_security_group_id}
use aro_rp.Cloud.Dns as Dns
use aro_rp.Cloud.Dns.{managed_domain}
use aro_rp.Cloud.PrivateEndpoint as PrivateEndpoint
use aro_rp.Cloud.Clients.{Clients, after_slash}
use aro_rp.Preview.Patterns.{split_subnet}
use aro_rp.Database.Tests.{document}
use aro_rp.Backend.Manager.{delete}
use aro_rp.Backend.Manager.Deletion.{IsTornDown, delete-IsTornDown}

-- The state is what was sent. The resource group may not be deleted.
abbrev Sent : Type 0
Sent = List String

abbrev pub clients : Clients Sent
clients = record {
  env = record { subscription_id = "s"; resource_group = "rp"; domain = "aro.io" };
  parse = λ id. some (record {
    subscription_id = "s";
    resource_group = "g";
    provider = "Microsoft.Network";
    resource_type = "virtualNetworks";
    resource_name = "v";
  });
  subnets = record {
    get = λ group vnet name s. (
      ok (record {
        id = some name;
        properties = some (record {
          address_prefix = some "10.0.0.0/24";
          network_security_group =
              some (some "/RG/providers/Microsoft.Network/networkSecurityGroups/aro-node-nsg");
          service_endpoints = some [];
          private_link_service_network_policies = none;
        });
      }),
      s,
    );
    create_or_update_and_wait = λ group vnet name sn s. (ok tt, name ∷ s);
  };
  record_sets = record {
    get = λ name s. (err (detailed 404), s);
    create_or_update = λ name r m k s. (ok tt, s);
    delete = λ name m s. (ok tt, name ∷ s);
  };
  private_endpoints = record {
    create_or_update_and_wait = λ group name e s. (ok tt, s);
    delete_and_wait = λ group name s. (ok tt, name ∷ s);
    get = λ group name expand s. (ok none, s);
  };
  groups = λ name s. (err (detailed 403), name ∷ s);
  machines = λ group name s. (ok tt, s);
  disks = λ group name s. (ok tt, s);
  interfaces = λ group name s. (ok tt, s);
  addresses = λ group name s. (ok none, s);
}

abbrev oc : OpenShiftCluster
oc = record {
  id = "/c";
  name = "c";
  type = "";
  location = "";
  tags = none;
  properties = record empty_properties {
    provisioning_state = deleting;
    cluster_profile = record { domain = "c"; version = ""; resource_group_id = "/rg" };
    master_profile = record {
      vm_size = "";
      subnet_id =
          "/subscriptions/s/resourceGroups/g/providers/Microsoft.Network/virtualNetworks/v/subnets/m";
    };
    worker_profiles = some (
        record {
          name = "worker";
          vm_size = "";
          disk_size_gb = 128;
          subnet_id =
              "/subscriptions/s/resourceGroups/g/providers/Microsoft.Network/virtualNetworks/v/subnets/w";
          count = 3;
        }
        ∷ []);
  };
}

abbrev pub doc : OpenShiftClusterDocument
doc = record document { id = "1"; open_shift_cluster = oc }

abbrev start : World Sent
start = record { store = []; others = [] }

-- Only the workers' subnet, which has the cluster's own group for it, is written.
delete_run :
    delete clients doc start ≡ (ok tt, record start { store = "rg" ∷ "rp-pe-1" ∷ "w" ∷ [] })
unfolding delete Dns.delete managed_domain first_worker Subnets.get Subnets.create_or_update
    split_subnet network_security_group_id PrivateEndpoint.delete after_slash equal_fold to_lower
    split
delete_run = refl

delete-IsTornDown_example :
    IsTornDown clients doc start (record start { store = "rg" ∷ "rp-pe-1" ∷ "w" ∷ [] })
delete-IsTornDown_example = delete-IsTornDown clients doc start delete_run
