-- ===== src/Preview/Dynamic/Tests.antt =====
-- A run of the dynamic validation on services that always answer the same, and the theorems there.
use aro_rp.Base.{ℕ, String, ◌≡◌, refl, true, none, some, [], ◌∷◌}
use aro_rp.Base.Text.{to_lower, equal_fold}
use aro_rp.Base.Split.{split}
use aro_rp.Api.Error.{ok, err, other}
use aro_rp.Api.Cluster.{OpenShiftCluster, empty_properties, creating}
use aro_rp.Action.{World}
use aro_rp.Azure.{ResourceParser}
use aro_rp.Permissions.{can_do_action}
use aro_rp.Cloud.Subnets.{Subnet, first_worker}
use aro_rp.Cloud.Subnets as Subnets
use aro_rp.Preview.Patterns.{split_subnet}
use aro_rp.Preview.Dynamic.Subnet.{Networks, check_subnet}
use aro_rp.Preview.Dynamic.{Identity, dynamic, validate_service_principal_profile}
use aro_rp.Preview.Dynamic.Passed.{IsAllowed, dynamic-IsAllowed}
use aro_rp.Preview.Dynamic.Unchecked.{credentials_unchecked}

abbrev nets : Networks ℕ
nets = record { cidr = λ s. some 24; ones = λ n. n; disjoint = λ ns. true }

abbrev parse : ResourceParser
parse id = some (record {
  subscription_id = "s";
  resource_group = "g";
  provider = "Microsoft.Network";
  resource_type = "virtualNetworks";
  resource_name = "v";
})

abbrev subnet : Subnet
subnet = record {
  id = some "/m";
  properties = some (record {
    address_prefix = some "10.0.0.0/24";
    network_security_group = none;
    service_endpoints = some (
        record { service = some "Microsoft.ContainerRegistry"; provisioning_state = "Succeeded" }
        ∷ []);
    private_link_service_network_policies = some "Disabled";
  });
}

-- EnsureFresh always fails: the credentials are refused.
abbrev azure : Identity (Unit {0}) String
azure = record {
  service_principal_token = λ client secret tenant resource. ok "token";
  ensure_fresh = λ t s. (err (other "unauthorized"), s);
  roles = λ t s. ok [];
  fp_authorizer = λ tenant resource s. (ok "first party", s);
  list_for_resource = λ subscription t group provider type name s.
      (ok (record { actions = some ("*" ∷ []); not_actions = some [] } ∷ []), s);
  subnets = λ subscription t. record {
    get = λ group vnet name s. (ok subnet, s);
    create_or_update_and_wait = λ group vnet name sn s. (ok tt, s);
  };
}

abbrev oc : OpenShiftCluster
oc = record {
  id = "/c";
  name = "c";
  type = "";
  location = "";
  tags = none;
  properties = record empty_properties {
    provisioning_state = creating;
    master_profile = record {
      vm_size = "";
      subnet_id =
          "/subscriptions/s/resourceGroups/g/providers/Microsoft.Network/virtualNetworks/v/subnets/m";
    };
    worker_profiles = some (
        record {
          name = "worker";
          vm_size = "";
          disk_size_gb = 128;
          subnet_id =
              "/subscriptions/s/resourceGroups/g/providers/Microsoft.Network/virtualNetworks/v/subnets/w";
          count = 3;
        }
        ∷ []);
  };
}

abbrev world : World (Unit {0})
world = record { store = tt; others = [] }

dynamic_run : dynamic azure nets parse oc world ≡ (ok tt, world)
unfolding dynamic check_subnet first_worker Subnets.get split_subnet can_do_action equal_fold
    to_lower split
dynamic_run = refl

dynamic-IsAllowed_example : IsAllowed azure nets parse oc world world
dynamic-IsAllowed_example = dynamic-IsAllowed azure nets parse oc world dynamic_run

credentials_unchecked_example :
    (validate_service_principal_profile azure nets parse oc world).0 ≡ ok "token"
credentials_unchecked_example = credentials_unchecked azure nets parse oc world refl
