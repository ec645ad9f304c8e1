-- ===== src/Preview/Tests.antt =====
-- The conversions at concrete clusters.
use aro_rp.Base.{true, false, none}
use aro_rp.Base.Text.{to_lower, equal_fold}
use aro_rp.Base.Split.{split}
use aro_rp.Api.Error.{ok}
use aro_rp.Azure.{Resource}
use aro_rp.Preview.Cluster as Preview
use aro_rp.Preview.Patterns.{is_domain_name, is_resource_group_id, is_subnet_id, split_subnet, part}
use aro_rp.Preview.Validate.{Parsers, first_error, validate, validate_subnets}
use aro_rp.Immutable.{Printing, validate_all, validate_kind}
use aro_rp.Immutable as Immutable
use aro_rp.Azure.{parse_resource_id}
use aro_rp.Preview.Static.{static, validate_delta, state_text}
use aro_rp.Preview.Delta.{Keeps, validate_delta-Keeps, static-Keeps}
use aro_rp.Preview.Valid.{HasValidProperties, validate-HasValidProperties}
use aro_rp.Base.{◌≡◌, refl, some, [], ◌∷◌}
use aro_rp.Api.Cluster as Internal
use aro_rp.Preview.Cluster.{OpenShiftCluster}
use aro_rp.Preview.Convert.{
  to_external, to_internal, to_external-to_internal, to_internal-to_external,
}

abbrev stored_cluster : Internal.OpenShiftCluster
stored_cluster = record {
  id = "/subscriptions/s/resourceGroups/g/providers/p/t/n";
  name = "n";
  type = "p/t";
  location = "eastus";
  tags = some (("a", "b") ∷ []);
  properties = record Internal.empty_properties {
    failed_provisioning_state = Internal.updating;
    worker_profiles = some (
        record {
          name = "worker";
          vm_size = "Standard_D2s_v3";
          disk_size_gb = 128;
          subnet_id = "w";
          count = 3;
        }
        ∷ []);
    service_principal_profile = record { tenant_id = "t"; client_id = "c"; client_secret = "s" };
  };
}

abbrev shown_cluster : OpenShiftCluster
shown_cluster = to_external stored_cluster

to_external-to_internal_example :
    to_external (to_internal shown_cluster stored_cluster) ≡ shown_cluster
to_external-to_internal_example = to_external-to_internal shown_cluster stored_cluster

to_internal-to_external_example :
    to_internal (to_external stored_cluster) stored_cluster ≡ stored_cluster
to_internal-to_external_example = to_internal-to_external stored_cluster

to_external_test :
    (to_external stored_cluster).properties.service_principal_profile.client_secret ≡ "s"
unfolding to_external
to_external_test = refl

abbrev parsers : Parsers
parsers = record {
  resource = λ id. some (record {
    subscription_id = "00000000-0000-0000-0000-000000000000";
    resource_group = "g";
    provider = "Microsoft.Network";
    resource_type = "virtualNetworks";
    resource_name = "vnet";
  });
  is_uuid = λ s. true;
  is_url = λ s. true;
  cidr = λ s. some (record { is_ipv4 = true; ones = 18 });
  ip = λ s. some true;
}

abbrev cluster_resource : Resource
cluster_resource = record {
  subscription_id = "00000000-0000-0000-0000-000000000000";
  resource_group = "g";
  provider = "microsoft.redhatopenshift";
  resource_type = "openshiftclusters";
  resource_name = "n";
}

abbrev valid_worker : Preview.WorkerProfile
valid_worker = record {
  name = "worker";
  vm_size = "Standard_D2s_v3";
  disk_size_gb = 128;
  subnet_id =
      "/subscriptions/00000000-0000-0000-0000-000000000000/resourceGroups/g/providers/Microsoft.Network/virtualNetworks/vnet/subnets/worker";
  count = 3;
}

abbrev valid_cluster : OpenShiftCluster
valid_cluster = record {
  id = "/subscriptions/S/n";
  name = "N";
  type = "Microsoft.RedHatOpenShift/openShiftClusters";
  location = "eastus";
  tags = none;
  properties = record {
    provisioning_state = Internal.succeeded;
    cluster_profile = record {
      domain = "a-b.example";
      version = "";
      resource_group_id = "/subscriptions/00000000-0000-0000-0000-000000000000/resourcegroups/G";
    };
    console_profile = record { url = "" };
    service_principal_profile = record { client_id = "c"; client_secret = "s" };
    network_profile = record { pod_cidr = "10.0.0.0/18"; service_cidr = "10.1.0.0/18" };
    master_profile = record {
      vm_size = "Standard_D8s_v3";
      subnet_id =
          "/subscriptions/00000000-0000-0000-0000-000000000000/resourceGroups/g/providers/Microsoft.Network/virtualNetworks/vnet/subnets/master";
    };
    worker_profiles = some (valid_worker ∷ []);
    apiserver_profile = record { visibility = "Public"; url = ""; ip = "" };
    ingress_profiles =
        some (record { name = "default"; visibility = "Private"; ip = "1.2.3.4" } ∷ []);
  };
}

validate_run : validate parsers "EastUS" "/subscriptions/s/N" cluster_resource valid_cluster ≡ ok tt
unfolding validate first_error is_domain_name is_resource_group_id is_subnet_id split_subnet
    equal_fold split part to_lower validate_subnets
validate_run = refl

validate-HasValidProperties_example :
    (equal_fold valid_cluster.id "/subscriptions/s/N" ≡ true)
    × (equal_fold valid_cluster.name "n" ≡ true)
    × (equal_fold valid_cluster.type "Microsoft.RedHatOpenShift/openShiftClusters" ≡ true)
    × (equal_fold valid_cluster.location "EastUS" ≡ true)
    × HasValidProperties parsers "EastUS" "/subscriptions/s/N" cluster_resource
        valid_cluster.properties
validate-HasValidProperties_example =
    validate-HasValidProperties parsers "EastUS" "/subscriptions/s/N" cluster_resource valid_cluster
      validate_run

-- A label may not start with a dash, nor a group end with a dot.
patterns_test :
    (is_domain_name "a.-b" ≡ false)
    × (is_resource_group_id "/subscriptions/00000000-0000-0000-0000-000000000000/resourcegroups/g."
        ≡ false)
unfolding is_domain_name is_resource_group_id split equal_fold to_lower
patterns_test = (refl, refl)

abbrev printing : Printing
printing = record { decimal = λ n. "n"; quote = λ s. s }

-- More workers, a tag, and another case of the name
abbrev scaled_cluster : OpenShiftCluster
scaled_cluster = record valid_cluster {
  name = "n";
  tags = some (("a", "b") ∷ []);
  properties = record valid_cluster.properties {
    worker_profiles = some (record valid_worker { count = 5 } ∷ []);
  };
}

delta_run : validate_delta printing scaled_cluster valid_cluster ≡ ok tt
unfolding validate_delta validate_all Immutable.validate validate_kind equal_fold to_lower
    state_text
delta_run = refl

validate_delta-Keeps_example : Keeps scaled_cluster valid_cluster
validate_delta-Keeps_example = validate_delta-Keeps printing scaled_cluster valid_cluster delta_run

abbrev current_cluster : Internal.OpenShiftCluster
current_cluster = to_internal valid_cluster stored_cluster

abbrev static_parsers : Parsers
static_parsers = record parsers { resource = λ id. some cluster_resource }

static_run :
    static static_parsers printing "EastUS" "/subscriptions/s/N" scaled_cluster
      (some current_cluster)
    ≡ ok tt
unfolding static validate_delta validate_all Immutable.validate validate_kind equal_fold to_lower
    state_text validate first_error is_domain_name is_resource_group_id is_subnet_id split_subnet
    split part validate_subnets to_external to_internal
static_run = refl

static-Keeps_example :
    (r : Resource) × (parse_resource_id static_parsers.resource "/subscriptions/s/N" ≡ ok r)
    × (equal_fold scaled_cluster.id "/subscriptions/s/N" ≡ true)
    × (equal_fold scaled_cluster.name r.resource_name ≡ true)
    × (equal_fold scaled_cluster.type "Microsoft.RedHatOpenShift/openShiftClusters" ≡ true)
    × (equal_fold scaled_cluster.location "EastUS" ≡ true)
    × HasValidProperties static_parsers "EastUS" "/subscriptions/s/N" r scaled_cluster.properties
    × Keeps scaled_cluster (to_external current_cluster)
static-Keeps_example =
    static-Keeps static_parsers printing "EastUS" "/subscriptions/s/N" scaled_cluster
      current_cluster static_run
