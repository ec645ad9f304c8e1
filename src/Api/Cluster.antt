-- ===== src/Api/Cluster.antt =====
-- pkg/api/openshiftcluster.go. A slice or a map that may be nil is an `Option`; a key is its bytes;
-- a time is in seconds.
use aro_rp.Base.{ℕ, String, Option, none, List, ◌==◌, if◌then◌else◌}

-- api.ProvisioningState is a string: its five constants, and `unknown s` for any other text `s`, the
-- empty one included.
pub data ProvisioningState : Type 0 where
  creating updating deleting succeeded failed : ProvisioningState
  unknown : String → ProvisioningState

-- The zero value of the type.
abbrev pub unset : ProvisioningState
unset = unknown ""

-- The constant, or the text, that a string stands for.
unfoldable pub to_provisioning_state : String → ProvisioningState
to_provisioning_state s =
    if s == "Creating"
    then creating
    else if s == "Updating"
    then updating
    else if s == "Deleting"
    then deleting
    else if s == "Succeeded"
    then succeeded
    else if s == "Failed"
    then failed
    else unknown s

pub record ClusterProfile : Type 0 where
  pub domain : String
  pub version : String
  pub resource_group_id : String

pub record ConsoleProfile : Type 0 where
  pub url : String

pub record ServicePrincipalProfile : Type 0 where
  pub tenant_id : String
  pub client_id : String
  pub client_secret : String

pub record NetworkProfile : Type 0 where
  pub pod_cidr : String
  pub service_cidr : String
  pub private_endpoint_ip : String

pub record MasterProfile : Type 0 where
  pub vm_size : String
  pub subnet_id : String

pub record WorkerProfile : Type 0 where
  pub name : String
  pub vm_size : String
  pub disk_size_gb : ℕ
  pub subnet_id : String
  pub count : ℕ

pub record ApiServerProfile : Type 0 where
  pub visibility : String
  pub url : String
  pub ip : String

pub record IngressProfile : Type 0 where
  pub name : String
  pub visibility : String
  pub ip : String

-- api.InstallPhase is an int: its three constants, and any other number.
pub data InstallPhase : Type 0 where
  deploy_storage deploy_resources remove_bootstrap : InstallPhase
  unrecognised : ℕ → InstallPhase

pub record Install : Type 0 where
  pub now : ℕ
  pub phase : InstallPhase

pub record Properties : Type 0 where
  pub provisioning_state : ProvisioningState
  pub failed_provisioning_state : ProvisioningState
  pub cluster_profile : ClusterProfile
  pub console_profile : ConsoleProfile
  pub service_principal_profile : ServicePrincipalProfile
  pub network_profile : NetworkProfile
  pub master_profile : MasterProfile
  pub worker_profiles : Option (List WorkerProfile)
  pub apiserver_profile : ApiServerProfile
  pub ingress_profiles : Option (List IngressProfile)
  pub install : Option Install
  pub storage_suffix : String
  pub ssh_key : Option (List ℕ)
  pub admin_kubeconfig : List ℕ
  pub kubeadmin_password : String

pub record OpenShiftCluster : Type 0 where
  pub id : String
  pub name : String
  pub type : String
  pub location : String
  pub tags : Option (List (String × String))
  pub properties : Properties

-- The zero value of Properties.
abbrev pub empty_properties : Properties
empty_properties = record {
  provisioning_state = unset;
  failed_provisioning_state = unset;
  cluster_profile = record { domain = ""; version = ""; resource_group_id = "" };
  console_profile = record { url = "" };
  service_principal_profile = record { tenant_id = ""; client_id = ""; client_secret = "" };
  network_profile = record { pod_cidr = ""; service_cidr = ""; private_endpoint_ip = "" };
  master_profile = record { vm_size = ""; subnet_id = "" };
  worker_profiles = none;
  apiserver_profile = record { visibility = ""; url = ""; ip = "" };
  ingress_profiles = none;
  install = none;
  storage_suffix = "";
  ssh_key = none;
  admin_kubeconfig = List.[];
  kubeadmin_password = "";
}

-- doc.OpenShiftCluster.Properties.ServicePrincipalProfile.ClientSecret = ""
unfoldable pub without_secret : OpenShiftCluster → OpenShiftCluster
without_secret oc =
    let spp = oc.properties.service_principal_profile in
    let spp' = record spp { client_secret = "" } in
    record oc { properties = record oc.properties { service_principal_profile = spp' } }
