-- ===== src/Preview/Cluster.antt =====
-- pkg/api/v20191231preview/openshiftcluster.go. The texts of the enumerations are those of the
-- internal types, so that the conversions between the two are identities.
use aro_rp.Base.{ℕ, String, Option, List}
use aro_rp.Api.Cluster.{ProvisioningState}

pub record ClusterProfile : Type 0 where
  pub domain : String
  pub version : String
  pub resource_group_id : String

pub record ConsoleProfile : Type 0 where
  pub url : String

pub record ServicePrincipalProfile : Type 0 where
  pub client_id : String
  pub client_secret : String

pub record NetworkProfile : Type 0 where
  pub pod_cidr : String
  pub service_cidr : String

pub record MasterProfile : Type 0 where
  pub vm_size : String
  pub subnet_id : String

pub record WorkerProfile : Type 0 where
  pub name : String
  pub vm_size : String
  pub disk_size_gb : ℕ
  pub subnet_id : String
  pub count : ℕ

pub record ApiServerProfile : Type 0 where
  pub visibility : String
  pub url : String
  pub ip : String

pub record IngressProfile : Type 0 where
  pub name : String
  pub visibility : String
  pub ip : String

pub record Properties : Type 0 where
  pub provisioning_state : ProvisioningState
  pub cluster_profile : ClusterProfile
  pub console_profile : ConsoleProfile
  pub service_principal_profile : ServicePrincipalProfile
  pub network_profile : NetworkProfile
  pub master_profile : MasterProfile
  pub worker_profiles : Option (List WorkerProfile)
  pub apiserver_profile : ApiServerProfile
  pub ingress_profiles : Option (List IngressProfile)

pub record OpenShiftCluster : Type 0 where
  pub id : String
  pub name : String
  pub type : String
  pub location : String
  pub tags : Option (List (String × String))
  pub properties : Properties
