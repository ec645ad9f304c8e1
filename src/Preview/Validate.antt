-- ===== src/Preview/Validate.antt =====
-- pkg/api/v20191231preview/openshiftcluster_validatestatic.go
use Prim.Native.String
use aro_rp.Base.{
  ℕ, String, Bool, true, false, not, ◌||◌, List, [], ◌∷◌, any, leb, ltb, ◌==◌, Option, none, some,
  if◌then◌else◌,
}
use aro_rp.Base.Text.{equal_fold}
use aro_rp.Base.Split.{split}
use aro_rp.Api.Error.{Error, Result, ok, err, new_cloud_error}
use aro_rp.Api.Error as Error
use aro_rp.Api.Cluster.{ProvisioningState, unknown}
use aro_rp.Azure.{Resource, ResourceParser, parse_resource_id}
use aro_rp.Preview.Cluster.{
  ClusterProfile, ConsoleProfile, ServicePrincipalProfile, NetworkProfile, MasterProfile,
  WorkerProfile, ApiServerProfile, IngressProfile, Properties, OpenShiftCluster,
}
use aro_rp.Preview.Patterns.{is_domain_name, is_resource_group_id, is_subnet_id, part, split_subnet}

-- What net.ParseCIDR gives of a network: whether it is IPv4, and the ones of its mask.
pub record Network : Type 0 where
  pub is_ipv4 : Bool
  pub ones : ℕ

-- The parsers that the validator calls: azure.ParseResourceID, uuid.FromString, and url.Parse,
-- net.ParseCIDR and net.ParseIP; of an IP it is known whether it is IPv4.
pub record Parsers : Type 0 where
  pub resource : ResourceParser
  pub is_uuid : String → Bool
  pub is_url : String → Bool
  pub cidr : String → Option Network
  pub ip : String → Option Bool

-- The first error of a sequence of checks.
unfoldable pub first_error : List (Result (Unit {0})) → Result (Unit {0})
first_error [] = ok tt
first_error (ok u ∷ rs) = first_error rs
first_error (err e ∷ rs) = err e

abbrev pub require : Bool → Error → Result (Unit {0})
require true e = ok tt
require false e = err e

abbrev pub invalid : String → String → Error
invalid path field = new_cloud_error 400 "InvalidParameter" (String.◌++◌ path field)

-- A text that is one of those listed.
abbrev pub one_of : List String → String → Bool
one_of ss s = any (λ t. s == t) ss

abbrev pub known_state : ProvisioningState → Bool
known_state (unknown s) = false
known_state state = true

-- A URL that may be missing, of a console and of an API server
abbrev check_url : Parsers → String → String → Result (Unit {0})
check_url p path url = require (url == "" || p.is_url url) (invalid path ".url")

abbrev check_ip : Parsers → String → String → Result (Unit {0})
check_ip p path ip = if ip == "" then ok tt else elim (p.ip ip) [
  | none ↦ err (invalid path ".ip")
  | some v4 ↦ require v4 (invalid path ".ip")
]

-- A network that must be IPv4 and of at most so many ones
abbrev pub check_cidr : Parsers → String → String → ℕ → String → Result (Unit {0})
check_cidr p path field most cidr = elim (p.cidr cidr) [
  | none ↦ err (invalid path field)
  | some n ↦
      first_error (
        require n.is_ipv4 (invalid path field)
        ∷ require (leb n.ones most) (invalid path field)
        ∷ [])
]

module _ (p : Parsers) (location resource_id : String) (r : Resource) where
  -- validateClusterProfile
  unfoldable pub validate_cluster_profile : String → ClusterProfile → Result (Unit {0})
  unfolding split part
  validate_cluster_profile path cp = first_error (
      require (is_domain_name cp.domain) (invalid path ".domain")
      ∷ require (one_of ("" ∷ "4.3.0-0.nightly-2019-12-05-001549" ∷ []) cp.version)
          (invalid path ".version")
      ∷ require (is_resource_group_id cp.resource_group_id) (invalid path ".resourceGroupId")
      ∷ require (part (split 47 cp.resource_group_id) 2 == r.subscription_id)
          (invalid path ".resourceGroupId")
      ∷ [])

  -- validateConsoleProfile
  unfoldable pub validate_console_profile : String → ConsoleProfile → Result (Unit {0})
  validate_console_profile path cp = check_url p path cp.url

  -- validateServicePrincipalProfile
  unfoldable pub validate_service_principal_profile :
      String → ServicePrincipalProfile → Result (Unit {0})
  validate_service_principal_profile path spp = first_error (
      require (p.is_uuid spp.client_id) (invalid path ".clientId")
      ∷ require (not (spp.client_secret == "")) (invalid path ".clientSecret")
      ∷ [])

  -- validateNetworkProfile
  unfoldable pub validate_network_profile : String → NetworkProfile → Result (Unit {0})
  validate_network_profile path np = first_error (
      check_cidr p path ".podCidr" 18 np.pod_cidr
      ∷ check_cidr p path ".serviceCidr" 22 np.service_cidr
      ∷ [])

  -- validateMasterProfile
  unfoldable pub validate_master_profile : String → MasterProfile → Result (Unit {0})
  validate_master_profile path mp = first_error (
      require (one_of ("Standard_D8s_v3" ∷ []) mp.vm_size) (invalid path ".vmSize")
      ∷ require (is_subnet_id mp.subnet_id) (invalid path ".subnetId")
      ∷ Error.bind (parse_resource_id p.resource mp.subnet_id)
          (λ sr. require (sr.subscription_id == r.subscription_id) (invalid path ".subnetId"))
      ∷ [])

  -- The worker subnet is in the virtual network of the master subnet, and another one.
  unfoldable pub validate_subnets : String → String → String → Result (Unit {0})
  unfolding split_subnet
  validate_subnets path worker master = Error.bind (split_subnet worker) (λ w.
      Error.bind (split_subnet master) (λ m. first_error (
        require (equal_fold m.0 w.0) (invalid path ".subnetId")
        ∷ require (not (equal_fold master worker)) (invalid path ".subnetId")
        ∷ [])))

  -- validateWorkerProfile
  unfoldable pub validate_worker_profile :
      String → WorkerProfile → MasterProfile → Result (Unit {0})
  unfolding validate_subnets
  validate_worker_profile path wp mp = first_error (
      require (wp.name == "worker") (invalid path ".name")
      ∷ require (one_of ("Standard_D2s_v3" ∷ "Standard_D4s_v3" ∷ "Standard_D8s_v3" ∷ []) wp.vm_size)
          (invalid path ".vmSize")
      ∷ require (not (ltb wp.disk_size_gb 128)) (invalid path ".diskSizeGB")
      ∷ require (is_subnet_id wp.subnet_id) (invalid path ".subnetId")
      ∷ validate_subnets path wp.subnet_id mp.subnet_id
      ∷ require (not (ltb wp.count 3 || ltb 20 wp.count)) (invalid path ".count")
      ∷ [])

  -- validateAPIServerProfile
  unfoldable pub validate_apiserver_profile : String → ApiServerProfile → Result (Unit {0})
  validate_apiserver_profile path ap = first_error (
      require (one_of ("Public" ∷ "Private" ∷ []) ap.visibility) (invalid path ".visibility")
      ∷ check_url p path ap.url
      ∷ check_ip p path ap.ip
      ∷ [])

  -- validateIngressProfile
  unfoldable pub validate_ingress_profile : String → IngressProfile → Result (Unit {0})
  validate_ingress_profile path ip = first_error (
      require (ip.name == "default") (invalid path ".name")
      ∷ require (one_of ("Public" ∷ "Private" ∷ []) ip.visibility) (invalid path ".visibility")
      ∷ check_ip p path ip.ip
      ∷ [])

  abbrev pub profile_path : String → String → String → String
  profile_path path field name =
      String.◌++◌ path (String.◌++◌ field (String.◌++◌ "['" (String.◌++◌ name "']")))

  -- The one worker profile; a nil slice has no element.
  unfoldable pub validate_workers :
      String → Option (List WorkerProfile) → MasterProfile → Result (Unit {0})
  unfolding validate_worker_profile
  validate_workers path (some (wp ∷ [])) mp =
      validate_worker_profile (profile_path path ".workerProfiles" wp.name) wp mp
  validate_workers path ps mp = err (invalid path ".workerProfiles")

  -- The one ingress profile
  unfoldable pub validate_ingresses : String → Option (List IngressProfile) → Result (Unit {0})
  unfolding validate_ingress_profile
  validate_ingresses path (some (ip ∷ [])) =
      validate_ingress_profile (profile_path path ".ingressProfiles" ip.name) ip
  validate_ingresses path ps = err (invalid path ".ingressProfiles")

  -- validateProperties
  unfoldable pub validate_properties : String → Properties → Result (Unit {0})
  unfolding validate_cluster_profile validate_console_profile validate_service_principal_profile
      validate_network_profile validate_master_profile validate_workers validate_apiserver_profile
      validate_ingresses
  validate_properties path q = first_error (
      require (known_state q.provisioning_state) (invalid path ".provisioningState")
      ∷ validate_cluster_profile (String.◌++◌ path ".clusterProfile") q.cluster_profile
      ∷ validate_console_profile (String.◌++◌ path ".consoleProfile") q.console_profile
      ∷ validate_service_principal_profile (String.◌++◌ path ".servicePrincipalProfile")
          q.service_principal_profile
      ∷ validate_network_profile (String.◌++◌ path ".networkProfile") q.network_profile
      ∷ validate_master_profile (String.◌++◌ path ".masterProfile") q.master_profile
      ∷ validate_workers path q.worker_profiles q.master_profile
      ∷ validate_apiserver_profile (String.◌++◌ path ".apiserverProfile") q.apiserver_profile
      ∷ validate_ingresses path q.ingress_profiles
      ∷ [])

  -- validate
  unfoldable pub validate : OpenShiftCluster → Result (Unit {0})
  unfolding validate_properties
  validate oc = first_error (
      require (equal_fold oc.id resource_id) (new_cloud_error 400 "MismatchingResourceID" "id")
      ∷ require (equal_fold oc.name r.resource_name)
          (new_cloud_error 400 "MismatchingResourceName" "name")
      ∷ require (equal_fold oc.type "Microsoft.RedHatOpenShift/openShiftClusters")
          (new_cloud_error 400 "MismatchingResourceType" "type")
      ∷ require (equal_fold oc.location location) (invalid "" "location")
      ∷ validate_properties "properties" oc.properties
      ∷ [])
