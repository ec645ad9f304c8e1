-- ===== src/Preview/Convert.antt =====
-- pkg/api/v20191231preview/openshiftcluster_convert.go and openshiftclustercredentials_convert.go
use aro_rp.Base.{◌≡◌, refl, ap, Option, none, some, List, [], ◌∷◌, map}
use aro_rp.Api.Cluster as Internal
use aro_rp.Preview.Cluster.{WorkerProfile, IngressProfile, OpenShiftCluster}

abbrev to_worker : Internal.WorkerProfile → WorkerProfile
to_worker p = record {
  name = p.name;
  vm_size = p.vm_size;
  disk_size_gb = p.disk_size_gb;
  subnet_id = p.subnet_id;
  count = p.count;
}

abbrev of_worker : WorkerProfile → Internal.WorkerProfile
of_worker p = record {
  name = p.name;
  vm_size = p.vm_size;
  disk_size_gb = p.disk_size_gb;
  subnet_id = p.subnet_id;
  count = p.count;
}

abbrev to_ingress : Internal.IngressProfile → IngressProfile
to_ingress p = record { name = p.name; visibility = p.visibility; ip = p.ip }

abbrev of_ingress : IngressProfile → Internal.IngressProfile
of_ingress p = record { name = p.name; visibility = p.visibility; ip = p.ip }

-- A slice that may be nil, element by element
abbrev each {ℓ κ} : {A : Type ℓ} {B : Type κ} → (A → B) → Option (List A) → Option (List B)
each g none = none
each g (some xs) = some (map g xs)

-- ToExternal
unfoldable pub to_external : Internal.OpenShiftCluster → OpenShiftCluster
to_external oc =
    let p = oc.properties in
    record {
      id = oc.id;
      name = oc.name;
      type = oc.type;
      location = oc.location;
      tags = oc.tags;
      properties = record {
        provisioning_state = p.provisioning_state;
        cluster_profile = record {
          domain = p.cluster_profile.domain;
          version = p.cluster_profile.version;
          resource_group_id = p.cluster_profile.resource_group_id;
        };
        console_profile = record { url = p.console_profile.url };
        service_principal_profile = record {
          client_id = p.service_principal_profile.client_id;
          client_secret = p.service_principal_profile.client_secret;
        };
        network_profile = record {
          pod_cidr = p.network_profile.pod_cidr;
          service_cidr = p.network_profile.service_cidr;
        };
        master_profile = record {
          vm_size = p.master_profile.vm_size;
          subnet_id = p.master_profile.subnet_id;
        };
        worker_profiles = each to_worker p.worker_profiles;
        apiserver_profile = record {
          visibility = p.apiserver_profile.visibility;
          url = p.apiserver_profile.url;
          ip = p.apiserver_profile.ip;
        };
        ingress_profiles = each to_ingress p.ingress_profiles;
      };
    }

-- ToExternalList
unfoldable pub to_external_list : List Internal.OpenShiftCluster → List OpenShiftCluster
unfolding to_external
to_external_list ocs = map to_external ocs

-- ToInternal
unfoldable pub to_internal :
    OpenShiftCluster → Internal.OpenShiftCluster → Internal.OpenShiftCluster
to_internal oc out =
    let p = oc.properties in
    let q = out.properties in
    let spp = record q.service_principal_profile {
      client_id = p.service_principal_profile.client_id;
      client_secret = p.service_principal_profile.client_secret;
    } in
    let np = record q.network_profile {
      pod_cidr = p.network_profile.pod_cidr;
      service_cidr = p.network_profile.service_cidr;
    } in
    record out {
      id = oc.id;
      name = oc.name;
      type = oc.type;
      location = oc.location;
      tags = oc.tags;
      properties = record q {
        provisioning_state = p.provisioning_state;
        cluster_profile = record {
          domain = p.cluster_profile.domain;
          version = p.cluster_profile.version;
          resource_group_id = p.cluster_profile.resource_group_id;
        };
        console_profile = record { url = p.console_profile.url };
        service_principal_profile = spp;
        network_profile = np;
        master_profile = record {
          vm_size = p.master_profile.vm_size;
          subnet_id = p.master_profile.subnet_id;
        };
        worker_profiles = each of_worker p.worker_profiles;
        apiserver_profile = record {
          visibility = p.apiserver_profile.visibility;
          url = p.apiserver_profile.url;
          ip = p.apiserver_profile.ip;
        };
        ingress_profiles = each of_ingress p.ingress_profiles;
      };
    }

module _ {ℓ κ} {A : Type ℓ} {B : Type κ} (g : A → B) (h : B → A)
    (inverse : (a : A) → h (g a) ≡ a) where
  map-inverse : (xs : List A) → map h (map g xs) ≡ xs
  map-inverse [] = refl
  map-inverse (x ∷ xs) = λ i. inverse x i ∷ map-inverse xs i

  each-inverse : (o : Option (List A)) → each h (each g o) ≡ o
  each-inverse none = refl
  each-inverse (some xs) = ap some (map-inverse xs)

-- Everything that an external cluster says is kept: read into any internal cluster and shown again,
-- it is the same.
pub to_external-to_internal :
    (oc : OpenShiftCluster) (out : Internal.OpenShiftCluster)
    → to_external (to_internal oc out) ≡ oc
unfolding to_external to_internal
to_external-to_internal oc out =
    let workers = each-inverse of_worker to_worker (λ p. refl) oc.properties.worker_profiles in
    let ingresses = each-inverse of_ingress to_ingress (λ p. refl) oc.properties.ingress_profiles in
    λ i. record oc {
      properties = record oc.properties {
        worker_profiles = workers i;
        ingress_profiles = ingresses i;
      };
    }

-- A cluster that is shown and read back is unchanged, what is not shown included: the tenant ID, the
-- private endpoint's IP, the failed provisioning state, the installation and the keys.
pub to_internal-to_external :
    (oc : Internal.OpenShiftCluster) → to_internal (to_external oc) oc ≡ oc
unfolding to_external to_internal
to_internal-to_external oc =
    let workers = each-inverse to_worker of_worker (λ p. refl) oc.properties.worker_profiles in
    let ingresses = each-inverse to_ingress of_ingress (λ p. refl) oc.properties.ingress_profiles in
    λ i. record oc {
      properties = record oc.properties {
        worker_profiles = workers i;
        ingress_profiles = ingresses i;
      };
    }
