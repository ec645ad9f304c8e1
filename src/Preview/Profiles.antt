-- ===== src/Preview/Profiles.antt =====
-- What the immutability check says of the profiles of a cluster.
use aro_rp.Base.{String, ◌≡◌, false}
use aro_rp.Api.Error.{ok}
use aro_rp.Immutable.{Printing, validate_fields}
use aro_rp.Preview.Cluster.{
  ClusterProfile, ConsoleProfile, ServicePrincipalProfile, NetworkProfile, MasterProfile,
  WorkerProfile, ApiServerProfile, IngressProfile,
}
use aro_rp.Preview.Static.{
  cluster_fields, console_fields, principal_fields, network_fields, master_fields, worker_fields,
  apiserver_fields, ingress_fields,
}
use aro_rp.Preview.Kept.{plain_text, plain_number}

module _ (print : Printing) where
  pub same_cluster :
      (path : String) (p q : ClusterProfile)
      → validate_fields print (cluster_fields p) path (cluster_fields q) false ≡ ok tt
      → p ≡ q
  same_cluster path p q e =
      let (a, e1) = plain_text print _ _ _ _ _ _ _ _ e in
      let (b, e2) = plain_text print _ _ _ _ _ _ _ _ e1 in
      let (c, _) = plain_text print _ _ _ _ _ _ _ _ e2 in
      λ i. record { domain = a i; version = b i; resource_group_id = c i }

  pub same_console :
      (path : String) (p q : ConsoleProfile)
      → validate_fields print (console_fields p) path (console_fields q) false ≡ ok tt
      → p ≡ q
  same_console path p q e =
      let (a, _) = plain_text print _ _ _ _ _ _ _ _ e in λ i. record { url = a i }

  pub same_principal :
      (path : String) (p q : ServicePrincipalProfile)
      → validate_fields print (principal_fields p) path (principal_fields q) false ≡ ok tt
      → p ≡ q
  same_principal path p q e =
      let (a, e1) = plain_text print _ _ _ _ _ _ _ _ e in
      let (b, _) = plain_text print _ _ _ _ _ _ _ _ e1 in
      λ i. record { client_id = a i; client_secret = b i }

  pub same_network :
      (path : String) (p q : NetworkProfile)
      → validate_fields print (network_fields p) path (network_fields q) false ≡ ok tt
      → p ≡ q
  same_network path p q e =
      let (a, e1) = plain_text print _ _ _ _ _ _ _ _ e in
      let (b, _) = plain_text print _ _ _ _ _ _ _ _ e1 in
      λ i. record { pod_cidr = a i; service_cidr = b i }

  pub same_master :
      (path : String) (p q : MasterProfile)
      → validate_fields print (master_fields p) path (master_fields q) false ≡ ok tt
      → p ≡ q
  same_master path p q e =
      let (a, e1) = plain_text print _ _ _ _ _ _ _ _ e in
      let (b, _) = plain_text print _ _ _ _ _ _ _ _ e1 in
      λ i. record { vm_size = a i; subnet_id = b i }

  pub same_worker :
      (path : String) (p q : WorkerProfile)
      → validate_fields print (worker_fields p) path (worker_fields q) false ≡ ok tt
      → record p { count = q.count } ≡ q
  same_worker path p q e =
      let (a, e1) = plain_text print _ _ _ _ _ _ _ _ e in
      let (b, e2) = plain_text print _ _ _ _ _ _ _ _ e1 in
      let (c, e3) = plain_number print _ _ _ _ _ _ _ _ e2 in
      let (d, _) = plain_text print _ _ _ _ _ _ _ _ e3 in
      λ i. record {
        name = a i;
        vm_size = b i;
        disk_size_gb = c i;
        subnet_id = d i;
        count = q.count;
      }

  pub same_apiserver :
      (path : String) (p q : ApiServerProfile)
      → validate_fields print (apiserver_fields p) path (apiserver_fields q) false ≡ ok tt
      → p ≡ q
  same_apiserver path p q e =
      let (a, e1) = plain_text print _ _ _ _ _ _ _ _ e in
      let (b, e2) = plain_text print _ _ _ _ _ _ _ _ e1 in
      let (c, _) = plain_text print _ _ _ _ _ _ _ _ e2 in
      λ i. record { visibility = a i; url = b i; ip = c i }

  pub same_ingress :
      (path : String) (p q : IngressProfile)
      → validate_fields print (ingress_fields p) path (ingress_fields q) false ≡ ok tt
      → p ≡ q
  same_ingress path p q e =
      let (a, e1) = plain_text print _ _ _ _ _ _ _ _ e in
      let (b, e2) = plain_text print _ _ _ _ _ _ _ _ e1 in
      let (c, _) = plain_text print _ _ _ _ _ _ _ _ e2 in
      λ i. record { name = a i; visibility = b i; ip = c i }
