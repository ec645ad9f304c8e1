-- ===== src/Preview/Static.antt =====
-- Static and validateDelta of pkg/api/v20191231preview/openshiftcluster_validatestatic.go, and the
-- external types of openshiftcluster.go as reflect sees them, with their tags.
use aro_rp.Base.{String, Option, none, some, List, [], ◌∷◌}
use aro_rp.Api.Error.{Result, ok, err}
use aro_rp.Api.Error as Error
use aro_rp.Api.Cluster as Internal
use aro_rp.Azure.{parse_resource_id}
use aro_rp.Immutable.{
  Value, Items, Entries, Fields, FieldType, number, text, nil_slice, slice, pointer, nil_map,
  mapping, struct, no_items, item, no_entries, entry, no_fields, field, Printing, validate_all,
}
use aro_rp.Preview.Cluster.{
  ClusterProfile, ConsoleProfile, ServicePrincipalProfile, NetworkProfile, MasterProfile,
  WorkerProfile, ApiServerProfile, IngressProfile, Properties, OpenShiftCluster,
}
use aro_rp.Preview.Convert.{to_external}
use aro_rp.Preview.Validate.{Parsers, validate}

-- A field without the tag `mutable`, and fields with it
abbrev pub plain : String → String → FieldType
plain name json = record { name = name; json = json; mutability = "" }

abbrev pub in_any_case : String → String → FieldType
in_any_case name json = record { name = name; json = json; mutability = "case" }

abbrev pub mutable : String → String → FieldType
mutable name json = record { name = name; json = json; mutability = "true" }

-- The text of a provisioning state
unfoldable pub state_text : Internal.ProvisioningState → String
state_text Internal.creating = "Creating"
state_text Internal.updating = "Updating"
state_text Internal.deleting = "Deleting"
state_text Internal.succeeded = "Succeeded"
state_text Internal.failed = "Failed"
state_text (Internal.unknown s) = s

abbrev pub cluster_fields : ClusterProfile → Fields
cluster_fields p = field (plain "Domain" "domain") (text "string" p.domain) (
    field (plain "Version" "version") (text "string" p.version) (
      field (plain "ResourceGroupID" "resourceGroupId") (text "string" p.resource_group_id)
        no_fields))

abbrev pub console_fields : ConsoleProfile → Fields
console_fields p = field (plain "URL" "url") (text "string" p.url) no_fields

abbrev pub principal_fields : ServicePrincipalProfile → Fields
principal_fields p =
    field (plain "ClientID" "clientId") (text "string" p.client_id)
      (field (plain "ClientSecret" "clientSecret") (text "string" p.client_secret) no_fields)

abbrev pub network_fields : NetworkProfile → Fields
network_fields p =
    field (plain "PodCIDR" "podCidr") (text "string" p.pod_cidr)
      (field (plain "ServiceCIDR" "serviceCidr") (text "string" p.service_cidr) no_fields)

abbrev pub master_fields : MasterProfile → Fields
master_fields p =
    field (plain "VMSize" "vmSize") (text "VMSize" p.vm_size)
      (field (plain "SubnetID" "subnetId") (text "string" p.subnet_id) no_fields)

abbrev pub worker_fields : WorkerProfile → Fields
worker_fields p = field (plain "Name" "name") (text "string" p.name) (
    field (plain "VMSize" "vmSize") (text "VMSize" p.vm_size) (
      field (plain "DiskSizeGB" "diskSizeGB") (number "int" p.disk_size_gb) (
        field (plain "SubnetID" "subnetId") (text "string" p.subnet_id)
          (field (mutable "Count" "count") (number "int" p.count) no_fields))))

abbrev pub apiserver_fields : ApiServerProfile → Fields
apiserver_fields p = field (plain "Visibility" "visibility") (text "Visibility" p.visibility) (
    field (plain "URL" "url") (text "string" p.url)
      (field (plain "IP" "ip") (text "string" p.ip) no_fields))

abbrev pub ingress_fields : IngressProfile → Fields
ingress_fields p = field (plain "Name" "name") (text "string" p.name) (
    field (plain "Visibility" "visibility") (text "Visibility" p.visibility)
      (field (plain "IP" "ip") (text "string" p.ip) no_fields))

abbrev pub worker_items : List WorkerProfile → Items
worker_items [] = no_items
worker_items (p ∷ ps) = item (struct "WorkerProfile" (worker_fields p)) (worker_items ps)

abbrev pub ingress_items : List IngressProfile → Items
ingress_items [] = no_items
ingress_items (p ∷ ps) = item (struct "IngressProfile" (ingress_fields p)) (ingress_items ps)

abbrev pub workers_value : Option (List WorkerProfile) → Value
workers_value none = nil_slice "[]WorkerProfile"
workers_value (some ps) = slice "[]WorkerProfile" (worker_items ps)

abbrev pub ingresses_value : Option (List IngressProfile) → Value
ingresses_value none = nil_slice "[]IngressProfile"
ingresses_value (some ps) = slice "[]IngressProfile" (ingress_items ps)

abbrev pub tag_entries : List (String × String) → Entries
tag_entries [] = no_entries
tag_entries ((k, v) ∷ ts) = entry k (text "string" v) (tag_entries ts)

abbrev pub tags_value : Option (List (String × String)) → Value
tags_value none = nil_map "Tags"
tags_value (some ts) = mapping "Tags" (tag_entries ts)

abbrev pub properties_fields : Properties → Fields
properties_fields p =
    field (plain "ProvisioningState" "provisioningState")
      (text "ProvisioningState" (state_text p.provisioning_state))
      (field (plain "ClusterProfile" "clusterProfile")
        (struct "ClusterProfile" (cluster_fields p.cluster_profile))
        (field (plain "ConsoleProfile" "consoleProfile")
          (struct "ConsoleProfile" (console_fields p.console_profile))
          (field (plain "ServicePrincipalProfile" "servicePrincipalProfile")
            (struct "ServicePrincipalProfile" (principal_fields p.service_principal_profile))
            (field (plain "NetworkProfile" "networkProfile")
              (struct "NetworkProfile" (network_fields p.network_profile))
              (field (plain "MasterProfile" "masterProfile")
                (struct "MasterProfile" (master_fields p.master_profile))
                (field (plain "WorkerProfiles" "workerProfiles") (workers_value p.worker_profiles) (
                  field (plain "APIServerProfile" "apiserverProfile")
                    (struct "APIServerProfile" (apiserver_fields p.apiserver_profile))
                    (field (plain "IngressProfiles" "ingressProfiles")
                      (ingresses_value p.ingress_profiles) no_fields))))))))

abbrev pub cluster_value_fields : OpenShiftCluster → Fields
cluster_value_fields oc = field (in_any_case "ID" "id") (text "string" oc.id) (
    field (in_any_case "Name" "name") (text "string" oc.name) (
      field (in_any_case "Type" "type") (text "string" oc.type) (
        field (plain "Location" "location") (text "string" oc.location) (
          field (mutable "Tags" "tags") (tags_value oc.tags) (
            field (plain "Properties" "properties")
              (struct "Properties" (properties_fields oc.properties)) no_fields)))))

abbrev pub cluster_value : OpenShiftCluster → Value
cluster_value oc = pointer "*OpenShiftCluster" (struct "OpenShiftCluster" (cluster_value_fields oc))

-- validateDelta
unfoldable pub validate_delta : Printing → OpenShiftCluster → OpenShiftCluster → Result (Unit {0})
unfolding validate_all state_text
validate_delta print oc current = validate_all print "" (cluster_value oc) (cluster_value current)

-- Static
unfoldable pub static :
    Parsers
    → Printing
    → String
    → String
    → OpenShiftCluster
    → Option Internal.OpenShiftCluster
    → Result (Unit {0})
unfolding validate validate_delta to_external
static p print location resource_id oc current =
    Error.bind (parse_resource_id p.resource resource_id) (λ r.
      Error.bind (validate p location resource_id r oc)
        (λ u. elim current [ none ↦ ok tt | some c ↦ validate_delta print oc (to_external c) ]))
