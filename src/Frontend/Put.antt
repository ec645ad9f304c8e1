-- ===== src/Frontend/Put.antt =====
-- pkg/frontend/openshiftcluster_putorpatch.go. The header Azure-AsyncOperation is not modelled.
use aro_rp.Base.{String, Bool, true, false, Option, none, some, [], ◌∷◌, if◌then◌else◌}
use Prim.Native.String
use aro_rp.Base.Text.{to_lower}
use aro_rp.Api.Error.{Error, Result, ok, err, other, new_cloud_error, is_error_status_code}
use aro_rp.Api.Error as Error
use aro_rp.Api.Cluster.{
  creating, updating, succeeded, OpenShiftCluster, empty_properties, without_secret,
}
use aro_rp.Api.Document.{OpenShiftClusterDocument, SubscriptionDocument, registered}
use aro_rp.Action.{M, pure, fail, lift, attempt, ◌>>=◌}
use aro_rp.Azure.{Resource, parse_resource_id}
use aro_rp.Cosmos.Retry.{retry_on_precondition_failed}
use aro_rp.Database.Clusters as Clusters
use aro_rp.Frontend.{Config, Version, Request, put, patch, Answer, nil_pointer}
use aro_rp.Frontend.Gate.{admit, validate_subscription_state, find_cluster, new_async_operation}

abbrev pub current_version : String
current_version = "4.3.0-0.nightly-2019-12-05-001549"

-- The cluster of a new document, before the request is read into it
abbrev pub blank_cluster : Request → Resource → String → OpenShiftCluster
blank_cluster r resource tenant = record {
  id = r.original_path;
  name = resource.resource_name;
  type = String.◌++◌ resource.provider (String.◌++◌ "/" resource.resource_type);
  location = "";
  tags = none;
  properties = record empty_properties {
    provisioning_state = succeeded;
    service_principal_profile = record { tenant_id = tenant; client_id = ""; client_secret = "" };
  };
}

abbrev pub blank_document : Request → String → OpenShiftCluster → OpenShiftClusterDocument
blank_document r id oc = record {
  id = id;
  metadata = record { resource_id = ""; timestamp = 0; self = ""; etag = ""; attachments = "" };
  key = r.path;
  partition_key = "";
  cluster_resource_group_id_key = "";
  lease_owner = "";
  lease_expires = 0;
  dequeues = 0;
  async_operation_id = "";
  open_shift_cluster = oc;
}

-- what a PUT starts from
unfoldable pub put_base : OpenShiftCluster → OpenShiftCluster
put_base oc = record {
  id = oc.id;
  name = oc.name;
  type = oc.type;
  location = "";
  tags = none;
  properties = record empty_properties { provisioning_state = oc.properties.provisioning_state };
}

-- the identity of the cluster is kept
abbrev pub keep_identity : OpenShiftCluster → OpenShiftCluster → OpenShiftCluster
keep_identity old new = record new { id = old.id; name = old.name; type = old.type }

unfoldable pub mark_created : OpenShiftClusterDocument → OpenShiftClusterDocument
mark_created d =
    let oc = d.open_shift_cluster in
    let cp = record oc.properties.cluster_profile { version = current_version } in
    record d {
      cluster_resource_group_id_key = to_lower oc.properties.cluster_profile.resource_group_id;
      open_shift_cluster = record oc {
        properties = record oc.properties { provisioning_state = creating; cluster_profile = cp };
      };
    }

unfoldable pub mark_updated : OpenShiftClusterDocument → OpenShiftClusterDocument
mark_updated d =
    let oc = d.open_shift_cluster in
    record d {
      open_shift_cluster = record oc {
        properties = record oc.properties { provisioning_state = updating };
      };
      dequeues = 0;
    }

abbrev pub mark : Bool → OpenShiftClusterDocument → OpenShiftClusterDocument
mark is_create d = if is_create then mark_created d else mark_updated d

module _ {S E : Type 0} (f : Config S) (version : Version S E) where
  -- The document made for a path without one; the subscription's properties may be nil.
  unfoldable pub new_document :
      Request → SubscriptionDocument → String → Result OpenShiftClusterDocument
  new_document r subdoc id = Error.bind (parse_resource_id f.db.parse r.original_path) (λ resource.
      elim subdoc.subscription.tenant_id [
        | none ↦ err nil_pointer
        | some tenant ↦ ok (blank_document r id (blank_cluster r resource tenant))
      ])

  -- The request read into the cluster: the external cluster it starts from, the body, and the
  -- static validation
  unfoldable pub read_request : Request → Bool → OpenShiftClusterDocument → Result E
  unfolding put_base new_cloud_error
  read_request r is_create d =
      let oc = d.open_shift_cluster in
      let base : OpenShiftCluster = elim r.verb [ put ↦ put_base oc | patch ↦ oc ] in
      elim (version.unmarshal r.body (version.to_external base)) [
        | err e ↦ err (new_cloud_error 400 "InvalidRequestContent" "")
        | ok ext ↦
            Error.bind (version.static r.path ext (if is_create then none else some oc))
              (λ _. ok ext)
      ]

  abbrev pub written : Bool → OpenShiftClusterDocument → E → OpenShiftClusterDocument
  written is_create d ext =
      let oc = d.open_shift_cluster in
      mark is_create
        (record d { open_shift_cluster = keep_identity oc (version.to_internal ext oc) })

  -- The cluster that the request makes of the document, which is checked already
  unfoldable pub change : Request → Bool → OpenShiftClusterDocument → M S OpenShiftClusterDocument
  unfolding read_request mark_created mark_updated
  change r is_create d = do
    ext ← lift (read_request r is_create d)
    let d' = written is_create d ext
    u ← version.dynamic d'.open_shift_cluster
    pure d'

  -- Create of the front end. Its error is lost unless it is PreconditionFailed: `err` is declared
  -- anew in the branch. Then `doc` is nil.
  unfoldable pub create_cluster : OpenShiftClusterDocument → M S OpenShiftClusterDocument
  unfolding new_cloud_error
  create_cluster d = do
    created ← attempt (Clusters.create f.db.clusters f.db.clusters_path f.db.parse f.db.uuid d)
    elim created [
      | ok x ↦ pure x
      | err e ↦
          if is_error_status_code e 412
          then fail (new_cloud_error 400 "InvalidResourceGroup" "")
          else fail nil_pointer
    ]

  -- the database is written
  unfoldable pub store : Bool → OpenShiftClusterDocument → M S OpenShiftClusterDocument
  unfolding create_cluster
  store is_create d =
      if is_create
      then create_cluster d
      else Clusters.update f.db.clusters f.db.clusters_path f.db.parse f.db.uuid d

  -- the answer shows no secret
  unfoldable pub render : Bool → OpenShiftClusterDocument → Result Answer
  unfolding without_secret
  render is_create d =
      Error.bind (version.marshal (version.to_external (without_secret d.open_shift_cluster)))
        (λ body. ok (record { status = if is_create then 201 else 200; body = some body }))

  -- From the admitted document on
  unfoldable pub apply : Request → Bool → OpenShiftClusterDocument → M S Answer
  unfolding change store render
  apply r is_create d = do
    d1 ← change r is_create d
    id ← new_async_operation f r d1
    u ← lift (if f.feature_operations then f.parse_url r.referer else ok tt)
    x ← store is_create (record d1 { async_operation_id = id })
    lift (render is_create x)

  -- the document found, or a new one
  unfoldable pub start :
      Request
      → SubscriptionDocument
      → Option OpenShiftClusterDocument
      → M S OpenShiftClusterDocument
  unfolding new_document
  start r subdoc none w = (new_document r subdoc (f.new_uuid w.store), w)
  start r subdoc (some d) w = (ok d, w)

  abbrev pub is_missing {ℓ} : {A : Type ℓ} → Option A → Bool
  is_missing none = true
  is_missing (some a) = false

  -- _putOrPatchOpenShiftCluster
  unfoldable pub put_or_patch_once : Request → M S Answer
  unfolding start apply admit
  put_or_patch_once r = do
    subdoc ← validate_subscription_state f r.path (registered ∷ [])
    found ← find_cluster f r.path
    d0 ← start r subdoc found
    d ← lift (admit d0)
    apply r (is_missing found) d

  -- putOrPatchOpenShiftCluster
  unfoldable pub put_or_patch : Request → M S Answer
  unfolding put_or_patch_once retry_on_precondition_failed
  put_or_patch r = retry_on_precondition_failed (put_or_patch_once r)
