-- ===== src/Api/Document.antt =====
-- pkg/api/openshiftclusterdocument.go, subscription.go, subscriptiondocument.go, asyncoperation.go
-- and asyncoperationdocument.go.
use aro_rp.Base.{ℕ, String, Bool, Option}
use aro_rp.Api.Error.{CloudError}
use aro_rp.Api.Cluster.{OpenShiftCluster, ProvisioningState}

-- The fields that the database service keeps on every document.
pub record Metadata : Type 0 where
  pub resource_id : String
  pub timestamp : ℕ
  pub self : String
  pub etag : String
  pub attachments : String

pub record OpenShiftClusterDocument : Type 0 where
  pub id : String
  pub metadata : Metadata
  pub open metadata use *
  pub key : String
  pub partition_key : String
  pub cluster_resource_group_id_key : String
  pub lease_owner : String
  pub lease_expires : ℕ
  pub dequeues : ℕ
  pub async_operation_id : String
  pub open_shift_cluster : OpenShiftCluster

-- api.SubscriptionState is a string: its five constants, and any other text.
pub data SubscriptionState : Type 0 where
  registered unregistered warned suspended deleted : SubscriptionState
  unknown : String → SubscriptionState

pub record Subscription : Type 0 where
  pub state : SubscriptionState
  pub tenant_id : Option String

pub record SubscriptionDocument : Type 0 where
  pub id : String
  pub metadata : Metadata
  pub open metadata use *
  pub lease_owner : String
  pub lease_expires : ℕ
  pub dequeues : ℕ
  pub deleting : Bool
  pub subscription : Subscription

pub record AsyncOperation : Type 0 where
  pub id : String
  pub name : String
  pub initial_provisioning_state : ProvisioningState
  pub provisioning_state : ProvisioningState
  pub start_time : ℕ
  pub end_time : Option ℕ
  pub error : Option CloudError

pub record AsyncOperationDocument : Type 0 where
  pub id : String
  pub metadata : Metadata
  pub open metadata use *
  pub async_operation : AsyncOperation
  pub open_shift_cluster_key : String
  pub open_shift_cluster : Option OpenShiftCluster
