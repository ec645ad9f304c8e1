-- ===== src/Backend.antt =====
-- pkg/backend: the workers that dequeue documents and bring clusters to what their documents say.
pub mod Clusters
pub mod Subscriptions
pub mod Settled
pub mod Scale
pub mod GivenUp
pub mod Going
pub mod Sweep
pub mod Run
pub mod Manager
pub mod Tests
use aro_rp.Base.{ℕ, String}
use aro_rp.Api.Document.{OpenShiftClusterDocument, SubscriptionDocument, AsyncOperationDocument}
use aro_rp.Azure.{ResourceParser}
use aro_rp.Cosmos.Service.{Service}

abbrev pub max_dequeue_count : ℕ
max_dequeue_count = 5

-- database.Database: the collections, what the process calls itself, and its clock.
pub record Database (S : Type 0) : Type 0 where
  pub clusters : Service S OpenShiftClusterDocument
  pub clusters_path : String
  pub subscriptions : Service S SubscriptionDocument
  pub subscriptions_path : String
  pub operations : Service S AsyncOperationDocument
  pub operations_path : String
  pub parse : ResourceParser
  pub uuid : String
  pub now : S → ℕ
