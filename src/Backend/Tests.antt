-- ===== src/Backend/Tests.antt =====
-- Runs of the back end on the service in memory, and the theorems at concrete inputs.
use aro_rp.Base.{ℕ, ◌≡◌, refl, false, none, some, List, [], ◌∷◌, length, arith}
use aro_rp.Base.{true}
use aro_rp.Backend.Settled.{IsSettled}
use aro_rp.Cosmos.Client.{Iterator}
use aro_rp.Database.Clusters.{list_by_prefix}
use aro_rp.Backend.Subscriptions.{
  handle_delete, delete_loop, delete_page, delete_clusters, patch_round, start_delete, prefix_of,
}
use aro_rp.Backend.Sweep.{IsSwept, handle_delete-IsSwept}
use aro_rp.Database.Tests.{document, cluster}
use aro_rp.Api.Cluster.{succeeded}
use aro_rp.Base.Text.{to_lower}
use aro_rp.Api.Error.{ok, err, other, is_error_status_code}
use aro_rp.Api.Cluster.{creating, failed}
use aro_rp.Api.Document.{
  OpenShiftClusterDocument, SubscriptionDocument, AsyncOperationDocument, registered,
}
use aro_rp.Action.{World, pure}
use aro_rp.Cosmos.Service.{Method, get, post, put, delete, Service}
use aro_rp.Cosmos.Client.{next, open_query, replace, do_loop, do_once, query_all, all_loop}
use aro_rp.Cosmos.Retry.{retry_on_precondition_failed}
use aro_rp.Cosmos.Memory.{Memory, memory, stored, memory-IsDocumented}
use aro_rp.Database.Clusters.{
  cluster_document, run_triggers, ended, update_with, patch_with, patch_once, patch_with_lease,
  partition_key, end_lease,
}
use aro_rp.Database.Clusters as Clusters
use aro_rp.Database.Tests.{cluster_layout, parser, leased, world_after}
use aro_rp.Backend.{Database}
use aro_rp.Backend.Clusters.{
  Manager, work, handle, handle_state, settle, update_async_operation, failed_state_of,
}
use aro_rp.Backend.Settled.{Done}
use aro_rp.Lifecycle.{LeavesReady, to_create, handle-LeavesReady}
use aro_rp.Backend.GivenUp.{work-IsSettled}
use aro_rp.Backend.Scale.{sum, wanted, find, shrink, grow, have, replicas, scan, wanted-sum}

abbrev status_of : Method → ℕ
status_of get = 200
status_of put = 200
status_of post = 201
status_of delete = 204

-- A service that answers every request with one document.
abbrev pub fixed : {S D : Type 0} → D → Service S D
fixed d = record {
  send = λ req s. (
    some (record {
      status_code = status_of req.method;
      document = some d;
      documents = none;
      malformed = false;
      retry_after_ms = none;
      continuation = "";
    }),
    s,
  );
  pages = λ q c. 0;
}

abbrev pub subscription : SubscriptionDocument
subscription = record {
  id = "sub";
  metadata = record { resource_id = ""; timestamp = 0; self = ""; etag = "a"; attachments = "" };
  lease_owner = "";
  lease_expires = 0;
  dequeues = 0;
  deleting = false;
  subscription = record { state = registered; tenant_id = some "t" };
}

abbrev pub operation : AsyncOperationDocument
operation = record {
  id = "op";
  metadata = record { resource_id = ""; timestamp = 0; self = ""; etag = "a"; attachments = "" };
  async_operation = record {
    id = "";
    name = "op";
    initial_provisioning_state = creating;
    provisioning_state = creating;
    start_time = 0;
    end_time = none;
    error = none;
  };
  open_shift_cluster_key = "/subscriptions/sub/c";
  open_shift_cluster = none;
}

abbrev pub database : Database (Memory OpenShiftClusterDocument)
database = record {
  clusters = memory cluster_layout;
  clusters_path = "docs";
  subscriptions = fixed subscription;
  subscriptions_path = "subs";
  operations = fixed operation;
  operations_path = "ops";
  parse = parser;
  uuid = "w1";
  now = λ s. s.clock;
}

-- Creating a cluster fails.
abbrev manager : Manager (Memory OpenShiftClusterDocument)
manager = record {
  open_manager = λ d. pure tt;
  create = λ d w. (err (other "quota"), w);
  update = λ d. pure tt;
  delete = λ d. pure tt;
}

abbrev world_handled : World (Memory OpenShiftClusterDocument)
world_handled = (handle database manager leased world_after).1

handle_run : handle database manager leased world_after ≡ (ok tt, world_handled)
unfolding handle handle_state settle update_async_operation failed_state_of end_lease
    patch_with_lease patch_with patch_once Clusters.get update_with query_all next all_loop
    open_query partition_key replace do_loop do_once is_error_status_code to_lower run_triggers
    ended retry_on_precondition_failed
handle_run = refl

handle_test :
    (world_handled.store.content.open_shift_cluster.properties.provisioning_state ≡ failed)
    × (world_handled.store.content.open_shift_cluster.properties.failed_provisioning_state
        ≡ creating)
unfolding handle handle_state settle update_async_operation failed_state_of end_lease
    patch_with_lease patch_with patch_once Clusters.get update_with query_all next all_loop
    open_query partition_key replace do_loop do_once is_error_status_code to_lower run_triggers
    ended retry_on_precondition_failed
handle_test = (refl, refl)

handle-LeavesReady_example :
    (h : Done database
      (stored cluster_layout)
      (λ s. s.clock)
      (memory-IsDocumented cluster_layout)
      manager
      leased
      creating
      world_after
      world_handled)
    × LeavesReady database
        (stored cluster_layout)
        (λ s. s.clock)
        (memory-IsDocumented cluster_layout)
        manager
        leased
        creating
        world_after
        world_handled
        h
handle-LeavesReady_example =
    handle-LeavesReady database (stored cluster_layout) (λ s. s.clock)
      (memory-IsDocumented cluster_layout) manager leased world_after world_handled to_create
      handle_run

wanted_run : wanted 5 (some 1 ∷ some 2 ∷ []) ≡ some (3 ∷ 2 ∷ [])
unfolding wanted have replicas shrink grow find scan
wanted_run = refl

shrink_test : wanted 4 (some 6 ∷ some 1 ∷ []) ≡ some (3 ∷ 1 ∷ [])
unfolding wanted have replicas shrink grow find scan
shrink_test = refl

abbrev two_sets : List ℕ
two_sets = 3 ∷ 2 ∷ []

wanted-sum_example : (sum two_sets ≡ 5) × (length two_sets ≡ 2)
wanted-sum_example = wanted-sum 5 (some 1 ∷ some 2 ∷ []) two_sets (omega arith) wanted_run

abbrev often_dequeued : OpenShiftClusterDocument
often_dequeued = record leased { dequeues = 6 }

abbrev world_often : World (Memory OpenShiftClusterDocument)
world_often = record { store = record world_after.store { content = often_dequeued }; others = [] }

abbrev world_given_up : World (Memory OpenShiftClusterDocument)
world_given_up = (work database manager often_dequeued world_often).1

work-IsSettled_example :
    ((m1 m2 : Manager (Memory OpenShiftClusterDocument))
      → work database m1 often_dequeued world_often ≡ work database m2 often_dequeued world_often)
    × ((m : Manager (Memory OpenShiftClusterDocument))
        → work database m often_dequeued world_often ≡ (ok true, world_given_up)
        → IsSettled database
            (stored cluster_layout)
            (λ s. s.clock)
            (memory-IsDocumented cluster_layout)
            often_dequeued
            failed
            world_often
            world_given_up.store)
work-IsSettled_example =
    work-IsSettled database (stored cluster_layout) (λ s. s.clock)
      (memory-IsDocumented cluster_layout) often_dequeued world_often world_given_up (omega arith)

work_test : (work database manager often_dequeued world_often).0 ≡ ok true
unfolding work handle handle_state settle update_async_operation failed_state_of end_lease
    patch_with_lease patch_with patch_once Clusters.get update_with query_all next all_loop
    open_query partition_key replace do_loop do_once is_error_status_code to_lower run_triggers
    ended retry_on_precondition_failed
work_test = refl

-- A cluster that is up
abbrev world_up : World (Memory OpenShiftClusterDocument)
world_up = record {
  store = record world_after.store {
    content = record document {
      open_shift_cluster = record cluster {
        properties = record cluster.properties { provisioning_state = succeeded };
      };
    };
  };
  others = [];
}

abbrev world_swept : World (Memory OpenShiftClusterDocument)
world_swept = (handle_delete database subscription world_up).1

handle_delete_run : handle_delete database subscription world_up ≡ (ok true, world_swept)
unfolding handle_delete delete_loop delete_page delete_clusters patch_round start_delete
    list_by_prefix Clusters.get update_with query_all next all_loop open_query partition_key replace
    do_loop do_once is_error_status_code to_lower run_triggers retry_on_precondition_failed
handle_delete_run = refl

handle_delete-IsSwept_example :
    (i : Iterator) × (list_by_prefix database.clusters database.clusters_path database.parse
        database.uuid "sub"
        (prefix_of database "sub")
      ≡ ok i)
    × IsSwept database
        (stored cluster_layout)
        (λ s. s.clock)
        (memory-IsDocumented cluster_layout)
        i
        world_up
        world_swept
handle_delete-IsSwept_example =
    handle_delete-IsSwept database (stored cluster_layout) (λ s. s.clock)
      (memory-IsDocumented cluster_layout) subscription world_up world_swept handle_delete_run
