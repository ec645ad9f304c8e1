-- ===== src/Frontend/Tests.antt =====
-- Runs of the front end on the service in memory, and the theorems at concrete inputs.
use aro_rp.Base.{String, ◌≡◌, inl, inr, refl, true, some, []}
use aro_rp.Base.Text.{to_lower}
use aro_rp.Api.Error.{Result, ok, is_error_status_code}
use aro_rp.Api.Cluster.{succeeded, OpenShiftCluster}
use aro_rp.Api.Document.{OpenShiftClusterDocument, SubscriptionDocument, Subscription, warned}
use aro_rp.Action.{World, pure}
use aro_rp.Cosmos.Client.{
  next, open_query, replace, do_loop, do_once, query_all, all_loop, get_document, create,
  do_request,
}
use aro_rp.Cosmos.Retry.{retry_on_precondition_failed}
use aro_rp.Cosmos.Memory.{Memory, stored, memory-IsDocumented}
use aro_rp.Database.Clusters.{cluster_document, run_triggers, update_with, update, partition_key}
use aro_rp.Database.Clusters as Clusters
use aro_rp.Database.Subscriptions as Subscriptions
use aro_rp.Database.AsyncOperations as AsyncOperations
use aro_rp.Database.Tests.{cluster_layout, document, cluster}
use aro_rp.Backend.Tests.{database, subscription}
use aro_rp.Preview.Cluster as Preview
use aro_rp.Preview.Convert.{to_external, to_internal}
use aro_rp.Frontend.{Config, Version, Request, put, Answer}
use aro_rp.Frontend.Gate.{
  admit, admit_in, validate_subscription_state, allow, new_async_operation, async_operation,
  validate_terminal_provisioning_state,
}
use aro_rp.Frontend.Put.{
  put_or_patch, put_or_patch_once, start, apply, change, store, render, read_request, mark_updated,
}
use aro_rp.Frontend.Delete.{start_delete, mark_deleting}
use aro_rp.Frontend.Deleted.{IsDeletion, delete-IsDeletion}
use aro_rp.Frontend.Accepted.{IsAccepted, put_or_patch-Accepted}
use aro_rp.Frontend.Redacted.{IsRedacted, answers-IsRedacted}
use aro_rp.Frontend.Subscriptions.{read_subscription, set_state}
use aro_rp.Frontend.Absorbed.{IsMove, IsMoved, read_subscription-IsMoved}

abbrev config : Config (Memory OpenShiftClusterDocument)
config = record {
  db = database;
  location = "EastUS";
  feature_operations = true;
  parse_url = λ u. ok tt;
  new_uuid = λ s. "op";
}

-- Every body leaves the cluster as it is, and JSON is a fixed text.
abbrev pub version : Version (Memory OpenShiftClusterDocument) Preview.OpenShiftCluster
version = record {
  to_external = to_external;
  to_internal = to_internal;
  unmarshal = λ body e. ok e;
  marshal = λ e. ok "{}";
  static = λ path e current. ok tt;
  dynamic = λ oc. pure tt;
}

abbrev pub request : Request
request = record {
  verb = put;
  path = "/subscriptions/sub/c";
  original_path = "/subscriptions/sub/C";
  subscription_id = "sub";
  provider = "microsoft.redhatopenshift";
  operation_id = "op";
  body = "";
  referer = "";
}

abbrev up_cluster : OpenShiftCluster
up_cluster = record cluster {
  properties = record cluster.properties { provisioning_state = succeeded };
}

abbrev world_up : World (Memory OpenShiftClusterDocument)
world_up = record {
  store = record {
    partition = "sub";
    path = "docs/docs/1";
    content = record document { open_shift_cluster = up_cluster };
    version = 3;
    clock = 1000;
  };
  others = [];
}

abbrev world_put : World (Memory OpenShiftClusterDocument)
world_put = (put_or_patch config version request world_up).1

abbrev answer : Answer
answer = record { status = 200; body = some "{}" }

put_run : put_or_patch config version request world_up ≡ (ok answer, world_put)
unfolding put_or_patch put_or_patch_once start apply change store render read_request mark_updated
    admit admit_in validate_terminal_provisioning_state validate_subscription_state allow
    new_async_operation Subscriptions.get AsyncOperations.create get_document create Clusters.get
    update update_with query_all next all_loop open_query partition_key replace do_loop do_once
    is_error_status_code to_lower run_triggers retry_on_precondition_failed do_request
    async_operation
put_run = refl

put_or_patch-Accepted_example :
    IsAccepted config version
      (stored cluster_layout)
      (λ s. s.clock)
      (memory-IsDocumented cluster_layout)
      request
      world_up
      answer
      world_put
put_or_patch-Accepted_example =
    put_or_patch-Accepted config version (stored cluster_layout) (λ s. s.clock)
      (memory-IsDocumented cluster_layout) request world_up {a = answer} {w' = world_put} put_run

answers-IsRedacted_example : IsRedacted config version answer
answers-IsRedacted_example =
    answers-IsRedacted config version request world_up {a = answer} {w' = world_put}
      (inr (inl put_run))

abbrev warned_subscription : Subscription
warned_subscription = record { state = warned; tenant_id = some "t" }

abbrev read_warned : String → Result Subscription
read_warned body = ok warned_subscription

abbrev show_subscription : Subscription → Result String
show_subscription s = ok "{}"

read_run :
    read_subscription config read_warned show_subscription request subscription
    ≡ ok (record subscription { subscription = warned_subscription })
unfolding read_subscription set_state
read_run = refl

read_subscription-IsMoved_example :
    ((d' : SubscriptionDocument)
      → read_subscription config read_warned show_subscription request subscription ≡ ok d'
      → IsMoved warned_subscription subscription d')
    × (IsMove subscription.subscription.state warned_subscription.state
        → (d' : SubscriptionDocument) × (read_subscription config read_warned show_subscription
              request subscription
            ≡ ok d'))
read_subscription-IsMoved_example =
    read_subscription-IsMoved config read_warned show_subscription request subscription
      warned_subscription refl

abbrev world_deleting : World (Memory OpenShiftClusterDocument)
world_deleting =
    (Clusters.patch database.clusters database.clusters_path database.parse database.uuid
      "/subscriptions/sub/c" (start_delete config request) world_up).1

abbrev deleting_document : OpenShiftClusterDocument
deleting_document = record (mark_deleting (record document { open_shift_cluster = up_cluster })) {
  metadata = record document.metadata { etag = "vvvvv" };
  async_operation_id = "op";
}

delete_run :
    Clusters.patch database.clusters database.clusters_path database.parse database.uuid
      "/subscriptions/sub/c"
      (start_delete config request)
      world_up
    ≡ (ok deleting_document, world_deleting)
unfolding start_delete mark_deleting validate_terminal_provisioning_state
    validate_subscription_state allow new_async_operation Subscriptions.get AsyncOperations.create
    get_document create Clusters.get Clusters.patch Clusters.patch_with Clusters.patch_once
    update_with query_all next all_loop open_query partition_key replace do_loop do_once
    is_error_status_code to_lower run_triggers retry_on_precondition_failed do_request
    async_operation
delete_run = refl

delete-IsDeletion_example :
    IsDeletion config
      (stored cluster_layout)
      (λ s. s.clock)
      (memory-IsDocumented cluster_layout)
      request
      world_up
      deleting_document
      world_deleting
delete-IsDeletion_example =
    delete-IsDeletion config (stored cluster_layout) (λ s. s.clock)
      (memory-IsDocumented cluster_layout) request world_up {x = deleting_document}
      {w' = world_deleting} delete_run
