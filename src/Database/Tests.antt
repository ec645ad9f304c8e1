-- ===== src/Database/Tests.antt =====
-- Runs of the database layer on the service in memory, and the theorems at concrete inputs.
use aro_rp.Base.{◌≡◌, ◌≢◌, refl, none, some, []}
use aro_rp.Base.{arith}
use aro_rp.Database.Clusters.{dequeue_loop, dequeue_query}
use aro_rp.Database.Clusters.Pages.{dequeue-enough}
use aro_rp.Base.Text.{to_lower}
use aro_rp.Api.Error.{ok, is_error_status_code}
use aro_rp.Cosmos.Client.{next, open_query, replace, do_loop, do_once}
use aro_rp.Api.Cluster.{OpenShiftCluster, creating, succeeded, unset, empty_properties}
use aro_rp.Api.Document.{OpenShiftClusterDocument}
use aro_rp.Action.{World, pure}
use aro_rp.Azure.{ResourceParser}
use aro_rp.Cosmos.Memory.{Memory, Layout, memory, stored, memory-IsDocumented, memory-History}
use aro_rp.Cosmos.Client.{query_all, all_loop}
use aro_rp.Cosmos.Retry.{retry_on_precondition_failed}
use aro_rp.Database.Clusters.{
  cluster_document, run_triggers, renewing, claimed, update_with, dequeue, patch, patch_once,
  patch_with, patch_with_lease, end_lease, ended, get, partition_key,
}
use aro_rp.Database.Clusters.Patch.{patch_once_only, IsEnded, end_lease-IsEnded}
use aro_rp.Database.Clusters.Claim.{SameContent}
use aro_rp.Database.Clusters.Queue.{IsDequeued, dequeue-IsDequeued}
use aro_rp.Database.Clusters.Exclusive.{claim_exclusive}

abbrev pub cluster_layout : Layout OpenShiftClusterDocument
cluster_layout = record {
  doc = cluster_document;
  stamp = λ d e. record d { metadata = record d.metadata { etag = e } };
  run = run_triggers;
  SameContent = SameContent;
  etag-stamp = λ d e. refl;
  stamp_same = λ d e. refl;
}

abbrev pub parser : ResourceParser
parser id = some (record {
  subscription_id = "sub";
  resource_group = "rg";
  provider = "microsoft.redhatopenshift";
  resource_type = "openshiftclusters";
  resource_name = "c";
})

abbrev pub cluster : OpenShiftCluster
cluster = record {
  id = "/subscriptions/sub/c";
  name = "c";
  type = "microsoft.redhatopenshift/openshiftclusters";
  location = "eastus";
  tags = none;
  properties = record empty_properties { provisioning_state = creating };
}

abbrev pub document : OpenShiftClusterDocument
document = record {
  id = "1";
  metadata = record { resource_id = ""; timestamp = 0; self = ""; etag = ""; attachments = "" };
  key = "/subscriptions/sub/c";
  partition_key = "sub";
  cluster_resource_group_id_key = "";
  lease_owner = "";
  lease_expires = 0;
  dequeues = 0;
  async_operation_id = "";
  open_shift_cluster = cluster;
}

abbrev pub world : World (Memory OpenShiftClusterDocument)
world = record {
  store = record {
    partition = "sub";
    path = "docs/docs/1";
    content = document;
    version = 3;
    clock = 1000;
  };
  others = [];
}

abbrev pub leased : OpenShiftClusterDocument
leased = record document {
  metadata = record document.metadata { etag = "vvvvv" };
  lease_owner = "w1";
  lease_expires = 1060;
  dequeues = 1;
}

dequeue_test : (dequeue (memory cluster_layout) "docs" parser "w1" world).0 ≡ ok (some leased)
unfolding dequeue next open_query replace do_loop do_once is_error_status_code to_lower run_triggers
dequeue_test = refl

abbrev pub world_after : World (Memory OpenShiftClusterDocument)
world_after = record {
  store = record {
    partition = "sub";
    path = "docs/docs/1";
    content = record leased { metadata = record document.metadata { etag = "vvvv" } };
    version = 4;
    clock = 1000;
  };
  others = [];
}

dequeue_run :
    dequeue (memory cluster_layout) "docs" parser "w1" world ≡ (ok (some leased), world_after)
unfolding dequeue next open_query replace do_loop do_once is_error_status_code to_lower run_triggers
dequeue_run = refl

dequeue-IsDequeued_example :
    IsDequeued
      (memory cluster_layout)
      "docs"
      (stored cluster_layout)
      (λ s. s.clock)
      (memory-IsDocumented cluster_layout)
      parser
      "w1"
      world
      leased
      world_after
dequeue-IsDequeued_example =
    dequeue-IsDequeued (memory cluster_layout) "docs" (stored cluster_layout) (λ s. s.clock)
      (memory-IsDocumented cluster_layout) parser "w1" world {x = leased} {w' = world_after}
      dequeue_run

-- the version that the worker reads
abbrev pub read_document : OpenShiftClusterDocument
read_document = record document { metadata = record document.metadata { etag = "vvvv" } }

claim_run :
    update_with
      (memory cluster_layout)
      "docs"
      parser
      "w1"
      (claimed "w1" read_document)
      (some renewing)
      world
    ≡ (ok leased, world_after)
unfolding update_with replace do_loop do_once is_error_status_code to_lower run_triggers
claim_run = refl

-- Another worker, which read the same version, comes second.
claim_exclusive_example :
    update_with
      (memory cluster_layout)
      "docs"
      parser
      "w2"
      (claimed "w2" read_document)
      (some renewing)
      (record { store = world_after.store; others = [] })
    ≢ (ok leased, world_after)
claim_exclusive_example =
    claim_exclusive (memory cluster_layout) "docs" (stored cluster_layout) (λ s. s.clock)
      (memory-IsDocumented cluster_layout) parser (memory-History cluster_layout) "w1" "w2"
      read_document read_document world world_after world_after leased leased [] [] refl refl refl
      tt tt claim_run

patch_once_only_example :
    patch (memory cluster_layout) "docs" parser "w1" "/subscriptions/sub/c" pure world
    ≡ patch_once (memory cluster_layout) "docs" parser "w1" "/subscriptions/sub/c" pure none world
patch_once_only_example =
    patch_once_only (memory cluster_layout) "docs" (stored cluster_layout) (λ s. s.clock)
      (memory-IsDocumented cluster_layout) parser "w1" "/subscriptions/sub/c" pure (λ d w. refl)
      world

abbrev world_ended : World (Memory OpenShiftClusterDocument)
world_ended =
    (end_lease (memory cluster_layout) "docs" parser "w1" "/subscriptions/sub/c" succeeded unset
      world_after).1

abbrev unleased : OpenShiftClusterDocument
unleased = record (ended succeeded unset leased) {
  metadata = record document.metadata { etag = "vvvvvv" };
}

end_lease_run :
    end_lease
      (memory cluster_layout)
      "docs"
      parser
      "w1"
      "/subscriptions/sub/c"
      succeeded
      unset
      world_after
    ≡ (ok unleased, world_ended)
unfolding end_lease patch_with_lease patch_with patch_once get update_with query_all next all_loop
    open_query partition_key replace do_loop do_once is_error_status_code to_lower run_triggers
    ended retry_on_precondition_failed
end_lease_run = refl

end_lease-IsEnded_example :
    IsEnded
      (memory cluster_layout)
      "docs"
      (stored cluster_layout)
      (λ s. s.clock)
      (memory-IsDocumented cluster_layout)
      parser
      "w1"
      succeeded
      unset
      "/subscriptions/sub/c"
      world_after
      world_ended.store
      unleased
end_lease-IsEnded_example =
    end_lease-IsEnded (memory cluster_layout) "docs" (stored cluster_layout) (λ s. s.clock)
      (memory-IsDocumented cluster_layout) parser "w1" "/subscriptions/sub/c" succeeded unset
      world_after {x = unleased} {w' = world_ended} end_lease_run

dequeue-enough_example :
    dequeue_loop
      (memory cluster_layout)
      "docs"
      parser
      "w1"
      7
      (open_query cluster_document (memory cluster_layout) "docs" "" dequeue_query)
      world
    ≡ dequeue (memory cluster_layout) "docs" parser "w1" world
dequeue-enough_example =
    dequeue-enough (memory cluster_layout) "docs" (stored cluster_layout) (λ s. s.clock)
      (memory-IsDocumented cluster_layout) parser "w1" 7 world (omega arith)
