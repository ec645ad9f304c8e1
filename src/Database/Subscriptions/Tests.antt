-- ===== src/Database/Subscriptions/Tests.antt =====
-- Runs of Lease and EndLease of a subscription on the service in memory, and the theorems there.
use aro_rp.Base.{◌≡◌, refl, true, false, none, []}
use aro_rp.Base.Text.{to_lower}
use aro_rp.Api.Error.{ok, is_error_status_code}
use aro_rp.Action.{World}
use aro_rp.Cosmos.Client.{replace, do_loop, do_once}
use aro_rp.Cosmos.Retry.{retry_on_precondition_failed}
use aro_rp.Cosmos.Memory.{Memory, Layout, memory, stored, memory-IsDocumented}
use aro_rp.Api.Document.{SubscriptionDocument, deleted}
use aro_rp.Cosmos.Client.{get_document}
use aro_rp.Database.Subscriptions as Subscriptions
use aro_rp.Database.Subscriptions.{subscription_document}
use aro_rp.Database.Subscriptions.Patch as Patch

abbrev subscription_layout : Layout SubscriptionDocument
subscription_layout = record {
  doc = subscription_document;
  stamp = λ d e. record d { metadata = record d.metadata { etag = e } };
  run = Subscriptions.run_triggers;
  SameContent = Patch.SameContent;
  etag-stamp = λ d e. refl;
  stamp_same = λ d e. refl;
}

abbrev deleting_subscription : SubscriptionDocument
deleting_subscription = record {
  id = "sub";
  metadata = record { resource_id = ""; timestamp = 0; self = ""; etag = ""; attachments = "" };
  lease_owner = "w1";
  lease_expires = 1060;
  dequeues = 1;
  deleting = true;
  subscription = record { state = deleted; tenant_id = none };
}

abbrev leased_world : World (Memory SubscriptionDocument)
leased_world = record {
  store = record {
    partition = "sub";
    path = "subs/docs/sub";
    content = deleting_subscription;
    version = 0;
    clock = 1030;
  };
  others = [];
}

abbrev stamped : SubscriptionDocument → SubscriptionDocument
stamped d = record d { metadata = record d.metadata { etag = "vv" } }

abbrev lease_world : World (Memory SubscriptionDocument)
lease_world = (Subscriptions.lease (memory subscription_layout) "subs" "w1" "sub" leased_world).1

-- At the time 1030 the lease still ends at 1060.
lease_run :
    Subscriptions.lease (memory subscription_layout) "subs" "w1" "sub" leased_world
    ≡ (ok (stamped deleting_subscription), lease_world)
unfolding Subscriptions.lease Subscriptions.patch_with_lease Subscriptions.patch_with
    Subscriptions.patch_once Subscriptions.get get_document Subscriptions.update_with replace
    do_loop do_once is_error_status_code to_lower Subscriptions.run_triggers
    retry_on_precondition_failed
lease_run = refl

lease-IsRewritten_example :
    (r : Patch.IsRewritten
      (memory subscription_layout)
      "subs"
      (stored subscription_layout)
      (λ s. s.clock)
      (memory-IsDocumented subscription_layout)
      "w1"
      (λ d. d)
      "sub"
      leased_world
      lease_world.store
      (stamped deleting_subscription))
    × (1060 ≡ r.read.lease_expires)
lease-IsRewritten_example =
    Patch.lease-IsRewritten (memory subscription_layout) "subs" (stored subscription_layout)
      (λ s. s.clock) (memory-IsDocumented subscription_layout) "w1" "sub" leased_world
      {x = stamped deleting_subscription} {w' = lease_world} lease_run

abbrev ended_subscription : SubscriptionDocument
ended_subscription = stamped (Subscriptions.ended false true deleting_subscription)

abbrev ended_world : World (Memory SubscriptionDocument)
ended_world =
    (Subscriptions.end_lease (memory subscription_layout) "subs" "w1" "sub" false true
      leased_world).1

end_run :
    Subscriptions.end_lease (memory subscription_layout) "subs" "w1" "sub" false true leased_world
    ≡ (ok ended_subscription, ended_world)
unfolding Subscriptions.end_lease Subscriptions.ended Subscriptions.patch_with_lease
    Subscriptions.patch_with Subscriptions.patch_once Subscriptions.get get_document
    Subscriptions.update_with replace do_loop do_once is_error_status_code to_lower
    Subscriptions.run_triggers retry_on_precondition_failed
end_run = refl
