-- ===== src/Frontend/Subscriptions.antt =====
-- pkg/frontend/subscriptions_put.go
use aro_rp.Base.{String, Bool, true, false, Option, none, some, if◌then◌else◌}
use aro_rp.Api.Error.{Error, Result, ok, err, new_cloud_error}
use aro_rp.Api.Error as Error
use aro_rp.Api.Document.{
  Subscription, SubscriptionDocument, SubscriptionState, registered, unregistered, warned,
  suspended, deleted,
}
use aro_rp.Api.Document as Document
use aro_rp.Action.{M, lift, attempt, ◌>>=◌}
use aro_rp.Cosmos.Retry.{retry_on_precondition_failed}
use aro_rp.Database.Subscriptions as Subscriptions
use aro_rp.Frontend.{Config, Request, Answer}
use aro_rp.Frontend.Gate.{if_found}

abbrev pub blank_subscription : String → SubscriptionDocument
blank_subscription id = record {
  id = id;
  metadata = record { resource_id = ""; timestamp = 0; self = ""; etag = ""; attachments = "" };
  lease_owner = "";
  lease_expires = 0;
  dequeues = 0;
  deleting = false;
  subscription = record { state = Document.unknown ""; tenant_id = none };
}

-- the switch on the new state, and the check of the old one
unfoldable pub set_state :
    SubscriptionState → Subscription → SubscriptionDocument → Result SubscriptionDocument
unfolding new_cloud_error
set_state old s d = elim s.state [
  | deleted ↦ ok (record d { subscription = s; deleting = true })
  | Document.unknown t ↦ err (new_cloud_error 400 "InvalidParameter" "state")
  | _ ↦ elim old [
    | deleted ↦ err (new_cloud_error 400 "InvalidSubscriptionState" "")
    | _ ↦ ok (record d { subscription = s })
  ]
]

module _ {S : Type 0} (f : Config S) (unmarshal : String → Result Subscription)
    (marshal : Subscription → Result String) where
  abbrev pub is_missing : Option SubscriptionDocument → Bool
  is_missing none = true
  is_missing (some d) = false

  abbrev pub or_blank : String → Option SubscriptionDocument → SubscriptionDocument
  or_blank id none = blank_subscription id
  or_blank id (some d) = d

  -- The request read into the document
  unfoldable pub read_subscription : Request → SubscriptionDocument → Result SubscriptionDocument
  unfolding set_state new_cloud_error
  read_subscription r d = elim (unmarshal r.body) [
    | err e ↦ err (new_cloud_error 400 "InvalidRequestContent" "")
    | ok s ↦ set_state d.subscription.state s d
  ]

  unfoldable pub render : Bool → SubscriptionDocument → Result Answer
  render is_create d =
      Error.bind (marshal d.subscription)
        (λ b. ok (record { status = if is_create then 201 else 200; body = some b }))

  unfoldable pub store : Bool → SubscriptionDocument → M S SubscriptionDocument
  store is_create d =
      if is_create
      then Subscriptions.create f.db.subscriptions f.db.subscriptions_path f.db.uuid d
      else Subscriptions.update f.db.subscriptions f.db.subscriptions_path f.db.uuid d

  -- _putSubscription
  unfoldable pub put_subscription_once : Request → M S Answer
  unfolding read_subscription store render
  put_subscription_once r = do
    found ←
        attempt
          (Subscriptions.get f.db.subscriptions f.db.subscriptions_path f.db.uuid r.subscription_id)
    old ← lift (if_found found)
    d ← lift (read_subscription r (or_blank r.subscription_id old))
    x ← store (is_missing old) d
    lift (render (is_missing old) x)

  -- putSubscription
  unfoldable pub put_subscription : Request → M S Answer
  unfolding put_subscription_once retry_on_precondition_failed
  put_subscription r = retry_on_precondition_failed (put_subscription_once r)
