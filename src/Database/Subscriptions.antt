-- ===== src/Database/Subscriptions.antt =====
-- pkg/database/subscriptions.go
pub mod Patch
pub mod Tests
use aro_rp.Base.{
  ℕ, zero, suc, String, Bool, false, not, Option, none, some, List, [], ◌∷◌, ◌+◌, ◌||◌, ◌==◌,
  if◌then◌else◌,
}
use aro_rp.Base.Text.{to_lower}
use aro_rp.Api.Error.{Error, other}
use aro_rp.Api.Document.{SubscriptionDocument}
use aro_rp.Action.{M, pure, fail, lift, attempt, ◌>>=◌, failed_with}
use aro_rp.Cosmos.Service.{Query, Service, DocumentType}
use aro_rp.Cosmos.Client.{
  Options, empty_options, create as client_create, get_document, replace, Iterator, open_query,
  next, page_calls,
}
use aro_rp.Cosmos.Retry.{retry_on_precondition_failed}
use aro_rp.Database.Clusters.{renewing, rename_conflict}

abbrev pub subscription_document : DocumentType SubscriptionDocument
subscription_document = record { id = λ d. d.id; etag = λ d. d.etag }

-- The bodies of the triggers renewLease and retryLater, at the service's time in seconds.
unfoldable pub renew_lease : ℕ → SubscriptionDocument → SubscriptionDocument
renew_lease now d = record d { lease_expires = now + 60 }

unfoldable pub retry_later : ℕ → SubscriptionDocument → SubscriptionDocument
retry_later now d = record d { lease_expires = now + 600 }

abbrev retrying_later : Options
retrying_later = record empty_options { pre_triggers = "retryLater" ∷ [] }

-- The pre-triggers that NewSubscriptions registers.
unfoldable pub run_triggers : List String → ℕ → SubscriptionDocument → SubscriptionDocument
unfolding renew_lease retry_later
run_triggers [] now d = d
run_triggers (t ∷ ts) now d = run_triggers ts now (
    if t == "renewLease"
    then renew_lease now d
    else if t == "retryLater"
    then retry_later now d
    else d)

abbrev pub not_lower_case : Error
not_lower_case = other "id is not lower case"

-- The closure of EndLease, on the document.
unfoldable pub ended : Bool → Bool → SubscriptionDocument → SubscriptionDocument
ended done retry d = record d {
  deleting = if done then false else d.deleting;
  lease_owner = "";
  lease_expires = 0;
  dequeues = if done || retry then 0 else d.dequeues;
}

-- The document that Dequeue writes.
abbrev pub claimed : String → SubscriptionDocument → SubscriptionDocument
claimed uuid d = record d { lease_owner = uuid; dequeues = d.dequeues + 1 }

abbrev pub dequeue_query : Query
dequeue_query = record {
  query =
      "SELECT * FROM Subscriptions doc WHERE (doc.deleting ?? false) AND (doc.leaseExpires ?? 0) < GetCurrentTimestamp() / 1000";
  parameters = [];
}

module _ {S : Type 0} (svc : Service S SubscriptionDocument) (path uuid : String) where
  -- Create
  unfoldable pub create : SubscriptionDocument → M S SubscriptionDocument
  create d = if not (d.id == to_lower d.id) then fail not_lower_case else (do
    r ← attempt (client_create subscription_document svc path d.id d none)
    lift (rename_conflict r))

  -- Get
  unfoldable pub get : String → M S SubscriptionDocument
  get id =
      if not (id == to_lower id)
      then fail not_lower_case
      else get_document subscription_document svc path id id none

  -- update
  unfoldable pub update_with : SubscriptionDocument → Option Options → M S SubscriptionDocument
  update_with d options =
      if not (d.id == to_lower d.id)
      then fail not_lower_case
      else replace subscription_document svc path d.id d options

  -- Update
  unfoldable pub update : SubscriptionDocument → M S SubscriptionDocument
  unfolding update_with
  update d = update_with d none

  -- one round of `patch`
  unfoldable pub patch_once :
      String
      → (SubscriptionDocument → M S SubscriptionDocument)
      → Option Options
      → M S SubscriptionDocument
  unfolding get update_with
  patch_once id f options = do d ← get id; d' ← f d; update_with d' options

  -- patch
  unfoldable pub patch_with :
      String
      → (SubscriptionDocument → M S SubscriptionDocument)
      → Option Options
      → M S SubscriptionDocument
  unfolding patch_once retry_on_precondition_failed
  patch_with id f options = retry_on_precondition_failed (patch_once id f options)

  -- the closure of patchWithLease
  abbrev pub with_lease :
      (SubscriptionDocument → M S SubscriptionDocument)
      → SubscriptionDocument
      → M S SubscriptionDocument
  with_lease f d = if not (d.lease_owner == uuid) then fail (other "lost lease") else f d

  -- patchWithLease: the options stay unused, as in the source
  unfoldable pub patch_with_lease :
      String
      → (SubscriptionDocument → M S SubscriptionDocument)
      → Option Options
      → M S SubscriptionDocument
  unfolding patch_with
  patch_with_lease id f options = patch_with id (with_lease f) none

  -- the inner loop of Dequeue
  unfoldable pub claim_first : List SubscriptionDocument → M S (Option SubscriptionDocument)
  claim_first [] = pure none
  claim_first (d ∷ ds) = do
    r ← attempt (update_with (claimed uuid d) (some renewing))
    let rest = claim_first ds
    if failed_with r 412 then rest else (do d' ← lift r; pure (some d'))

  -- what is done with a page; `after` is the rest of the outer loop
  unfoldable pub claim_page :
      (Iterator → M S (Option SubscriptionDocument))
      → Option (List SubscriptionDocument) × Iterator
      → M S (Option SubscriptionDocument)
  claim_page after (none, i) = pure none
  claim_page after (some docs, i) = do
    found ← claim_first docs
    elim found [ none ↦ after i | some d ↦ pure (some d) ]

  -- the outer loop, over the calls of Next left
  unfoldable pub dequeue_loop : ℕ → Iterator → M S (Option SubscriptionDocument)
  dequeue_loop zero i = fail (other "too many pages")
  dequeue_loop (suc n) i = do
    p ← next subscription_document svc path i
    claim_page (dequeue_loop n) p

  -- Dequeue
  unfoldable pub dequeue : M S (Option SubscriptionDocument)
  unfolding dequeue_loop claim_page claim_first update_with
  dequeue =
      dequeue_loop (page_calls subscription_document svc path dequeue_query)
        (open_query subscription_document svc path "" dequeue_query)

  -- Lease
  unfoldable pub lease : String → M S SubscriptionDocument
  unfolding patch_with_lease
  lease id = patch_with_lease id pure (some renewing)

  -- EndLease
  unfoldable pub end_lease : String → Bool → Bool → M S SubscriptionDocument
  unfolding patch_with_lease ended
  end_lease id done retry =
      patch_with_lease id (λ d. pure (ended done retry d))
        (if retry then some retrying_later else none)
