-- ===== src/Database/Clusters.antt =====
-- pkg/database/openshiftclusters.go
pub mod Claim
pub mod Queue
pub mod Exclusive
pub mod Patch
pub mod Leased
pub mod Pages
use aro_rp.Base.{
  ℕ, zero, suc, String, true, not, Option, none, some, List, [], ◌∷◌, ◌+◌, ◌==◌, eqb, if◌then◌else◌,
}
use aro_rp.Base.Text.{to_lower}
use aro_rp.Api.Error.{Error, cosmos, other, Result, ok, err}
use aro_rp.Api.Cluster.{ProvisioningState, succeeded}
use aro_rp.Api.Document.{OpenShiftClusterDocument}
use aro_rp.Action.{M, pure, fail, lift, attempt, ◌>>=◌, failed_with}
use aro_rp.Azure.{ResourceParser, parse_resource_id}
use aro_rp.Cosmos.Service.{Query, Service, DocumentType}
use aro_rp.Cosmos.Client.{
  Options, empty_options, create as client_create, replace, delete_document, Iterator, open_query,
  next, query_all, page_calls,
}
use aro_rp.Cosmos.Retry.{retry_on_precondition_failed}

abbrev pub cluster_document : DocumentType OpenShiftClusterDocument
cluster_document = record { id = λ d. d.id; etag = λ d. d.etag }

-- The body of the trigger renewLease, at the service's time in seconds.
unfoldable pub renew_lease : ℕ → OpenShiftClusterDocument → OpenShiftClusterDocument
renew_lease now d = record d { lease_expires = now + 60 }

abbrev pub renewing : Options
renewing = record empty_options { pre_triggers = "renewLease" ∷ [] }

-- The pre-triggers that NewOpenShiftClusters registers; a request that names another is refused,
-- and no request does.
unfoldable pub run_triggers : List String → ℕ → OpenShiftClusterDocument → OpenShiftClusterDocument
unfolding renew_lease
run_triggers [] now d = d
run_triggers (t ∷ ts) now d =
    run_triggers ts now (if t == "renewLease" then renew_lease now d else d)

-- Conflict becomes PreconditionFailed.
abbrev pub rename_conflict {ℓ} : {A : Type ℓ} → Result A → Result A
rename_conflict (ok a) = ok a
rename_conflict (err (cosmos s)) = err (cosmos (if eqb s 409 then 412 else s))
rename_conflict (err e) = err e

abbrev pub not_lower_case : Error
not_lower_case = other "key is not lower case"

-- The closure of EndLease, on the document.
unfoldable pub ended :
    ProvisioningState → ProvisioningState → OpenShiftClusterDocument → OpenShiftClusterDocument
ended state failed_state d =
    let p = record d.open_shift_cluster.properties {
      provisioning_state = state;
      failed_provisioning_state = failed_state;
    } in
    record d {
      open_shift_cluster = record d.open_shift_cluster { properties = p };
      lease_owner = "";
      lease_expires = 0;
      dequeues = elim state [ succeeded ↦ 0 | _ ↦ d.dequeues ];
      async_operation_id = "";
    }

-- The document that Dequeue writes.
abbrev pub claimed : String → OpenShiftClusterDocument → OpenShiftClusterDocument
claimed uuid d = record d { lease_owner = uuid; dequeues = d.dequeues + 1 }

abbrev get_query : String → Query
get_query key = record {
  query = "SELECT * FROM OpenShiftClusters doc WHERE doc.key = @key";
  parameters = ("@key", key) ∷ [];
}

-- the switch on the number of documents read
abbrev pub single : List OpenShiftClusterDocument → Result OpenShiftClusterDocument
single [] = err (cosmos 404)
single (d ∷ []) = ok d
single (d ∷ e ∷ ds) = err (other "read more than one document")

abbrev pub dequeue_query : Query
dequeue_query = record {
  query =
      "SELECT * FROM OpenShiftClusters doc WHERE NOT (doc.openShiftCluster.properties.provisioningState IN (\"Succeeded\", \"Failed\")) AND (doc.leaseExpires ?? 0) < GetCurrentTimestamp() / 1000";
  parameters = [];
}

module _ {S : Type 0} (svc : Service S OpenShiftClusterDocument) (path : String)
    (parse : ResourceParser) (uuid : String) where
  -- partitionKey
  unfoldable pub partition_key : String → Result String
  partition_key key = elim (parse_resource_id parse key) [
    | ok r ↦ ok r.subscription_id
    | err e ↦ err e
  ]

  -- Create
  unfoldable pub create : OpenShiftClusterDocument → M S OpenShiftClusterDocument
  unfolding partition_key
  create d = if not (d.key == to_lower d.key) then fail not_lower_case else (do
    p ← lift (partition_key d.key)
    let d' = record d { partition_key = p }
    r ← attempt (client_create cluster_document svc path p d' none)
    lift (rename_conflict r))

  -- Get
  unfoldable pub get : String → M S OpenShiftClusterDocument
  unfolding partition_key
  get key = if not (key == to_lower key) then fail not_lower_case else (do
    p ← lift (partition_key key)
    docs ← query_all cluster_document svc path p (get_query key)
    lift (single docs))

  -- update
  unfoldable pub update_with :
      OpenShiftClusterDocument → Option Options → M S OpenShiftClusterDocument
  update_with d options =
      if not (d.key == to_lower d.key)
      then fail not_lower_case
      else replace cluster_document svc path d.partition_key d options

  -- Update
  unfoldable pub update : OpenShiftClusterDocument → M S OpenShiftClusterDocument
  unfolding update_with
  update d = update_with d none

  -- One round of `patch`. The function `f` may call services itself, as the front end's does.
  unfoldable pub patch_once :
      String
      → (OpenShiftClusterDocument → M S OpenShiftClusterDocument)
      → Option Options
      → M S OpenShiftClusterDocument
  unfolding get update_with
  patch_once key f options = do d ← get key; d' ← f d; update_with d' options

  -- patch
  unfoldable pub patch_with :
      String
      → (OpenShiftClusterDocument → M S OpenShiftClusterDocument)
      → Option Options
      → M S OpenShiftClusterDocument
  unfolding patch_once retry_on_precondition_failed
  patch_with key f options = retry_on_precondition_failed (patch_once key f options)

  -- Patch
  unfoldable pub patch :
      String
      → (OpenShiftClusterDocument → M S OpenShiftClusterDocument)
      → M S OpenShiftClusterDocument
  unfolding patch_with
  patch key f = patch_with key f none

  -- the closure of patchWithLease
  abbrev pub with_lease :
      (OpenShiftClusterDocument → M S OpenShiftClusterDocument)
      → OpenShiftClusterDocument
      → M S OpenShiftClusterDocument
  with_lease f d = if not (d.lease_owner == uuid) then fail (other "lost lease") else f d

  -- patchWithLease
  unfoldable pub patch_with_lease :
      String
      → (OpenShiftClusterDocument → M S OpenShiftClusterDocument)
      → Option Options
      → M S OpenShiftClusterDocument
  unfolding patch_with
  patch_with_lease key f options = patch_with key (with_lease f) options

  -- Delete
  unfoldable pub delete : OpenShiftClusterDocument → M S (Unit {0})
  delete d =
      if not (d.key == to_lower d.key)
      then fail not_lower_case
      else delete_document cluster_document svc path d.partition_key d
          (some (record empty_options { no_etag = true }))

  -- ListByPrefix
  unfoldable pub list_by_prefix : String → String → Result Iterator
  unfolding open_query
  list_by_prefix subscription_id prefix =
      if not (prefix == to_lower prefix)
      then err (other "prefix is not lower case")
      else ok (
          open_query cluster_document svc path subscription_id (record {
            query = "SELECT * FROM OpenShiftClusters doc WHERE STARTSWITH(doc.key, @prefix)";
            parameters = ("@prefix", prefix) ∷ [];
          }))

  -- the inner loop of Dequeue; nil is `none`
  unfoldable pub claim_first : List OpenShiftClusterDocument → M S (Option OpenShiftClusterDocument)
  claim_first [] = pure none
  claim_first (d ∷ ds) = do
    r ← attempt (update_with (claimed uuid d) (some renewing))
    let rest = claim_first ds
    if failed_with r 412 then rest else (do d' ← lift r; pure (some d'))

  -- what is done with a page; `after` is the rest of the outer loop
  unfoldable pub claim_page :
      (Iterator → M S (Option OpenShiftClusterDocument))
      → Option (List OpenShiftClusterDocument) × Iterator
      → M S (Option OpenShiftClusterDocument)
  claim_page after (none, i) = pure none
  claim_page after (some docs, i) = do
    found ← claim_first docs
    elim found [ none ↦ after i | some d ↦ pure (some d) ]

  -- the outer loop, over the calls of Next left
  unfoldable pub dequeue_loop : ℕ → Iterator → M S (Option OpenShiftClusterDocument)
  dequeue_loop zero i = fail (other "too many pages")
  dequeue_loop (suc n) i = do p ← next cluster_document svc path i; claim_page (dequeue_loop n) p

  -- Dequeue
  unfoldable pub dequeue : M S (Option OpenShiftClusterDocument)
  unfolding dequeue_loop claim_page claim_first update_with
  dequeue =
      dequeue_loop (page_calls cluster_document svc path dequeue_query)
        (open_query cluster_document svc path "" dequeue_query)

  -- Lease
  unfoldable pub lease : String → M S OpenShiftClusterDocument
  unfolding patch_with_lease
  lease key = patch_with_lease key pure (some renewing)

  -- EndLease
  unfoldable pub end_lease :
      String → ProvisioningState → ProvisioningState → M S OpenShiftClusterDocument
  unfolding patch_with_lease ended
  end_lease key state failed_state =
      patch_with_lease key (λ d. pure (ended state failed_state d)) none
