-- ===== src/Database/AsyncOperations.antt =====
-- pkg/database/asyncoperations.go
use aro_rp.Base.{String, not, none, ◌==◌, if◌then◌else◌}
use aro_rp.Base.Text.{to_lower}
use aro_rp.Api.Document.{AsyncOperationDocument}
use aro_rp.Action.{M, fail, lift, attempt, ◌>>=◌}
use aro_rp.Cosmos.Service.{Service, DocumentType}
use aro_rp.Cosmos.Client.{create as client_create, get_document, replace}
use aro_rp.Cosmos.Retry.{retry_on_precondition_failed}
use aro_rp.Database.Clusters.{rename_conflict}
use aro_rp.Database.Subscriptions.{not_lower_case}

abbrev pub async_document : DocumentType AsyncOperationDocument
async_document = record { id = λ d. d.id; etag = λ d. d.etag }

module _ {S : Type 0} (svc : Service S AsyncOperationDocument) (path : String) where
  -- Create
  unfoldable pub create : AsyncOperationDocument → M S AsyncOperationDocument
  create d = if not (d.id == to_lower d.id) then fail not_lower_case else (do
    r ← attempt (client_create async_document svc path d.id d none)
    lift (rename_conflict r))

  -- Get
  unfoldable pub get : String → M S AsyncOperationDocument
  get id =
      if not (id == to_lower id)
      then fail not_lower_case
      else get_document async_document svc path id id none

  -- one round of Patch
  unfoldable pub patch_once :
      String → (AsyncOperationDocument → M S AsyncOperationDocument) → M S AsyncOperationDocument
  unfolding get
  patch_once id f = do d ← get id; d' ← f d; replace async_document svc path d'.id d' none

  -- Patch
  unfoldable pub patch :
      String → (AsyncOperationDocument → M S AsyncOperationDocument) → M S AsyncOperationDocument
  unfolding patch_once retry_on_precondition_failed
  patch id f = retry_on_precondition_failed (patch_once id f)
