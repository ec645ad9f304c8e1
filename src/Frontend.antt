-- ===== src/Frontend.antt =====
-- pkg/frontend: the handlers of the HTTP API.
pub mod Gate
pub mod Put
pub mod Delete
pub mod Read
pub mod Operations
pub mod Subscriptions
pub mod Allowed
pub mod Applied
pub mod Accepted
pub mod Deleted
pub mod Redacted
pub mod Absorbed
pub mod Middleware
pub mod Routes
pub mod Listing
pub mod Tests
use aro_rp.Base.{ℕ, String, Bool, Option, none, some, List}
use Prim.Native.String
use aro_rp.Base.Text.{to_lower}
use aro_rp.Api.Error.{Error, Result, ok, err, other}
use aro_rp.Api.Cluster.{OpenShiftCluster}
use aro_rp.Action.{M}
use aro_rp.Backend.{Database}

-- A version of the API, with external clusters of type `E`: its OpenShiftClusterConverter and its
-- OpenShiftClusterValidator for the path of a request, and JSON for `E`.
pub record Version (S E : Type 0) : Type 0 where
  pub to_external : OpenShiftCluster → E
  pub to_internal : E → OpenShiftCluster → OpenShiftCluster
  pub unmarshal : String → E → Result E
  pub marshal : E → Result String
  pub static : String → E → Option OpenShiftCluster → Result (Unit {0})
  pub dynamic : OpenShiftCluster → M S (Unit {0})

-- The front end's configuration; `new_uuid` draws on the entropy in the state.
pub record Config (S : Type 0) : Type 0 where
  pub db : Database S
  pub location : String
  pub feature_operations : Bool
  pub parse_url : String → Result (Unit {0})
  pub new_uuid : S → String

pub data Verb : Type 0 where
  put patch : Verb

-- What the handlers read of a request: its method, its path in lower case and as it came, the route's
-- variables, the body and the header Referer.
pub record Request : Type 0 where
  pub verb : Verb
  pub path : String
  pub original_path : String
  pub subscription_id : String
  pub provider : String
  pub operation_id : String
  pub body : String
  pub referer : String

-- A handler's answer: the body, if any, and the status.
pub record Answer : Type 0 where
  pub status : ℕ
  pub body : Option String

-- Where the code panics on a nil pointer, which the server answers as an internal error.
abbrev pub nil_pointer : Error
nil_pointer = other "nil pointer dereference"

module _ {S : Type 0} (f : Config S) where
  -- operationsPath
  unfoldable pub operations_path : Request → String → String
  operations_path r id = String.◌++◌ "/subscriptions/" (
      String.◌++◌ r.subscription_id (
        String.◌++◌ "/providers/" (
          String.◌++◌ r.provider (
            String.◌++◌ "/locations/"
              (String.◌++◌ (to_lower f.location) (String.◌++◌ "/operationsstatus/" id))))))
