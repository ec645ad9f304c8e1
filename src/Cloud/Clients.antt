-- ===== src/Cloud/Clients.antt =====
-- The clients of Azure of one cluster's manager and installer, over the state of the services.

use aro_rp.Base.{String, Option, List, [], ◌∷◌}
use aro_rp.Base.Split.{split}
use aro_rp.Api.Error.{Result}
use aro_rp.Azure.{ResourceParser}
use aro_rp.Cloud.{Env}
use aro_rp.Cloud.Subnets.{SubnetsClient}
use aro_rp.Cloud.Dns.{RecordSetsClient}
use aro_rp.Cloud.PrivateEndpoint.{PrivateEndpointsClient}

-- `groups` is DeleteAndWait of a resource group; `machines`, `disks` and `interfaces` are DeleteAndWait
-- of a resource group and a name; `addresses` is Get of a public IP address.
pub record Clients (S : Type 0) : Type 0 where
  pub env : Env
  pub parse : ResourceParser
  pub subnets : SubnetsClient S
  pub record_sets : RecordSetsClient S
  pub private_endpoints : PrivateEndpointsClient S
  pub groups : String → S → Result (Unit {0}) × S
  pub machines : String → String → S → Result (Unit {0}) × S
  pub disks : String → String → S → Result (Unit {0}) × S
  pub interfaces : String → String → S → Result (Unit {0}) × S
  pub addresses : String → String → S → Result (Option String) × S

abbrev last_of : List String → String
last_of [] = ""
last_of (s ∷ []) = s
last_of (s ∷ t ∷ ss) = last_of (t ∷ ss)

-- id[strings.LastIndexByte(id, '/')+1:]
unfoldable pub after_slash : String → String
unfolding split
after_slash id = last_of (split 47 id)
