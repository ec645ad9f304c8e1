-- ===== src/Cloud.antt =====
-- pkg/util/subnet, pkg/util/dns, pkg/util/privateendpoint: what the resource provider does with
-- subnets, DNS records and private endpoints, over clients of Azure that are parameters.
pub mod Subnets
pub mod Dns
pub mod Clients
pub mod PrivateEndpoint
mod Memory
mod Tests
use aro_rp.Base.{String}

-- Of env.Interface: the resource provider's subscription, resource group and DNS zone.
pub record Env : Type 0 where
  pub subscription_id : String
  pub resource_group : String
  pub domain : String
