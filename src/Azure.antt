-- ===== src/Azure.antt =====
-- What the resource provider takes from github.com/Azure/go-autorest: the parts of a resource ID.
use aro_rp.Base.{String, Option, none, some}
use aro_rp.Api.Error.{Result, ok, err, other}

-- azure.Resource
pub record Resource : Type 0 where
  pub subscription_id : String
  pub resource_group : String
  pub provider : String
  pub resource_type : String
  pub resource_name : String

-- azure.ParseResourceID, as a parameter of what uses it: `none` where it returns an error
abbrev pub ResourceParser : Type 0
ResourceParser = String → Option Resource

abbrev pub parse_resource_id : ResourceParser → String → Result Resource
parse_resource_id parse id = elim (parse id) [ none ↦ err (other "parsing failed") | some r ↦ ok r ]
