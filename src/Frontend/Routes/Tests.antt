-- ===== src/Frontend/Routes/Tests.antt =====
-- Requests at the front end's router, and the theorem there.
use aro_rp.Base.{◌≡◌, refl, true, false, some, [], ◌∷◌, ◌==◌}
use aro_rp.Base.Text.{to_lower, equal_fold}
use aro_rp.Base.Split.{split}
use aro_rp.Api.Error.{ok, err, new_cloud_error, status_code}
use aro_rp.Frontend.Middleware.{Known, get, put, is_group_name_lower}
use aro_rp.Frontend.Routes.{Incoming, Call, get_open_shift_clusters, serve}
use aro_rp.Frontend.Routes.Served.{IsServed, serve-IsServed}

abbrev known : Known
known = record {
  location = "eastus";
  is_version = λ v. v == "2019-12-31-preview";
  is_uuid = λ s. s == "sub";
}

abbrev list_clusters : Incoming
list_clusters = record {
  method = get;
  path =
      "/subscriptions/SUB/resourceGroups/rg/providers/Microsoft.RedHatOpenShift/openShiftClusters";
  api_version = some "2019-12-31-preview";
  is_authorized = true;
  body_size = some 0;
  content_type = "";
}

abbrev call : Call
call = record {
  handler = get_open_shift_clusters;
  path =
      "/subscriptions/sub/resourcegroups/rg/providers/microsoft.redhatopenshift/openshiftclusters";
  vars =
      ("subscriptionId", "sub")
      ∷ ("resourceGroupName", "rg")
      ∷ ("resourceProviderNamespace", "microsoft.redhatopenshift")
      ∷ ("resourceType", "openshiftclusters")
      ∷ ("api-version", "2019-12-31-preview")
      ∷ [];
}

listed : serve known list_clusters ≡ ok call
unfolding serve split to_lower equal_fold is_group_name_lower
listed = refl

forbidden :
    serve known (record list_clusters { is_authorized = false })
    ≡ err (new_cloud_error 403 "Forbidden" "")
unfolding serve split to_lower equal_fold is_group_name_lower
forbidden = refl

other_method : serve known (record list_clusters { method = put }) ≡ err (status_code 405)
unfolding serve split to_lower equal_fold is_group_name_lower
other_method = refl

serve-IsServed_example : IsServed known list_clusters call
serve-IsServed_example = serve-IsServed known list_clusters listed
