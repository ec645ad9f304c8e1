-- ===== src/Frontend/Routes.antt =====
-- The routes of pkg/frontend/frontend.go and the middleware around their handlers. Of gorilla/mux the
-- documented matching is written out: a template's variable is one part of the path that is not empty,
-- the first route with a handler for the method is taken, and a path that only matches with another
-- method is answered by 405. Paths are clean, as mux redirects the others.
mod Fits
mod Passed
pub mod Served
mod Tests
use aro_rp.Base.{
  ℕ, String, Bool, true, false, not, ◌&&◌, ◌||◌, Option, none, some, List, [], ◌∷◌, ◌++◌, ◌==◌,
  if◌then◌else◌,
}
use aro_rp.Base.Text.{to_lower}
use aro_rp.Base.Split.{split}
use aro_rp.Api.Error.{Error, Result, ok, err, bind, new_cloud_error, status_code}
use aro_rp.Frontend.Middleware.{
  Vars, Known, validate, Method, get, put, patch, post, delete, other, check_body, authenticate,
}

pub data Handler : Type 0 where
  get_ready delete_open_shift_cluster get_open_shift_cluster put_or_patch_open_shift_cluster :
      Handler
  get_open_shift_clusters get_async_operations_status get_async_operation_result : Handler
  post_open_shift_cluster_credentials get_operations put_subscription : Handler

-- A part of a path's template
pub data Part : Type 0 where
  lit : String → Part
  var : String → Part

-- The template of the query `api-version`: not there, a variable, or a fixed value
pub data Query : Type 0 where
  no_query any_version : Query
  fixed : String → Query

pub record Route : Type 0 where
  pub parts : List Part
  pub query : Query
  pub methods : List (Method × Handler)
  pub authenticated : Bool

abbrev cluster : List Part
cluster =
    lit "subscriptions"
    ∷ var "subscriptionId"
    ∷ lit "resourcegroups"
    ∷ var "resourceGroupName"
    ∷ lit "providers"
    ∷ var "resourceProviderNamespace"
    ∷ var "resourceType"
    ∷ var "resourceName"
    ∷ []

abbrev clusters_of_group : List Part
clusters_of_group =
    lit "subscriptions"
    ∷ var "subscriptionId"
    ∷ lit "resourcegroups"
    ∷ var "resourceGroupName"
    ∷ lit "providers"
    ∷ var "resourceProviderNamespace"
    ∷ var "resourceType"
    ∷ []

abbrev clusters_of_subscription : List Part
clusters_of_subscription =
    lit "subscriptions"
    ∷ var "subscriptionId"
    ∷ lit "providers"
    ∷ var "resourceProviderNamespace"
    ∷ var "resourceType"
    ∷ []

abbrev operation : String → List Part
operation kind =
    lit "subscriptions"
    ∷ var "subscriptionId"
    ∷ lit "providers"
    ∷ var "resourceProviderNamespace"
    ∷ lit "locations"
    ∷ var "location"
    ∷ lit kind
    ∷ var "operationId"
    ∷ []

abbrev credentials : List Part
credentials =
    lit "subscriptions"
    ∷ var "subscriptionId"
    ∷ lit "resourcegroups"
    ∷ var "resourceGroupName"
    ∷ lit "providers"
    ∷ var "resourceProviderNamespace"
    ∷ var "resourceType"
    ∷ var "resourceName"
    ∷ lit "listcredentials"
    ∷ []

abbrev secured : List Part → Query → List (Method × Handler) → Route
secured parts query methods = record {
  parts = parts;
  query = query;
  methods = methods;
  authenticated = true;
}

-- authenticatedRoutes
abbrev pub authenticated_routes : List Route
authenticated_routes =
    secured cluster any_version (
      (delete, delete_open_shift_cluster)
      ∷ (get, get_open_shift_cluster)
      ∷ (patch, put_or_patch_open_shift_cluster)
      ∷ (put, put_or_patch_open_shift_cluster)
      ∷ [])
    ∷ secured clusters_of_group any_version ((get, get_open_shift_clusters) ∷ [])
    ∷ secured clusters_of_subscription any_version ((get, get_open_shift_clusters) ∷ [])
    ∷ secured (operation "operationsstatus") any_version ((get, get_async_operations_status) ∷ [])
    ∷ secured (operation "operationresults") any_version ((get, get_async_operation_result) ∷ [])
    ∷ secured credentials any_version ((post, post_open_shift_cluster_credentials) ∷ [])
    ∷ secured (lit "providers" ∷ var "resourceProviderNamespace" ∷ lit "operations" ∷ [])
        any_version ((get, get_operations) ∷ [])
    ∷ secured (lit "subscriptions" ∷ var "subscriptionId" ∷ []) (fixed "2.0")
        ((put, put_subscription) ∷ [])
    ∷ []

-- unauthenticatedRoutes, and the order of setupRouter
abbrev pub routes : List Route
routes =
    record {
      parts = lit "healthz" ∷ lit "ready" ∷ [];
      query = no_query;
      methods = (get, get_ready) ∷ [];
      authenticated = false;
    }
    ∷ authenticated_routes

-- The parts of a path against those of a template
unfoldable pub match_parts : List Part → List String → Option Vars
match_parts [] [] = some []
match_parts [] (s ∷ ss) = none
match_parts (p ∷ ps) [] = none
match_parts (lit t ∷ ps) (s ∷ ss) = if t == s then match_parts ps ss else none
match_parts (var name ∷ ps) (s ∷ ss) =
    let rest = match_parts ps ss in
    if s == "" then none else elim rest [ none ↦ none | some vars ↦ some ((name, s) ∷ vars) ]

-- A path begins with a slash.
unfoldable pub segments : String → List String
unfolding split
segments path = elim (split 47 path) [ [] ↦ [] | s ∷ ss ↦ ss ]

-- The query's variable, if the route has one and the request fits
unfoldable pub match_query : Query → Option String → Option Vars
match_query no_query version = some []
match_query any_version none = none
match_query any_version (some v) = some (("api-version", v) ∷ [])
match_query (fixed t) none = none
match_query (fixed t) (some v) = if t == v then some [] else none

abbrev pub same_method : Method → Method → Bool
same_method get get = true
same_method put put = true
same_method patch patch = true
same_method post post = true
same_method delete delete = true
same_method m n = false

unfoldable pub handler_of : Method → List (Method × Handler) → Option Handler
handler_of m [] = none
handler_of m ((n, h) ∷ more) = if same_method m n then some h else handler_of m more

-- A request as it comes: its method, its path, the query `api-version`, whether its peer is authorized,
-- the length of its body unless that cannot be read, and its content type
pub record Incoming : Type 0 where
  pub method : Method
  pub path : String
  pub api_version : Option String
  pub is_authorized : Bool
  pub body_size : Option ℕ
  pub content_type : String

-- What mux finds: a route with a handler and its variables, routes for other methods only, or nothing
pub data Found : Type 0 where
  found : Route → Handler → Vars → Found
  other_method : Found
  nothing : Found

-- Both parts of a route's match, the variables of the path first
unfoldable pub match_route : Route → List String → Option String → Option Vars
unfolding match_parts match_query
match_route r parts version = elim (match_parts r.parts parts) [
  | none ↦ none
  | some vars ↦ elim (match_query r.query version) [
    | none ↦ none
    | some query ↦ some (vars ++ query)
  ]
]

-- A route for another method is remembered, unless a later one fits.
abbrev mismatched : Found → Found
mismatched nothing = other_method
mismatched f = f

unfoldable pub find : List Route → Method → List String → Option String → Found
unfolding match_route handler_of
find [] m parts version = nothing
find (r ∷ rs) m parts version =
    let rest = find rs m parts version in
    elim (match_route r parts version) [
      | none ↦ rest
      | some vars ↦ elim (handler_of m r.methods) [
        | some h ↦ found r h vars
        | none ↦ mismatched rest
      ]
    ]

-- A call that reaches its handler
pub record Call : Type 0 where
  pub handler : Handler
  pub path : String
  pub vars : Vars

abbrev pub takes_any_version : Query → Bool
takes_any_version any_version = true
takes_any_version no_query = true
takes_any_version (fixed v) = false

abbrev secured_by : Bool → Bool → Result (Unit {0})
secured_by true is_authorized = authenticate is_authorized
secured_by false is_authorized = ok tt

-- Lowercase, then the router: the middleware of the router, then that of the authenticated routes
unfoldable pub serve : Known → Incoming → Result Call
unfolding segments find validate check_body authenticate
serve known r =
    let path = to_lower r.path in
    elim (find routes r.method (segments path) r.api_version) [
      | nothing ↦ bind (authenticate r.is_authorized) (λ _. err (new_cloud_error 404 "NotFound" ""))
      | other_method ↦ err (status_code 405)
      | found route handler vars ↦
          bind (validate known path vars (takes_any_version route.query)) (λ _.
            bind (check_body r.method r.body_size r.content_type) (λ _.
              bind (secured_by route.authenticated r.is_authorized)
                (λ _. ok (record { handler = handler; path = path; vars = vars }))))
    ]
