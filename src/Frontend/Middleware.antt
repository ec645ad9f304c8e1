-- ===== src/Frontend/Middleware.antt =====
-- pkg/frontend/middleware: lowercase.go, validate.go, body.go and authenticated.go. What they write
-- instead of calling the next handler is an error.
use aro_rp.Base.{
  ℕ, String, Bool, true, false, ◌&&◌, ◌||◌, Option, none, some, List, [], ◌∷◌, leb, eqb, ◌==◌,
  if◌then◌else◌,
}
use aro_rp.Base.Text.{to_lower, equal_fold}
use aro_rp.Api.Error.{Error, Result, ok, err, bind, new_cloud_error}
use aro_rp.Authorizer.{media_type}
use aro_rp.Base.Split.{all_chars, last_char, between, is_digit, is_lower}
use Prim.Native.String.{count}

-- mux.Vars: the route's variables, by name
abbrev pub Vars : Type 0
Vars = List (String × String)

unfoldable pub lookup : String → Vars → Option String
lookup name [] = none
lookup name ((k, v) ∷ vars) = if k == name then some v else lookup name vars

abbrev is_last_char : ℕ → Bool
is_last_char n = is_lower n || is_digit n || eqb n 45 || eqb n 95 || eqb n 40 || eqb n 41

-- rxResourceGroupName: [-a-z0-9_().]{0,89}[-a-z0-9_()]
unfoldable pub is_group_name_lower : String → Bool
unfolding all_chars last_char
is_group_name_lower s =
    between 1 90 (count s)
    && all_chars (λ n. is_last_char n || eqb n 46) s
    && last_char is_last_char s

-- What validate.go asks of env.Interface, of the API versions, and of the package of UUIDs.
pub record Known : Type 0 where
  pub location : String
  pub is_version : String → Bool
  pub is_uuid : String → Bool

abbrev pub resource_provider_namespace : String
resource_provider_namespace = "Microsoft.RedHatOpenShift"

abbrev pub resource_type : String
resource_type = "openShiftClusters"

abbrev pub pass : Bool → Error → Result (Unit {0})
pass true e = ok tt
pass false e = err e

-- `if _, found := vars[name]; found { if !test(vars[name]) { WriteError; return } }`
unfoldable pub check_var : Vars → String → (String → Bool) → Error → Result (Unit {0})
unfolding lookup
check_var vars name test e = elim (lookup name vars) [ none ↦ ok tt | some v ↦ pass (test v) e ]

abbrev pub missing : String → Error
missing code = new_cloud_error 404 code ""

-- Validate, of the request's path, its route's variables, and whether the route takes any version
unfoldable pub validate : Known → String → Vars → Bool → Result (Unit {0})
unfolding check_var
validate known path vars any_version =
    bind (pass (path == to_lower path) (new_cloud_error 500 "InternalServerError" "")) (λ _.
      bind (check_var vars "subscriptionId" known.is_uuid (missing "InvalidSubscriptionID")) (λ _.
        bind
          (check_var vars "resourceGroupName" is_group_name_lower (missing "ResourceGroupNotFound"))
          (λ _.
            bind
              (check_var vars "resourceProviderNamespace"
                (λ v. v == to_lower resource_provider_namespace)
                (missing "InvalidResourceNamespace"))
              (λ _.
                bind
                  (check_var vars "resourceType" (λ v. v == to_lower resource_type)
                    (missing "InvalidResourceType"))
                  (λ _.
                    bind
                      (check_var vars "resourceName" is_group_name_lower
                        (missing "ResourceNotFound"))
                      (λ _.
                        bind
                          (check_var vars "location" (λ v. equal_fold v known.location)
                            (missing "InvalidLocation"))
                          (λ _.
                            bind
                              (check_var vars "operationId" known.is_uuid
                                (missing "InvalidOperationID"))
                              (λ _.
                                if any_version
                                then check_var vars "api-version" known.is_version
                                    (missing "InvalidResourceType")
                                else ok tt))))))))

pub data Method : Type 0 where
  get put patch post delete : Method
  other : String → Method

-- the methods whose body is read
abbrev pub has_body : Method → Bool
has_body put = true
has_body patch = true
has_body post = true
has_body method = false

-- http.MaxBytesReader's limit
abbrev pub max_body : ℕ
max_body = 1048576

-- Body, of the length of the body, if it can be read at all, and the header Content-Type
unfoldable pub check_body : Method → Option ℕ → String → Result (Unit {0})
check_body method size content_type =
    if has_body method
    then elim size [
      | none ↦ err (new_cloud_error 400 "InvalidResource" "")
      | some n ↦
          if leb n max_body
          then pass
              (media_type content_type == "application/json"
                || (eqb n 0 && media_type content_type == ""))
              (new_cloud_error 415 "UnsupportedMediaType" "")
          else err (new_cloud_error 400 "InvalidResource" "")
    ]
    else ok tt

-- Authenticated
unfoldable pub authenticate : Bool → Result (Unit {0})
authenticate is_authorized = pass is_authorized (new_cloud_error 403 "Forbidden" "")
