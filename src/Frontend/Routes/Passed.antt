-- ===== src/Frontend/Routes/Passed.antt =====
-- What has passed the middleware in pkg/frontend/middleware.
use aro_rp.Base.{
  ℕ, String, ◌≡◌, ◌≤◌, refl, ◌⊎◌, inl, inr, Bool, true, false, ◌&&◌, ◌||◌, Bool-cases, or_true,
  and_true, Option, none, some, ◌==◌, eq_iff, leb, eqb, if◌then◌else◌, arith,
}
use aro_rp.Base.Text.{to_lower, equal_fold}
use aro_rp.Api.Error.{Error, Result, ok, err, bind-ok, new_cloud_error}
use aro_rp.Authorizer.{media_type}
use aro_rp.Frontend.Middleware.{
  Vars, Known, lookup, is_group_name_lower, pass, missing, check_var, validate,
  resource_provider_namespace, resource_type, Method, check_body, authenticate, has_body, max_body,
}
use aro_rp.Frontend.Routes.{secured_by}

-- A variable, if the route has it, passes the test.
abbrev pub Checked : (String → Bool) → Option String → Type 0
Checked test none = Unit
Checked test (some v) = test v ≡ true

pass-ok : (b : Bool) (e : Error) {u : Unit {0}} → pass b e ≡ ok u → b ≡ true
pass-ok true e h = refl
pass-ok false e h = cc

check_var-Checked :
    (vars : Vars) (name : String) (test : String → Bool) (e : Error) {u : Unit {0}}
    → check_var vars name test e ≡ ok u
    → Checked test (lookup name vars)
unfolding check_var
check_var-Checked vars name test e h = by_value (lookup name vars) h
  where
    by_value :
        (o : Option String)
        → elim o as (λ _. Result (Unit {0})) [ none ↦ ok tt | some v ↦ pass (test v) e ] ≡ ok _
        → Checked test o
    by_value none h = tt
    by_value (some v) h = pass-ok (test v) e h

-- The variables of a request that passed Validate
pub record AreValid (known : Known) (vars : Vars) (any : Bool) : Type 0 where
  pub subscription : Checked known.is_uuid (lookup "subscriptionId" vars)
  pub group : Checked is_group_name_lower (lookup "resourceGroupName" vars)
  pub provider :
      Checked
        (λ v. v == to_lower resource_provider_namespace)
        (lookup "resourceProviderNamespace" vars)
  pub kind : Checked (λ v. v == to_lower resource_type) (lookup "resourceType" vars)
  pub name : Checked is_group_name_lower (lookup "resourceName" vars)
  pub location : Checked (λ v. equal_fold v known.location) (lookup "location" vars)
  pub operation : Checked known.is_uuid (lookup "operationId" vars)
  pub version : (any ≡ false) ⊎ Checked known.is_version (lookup "api-version" vars)

pub validate-AreValid :
    (known : Known) (path : String) (vars : Vars) (any : Bool) {u : Unit {0}}
    → validate known path vars any ≡ ok u
    → AreValid known vars any
unfolding validate
validate-AreValid known path vars any h =
    let (u0, e0, h0) =
      bind-ok (pass (path == to_lower path) (new_cloud_error 500 "InternalServerError" "")) _ h in
    let (u1, e1, h1) =
      bind-ok (check_var vars "subscriptionId" known.is_uuid (missing "InvalidSubscriptionID")) _
        h0 in
    let (u2, e2, h2) =
      bind-ok
        (check_var vars "resourceGroupName" is_group_name_lower (missing "ResourceGroupNotFound")) _
        h1 in
    let (u3, e3, h3) =
      bind-ok
        (check_var vars "resourceProviderNamespace" (λ v. v == to_lower resource_provider_namespace)
          (missing "InvalidResourceNamespace"))
        _ h2 in
    let (u4, e4, h4) =
      bind-ok
        (check_var vars "resourceType" (λ v. v == to_lower resource_type)
          (missing "InvalidResourceType"))
        _ h3 in
    let (u5, e5, h5) =
      bind-ok (check_var vars "resourceName" is_group_name_lower (missing "ResourceNotFound")) _
        h4 in
    let (u6, e6, h6) =
      bind-ok
        (check_var vars "location" (λ v. equal_fold v known.location) (missing "InvalidLocation")) _
        h5 in
    let (u7, e7, h7) =
      bind-ok (check_var vars "operationId" known.is_uuid (missing "InvalidOperationID")) _ h6 in
    record {
      subscription = check_var-Checked vars _ _ _ e1;
      group = check_var-Checked vars _ _ _ e2;
      provider = check_var-Checked vars _ _ _ e3;
      kind = check_var-Checked vars _ _ _ e4;
      name = check_var-Checked vars _ _ _ e5;
      location = check_var-Checked vars _ _ _ e6;
      operation = check_var-Checked vars _ _ _ e7;
      version = by_route any h7;
    }
  where
    by_route :
        (b : Bool)
        → (if b
            then check_var vars "api-version" known.is_version (missing "InvalidResourceType")
            else ok tt)
          ≡ ok tt
        → (b ≡ false) ⊎ Checked known.is_version (lookup "api-version" vars)
    by_route true h = inr (check_var-Checked vars "api-version" known.is_version _ h)
    by_route false h = inl refl

-- The body of a request that passed Body: JSON of a megabyte at most, or nothing at all
abbrev pub HasBody : Method → Option ℕ → String → Type 0
HasBody method size content_type =
    (has_body method ≡ false)
    ⊎ ((n : ℕ) × (size ≡ some n)
        × (n ≤ max_body)
        × ((media_type content_type ≡ "application/json")
            ⊎ ((n ≡ 0) × (media_type content_type ≡ ""))))

body_of :
    (n : ℕ) (content_type : String) {u : Unit {0}}
    → (if leb n max_body
        then pass
            (media_type content_type == "application/json"
              || (eqb n 0 && media_type content_type == ""))
            (new_cloud_error 415 "UnsupportedMediaType" "")
        else err (new_cloud_error 400 "InvalidResource" ""))
      ≡ ok u
    → (n ≤ max_body)
      × ((media_type content_type ≡ "application/json")
          ⊎ ((n ≡ 0) × (media_type content_type ≡ "")))
body_of n content_type h = elim (Bool-cases (leb n max_body)) [
  | inr large ↦ cc (rw large at h)
  | inl small ↦ (
    ground arith,
    elim (or_true (media_type content_type == "application/json")
        (eqb n 0 && media_type content_type == "")
        (pass-ok _ (new_cloud_error 415 "UnsupportedMediaType" "") (rw small at h))) [
          | inl json ↦ inl ((eq_iff (media_type content_type) "application/json").0 json)
          | inr empty ↦
              let (nothing_there, no_type) =
                and_true (eqb n 0) (media_type content_type == "") empty in
              inr (ground arith, (eq_iff (media_type content_type) "").0 no_type)
        ],
  )
]

pub check_body-HasBody :
    (method : Method) (size : Option ℕ) (content_type : String) {u : Unit {0}}
    → check_body method size content_type ≡ ok u
    → HasBody method size content_type
unfolding check_body
check_body-HasBody method none content_type h = elim (Bool-cases (has_body method)) [
  | inl body ↦ cc (rw body at h)
  | inr no_body ↦ inl no_body
]
check_body-HasBody method (some n) content_type h = elim (Bool-cases (has_body method)) [
  | inl body ↦
      let (small, fits) = body_of n content_type (rw body at h) in inr (n, refl, small, fits)
  | inr no_body ↦ inl no_body
]

pub secured-ok :
    (needed is_authorized : Bool)
    → secured_by needed is_authorized ≡ ok tt
    → (needed ≡ false) ⊎ (is_authorized ≡ true)
unfolding authenticate
secured-ok true is_authorized h = inr (pass-ok is_authorized (new_cloud_error 403 "Forbidden" "") h)
secured-ok false is_authorized h = inl refl
