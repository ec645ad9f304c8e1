-- ===== src/Api/Error.antt =====
-- pkg/api/error.go, and the other kinds of Go errors that the handlers tell apart.
use aro_rp.Base.{◌≡◌, refl, ℕ, String, Bool, false, eqb}

-- api.CloudError, without the message and the details
pub record CloudError : Type 0 where
  pub status_code : ℕ
  pub code : String
  pub target : String

-- The dynamic types that the code switches on: *cosmosdb.Error, *api.CloudError, statusCodeError,
-- autorest.DetailedError with its status code, and anything else (fmt.Errorf and the errors of libraries), by its text.
pub data Error : Type 0 where
  cosmos : ℕ → Error
  cloud : CloudError → Error
  status_code : ℕ → Error
  detailed : ℕ → Error
  other : String → Error

-- NewCloudError
unfoldable pub new_cloud_error : ℕ → String → String → Error
new_cloud_error status code target =
    cloud (record { status_code = status; code = code; target = target })

-- cosmosdb.IsErrorStatusCode, of an error that is not nil
unfoldable pub is_error_status_code : Error → ℕ → Bool
is_error_status_code (cosmos s) status = eqb s status
is_error_status_code _ status = false

-- A Go pair (value, error) of which one part is nil.
pub data Result {ℓ} (A : Type ℓ) : Type ℓ where
  ok : A → Result A
  err : Error → Result A

-- if err != nil { return err }
abbrev pub bind {ℓ κ} : {A : Type ℓ} {B : Type κ} → Result A → (A → Result B) → Result B
bind r g = elim r [ err e ↦ err e | ok a ↦ g a ]

-- Inversion of a bind
pub bind-ok {ℓ κ} :
    {A : Type ℓ} {B : Type κ} (r : Result A) (g : A → Result B) {b : B}
    → bind r g ≡ ok b
    → (a : A) × (r ≡ ok a) × (g a ≡ ok b)
bind-ok (ok a) g h = (a, refl, h)
bind-ok (err e) g h = cc
