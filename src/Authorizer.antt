-- ===== src/Authorizer.antt =====
-- pkg/util/clientauthorizer/arm.go. Times are in seconds; the clock's readings and the answers of the
-- metadata endpoint are arguments; JSON is a parameter. Bytes are a text.
mod Latest
mod Tests
use aro_rp.Base.{
  ℕ, ◌+◌, String, Bool, true, false, not, ◌&&◌, Option, none, some, List, [], ◌∷◌, any, ltb, ◌==◌,
  eqb, if◌then◌else◌,
}
use aro_rp.Base.Split.{split}
use aro_rp.Api.Error.{Error, Result, ok, err, other, bind}

pub record ClientCertificate : Type 0 where
  pub thumbprint : String
  pub not_before : ℕ
  pub not_after : ℕ
  pub certificate : String

-- arm, without its clock, its client and its lock
pub record Arm : Type 0 where
  pub client_certificates : List ClientCertificate
  pub last_successful_refresh : ℕ

-- As NewARM makes it, with the zero time.
abbrev pub new_arm : Arm
new_arm = record { client_certificates = []; last_successful_refresh = 0 }

-- http.Response
pub record Response : Type 0 where
  pub status_code : ℕ
  pub content_type : String
  pub body : String

-- Decoding of a *metadata: an error, nil for a JSON null, or the certificates
abbrev pub Decoder : Type 0
Decoder = String → Result (Option (List ClientCertificate))

-- `c.NotBefore.Before(now) && c.NotAfter.After(now)`
abbrev pub is_current : ℕ → ClientCertificate → Bool
is_current now c = ltb c.not_before now && ltb now c.not_after

-- IsAuthorized, of the raw certificate that the peer presents first, if any
unfoldable pub is_authorized : ℕ → Option String → Arm → Bool
is_authorized now none a = false
is_authorized now (some raw) a =
    any (λ c. is_current now c && c.certificate == raw) a.client_certificates

-- strings.SplitN(s, ";", 2)[0]
unfoldable pub media_type : String → String
unfolding split
media_type s = elim (split 59 s) [ [] ↦ "" | p ∷ ps ↦ p ]

abbrev check : Bool → String → Result (Unit {0})
check true message = ok tt
check false message = err (other message)

-- refreshOnce up to the assignments, of an answer or a failure to get one; the range over a nil
-- *metadata panics.
unfoldable pub received : Decoder → ℕ → Option Response → Result (List ClientCertificate)
unfolding media_type
received decode now none = err (other "request failed")
received decode now (some r) = bind (check (eqb r.status_code 200) "unexpected status code") (λ _.
    bind (check (media_type r.content_type == "application/json") "unexpected content type") (λ _.
      bind (decode r.body) (λ m. elim m [
        | none ↦ err (other "nil pointer dereference")
        | some certs ↦
            bind (check (any (is_current now) certs) "did not receive current certificate")
              (λ _. ok certs)
      ])))

-- refreshOnce
unfoldable pub refresh_once : Decoder → ℕ → Option Response → Arm → Result (Unit {0}) × Arm
unfolding received
refresh_once decode now answer a = elim (received decode now answer) [
  | err e ↦ (err e, a)
  | ok certs ↦ (ok tt, record { client_certificates = certs; last_successful_refresh = now })
]

abbrev pub day : ℕ
day = 86400

-- IsReady, which reads the clock twice
unfoldable pub is_ready : ℕ → ℕ → Arm → Bool
is_ready now later a =
    not (ltb (a.last_successful_refresh + day) later) && any (is_current now) a.client_certificates

-- The state after the refreshes, the last one first, each at its time and with its answer
unfoldable pub refreshed : Decoder → List (ℕ × Option Response) → Arm
unfolding refresh_once
refreshed decode [] = new_arm
refreshed decode ((now, answer) ∷ before) =
    let a = refreshed decode before in (refresh_once decode now answer a).1
