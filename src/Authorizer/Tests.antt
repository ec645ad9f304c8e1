-- ===== src/Authorizer/Tests.antt =====
-- Refreshes with concrete answers, and the theorem there.
use aro_rp.Base.{ℕ, ◌≡◌, ◌↔◌, refl, true, false, none, some, Option, List, [], ◌∷◌}
use aro_rp.Base.Split.{split}
use aro_rp.Api.Error.{ok}
use aro_rp.Authorizer.{ClientCertificate, Response, Decoder, is_authorized, is_ready, refreshed}
use aro_rp.Authorizer.Latest.{Listed, Fresh, authorizer_iff}

abbrev certificate : ClientCertificate
certificate = record { thumbprint = ""; not_before = 100; not_after = 200; certificate = "current" }

abbrev decode : Decoder
decode body = ok (some (certificate ∷ []))

abbrev refreshes : List (ℕ × Option Response)
refreshes =
    (160, none)
    ∷ (150, some (record { status_code = 502; content_type = ""; body = "" }))
    ∷ (
      140,
      some (record {
        status_code = 200;
        content_type = "application/json; charset=utf-8";
        body = "";
      }),
    )
    ∷ []

admitted : is_authorized 170 (some "current") (refreshed decode refreshes) ≡ true
unfolding is_authorized refreshed split
admitted = refl

expired : is_authorized 200 (some "current") (refreshed decode refreshes) ≡ false
unfolding is_authorized refreshed split
expired = refl

authorizer_iff_example :
    ((is_authorized 170 (some "current") (refreshed decode refreshes) ≡ true)
      ↔ Listed decode refreshes 170 "current")
    × ((is_ready 170 171 (refreshed decode refreshes) ≡ true) ↔ Fresh decode refreshes 170 171)
authorizer_iff_example = authorizer_iff decode refreshes 170 171 "current"
