-- ===== src/Install/Graph/Tests.antt =====
-- The graph of two assets over a certificate.
use aro_rp.Base.{ℕ, String, ◌≡◌, refl, List, [], ◌∷◌, ◌==◌, if◌then◌else◌, length, arith}
use aro_rp.Api.Error.{Result, ok}
use aro_rp.Install.Graph.{Graph, resolve, IsRanked, Resolved}
use aro_rp.Install.Graph.Resolved.{resolve-Resolved}

abbrev dependencies : String → List String
dependencies a =
    if a == "kubeconfig" then "ca" ∷ "client" ∷ [] else if a == "client" then "ca" ∷ [] else []

abbrev rank : String → ℕ
rank a = if a == "kubeconfig" then 2 else if a == "client" then 1 else 0

-- The value is the number of assets that were there.
abbrev generate : String → Graph ℕ → Result ℕ
generate a g = ok (length g)

ranked : IsRanked dependencies generate rank
ranked a = ground arith

once :
    resolve dependencies generate 3 "kubeconfig" []
    ≡ ok (("ca", 0) ∷ ("client", 1) ∷ ("kubeconfig", 2) ∷ [])
unfolding resolve
once = refl

resolve-Resolved_example :
    Resolved dependencies generate rank 3 [] "kubeconfig"
      (resolve dependencies generate 3 "kubeconfig" [])
resolve-Resolved_example =
    resolve-Resolved dependencies generate rank ranked 3 "kubeconfig" [] (omega arith)
