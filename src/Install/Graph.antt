-- ===== src/Install/Graph.antt =====
-- The graph of assets in pkg/install/graph.go. An asset is named by its type; its dependencies and its
-- Generate, which reads the graph, are those of the installer and stay parameters.
pub mod Resolved
mod Tests
use aro_rp.Base.{
  ℕ, zero, suc, ◌+◌, ◌≤◌, ◌<◌, String, ◌≡◌, refl, sym, ◌∙◌, ap, ◌⊎◌, inl, inr, Bool, true, false,
  ◌||◌, Bool-cases, List, [], ◌∷◌, ◌++◌, ◌==◌, eq_iff, eq_refl, All, or_true, or_false,
  if◌then◌else◌, arith,
}
use aro_rp.Api.Error.{Error, Result, ok, err, other, bind}

-- The graph as a list, in the order in which its entries were made
abbrev pub Graph : Type 0 → Type 0
Graph V = List (String × V)

-- the test of a key
unfoldable pub has {ℓ} : {V : Type ℓ} → String → List (String × V) → Bool
has a [] = false
has a ((b, v) ∷ g) = b == a || has a g

-- the loop over the dependencies
unfoldable pub resolve_each {ℓ} :
    {V : Type ℓ}
    → (String → List (String × V) → Result (List (String × V)))
    → List String
    → List (String × V)
    → Result (List (String × V))
resolve_each f [] g = ok g
resolve_each f (a ∷ more) g = let rest = resolve_each f more in bind (f a g) rest

module _ {V : Type 0} (dependencies : String → List String)
    (generate : String → Graph V → Result V) where
  -- resolve, to a depth
  unfoldable pub resolve : ℕ → String → Graph V → Result (Graph V)
  unfolding has resolve_each
  resolve zero a g = err (other "too deep")
  resolve (suc depth) a g =
      let deeper = resolve depth in
      if has a g
      then ok g
      else bind (resolve_each deeper (dependencies a) g)
          (λ g'. bind (generate a g') (λ v. ok (g' ++ (a, v) ∷ [])))

  module _ (rank : String → ℕ) where
    -- One graph is made of another by entering assets of a rank below the limit one at a time: each
    -- was not there, all that it depends on was, and its value is what Generate gave on the graph.
    pub data Built (limit : ℕ) (g : Graph V) : Graph V → Type 0 where
      start : Built limit g g
      enter :
          {g' : Graph V} {a : String} {v : V}
          → Built limit g g'
          → rank a < limit
          → has a g' ≡ false
          → All (λ b. has b g' ≡ true) (dependencies a)
          → generate a g' ≡ ok v
          → Built limit g (g' ++ (a, v) ∷ [])

    -- Each asset depends on assets of a lower rank: there is no cycle.
    abbrev pub IsRanked : Type 0
    IsRanked = (a : String) → All (λ b. rank b < rank a) (dependencies a)

    -- The asset is in a graph built of the given one, or Generate of some asset failed on one.
    abbrev pub Resolved : ℕ → Graph V → String → Result (Graph V) → Type 0
    Resolved limit g a (ok g') = Built limit g g' × (has a g' ≡ true)
    Resolved limit g a (err e) =
        (b : String) × (g' : Graph V) × Built limit g g' × (generate b g' ≡ err e)
