-- ===== src/Install/Graph/Resolved.antt =====
-- resolve of pkg/install/graph.go enters an asset after all that it depends on, each once.
use aro_rp.Base.{
  ℕ, zero, suc, ◌+◌, ◌≤◌, ◌<◌, String, ◌≡◌, ◌≢◌, refl, ◌∙◌, ap, Bool, true, false, ◌||◌, List, [],
  ◌∷◌, ◌++◌, ◌==◌, eq_iff, eq_refl, All, if◌then◌else◌, arith,
}
use aro_rp.Api.Error.{Result, ok, err, bind}
use aro_rp.Install.Graph.{
  Graph, has, resolve_each, resolve, Built, start, enter, IsRanked, Resolved,
}

or_assoc : (a b c : Bool) → (a || (b || c)) ≡ ((a || b) || c)
or_assoc true b c = refl
or_assoc false b c = refl

or_right : (a : Bool) → (a || true) ≡ true
or_right true = refl
or_right false = refl

has-append : {V : Type 0} (a : String) (g h : Graph V) → has a (g ++ h) ≡ (has a g || has a h)
unfolding has
has-append a [] h = refl
has-append a ((b, v) ∷ g) h =
    ap (λ t. (b == a) || t) (has-append a g h) ∙ or_assoc (b == a) (has a g) (has a h)

has-single : {V : Type 0} (a b : String) (v : V) → has a ((b, v) ∷ []) ≡ ((b == a) || false)
unfolding has
has-single a b v = refl

has-entered : {V : Type 0} (a : String) (v : V) (g : Graph V) → has a (g ++ (a, v) ∷ []) ≡ true
has-entered a v g =
    rw (has-append a g ((a, v) ∷ []), has-single a a v, eq_refl a) (or_right (has a g))

has-grown :
    {V : Type 0} (a b : String) (v : V) (g : Graph V)
    → has a g ≡ true
    → has a (g ++ (b, v) ∷ []) ≡ true
has-grown a b v g h = rw (has-append a g ((b, v) ∷ []), h)

has-other :
    {V : Type 0} (a b : String) (v : V) (g : Graph V)
    → has a g ≡ false
    → b ≢ a
    → has a (g ++ (b, v) ∷ []) ≡ false
has-other a b v g h other =
    let e : (b == a) ≡ false = ground (arith, eq_iff b a) in
    rw (has-append a g ((b, v) ∷ []), has-single a b v, h, e)

module _ {V : Type 0} (dependencies : String → List String) (generate : String → Graph V → Result V)
    (rank : String → ℕ) where
  abbrev B : ℕ → Graph V → Graph V → Type 0
  B = Built dependencies generate rank

  abbrev R : ℕ → Graph V → String → Result (Graph V) → Type 0
  R = Resolved dependencies generate rank

  Built-has :
      {limit : ℕ} {g g' : Graph V} (a : String) → has a g ≡ true → B limit g g' → has a g' ≡ true
  Built-has a h start = h
  Built-has a h (enter {g'} {a = b} {v} built r fresh deps made) =
      has-grown a b v g' (Built-has a h built)

  Built-fresh :
      {limit : ℕ} {g g' : Graph V} (a : String)
      → limit ≤ rank a
      → has a g ≡ false
      → B limit g g'
      → has a g' ≡ false
  Built-fresh a l h start = h
  Built-fresh a l h (enter {g'} {a = b} {v} built r fresh deps made) =
      has-other a b v g' (Built-fresh a l h built)
        (λ e. let same : rank b ≡ rank a = ap rank e in omega arith)

  Built-trans : {limit : ℕ} {g g' g'' : Graph V} → B limit g g' → B limit g' g'' → B limit g g''
  Built-trans p start = p
  Built-trans p (enter built r fresh deps made) = enter (Built-trans p built) r fresh deps made

  Built-weaken : {l m : ℕ} {g g' : Graph V} → l ≤ m → B l g g' → B m g g'
  Built-weaken h start = start
  Built-weaken h (enter built r fresh deps made) =
      enter (Built-weaken h built) (omega arith) fresh deps made

  Resolved-weaken :
      {l m : ℕ} (g : Graph V) (a : String) (r : Result (Graph V)) → l ≤ m → R l g a r → R m g a r
  Resolved-weaken g a (ok g') h (built, there) = (Built-weaken h built, there)
  Resolved-weaken g a (err e) h (b, g', built, failed) = (b, g', Built-weaken h built, failed)

  abbrev Each : ℕ → Graph V → List String → Result (Graph V) → Type 0
  Each limit g bs (ok g') = B limit g g' × All (λ b. has b g' ≡ true) bs
  Each limit g bs (err e) = (b : String) × (g' : Graph V) × B limit g g' × (generate b g' ≡ err e)

  then_rest :
      (limit : ℕ) (g g1 : Graph V) (b : String) (more : List String) (r : Result (Graph V))
      → B limit g g1
      → has b g1 ≡ true
      → Each limit g1 more r
      → Each limit g (b ∷ more) r
  then_rest limit g g1 b more (ok g2) first there (built, all) =
      (Built-trans first built, (Built-has b there built, all))
  then_rest limit g g1 b more (err e) first there (c, g2, built, failed) =
      (c, g2, Built-trans first built, failed)

  resolve_each-Each :
      (limit : ℕ) (f : String → Graph V → Result (Graph V))
      → ((b : String) (g : Graph V) → rank b < limit → R limit g b (f b g))
      → (bs : List String) (g : Graph V) → All (λ b. rank b < limit) bs
      → Each limit g bs (resolve_each f bs g)
  unfolding resolve_each
  resolve_each-Each limit f each [] g h = (start, tt)
  resolve_each-Each limit f each (b ∷ more) g (low, h) =
      by_first (f b g) (each b g low) (λ g1. resolve_each-Each limit f each more g1 h)
    where
      by_first :
          (r : Result (Graph V))
          → R limit g b r
          → ((g1 : Graph V) → Each limit g1 more (resolve_each f more g1))
          → Each limit g (b ∷ more) (bind r (resolve_each f more))
      by_first (err e) failed later = failed
      by_first (ok g1) (built, there) later =
          then_rest limit g g1 b more (resolve_each f more g1) built there (later g1)

  -- after the dependencies
  generated :
      (a : String) (g : Graph V) (r : Result (Graph V))
      → has a g ≡ false
      → Each (rank a) g (dependencies a) r
      → R (rank a + 1) g a (bind r (λ g'. bind (generate a g') (λ v. ok (g' ++ (a, v) ∷ []))))
  generated a g (err e) fresh (b, g', built, failed) =
      (b, g', Built-weaken (omega arith) built, failed)
  generated a g (ok g') fresh (built, all) = by_value (generate a g') refl
    where
      wider : B (rank a + 1) g g'
      wider = Built-weaken (omega arith) built

      by_value :
          (r : Result V)
          → generate a g' ≡ r
          → R (rank a + 1) g a (bind r (λ v. ok (g' ++ (a, v) ∷ [])))
      by_value (err e) failed = (a, g', wider, failed)
      by_value (ok v) made = (
        enter wider (omega arith) (Built-fresh a (omega arith) fresh built) all made,
        has-entered a v g',
      )

  module _ (ranked : IsRanked dependencies generate rank) where
    -- Without a cycle among the dependencies, and with a depth above the rank of an asset, resolve
    -- either enters it and returns a graph that is built of the given one, in which it is: each asset
    -- entered was not there, all that it depends on was, and Generate was called for it once, on the
    -- graph as it then was; or Generate of some asset failed on a graph so built, and that error is
    -- returned. The depth is never used up.
    pub resolve-Resolved :
        (depth : ℕ) (a : String) (g : Graph V)
        → rank a < depth
        → R (rank a + 1) g a (resolve dependencies generate depth a g)
    unfolding resolve
    resolve-Resolved zero a g h = absurd (omega arith)
    resolve-Resolved (suc depth) a g h = by_test (has a g) refl (resolve-Resolved depth)
      where
        by_test :
            (b : Bool)
            → has a g ≡ b
            → ((b : String) (g : Graph V)
                → rank b < depth
                → R (rank b + 1) g b (resolve dependencies generate depth b g))
            → R (rank a + 1) g a (
                if b
                then ok g
                else bind
                    (resolve_each (resolve dependencies generate depth) (dependencies a) g)
                    (λ g'. bind (generate a g') (λ v. ok (g' ++ (a, v) ∷ []))))
        by_test true there deeper = (start, there)
        by_test false fresh deeper =
            generated a g (resolve_each (resolve dependencies generate depth) (dependencies a) g)
              fresh
              (resolve_each-Each (rank a) (resolve dependencies generate depth)
                (λ b g low.
                  Resolved-weaken g b (resolve dependencies generate depth b g) (omega arith)
                    (deeper b g (omega arith)))
                (dependencies a) g (ranked a))
